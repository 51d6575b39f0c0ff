-- ===== src/Examples/Queues.antt =====
-- The queues of src/sensor_bag_recorder.cpp on concrete inputs.
use mrp_robo_baton_4p_no_ros.Base.{
  ℕ, ◌+◌, ◌*◌, ◌≤◌, ◌<◌, ◌≡◌, ◌≢◌, ◌⊎◌, refl, sym, true, false, none, some, List, [], ◌∷◌, ◌++◌,
  length, ◌==◌, min, arith,
}
use mrp_robo_baton_4p_no_ros.Base.Errors.{ok, throws, runtime_error}
use mrp_robo_baton_4p_no_ros.Base.Slots.{tally_none}
use mrp_robo_baton_4p_no_ros.Bag.Latency.{increment64}
use mrp_robo_baton_4p_no_ros.Recorder.{
  QueueStats, FrameJob, empty_frame_job, EncodedFrameJob, empty_encoded_job, empty_slot,
  encoded_queue_capacity, imu_queue_capacity,
}
use mrp_robo_baton_4p_no_ros.Recorder.Control.{Control}
use mrp_robo_baton_4p_no_ros.Recorder.Imu.{ImuSample, ImuQueue, admit_imu_sample, pop_imu_batch}
use mrp_robo_baton_4p_no_ros.Recorder.Imu.Contents.{
  IsRing, contents, admit_imu_sample-contents, pop_imu_batch-contents,
}
use mrp_robo_baton_4p_no_ros.Recorder.Reorder.{
  EncodedQueue, slot_at, may_publish, store_encoded_frame, publish_encoded_frame, is_evicted_turn,
  skip_evicted, pop_next_encoded_frame,
}
use mrp_robo_baton_4p_no_ros.Recorder.Reorder.Window.{
  is_live, IsWindow, store_encoded_frame-IsWindow, publish_encoded_frame-IsWindow,
}
use mrp_robo_baton_4p_no_ros.Recorder.Reorder.Turns.{IsEvicted, pop_next_encoded_frame-InTurn}
use mrp_robo_baton_4p_no_ros.Recorder.Reorder.Skipping.{skip_evicted-ends}
use mrp_robo_baton_4p_no_ros.Recorder.Reorder.Eviction.{
  EvictionStats, effective_watermark, make_encoded_admission_room,
}
use mrp_robo_baton_4p_no_ros.Recorder.Reorder.Eviction.Room.{
  MakesRoom, make_encoded_admission_room-MakesRoom,
}
use mrp_robo_baton_4p_no_ros.Recorder.FrameSets.{pop_frame}
use mrp_robo_baton_4p_no_ros.Recorder.FrameSets.Queue.{of_camera, pop_frame-of_camera}

abbrev running : Control
running = record {
  enabled = true;
  finished = false;
  stopping = false;
  fatal_error = false;
  error_message = "";
  stop_requested = false;
}

abbrev no_stats : QueueStats
no_stats = record {
  peak_depth = 0;
  full_rejects = 0;
  high_watermark = 0;
  at_capacity_dwell_ns = 0;
  at_capacity_events = 0;
  tracker = record { active = false; start_ns = 0 };
}

abbrev encoded_at : ℕ → EncodedFrameJob
encoded_at record_order = record empty_encoded_job {
  job = record empty_frame_job { record_order = record_order };
  image_payload = 255 ∷ 216 ∷ [];
}

-- An empty ring whose next turn is 3, and one in which the frame of turn 3 waits.
abbrev empty_ring : EncodedQueue
empty_ring = record {
  slots = λ i. empty_slot;
  count = 0;
  next_write_order = 3;
  input_closed = false;
  high_watermark = 1;
  stats = no_stats;
}

empty_ring-IsWindow : IsWindow empty_ring
empty_ring-IsWindow = record {
  placed = λ i below. record {
    from_next = λ o. cc;
    in_window = λ o. cc;
    at_index = λ o. cc;
    labelled = λ o. cc;
  };
  counted = sym (tally_none is_live encoded_queue_capacity _ (λ i. refl));
}

abbrev one_waiting : EncodedQueue
one_waiting = store_encoded_frame 5 (encoded_at 3) empty_ring

one_waiting-IsWindow : IsWindow one_waiting
one_waiting-IsWindow =
    store_encoded_frame-IsWindow 5 (encoded_at 3) empty_ring empty_ring-IsWindow (omega arith)
      (omega arith) refl

publish_encoded_frame-IsWindow_example :
    ((running.fatal_error ≡ true)
      × (publish_encoded_frame 9 running (encoded_at 4) one_waiting
          ≡ throws (runtime_error running.error_message)))
    ⊎ (((encoded_at 4).job.record_order < one_waiting.next_write_order)
        × (publish_encoded_frame 9 running (encoded_at 4) one_waiting
            ≡ throws (runtime_error "late bag recorder record order")))
    ⊎ ((q' : EncodedQueue) × (publish_encoded_frame 9 running (encoded_at 4) one_waiting ≡ ok q')
        × IsWindow q'
        × (q'.count ≡ one_waiting.count + 1)
        × (q'.next_write_order ≡ one_waiting.next_write_order)
        × ((slot_at (encoded_at 4).job.record_order q').job.image_payload
            ≡ (encoded_at 4).image_payload)
        × ((slot_at (encoded_at 4).job.record_order q').job.metadata_payload
            ≡ (encoded_at 4).metadata_payload)
        × ((slot_at (encoded_at 4).job.record_order q').job.job ≡ (encoded_at 4).job))
unfolding may_publish store_encoded_frame
publish_encoded_frame-IsWindow_example =
    publish_encoded_frame-IsWindow 9 running (encoded_at 4) one_waiting one_waiting-IsWindow refl

skip_evicted-ends_example :
    is_evicted_turn (skip_evicted encoded_queue_capacity one_waiting) ≡ false
skip_evicted-ends_example = skip_evicted-ends one_waiting

pop_next_encoded_frame-InTurn_example :
    (q' : EncodedQueue) × (order : ℕ) × (((pop_next_encoded_frame 9 false one_waiting ≡ (q', none))
        × (q'.next_write_order ≡ order)
        × (q'.count ≡ one_waiting.count)
        × ((false ≡ true)
            ⊎ ((slot_at order q').occupied ≡ false)
            ⊎ ((slot_at order q').record_order ≢ order)))
      ⊎ ((encoded : EncodedFrameJob) × (wait : ℕ) × (pop_next_encoded_frame 9 false one_waiting
            ≡ (q', some (encoded, wait)))
          × (encoded.job.record_order ≡ order)
          × (encoded ≡ (slot_at order one_waiting).job)
          × (q'.next_write_order ≡ order + 1)
          × (q'.count + 1 ≡ one_waiting.count)))
    × IsWindow q'
    × (one_waiting.next_write_order ≤ order)
    × ((o : ℕ) → one_waiting.next_write_order ≤ o → o < order → IsEvicted one_waiting o)
pop_next_encoded_frame-InTurn_example =
    pop_next_encoded_frame-InTurn 9 false one_waiting one_waiting-IsWindow
      (unfold store_encoded_frame in omega arith)

abbrev no_evictions : EvictionStats
no_evictions = record {
  oldest_evicted_groups = 0;
  oldest_evicted_frames = 0;
  oldest_evicted_bytes = 0;
}

make_encoded_admission_room-MakesRoom_example :
    (make_encoded_admission_room 9 1 (one_waiting, no_evictions)
      ≡ ((one_waiting, no_evictions), false))
    ⊎ ((q' : EncodedQueue) × (stats' : EvictionStats) × (make_encoded_admission_room 9 1
            (one_waiting, no_evictions)
          ≡ ((q', stats'), true))
        × (q'.count < effective_watermark q')
        × (((q' ≡ one_waiting) × (stats' ≡ no_evictions))
            ⊎ MakesRoom 1 one_waiting q' no_evictions stats'))
make_encoded_admission_room-MakesRoom_example =
    make_encoded_admission_room-MakesRoom 9 1 one_waiting no_evictions one_waiting-IsWindow
      (unfold store_encoded_frame in omega arith) (unfold store_encoded_frame in omega arith)

abbrev sample_of : ℕ → ImuSample
sample_of sample_sequence = record {
  struct_size = 120;
  sample_sequence = sample_sequence;
  sample_timestamp_ns = 1000 * sample_sequence;
  gyro_rps = 1 ∷ 2 ∷ 3 ∷ [];
  accel_mps2 = 4 ∷ 5 ∷ 6 ∷ [];
}

-- Two samples wait around the end of the ring.
abbrev turning : ImuQueue
turning = record { samples = sample_of; head = 8191; count = 2; stats = no_stats; admitted = 2 }

turning-IsRing : IsRing turning
turning-IsRing = record { head_below = omega arith; count_le = omega arith }

admit_imu_sample-contents_example :
    IsRing (admit_imu_sample 7 (sample_of 5) turning).0
    × (((turning.count < imu_queue_capacity)
          × (contents (admit_imu_sample 7 (sample_of 5) turning).0
              ≡ contents turning ++ (sample_of 5) ∷ [])
          × ((admit_imu_sample 7 (sample_of 5) turning).0.admitted ≡ increment64 turning.admitted)
          × ((admit_imu_sample 7 (sample_of 5) turning).1 ≡ (turning.count == 0)))
        ⊎ ((turning.count ≡ imu_queue_capacity)
            × (contents (admit_imu_sample 7 (sample_of 5) turning).0 ≡ contents turning)
            × ((admit_imu_sample 7 (sample_of 5) turning).0.stats.full_rejects
                ≡ increment64 turning.stats.full_rejects)
            × ((admit_imu_sample 7 (sample_of 5) turning).1 ≡ false)))
admit_imu_sample-contents_example = admit_imu_sample-contents 7 (sample_of 5) turning turning-IsRing

pop_imu_batch-contents_example :
    IsRing (pop_imu_batch 7 64 turning).0
    × ((pop_imu_batch 7 64 turning).1 ++ contents (pop_imu_batch 7 64 turning).0 ≡ contents turning)
    × (length (pop_imu_batch 7 64 turning).1 ≡ min 64 (length (contents turning)))
pop_imu_batch-contents_example = pop_imu_batch-contents 7 64 turning turning-IsRing

abbrev job_of : ℕ → ℕ → FrameJob
job_of camera_id sequence = record empty_frame_job { camera_id = camera_id; sequence = sequence }

abbrev three_jobs : List FrameJob
three_jobs = job_of 0 1 ∷ job_of 2 1 ∷ job_of 2 2 ∷ []

pop_frame-of_camera_example :
    ((pop_frame 2 three_jobs ≡ none) × (of_camera 2 three_jobs ≡ []))
    ⊎ ((job : FrameJob) × (rest : List FrameJob) × (pop_frame 2 three_jobs ≡ some (job, rest))
        × (of_camera 2 three_jobs ≡ job ∷ of_camera 2 rest)
        × (length three_jobs ≡ length rest + 1)
        × ((other : ℕ) → other ≢ 2 → of_camera other rest ≡ of_camera other three_jobs))
pop_frame-of_camera_example = pop_frame-of_camera 2 three_jobs
