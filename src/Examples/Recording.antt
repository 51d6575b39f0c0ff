-- ===== src/Examples/Recording.antt =====
-- The admission, the writing and the end of a recording of src/sensor_bag_recorder.cpp on concrete
-- inputs.
use mrp_robo_baton_4p_no_ros.Base.{
  ℕ, ◌≡◌, ◌⊎◌, ◌↔◌, refl, sym, Bool, true, false, Option, none, some, List, All, [], ◌∷◌, ◌++◌,
  arith, replicate, String,
}
use mrp_robo_baton_4p_no_ros.Base.Bytes.{codes}
use mrp_robo_baton_4p_no_ros.Base.Errors.{ok}
use mrp_robo_baton_4p_no_ros.Base.Slots.{tally_none}
use mrp_robo_baton_4p_no_ros.Bag.Encode.{rosbag_time_from_ns}
use mrp_robo_baton_4p_no_ros.Recorder.{
  QueueStats, FrameJob, empty_frame_job, empty_encoded_job, empty_slot, encoded_queue_capacity,
}
use mrp_robo_baton_4p_no_ros.Recorder.Control.{Control}
use mrp_robo_baton_4p_no_ros.Recorder.Imu.{ImuSample, ImuQueue}
use mrp_robo_baton_4p_no_ros.Recorder.Reorder.Progress.{reach-le}
use mrp_robo_baton_4p_no_ros.Recorder.Reorder.Window.{is_live}
use mrp_robo_baton_4p_no_ros.Recorder.Selection.{Selector, cached}
use mrp_robo_baton_4p_no_ros.Recorder.Selection.Alternation.{
  answers, alternating, answers-alternating,
}
use mrp_robo_baton_4p_no_ros.Recorder.FrameSets.{FrameSetItem, FrameSet, Driver}
use mrp_robo_baton_4p_no_ros.Recorder.Admission.{Recorder, try_accept_frame_set}
use mrp_robo_baton_4p_no_ros.Recorder.Admission.References.{
  occurrences, held, IsBalanced, try_accept_frame_set-IsBalanced,
}
use mrp_robo_baton_4p_no_ros.Recorder.Admission.Outcomes.{Outcome, try_accept_frame_set-Outcome}
use mrp_robo_baton_4p_no_ros.Recorder.Payloads.{
  sequence_to_ros_seq, encode_image, imu_payload, double_one, double_minus_one,
}
use mrp_robo_baton_4p_no_ros.Recorder.Payloads.Layout.{
  string_layout, header_layout, doubles, encode_image_lem, imu_payload_lem,
}
use mrp_robo_baton_4p_no_ros.Recorder.Json.{IsRaw, json_escape, json_read, json_read-json_escape}
use mrp_robo_baton_4p_no_ros.Recorder.Ending.{
  published_complete, FinishResult, no_result, PublishResult, Answers, finish,
}
use mrp_robo_baton_4p_no_ros.Recorder.Ending.Verdict.{finish-complete_iff, finish-ends}
use mrp_robo_baton_4p_no_ros.Recorder.Ending.Outcomes.{IsPublished}
use mrp_robo_baton_4p_no_ros.Recorder.Writing.{Written, Writing, writer_entry}
use mrp_robo_baton_4p_no_ros.Recorder.Writing.Draining.{IsClosed}
use mrp_robo_baton_4p_no_ros.Recorder.Writing.Closing.{work, writer_entry-ends}

abbrev running : Control
running = record {
  enabled = true;
  finished = false;
  stopping = false;
  fatal_error = false;
  error_message = "";
  stop_requested = false;
}

abbrev no_stats : QueueStats
no_stats = record {
  peak_depth = 0;
  full_rejects = 0;
  high_watermark = 0;
  at_capacity_dwell_ns = 0;
  at_capacity_events = 0;
  tracker = record { active = false; start_ns = 0 };
}

abbrev skipping : Selector
skipping = record {
  record_target_fps = 15;
  record_frame_skip = 1;
  record_selections = [];
  next_group_should_record = true;
}

answers-alternating_example : answers (4 ∷ 5 ∷ 9 ∷ []) skipping ≡ alternating true 3
unfolding cached
answers-alternating_example =
    answers-alternating (4 ∷ 5 ∷ 9 ∷ []) skipping
      (record { records = omega arith; skips = refl; bounded = omega arith })
      (refl, (refl, (refl, tt)))
      ((λ e. omega arith, (λ e. omega arith, tt)), ((λ e. omega arith, tt), (tt, tt)))

-- The frame 7 is queued, and a set with the frame 8 of camera 0 arrives.
abbrev queued_job : FrameJob
queued_job = record empty_frame_job { raw_frame = some 7 }

abbrev recorder : Recorder
recorder = record {
  control = running;
  camera_mask = 1;
  selector = record skipping { record_frame_skip = 0 };
  counts = record {
    source_frame_sets_seen = 0;
    recorder_selected_groups = 0;
    recorder_admitted_groups = 0;
    encoded_queue_full_rejects = 0;
  };
  frames = record {
    jobs = queued_job ∷ [];
    next_frame_order = 1;
    stats = no_stats;
    retained = 7 ∷ [];
    released = [];
  };
  encoded = record {
    slots = λ i. empty_slot;
    count = 0;
    next_write_order = 0;
    input_closed = false;
    high_watermark = 3840;
    stats = no_stats;
  };
  evictions = record {
    oldest_evicted_groups = 0;
    oldest_evicted_frames = 0;
    oldest_evicted_bytes = 0;
  };
}

abbrev item : FrameSetItem
item = record {
  frame = some 8;
  camera_id = 0;
  frame_id = 20;
  sequence = 11;
  timestamp_ns = 5000;
  width = 1280;
  height = 1088;
}

abbrev frame_set : FrameSet
frame_set = record {
  struct_size = 224;
  camera_count = 1;
  group_id = 6;
  group_timestamp_ns = 5000;
  items = item ∷ item ∷ item ∷ item ∷ [];
}

abbrev driver : Driver
driver = record {
  get_info = λ frame. some (record {
    struct_size = 128;
    camera_id = 0;
    sequence = 11;
    frame_id = 20;
    has_y_data = true;
    has_uv_data = true;
    width = 1280;
    height = 1088;
    stride = 1280;
    vstride = 1088;
  });
  retains = λ frame. true;
  allocates = λ frame. true;
}

queued_once : IsBalanced recorder.frames
unfolding occurrences held
queued_once = record { balance = λ frame. omega arith }

try_accept_frame_set-IsBalanced_example :
    IsBalanced (try_accept_frame_set 9 driver frame_set recorder).0.frames
try_accept_frame_set-IsBalanced_example =
    try_accept_frame_set-IsBalanced 9 driver frame_set recorder queued_once

try_accept_frame_set-Outcome_example :
    Outcome driver frame_set recorder (try_accept_frame_set 9 driver frame_set recorder)
try_accept_frame_set-Outcome_example = try_accept_frame_set-Outcome 9 driver frame_set recorder refl

encode_image_lem_example :
    encode_image 12 1500000000 (codes "robobaton_camera0_optical") (255 ∷ 216 ∷ [])
    ≡ ok (
        header_layout
          (sequence_to_ros_seq 12)
          (rosbag_time_from_ns 1500000000)
          (codes "robobaton_camera0_optical")
        ++ (string_layout (codes "jpeg") ++ string_layout (255 ∷ 216 ∷ [])))
encode_image_lem_example =
    encode_image_lem 12 1500000000 (codes "robobaton_camera0_optical") (255 ∷ 216 ∷ [])
      (omega arith) (omega arith)

abbrev sample : ImuSample
sample = record {
  struct_size = 120;
  sample_sequence = 3;
  sample_timestamp_ns = 2000000;
  gyro_rps = 1 ∷ 2 ∷ 3 ∷ [];
  accel_mps2 = 4 ∷ 5 ∷ 6 ∷ [];
}

imu_payload_lem_example :
    imu_payload sample
    ≡ ok (
        header_layout
          (sequence_to_ros_seq sample.sample_sequence)
          (rosbag_time_from_ns sample.sample_timestamp_ns)
          (codes "robobaton_imu_link")
        ++ (doubles (0 ∷ 0 ∷ 0 ∷ double_one ∷ [])
            ++ (doubles (double_minus_one ∷ replicate 8 0)
                ++ (doubles sample.gyro_rps
                    ++ (doubles (replicate 9 0)
                        ++ (doubles sample.accel_mps2 ++ doubles (replicate 9 0)))))))
imu_payload_lem_example = imu_payload_lem sample

json_read-json_escape_example :
    ((All (λ ch. ¬ IsRaw ch) (codes "a\"b"))
      × (json_read false (json_escape (codes "a\"b") ++ b'"' ∷ (codes ","))
          ≡ some ((codes "a\"b"), (codes ","))))
    ⊎ ((before : List ℕ) × (ch : ℕ) × (after : List ℕ) × ((codes "a\"b") ≡ before ++ ch ∷ after)
        × IsRaw ch
        × (json_read false (json_escape (codes "a\"b") ++ b'"' ∷ (codes ",")) ≡ none))
json_read-json_escape_example = json_read-json_escape (codes "a\"b") (codes ",")

abbrev published : PublishResult
published = record {
  durability_unproven = false;
  data_complete = true;
  cleanup_complete = true;
  session_uuid = codes "6f-1";
  published_path = codes "/data/run.bag";
  quarantine_path = [];
  error = [];
}

abbrev all_well : Answers
all_well = record {
  stop_jpeg = none;
  session_uuid = codes "6f-1";
  write_status = λ outcome. ok tt;
  publish = λ data_complete. ok published;
  abort = record { cleanup_complete = true; error = "" };
}

abbrev one_sample : ImuQueue
one_sample = record { samples = λ i. sample; head = 0; count = 1; stats = no_stats; admitted = 1 }

finish-complete_iff_example :
    ((finish all_well true one_sample no_result recorder).1.outcome ≡ published_complete) ↔ (
      (true ≡ true)
      × (recorder.control.fatal_error ≡ false)
      × (recorder.frames.stats.full_rejects ≡ 0)
      × (recorder.counts.encoded_queue_full_rejects ≡ 0)
      × (recorder.evictions.oldest_evicted_groups ≡ 0)
      × (one_sample.stats.full_rejects ≡ 0)
      × (all_well.stop_jpeg ≡ none)
      × (all_well.write_status published_complete ≡ ok tt)
      × IsPublished all_well)
finish-complete_iff_example =
    finish-complete_iff all_well true one_sample no_result recorder refl refl

finish-ends_example :
    (r' : Recorder) × (result : FinishResult) × (finish all_well true one_sample no_result recorder
      ≡ (r', result))
    × (r'.frames.jobs ≡ [])
    × ((frame : ℕ) → occurrences frame r'.frames.retained ≡ occurrences frame r'.frames.released)
    × (r'.control.enabled ≡ false)
    × ((answers' : Answers) (success' : Bool) (imu' : ImuQueue)
        → finish answers' success' imu' result r' ≡ (r', result))
finish-ends_example = finish-ends all_well true one_sample no_result recorder refl refl queued_once

-- An image of the order before the next turn is with the thread, and a sample waits.
abbrev last_messages : Writing
last_messages = record {
  control = running;
  encoded = record recorder.encoded { input_closed = true; next_write_order = 1 };
  imu_queue = one_sample;
  pending_images = (empty_encoded_job, 0) ∷ [];
  image_burst_count = 0;
  backlog_peak_depth = 1;
  log = [];
}

last_messages-IsClosed : IsClosed last_messages
last_messages-IsClosed = record {
  lasting = record {
    window = record {
      placed = λ i below. record {
        from_next = λ o. cc;
        in_window = λ o. cc;
        at_index = λ o. cc;
        labelled = λ o. cc;
      };
      counted = sym (tally_none is_live encoded_queue_capacity _ (λ i. refl));
    };
    in_range =
        omega
          (arith, reach-le (record recorder.encoded { input_closed = true; next_write_order = 1 }));
  };
  closed = refl;
  ring = record { head_below = omega arith; count_le = omega arith };
}

abbrev answering : Written → Option String
answering message = none

writer_entry-ends_example :
    ((writer_entry answering 3 9 last_messages).1 ≡ true)
    × (((writer_entry answering 3 9 last_messages).0.control.fatal_error ≡ true)
        ⊎ (work (writer_entry answering 3 9 last_messages).0 ≡ 0))
writer_entry-ends_example =
    writer_entry-ends answering 3 9 last_messages last_messages-IsClosed (omega arith)
