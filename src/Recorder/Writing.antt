-- ===== src/Recorder/Writing.antt =====
-- src/sensor_bag_recorder.cpp: the writer's thread, `WriterEntry`, which takes the encoded frames in
-- their order and the IMU samples and writes them to the bag. One round of its loop is a function of
-- the state that it shares; what the bag writer answers to a message is given, as is the time. The
-- vector of pending images is the list from its head on.
pub mod Draining
pub mod Closing
use mrp_robo_baton_4p_no_ros.Base.{
  ℕ, zero, suc, ◌+◌, ◌-◌, ◌*◌, ◌/◌, Bool, true, false, not, ◌&&◌, ◌||◌, Option, none, some, List,
  [], ◌∷◌, ◌++◌, length, ltb, leb, ◌==◌, if◌then◌else◌, String, min, max,
}
use mrp_robo_baton_4p_no_ros.Recorder.{
  EncodedFrameJob, imu_queue_capacity, writer_imu_high_watermark,
}
use mrp_robo_baton_4p_no_ros.Recorder.Control.{Control, set_fatal_error}
use mrp_robo_baton_4p_no_ros.Recorder.Imu.{ImuSample, ImuQueue, pop_imu_batch}
use mrp_robo_baton_4p_no_ros.Recorder.Reorder.{EncodedQueue, slot_at, pop_next_encoded_frame}

abbrev pub writer_image_prefetch_limit : ℕ
writer_image_prefetch_limit = 8

abbrev pub writer_image_burst_before_imu : ℕ
writer_image_burst_before_imu = 8

abbrev pub writer_imu_drain_batch : ℕ
writer_imu_drain_batch = 64

abbrev pub writer_imu_high_watermark_drain_batch : ℕ
writer_imu_high_watermark_drain_batch = 256

-- What the thread writes.
pub data Written : Type 0 where
  image : EncodedFrameJob → ℕ → Written
  imu : ImuSample → Written

-- `writes` is none if a message is written, else the error. `log` has what was written, oldest first.
pub record Writing : Type 0 where
  pub control : Control
  pub encoded : EncodedQueue
  pub imu_queue : ImuQueue
  pub pending_images : List (EncodedFrameJob × ℕ)
  pub image_burst_count : ℕ
  pub backlog_peak_depth : ℕ
  pub log : List Written

unfoldable pub writer_inputs_closed : EncodedQueue → ImuQueue → Bool
writer_inputs_closed q imu_queue = q.input_closed && (q.count == 0 && imu_queue.count == 0)

unfoldable pub has_closed_encoded_order_gap : EncodedQueue → Bool
has_closed_encoded_order_gap q = q.input_closed && not (q.count == 0)

-- The test under which the thread wakes up.
unfoldable pub writer_input_ready : Bool → EncodedQueue → ImuQueue → Bool
unfolding writer_inputs_closed
writer_input_ready fatal_error q imu_queue =
    let slot = slot_at q.next_write_order q in
    if fatal_error
    then true
    else if slot.occupied && slot.record_order == q.next_write_order
    then true
    else if q.input_closed
    then true
    else if not (imu_queue.count == 0)
    then true
    else writer_inputs_closed q imu_queue

-- A prefetched image waits behind the others.
unfoldable pub keep_pending : EncodedQueue → EncodedFrameJob × ℕ → Writing → Writing
keep_pending q encoded w = record w {
  encoded = q;
  pending_images = w.pending_images ++ encoded ∷ [];
  backlog_peak_depth = max w.backlog_peak_depth (length w.pending_images + 1);
}

-- `prefetch_ready_images`, with the room that is left.
unfoldable pub prefetch_ready_images : ℕ → ℕ → Writing → Writing
unfolding keep_pending
prefetch_ready_images now_ns zero w = w
prefetch_ready_images now_ns (suc room) w =
    let popped = pop_next_encoded_frame now_ns w.control.fatal_error w.encoded in
    elim popped.1 [
      | none ↦ record w { encoded = popped.0 }
      | some encoded ↦ prefetch_ready_images now_ns room (keep_pending popped.0 encoded w)
    ]

module _ (writes : Written → Option String) where
  -- A message is written, or its error is fatal.
  unfoldable pub write : Written → Writing → Writing × Bool
  write message w = elim (writes message) [
    | none ↦ (record w { log = w.log ++ message ∷ [] }, true)
    | some error ↦ (record w { control = set_fatal_error error w.control }, false)
  ]

  -- `write_pending_image`, of the first.
  unfoldable pub write_pending_image : List (EncodedFrameJob × ℕ) → Writing → Writing × Bool
  unfolding write
  write_pending_image [] w = (w, true)
  write_pending_image ((encoded, order_wait_ns) ∷ rest) w =
      let (w', done) = write (image encoded order_wait_ns) (record w { pending_images = rest }) in
      (if done then record w' { image_burst_count = w'.image_burst_count + 1 } else w', done)

  -- The samples of a batch.
  unfoldable pub write_imu_samples : List ImuSample → Writing → Writing × Bool
  unfolding write
  write_imu_samples [] w = (w, true)
  write_imu_samples (sample ∷ samples) w =
      let written = write (imu sample) w in
      let rest = write_imu_samples samples (record written.0 { image_burst_count = 0 }) in
      if written.1 then rest else written

  -- A batch that was taken out of the ring, and the drain of the others by `rest`.
  unfoldable pub drain_batch :
      List ImuSample → (ℕ → Writing → Writing × Bool) → Writing → Writing × Bool
  unfolding write_imu_samples
  drain_batch [] rest w = (w, true)
  drain_batch (sample ∷ samples) rest w =
      let written = write_imu_samples (sample ∷ samples) w in
      if written.1 then rest (length samples + 1) written.0 else written

  -- `drain_imu_samples`. A round takes at least one sample, so that as many rounds as samples are
  -- enough.
  unfoldable pub drain_imu_samples : ℕ → ℕ → ℕ → Writing → Writing × Bool
  unfolding drain_batch
  drain_imu_samples zero now_ns left w = (w, true)
  drain_imu_samples (suc fuel) now_ns left w =
      let popped =
        pop_imu_batch now_ns (min left writer_imu_high_watermark_drain_batch) w.imu_queue in
      drain_batch popped.1 (λ taken. drain_imu_samples fuel now_ns (left - taken))
        (record w { imu_queue = popped.0 })

  -- With images pending: the samples first, when their ring is half full or the burst is over.
  unfoldable pub drain_before_image : ℕ → Writing → Writing × Bool
  drain_before_image now_ns w =
      let imu_high_water = leb writer_imu_high_watermark w.imu_queue.count in
      let limit =
        if imu_high_water then writer_imu_high_watermark_drain_batch else writer_imu_drain_batch in
      if imu_high_water || leb writer_image_burst_before_imu w.image_burst_count
      then drain_imu_samples limit now_ns limit w
      else (w, true)

  unfoldable pub write_images : ℕ → Writing → Writing × Bool
  write_images now_ns w =
      let drained = drain_before_image now_ns w in
      if drained.1 then write_pending_image drained.0.pending_images drained.0 else drained

  -- Without: samples, and the tests for the end. The answer tells whether the loop goes on.
  unfoldable pub write_samples : ℕ → Writing → Writing × Bool
  write_samples now_ns w =
      let drained = drain_imu_samples writer_imu_drain_batch now_ns writer_imu_drain_batch w in
      let w' = drained.0 in
      if not drained.1
      then drained
      else if writer_inputs_closed w'.encoded w'.imu_queue
      then (w', false)
      else if has_closed_encoded_order_gap w'.encoded
      then (
        record w' { control = set_fatal_error "bag recorder encoded order gap" w'.control },
        false,
      )
      else (w', true)

  -- A round of the loop, the wait being over.
  unfoldable pub writer_round : ℕ → Writing → Writing × Bool
  writer_round now_ns w =
      let w' =
        prefetch_ready_images now_ns (writer_image_prefetch_limit - length w.pending_images) w in
      if w.control.fatal_error
      then (w, false)
      else if ltb 0 (length w'.pending_images)
      then write_images now_ns w'
      else write_samples now_ns w'

  -- `WriterEntry`, on fuel; the answer tells whether the loop ended.
  unfoldable pub writer_entry : ℕ → ℕ → Writing → Writing × Bool
  writer_entry zero now_ns w = (w, false)
  writer_entry (suc fuel) now_ns w =
      let round = writer_round now_ns w in
      elim round.1 [ true ↦ writer_entry fuel now_ns round.0 | false ↦ (round.0, true) ]
