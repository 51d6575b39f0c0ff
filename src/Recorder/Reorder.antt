-- ===== src/Recorder/Reorder.antt =====
-- src/sensor_bag_recorder.cpp: the ring in which encoded frames wait for their turn in the record
-- order, `PublishEncodedFrame` and `PopNextEncodedFrame`. The pool of payloads and the notifications
-- are left out.
pub mod Window
pub mod Skipping
pub mod Turns
pub mod Progress
pub mod Eviction
use mrp_robo_baton_4p_no_ros.Base.{
  ℕ, zero, suc, ◌+◌, ◌-◌, ◌%◌, ◌^◌, Bool, true, false, not, ◌&&◌, ◌||◌, Option, none, some, ltb,
  leb, ◌==◌, if◌then◌else◌, String,
}
use mrp_robo_baton_4p_no_ros.Base.Errors.{Exception, Result, ok, throws, runtime_error}
use mrp_robo_baton_4p_no_ros.Base.Slots.{update}
use mrp_robo_baton_4p_no_ros.Bag.Latency.{increment64}
use mrp_robo_baton_4p_no_ros.Recorder.{
  QueueStats, EncodedFrameJob, EncodedFrameSlot, empty_slot, encoded_queue_capacity,
}
use mrp_robo_baton_4p_no_ros.Recorder.Accounting.{sub64, update_encoded_queue_accounting}
use mrp_robo_baton_4p_no_ros.Recorder.Control.{Control}

-- `count` is `encoded_queue_count_`, `input_closed` is `encoded_input_closed_`, and `high_watermark`
-- is `encoded_admission_high_watermark_`.
pub record EncodedQueue : Type 0 where
  pub slots : ℕ → EncodedFrameSlot
  pub count : ℕ
  pub next_write_order : ℕ
  pub input_closed : Bool
  pub high_watermark : ℕ
  pub stats : QueueStats

abbrev pub slot_at : ℕ → EncodedQueue → EncodedFrameSlot
slot_at record_order q = q.slots (record_order % encoded_queue_capacity)

-- What the publisher waits for.
unfoldable pub may_publish : Bool → ℕ → EncodedQueue → Bool
may_publish fatal_error record_order q =
    if fatal_error || ltb record_order q.next_write_order
    then true
    else if leb encoded_queue_capacity (record_order - q.next_write_order)
    then false
    else not (slot_at record_order q).occupied

unfoldable pub store_encoded_frame : ℕ → EncodedFrameJob → EncodedQueue → EncodedQueue
store_encoded_frame now_ns encoded q = record q {
  slots = update q.slots (encoded.job.record_order % encoded_queue_capacity) (record {
    record_order = encoded.job.record_order;
    occupied = true;
    evicted = false;
    job = record encoded { queued_timestamp_ns = now_ns };
  });
  count = q.count + 1;
  stats = update_encoded_queue_accounting now_ns q.high_watermark (q.count + 1) q.stats;
}

-- `PublishEncodedFrame` when the wait is over.
unfoldable pub publish_encoded_frame :
    ℕ → Control → EncodedFrameJob → EncodedQueue → Result EncodedQueue
unfolding store_encoded_frame
publish_encoded_frame now_ns control encoded q =
    if control.fatal_error
    then throws (runtime_error control.error_message)
    else if ltb encoded.job.record_order q.next_write_order
    then throws (runtime_error "late bag recorder record order")
    else if (slot_at encoded.job.record_order q).occupied
    then if (slot_at encoded.job.record_order q).record_order == encoded.job.record_order
      then throws (runtime_error "duplicate bag recorder record order")
      else throws (runtime_error "bag recorder encoded reorder invariant violated")
    else ok (store_encoded_frame now_ns encoded q)

-- The test of the loop over evicted orders.
unfoldable pub is_evicted_turn : EncodedQueue → Bool
is_evicted_turn q =
    let slot = slot_at q.next_write_order q in
    slot.occupied && (slot.record_order == q.next_write_order && slot.evicted)

unfoldable pub skip_turn : EncodedQueue → EncodedQueue
skip_turn q = record q {
  slots = update q.slots (q.next_write_order % encoded_queue_capacity) empty_slot;
  next_write_order = increment64 q.next_write_order;
}

-- A round of the loop empties a slot, so that as many rounds as slots are enough.
unfoldable pub skip_evicted : ℕ → EncodedQueue → EncodedQueue
skip_evicted zero q = q
skip_evicted (suc fuel) q =
    let rest = skip_evicted fuel (skip_turn q) in if is_evicted_turn q then rest else q

-- The frame whose turn it is waits in its slot.
unfoldable pub is_ready_turn : EncodedQueue → Bool
is_ready_turn q =
    let slot = slot_at q.next_write_order q in
    slot.occupied && (not slot.evicted && slot.record_order == q.next_write_order)

unfoldable pub order_wait : ℕ → EncodedFrameJob → ℕ
order_wait now_ns encoded =
    if encoded.queued_timestamp_ns == 0 then 0 else sub64 now_ns encoded.queued_timestamp_ns

unfoldable pub take_turn : ℕ → EncodedQueue → EncodedQueue
take_turn now_ns q = record q {
  slots = update q.slots (q.next_write_order % encoded_queue_capacity) empty_slot;
  count = q.count - 1;
  stats = update_encoded_queue_accounting now_ns q.high_watermark (q.count - 1) q.stats;
  next_write_order = increment64 q.next_write_order;
}

-- `PopNextEncodedFrame`: the frame and the time that it waited.
unfoldable pub pop_next_encoded_frame :
    ℕ → Bool → EncodedQueue → EncodedQueue × Option (EncodedFrameJob × ℕ)
pop_next_encoded_frame now_ns fatal_error q =
    let q' = skip_evicted encoded_queue_capacity q in
    let encoded = (slot_at q'.next_write_order q').job in
    if fatal_error || not (is_ready_turn q')
    then (q', none)
    else (take_turn now_ns q', some (encoded, order_wait now_ns encoded))
