-- ===== src/Recorder/Reorder/Progress.antt =====
-- src/sensor_bag_recorder.cpp: a turn that leaves the reorder ring empties a slot, so that what may
-- still leave it shrinks, whatever stays of it.
use mrp_robo_baton_4p_no_ros.Base.{
  ℕ, zero, suc, ◌+◌, ◌%◌, ◌^◌, ◌≤◌, ◌<◌, ◌≡◌, ◌⊎◌, refl, ◌∙◌, Bool, true, not, ◌||◌, none, some,
  arith, inl, inr, Bool-cases,
}
use mrp_robo_baton_4p_no_ros.Base.Slots.{tally, tally-update, tally-le}
use mrp_robo_baton_4p_no_ros.Recorder.{EncodedFrameJob, empty_slot, encoded_queue_capacity}
use mrp_robo_baton_4p_no_ros.Recorder.Reorder.{
  EncodedQueue, is_evicted_turn, skip_turn, skip_evicted, is_ready_turn, take_turn,
  pop_next_encoded_frame,
}
use mrp_robo_baton_4p_no_ros.Recorder.Reorder.Window.{IsWindow}
use mrp_robo_baton_4p_no_ros.Recorder.Reorder.Turns.{pop_next_encoded_frame-InTurn}
use mrp_robo_baton_4p_no_ros.Recorder.Reorder.Skipping.{occupied}

-- The turns and the slots that hold something: a turn moves one from these to those.
pub reach : EncodedQueue → ℕ
reach q = q.next_write_order + tally occupied encoded_queue_capacity q.slots

pub reach-le : (q : EncodedQueue) → reach q ≤ q.next_write_order + encoded_queue_capacity
unfolding reach
reach-le q = omega (arith, tally-le occupied encoded_queue_capacity q.slots)

-- What a queue keeps as its turns pass.
pub record Passes (q q' : EncodedQueue) : Type 0 where
  pub same_reach : reach q' ≡ reach q
  pub same_input : q'.input_closed ≡ q.input_closed

skip_turn-Passes :
    (q : EncodedQueue) → reach q + 1 < 2 ^ 64 → is_evicted_turn q ≡ true → Passes q (skip_turn q)
unfolding skip_turn is_evicted_turn reach
skip_turn-Passes q small turn =
    let step =
      tally-update occupied encoded_queue_capacity q.slots
        (q.next_write_order % encoded_queue_capacity) empty_slot (omega arith) in
    record { same_reach = ground arith; same_input = refl }

take_turn-Passes :
    (now_ns : ℕ) (q : EncodedQueue)
    → reach q + 1 < 2 ^ 64
    → is_ready_turn q ≡ true
    → Passes q (take_turn now_ns q)
unfolding take_turn is_ready_turn reach
take_turn-Passes now_ns q small turn =
    let step =
      tally-update occupied encoded_queue_capacity q.slots
        (q.next_write_order % encoded_queue_capacity) empty_slot (omega arith) in
    record { same_reach = ground arith; same_input = refl }

skip_evicted-Passes :
    (fuel : ℕ) (q : EncodedQueue) → reach q + 1 < 2 ^ 64 → Passes q (skip_evicted fuel q)
unfolding skip_evicted
skip_evicted-Passes zero q small = record { same_reach = refl; same_input = refl }
skip_evicted-Passes (suc fuel) q small = elim (Bool-cases (is_evicted_turn q)) [
  | inl turn ↦
      let first = skip_turn-Passes q small turn in
      let rest = skip_evicted-Passes fuel (skip_turn q) (omega (arith, first.same_reach)) in
      rw turn (record {
        same_reach = rest.same_reach ∙ first.same_reach;
        same_input = rest.same_input ∙ first.same_input;
      })
  | inr done ↦ rw done (record { same_reach = refl; same_input = refl })
]

pub pop_next_encoded_frame-Passes :
    (now_ns : ℕ) (fatal_error : Bool) (q : EncodedQueue)
    → reach q + 1 < 2 ^ 64
    → Passes q (pop_next_encoded_frame now_ns fatal_error q).0
unfolding pop_next_encoded_frame
pop_next_encoded_frame-Passes now_ns fatal_error q small =
    let q' : EncodedQueue = skip_evicted encoded_queue_capacity q in
    let skipped = skip_evicted-Passes encoded_queue_capacity q small in
    elim (Bool-cases (fatal_error || not (is_ready_turn q'))) [
      | inl nothing ↦ rw nothing skipped
      | inr passed ↦
          let taken =
            take_turn-Passes now_ns q' (omega (arith, skipped.same_reach)) (ground arith) in
          rw passed (record {
            same_reach = taken.same_reach ∙ skipped.same_reach;
            same_input = taken.same_input ∙ skipped.same_input;
          })
    ]

-- A window that has turns left in the range of a `uint64_t`.
pub record IsLasting (q : EncodedQueue) : Type 0 where
  pub window : IsWindow q
  pub in_range : reach q + 4097 < 2 ^ 64

-- A pop keeps such a window, and takes one frame out of it where it gives one.
pub pop_next_encoded_frame-IsLasting :
    (now_ns : ℕ) (fatal_error : Bool) (q : EncodedQueue)
    → IsLasting q
    → IsLasting (pop_next_encoded_frame now_ns fatal_error q).0
      × ((pop_next_encoded_frame now_ns fatal_error q).0.input_closed ≡ q.input_closed)
      × ((((pop_next_encoded_frame now_ns fatal_error q).1 ≡ none)
            × ((pop_next_encoded_frame now_ns fatal_error q).0.count ≡ q.count))
          ⊎ ((encoded : EncodedFrameJob × ℕ) × ((pop_next_encoded_frame now_ns fatal_error q).1
                ≡ some encoded)
              × ((pop_next_encoded_frame now_ns fatal_error q).0.count + 1 ≡ q.count)))
pop_next_encoded_frame-IsLasting now_ns fatal_error q lasting =
    let passes =
      pop_next_encoded_frame-Passes now_ns fatal_error q (omega (arith, lasting.in_range)) in
    let (q', order, popped, window, forward, skipped) =
      pop_next_encoded_frame-InTurn now_ns fatal_error q lasting.window
        (unfold reach in omega (arith, lasting.in_range)) in
    elim popped [
      | inl (same, turn, count, why) ↦ (
        record {
          window = rw same window;
          in_range = omega (arith, lasting.in_range, passes.same_reach);
        },
        passes.same_input,
        inl (rw same refl, rw same count),
      )
      | inr (encoded, wait, same, labelled, job, turn, count) ↦ (
        record {
          window = rw same window;
          in_range = omega (arith, lasting.in_range, passes.same_reach);
        },
        passes.same_input,
        inr ((encoded, wait), rw same refl, rw same count),
      )
    ]
