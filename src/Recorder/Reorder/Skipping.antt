-- ===== src/Recorder/Reorder/Skipping.antt =====
-- src/sensor_bag_recorder.cpp: the loop over evicted orders ends by its test, and a turn that passes
-- leaves the reorder window well formed.
use mrp_robo_baton_4p_no_ros.Base.{
  ℕ, zero, suc, ◌+◌, ◌%◌, ◌^◌, ◌≤◌, ◌<◌, ◌≡◌, ◌≢◌, sym, ap, ◌∙◌, Bool, true, false, arith, inl, inr,
  Bool-cases,
}
use mrp_robo_baton_4p_no_ros.Base.Slots.{update, tally, tally-update, tally-le}
use mrp_robo_baton_4p_no_ros.Bag.Latency.{increment64}
use mrp_robo_baton_4p_no_ros.Recorder.{EncodedFrameSlot, empty_slot, encoded_queue_capacity}
use mrp_robo_baton_4p_no_ros.Recorder.Reorder.{
  EncodedQueue, is_evicted_turn, skip_turn, skip_evicted, is_ready_turn, take_turn,
}
use mrp_robo_baton_4p_no_ros.Recorder.Reorder.Window.{is_live, IsPlaced, IsWindow, IsPlaced-update}

abbrev pub occupied : EncodedFrameSlot → Bool
occupied slot = slot.occupied

-- Each round of the loop empties an occupied slot.
skip_turn-occupied :
    (q : EncodedQueue)
    → is_evicted_turn q ≡ true
    → tally occupied encoded_queue_capacity (skip_turn q).slots + 1
      ≡ tally occupied encoded_queue_capacity q.slots
unfolding is_evicted_turn skip_turn
skip_turn-occupied q h =
    let step =
      tally-update occupied encoded_queue_capacity q.slots
        (q.next_write_order % encoded_queue_capacity) empty_slot (omega arith) in
    ground arith

skip_evicted_done :
    (fuel : ℕ) (q : EncodedQueue)
    → tally occupied encoded_queue_capacity q.slots ≤ fuel
    → is_evicted_turn (skip_evicted fuel q) ≡ false
unfolding skip_evicted
skip_evicted_done zero q h = elim (Bool-cases (is_evicted_turn q)) [
  | inl evicted ↦ absurd (omega (arith, skip_turn-occupied q evicted))
  | inr done ↦ done
]
skip_evicted_done (suc fuel) q h = elim (Bool-cases (is_evicted_turn q)) [
  | inl evicted ↦
      rw evicted
        (skip_evicted_done fuel (skip_turn q) (omega (arith, skip_turn-occupied q evicted)))
  | inr done ↦ rw done done
]

-- The loop over evicted orders ends by its test after at most as many rounds as there are slots,
-- whatever the ring holds.
pub skip_evicted-ends :
    (q : EncodedQueue) → is_evicted_turn (skip_evicted encoded_queue_capacity q) ≡ false
skip_evicted-ends q =
    skip_evicted_done encoded_queue_capacity q (tally-le occupied encoded_queue_capacity q.slots)

-- The window moves on by one, when the slot of its first order is emptied.
moved_on :
    (next i : ℕ) (slot : EncodedFrameSlot)
    → i < encoded_queue_capacity
    → i ≢ next % encoded_queue_capacity
    → IsPlaced next i slot
    → IsPlaced (next + 1) i slot
moved_on next i slot below apart old = record {
  from_next = λ o.
      let later : slot.record_order ≢ next =
        λ same. apart (sym (old.at_index o) ∙ ap (λ k. k % encoded_queue_capacity) same) in
      omega (arith, old.from_next o, later);
  in_window = λ o. omega (arith, old.in_window o);
  at_index = old.at_index;
  labelled = old.labelled;
}

empty_slot-IsPlaced : (next i : ℕ) → IsPlaced next i empty_slot
empty_slot-IsPlaced next i = record {
  from_next = λ o. cc;
  in_window = λ o. cc;
  at_index = λ o. cc;
  labelled = λ o. cc;
}

-- The slots when the first order of the window has left.
emptied-IsPlaced :
    (q : EncodedQueue)
    → IsWindow q
    → q.next_write_order + 1 < 2 ^ 64
    → (j : ℕ) → j < encoded_queue_capacity
    → IsPlaced
        (increment64 q.next_write_order)
        j
        (update q.slots (q.next_write_order % encoded_queue_capacity) empty_slot j)
emptied-IsPlaced q window small j below =
    let exact : increment64 q.next_write_order ≡ q.next_write_order + 1 = omega arith in
    rw exact (
      IsPlaced-update q.next_write_order (q.next_write_order + 1)
        (q.next_write_order % encoded_queue_capacity) q.slots empty_slot window.placed
        (empty_slot-IsPlaced _ _)
        (λ i low apart old. moved_on q.next_write_order i (q.slots i) low apart old) j below)

pub skip_turn-IsWindow :
    (q : EncodedQueue)
    → IsWindow q
    → is_evicted_turn q ≡ true
    → q.next_write_order + 1 < 2 ^ 64
    → IsWindow (skip_turn q)
unfolding skip_turn is_evicted_turn
skip_turn-IsWindow q window evicted small = record {
  placed = emptied-IsPlaced q window small;
  counted =
      let step =
        tally-update is_live encoded_queue_capacity q.slots
          (q.next_write_order % encoded_queue_capacity) empty_slot (omega arith) in
      ground (arith, window.counted);
}

pub take_turn-IsWindow :
    (now_ns : ℕ) (q : EncodedQueue)
    → IsWindow q
    → is_ready_turn q ≡ true
    → q.next_write_order + 1 < 2 ^ 64
    → IsWindow (take_turn now_ns q) × ((take_turn now_ns q).count + 1 ≡ q.count)
unfolding take_turn is_ready_turn
take_turn-IsWindow now_ns q window ready small =
    let step =
      tally-update is_live encoded_queue_capacity q.slots
        (q.next_write_order % encoded_queue_capacity) empty_slot (omega arith) in
    (
      record { placed = emptied-IsPlaced q window small; counted = ground (arith, window.counted) },
      ground (arith, window.counted),
    )
