-- ===== src/Recorder/Reorder/Turns.antt =====
-- src/sensor_bag_recorder.cpp: the frames leave the reorder ring in the record order.
use mrp_robo_baton_4p_no_ros.Base.{
  ℕ, zero, suc, ◌+◌, ◌%◌, ◌^◌, ◌≤◌, ◌<◌, ◌≡◌, ◌≢◌, ◌⊎◌, refl, sym, ap, ◌∙◌, Bool, true, false, not,
  ◌||◌, none, some, ◌==◌, arith, inl, inr, Bool-cases,
}
use mrp_robo_baton_4p_no_ros.Recorder.{EncodedFrameJob, EncodedFrameSlot, encoded_queue_capacity}
use mrp_robo_baton_4p_no_ros.Recorder.Reorder.{
  EncodedQueue, slot_at, is_evicted_turn, skip_turn, skip_evicted, is_ready_turn, order_wait,
  take_turn, pop_next_encoded_frame,
}
use mrp_robo_baton_4p_no_ros.Recorder.Reorder.Window.{is_live, IsWindow}
use mrp_robo_baton_4p_no_ros.Recorder.Reorder.Skipping.{
  occupied, skip_evicted-ends, skip_turn-IsWindow, take_turn-IsWindow,
}

-- An order was taken back by an eviction.
abbrev pub IsEvicted : EncodedQueue → ℕ → Type 0
IsEvicted q record_order =
    ((slot_at record_order q).evicted ≡ true)
    × ((slot_at record_order q).record_order ≡ record_order)

pub record Skips (q q' : EncodedQueue) (fuel : ℕ) : Type 0 where
  pub window : IsWindow q'
  pub same_count : q'.count ≡ q.count
  pub forward : q.next_write_order ≤ q'.next_write_order
  pub bounded : q'.next_write_order ≤ q.next_write_order + fuel
  pub skipped : (o : ℕ) → q.next_write_order ≤ o → o < q'.next_write_order → IsEvicted q o
  pub kept : (i : ℕ) → (q'.slots i).occupied ≡ true → q'.slots i ≡ q.slots i

skip_turn-IsEvicted :
    (q : EncodedQueue) (o : ℕ)
    → is_evicted_turn q ≡ true
    → IsEvicted (skip_turn q) o
    → IsEvicted q o
unfolding skip_turn is_evicted_turn
skip_turn-IsEvicted q o turn h = ground arith

skip_turn-kept :
    (q : EncodedQueue) (i : ℕ)
    → ((skip_turn q).slots i).occupied ≡ true
    → (skip_turn q).slots i ≡ q.slots i
unfolding skip_turn
skip_turn-kept q i h = ground arith

Skips-refl : (fuel : ℕ) (q : EncodedQueue) → IsWindow q → Skips q q fuel
Skips-refl fuel q window = record {
  window = window;
  same_count = refl;
  forward = omega arith;
  bounded = omega arith;
  skipped = λ o low high. absurd (omega arith);
  kept = λ i o. refl;
}

-- A round of the loop, and the rounds after it.
Skips-step :
    (fuel : ℕ) (q q' : EncodedQueue)
    → is_evicted_turn q ≡ true
    → q.next_write_order + 1 < 2 ^ 64
    → Skips (skip_turn q) q' fuel
    → Skips q q' (suc fuel)
Skips-step fuel q q' evicted small rest = record {
  window = rest.window;
  same_count = unfold skip_turn in rest.same_count;
  forward = omega (arith, rest.forward, next);
  bounded = omega (arith, rest.bounded, next);
  skipped = λ o low high. elim (Bool-cases (o == q.next_write_order)) [
    | inl first ↦ unfold is_evicted_turn in ground arith
    | inr behind ↦ skip_turn-IsEvicted q o evicted (rest.skipped o (ground (arith, next)) high)
  ];
  kept = λ i o.
      let middle = rest.kept i o in middle ∙ skip_turn-kept q i (ap occupied (sym middle) ∙ o);
}
  where
    next : (skip_turn q).next_write_order ≡ q.next_write_order + 1
    next = unfold skip_turn in omega arith

skip_evicted-Skips :
    (fuel : ℕ) (q : EncodedQueue)
    → IsWindow q
    → q.next_write_order + fuel < 2 ^ 64
    → Skips q (skip_evicted fuel q) fuel
unfolding skip_evicted
skip_evicted-Skips zero q window small = Skips-refl 0 q window
skip_evicted-Skips (suc fuel) q window small = elim (Bool-cases (is_evicted_turn q)) [
  | inl evicted ↦
      let next : (skip_turn q).next_write_order ≡ q.next_write_order + 1 =
        unfold skip_turn in omega arith in
      rw evicted (
        Skips-step fuel q (skip_evicted fuel (skip_turn q)) evicted (omega arith) (
          skip_evicted-Skips fuel (skip_turn q) (skip_turn-IsWindow q window evicted (omega arith))
            (omega (arith, next))))
  | inr done ↦ rw done (Skips-refl (suc fuel) q window)
]

-- No frame is given only for one of these reasons.
no_turn_why :
    (fatal_error : Bool) (q : EncodedQueue)
    → is_evicted_turn q ≡ false
    → (fatal_error || not (is_ready_turn q)) ≡ true
    → (fatal_error ≡ true)
      ⊎ ((slot_at q.next_write_order q).occupied ≡ false)
      ⊎ ((slot_at q.next_write_order q).record_order ≢ q.next_write_order)
unfolding is_evicted_turn is_ready_turn
no_turn_why fatal_error q done nothing = elim (Bool-cases fatal_error) [
  | inl fatal ↦ inl fatal
  | inr fine ↦ elim (Bool-cases (slot_at q.next_write_order q).occupied) [
    | inl full ↦ inr (inr (ground arith))
    | inr empty ↦ inr (inl empty)
  ]
]

-- The frame of a turn that is ready is the one that was published for it.
ready_turn-job :
    (q q' : EncodedQueue) (fuel : ℕ)
    → Skips q q' fuel
    → is_ready_turn q' ≡ true
    → ((slot_at q'.next_write_order q').job.job.record_order ≡ q'.next_write_order)
      × ((slot_at q'.next_write_order q').job ≡ (slot_at q'.next_write_order q).job)
unfolding is_ready_turn
ready_turn-job q q' fuel skips ready =
    let i : ℕ = q'.next_write_order % encoded_queue_capacity in
    let place = skips.window.placed i (omega arith) in
    let full : (q'.slots i).occupied ≡ true = ground arith in
    let live : is_live (q'.slots i) ≡ true = ground arith in
    let here : (q'.slots i).record_order ≡ q'.next_write_order = ground arith in
    (place.labelled live ∙ here, ap (λ (slot : EncodedFrameSlot). slot.job) (skips.kept i full))

-- The writer is given the frames in the record order: the next one that was not evicted, when it
-- waits in the ring, and each one once. Without a fatal error it is given none only where the frame
-- of the next order is not there yet. The window stays well formed and counts what waits.
pub pop_next_encoded_frame-InTurn :
    (now_ns : ℕ) (fatal_error : Bool) (q : EncodedQueue)
    → IsWindow q
    → q.next_write_order + 4097 < 2 ^ 64
    → (q' : EncodedQueue) × (order : ℕ) × (((pop_next_encoded_frame now_ns fatal_error q
            ≡ (q', none))
          × (q'.next_write_order ≡ order)
          × (q'.count ≡ q.count)
          × ((fatal_error ≡ true)
              ⊎ ((slot_at order q').occupied ≡ false)
              ⊎ ((slot_at order q').record_order ≢ order)))
        ⊎ ((encoded : EncodedFrameJob) × (wait : ℕ) × (pop_next_encoded_frame now_ns fatal_error q
              ≡ (q', some (encoded, wait)))
            × (encoded.job.record_order ≡ order)
            × (encoded ≡ (slot_at order q).job)
            × (q'.next_write_order ≡ order + 1)
            × (q'.count + 1 ≡ q.count)))
      × IsWindow q'
      × (q.next_write_order ≤ order)
      × ((o : ℕ) → q.next_write_order ≤ o → o < order → IsEvicted q o)
unfolding pop_next_encoded_frame
pop_next_encoded_frame-InTurn now_ns fatal_error q window small =
    elim (Bool-cases (fatal_error || not (is_ready_turn q'))) [
      | inl nothing ↦ (
        q',
        q'.next_write_order,
        inl (
          rw nothing refl,
          refl,
          skips.same_count,
          no_turn_why fatal_error q' (skip_evicted-ends q) nothing,
        ),
        skips.window,
        skips.forward,
        skips.skipped,
      )
      | inr passed ↦
          let ready : is_ready_turn q' ≡ true = ground arith in
          let taken =
            take_turn-IsWindow now_ns q' skips.window ready (omega (arith, skips.bounded)) in
          let job = ready_turn-job q q' encoded_queue_capacity skips ready in
          (
            take_turn now_ns q',
            q'.next_write_order,
            inr (
              (slot_at q'.next_write_order q').job,
              order_wait now_ns (slot_at q'.next_write_order q').job,
              rw passed refl,
              job.0,
              job.1,
              unfold take_turn in omega (arith, skips.bounded),
              taken.1 ∙ skips.same_count,
            ),
            taken.0,
            skips.forward,
            skips.skipped,
          )
    ]
  where
    q' : EncodedQueue
    q' = skip_evicted encoded_queue_capacity q

    skips : Skips q q' encoded_queue_capacity
    skips = skip_evicted-Skips encoded_queue_capacity q window (omega arith)
