-- ===== src/Recorder/Reorder/Eviction/Frames.antt =====
-- src/sensor_bag_recorder.cpp: the frames of one set are taken out of the reorder window.
use mrp_robo_baton_4p_no_ros.Base.{
  ℕ, zero, suc, ◌+◌, ◌%◌, ◌^◌, ◌≤◌, ◌<◌, ◌≡◌, ◌⊎◌, refl, subst, sym, ◌∙◌, true, false, ◌==◌, arith,
  inl, inr, Bool-cases,
}
use mrp_robo_baton_4p_no_ros.Base.Slots.{tally-update}
use mrp_robo_baton_4p_no_ros.Recorder.{EncodedFrameSlot, encoded_queue_capacity, empty_encoded_job}
use mrp_robo_baton_4p_no_ros.Recorder.Reorder.{EncodedQueue, slot_at}
use mrp_robo_baton_4p_no_ros.Recorder.Reorder.Window.{is_live, IsWindow, IsPlaced-update}
use mrp_robo_baton_4p_no_ros.Recorder.Reorder.Eviction.{
  add64, Eviction, complete_ready_group, evict_frame, evict_frames,
}

-- The frame of the order waits in its slot.
abbrev pub Waits : EncodedQueue → ℕ → Type 0
Waits q o =
    ((slot_at o q).occupied ≡ true)
    × ((slot_at o q).evicted ≡ false)
    × ((slot_at o q).record_order ≡ o)

-- The frames of `n` orders from `first` on are taken out of a window, and only these.
pub record Evicts (q q' : EncodedQueue) (n first : ℕ) : Type 0 where
  pub window : IsWindow q'
  pub same_turn : q'.next_write_order ≡ q.next_write_order
  pub same_watermark : q'.high_watermark ≡ q.high_watermark
  pub counted : q'.count + n ≡ q.count
  pub kept : (o : ℕ) → Waits q o → (o < first) ⊎ (first + n ≤ o) → slot_at o q' ≡ slot_at o q

pub Evicts-refl : (q : EncodedQueue) (first : ℕ) → IsWindow q → Evicts q q 0 first
Evicts-refl q first window = record {
  window = window;
  same_turn = refl;
  same_watermark = refl;
  counted = omega arith;
  kept = λ o waits outside. refl;
}

pub Evicts-trans :
    (q q' q'' : EncodedQueue) (n m k first next : ℕ)
    → first + n ≡ next
    → n + m ≡ k
    → Evicts q q' n first
    → Evicts q' q'' m next
    → Evicts q q'' k first
Evicts-trans q q' q'' n m k first next at_next all a b = record {
  window = b.window;
  same_turn = b.same_turn ∙ a.same_turn;
  same_watermark = b.same_watermark ∙ a.same_watermark;
  counted = omega (arith, a.counted, b.counted);
  kept = λ o waits outside.
      let here = a.kept o waits (ground arith) in b.kept o (rw here waits) (ground arith) ∙ here;
}

evict_frame-Evicts :
    (o : ℕ) (e : Eviction)
    → IsWindow e.queue
    → Waits e.queue o
    → Evicts e.queue (evict_frame o e).queue 1 o
unfolding evict_frame
evict_frame-Evicts o e window waits =
    let i : ℕ = o % encoded_queue_capacity in
    let gone : EncodedFrameSlot = record {
      record_order = o;
      occupied = true;
      evicted = true;
      job = empty_encoded_job;
    } in
    let place = window.placed i (omega arith) in
    let fewer = tally-update is_live encoded_queue_capacity e.queue.slots i gone (omega arith) in
    record {
      window = record {
        placed =
            IsPlaced-update e.queue.next_write_order e.queue.next_write_order i e.queue.slots gone
              window.placed
              (record {
                from_next = λ _. ground (arith, place.from_next waits.0);
                in_window = λ _. ground (arith, place.in_window waits.0);
                at_index = λ _. refl;
                labelled = λ live. cc;
              })
              (λ j below apart same. same);
        counted = ground (arith, window.counted);
      };
      same_turn = refl;
      same_watermark = refl;
      counted = ground (arith, window.counted);
      kept = λ o' waits' outside. ground arith;
    }

complete_ready_group-step :
    (n k order group_id : ℕ) (q : EncodedQueue)
    → order + k < 2 ^ 64
    → complete_ready_group (suc n) k order group_id q ≡ true
    → Waits q (order + k) × (g : ℕ) × (complete_ready_group n (k + 1) order g q ≡ true)
unfolding complete_ready_group
complete_ready_group-step n k order group_id q small ready =
    let exact : add64 order k ≡ order + k = omega arith in
    let ready' = rw exact at ready in
    elim (Bool-cases (k == 0)) [
      | inl first ↦ (ground arith, (slot_at (order + k) q).job.job.group_id, ground arith)
      | inr later ↦ (ground arith, group_id, ground arith)
    ]

pub complete_ready_group-Waits :
    (n k order group_id : ℕ) (q : EncodedQueue)
    → order + k + n < 2 ^ 64
    → complete_ready_group n k order group_id q ≡ true
    → (j : ℕ) → k ≤ j
    → j < k + n
    → Waits q (order + j)
unfolding complete_ready_group
complete_ready_group-Waits zero k order group_id q small ready j low high = absurd (omega arith)
complete_ready_group-Waits (suc n) k order group_id q small ready j low high =
    let (first, g, rest) = complete_ready_group-step n k order group_id q (omega arith) ready in
    elim (Bool-cases (j == k)) [
      | inl here ↦ let same : j ≡ k = ground arith in rw same first
      | inr behind ↦
          complete_ready_group-Waits n (k + 1) order g q (omega arith) rest j (ground arith)
            (omega arith)
    ]

pub evict_frames-Evicts :
    (n k order : ℕ) (e : Eviction)
    → order + k + n < 2 ^ 64
    → IsWindow e.queue
    → ((j : ℕ) → k ≤ j → j < k + n → Waits e.queue (order + j))
    → Evicts e.queue (evict_frames n k order e).queue n (order + k)
unfolding evict_frames
evict_frames-Evicts zero k order e small window ready = Evicts-refl e.queue (order + k) window
evict_frames-Evicts (suc n) k order e small window ready =
    let exact : add64 order k ≡ order + k = omega arith in
    let here = evict_frame-Evicts (order + k) e window (ready k (omega arith) (omega arith)) in
    let rest =
      evict_frames-Evicts n (k + 1) order (evict_frame (order + k) e) (omega arith) here.window
        (λ j low high.
          let waits = ready j (omega arith) (omega arith) in
          rw (here.kept (order + j) waits (inr (omega arith))) waits) in
    subst
      (λ x.
        Evicts e.queue (evict_frames n (k + 1) order (evict_frame x e)).queue (suc n) (order + k))
      (sym exact)
      (Evicts-trans e.queue (evict_frame (order + k) e).queue _ 1 n (suc n) (order + k)
        (order + (k + 1)) (omega arith) (omega arith) here rest)

pub evict_frames-counts :
    (n k order : ℕ) (e : Eviction)
    → ((evict_frames n k order e).groups ≡ e.groups)
      × ((evict_frames n k order e).frames ≡ e.frames)
unfolding evict_frames evict_frame
evict_frames-counts zero k order e = (refl, refl)
evict_frames-counts (suc n) k order e = evict_frames-counts n (k + 1) order _
