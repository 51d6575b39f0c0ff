-- ===== src/Recorder/Writing/Draining.antt =====
-- src/sensor_bag_recorder.cpp: prefetching moves images and keeps their number, and a drain takes
-- samples out of their ring and leaves the images alone.
use mrp_robo_baton_4p_no_ros.Base.{
  ℕ, zero, suc, ◌+◌, ◌-◌, ◌≤◌, ◌<◌, ◌≡◌, ◌⊎◌, refl, ◌∙◌, Bool, true, false, Option, List, [], ◌∷◌,
  ◌++◌, length, if_both, String, min, arith, inl, inr, Option-cases, length-append,
}
use mrp_robo_baton_4p_no_ros.Recorder.Control.{set_fatal_error, set_fatal_error_lem}
use mrp_robo_baton_4p_no_ros.Recorder.Imu.{ImuSample, ImuQueue, pop_imu_batch}
use mrp_robo_baton_4p_no_ros.Recorder.Imu.Contents.{
  IsRing, pop_imu_batch-contents, pop_imu_batch_count,
}
use mrp_robo_baton_4p_no_ros.Recorder.Reorder.{pop_next_encoded_frame}
use mrp_robo_baton_4p_no_ros.Recorder.Reorder.Progress.{IsLasting, pop_next_encoded_frame-IsLasting}
use mrp_robo_baton_4p_no_ros.Recorder.Writing.{
  Written, Writing, keep_pending, prefetch_ready_images, write, write_imu_samples, drain_batch,
  drain_imu_samples, writer_imu_high_watermark_drain_batch,
}

-- Nothing new comes: the input is closed, and what waits is well formed.
pub record IsClosed (w : Writing) : Type 0 where
  pub lasting : IsLasting w.encoded
  pub closed : w.encoded.input_closed ≡ true
  pub ring : IsRing w.imu_queue

-- The images that wait, in the ring and with the thread.
abbrev pub images : Writing → ℕ
images w = w.encoded.count + length w.pending_images

pub prefetch_ready_images-IsClosed :
    (now_ns room : ℕ) (w : Writing)
    → IsClosed w
    → IsClosed (prefetch_ready_images now_ns room w)
      × (images (prefetch_ready_images now_ns room w) ≡ images w)
      × ((prefetch_ready_images now_ns room w).imu_queue ≡ w.imu_queue)
unfolding prefetch_ready_images
prefetch_ready_images-IsClosed now_ns zero w closed = (closed, refl, refl)
prefetch_ready_images-IsClosed now_ns (suc room) w closed =
    let (lasting, input, popped) =
      pop_next_encoded_frame-IsLasting now_ns w.control.fatal_error w.encoded closed.lasting in
    elim popped [
      | inl (nothing, count) ↦
          rw (nothing, prefetch_ready_images)
            (
              record { lasting = lasting; closed = input ∙ closed.closed; ring = closed.ring },
              omega arith,
              refl,
            )
      | inr (encoded, found, count) ↦
          let w' : Writing =
            keep_pending (pop_next_encoded_frame now_ns w.control.fatal_error w.encoded).0 encoded
              w in
          let kept : IsClosed w' =
            unfold keep_pending in
            record { lasting = lasting; closed = input ∙ closed.closed; ring = closed.ring } in
          let (rest, same, imu) = prefetch_ready_images-IsClosed now_ns room w' kept in
          let here : images w' ≡ images w =
            unfold keep_pending in omega (arith, length-append w.pending_images (encoded ∷ [])) in
          rw (found, prefetch_ready_images) (rest, same ∙ here, imu)
    ]

-- What a drain of samples may change.
pub record Drains (w : Writing) (answer : Writing × Bool) : Type 0 where
  pub same_encoded : answer.0.encoded ≡ w.encoded
  pub same_pending : answer.0.pending_images ≡ w.pending_images
  pub imu_le : answer.0.imu_queue.count ≤ w.imu_queue.count
  pub ring : IsRing w.imu_queue → IsRing answer.0.imu_queue
  pub failure : answer.1 ≡ false → answer.0.control.fatal_error ≡ true

pub Drains-trans :
    (w v : Writing) (answer : Writing × Bool)
    → v.encoded ≡ w.encoded
    → v.pending_images ≡ w.pending_images
    → v.imu_queue.count ≤ w.imu_queue.count
    → (IsRing w.imu_queue → IsRing v.imu_queue)
    → Drains v answer
    → Drains w answer
Drains-trans w v answer encoded pending imu ring rest = record {
  same_encoded = rest.same_encoded ∙ encoded;
  same_pending = rest.same_pending ∙ pending;
  imu_le = omega (arith, rest.imu_le);
  ring = λ h. rest.ring (ring h);
  failure = rest.failure;
}

pub Drains-done : (w : Writing) → Drains w (w, true)
Drains-done w = record {
  same_encoded = refl;
  same_pending = refl;
  imu_le = omega arith;
  ring = λ h. h;
  failure = λ e. cc;
}

module _ (writes : Written → Option String) where
  -- A message is written and logged, or its error is fatal.
  pub write_cases :
      (message : Written) (w : Writing)
      → (write writes message w ≡ (record w { log = w.log ++ message ∷ [] }, true))
        ⊎ ((error : String) × (write writes message w
              ≡ (record w { control = set_fatal_error error w.control }, false)))
  unfolding write
  write_cases message w = elim (Option-cases (writes message)) [
    | inl done ↦ inl (ground arith)
    | inr (error, failed) ↦ inr (error, ground arith)
  ]

  write_imu_samples-Drains :
      (samples : List ImuSample) (w : Writing) → Drains w (write_imu_samples writes samples w)
  unfolding write_imu_samples
  write_imu_samples-Drains [] w = Drains-done w
  write_imu_samples-Drains (sample ∷ samples) w = elim (write_cases (Written.imu sample) w) [
    | inl done ↦ rw done (
        Drains-trans w _ _ refl refl (omega arith) (λ h. h)
          (write_imu_samples-Drains samples
            (record w { log = w.log ++ Written.imu sample ∷ []; image_burst_count = 0 })))
    | inr (error, failed) ↦ rw failed (record {
      same_encoded = refl;
      same_pending = refl;
      imu_le = omega arith;
      ring = λ h. h;
      failure = λ _. set_fatal_error_lem error w.control;
    })
  ]

  drain_batch-Drains :
      (batch : List ImuSample) (rest : ℕ → Writing → Writing × Bool) (w : Writing)
      → IsRing w.imu_queue
      → ((taken : ℕ) (v : Writing) → IsRing v.imu_queue → Drains v (rest taken v))
      → Drains w (drain_batch writes batch rest w)
  unfolding drain_batch
  drain_batch-Drains [] rest w ring later = Drains-done w
  drain_batch-Drains (sample ∷ samples) rest w ring later =
      let written : Writing × Bool = write_imu_samples writes (sample ∷ samples) w in
      let first : Drains w written = write_imu_samples-Drains (sample ∷ samples) w in
      if_both (Drains w) written.1 (rest (length samples + 1) written.0) written
        (λ _.
          Drains-trans w written.0 _ first.same_encoded first.same_pending first.imu_le first.ring
            (later (length samples + 1) written.0 (first.ring ring)))
        (λ _. first)

  pub drain_imu_samples-Drains :
      (fuel now_ns left : ℕ) (w : Writing)
      → IsRing w.imu_queue
      → Drains w (drain_imu_samples writes fuel now_ns left w)
        × (0 < fuel
            → 0 < left
            → 0 < w.imu_queue.count
            → (drain_imu_samples writes fuel now_ns left w).0.imu_queue.count < w.imu_queue.count)
  unfolding drain_imu_samples
  drain_imu_samples-Drains zero now_ns left w ring = (Drains-done w, λ h. absurd (omega arith))
  drain_imu_samples-Drains (suc fuel) now_ns left w ring =
      let max_samples : ℕ = min left writer_imu_high_watermark_drain_batch in
      let popped : ImuQueue × List ImuSample = pop_imu_batch now_ns max_samples w.imu_queue in
      let (ring', _, _) = pop_imu_batch-contents now_ns max_samples w.imu_queue ring in
      let (count, taken) = pop_imu_batch_count now_ns max_samples w.imu_queue ring in
      let v : Writing = record w { imu_queue = popped.0 } in
      let rest =
        drain_batch-Drains popped.1
          (λ (n : ℕ) (u : Writing). drain_imu_samples writes fuel now_ns (left - n) u) v ring'
          (λ n u h. (drain_imu_samples-Drains fuel now_ns (left - n) u h).0) in
      (
        Drains-trans w v _ refl refl (omega arith) (λ _. ring') rest,
        λ f l h. omega (arith, rest.imu_le),
      )
