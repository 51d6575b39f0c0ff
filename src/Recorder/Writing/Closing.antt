-- ===== src/Recorder/Writing/Closing.antt =====
-- src/sensor_bag_recorder.cpp: when the workers are gone and no sample comes any more, the writer's
-- thread ends, having written all that waits or set the fatal error.
use mrp_robo_baton_4p_no_ros.Base.{
  ℕ, zero, suc, ◌+◌, ◌-◌, ◌≤◌, ◌<◌, ◌≡◌, ◌⊎◌, refl, ap, ◌∙◌, Bool, true, false, not, ◌||◌, Option,
  List, [], ◌∷◌, length, ltb, leb, if◌then◌else◌, if_both, String, arith, inl, inr,
}
use mrp_robo_baton_4p_no_ros.Recorder.{EncodedFrameJob, writer_imu_high_watermark}
use mrp_robo_baton_4p_no_ros.Recorder.Control.{set_fatal_error_lem}
use mrp_robo_baton_4p_no_ros.Recorder.Imu.{ImuQueue}
use mrp_robo_baton_4p_no_ros.Recorder.Reorder.{EncodedQueue}
use mrp_robo_baton_4p_no_ros.Recorder.Writing.{
  Written, Writing, writer_inputs_closed, has_closed_encoded_order_gap, prefetch_ready_images,
  write_pending_image, drain_imu_samples, write_images, write_samples, writer_round, writer_entry,
  drain_before_image, writer_image_burst_before_imu, writer_imu_drain_batch,
  writer_imu_high_watermark_drain_batch, writer_image_prefetch_limit,
}
use mrp_robo_baton_4p_no_ros.Recorder.Writing.Draining.{
  IsClosed, images, prefetch_ready_images-IsClosed, Drains, Drains-done, write_cases,
  drain_imu_samples-Drains,
}

-- What waits to be written.
abbrev pub work : Writing → ℕ
work w = images w + w.imu_queue.count

-- After a round the loop goes on with less work, or it ends, with none or by a fatal error.
record Rounds (w : Writing) (answer : Writing × Bool) : Type 0 where
  closed : IsClosed answer.0
  cases :
      ((answer.1 ≡ true) × (work answer.0 < work w))
      ⊎ ((answer.1 ≡ false) × ((answer.0.control.fatal_error ≡ true) ⊎ (work answer.0 ≡ 0)))

drained-IsClosed :
    (w : Writing) (answer : Writing × Bool) → IsClosed w → Drains w answer → IsClosed answer.0
drained-IsClosed w answer closed drains = record {
  lasting = rw drains.same_encoded closed.lasting;
  closed = ap (λ (q : EncodedQueue). q.input_closed) drains.same_encoded ∙ closed.closed;
  ring = drains.ring closed.ring;
}

drained-failed :
    (w : Writing) (answer : Writing × Bool)
    → IsClosed w
    → Drains w answer
    → answer.1 ≡ false
    → Rounds w answer
drained-failed w answer closed drains failed = record {
  closed = drained-IsClosed w answer closed drains;
  cases = inr (failed, inl (drains.failure failed));
}

module _ (writes : Written → Option String) where
  write_pending_image-Rounds :
      (pending : List (EncodedFrameJob × ℕ)) (w : Writing)
      → w.pending_images ≡ pending
      → 0 < length pending
      → IsClosed w
      → Rounds w (write_pending_image writes pending w)
  unfolding write_pending_image
  write_pending_image-Rounds [] w same some_left closed = absurd (omega arith)
  write_pending_image-Rounds ((encoded, wait) ∷ rest) w same some_left closed =
      let fewer : length w.pending_images ≡ length rest + 1 = ap length same ∙ omega arith in
      elim (write_cases writes (Written.image encoded wait) (record w { pending_images = rest })) [
        | inl done ↦
            rw (done, write_pending_image)
              (record {
                closed = record {
                  lasting = closed.lasting;
                  closed = closed.closed;
                  ring = closed.ring;
                };
                cases = inl (refl, omega arith);
              })
        | inr (error, failed) ↦
            rw (failed, write_pending_image)
              (record {
                closed = record {
                  lasting = closed.lasting;
                  closed = closed.closed;
                  ring = closed.ring;
                };
                cases = inr (refl, inl (set_fatal_error_lem error w.control));
              })
      ]

  drain_before_image-Drains :
      (now_ns : ℕ) (w : Writing) → IsClosed w → Drains w (drain_before_image writes now_ns w)
  unfolding drain_before_image
  drain_before_image-Drains now_ns w closed =
      let limit : ℕ =
        if leb writer_imu_high_watermark w.imu_queue.count
        then writer_imu_high_watermark_drain_batch
        else writer_imu_drain_batch in
      if_both (Drains w)
        (leb writer_imu_high_watermark w.imu_queue.count
          || leb writer_image_burst_before_imu w.image_burst_count)
        _ _ (λ _. (drain_imu_samples-Drains writes limit now_ns limit w closed.ring).0)
        (λ _. Drains-done w)

  Rounds-after :
      (w v : Writing) (answer : Writing × Bool)
      → work v ≤ work w
      → Rounds v answer
      → Rounds w answer
  Rounds-after w v answer less rounds = record {
    closed = rounds.closed;
    cases = elim rounds.cases [
      | inl (goes_on, fewer) ↦ inl (goes_on, omega arith)
      | inr over ↦ inr over
    ];
  }

  write_images-Rounds :
      (now_ns : ℕ) (w : Writing)
      → 0 < length w.pending_images
      → IsClosed w
      → Rounds w (write_images writes now_ns w)
  unfolding write_images
  write_images-Rounds now_ns w some_left closed =
      let drained : Writing × Bool = drain_before_image writes now_ns w in
      let drains : Drains w drained = drain_before_image-Drains now_ns w closed in
      let images_left : length drained.0.pending_images ≡ length w.pending_images =
        ap length drains.same_pending in
      let encoded_left : drained.0.encoded.count ≡ w.encoded.count =
        ap (λ (q : EncodedQueue). q.count) drains.same_encoded in
      if_both (Rounds w) drained.1 _ _
        (λ _. Rounds-after w drained.0 _ (omega (arith, drains.imu_le)) (
          write_pending_image-Rounds drained.0.pending_images drained.0 refl (omega arith)
            (drained-IsClosed w drained closed drains)))
        (λ failed. drained-failed w drained closed drains failed)

  write_samples-Rounds :
      (now_ns : ℕ) (w : Writing)
      → length w.pending_images ≡ 0
      → IsClosed w
      → Rounds w (write_samples writes now_ns w)
  unfolding write_samples
  write_samples-Rounds now_ns w none_left closed =
      let drained : Writing × Bool =
        drain_imu_samples writes writer_imu_drain_batch now_ns writer_imu_drain_batch w in
      let (drains, fewer) =
        drain_imu_samples-Drains writes writer_imu_drain_batch now_ns writer_imu_drain_batch w
          closed.ring in
      let closed' : IsClosed drained.0 = drained-IsClosed w drained closed drains in
      let images_left : length drained.0.pending_images ≡ length w.pending_images =
        ap length drains.same_pending in
      let encoded_left : drained.0.encoded.count ≡ w.encoded.count =
        ap (λ (q : EncodedQueue). q.count) drains.same_encoded in
      let shut : drained.0.encoded.input_closed ≡ true = closed'.closed in
      if_both (Rounds w) (not drained.1) _ _
        (λ failed. drained-failed w drained closed drains (ground arith))
        (λ _.
          if_both (Rounds w) (writer_inputs_closed drained.0.encoded drained.0.imu_queue) _ _
            (λ all. record {
              closed = closed';
              cases = inr (refl, inr (unfold writer_inputs_closed in ground arith));
            })
            (λ open_yet.
              if_both (Rounds w) (has_closed_encoded_order_gap drained.0.encoded) _ _
                (λ gap. record {
                  closed = record {
                    lasting = closed'.lasting;
                    closed = closed'.closed;
                    ring = closed'.ring;
                  };
                  cases = inr (
                    refl,
                    inl (set_fatal_error_lem "bag recorder encoded order gap" drained.0.control),
                  );
                })
                (λ no_gap.
                  let no_images : drained.0.encoded.count ≡ 0 =
                    unfold has_closed_encoded_order_gap in ground arith in
                  let samples_left : 0 < drained.0.imu_queue.count =
                    unfold writer_inputs_closed in ground arith in
                  let shorter = fewer (omega arith) (omega arith) (omega (arith, drains.imu_le)) in
                  record { closed = closed'; cases = inl (ground arith, omega arith) })))

  writer_round-Rounds :
      (now_ns : ℕ) (w : Writing) → IsClosed w → Rounds w (writer_round writes now_ns w)
  unfolding writer_round
  writer_round-Rounds now_ns w closed =
      let room : ℕ = writer_image_prefetch_limit - length w.pending_images in
      let v : Writing = prefetch_ready_images now_ns room w in
      let (closed', same, imu) = prefetch_ready_images-IsClosed now_ns room w closed in
      let same_imu : v.imu_queue.count ≡ w.imu_queue.count = ap (λ (q : ImuQueue). q.count) imu in
      if_both (Rounds w) w.control.fatal_error _ _
        (λ fatal. record { closed = closed; cases = inr (refl, inl fatal) })
        (λ _.
          if_both (Rounds w) (ltb 0 (length v.pending_images)) _ _
            (λ some_left.
              Rounds-after w v _ (omega arith)
                (write_images-Rounds now_ns v (ground arith) closed'))
            (λ none_left.
              Rounds-after w v _ (omega arith)
                (write_samples-Rounds now_ns v (ground arith) closed')))

  -- When the workers are gone and no sample comes any more, the loop of the writer's thread ends
  -- after at most a round for each waiting message and one more. Then nothing waits, or the fatal
  -- error is set.
  pub writer_entry-ends :
      (fuel now_ns : ℕ) (w : Writing)
      → IsClosed w
      → work w < fuel
      → ((writer_entry writes fuel now_ns w).1 ≡ true)
        × (((writer_entry writes fuel now_ns w).0.control.fatal_error ≡ true)
            ⊎ (work (writer_entry writes fuel now_ns w).0 ≡ 0))
  unfolding writer_entry
  writer_entry-ends zero now_ns w closed enough = absurd (omega arith)
  writer_entry-ends (suc fuel) now_ns w closed enough =
      let rounds = writer_round-Rounds now_ns w closed in
      elim rounds.cases [
        | inl (goes_on, fewer) ↦
            rw (goes_on, writer_entry)
              (writer_entry-ends fuel now_ns (writer_round writes now_ns w).0 rounds.closed
                (omega arith))
        | inr (ends, last) ↦ rw (ends, writer_entry) (refl, last)
      ]
