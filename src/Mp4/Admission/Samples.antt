-- ===== src/Mp4/Admission/Samples.antt =====
-- src/h264_mp4_recorder.cpp: the times of the queued samples rise.
use mrp_robo_baton_4p_no_ros.Base.{
  ℕ, ◌≤◌, ◌<◌, ◌≡◌, refl, not, ◌||◌, List, [], ◌∷◌, ◌++◌, length, leb, if_both, arith,
  length-append,
}
use mrp_robo_baton_4p_no_ros.Recorder.Imu.{ImuSample}
use mrp_robo_baton_4p_no_ros.Mp4.Admission.{
  Mp4Recorder, imu_queue_capacity, is_bad_sample, observe_imu_sample,
}

-- Each sample is later than the one before it, the first one later than `low`.
unfoldable pub IsRising : ℕ → List ImuSample → Type 0
IsRising low [] = Unit {0}
IsRising low (sample ∷ samples) =
    (low < sample.sample_timestamp_ns) × IsRising sample.sample_timestamp_ns samples

unfoldable pub last_time : ℕ → List ImuSample → ℕ
last_time low [] = low
last_time low (sample ∷ samples) = last_time sample.sample_timestamp_ns samples

IsRising-append :
    (low : ℕ) (samples : List ImuSample) (sample : ImuSample)
    → IsRising low samples
    → last_time low samples < sample.sample_timestamp_ns
    → IsRising low (samples ++ sample ∷ [])
unfolding IsRising last_time
IsRising-append low [] sample rising later = (later, tt)
IsRising-append low (x ∷ samples) sample rising later =
    (rising.0, IsRising-append x.sample_timestamp_ns samples sample rising.1 later)

last_time-append :
    (low : ℕ) (samples : List ImuSample) (sample : ImuSample)
    → last_time low (samples ++ sample ∷ []) ≡ sample.sample_timestamp_ns
unfolding last_time
last_time-append low [] sample = refl
last_time-append low (x ∷ samples) sample = last_time-append x.sample_timestamp_ns samples sample

-- The queue holds at most its capacity, its times rise from some time on, and none is later than the
-- last time seen.
pub record IsSampleQueue (low : ℕ) (r : Mp4Recorder) : Type 0 where
  pub depth : length r.imu_queue ≤ imu_queue_capacity
  pub rising : IsRising low r.imu_queue
  pub seen : last_time low r.imu_queue ≤ r.last_imu_timestamp_ns

-- Each call keeps the samples in the order of their times, none of them twice, and within the capacity
-- of their queue.
pub observe_imu_sample-IsSampleQueue :
    (low : ℕ) (sample : ImuSample) (r : Mp4Recorder)
    → IsSampleQueue low r
    → IsSampleQueue low (observe_imu_sample sample r)
unfolding observe_imu_sample
observe_imu_sample-IsSampleQueue low sample r queue =
    if_both (IsSampleQueue low) (not r.started || r.stopping) _ _ (λ _. queue)
      (λ _.
        if_both (IsSampleQueue low) (is_bad_sample sample r) _ _
          (λ _. record { depth = queue.depth; rising = queue.rising; seen = queue.seen })
          (λ good.
            let later : r.last_imu_timestamp_ns < sample.sample_timestamp_ns = ground arith in
            if_both (IsSampleQueue low) (leb imu_queue_capacity (length r.imu_queue)) _ _
              (λ _. record {
                depth = queue.depth;
                rising = queue.rising;
                seen = omega (arith, queue.seen);
              })
              (λ room. record {
                depth = ground (arith, length-append r.imu_queue (sample ∷ []));
                rising =
                    IsRising-append low r.imu_queue sample queue.rising (omega (arith, queue.seen));
                seen = omega (arith, last_time-append low r.imu_queue sample);
              })))
