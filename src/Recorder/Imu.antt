-- ===== src/Recorder/Imu.antt =====
-- src/sensor_bag_recorder.cpp: the ring of IMU samples between the driver's callback and the writer,
-- `ObserveImu` and `PopImuBatch`. A sample's numbers are the bits of its `double`s.
pub mod Contents
use mrp_robo_baton_4p_no_ros.Base.{
  ℕ, zero, suc, ◌+◌, ◌-◌, ◌%◌, ◌^◌, Bool, true, false, not, List, [], ◌∷◌, ◌++◌, leb, ◌==◌,
  if◌then◌else◌, min, arith,
}
use mrp_robo_baton_4p_no_ros.Base.Errors.{Exception, Result, ok, throws, runtime_error}
use mrp_robo_baton_4p_no_ros.Base.Slots.{update}
use mrp_robo_baton_4p_no_ros.Bag.Latency.{increment64}
use mrp_robo_baton_4p_no_ros.Recorder.{QueueStats, imu_queue_capacity}
use mrp_robo_baton_4p_no_ros.Recorder.Accounting.{update_imu_queue_accounting}
use mrp_robo_baton_4p_no_ros.Recorder.Control.{Control, set_fatal_error}

-- The fields of `icm42688_sample_t` that the recorder reads, and its size.
pub record ImuSample : Type 0 where
  pub struct_size : ℕ
  pub sample_sequence : ℕ
  pub sample_timestamp_ns : ℕ
  pub gyro_rps : List ℕ
  pub accel_mps2 : List ℕ

abbrev pub imu_sample_size : ℕ
imu_sample_size = 120

-- The ring: `head` is `imu_queue_head_`, `count` is `imu_queue_count_`.
pub record ImuQueue : Type 0 where
  pub samples : ℕ → ImuSample
  pub head : ℕ
  pub count : ℕ
  pub stats : QueueStats
  pub admitted : ℕ

unfoldable pub store_imu_sample : ℕ → ImuSample → ImuQueue → ImuQueue
store_imu_sample now_ns sample q = record {
  samples = update q.samples ((q.head + q.count) % imu_queue_capacity) sample;
  head = q.head;
  count = q.count + 1;
  stats = update_imu_queue_accounting now_ns (q.count + 1) q.stats;
  admitted = increment64 q.admitted;
}

-- The part of `ObserveImu` under the mutex of the queue. The answer tells whether the writer is
-- notified.
unfoldable pub admit_imu_sample : ℕ → ImuSample → ImuQueue → ImuQueue × Bool
admit_imu_sample now_ns sample q =
    if leb imu_queue_capacity q.count
    then (
      record q { stats = record q.stats { full_rejects = increment64 q.stats.full_rejects } },
      false,
    )
    else (store_imu_sample now_ns sample q, q.count == 0)

-- `ObserveImu`: the flags, the ring, and whether the writer is notified.
unfoldable pub observe_imu : ℕ → ImuSample → Control → ImuQueue → Control × ImuQueue × Result Bool
unfolding set_fatal_error admit_imu_sample
observe_imu now_ns sample control q =
    if not control.enabled
    then (control, q, ok false)
    else if control.fatal_error
    then (control, q, throws (runtime_error control.error_message))
    else if not (sample.struct_size == imu_sample_size)
    then (
      set_fatal_error "invalid IMU sample for bag recorder" control,
      q,
      throws (runtime_error "invalid IMU sample for bag recorder"),
    )
    else if control.stopping
    then (control, q, throws (runtime_error "bag recorder is stopping"))
    else (control, (admit_imu_sample now_ns sample q).0, ok (admit_imu_sample now_ns sample q).1)

-- `std::copy_n` out of the ring.
unfoldable pub copy_n {ℓ} : {A : Type ℓ} → (ℕ → A) → ℕ → ℕ → List A
copy_n slots first zero = []
copy_n slots first (suc n) = slots first ∷ copy_n slots (first + 1) n

-- `batch_count` samples from the head, in two parts around the end of the ring.
unfoldable pub copy_batch : ℕ → ImuQueue → List ImuSample
unfolding copy_n
copy_batch batch_count q =
    let first_count = min batch_count (imu_queue_capacity - q.head) in
    copy_n q.samples q.head first_count ++ copy_n q.samples 0 (batch_count - first_count)

unfoldable pub take_imu_samples : ℕ → ℕ → ImuQueue → ImuQueue
take_imu_samples now_ns batch_count q = record q {
  head = (q.head + batch_count) % imu_queue_capacity;
  count = q.count - batch_count;
  stats = update_imu_queue_accounting now_ns (q.count - batch_count) q.stats;
}

unfoldable pub pop_imu_batch : ℕ → ℕ → ImuQueue → ImuQueue × List ImuSample
pop_imu_batch now_ns max_samples q =
    let batch_count = min max_samples q.count in
    if batch_count == 0
    then (q, [])
    else (take_imu_samples now_ns batch_count q, copy_batch batch_count q)
