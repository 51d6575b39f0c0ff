-- ===== src/Recorder/Payloads/Layout.antt =====
-- src/sensor_bag_recorder.cpp: the payloads have the layout of their ROS messages, and the times of
-- the recorded messages never go back.
use mrp_robo_baton_4p_no_ros.Base.{
  ℕ, ◌%◌, ◌^◌, ◌≤◌, ◌<◌, ◌≡◌, refl, sym, ap, ap₂, ◌∙◌, true, false, List, [], ◌∷◌, ◌++◌, length,
  replicate, ltb, arith, append_assoc, append-nil, take-length-append, drop-add-append, max,
}
use mrp_robo_baton_4p_no_ros.Base.Bytes.{codes, le_bytes, drop-le_bytes}
use mrp_robo_baton_4p_no_ros.Base.Errors.{Result, ok, ◌>>=◌}
use mrp_robo_baton_4p_no_ros.Bag.Encode.{
  RosbagTime, uint32_max, append_bytes, append_u32, append_f64, append_ros_time, append_ros_string,
  rosbag_time_from_ns,
}
use mrp_robo_baton_4p_no_ros.Recorder.Imu.{ImuSample}
use mrp_robo_baton_4p_no_ros.Recorder.Payloads.{
  sequence_to_ros_seq, append_header, start_compressed_image_payload, patch_u32, encode_image,
  append_f64s, append_imu_numbers, imu_payload, DataClock, record_data_stamp, double_one,
  double_minus_one,
}

-- A text of a ROS message, and the header of one.
abbrev pub string_layout : List ℕ → List ℕ
string_layout text = le_bytes 4 (length text) ++ text

abbrev pub header_layout : ℕ → RosbagTime → List ℕ → List ℕ
header_layout seq stamp frame_id =
    le_bytes 4 seq ++ (le_bytes 4 stamp.sec ++ (le_bytes 4 stamp.nsec ++ string_layout frame_id))

-- The doubles of a message.
pub doubles : List ℕ → List ℕ
doubles [] = []
doubles (x ∷ xs) = le_bytes 8 x ++ doubles xs

append_header_lem :
    (payload : List ℕ) (seq : ℕ) (stamp : RosbagTime) (frame_id : List ℕ)
    → length frame_id < 2 ^ 32
    → append_header payload seq stamp frame_id ≡ ok (payload ++ header_layout seq stamp frame_id)
unfolding append_header append_ros_string append_ros_time append_u32 append_bytes
append_header_lem payload seq stamp frame_id small =
    let fits : ltb uint32_max (length frame_id) ≡ false = ground arith in
    let exact : length frame_id % 2 ^ 32 ≡ length frame_id = omega arith in
    rw (fits, exact) (ap ok (simp append_assoc))

patch_u32_lem :
    (front tail : List ℕ) (old value : ℕ)
    → patch_u32 (front ++ (le_bytes 4 old ++ tail)) (length front) value
      ≡ front ++ (le_bytes 4 value ++ tail)
unfolding patch_u32
patch_u32_lem front tail old value =
    ap₂ (λ xs ys. xs ++ (le_bytes 4 value ++ ys))
      (take-length-append front (le_bytes 4 old ++ tail))
      (drop-add-append front (le_bytes 4 old ++ tail) 4 ∙ drop-le_bytes 4 old tail)

-- The length that was left open is filled in: the payload is the message of the image, with the
-- frame's sequence, time and id.
pub encode_image_lem :
    (sequence camera_timestamp_ns : ℕ) (frame_id jpeg : List ℕ)
    → length frame_id < 2 ^ 32
    → length jpeg < 2 ^ 32
    → encode_image sequence camera_timestamp_ns frame_id jpeg
      ≡ ok (
          header_layout
            (sequence_to_ros_seq sequence)
            (rosbag_time_from_ns camera_timestamp_ns)
            frame_id
          ++ (string_layout (codes "jpeg") ++ string_layout jpeg))
unfolding encode_image start_compressed_image_payload append_ros_string append_u32 append_bytes
encode_image_lem sequence camera_timestamp_ns frame_id jpeg small fits =
    let front : List ℕ =
      (header_layout (sequence_to_ros_seq sequence) (rosbag_time_from_ns camera_timestamp_ns)
          frame_id
        ++ le_bytes 4 4)
      ++ codes "jpeg" in
    let passes : ltb uint32_max (length jpeg) ≡ false = ground arith in
    rw (append_header_lem [] _ _ frame_id small, passes)
      (ap ok (
        ap (λ xs. patch_u32 xs (length front) (length jpeg))
          (append_assoc front (le_bytes 4 0) jpeg)
        ∙ patch_u32_lem front jpeg 0 (length jpeg)
        ∙ simp append_assoc))

append_f64s-doubles : (payload xs : List ℕ) → append_f64s payload xs ≡ payload ++ doubles xs
unfolding append_f64s doubles append_f64 append_bytes
append_f64s-doubles payload [] = sym (append-nil payload)
append_f64s-doubles payload (x ∷ xs) =
    append_f64s-doubles (payload ++ le_bytes 8 x) xs
    ∙ append_assoc payload (le_bytes 8 x) (doubles xs)

append_imu_numbers-doubles :
    (sample : ImuSample) (header : List ℕ)
    → append_imu_numbers sample header
      ≡ header
        ++ (doubles (0 ∷ 0 ∷ 0 ∷ double_one ∷ [])
            ++ (doubles (double_minus_one ∷ replicate 8 0)
                ++ (doubles sample.gyro_rps
                    ++ (doubles (replicate 9 0)
                        ++ (doubles sample.accel_mps2 ++ doubles (replicate 9 0))))))
unfolding append_imu_numbers le_bytes doubles
append_imu_numbers-doubles sample header = simp (append_f64s-doubles, append_assoc)

-- A sample becomes the message of an IMU without an estimate of its orientation: the header, then the
-- orientation, its covariance that starts with -1, the rates, the accelerations, and zeros for their
-- covariances.
pub imu_payload_lem :
    (sample : ImuSample)
    → imu_payload sample
      ≡ ok (
          header_layout
            (sequence_to_ros_seq sample.sample_sequence)
            (rosbag_time_from_ns sample.sample_timestamp_ns)
            (codes "robobaton_imu_link")
          ++ (doubles (0 ∷ 0 ∷ 0 ∷ double_one ∷ [])
              ++ (doubles (double_minus_one ∷ replicate 8 0)
                  ++ (doubles sample.gyro_rps
                      ++ (doubles (replicate 9 0)
                          ++ (doubles sample.accel_mps2 ++ doubles (replicate 9 0)))))))
unfolding imu_payload
imu_payload_lem sample =
    ap (λ (m : Result (List ℕ)). m >>= λ header. ok (append_imu_numbers sample header))
      (append_header_lem [] (sequence_to_ros_seq sample.sample_sequence)
        (rosbag_time_from_ns sample.sample_timestamp_ns) (codes "robobaton_imu_link") (omega arith))
    ∙ ap ok (append_imu_numbers-doubles sample _)

-- A recorded message bears its own time if that is later than the last one, otherwise the last one's:
-- the recorded time is the latest so far.
pub record_data_stamp_lem :
    (preferred_time_ns : ℕ) (clock : DataClock)
    → (clock' : DataClock) × (record_data_stamp preferred_time_ns clock
        ≡ (clock', rosbag_time_from_ns clock'.last_data_record_time_ns))
      × (clock'.has_last_data_record_time ≡ true)
      × (preferred_time_ns ≤ clock'.last_data_record_time_ns)
      × (clock.has_last_data_record_time ≡ false
          → clock'.last_data_record_time_ns ≡ preferred_time_ns)
      × (clock.has_last_data_record_time ≡ true
          → clock'.last_data_record_time_ns ≡ max clock.last_data_record_time_ns preferred_time_ns)
unfolding record_data_stamp
record_data_stamp_lem preferred_time_ns clock =
    (_, refl, ground arith, ground arith, ground arith, ground arith)
