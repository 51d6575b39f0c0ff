-- ===== src/Recorder/Payloads.antt =====
-- src/sensor_bag_recorder.cpp: the messages that the recorder serialises. The encoder appends its
-- bytes to the payload of an image; they are an argument. A `double` is its bit pattern.
pub mod Layout
use mrp_robo_baton_4p_no_ros.Base.{
  ℕ, zero, suc, ◌+◌, ◌-◌, ◌/◌, ◌%◌, ◌^◌, Bool, true, false, not, ◌||◌, List, [], ◌∷◌, ◌++◌, length,
  take, drop, replicate, ltb, if◌then◌else◌, map,
}
use mrp_robo_baton_4p_no_ros.Base.Bytes.{codes, le_bytes}
use mrp_robo_baton_4p_no_ros.Base.Errors.{
  Exception, runtime_error, Result, ok, throws, ◌>>=◌, ◌>>◌, throw_if,
}
use mrp_robo_baton_4p_no_ros.Bag.Encode.{
  RosbagTime, uint32_max, append_u32, append_f64, append_bool, append_ros_time, append_ros_string,
  rosbag_time_from_ns,
}
use mrp_robo_baton_4p_no_ros.Recorder.Imu.{ImuSample}

abbrev pub max_ros_seq : ℕ
max_ros_seq = 2 ^ 32 - 1

unfoldable pub sequence_to_ros_seq : ℕ → ℕ
sequence_to_ros_seq sequence = if ltb max_ros_seq sequence then max_ros_seq else sequence % 2 ^ 32

-- The ids of the cameras are below 10, so that `std::to_string` prints one digit.
abbrev pub camera_frame_id : ℕ → List ℕ
camera_frame_id camera_id = codes "robobaton_camera" ++ (b'0' + camera_id) ∷ codes "_optical"

unfoldable pub append_header : List ℕ → ℕ → RosbagTime → List ℕ → Result (List ℕ)
unfolding append_u32 append_ros_time append_ros_string
append_header payload seq stamp frame_id =
    append_ros_string (append_ros_time (append_u32 payload seq) stamp) frame_id

-- The payload with the place of the image's length, and its offset.
unfoldable pub start_compressed_image_payload : ℕ → RosbagTime → List ℕ → Result (List ℕ × ℕ)
unfolding append_header append_ros_string append_u32
start_compressed_image_payload seq stamp frame_id = do
  payload ← append_header [] seq stamp frame_id
  payload' ← append_ros_string payload (codes "jpeg")
  ok (append_u32 payload' 0, length payload')

-- `std::memcpy` of four bytes, all of them inside the payload.
unfoldable pub patch_u32 : List ℕ → ℕ → ℕ → List ℕ
patch_u32 payload offset value =
    take offset payload ++ (le_bytes 4 value ++ drop (offset + 4) payload)

unfoldable pub make_string_payload : List ℕ → Result (List ℕ)
unfolding append_ros_string
make_string_payload value = append_ros_string [] value

-- The image of `EncodeFrame`: its message is begun, the encoder appends `jpeg`, and the length is
-- filled in.
unfoldable pub encode_image : ℕ → ℕ → List ℕ → List ℕ → Result (List ℕ)
unfolding sequence_to_ros_seq rosbag_time_from_ns start_compressed_image_payload patch_u32
encode_image sequence camera_timestamp_ns frame_id jpeg = do
  (payload, jpeg_size_offset) ←
      start_compressed_image_payload (sequence_to_ros_seq sequence)
        (rosbag_time_from_ns camera_timestamp_ns) frame_id
  throw_if (ltb uint32_max (length jpeg))
      (runtime_error "JPEG payload too large for sensor_msgs/CompressedImage")
  ok (patch_u32 (payload ++ jpeg) jpeg_size_offset (length jpeg))

-- A loop that appends doubles.
unfoldable pub append_f64s : List ℕ → List ℕ → List ℕ
unfolding append_f64
append_f64s payload [] = payload
append_f64s payload (x ∷ xs) = append_f64s (append_f64 payload x) xs

abbrev pub double_one : ℕ
double_one = 0x3ff0_0000_0000_0000

abbrev pub double_minus_one : ℕ
double_minus_one = 0xbff0_0000_0000_0000

-- The numbers of a sample behind the header.
unfoldable pub append_imu_numbers : ImuSample → List ℕ → List ℕ
unfolding append_f64s
append_imu_numbers sample header =
    let orientation = append_f64s header (0 ∷ 0 ∷ 0 ∷ double_one ∷ []) in
    let unknown = append_f64s orientation (double_minus_one ∷ replicate 8 0) in
    let turning = append_f64s (append_f64s unknown sample.gyro_rps) (replicate 9 0) in
    append_f64s (append_f64s turning sample.accel_mps2) (replicate 9 0)

-- The payload of `WriteImuSample`.
unfoldable pub imu_payload : ImuSample → Result (List ℕ)
unfolding append_header append_imu_numbers sequence_to_ros_seq rosbag_time_from_ns
imu_payload sample = do
  header ←
      append_header [] (sequence_to_ros_seq sample.sample_sequence)
        (rosbag_time_from_ns sample.sample_timestamp_ns) (codes "robobaton_imu_link")
  ok (append_imu_numbers sample header)

-- A loop that appends zero words.
unfoldable pub append_u32_zeros : List ℕ → ℕ → List ℕ
unfolding append_u32
append_u32_zeros payload zero = payload
append_u32_zeros payload (suc n) = append_u32_zeros (append_u32 payload 0) n

-- The payload of `WriteCameraInfoMessage`.
unfoldable pub camera_info_payload : ℕ → RosbagTime → ℕ → ℕ → Result (List ℕ)
unfolding append_header append_f64s append_u32_zeros append_bool append_ros_string
camera_info_payload camera_id stamp width height = do
  header ← append_header [] 0 stamp (camera_frame_id camera_id)
  model ← append_ros_string (append_u32 (append_u32 header height) width) []
  let matrices =
      append_f64s (append_u32 model 0) (replicate 9 0 ++ (replicate 9 0 ++ replicate 12 0))
  ok (append_bool (append_u32_zeros matrices 6) false)

-- The time with which the last message was recorded.
pub record DataClock : Type 0 where
  pub has_last_data_record_time : Bool
  pub last_data_record_time_ns : ℕ

unfoldable pub record_data_stamp : ℕ → DataClock → DataClock × RosbagTime
unfolding rosbag_time_from_ns
record_data_stamp preferred_time_ns clock =
    let clock' =
      if not clock.has_last_data_record_time || ltb clock.last_data_record_time_ns preferred_time_ns
      then record { has_last_data_record_time = true; last_data_record_time_ns = preferred_time_ns }
      else clock in
    (clock', rosbag_time_from_ns clock'.last_data_record_time_ns)
