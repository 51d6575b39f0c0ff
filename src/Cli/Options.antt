-- ===== src/Cli/Options.antt =====
-- src/cam_demo_common.h and src/cam_demo_config.cpp: the options of a run, and `ValidateOptions`.
-- An `int` or `long long` is an integer, an unsigned field a number.
pub mod Validity
use mrp_robo_baton_4p_no_ros.Base.{
  ℕ, ◌+◌, ◌-◌, ◌*◌, ◌%◌, ◌^◌, Bool, true, false, ◌&&◌, ◌||◌, not, List, [], ◌∷◌, length, ltb, leb,
  ◌==◌, bytes_eq, if◌then◌else◌,
}
use mrp_robo_baton_4p_no_ros.Base.Int.{ℤ, pos, negsuc, pos_part, ltb_ℤ, eqb_ℤ, ◌+ℤ◌}
use mrp_robo_baton_4p_no_ros.Base.Bytes.{codes}
use mrp_robo_baton_4p_no_ros.Base.Errors.{
  invalid_argument, Result, ok, throws, ◌>>=◌, ◌>>◌, throw_if,
}
use mrp_robo_baton_4p_no_ros.Camera.{
  is_supported_camera_mask, camera_mask_pop_count, is_supported_output_resolution,
  internal_rotate_degrees, max_channels,
}

pub data VideoCodec : Type 0 where
  h264 h265 : VideoCodec

pub data ImuStartOrder : Type 0 where
  imu_first camera_first : ImuStartOrder

abbrev pub drop_policy_allow_counted : ℕ
drop_policy_allow_counted = 0

abbrev pub drop_policy_strict : ℕ
drop_policy_strict = 1

-- The fields that the command line and its validation read or write.
pub record Options : Type 0 where
  pub channels : ℤ
  pub camera_mask : ℕ
  pub width : ℤ
  pub height : ℤ
  pub fps : ℤ
  pub bps : ℤ
  pub video_codec : VideoCodec
  pub url : List ℕ
  pub rtsp_base_port : ℤ
  pub rotate_degrees : ℤ
  pub diagnostics : Bool
  pub diagnostic_interval_ms : ℤ
  pub frame_set_max_skew_ns : ℕ
  pub frame_set_timeout_ms : ℕ
  pub trigger_mode : List ℕ
  pub imu_sample_rate_hz : ℕ
  pub imu_sample_drop_policy : ℕ
  pub imu_start_order : ImuStartOrder
  pub imu_print_rate_hz : ℕ
  pub imu_print_metrics : Bool
  pub record_frame_skip : ℕ
  pub record_bag_path : List ℕ
  pub record_mp4_directory : List ℕ
  pub capture_enabled : Bool
  pub capture_directory : List ℕ
  pub capture_frame_count : ℕ
  pub capture_warmup_seconds : ℕ

-- src/cam_demo_common.cpp
unfoldable pub rtsp_port_for_channel : Options → ℤ → ℤ
rtsp_port_for_channel o channel = o.rtsp_base_port +ℤ channel

abbrev pub default_imu_print_rate_hz : ℕ
default_imu_print_rate_hz = 10

unfoldable pub is_supported_imu_sample_rate_hz : ℕ → Bool
is_supported_imu_sample_rate_hz hz =
    hz == 25 || hz == 50 || hz == 100 || hz == 200 || hz == 500 || hz == 1000 || hz == 2000

unfoldable pub is_supported_camera_fps : ℤ → Bool
is_supported_camera_fps fps =
    eqb_ℤ fps (pos 25)
    || eqb_ℤ fps (pos 30)
    || eqb_ℤ fps (pos 40)
    || eqb_ℤ fps (pos 50)
    || eqb_ℤ fps (pos 60)

abbrev pub is_empty : List ℕ → Bool
is_empty [] = true
is_empty (c ∷ cs) = false

-- `text.front() == '/'`, false on the empty text.
abbrev pub is_absolute : List ℕ → Bool
is_absolute [] = false
is_absolute (c ∷ cs) = c == b'/'

abbrev pub is_forbidden : ℕ → Bool
is_forbidden c = ltb c 0x21 || ltb 0x7e c || c == b'?' || c == b'#' || c == b'%' || c == 92

unfoldable pub has_forbidden : List ℕ → Bool
has_forbidden [] = false
has_forbidden (c ∷ cs) = is_forbidden c || has_forbidden cs

abbrev is_codec_h264 : VideoCodec → Bool
is_codec_h264 h264 = true
is_codec_h264 h265 = false

unfoldable pub is_trigger_mode : List ℕ → Bool
is_trigger_mode mode = bytes_eq mode (codes "software_gpio") || bytes_eq mode (codes "none")

-- A negative size is on no list of supported ones.
abbrev is_supported_canvas : ℤ → ℤ → Bool
is_supported_canvas (pos w) (pos h) = is_supported_output_resolution w h
is_supported_canvas _ _ = false

-- The checks of `ValidateOptions` in their order, in five groups.
unfoldable pub validate_cameras : Options → Result (Unit {0})
validate_cameras o = do
  throw_if (not (eqb_ℤ o.channels (pos 1)) && not (eqb_ℤ o.channels (pos max_channels)))
      (invalid_argument "--channels is an internal debug option and only supports 1 or 4")
  throw_if
      (not (is_supported_camera_mask o.camera_mask)
        || not (eqb_ℤ o.channels (pos (camera_mask_pop_count o.camera_mask))))
      (invalid_argument "--camera-mask supports only 0x1, 0x2, 0x4, 0x8, or 0xF")
  throw_if (not (is_supported_canvas o.width o.height)) (
      invalid_argument
        "--width/--height must be 1280x1088, 640x480, 720x480, or 1280x720 (either axis order)")
  throw_if (not (is_supported_camera_fps o.fps))
      (invalid_argument "--fps must be 25, 30, 40, 50, or 60")

unfoldable pub validate_stream : Options → Result (Unit {0})
validate_stream o = do
  throw_if (not (ltb_ℤ (pos 0) o.bps) || ltb (2 ^ 32 - 1) (pos_part o.bps))
      (invalid_argument "--bps must fit the v2 uint32 bitrate field")
  throw_if (ltb (length o.url) 2 || ltb 56 (length o.url) || not (is_absolute o.url))
      (invalid_argument "--url must be a 2..56 byte path starting with '/'")
  throw_if (has_forbidden o.url) (invalid_argument "--url contains a v2-forbidden character")
  throw_if (not (ltb_ℤ (pos 0) o.rtsp_base_port) || ltb_ℤ (pos 65532) o.rtsp_base_port)
      (invalid_argument "--rtsp-base-port must keep four channel ports in 1..65535")

-- The rotation is one of four numbers where the second test is reached, so `%` has no sign there.
unfoldable pub validate_timing : Options → Result (Unit {0})
validate_timing o = do
  throw_if
      (not (eqb_ℤ o.rotate_degrees (pos 0))
        && not (eqb_ℤ o.rotate_degrees (pos 90))
        && not (eqb_ℤ o.rotate_degrees (pos 180))
        && not (eqb_ℤ o.rotate_degrees (pos 270)))
      (invalid_argument "--rotate must be 0, 90, 180, or 270")
  throw_if
      (internal_rotate_degrees (pos_part o.rotate_degrees) == 270 && not (eqb_ℤ o.fps (pos 30)))
      (invalid_argument "--rotate 180 is supported only at 30fps")
  throw_if (ltb_ℤ o.diagnostic_interval_ms (pos 100))
      (invalid_argument "--diag-interval-ms must be >= 100")
  throw_if (o.frame_set_max_skew_ns == 0) (invalid_argument "--max-skew-ns must be positive")
  throw_if (o.frame_set_timeout_ms == 0) (invalid_argument "--frame-timeout-ms must be positive")
  throw_if (not (is_supported_imu_sample_rate_hz o.imu_sample_rate_hz))
      (invalid_argument "--sample-rate-hz must be 25, 50, 100, 200, 500, 1000, or 2000")

unfoldable pub validate_recording : Options → Bool → Result (Unit {0})
validate_recording o record_frame_skip_set = do
  throw_if (ltb 1 o.record_frame_skip) (invalid_argument "--record-frame-skip must be 0 or 1")
  throw_if (not (is_empty o.record_bag_path) && not (is_absolute o.record_bag_path))
      (invalid_argument "--record-bag/save_data.save_path path must be absolute")
  throw_if (not (is_empty o.record_mp4_directory) && not (is_absolute o.record_mp4_directory))
      (invalid_argument "--record-mp4-dir/save_data.save_path path must be absolute")
  throw_if (not (is_empty o.record_bag_path) && not (is_empty o.record_mp4_directory))
      (invalid_argument "ROS bag and MP4 recording are mutually exclusive")
  throw_if (record_frame_skip_set && is_empty o.record_bag_path)
      (invalid_argument "--record-frame-skip requires --record-bag")
  throw_if (not (is_empty o.record_mp4_directory) && not (o.record_frame_skip == 0))
      (invalid_argument "MP4 recording does not support frame skip")
  throw_if (not (is_empty o.record_mp4_directory) && not (is_codec_h264 o.video_codec))
      (invalid_argument "MP4 recording requires --codec h264")

unfoldable pub validate_capture : Options → Result (Unit {0})
validate_capture o = do
  throw_if (ltb o.imu_sample_rate_hz o.imu_print_rate_hz)
      (invalid_argument "--print-rate-hz must not exceed --sample-rate-hz")
  throw_if (ltb drop_policy_strict o.imu_sample_drop_policy)
      (invalid_argument "--imu-sample-drop-policy must be allow-counted or strict")
  throw_if (not (is_trigger_mode o.trigger_mode))
      (invalid_argument "--trigger-mode must be one of software_gpio or none")
  throw_if (not (is_empty o.capture_directory) && not (is_absolute o.capture_directory))
      (invalid_argument "--capture-dir/capture.save_path path must be absolute")
  throw_if (o.capture_frame_count == 0 || ltb 100 o.capture_frame_count)
      (invalid_argument "--capture-frame-count must be in 1..100")
  throw_if (o.capture_warmup_seconds == 0 || ltb 60 o.capture_warmup_seconds)
      (invalid_argument "--capture-warmup-seconds must be in 1..60")

unfoldable pub validate_options : Options → Bool → Result (Unit {0})
validate_options o record_frame_skip_set = do
  validate_cameras o
  validate_stream o
  validate_timing o
  validate_recording o record_frame_skip_set
  validate_capture o
