-- ===== src/Cli/Parse.antt =====
-- src/cam_demo_config.cpp: the state of the command-line parser, its selectors of cameras, and the
-- names of the options. `Loop` has the loop over the arguments.
pub mod Loop
pub mod Naming
pub mod Pairs
pub mod Branches
pub mod Reading
pub mod Acceptance
use mrp_robo_baton_4p_no_ros.Base.{
  ℕ, ◌-◌, ◌^◌, Bool, true, false, ◌&&◌, ◌||◌, not, Option, none, some, List, [], ◌∷◌, bytes_eq,
  if◌then◌else◌, min,
}
use mrp_robo_baton_4p_no_ros.Base.Int.{ℤ, pos, pos_part, ltb_ℤ, eqb_ℤ}
use mrp_robo_baton_4p_no_ros.Base.Bytes.{codes}
use mrp_robo_baton_4p_no_ros.Base.Errors.{
  Exception, invalid_argument, Result, ok, throws, ◌>>=◌, ◌>>◌, throw_if,
}
use mrp_robo_baton_4p_no_ros.Camera.{
  camera_mask_from_channel_count, camera_mask_pop_count, is_supported_camera_mask,
}
use mrp_robo_baton_4p_no_ros.Cli.Numbers.{parse_int, parse_uint32, parse_uint64, parse_long_long}
use mrp_robo_baton_4p_no_ros.Cli.Options.{
  Options, VideoCodec, h264, h265, ImuStartOrder, imu_first, camera_first, validate_options,
  is_absolute, default_imu_print_rate_hz, drop_policy_allow_counted, drop_policy_strict,
}

pub record ParseState : Type 0 where
  pub channels_set : Bool
  pub camera_selector_set : Bool
  pub record_frame_skip_set : Bool
  pub record_bag_set : Bool
  pub record_mp4_set : Bool
  pub requested_channels : ℤ

abbrev pub initial_state : ℤ → ParseState
initial_state channels = record {
  channels_set = false;
  camera_selector_set = false;
  record_frame_skip_set = false;
  record_bag_set = false;
  record_mp4_set = false;
  requested_channels = channels;
}

-- What the loop changes: the options, its state, and whether the print rate was set.
pub record Progress : Type 0 where
  pub options : Options
  pub state : ParseState
  pub imu_print_rate_was_set : Bool

unfoldable pub parse_video_codec : List ℕ → Result VideoCodec
parse_video_codec text =
    if bytes_eq text (codes "h264")
    then ok h264
    else if bytes_eq text (codes "h265")
    then ok h265
    else throws (invalid_argument "--codec must be h264 or h265")

unfoldable pub parse_imu_sample_drop_policy : List ℕ → Result ℕ
parse_imu_sample_drop_policy text =
    if bytes_eq text (codes "allow-counted")
    then ok drop_policy_allow_counted
    else if bytes_eq text (codes "strict")
    then ok drop_policy_strict
    else throws (invalid_argument "--imu-sample-drop-policy must be allow-counted or strict")

unfoldable pub parse_imu_start_order : List ℕ → Result ImuStartOrder
parse_imu_start_order text =
    if bytes_eq text (codes "imu-first")
    then ok imu_first
    else if bytes_eq text (codes "camera-first")
    then ok camera_first
    else throws (invalid_argument "--imu-start-order must be imu-first or camera-first")

unfoldable pub apply_channels : ℤ → Progress → Progress
apply_channels channels p = record p {
  options = record options {
    channels = channels;
    camera_mask =
        if state.camera_selector_set
        then options.camera_mask
        else camera_mask_from_channel_count channels;
  };
  state = record state { requested_channels = channels; channels_set = true };
}
  where
    open p use {options, state}

unfoldable pub apply_camera_id : ℤ → Progress → Result Progress
apply_camera_id camera_id p = do
  throw_if (ltb_ℤ camera_id (pos 0) || not (ltb_ℤ camera_id (pos 4)))
      (invalid_argument "--camera-id must be 0, 1, 2, or 3")
  ok (record p {
    options = record options { camera_mask = 2 ^ pos_part camera_id; channels = pos 1 };
    state = record state { camera_selector_set = true };
  })
  where
    open p use {options, state}

unfoldable pub apply_camera_mask : ℕ → Progress → Result Progress
apply_camera_mask camera_mask p = do
  throw_if (not (is_supported_camera_mask camera_mask))
      (invalid_argument "--camera-mask supports only 0x1, 0x2, 0x4, 0x8, or 0xF")
  ok (record p {
    options = record options {
      camera_mask = camera_mask;
      channels = pos (camera_mask_pop_count camera_mask);
    };
    state = record state { camera_selector_set = true };
  })
  where
    open p use {options, state}

-- The options that take a value, the others, and what is no option.
pub data Flag : Type 0 where
  channels camera_id camera_mask width height fps bps codec url rtsp_base_port rotate : Flag
  diag_interval_ms max_skew_ns frame_timeout_ms trigger_mode sample_rate_hz : Flag
  imu_sample_drop_policy imu_start_order print_rate_hz record_bag record_mp4_dir : Flag
  record_frame_skip capture_dir capture_frame_count capture_warmup_seconds : Flag
  diagnostics print_metrics help unknown : Flag

-- The names in the order of the `else if` chain.
abbrev pub camera_flags : List (List ℕ × Flag)
camera_flags =
    (codes "--channels", channels)
    ∷ (codes "--camera-id", camera_id)
    ∷ (codes "--camera-mask", camera_mask)
    ∷ (codes "--width", width)
    ∷ (codes "--height", height)
    ∷ (codes "--fps", fps)
    ∷ (codes "--bps", bps)
    ∷ (codes "--codec", codec)
    ∷ (codes "--url", url)
    ∷ (codes "--rtsp-base-port", rtsp_base_port)
    ∷ (codes "--rotate", rotate)
    ∷ (codes "--diagnostics", diagnostics)
    ∷ (codes "--diag-interval-ms", diag_interval_ms)
    ∷ (codes "--max-skew-ns", max_skew_ns)
    ∷ (codes "--frame-timeout-ms", frame_timeout_ms)
    ∷ (codes "--trigger-mode", trigger_mode)
    ∷ []

abbrev pub imu_flags : List (List ℕ × Flag)
imu_flags =
    (codes "--sample-rate-hz", sample_rate_hz)
    ∷ (codes "--imu-sample-drop-policy", imu_sample_drop_policy)
    ∷ (codes "--imu-start-order", imu_start_order)
    ∷ (codes "--print-rate-hz", print_rate_hz)
    ∷ (codes "--print-metrics", print_metrics)
    ∷ (codes "--record-bag", record_bag)
    ∷ (codes "--record-mp4-dir", record_mp4_dir)
    ∷ (codes "--record-frame-skip", record_frame_skip)
    ∷ (codes "--capture-dir", capture_dir)
    ∷ (codes "--capture-frame-count", capture_frame_count)
    ∷ (codes "--capture-warmup-seconds", capture_warmup_seconds)
    ∷ []

abbrev pub help_flags : List (List ℕ × Flag)
help_flags = (codes "--help", help) ∷ (codes "-h", help) ∷ []

unfoldable pub find_flag : List ℕ → List (List ℕ × Flag) → Option Flag
find_flag arg [] = none
find_flag arg ((name, flag) ∷ flags) = if bytes_eq arg name then some flag else find_flag arg flags

abbrev or_else : Option Flag → Option Flag → Option Flag
or_else none other = other
or_else (some flag) other = some flag

abbrev or_unknown : Option Flag → Flag
or_unknown none = unknown
or_unknown (some flag) = flag

-- The options of `sensor_demo` are names to it alone.
unfoldable pub flag_of : Bool → List ℕ → Flag
unfolding find_flag
flag_of accept_imu_options arg = or_unknown (
    or_else (find_flag arg camera_flags) (
      or_else (if accept_imu_options then find_flag arg imu_flags else none)
        (find_flag arg help_flags)))

abbrev pub with_options : Progress → Options → Progress
with_options p o = record p { options = o }
