-- ===== src/Examples/Arguments.antt =====
-- Command lines for src/cam_demo_config.cpp.
use mrp_robo_baton_4p_no_ros.Base.{ℕ, ◌-◌, ◌^◌, ◌≡◌, ◌↔◌, refl, true, false, List, [], ◌∷◌, arith}
use mrp_robo_baton_4p_no_ros.Base.Int.{pos}
use mrp_robo_baton_4p_no_ros.Base.Bytes.{codes}
use mrp_robo_baton_4p_no_ros.Base.Errors.{ok}
use mrp_robo_baton_4p_no_ros.Camera.{
  camera_mask_from_channel_count, camera_mask_pop_count, camera_mask_contains,
  is_supported_camera_mask, is_supported_output_resolution, pop_count_loop, internal_rotate_degrees,
}
use mrp_robo_baton_4p_no_ros.Cli.Numbers.{
  parse_int, parse_uint64, read_integer, skip_space, read_sign, read_number, read_digits,
  digit_value,
}
use mrp_robo_baton_4p_no_ros.Cli.Numbers.Signs.{decimal_text, AreDigits, parse_uint64_blank_minus}
use mrp_robo_baton_4p_no_ros.Cli.Options.{
  Options, h264, camera_first, validate_options, validate_cameras, validate_stream, validate_timing,
  validate_recording, validate_capture, is_supported_camera_fps, is_supported_imu_sample_rate_hz,
  has_forbidden, is_trigger_mode,
}
use mrp_robo_baton_4p_no_ros.Cli.Options.Validity.{IsValidOptions, validate_options_iff}
use mrp_robo_baton_4p_no_ros.Cli.Parse.{flag_of, find_flag, apply_channels, apply_camera_id}
use mrp_robo_baton_4p_no_ros.Cli.Parse.Loop.{
  parsed, parse_loop, parse_command_line_impl, finish, finalize_parsed_options, settle,
  validate_selector_state, apply_value, branch_of,
}
use mrp_robo_baton_4p_no_ros.Cli.Parse.Pairs.{pairs_of}
use mrp_robo_baton_4p_no_ros.Cli.Parse.Acceptance.{IsAccepted, parse_command_line_impl-IsAccepted}

abbrev defaults : Options
defaults = record {
  channels = pos 4;
  camera_mask = 15;
  width = pos 1280;
  height = pos 1088;
  fps = pos 30;
  bps = pos 4000;
  video_codec = h264;
  url = codes "/PRR";
  rtsp_base_port = pos 554;
  rotate_degrees = pos 0;
  diagnostics = false;
  diagnostic_interval_ms = pos 1000;
  frame_set_max_skew_ns = 10_000_000;
  frame_set_timeout_ms = 100;
  trigger_mode = codes "software_gpio";
  imu_sample_rate_hz = 1000;
  imu_sample_drop_policy = 0;
  imu_start_order = camera_first;
  imu_print_rate_hz = 10;
  imu_print_metrics = false;
  record_frame_skip = 0;
  record_bag_path = [];
  record_mp4_directory = [];
  capture_enabled = false;
  capture_directory = [];
  capture_frame_count = 100;
  capture_warmup_seconds = 5;
}

defaults_pass : validate_options defaults false ≡ ok tt
unfolding validate_options validate_cameras validate_stream validate_timing validate_recording
    validate_capture is_supported_camera_mask camera_mask_pop_count pop_count_loop
    camera_mask_contains is_supported_output_resolution is_supported_camera_fps has_forbidden
    internal_rotate_degrees is_supported_imu_sample_rate_hz is_trigger_mode
defaults_pass = refl

validate_options_iff_example :
    (validate_options defaults false ≡ ok tt) ↔ IsValidOptions defaults false
validate_options_iff_example = validate_options_iff defaults false (omega arith)

-- "007"
seven-AreDigits : AreDigits (0 ∷ 0 ∷ 7 ∷ [])
seven-AreDigits = (omega arith, (omega arith, (omega arith, tt)))

-- " -12"
parse_uint64_blank_minus_example :
    parse_uint64 (b' ' ∷ b'-' ∷ decimal_text (1 ∷ 2 ∷ [])) ≡ ok (2 ^ 64 - 12)
parse_uint64_blank_minus_example =
    parse_uint64_blank_minus 1 (2 ∷ []) (omega arith, (omega arith, tt)) (omega arith) (omega arith)

abbrev arguments : List (List ℕ)
arguments =
    codes "--camera-id"
    ∷ codes "2"
    ∷ codes "--channels"
    ∷ codes "1"
    ∷ codes "--print-metrics"
    ∷ codes "--record-bag"
    ∷ codes "/a.bag"
    ∷ []

abbrev one_camera : Options
one_camera = record defaults {
  channels = pos 1;
  camera_mask = 4;
  imu_print_metrics = true;
  imu_print_rate_hz = 10;
  record_bag_path = codes "/a.bag";
}

arguments_pass : parse_command_line_impl arguments true defaults false ≡ parsed one_camera
unfolding parse_command_line_impl finish parse_loop branch_of flag_of find_flag apply_value
    apply_camera_id apply_channels parse_int read_integer skip_space read_sign read_number
    read_digits digit_value finalize_parsed_options settle validate_selector_state
    camera_mask_from_channel_count validate_options validate_cameras validate_stream validate_timing
    validate_recording validate_capture is_supported_camera_mask camera_mask_pop_count
    pop_count_loop camera_mask_contains is_supported_output_resolution is_supported_camera_fps
    has_forbidden internal_rotate_degrees is_supported_imu_sample_rate_hz is_trigger_mode
arguments_pass = refl

parse_command_line_impl-IsAccepted_example : IsAccepted (pairs_of arguments) defaults one_camera
parse_command_line_impl-IsAccepted_example =
    parse_command_line_impl-IsAccepted arguments defaults false one_camera arguments_pass
