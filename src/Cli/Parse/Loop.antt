-- ===== src/Cli/Parse/Loop.antt =====
-- src/cam_demo_config.cpp: the loop of `ParseCommandLineImpl` over the arguments behind the program's
-- name, and `FinalizeParsedOptions`.
use mrp_robo_baton_4p_no_ros.Base.{
  ℕ, Bool, true, ◌&&◌, ◌||◌, not, List, [], ◌∷◌, if◌then◌else◌, min,
}
use mrp_robo_baton_4p_no_ros.Base.Int.{pos, eqb_ℤ}
use mrp_robo_baton_4p_no_ros.Base.Errors.{
  Exception, invalid_argument, Result, ok, throws, ◌>>=◌, ◌>>◌, throw_if,
}
use mrp_robo_baton_4p_no_ros.Camera.{camera_mask_from_channel_count, camera_mask_pop_count}
use mrp_robo_baton_4p_no_ros.Cli.Numbers.{parse_int, parse_uint32, parse_uint64, parse_long_long}
use mrp_robo_baton_4p_no_ros.Cli.Options.{
  Options, validate_options, is_absolute, default_imu_print_rate_hz,
}
use mrp_robo_baton_4p_no_ros.Cli.Parse.{
  ParseState, initial_state, Progress, parse_video_codec, parse_imu_sample_drop_policy,
  parse_imu_start_order, apply_channels, apply_camera_id, apply_camera_mask, Flag, channels,
  camera_id, camera_mask, width, height, fps, bps, codec, url, rtsp_base_port, rotate,
  diag_interval_ms, max_skew_ns, frame_timeout_ms, trigger_mode, sample_rate_hz,
  imu_sample_drop_policy, imu_start_order, print_rate_hz, record_bag, record_mp4_dir,
  record_frame_skip, capture_dir, capture_frame_count, capture_warmup_seconds, diagnostics,
  print_metrics, help, unknown, flag_of, with_options,
}

-- The body of a branch that takes a value.
unfoldable pub apply_value : Flag → List ℕ → Progress → Result Progress
apply_value channels text p = parse_int text >>= λ n. ok (apply_channels n p)
apply_value camera_id text p = parse_int text >>= λ n. apply_camera_id n p
apply_value camera_mask text p = parse_uint32 text >>= λ n. apply_camera_mask n p
apply_value width text p =
    parse_int text >>= λ n. ok (with_options p (record (p.options) { width = n }))
apply_value height text p =
    parse_int text >>= λ n. ok (with_options p (record (p.options) { height = n }))
apply_value fps text p =
    parse_int text >>= λ n. ok (with_options p (record (p.options) { fps = n }))
apply_value bps text p =
    parse_long_long text >>= λ n. ok (with_options p (record (p.options) { bps = n }))
apply_value codec text p =
    parse_video_codec text >>= λ c. ok (with_options p (record (p.options) { video_codec = c }))
apply_value url text p = ok (with_options p (record (p.options) { url = text }))
apply_value rtsp_base_port text p =
    parse_int text >>= λ n. ok (with_options p (record (p.options) { rtsp_base_port = n }))
apply_value rotate text p =
    parse_int text >>= λ n. ok (with_options p (record (p.options) { rotate_degrees = n }))
apply_value diag_interval_ms text p =
    parse_int text >>= λ n. ok (with_options p (record (p.options) { diagnostic_interval_ms = n }))
apply_value max_skew_ns text p = parse_uint64 text >>= λ n.
    ok (with_options p (record (p.options) { frame_set_max_skew_ns = n }))
apply_value frame_timeout_ms text p =
    parse_uint32 text >>= λ n. ok (with_options p (record (p.options) { frame_set_timeout_ms = n }))
apply_value trigger_mode text p = ok (with_options p (record (p.options) { trigger_mode = text }))
apply_value sample_rate_hz text p =
    parse_uint32 text >>= λ n. ok (with_options p (record (p.options) { imu_sample_rate_hz = n }))
apply_value imu_sample_drop_policy text p = parse_imu_sample_drop_policy text >>= λ n.
    ok (with_options p (record (p.options) { imu_sample_drop_policy = n }))
apply_value imu_start_order text p = parse_imu_start_order text >>= λ order.
    ok (with_options p (record (p.options) { imu_start_order = order }))
apply_value print_rate_hz text p = parse_uint32 text >>= λ n. ok (record p {
  options = record (p.options) { imu_print_rate_hz = n };
  imu_print_rate_was_set = true;
})
apply_value record_bag text p = do
  throw_if p.state.record_mp4_set
      (invalid_argument "--record-bag and --record-mp4-dir are mutually exclusive")
  throw_if (not (is_absolute text)) (invalid_argument "--record-bag path must be absolute")
  ok (record p {
    options = record (p.options) { record_bag_path = text; record_mp4_directory = [] };
    state = record (p.state) { record_bag_set = true };
  })
apply_value record_mp4_dir text p = do
  throw_if p.state.record_bag_set
      (invalid_argument "--record-bag and --record-mp4-dir are mutually exclusive")
  throw_if (not (is_absolute text)) (invalid_argument "--record-mp4-dir path must be absolute")
  ok (record p {
    options = record (p.options) { record_bag_path = []; record_mp4_directory = text };
    state = record (p.state) { record_mp4_set = true };
  })
apply_value record_frame_skip text p = parse_uint32 text >>= λ n. ok (record p {
  options = record (p.options) { record_frame_skip = n };
  state = record (p.state) { record_frame_skip_set = true };
})
apply_value capture_dir text p = do
  throw_if (not (is_absolute text)) (invalid_argument "--capture-dir path must be absolute")
  ok (with_options p (record (p.options) { capture_directory = text; capture_enabled = true }))
apply_value capture_frame_count text p =
    parse_uint32 text >>= λ n. ok (with_options p (record (p.options) { capture_frame_count = n }))
apply_value capture_warmup_seconds text p = parse_uint32 text >>= λ n.
    ok (with_options p (record (p.options) { capture_warmup_seconds = n }))
apply_value diagnostics text p = ok p
apply_value print_metrics text p = ok p
apply_value help text p = ok p
apply_value unknown text p = ok p

-- Without a value behind it the option is refused; the two recordings test each other first.
unfoldable pub missing_value : Flag → Progress → Exception
missing_value record_bag p =
    if p.state.record_mp4_set
    then invalid_argument "--record-bag and --record-mp4-dir are mutually exclusive"
    else invalid_argument "missing value"
missing_value record_mp4_dir p =
    if p.state.record_bag_set
    then invalid_argument "--record-bag and --record-mp4-dir are mutually exclusive"
    else invalid_argument "missing value"
missing_value _ p = invalid_argument "missing value"

-- How a branch of the chain goes on.
pub data Branch : Type 0 where
  goes_on : (Progress → Progress) → Branch
  exits no_option takes_value : Branch

abbrev pub set_diagnostics : Progress → Progress
set_diagnostics p = with_options p (record (p.options) { diagnostics = true })

abbrev pub set_print_metrics : Progress → Progress
set_print_metrics p = with_options p (record (p.options) { imu_print_metrics = true })

unfoldable pub branch_of : Flag → Branch
branch_of diagnostics = goes_on set_diagnostics
branch_of print_metrics = goes_on set_print_metrics
branch_of help = exits
branch_of unknown = no_option
branch_of _ = takes_value

-- `--help` prints the usage and exits the process.
pub data Outcome {ℓ} (A : Type ℓ) : Type ℓ where
  parsed : A → Outcome A
  helped : Outcome A
  rejected : Exception → Outcome A

unfoldable pub parse_loop : Bool → List (List ℕ) → Progress → Outcome Progress
parse_loop accept [] p = parsed p
parse_loop accept (arg ∷ []) p = elim (branch_of (flag_of accept arg)) [
  | goes_on f ↦ parsed (f p)
  | exits ↦ helped
  | no_option ↦ rejected (invalid_argument "unknown argument")
  | takes_value ↦ rejected (missing_value (flag_of accept arg) p)
]
parse_loop accept (arg ∷ value ∷ args) p = elim (branch_of (flag_of accept arg)) [
  | goes_on f ↦ parse_loop accept (value ∷ args) (f p)
  | exits ↦ helped
  | no_option ↦ rejected (invalid_argument "unknown argument")
  | takes_value ↦ elim (apply_value (flag_of accept arg) value p) [
    | ok p' ↦ parse_loop accept args p'
    | throws e ↦ rejected e
  ]
]

unfoldable pub validate_selector_state : ParseState → Options → Result (Unit {0})
validate_selector_state state options =
    throw_if
      (state.channels_set
        && state.camera_selector_set
        && not (eqb_ℤ state.requested_channels (pos (camera_mask_pop_count options.camera_mask))))
      (invalid_argument "--channels conflicts with --camera-id/--camera-mask")

abbrev selects_camera : ParseState → Bool
selects_camera state = state.channels_set || state.camera_selector_set

-- The options that are validated: the mask that follows the channel count, and the print rate.
unfoldable pub settle : ParseState → Bool → Bool → Options → Options
settle selector_state accept_imu_options imu_print_rate_was_set o = record o {
  camera_mask =
      if selects_camera selector_state
      then o.camera_mask
      else camera_mask_from_channel_count o.channels;
  imu_print_rate_hz =
      if accept_imu_options && not imu_print_rate_was_set
      then min o.imu_sample_rate_hz default_imu_print_rate_hz
      else o.imu_print_rate_hz;
}

abbrev pub selector_of : ParseState → ParseState → ParseState
selector_of config_state cli_state = if selects_camera cli_state then cli_state else config_state

abbrev pub validate_settled : ParseState → Bool → Options → Result Options
validate_settled selector_state record_frame_skip_set o = do
  validate_selector_state selector_state o
  validate_options o record_frame_skip_set
  ok o

unfoldable pub finalize_parsed_options :
    Options → ParseState → ParseState → Bool → Bool → Result Options
finalize_parsed_options options config_state cli_state imu_print_rate_was_set accept_imu_options =
    validate_settled (selector_of config_state cli_state) cli_state.record_frame_skip_set (
      settle (selector_of config_state cli_state) accept_imu_options imu_print_rate_was_set options)

-- The loop's end; an exception leaves `ParseCommandLineImpl`.
unfoldable pub finish : Bool → Options → Outcome Progress → Outcome Options
finish accept_imu_options options helped = helped
finish accept_imu_options options (rejected e) = rejected e
finish accept_imu_options options (parsed p) = outcome (
    finalize_parsed_options p.options (initial_state options.channels) p.state
      p.imu_print_rate_was_set accept_imu_options)
  where
    outcome : Result Options → Outcome Options
    outcome (ok o) = parsed o
    outcome (throws e) = rejected e

unfoldable pub parse_command_line_impl : List (List ℕ) → Bool → Options → Bool → Outcome Options
parse_command_line_impl args accept_imu_options options imu_print_rate_was_set =
    finish accept_imu_options options (
      parse_loop accept_imu_options args (record {
        options = options;
        state = initial_state options.channels;
        imu_print_rate_was_set = imu_print_rate_was_set;
      }))
