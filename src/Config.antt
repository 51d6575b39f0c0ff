-- ===== src/Config.antt =====
-- src/sensor_demo_yaml_config.cpp: the configuration file of sensor_demo, its lines and its keys. The
-- file's text is a list of lines; making the file, and the environment, are left out.
pub mod Text
pub mod Load
pub mod Selection
pub mod Loading
use mrp_robo_baton_4p_no_ros.Base.{
  ℕ, ◌+◌, ◌-◌, Bool, true, false, not, ◌&&◌, ◌||◌, Option, none, some, List, [], ◌∷◌, ◌++◌, ltb,
  leb, ◌==◌, bytes_eq, if◌then◌else◌, String,
}
use mrp_robo_baton_4p_no_ros.Base.Bytes.{codes}
use mrp_robo_baton_4p_no_ros.Base.Errors.{
  Exception, invalid_argument, Result, ok, throws, ◌>>=◌, ◌>>◌, throw_if,
}
use mrp_robo_baton_4p_no_ros.Cli.Options.{Options, VideoCodec, h264, h265, is_empty, is_absolute}
use mrp_robo_baton_4p_no_ros.Cli.Numbers.{parse_int, parse_long_long, parse_uint32}
use mrp_robo_baton_4p_no_ros.Config.Text.{
  to_lower, trim, normalize_config_key, strip_yaml_comment, parse_yaml_scalar, leading_spaces,
  split_at_colon,
}

-- `SensorDemoYamlConfigState`.
pub record YamlConfigState : Type 0 where
  pub imu_print_rate_was_set : Bool
  pub save_data_enabled : Bool
  pub save_data_format : List ℕ
  pub save_data_path : List ℕ
  pub capture_enabled : Bool
  pub capture_directory : List ℕ
  pub capture_frame_count : ℕ
  pub capture_warmup_seconds : ℕ

abbrev pub initial_yaml_state : YamlConfigState
initial_yaml_state = record {
  imu_print_rate_was_set = false;
  save_data_enabled = false;
  save_data_format = codes "mp4";
  save_data_path = codes "/root/demo/save_mp4/";
  capture_enabled = false;
  capture_directory = codes "/root/demo/capture/";
  capture_frame_count = 100;
  capture_warmup_seconds = 5;
}

unfoldable pub is_supported_section : List ℕ → Bool
is_supported_section section =
    bytes_eq section (codes "camera")
    || (bytes_eq section (codes "rtsp")
        || (bytes_eq section (codes "imu")
            || (bytes_eq section (codes "save_data") || bytes_eq section (codes "capture"))))

abbrev begins_with_minus : List ℕ → Bool
begins_with_minus [] = false
begins_with_minus (c ∷ cs) = c == b'-'

-- The file's `ParseUint32`, which refuses a minus sign.
unfoldable pub parse_yaml_uint32 : List ℕ → Result ℕ
unfolding parse_uint32
parse_yaml_uint32 text = do
  throw_if (begins_with_minus text) (invalid_argument "invalid unsigned integer for ")
  parse_uint32 text

unfoldable pub parse_bool : List ℕ → Result Bool
unfolding to_lower
parse_bool text =
    let normalized = to_lower text in
    if bytes_eq normalized (codes "true")
      || (bytes_eq normalized (codes "on")
          || (bytes_eq normalized (codes "yes") || bytes_eq normalized (codes "1")))
    then ok true
    else if bytes_eq normalized (codes "false")
        || (bytes_eq normalized (codes "off")
            || (bytes_eq normalized (codes "no") || bytes_eq normalized (codes "0")))
    then ok false
    else throws (invalid_argument "invalid boolean for ")

unfoldable pub parse_video_codec : List ℕ → Result VideoCodec
parse_video_codec text =
    if bytes_eq text (codes "h264")
    then ok h264
    else if bytes_eq text (codes "h265")
    then ok h265
    else throws (invalid_argument "sensor_config.rtsp.codec must be h264 or h265")

-- The options and the file's own state.
pub record Config : Type 0 where
  pub options : Options
  pub state : YamlConfigState

unfoldable pub apply_save_data_selection : Config → Config
apply_save_data_selection c =
    let rosbag = c.state.save_data_enabled && bytes_eq c.state.save_data_format (codes "rosbag") in
    let mp4 =
      c.state.save_data_enabled
      && (not (bytes_eq c.state.save_data_format (codes "rosbag"))
          && bytes_eq c.state.save_data_format (codes "mp4")) in
    record c {
      options = record c.options {
        record_bag_path = if rosbag then c.state.save_data_path else [];
        record_mp4_directory = if mp4 then c.state.save_data_path else [];
      };
    }

unfoldable pub apply_capture_selection : Config → Config
apply_capture_selection c = record c {
  options = record c.options {
    capture_enabled = c.state.capture_enabled;
    capture_directory = if c.state.capture_enabled then c.state.capture_directory else [];
    capture_frame_count = c.state.capture_frame_count;
    capture_warmup_seconds = c.state.capture_warmup_seconds;
  };
}

-- The keys that the file may set.
pub data YamlKey : Type 0 where
  camera_width camera_height camera_fps camera_rotate : YamlKey
  rtsp_bps rtsp_codec rtsp_url : YamlKey
  imu_sample_rate_hz imu_print_rate_hz imu_print_metrics : YamlKey
  save_data_save save_data_format save_data_save_path save_data_skip : YamlKey
  capture_save capture_save_path capture_frame_count capture_warmup_seconds : YamlKey

abbrev yaml_keys : List (List ℕ × YamlKey)
yaml_keys =
    (codes "camera.width", YamlKey.camera_width)
    ∷ (codes "camera.height", YamlKey.camera_height)
    ∷ (codes "camera.fps", YamlKey.camera_fps)
    ∷ (codes "camera.rotate", YamlKey.camera_rotate)
    ∷ (codes "rtsp.bps", YamlKey.rtsp_bps)
    ∷ (codes "rtsp.codec", YamlKey.rtsp_codec)
    ∷ (codes "rtsp.url", YamlKey.rtsp_url)
    ∷ (codes "imu.sample_rate_hz", YamlKey.imu_sample_rate_hz)
    ∷ (codes "imu.print_rate_hz", YamlKey.imu_print_rate_hz)
    ∷ (codes "imu.print_metrics", YamlKey.imu_print_metrics)
    ∷ (codes "save_data.save", YamlKey.save_data_save)
    ∷ (codes "save_data.format", YamlKey.save_data_format)
    ∷ (codes "save_data.save_path", YamlKey.save_data_save_path)
    ∷ (codes "save_data.skip", YamlKey.save_data_skip)
    ∷ (codes "capture.save", YamlKey.capture_save)
    ∷ (codes "capture.save_path", YamlKey.capture_save_path)
    ∷ (codes "capture.frame_count", YamlKey.capture_frame_count)
    ∷ (codes "capture.warmup_seconds", YamlKey.capture_warmup_seconds)
    ∷ []

unfoldable pub find_key : List ℕ → List (List ℕ × YamlKey) → Option YamlKey
find_key text [] = none
find_key text ((name, key) ∷ keys) = if bytes_eq text name then some key else find_key text keys

unfoldable pub yaml_key : List ℕ → Option YamlKey
unfolding find_key
yaml_key text = find_key text yaml_keys

abbrev pub set_options : Config → Options → Config
set_options c options = record c { options = options }

-- A key's value is parsed and stored, and the selections that depend on it are made anew.
unfoldable pub apply_yaml_key : YamlKey → List ℕ → Config → Result Config
unfolding parse_yaml_uint32 parse_bool parse_video_codec
apply_yaml_key YamlKey.camera_width value c = do
  width ← parse_int value
  ok (set_options c (record c.options { width = width }))
apply_yaml_key YamlKey.camera_height value c = do
  height ← parse_int value
  ok (set_options c (record c.options { height = height }))
apply_yaml_key YamlKey.camera_fps value c = do
  fps ← parse_int value
  ok (set_options c (record c.options { fps = fps }))
apply_yaml_key YamlKey.camera_rotate value c = do
  rotate_degrees ← parse_int value
  ok (set_options c (record c.options { rotate_degrees = rotate_degrees }))
apply_yaml_key YamlKey.rtsp_bps value c = do
  bps ← parse_long_long value
  ok (set_options c (record c.options { bps = bps }))
apply_yaml_key YamlKey.rtsp_codec value c = do
  video_codec ← parse_video_codec value
  ok (set_options c (record c.options { video_codec = video_codec }))
apply_yaml_key YamlKey.rtsp_url value c = ok (set_options c (record c.options { url = value }))
apply_yaml_key YamlKey.imu_sample_rate_hz value c = do
  rate ← parse_yaml_uint32 value
  ok (set_options c (record c.options { imu_sample_rate_hz = rate }))
apply_yaml_key YamlKey.imu_print_rate_hz value c = do
  rate ← parse_yaml_uint32 value
  ok (record {
    options = record c.options { imu_print_rate_hz = rate };
    state = record c.state { imu_print_rate_was_set = true };
  })
apply_yaml_key YamlKey.imu_print_metrics value c = do
  print_metrics ← parse_bool value
  ok (set_options c (record c.options { imu_print_metrics = print_metrics }))
apply_yaml_key YamlKey.save_data_save value c = do
  enabled ← parse_bool value
  ok (
      apply_save_data_selection
        (record c { state = record c.state { save_data_enabled = enabled } }))
apply_yaml_key YamlKey.save_data_format value c = do
  let format = to_lower value
  throw_if (not (bytes_eq format (codes "rosbag") || bytes_eq format (codes "mp4")))
      (invalid_argument "save_data.format must be rosbag or mp4")
  ok (apply_save_data_selection (record c { state = record c.state { save_data_format = format } }))
apply_yaml_key YamlKey.save_data_save_path value c = do
  throw_if (not (is_absolute value))
      (invalid_argument "save_data.save_path must be an absolute path")
  ok (apply_save_data_selection (record c { state = record c.state { save_data_path = value } }))
apply_yaml_key YamlKey.save_data_skip value c = do
  skip ← parse_bool value
  ok (set_options c (record c.options { record_frame_skip = if skip then 1 else 0 }))
apply_yaml_key YamlKey.capture_save value c = do
  enabled ← parse_bool value
  ok (apply_capture_selection (record c { state = record c.state { capture_enabled = enabled } }))
apply_yaml_key YamlKey.capture_save_path value c = do
  throw_if (not (is_absolute value)) (invalid_argument "capture.save_path must be an absolute path")
  ok (apply_capture_selection (record c { state = record c.state { capture_directory = value } }))
apply_yaml_key YamlKey.capture_frame_count value c = do
  count ← parse_yaml_uint32 value
  ok (apply_capture_selection (record c { state = record c.state { capture_frame_count = count } }))
apply_yaml_key YamlKey.capture_warmup_seconds value c = do
  seconds ← parse_yaml_uint32 value
  ok (
      apply_capture_selection
        (record c { state = record c.state { capture_warmup_seconds = seconds } }))

-- `ApplyYamlConfigValue`, none where the key is unknown.
unfoldable pub apply_yaml_config_value : List ℕ → List ℕ → Config → Option (Result Config)
unfolding yaml_key apply_yaml_key
apply_yaml_config_value key value c = elim (yaml_key key) [
  | none ↦ none
  | some known ↦ some (apply_yaml_key known value c)
]
