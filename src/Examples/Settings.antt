-- ===== src/Examples/Settings.antt =====
-- The configuration file of src/sensor_demo_yaml_config.cpp on concrete inputs.
use mrp_robo_baton_4p_no_ros.Base.{ℕ, ◌≡◌, refl, true, false, List, [], ◌∷◌}
use mrp_robo_baton_4p_no_ros.Base.Bytes.{codes}
use mrp_robo_baton_4p_no_ros.Base.Int.{pos}
use mrp_robo_baton_4p_no_ros.Base.Errors.{ok}
use mrp_robo_baton_4p_no_ros.Cli.Options.{h264, camera_first}
use mrp_robo_baton_4p_no_ros.Config.{
  Config, YamlConfigState, initial_yaml_state, find_key, yaml_key, apply_yaml_key,
  apply_yaml_config_value, parse_bool, is_supported_section, apply_save_data_selection,
}
use mrp_robo_baton_4p_no_ros.Config.Text.{
  to_lower, trim, normalize_config_key, strip_yaml_comment, parse_yaml_scalar, leading_spaces,
  split_at_colon,
}
use mrp_robo_baton_4p_no_ros.Config.Load.{
  applied, load_value, load_entry, load_parts, load_stripped, load_lines,
  load_sensor_demo_yaml_config_file,
}
use mrp_robo_baton_4p_no_ros.Config.Selection.{IsSelected}
use mrp_robo_baton_4p_no_ros.Config.Loading.{load_sensor_demo_yaml_config_file-IsSelected}

abbrev initial : Config
initial = record {
  options = record {
    channels = pos 4;
    camera_mask = 15;
    width = pos 1280;
    height = pos 1088;
    fps = pos 30;
    bps = pos 4000;
    video_codec = h264;
    url = codes "/PRR";
    rtsp_base_port = pos 554;
    rotate_degrees = pos 0;
    diagnostics = false;
    diagnostic_interval_ms = pos 1000;
    frame_set_max_skew_ns = 10_000_000;
    frame_set_timeout_ms = 100;
    trigger_mode = codes "software_gpio";
    imu_sample_rate_hz = 1000;
    imu_sample_drop_policy = 0;
    imu_start_order = camera_first;
    imu_print_rate_hz = 10;
    imu_print_metrics = false;
    record_frame_skip = 0;
    record_bag_path = [];
    record_mp4_directory = [];
    capture_enabled = false;
    capture_directory = [];
    capture_frame_count = 100;
    capture_warmup_seconds = 5;
  };
  state = initial_yaml_state;
}

abbrev lines : List (List ℕ)
lines =
    codes "save_data: # the recording"
    ∷ codes "  save: yes"
    ∷ codes ""
    ∷ codes "  format: \"rosbag\""
    ∷ codes "  save-path: '/data'"
    ∷ []

abbrev saving : YamlConfigState
saving = record initial.state {
  save_data_enabled = true;
  save_data_format = codes "rosbag";
  save_data_path = codes "/data";
}

abbrev loaded : Config
loaded = record initial {
  options = record initial.options { record_bag_path = codes "/data" };
  state = saving;
}

lines_load : load_sensor_demo_yaml_config_file lines initial ≡ ok loaded
unfolding load_sensor_demo_yaml_config_file load_lines load_stripped load_parts load_entry
    load_value applied apply_yaml_config_value apply_yaml_key yaml_key find_key parse_bool
    is_supported_section to_lower trim normalize_config_key strip_yaml_comment parse_yaml_scalar
    leading_spaces split_at_colon apply_save_data_selection
lines_load = refl

load_sensor_demo_yaml_config_file-IsSelected_example : IsSelected loaded
unfolding to_lower
load_sensor_demo_yaml_config_file-IsSelected_example =
    load_sensor_demo_yaml_config_file-IsSelected lines initial loaded
      (record {
        bag = refl;
        mp4 = refl;
        format = refl;
        save_path = refl;
        capture_on = refl;
        capture_to = refl;
        capture_path = refl;
      })
      lines_load
