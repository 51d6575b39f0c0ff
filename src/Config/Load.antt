-- ===== src/Config/Load.antt =====
-- src/sensor_demo_yaml_config.cpp: the loop over the lines of the file, and the command line on top
-- of what it sets. An exception in a value is thrown again with the file's name.
use mrp_robo_baton_4p_no_ros.Base.{
  ℕ, Bool, true, false, not, ◌&&◌, Option, none, some, List, [], ◌∷◌, ◌++◌, ◌==◌, if◌then◌else◌,
  bytes_eq, ◌||◌,
}
use mrp_robo_baton_4p_no_ros.Base.Bytes.{codes}
use mrp_robo_baton_4p_no_ros.Base.Errors.{invalid_argument, Result, ok, throws, ◌>>=◌}
use mrp_robo_baton_4p_no_ros.Cli.Options.{Options, is_empty}
use mrp_robo_baton_4p_no_ros.Cli.Parse.Loop.{Outcome, parse_command_line_impl}
use mrp_robo_baton_4p_no_ros.Config.{
  Config, initial_yaml_state, is_supported_section, apply_yaml_config_value,
}
use mrp_robo_baton_4p_no_ros.Config.Text.{
  trim, normalize_config_key, strip_yaml_comment, parse_yaml_scalar, leading_spaces, split_at_colon,
}

pub record LoadState : Type 0 where
  pub config : Config
  pub current_section : List ℕ

-- What became of the setting of a value.
unfoldable pub applied : List ℕ → Option (Result Config) → Result LoadState
applied section (some (ok config)) = ok (record { config = config; current_section = section })
applied section (some (throws thrown)) = throws (invalid_argument "invalid sensor config ")
applied section none = throws (invalid_argument "invalid sensor config ")

-- A key with a value, indented or not.
unfoldable pub load_value : Bool → List ℕ → List ℕ → LoadState → Result LoadState
unfolding applied
load_value nested key value s =
    if nested && is_empty s.current_section
    then throws (invalid_argument "nested sensor config key without section: ")
    else if nested
    then applied s.current_section
        (apply_yaml_config_value (s.current_section ++ (codes "." ++ key)) value s.config)
    else applied [] (apply_yaml_config_value key value s.config)

unfoldable pub load_entry : Bool → List ℕ → List ℕ → LoadState → Result LoadState
unfolding load_value is_supported_section
load_entry nested key value s =
    if is_empty key
    then throws (invalid_argument "invalid sensor config entry ")
    else if is_empty value && not nested
    then if is_supported_section key
      then ok (record s { current_section = key })
      else throws (invalid_argument "unknown sensor config section: ")
    else if is_empty value
    then throws (invalid_argument "invalid sensor config entry ")
    else load_value nested key value s

unfoldable pub load_parts : Bool → Option (List ℕ × List ℕ) → LoadState → Result LoadState
unfolding load_entry normalize_config_key parse_yaml_scalar
load_parts nested none s = throws (invalid_argument "invalid sensor config line ")
load_parts nested (some (before, behind)) s =
    load_entry nested (normalize_config_key before) (parse_yaml_scalar behind) s

-- A round of the loop, on the line without its comment.
unfoldable pub load_stripped : List ℕ → LoadState → Result LoadState
unfolding load_parts trim split_at_colon leading_spaces
load_stripped without_comment s =
    let stripped = trim without_comment in
    if is_empty stripped
    then ok s
    else load_parts (not (leading_spaces without_comment == 0)) (split_at_colon stripped) s

unfoldable pub load_lines : List (List ℕ) → LoadState → Result LoadState
unfolding load_stripped strip_yaml_comment
load_lines [] s = ok s
load_lines (line ∷ lines) s = load_stripped (strip_yaml_comment line) s >>= load_lines lines

unfoldable pub load_sensor_demo_yaml_config_file : List (List ℕ) → Config → Result Config
unfolding load_lines
load_sensor_demo_yaml_config_file lines config = do
  s ← load_lines lines (record { config = config; current_section = [] })
  ok s.config

unfoldable pub has_help_option : List (List ℕ) → Bool
has_help_option [] = false
has_help_option (arg ∷ args) =
    (bytes_eq arg (codes "--help") || bytes_eq arg (codes "-h")) || has_help_option args

-- The arguments behind the program's name. With the help option the file is not read.
unfoldable pub parse_sensor_demo_command_line :
    List (List ℕ) → List (List ℕ) → Options → Result (Outcome Options)
unfolding load_sensor_demo_yaml_config_file has_help_option
parse_sensor_demo_command_line lines args options =
    let defaults : Config = record { options = options; state = initial_yaml_state } in
    do
      config ←
          if has_help_option args
          then ok defaults
          else load_sensor_demo_yaml_config_file lines defaults
      ok (parse_command_line_impl args true config.options config.state.imu_print_rate_was_set)
