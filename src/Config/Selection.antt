-- ===== src/Config/Selection.antt =====
-- src/sensor_demo_yaml_config.cpp: the recording and capture options follow from the settings of the
-- file, whatever the order of its lines.
use mrp_robo_baton_4p_no_ros.Base.{
  ℕ, ◌≡◌, refl, subst, Bool, true, false, not, ◌&&◌, ◌||◌, some, List, [], if◌then◌else◌, bytes_eq,
  arith, inl, inr, Option-cases,
}
use mrp_robo_baton_4p_no_ros.Base.Bytes.{codes}
use mrp_robo_baton_4p_no_ros.Base.Errors.{Exception, Result, ok, throws, ◌>>=◌, ◌>>◌, throw_if}
use mrp_robo_baton_4p_no_ros.Cli.Options.{Options, is_absolute}
use mrp_robo_baton_4p_no_ros.Cli.Numbers.{parse_int, parse_long_long}
use mrp_robo_baton_4p_no_ros.Config.{
  Config, YamlKey, set_options, apply_save_data_selection, apply_capture_selection, apply_yaml_key,
  apply_yaml_config_value, yaml_key, parse_bool, parse_yaml_uint32, parse_video_codec,
}

abbrev pub is_rosbag : Config → Bool
is_rosbag c = bytes_eq c.state.save_data_format (codes "rosbag")

-- Data are saved to the one place that the format chooses, if at all, and frames are captured if that
-- is set; the places are absolute.
pub record IsSelected (c : Config) : Type 0 where
  pub bag :
      c.options.record_bag_path
      ≡ (if c.state.save_data_enabled && is_rosbag c then c.state.save_data_path else [])
  pub mp4 :
      c.options.record_mp4_directory
      ≡ (if c.state.save_data_enabled && not (is_rosbag c) then c.state.save_data_path else [])
  pub format : (is_rosbag c || bytes_eq c.state.save_data_format (codes "mp4")) ≡ true
  pub save_path : is_absolute c.state.save_data_path ≡ true
  pub capture_on : c.options.capture_enabled ≡ c.state.capture_enabled
  pub capture_to :
      c.options.capture_directory
      ≡ (if c.state.capture_enabled then c.state.capture_directory else [])
  pub capture_path : is_absolute c.state.capture_directory ≡ true

-- What holds of every value that a step may give holds of what it gives.
bind-elim {ℓ κ} :
    {A : Type 0} {C : Type ℓ} (P : C → Type κ) (call : Result A) (f : A → C) (c : C)
    → ((a : A) → P (f a))
    → (call >>= λ a. ok (f a)) ≡ ok c
    → P c
bind-elim P (throws thrown) f c all e = cc
bind-elim P (ok a) f c all e = subst P (cc) (all a)

pub ok-elim {ℓ κ} : {C : Type ℓ} (P : C → Type κ) (result c : C) → P result → ok result ≡ ok c → P c
ok-elim P result c p e = subst P (cc) p

guard-elim {ℓ κ} :
    {C : Type ℓ} (P : C → Type κ) (test : Bool) (thrown : Exception) (result c : C)
    → (test ≡ false → P result)
    → (throw_if test thrown >> ok result) ≡ ok c
    → P c
guard-elim P true thrown result c all e = cc
guard-elim P false thrown result c all e = subst P (cc) (all refl)

-- A setting that leaves the two selections alone.
set_options-IsSelected :
    (c : Config) (options : Options)
    → IsSelected c
    → options.record_bag_path ≡ c.options.record_bag_path
    → options.record_mp4_directory ≡ c.options.record_mp4_directory
    → options.capture_enabled ≡ c.options.capture_enabled
    → options.capture_directory ≡ c.options.capture_directory
    → IsSelected (set_options c options)
set_options-IsSelected c options s bag mp4 on to = record {
  bag = cc;
  mp4 = cc;
  format = s.format;
  save_path = s.save_path;
  capture_on = cc;
  capture_to = cc;
  capture_path = s.capture_path;
}

-- A format that is not one of the two is the other.
other_format :
    (enabled rosbag mp4 : Bool) (path : List ℕ)
    → (rosbag || mp4) ≡ true
    → (if enabled && (not rosbag && mp4) then path else [])
      ≡ (if enabled && not rosbag then path else [])
other_format false rosbag mp4 path h = refl
other_format true true mp4 path h = refl
other_format true false true path h = refl
other_format true false false path h = cc

apply_save_data_selection-IsSelected :
    (c : Config)
    → (is_rosbag c || bytes_eq c.state.save_data_format (codes "mp4")) ≡ true
    → is_absolute c.state.save_data_path ≡ true
    → c.options.capture_enabled ≡ c.state.capture_enabled
    → c.options.capture_directory
      ≡ (if c.state.capture_enabled then c.state.capture_directory else [])
    → is_absolute c.state.capture_directory ≡ true
    → IsSelected (apply_save_data_selection c)
unfolding apply_save_data_selection
apply_save_data_selection-IsSelected c format path on to dir = record {
  bag = refl;
  mp4 = other_format c.state.save_data_enabled (is_rosbag c) _ c.state.save_data_path format;
  format = format;
  save_path = path;
  capture_on = on;
  capture_to = to;
  capture_path = dir;
}

apply_capture_selection-IsSelected :
    (c : Config)
    → c.options.record_bag_path
      ≡ (if c.state.save_data_enabled && is_rosbag c then c.state.save_data_path else [])
    → c.options.record_mp4_directory
      ≡ (if c.state.save_data_enabled && not (is_rosbag c) then c.state.save_data_path else [])
    → (is_rosbag c || bytes_eq c.state.save_data_format (codes "mp4")) ≡ true
    → is_absolute c.state.save_data_path ≡ true
    → is_absolute c.state.capture_directory ≡ true
    → IsSelected (apply_capture_selection c)
unfolding apply_capture_selection
apply_capture_selection-IsSelected c bag mp4 format path dir = record {
  bag = bag;
  mp4 = mp4;
  format = format;
  save_path = path;
  capture_on = refl;
  capture_to = refl;
  capture_path = dir;
}

accepted : (test : Bool) → not test ≡ false → test ≡ true
accepted true h = refl
accepted false h = cc

apply_yaml_key-IsSelected :
    (key : YamlKey) (value : List ℕ) (c c' : Config)
    → IsSelected c
    → apply_yaml_key key value c ≡ ok c'
    → IsSelected c'
unfolding apply_yaml_key
apply_yaml_key-IsSelected YamlKey.camera_width value c c' s e =
    bind-elim IsSelected (parse_int value) _ c'
      (λ v. set_options-IsSelected c _ s refl refl refl refl) e
apply_yaml_key-IsSelected YamlKey.camera_height value c c' s e =
    bind-elim IsSelected (parse_int value) _ c'
      (λ v. set_options-IsSelected c _ s refl refl refl refl) e
apply_yaml_key-IsSelected YamlKey.camera_fps value c c' s e =
    bind-elim IsSelected (parse_int value) _ c'
      (λ v. set_options-IsSelected c _ s refl refl refl refl) e
apply_yaml_key-IsSelected YamlKey.camera_rotate value c c' s e =
    bind-elim IsSelected (parse_int value) _ c'
      (λ v. set_options-IsSelected c _ s refl refl refl refl) e
apply_yaml_key-IsSelected YamlKey.rtsp_bps value c c' s e =
    bind-elim IsSelected (parse_long_long value) _ c'
      (λ v. set_options-IsSelected c _ s refl refl refl refl) e
apply_yaml_key-IsSelected YamlKey.rtsp_codec value c c' s e =
    bind-elim IsSelected (parse_video_codec value) _ c'
      (λ v. set_options-IsSelected c _ s refl refl refl refl) e
apply_yaml_key-IsSelected YamlKey.rtsp_url value c c' s e =
    ok-elim IsSelected _ c' (set_options-IsSelected c _ s refl refl refl refl) e
apply_yaml_key-IsSelected YamlKey.imu_sample_rate_hz value c c' s e =
    bind-elim IsSelected (parse_yaml_uint32 value) _ c'
      (λ v. set_options-IsSelected c _ s refl refl refl refl) e
apply_yaml_key-IsSelected YamlKey.imu_print_rate_hz value c c' s e =
    bind-elim IsSelected (parse_yaml_uint32 value) _ c'
      (λ v. record {
        bag = s.bag;
        mp4 = s.mp4;
        format = s.format;
        save_path = s.save_path;
        capture_on = s.capture_on;
        capture_to = s.capture_to;
        capture_path = s.capture_path;
      })
      e
apply_yaml_key-IsSelected YamlKey.imu_print_metrics value c c' s e =
    bind-elim IsSelected (parse_bool value) _ c'
      (λ v. set_options-IsSelected c _ s refl refl refl refl) e
apply_yaml_key-IsSelected YamlKey.save_data_save value c c' s e =
    bind-elim IsSelected (parse_bool value) _ c'
      (λ v.
        apply_save_data_selection-IsSelected _ s.format s.save_path s.capture_on s.capture_to
          s.capture_path)
      e
apply_yaml_key-IsSelected YamlKey.save_data_format value c c' s e =
    guard-elim IsSelected _ _ _ c'
      (λ h.
        apply_save_data_selection-IsSelected _ (accepted _ h) s.save_path s.capture_on s.capture_to
          s.capture_path)
      e
apply_yaml_key-IsSelected YamlKey.save_data_save_path value c c' s e =
    guard-elim IsSelected _ _ _ c'
      (λ h.
        apply_save_data_selection-IsSelected _ s.format (accepted _ h) s.capture_on s.capture_to
          s.capture_path)
      e
apply_yaml_key-IsSelected YamlKey.save_data_skip value c c' s e =
    bind-elim IsSelected (parse_bool value) _ c'
      (λ v. set_options-IsSelected c _ s refl refl refl refl) e
apply_yaml_key-IsSelected YamlKey.capture_save value c c' s e =
    bind-elim IsSelected (parse_bool value) _ c'
      (λ v. apply_capture_selection-IsSelected _ s.bag s.mp4 s.format s.save_path s.capture_path) e
apply_yaml_key-IsSelected YamlKey.capture_frame_count value c c' s e =
    bind-elim IsSelected (parse_yaml_uint32 value) _ c'
      (λ v. apply_capture_selection-IsSelected _ s.bag s.mp4 s.format s.save_path s.capture_path) e
apply_yaml_key-IsSelected YamlKey.capture_warmup_seconds value c c' s e =
    bind-elim IsSelected (parse_yaml_uint32 value) _ c'
      (λ v. apply_capture_selection-IsSelected _ s.bag s.mp4 s.format s.save_path s.capture_path) e
apply_yaml_key-IsSelected YamlKey.capture_save_path value c c' s e =
    guard-elim IsSelected _ _ _ c'
      (λ h. apply_capture_selection-IsSelected _ s.bag s.mp4 s.format s.save_path (accepted _ h)) e

pub apply_yaml_config_value-IsSelected :
    (key value : List ℕ) (c c' : Config)
    → IsSelected c
    → apply_yaml_config_value key value c ≡ some (ok c')
    → IsSelected c'
unfolding apply_yaml_config_value
apply_yaml_config_value-IsSelected key value c c' s e = elim (Option-cases (yaml_key key)) [
  | inl h ↦ ground arith
  | inr (known, h) ↦ apply_yaml_key-IsSelected known value c c' s (ground arith)
]
