-- ===== src/Cli/Parse/Naming.antt =====
-- src/cam_demo_config.cpp: which argument names which option of `sensor_demo`.
use mrp_robo_baton_4p_no_ros.Base.{
  ℕ, ◌≡◌, refl, sym, ap, ◌∙◌, inl, inr, Bool, true, false, ◌||◌, some, List, [], ◌∷◌, arith,
  bytes_eq, bytes_eq_sound, bytes_eq_refl, Bool-cases, Option-cases, All,
}
use mrp_robo_baton_4p_no_ros.Base.Bytes.{codes}
use mrp_robo_baton_4p_no_ros.Cli.Parse.{
  Flag, channels, camera_id, camera_mask, width, height, fps, bps, codec, url, rtsp_base_port,
  rotate, diag_interval_ms, max_skew_ns, frame_timeout_ms, trigger_mode, sample_rate_hz,
  imu_sample_drop_policy, imu_start_order, print_rate_hz, record_bag, record_mp4_dir,
  record_frame_skip, capture_dir, capture_frame_count, capture_warmup_seconds, diagnostics,
  print_metrics, help, unknown, flag_of, find_flag, camera_flags, imu_flags, help_flags,
}

-- The name of an option.
abbrev name_of : Flag → List ℕ
name_of channels = codes "--channels"
name_of camera_id = codes "--camera-id"
name_of camera_mask = codes "--camera-mask"
name_of width = codes "--width"
name_of height = codes "--height"
name_of fps = codes "--fps"
name_of bps = codes "--bps"
name_of codec = codes "--codec"
name_of url = codes "--url"
name_of rtsp_base_port = codes "--rtsp-base-port"
name_of rotate = codes "--rotate"
name_of diagnostics = codes "--diagnostics"
name_of diag_interval_ms = codes "--diag-interval-ms"
name_of max_skew_ns = codes "--max-skew-ns"
name_of frame_timeout_ms = codes "--frame-timeout-ms"
name_of trigger_mode = codes "--trigger-mode"
name_of sample_rate_hz = codes "--sample-rate-hz"
name_of imu_sample_drop_policy = codes "--imu-sample-drop-policy"
name_of imu_start_order = codes "--imu-start-order"
name_of print_rate_hz = codes "--print-rate-hz"
name_of print_metrics = codes "--print-metrics"
name_of record_bag = codes "--record-bag"
name_of record_mp4_dir = codes "--record-mp4-dir"
name_of record_frame_skip = codes "--record-frame-skip"
name_of capture_dir = codes "--capture-dir"
name_of capture_frame_count = codes "--capture-frame-count"
name_of capture_warmup_seconds = codes "--capture-warmup-seconds"
name_of help = codes "--help"
name_of unknown = []

abbrev AreNamed : List (List ℕ × Flag) → Type 0
AreNamed flags = All (λ (entry : List ℕ × Flag). entry.0 ≡ name_of entry.1) flags

find_flag-name :
    (arg : List ℕ) (f : Flag) (flags : List (List ℕ × Flag))
    → AreNamed flags
    → find_flag arg flags ≡ some f
    → arg ≡ name_of f
unfolding find_flag
find_flag-name arg f [] named e = cc
find_flag-name arg f ((name, flag) ∷ flags) (same, named) e =
    elim (Bool-cases (bytes_eq arg name)) [
      | inl here ↦
          let is : flag ≡ f = ground arith in bytes_eq_sound arg name here ∙ same ∙ ap name_of is
      | inr there ↦
          let later : find_flag arg flags ≡ some f = ground arith in
          find_flag-name arg f flags named later
    ]

abbrev pub is_bag : Flag → Bool
is_bag record_bag = true
is_bag _ = false

abbrev pub is_mp4 : Flag → Bool
is_mp4 record_mp4_dir = true
is_mp4 _ = false

abbrev pub is_channels : Flag → Bool
is_channels channels = true
is_channels _ = false

abbrev pub is_selector : Flag → Bool
is_selector camera_id = true
is_selector camera_mask = true
is_selector _ = false

abbrev pub is_skip : Flag → Bool
is_skip record_frame_skip = true
is_skip _ = false

abbrev pub is_alone : Flag → Bool
is_alone diagnostics = true
is_alone print_metrics = true
is_alone _ = false

abbrev is_known : Flag → Bool
is_known help = false
is_known unknown = false
is_known _ = true

help_only : (arg : List ℕ) (f : Flag) → find_flag arg help_flags ≡ some f → f ≡ help
unfolding find_flag
help_only arg f e = ground arith

camera_named : AreNamed camera_flags
camera_named = (
  refl,
  (
    refl,
    (
      refl,
      (
        refl,
        (
          refl,
          (
            refl,
            (refl, (refl, (refl, (refl, (refl, (refl, (refl, (refl, (refl, (refl, tt)))))))))),
          ),
        ),
      ),
    ),
  ),
)

imu_named : AreNamed imu_flags
imu_named =
    (refl, (refl, (refl, (refl, (refl, (refl, (refl, (refl, (refl, (refl, (refl, tt)))))))))))

-- An option that is known has its name.
flag_of-name :
    (arg : List ℕ) → is_known (flag_of true arg) ≡ true → arg ≡ name_of (flag_of true arg)
unfolding flag_of
flag_of-name arg known = elim (Option-cases (find_flag arg camera_flags)) [
  | inr (f, e) ↦ rw (e, flag_of) (find_flag-name arg f camera_flags camera_named e)
  | inl none_of ↦ elim (Option-cases (find_flag arg imu_flags)) [
    | inr (f, e) ↦ rw (none_of, e, flag_of) (find_flag-name arg f imu_flags imu_named e)
    | inl nor ↦ elim (Option-cases (find_flag arg help_flags)) [
      | inr (f, e) ↦
          let h = help_only arg f e in let k = rw (none_of, nor, e, h, flag_of) at known in cc
      | inl neither ↦ let k = rw (none_of, nor, neither, flag_of) at known in cc
    ]
  ]
]

same_test :
    (arg name : List ℕ) (p : Flag → Bool)
    → p (flag_of true name) ≡ true
    → (p (flag_of true arg) ≡ true → arg ≡ name)
    → p (flag_of true arg) ≡ bytes_eq arg name
same_test arg name p at_name only = elim (Bool-cases (bytes_eq arg name)) [
  | inl here ↦ ap (λ a. p (flag_of true a)) (bytes_eq_sound arg name here) ∙ at_name ∙ sym here
  | inr there ↦ elim (Bool-cases (p (flag_of true arg))) [
    | inl is ↦
        let e = only is in
        let here : bytes_eq arg name ≡ true = ap (λ a. bytes_eq a name) e ∙ bytes_eq_refl name in cc
    | inr other ↦ other ∙ sym there
  ]
]

by_flag :
    (p : Flag → Bool) (name : List ℕ)
    → ((f : Flag) → p f ≡ true → (is_known f ≡ true) × (name_of f ≡ name))
    → (arg : List ℕ) → p (flag_of true arg) ≡ true
    → arg ≡ name
by_flag p name facts arg e =
    let (known, same) = facts (flag_of true arg) e in flag_of-name arg known ∙ same

bag_only : (f : Flag) → is_bag f ≡ true → (is_known f ≡ true) × (name_of f ≡ codes "--record-bag")
bag_only record_bag e = (refl, refl)
bag_only _ e = cc

mp4_only :
    (f : Flag) → is_mp4 f ≡ true → (is_known f ≡ true) × (name_of f ≡ codes "--record-mp4-dir")
mp4_only record_mp4_dir e = (refl, refl)
mp4_only _ e = cc

channels_only :
    (f : Flag) → is_channels f ≡ true → (is_known f ≡ true) × (name_of f ≡ codes "--channels")
channels_only channels e = (refl, refl)
channels_only _ e = cc

pub bag_test : (arg : List ℕ) → is_bag (flag_of true arg) ≡ bytes_eq arg (codes "--record-bag")
unfolding flag_of find_flag
bag_test arg = same_test arg (codes "--record-bag") is_bag refl (by_flag is_bag _ bag_only arg)

pub mp4_test : (arg : List ℕ) → is_mp4 (flag_of true arg) ≡ bytes_eq arg (codes "--record-mp4-dir")
unfolding flag_of find_flag
mp4_test arg = same_test arg (codes "--record-mp4-dir") is_mp4 refl (by_flag is_mp4 _ mp4_only arg)

pub channels_test :
    (arg : List ℕ) → is_channels (flag_of true arg) ≡ bytes_eq arg (codes "--channels")
unfolding flag_of find_flag
channels_test arg =
    same_test arg (codes "--channels") is_channels refl (by_flag is_channels _ channels_only arg)

skip_only :
    (f : Flag) → is_skip f ≡ true → (is_known f ≡ true) × (name_of f ≡ codes "--record-frame-skip")
skip_only record_frame_skip e = (refl, refl)
skip_only _ e = cc

pub skip_test :
    (arg : List ℕ) → is_skip (flag_of true arg) ≡ bytes_eq arg (codes "--record-frame-skip")
unfolding flag_of find_flag
skip_test arg =
    same_test arg (codes "--record-frame-skip") is_skip refl (by_flag is_skip _ skip_only arg)

at_name :
    (arg name : List ℕ) (p : Flag → Bool)
    → p (flag_of true name) ≡ true
    → bytes_eq arg name ≡ true
    → p (flag_of true arg) ≡ true
at_name arg name p at here = ap (λ a. p (flag_of true a)) (bytes_eq_sound arg name here) ∙ at

-- `--camera-id` and `--camera-mask`.
abbrev pub selects : List ℕ → Bool
selects arg = bytes_eq arg (codes "--camera-id") || bytes_eq arg (codes "--camera-mask")

pub selector_test : (arg : List ℕ) → selects arg ≡ true → is_selector (flag_of true arg) ≡ true
unfolding flag_of find_flag
selector_test arg e = elim (Bool-cases (bytes_eq arg (codes "--camera-id"))) [
  | inl here ↦ at_name arg (codes "--camera-id") is_selector refl here
  | inr there ↦
      let here : bytes_eq arg (codes "--camera-mask") ≡ true = ground arith in
      at_name arg (codes "--camera-mask") is_selector refl here
]

-- The two options without a value.
abbrev pub stands_alone : List ℕ → Bool
stands_alone arg = bytes_eq arg (codes "--diagnostics") || bytes_eq arg (codes "--print-metrics")

alone_only :
    (f : Flag) → is_alone f ≡ true → (is_known f ≡ true) × (stands_alone (name_of f) ≡ true)
alone_only diagnostics e = (refl, refl)
alone_only print_metrics e = (refl, refl)
alone_only _ e = cc

pub alone_test : (arg : List ℕ) → is_alone (flag_of true arg) ≡ stands_alone arg
unfolding flag_of find_flag
alone_test arg = elim (Bool-cases (is_alone (flag_of true arg))) [
  | inl is ↦
      let (known, same) = alone_only (flag_of true arg) is in
      is ∙ sym (ap stands_alone (flag_of-name arg known) ∙ same)
  | inr other ↦ elim (Bool-cases (bytes_eq arg (codes "--diagnostics"))) [
    | inl here ↦ let is = at_name arg (codes "--diagnostics") is_alone refl here in cc
    | inr there ↦ elim (Bool-cases (bytes_eq arg (codes "--print-metrics"))) [
      | inl here ↦ let is = at_name arg (codes "--print-metrics") is_alone refl here in cc
      | inr nor ↦ other ∙ sym (neither _ _ there nor)
    ]
  ]
]
  where
    neither : (a b : Bool) → a ≡ false → b ≡ false → (a || b) ≡ false
    neither a b e e' = ground arith
