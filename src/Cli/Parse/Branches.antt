-- ===== src/Cli/Parse/Branches.antt =====
-- src/cam_demo_config.cpp: what one option changes of the recording and of the cameras.
use mrp_robo_baton_4p_no_ros.Base.{
  ◌||◌, ℕ, ◌≡◌, ◌⊎◌, refl, subst, inl, inr, true, false, List, [], arith,
}
use mrp_robo_baton_4p_no_ros.Base.Errors.{ok, Result-cases}
use mrp_robo_baton_4p_no_ros.Cli.Numbers.{parse_int}
use mrp_robo_baton_4p_no_ros.Cli.Parse.{
  record_frame_skip, Progress, Flag, channels, camera_id, camera_mask, record_bag, record_mp4_dir,
  diagnostics, print_metrics, apply_channels, apply_camera_id, apply_camera_mask,
}
use mrp_robo_baton_4p_no_ros.Cli.Parse.Loop.{
  apply_value, goes_on, takes_value, branch_of, set_diagnostics, set_print_metrics,
}
use mrp_robo_baton_4p_no_ros.Cli.Parse.Naming.{
  is_skip, is_bag, is_mp4, is_channels, is_selector, is_alone,
}

pub apply_value-bag :
    (f : Flag) (value : List ℕ) (p u : Progress)
    → is_bag f ≡ true
    → apply_value f value p ≡ ok u
    → (p.state.record_mp4_set ≡ false)
      × (u.state.record_bag_set ≡ true)
      × (u.options.record_bag_path ≡ value)
      × (u.options.record_mp4_directory ≡ [])
unfolding apply_value
apply_value-bag record_bag value p u is e = (ground arith, ground arith, ground arith, ground arith)
apply_value-bag _ value p u is e = cc

pub apply_value-mp4 :
    (f : Flag) (value : List ℕ) (p u : Progress)
    → is_mp4 f ≡ true
    → apply_value f value p ≡ ok u
    → (p.state.record_bag_set ≡ false)
      × (u.state.record_mp4_set ≡ true)
      × (u.options.record_mp4_directory ≡ value)
      × (u.options.record_bag_path ≡ [])
unfolding apply_value
apply_value-mp4 record_mp4_dir value p u is e =
    (ground arith, ground arith, ground arith, ground arith)
apply_value-mp4 _ value p u is e = cc

-- The recording is the same.
abbrev pub SameRecording : Progress → Progress → Type 0
SameRecording p u =
    (u.state.record_bag_set ≡ p.state.record_bag_set)
    × (u.state.record_mp4_set ≡ p.state.record_mp4_set)
    × (u.options.record_bag_path ≡ p.options.record_bag_path)
    × (u.options.record_mp4_directory ≡ p.options.record_mp4_directory)

pub apply_value-other :
    (f : Flag) (value : List ℕ) (p u : Progress)
    → is_bag f ≡ false
    → is_mp4 f ≡ false
    → apply_value f value p ≡ ok u
    → SameRecording p u
unfolding apply_value apply_channels apply_camera_id apply_camera_mask
apply_value-other record_bag value p u is is' e = cc
apply_value-other record_mp4_dir value p u is is' e = cc
apply_value-other _ value p u is is' e = (ground arith, ground arith, ground arith, ground arith)

abbrev pub SameChannels : Progress → Progress → Type 0
SameChannels p u =
    (u.state.channels_set ≡ p.state.channels_set)
    × (u.state.requested_channels ≡ p.state.requested_channels)

pub apply_value-channels :
    (f : Flag) (value : List ℕ) (p u : Progress)
    → is_channels f ≡ true
    → apply_value f value p ≡ ok u
    → (u.state.channels_set ≡ true) × (parse_int value ≡ ok u.state.requested_channels)
unfolding apply_value apply_channels
apply_value-channels channels value p u is e = elim (Result-cases (parse_int value)) [
  | inl (n, r) ↦ (ground arith, ground arith)
  | inr (x, r) ↦ ground arith
]
apply_value-channels _ value p u is e = cc

pub apply_value-no_channels :
    (f : Flag) (value : List ℕ) (p u : Progress)
    → is_channels f ≡ false
    → apply_value f value p ≡ ok u
    → SameChannels p u
unfolding apply_value apply_camera_id apply_camera_mask
apply_value-no_channels channels value p u is e = cc
apply_value-no_channels _ value p u is e = (ground arith, ground arith)

pub apply_value-selector :
    (f : Flag) (value : List ℕ) (p u : Progress)
    → apply_value f value p ≡ ok u
    → ((is_selector f ≡ true) ⊎ (p.state.camera_selector_set ≡ true))
    → u.state.camera_selector_set ≡ true
unfolding apply_value apply_channels apply_camera_id apply_camera_mask
apply_value-selector camera_id value p u e h = ground arith
apply_value-selector camera_mask value p u e h = ground arith
apply_value-selector _ value p u e h = ground arith

pub apply_value-skip :
    (f : Flag) (value : List ℕ) (p u : Progress)
    → apply_value f value p ≡ ok u
    → u.state.record_frame_skip_set ≡ (p.state.record_frame_skip_set || is_skip f)
unfolding apply_value apply_channels apply_camera_id apply_camera_mask
apply_value-skip record_frame_skip value p u e = ground arith
apply_value-skip _ value p u e = ground arith

-- An option without a value changes nothing of these.
abbrev pub SameState : Progress → Progress → Type 0
SameState p u =
    SameRecording p u
    × SameChannels p u
    × (u.state.camera_selector_set ≡ p.state.camera_selector_set)
    × (u.state.record_frame_skip_set ≡ p.state.record_frame_skip_set)

pub branch-alone :
    (f : Flag) (g : Progress → Progress) (p : Progress)
    → branch_of f ≡ goes_on g
    → (is_alone f ≡ true) × SameState p (g p)
unfolding branch_of
branch-alone diagnostics g p e =
    let same : set_diagnostics ≡ g = cc in
    (
      refl,
      subst (λ (h : Progress → Progress). SameState p (h p)) same
          ((refl, refl, refl, refl), (refl, refl), refl, refl),
    )
branch-alone print_metrics g p e =
    let same : set_print_metrics ≡ g = cc in
    (
      refl,
      subst (λ (h : Progress → Progress). SameState p (h p)) same
          ((refl, refl, refl, refl), (refl, refl), refl, refl),
    )
branch-alone _ g p e = cc

pub branch-value : (f : Flag) → branch_of f ≡ takes_value → is_alone f ≡ false
unfolding branch_of
branch-value diagnostics e = cc
branch-value print_metrics e = cc
branch-value _ e = refl
