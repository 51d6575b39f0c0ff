-- ===== src/Config/Loading.antt =====
-- src/sensor_demo_yaml_config.cpp: every round of the loop over the lines of the file keeps the options
-- in step with its settings.
use mrp_robo_baton_4p_no_ros.Base.{
  ℕ, ◌≡◌, refl, Bool, not, ◌&&◌, Option, none, some, List, [], ◌∷◌, ◌==◌, if_both,
}
use mrp_robo_baton_4p_no_ros.Base.Errors.{Exception, Result, ok, throws, >>=-eq-ok}
use mrp_robo_baton_4p_no_ros.Config.Text.{trim, leading_spaces, split_at_colon, strip_yaml_comment}
use mrp_robo_baton_4p_no_ros.Cli.Options.{is_empty}
use mrp_robo_baton_4p_no_ros.Config.{Config, is_supported_section}
use mrp_robo_baton_4p_no_ros.Config.Load.{
  LoadState, applied, load_value, load_entry, load_parts, load_stripped, load_lines,
  load_sensor_demo_yaml_config_file,
}
use mrp_robo_baton_4p_no_ros.Config.Selection.{
  IsSelected, ok-elim, apply_yaml_config_value-IsSelected,
}

-- Where a step gives a state, its options follow from its settings.
abbrev KeepsSelection : Result LoadState → Type 0
KeepsSelection r = (s : LoadState) → r ≡ ok s → IsSelected s.config

thrown-KeepsSelection : (thrown : Exception) → KeepsSelection (throws thrown)
thrown-KeepsSelection thrown s e = cc

ok-KeepsSelection : (s : LoadState) → IsSelected s.config → KeepsSelection (ok s)
ok-KeepsSelection s p s' e = ok-elim (λ t. IsSelected t.config) s s' p e

applied-KeepsSelection :
    (section : List ℕ) (outcome : Option (Result Config))
    → ((c : Config) → outcome ≡ some (ok c) → IsSelected c)
    → KeepsSelection (applied section outcome)
unfolding applied
applied-KeepsSelection section none p = thrown-KeepsSelection _
applied-KeepsSelection section (some (throws thrown)) p = thrown-KeepsSelection _
applied-KeepsSelection section (some (ok c)) p = ok-KeepsSelection _ (p c refl)

load_value-KeepsSelection :
    (nested : Bool) (key value : List ℕ) (s : LoadState)
    → IsSelected s.config
    → KeepsSelection (load_value nested key value s)
unfolding load_value
load_value-KeepsSelection nested key value s p =
    if_both KeepsSelection (nested && is_empty s.current_section) _ _ (λ h. thrown-KeepsSelection _)
      (λ h.
        if_both KeepsSelection nested _ _
          (λ h'. applied-KeepsSelection _ _ (λ c. apply_yaml_config_value-IsSelected _ value _ c p))
          (λ h'.
            applied-KeepsSelection _ _ (λ c. apply_yaml_config_value-IsSelected _ value _ c p)))

load_entry-KeepsSelection :
    (nested : Bool) (key value : List ℕ) (s : LoadState)
    → IsSelected s.config
    → KeepsSelection (load_entry nested key value s)
unfolding load_entry
load_entry-KeepsSelection nested key value s p =
    if_both KeepsSelection (is_empty key) _ _ (λ h. thrown-KeepsSelection _)
      (λ h.
        if_both KeepsSelection (is_empty value && not nested) _ _
          (λ h'.
            if_both KeepsSelection (is_supported_section key) _ _ (λ h''. ok-KeepsSelection _ p)
              (λ h''. thrown-KeepsSelection _))
          (λ h'.
            if_both KeepsSelection (is_empty value) _ _ (λ h''. thrown-KeepsSelection _)
              (λ h''. load_value-KeepsSelection nested key value s p)))

load_parts-KeepsSelection :
    (nested : Bool) (parts : Option (List ℕ × List ℕ)) (s : LoadState)
    → IsSelected s.config
    → KeepsSelection (load_parts nested parts s)
unfolding load_parts
load_parts-KeepsSelection nested none s p = thrown-KeepsSelection _
load_parts-KeepsSelection nested (some (before, behind)) s p =
    load_entry-KeepsSelection nested _ _ s p

load_stripped-KeepsSelection :
    (line : List ℕ) (s : LoadState) → IsSelected s.config → KeepsSelection (load_stripped line s)
unfolding load_stripped
load_stripped-KeepsSelection line s p =
    if_both KeepsSelection (is_empty (trim line)) _ _ (λ h. ok-KeepsSelection s p)
      (λ h.
        load_parts-KeepsSelection (not (leading_spaces line == 0)) (split_at_colon (trim line)) s p)

load_lines-KeepsSelection :
    (lines : List (List ℕ)) (s : LoadState)
    → IsSelected s.config
    → KeepsSelection (load_lines lines s)
unfolding load_lines
load_lines-KeepsSelection [] s p s' e = ok-KeepsSelection s p s' e
load_lines-KeepsSelection (line ∷ lines) s p s' e =
    let (t, first, rest) = >>=-eq-ok _ (load_lines lines) e in
    load_lines-KeepsSelection lines t
      (load_stripped-KeepsSelection (strip_yaml_comment line) s p t first) s' rest

-- A configuration file that loads, from options that follow from their settings, leaves such options:
-- the bag path or the MP4 directory is the path of the file where saving is on and the format is the
-- one or the other, and empty otherwise; the format is one of the two; capturing and its directory
-- are as set; and both paths are absolute.
pub load_sensor_demo_yaml_config_file-IsSelected :
    (lines : List (List ℕ)) (c c' : Config)
    → IsSelected c
    → load_sensor_demo_yaml_config_file lines c ≡ ok c'
    → IsSelected c'
unfolding load_sensor_demo_yaml_config_file
load_sensor_demo_yaml_config_file-IsSelected lines c c' p e =
    let (t, first, rest) = >>=-eq-ok _ _ e in
    ok-elim IsSelected _ c' (load_lines-KeepsSelection lines _ p t first) rest
