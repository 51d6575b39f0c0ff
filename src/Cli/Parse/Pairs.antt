-- ===== src/Cli/Parse/Pairs.antt =====
-- The arguments of src/cam_demo_config.cpp as options with their values.
use mrp_robo_baton_4p_no_ros.Base.{
  ℕ, Bool, false, ◌||◌, Option, none, some, List, [], ◌∷◌, if◌then◌else◌, bytes_eq,
}
use mrp_robo_baton_4p_no_ros.Cli.Parse.Naming.{selects, stands_alone}
use mrp_robo_baton_4p_no_ros.Base.Bytes.{codes}

-- The arguments as options with their values.
abbrev pub pairs_of : List (List ℕ) → List (List ℕ × List ℕ)
pairs_of [] = []
pairs_of (arg ∷ []) = []
pairs_of (arg ∷ value ∷ args) =
    let behind = pairs_of args in
    let next = pairs_of (value ∷ args) in if stands_alone arg then next else (arg, value) ∷ behind

abbrev pub later_or : Option (List ℕ) → Option (List ℕ) → Option (List ℕ)
later_or here none = here
later_or here (some later) = some later

-- The last value that an option is given.
abbrev pub last_value : List ℕ → List (List ℕ × List ℕ) → Option (List ℕ)
last_value name [] = none
last_value name ((arg, value) ∷ pairs) =
    later_or (if bytes_eq arg name then some value else none) (last_value name pairs)

abbrev pub has_selector : List (List ℕ × List ℕ) → Bool
has_selector [] = false
has_selector ((arg, value) ∷ pairs) = selects arg || has_selector pairs

abbrev pub has_skip : List (List ℕ × List ℕ) → Bool
has_skip [] = false
has_skip ((arg, value) ∷ pairs) = bytes_eq arg (codes "--record-frame-skip") || has_skip pairs
