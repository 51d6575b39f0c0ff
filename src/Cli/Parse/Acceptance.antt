-- ===== src/Cli/Parse/Acceptance.antt =====
-- src/cam_demo_config.cpp: what an accepted command line of `sensor_demo` says.
use mrp_robo_baton_4p_no_ros.Base.{
  ℕ, ◌≡◌, ◌⊎◌, refl, sym, ap, subst, ◌∙◌, inl, inr, Bool, true, false, none, some, List, [], ◌∷◌,
  arith,
}
use mrp_robo_baton_4p_no_ros.Base.Bytes.{codes}
use mrp_robo_baton_4p_no_ros.Base.Int.{pos}
use mrp_robo_baton_4p_no_ros.Base.Errors.{ok, ◌>>=◌, >>=-eq-ok, Result-cases}
use mrp_robo_baton_4p_no_ros.Camera.{camera_mask_pop_count}
use mrp_robo_baton_4p_no_ros.Cli.Numbers.{parse_int}
use mrp_robo_baton_4p_no_ros.Cli.Options.{Options, validate_options}
use mrp_robo_baton_4p_no_ros.Cli.Parse.{ParseState, Progress, flag_of, initial_state}
use mrp_robo_baton_4p_no_ros.Cli.Parse.Loop.{
  apply_value, Branch, goes_on, exits, no_option, takes_value, branch_of, Outcome, parsed, helped,
  rejected, parse_loop, validate_selector_state, settle, finalize_parsed_options,
  parse_command_line_impl, selector_of, validate_settled, finish,
}
use mrp_robo_baton_4p_no_ros.Cli.Parse.Naming.{stands_alone, alone_test}
use mrp_robo_baton_4p_no_ros.Cli.Parse.Pairs.{has_skip, pairs_of, last_value, has_selector}
use mrp_robo_baton_4p_no_ros.Cli.Parse.Branches.{branch-alone, branch-value}
use mrp_robo_baton_4p_no_ros.Cli.Parse.Reading.{
  HasRead, HasRead-same, HasRead-step, HasRead-nothing,
}

Branch-cases :
    (b : Branch)
    → ((f : Progress → Progress) × (b ≡ goes_on f))
      ⊎ (b ≡ exits)
      ⊎ (b ≡ no_option)
      ⊎ (b ≡ takes_value)
Branch-cases (goes_on f) = inl (f, refl)
Branch-cases exits = inr (inl refl)
Branch-cases no_option = inr (inr (inl refl))
Branch-cases takes_value = inr (inr (inr refl))

one_left :
    (arg : List ℕ) (p q : Progress)
    → parse_loop true (arg ∷ []) p ≡ parsed q
    → (f : Progress → Progress) × (branch_of (flag_of true arg) ≡ goes_on f) × (f p ≡ q)
unfolding parse_loop
one_left arg p q e = elim (Branch-cases (branch_of (flag_of true arg))) [
  | inl (f, b) ↦ (f, b, ground arith)
  | inr (inl b) ↦ ground arith
  | inr (inr (inl b)) ↦ ground arith
  | inr (inr (inr b)) ↦ ground arith
]

more_left :
    (arg value : List ℕ) (args : List (List ℕ)) (p q : Progress)
    → parse_loop true (arg ∷ value ∷ args) p ≡ parsed q
    → ((f : Progress → Progress) × (branch_of (flag_of true arg) ≡ goes_on f)
        × (parse_loop true (value ∷ args) (f p) ≡ parsed q))
      ⊎ ((u : Progress) × (branch_of (flag_of true arg) ≡ takes_value)
          × (apply_value (flag_of true arg) value p ≡ ok u)
          × (parse_loop true args u ≡ parsed q))
unfolding parse_loop
more_left arg value args p q e = elim (Branch-cases (branch_of (flag_of true arg))) [
  | inl (f, b) ↦ inl (f, b, ground arith)
  | inr (inl b) ↦ ground arith
  | inr (inr (inl b)) ↦ ground arith
  | inr (inr (inr b)) ↦ elim (Result-cases (apply_value (flag_of true arg) value p)) [
    | inl (u, r) ↦ inr (u, b, r, ground arith)
    | inr (x, r) ↦ ground arith
  ]
]

nothing_left : (p q : Progress) → parse_loop true [] p ≡ parsed q → p ≡ q
unfolding parse_loop
nothing_left p q e = cc

parse_loop-HasRead :
    (args : List (List ℕ)) (p q : Progress)
    → parse_loop true args p ≡ parsed q
    → HasRead (pairs_of args) p q
parse_loop-HasRead [] p q e =
    subst (λ (r : Progress). HasRead [] p r) (nothing_left p q e) (HasRead-nothing p)
parse_loop-HasRead (arg ∷ []) p q e =
    let (f, b, same) = one_left arg p q e in
    let (is, state) = branch-alone (flag_of true arg) f p b in
    subst (λ (r : Progress). HasRead [] p r) same
      (HasRead-same [] p (f p) (f p) state (HasRead-nothing (f p)))
parse_loop-HasRead (arg ∷ value ∷ args) p q e =
    go (more_left arg value args p q e) (λ f. parse_loop-HasRead (value ∷ args) (f p) q)
      (λ u. parse_loop-HasRead args u q)
  where
    go :
        ((f : Progress → Progress) × (branch_of (flag_of true arg) ≡ goes_on f)
            × (parse_loop true (value ∷ args) (f p) ≡ parsed q))
          ⊎ ((u : Progress) × (branch_of (flag_of true arg) ≡ takes_value)
              × (apply_value (flag_of true arg) value p ≡ ok u)
              × (parse_loop true args u ≡ parsed q))
        → ((f : Progress → Progress)
            → parse_loop true (value ∷ args) (f p) ≡ parsed q
            → HasRead (pairs_of (value ∷ args)) (f p) q)
        → ((u : Progress) → parse_loop true args u ≡ parsed q → HasRead (pairs_of args) u q)
        → HasRead (pairs_of (arg ∷ value ∷ args)) p q
    go (inl (f, b, r)) short long =
        let (is, state) = branch-alone (flag_of true arg) f p b in
        let alone : stands_alone arg ≡ true = sym (alone_test arg) ∙ is in
        rw alone (HasRead-same (pairs_of (value ∷ args)) p (f p) q state (short f r))
    go (inr (u, b, a, r)) short long =
        let alone : stands_alone arg ≡ false =
          sym (alone_test arg) ∙ branch-value (flag_of true arg) b in
        rw alone (HasRead-step arg value (pairs_of args) p u q a (long u r))

validate_settled-eq-ok :
    (selector : ParseState) (skip_set : Bool) (o settled : Options)
    → validate_settled selector skip_set o ≡ ok settled
    → (o ≡ settled)
      × (validate_selector_state selector o ≡ ok tt)
      × (validate_options o skip_set ≡ ok tt)
validate_settled-eq-ok selector skip_set o settled e =
    let (a, chosen, e₁) =
      >>=-eq-ok (validate_selector_state selector o)
        (λ _. validate_options o skip_set >>= λ _. ok o) e in
    let (b, valid, same) = >>=-eq-ok (validate_options o skip_set) (λ _. ok o) e₁ in
    (cc, chosen, valid)

channels_agree :
    (state : ParseState) (o : Options)
    → validate_selector_state state o ≡ ok tt
    → state.channels_set ≡ true
    → state.camera_selector_set ≡ true
    → state.requested_channels ≡ pos (camera_mask_pop_count o.camera_mask)
unfolding validate_selector_state
channels_agree state o e c s = ground arith

finish_cases :
    (options : Options) (r : Outcome Progress) (o : Options)
    → finish true options r ≡ parsed o
    → (q : Progress) × (r ≡ parsed q)
      × (finalize_parsed_options q.options
            (initial_state options.channels)
            q.state
            q.imu_print_rate_was_set
            true
          ≡ ok o)
unfolding finish
finish_cases options (parsed q) o e =
    elim (Result-cases (
      finalize_parsed_options q.options (initial_state options.channels) q.state
        q.imu_print_rate_was_set true)) [ inl (o', r) ↦ (q, refl, cc) | inr (x, r) ↦ cc ]
finish_cases options helped o e = cc
finish_cases options (rejected x) o e = cc

-- What an accepted command line says of the recordings and of the channels.
pub record IsAccepted (pairs : List (List ℕ × List ℕ)) (before o : Options) : Type 0 where
  pub bag :
      (path : List ℕ)
      → last_value (codes "--record-bag") pairs ≡ some path
      → (last_value (codes "--record-mp4-dir") pairs ≡ none)
        × (o.record_bag_path ≡ path)
        × (o.record_mp4_directory ≡ [])
  pub mp4 :
      (path : List ℕ)
      → last_value (codes "--record-mp4-dir") pairs ≡ some path
      → (last_value (codes "--record-bag") pairs ≡ none)
        × (o.record_mp4_directory ≡ path)
        × (o.record_bag_path ≡ [])
  pub no_recording :
      last_value (codes "--record-bag") pairs ≡ none
      → last_value (codes "--record-mp4-dir") pairs ≡ none
      → (o.record_bag_path ≡ before.record_bag_path)
        × (o.record_mp4_directory ≡ before.record_mp4_directory)
  pub channels :
      (text : List ℕ)
      → last_value (codes "--channels") pairs ≡ some text
      → has_selector pairs ≡ true
      → parse_int text ≡ ok (pos (camera_mask_pop_count o.camera_mask))
  pub valid : validate_options o (has_skip pairs) ≡ ok tt

chosen_state :
    (config_state cli_state : ParseState)
    → cli_state.camera_selector_set ≡ true
    → selector_of config_state cli_state ≡ cli_state
chosen_state config_state cli_state e = ground arith

-- A command line of `sensor_demo` that is accepted, read as options with their values, the last value
-- of an option counting: it has at most one of --record-bag and --record-mp4-dir, the value is the path
-- of that recording and the path of the other is empty, and with neither both paths are as before; with
-- --channels and a selector of cameras the number that is given is that of the cameras of the mask that
-- results; and the options that result pass the validation, which is told whether the command line has
-- --record-frame-skip.
pub parse_command_line_impl-IsAccepted :
    (args : List (List ℕ)) (options : Options) (rate : Bool) (o : Options)
    → parse_command_line_impl args true options rate ≡ parsed o
    → IsAccepted (pairs_of args) options o
unfolding parse_command_line_impl settle finalize_parsed_options
parse_command_line_impl-IsAccepted args options rate o e =
    let start : Progress = record {
      options = options;
      state = initial_state options.channels;
      imu_print_rate_was_set = rate;
    } in
    let (q, run, fin) = finish_cases options (parse_loop true args start) o e in
    let ((bag, mp4, _, _, neither), (counted, _), selected, skipped) =
      parse_loop-HasRead args start q run in
    let selector = selector_of (initial_state options.channels) q.state in
    let settled = settle selector true q.imu_print_rate_was_set q.options in
    let (same, chosen, valid) =
      validate_settled-eq-ok selector q.state.record_frame_skip_set settled o fin in
    let bag_same : q.options.record_bag_path ≡ o.record_bag_path =
      ap (λ (r : Options). r.record_bag_path) same in
    let mp4_same : q.options.record_mp4_directory ≡ o.record_mp4_directory =
      ap (λ (r : Options). r.record_mp4_directory) same in
    record {
      bag = λ path given.
          let (absent, is, empty) = bag path given in
          (absent, sym bag_same ∙ is, sym mp4_same ∙ empty);
      mp4 = λ path given.
          let (absent, is, empty) = mp4 path given in
          (absent, sym mp4_same ∙ is, sym bag_same ∙ empty);
      no_recording = λ none_of nor.
          let (is, is') = neither none_of nor in (sym bag_same ∙ is, sym mp4_same ∙ is');
      channels = λ text given select.
          let (set, read) = counted text given in
          let selector_set = selected (inr select) in
          let state = chosen_state (initial_state options.channels) q.state selector_set in
          let agrees : q.state.requested_channels
              ≡ pos (camera_mask_pop_count settled.camera_mask) =
            channels_agree q.state settled
              (subst (λ (s : ParseState). validate_selector_state s settled ≡ ok tt) state chosen)
              set selector_set in
          read
          ∙ ap (λ n. ok n) agrees
          ∙ ap (λ (r : Options). ok (pos (camera_mask_pop_count r.camera_mask))) same;
      valid =
          subst (λ (skip_set : Bool). validate_options o skip_set ≡ ok tt) skipped
            (subst (λ (r : Options). validate_options r q.state.record_frame_skip_set ≡ ok tt) same
              valid);
    }
