-- ===== src/Cli/Parse/Reading.antt =====
-- src/cam_demo_config.cpp: the loop over the arguments against their pairs.
use mrp_robo_baton_4p_no_ros.Base.{
  Bool, ◌||◌, ℕ, ◌≡◌, ◌⊎◌, refl, sym, ap, ◌∙◌, inl, inr, true, false, Option, none, some, List, [],
  ◌∷◌, arith, if◌then◌else◌, bytes_eq, Bool-cases,
}
use mrp_robo_baton_4p_no_ros.Base.Bytes.{codes}
use mrp_robo_baton_4p_no_ros.Base.Errors.{ok}
use mrp_robo_baton_4p_no_ros.Cli.Numbers.{parse_int}
use mrp_robo_baton_4p_no_ros.Cli.Parse.{Progress, Flag, record_bag, record_mp4_dir, flag_of}
use mrp_robo_baton_4p_no_ros.Cli.Parse.Loop.{apply_value}
use mrp_robo_baton_4p_no_ros.Cli.Parse.Naming.{
  skip_test, is_bag, is_mp4, is_channels, bag_test, mp4_test, channels_test, selects, selector_test,
}
use mrp_robo_baton_4p_no_ros.Cli.Parse.Pairs.{has_skip, later_or, last_value, has_selector}
use mrp_robo_baton_4p_no_ros.Cli.Parse.Branches.{
  apply_value-skip, apply_value-bag, apply_value-mp4, SameRecording, apply_value-other,
  SameChannels, apply_value-channels, apply_value-no_channels, apply_value-selector, SameState,
}

-- What the last values of the two recordings have made of the progress.
abbrev Recorded : Option (List ℕ) → Option (List ℕ) → Progress → Progress → Type 0
Recorded bag mp4 p q =
    ((path : List ℕ)
      → bag ≡ some path
      → (mp4 ≡ none) × (q.options.record_bag_path ≡ path) × (q.options.record_mp4_directory ≡ []))
    × ((path : List ℕ)
        → mp4 ≡ some path
        → (bag ≡ none) × (q.options.record_mp4_directory ≡ path) × (q.options.record_bag_path ≡ []))
    × (p.state.record_bag_set ≡ true → mp4 ≡ none)
    × (p.state.record_mp4_set ≡ true → bag ≡ none)
    × (bag ≡ none
        → mp4 ≡ none
        → (q.options.record_bag_path ≡ p.options.record_bag_path)
          × (q.options.record_mp4_directory ≡ p.options.record_mp4_directory))

Recorded-bag :
    (value : List ℕ) (bag mp4 : Option (List ℕ)) (p u q : Progress)
    → p.state.record_mp4_set ≡ false
    → u.state.record_bag_set ≡ true
    → u.options.record_bag_path ≡ value
    → u.options.record_mp4_directory ≡ []
    → Recorded bag mp4 u q
    → Recorded (later_or (some value) bag) mp4 p q
Recorded-bag value none mp4 p u q other set path no_mp4 (a, a', b, b', c) =
    let absent : mp4 ≡ none = b set in
    let (same, same') = c refl absent in
    ((λ v e. (absent, cc, same' ∙ no_mp4)), (λ v e. cc), (λ _. absent), (λ h. cc), (λ e e'. cc))
Recorded-bag value (some later) mp4 p u q other set path no_mp4 (a, a', b, b', c) =
    let (absent, same, same') = a later refl in
    ((λ v e. (absent, cc, same')), (λ v e. cc), (λ _. absent), (λ h. cc), (λ e e'. cc))

Recorded-mp4 :
    (value : List ℕ) (bag mp4 : Option (List ℕ)) (p u q : Progress)
    → p.state.record_bag_set ≡ false
    → u.state.record_mp4_set ≡ true
    → u.options.record_mp4_directory ≡ value
    → u.options.record_bag_path ≡ []
    → Recorded bag mp4 u q
    → Recorded bag (later_or (some value) mp4) p q
Recorded-mp4 value bag none p u q other set path no_bag (a, a', b, b', c) =
    let absent : bag ≡ none = b' set in
    let (same, same') = c absent refl in
    ((λ v e. cc), (λ v e. (absent, cc, same ∙ no_bag)), (λ h. cc), (λ _. absent), (λ e e'. cc))
Recorded-mp4 value bag (some later) p u q other set path no_bag (a, a', b, b', c) =
    let (absent, same, same') = a' later refl in
    ((λ v e. cc), (λ v e. (absent, cc, same')), (λ h. cc), (λ _. absent), (λ e e'. cc))

Recorded-same :
    (bag mp4 : Option (List ℕ)) (p u q : Progress)
    → SameRecording p u
    → Recorded bag mp4 u q
    → Recorded bag mp4 p q
Recorded-same bag mp4 p u q (s, s', o, o') (a, a', b, b', c) = (
  a,
  a',
  (λ h. b (s ∙ h)),
  (λ h. b' (s' ∙ h)),
  (λ e e'. let (same, same') = c e e' in (same ∙ o, same' ∙ o')),
)

abbrev Counted : Option (List ℕ) → Progress → Progress → Type 0
Counted count p q =
    ((text : List ℕ)
      → count ≡ some text
      → (q.state.channels_set ≡ true) × (parse_int text ≡ ok q.state.requested_channels))
    × (count ≡ none → SameChannels p q)

Counted-given :
    (value : List ℕ) (count : Option (List ℕ)) (p u q : Progress)
    → (u.state.channels_set ≡ true) × (parse_int value ≡ ok u.state.requested_channels)
    → Counted count u q
    → Counted (later_or (some value) count) p q
Counted-given value none p u q (set, read) (a, b) =
    let (same, same') = b refl in
    (
      (λ t e.
          let value_same : value ≡ t = cc in
          (same ∙ set, ap parse_int (sym value_same) ∙ read ∙ ap (λ n. ok n) (sym same'))),
      (λ e. cc),
    )
Counted-given value (some later) p u q given (a, b) = (a, (λ e. cc))

Counted-same :
    (count : Option (List ℕ)) (p u q : Progress)
    → SameChannels p u
    → Counted count u q
    → Counted count p q
Counted-same count p u q (s, s') (a, b) =
    (a, (λ e. let (same, same') = b e in (same ∙ s, same' ∙ s')))

-- What the loop has made of the pairs of the arguments.
abbrev pub HasRead : List (List ℕ × List ℕ) → Progress → Progress → Type 0
HasRead pairs p q =
    Recorded (last_value (codes "--record-bag") pairs) (last_value (codes "--record-mp4-dir") pairs)
      p q
    × Counted (last_value (codes "--channels") pairs) p q
    × ((p.state.camera_selector_set ≡ true) ⊎ (has_selector pairs ≡ true)
        → q.state.camera_selector_set ≡ true)
    × (q.state.record_frame_skip_set ≡ (p.state.record_frame_skip_set || has_skip pairs))

pub HasRead-same :
    (pairs : List (List ℕ × List ℕ)) (p u q : Progress)
    → SameState p u
    → HasRead pairs u q
    → HasRead pairs p q
HasRead-same pairs p u q (recording, counting, selector, skip)
      (recorded, counted, selected, skipped) =
    (
      Recorded-same _ _ p u q recording recorded,
      Counted-same _ p u q counting counted,
      (λ h. elim h [
        | inl set ↦ selected (inl (selector ∙ set))
        | inr given ↦ selected (inr given)
      ]),
      skipped ∙ ap (λ b. b || has_skip pairs) skip,
    )

later_none : (rest : Option (List ℕ)) → later_or none rest ≡ rest
later_none none = refl
later_none (some later) = refl

Recorded-step :
    (arg value : List ℕ) (pairs : List (List ℕ × List ℕ)) (p u q : Progress)
    → apply_value (flag_of true arg) value p ≡ ok u
    → (bag mp4 : Option (List ℕ)) → Recorded bag mp4 u q
    → Recorded
        (later_or (if bytes_eq arg (codes "--record-bag") then some value else none) bag)
        (later_or (if bytes_eq arg (codes "--record-mp4-dir") then some value else none) mp4)
        p
        q
Recorded-step arg value pairs p u q e bag mp4 h =
    rw (sym (bag_test arg), sym (mp4_test arg)) (go (flag_of true arg) e)
  where
    plain :
        (f : Flag)
        → is_bag f ≡ false
        → is_mp4 f ≡ false
        → apply_value f value p ≡ ok u
        → Recorded
            (later_or (if is_bag f then some value else none) bag)
            (later_or (if is_mp4 f then some value else none) mp4)
            p
            q
    plain f is is' e =
        rw (is, is', later_none bag, later_none mp4)
          (Recorded-same bag mp4 p u q (apply_value-other f value p u is is' e) h)

    go :
        (f : Flag)
        → apply_value f value p ≡ ok u
        → Recorded
            (later_or (if is_bag f then some value else none) bag)
            (later_or (if is_mp4 f then some value else none) mp4)
            p
            q
    go record_bag e =
        let (other, set, path, no_mp4) = apply_value-bag record_bag value p u refl e in
        rw (later_none mp4) (Recorded-bag value bag mp4 p u q other set path no_mp4 h)
    go record_mp4_dir e =
        let (other, set, path, no_bag) = apply_value-mp4 record_mp4_dir value p u refl e in
        rw (later_none bag) (Recorded-mp4 value bag mp4 p u q other set path no_bag h)
    go f e = plain f refl refl e

Counted-step :
    (arg value : List ℕ) (p u q : Progress)
    → apply_value (flag_of true arg) value p ≡ ok u
    → (count : Option (List ℕ)) → Counted count u q
    → Counted (later_or (if bytes_eq arg (codes "--channels") then some value else none) count) p q
Counted-step arg value p u q e count h =
    rw (sym (channels_test arg)) (elim (Bool-cases (is_channels (flag_of true arg))) [
      | inl is ↦ rw is (
          Counted-given value count p u q (apply_value-channels (flag_of true arg) value p u is e)
            h)
      | inr other ↦
          rw (other, later_none count)
            (Counted-same count p u q (apply_value-no_channels (flag_of true arg) value p u other e)
              h)
    ])

or_false : (b : Bool) → b ≡ (b || false)
or_false true = refl
or_false false = refl

or_assoc : (a b c : Bool) → ((a || b) || c) ≡ (a || (b || c))
or_assoc true b c = refl
or_assoc false b c = refl

pub HasRead-step :
    (arg value : List ℕ) (pairs : List (List ℕ × List ℕ)) (p u q : Progress)
    → apply_value (flag_of true arg) value p ≡ ok u
    → HasRead pairs u q
    → HasRead ((arg, value) ∷ pairs) p q
HasRead-step arg value pairs p u q e (recorded, counted, selected, skipped) = (
  Recorded-step arg value pairs p u q e _ _ recorded,
  Counted-step arg value p u q e _ counted,
  (λ h. elim h [
    | inl set ↦ selected (inl (apply_value-selector (flag_of true arg) value p u e (inr set)))
    | inr given ↦ elim (Bool-cases (selects arg)) [
      | inl here ↦
          selected (
            inl
              (apply_value-selector (flag_of true arg) value p u e (inl (selector_test arg here))))
      | inr there ↦ let rest : has_selector pairs ≡ true = ground arith in selected (inr rest)
    ]
  ]),
  skipped
      ∙ ap (λ b. b || has_skip pairs)
          (apply_value-skip (flag_of true arg) value p u e
            ∙ ap (λ b. p.state.record_frame_skip_set || b) (skip_test arg))
      ∙ or_assoc p.state.record_frame_skip_set (bytes_eq arg (codes "--record-frame-skip"))
          (has_skip pairs),
)

pub HasRead-nothing : (p : Progress) → HasRead [] p p
HasRead-nothing p = (
  ((λ v e. cc), (λ v e. cc), (λ h. refl), (λ h. refl), (λ e e'. (refl, refl))),
  ((λ t e. cc), (λ e. (refl, refl))),
  (λ h. elim h [ inl set ↦ set | inr given ↦ cc ]),
  or_false p.state.record_frame_skip_set,
)
