-- ===== src/Bag/Paths/Safety.antt =====
-- What the test of a bag's path lets through, and what the names derived from it are.
use mrp_robo_baton_4p_no_ros.Base.{
  ℕ, ◌-◌, ◌<◌, ◌≤◌, ◌≡◌, ap₂, inl, inr, Bool-cases, bytes_eq_refl, length-append, ◌≢◌, ◌↔◌, refl,
  sym, ap, ◌∙◌, Bool, true, false, ◌&&◌, ◌||◌, not, List, [], ◌∷◌, ◌++◌, All, length, take, drop,
  take-append-drop, ltb, leb, ◌==◌, bytes_eq, bytes_eq_sound, if◌then◌else◌, arith,
}
use mrp_robo_baton_4p_no_ros.Base.Bytes.{codes}
use mrp_robo_baton_4p_no_ros.Base.Errors.{invalid_argument, ok, ◌>>=◌, throw_if}
use mrp_robo_baton_4p_no_ros.Bag.Writer.Messages.{is_absolute, contains, starts_with}
use mrp_robo_baton_4p_no_ros.Bag.Paths.{
  ends_with, bag_suffix, has_unsafe, require_safe_final_bag_path, split_loop, split_absolute_path,
  push_component, partial_name, quarantine_name,
}

clash : true ≡ false → ⊥
clash h = cc

-- Printable, and no blank or backslash.
abbrev pub IsSafe : ℕ → Type 0
IsSafe c = (0x21 ≤ c) × (c ≤ 0x7e) × (c ≢ 92)

has_unsafe_iff : (text : List ℕ) → (has_unsafe text ≡ false) ↔ All IsSafe text
unfolding has_unsafe
has_unsafe_iff [] = ((λ e. tt), (λ e. refl))
has_unsafe_iff (c ∷ cs) =
    let (sound, complete) = has_unsafe_iff cs in
    (
      (λ e. ((ground arith, ground arith, λ b. ground arith), sound (ground arith))),
      λ e. ground (arith, complete e.1),
    )

guards_pass :
    (absolute short named up last unsafe : Bool)
    → ((throw_if (not absolute) (invalid_argument "--record-bag path must be absolute") >>= λ _.
          throw_if (short || not named) (invalid_argument "--record-bag path must end with .bag")
          >>= λ _. throw_if (up || last) (invalid_argument "--record-bag path is unsafe") >>= λ _.
              throw_if unsafe (invalid_argument "--record-bag path contains an unsafe character"))
        ≡ ok tt)
      ↔ ((absolute ≡ true)
          × (short ≡ false)
          × (named ≡ true)
          × (up ≡ false)
          × (last ≡ false)
          × (unsafe ≡ false))
guards_pass absolute short named up last unsafe = ground arith

ltb-false_iff : (a b : ℕ) → (ltb a b ≡ false) ↔ (b ≤ a)
ltb-false_iff a b = ground arith

starts_with_iff :
    (part text : List ℕ)
    → (starts_with part text ≡ true) ↔ ((rest : List ℕ) × (text ≡ part ++ rest))
starts_with_iff [] text = ((λ e. (text, refl)), (λ e. refl))
starts_with_iff (p ∷ ps) [] = ((λ e. cc), (λ v. cc))
starts_with_iff (p ∷ ps) (c ∷ cs) =
    let (sound, complete) = starts_with_iff ps cs in
    (
      (λ e.
          let same : p ≡ c = ground arith in
          let (rest, rests) = sound (ground arith) in
          (rest, ap₂ (λ x xs. x ∷ xs) (sym same) rests)),
      (λ v.
          let (rest, e) = v in
          let same : c ≡ p = cc in
          let later : starts_with ps cs ≡ true = complete (rest, cc) in ground arith),
    )

contains_sound :
    (part text : List ℕ)
    → contains part text ≡ true
    → (a : List ℕ) × (b : List ℕ) × (text ≡ a ++ (part ++ b))
contains_sound part [] e = let (rest, same) = (starts_with_iff part []).0 e in ([], rest, same)
contains_sound part (c ∷ cs) e = elim (Bool-cases (starts_with part (c ∷ cs))) [
  | inl here ↦ let (rest, same) = (starts_with_iff part (c ∷ cs)).0 here in ([], rest, same)
  | inr later_on ↦
      let later : contains part cs ≡ true = ground arith in
      let (a, b, same) = contains_sound part cs later in
      (c ∷ a, b, ap (λ (xs : List ℕ). c ∷ xs) same)
]

contains_complete : (part a b : List ℕ) → contains part (a ++ (part ++ b)) ≡ true
contains_complete part [] b = here (part ++ b) ((starts_with_iff part (part ++ b)).1 (b, refl))
  where
    here : (text : List ℕ) → starts_with part text ≡ true → contains part text ≡ true
    here [] e = e
    here (c ∷ cs) e = ground arith
contains_complete part (c ∷ a) b = ground (arith, contains_complete part a b)

contains_iff :
    (part text : List ℕ)
    → (contains part text ≡ false) ↔ (¬ ((a : List ℕ) × (b : List ℕ) × (text ≡ a ++ (part ++ b))))
contains_iff part text = (
  (λ absent v.
      let (a, b, e) = v in
      clash (sym (contains_complete part a b) ∙ ap (contains part) (sym e) ∙ absent)),
  (λ free. elim (Bool-cases (contains part text)) [
    | inl there ↦ absurd (free (contains_sound part text there))
    | inr absent ↦ absent
  ]),
)

drop-length : (a b : List ℕ) → drop (length (a ++ b) - length b) (a ++ b) ≡ b
drop-length a b =
    let size : length (a ++ b) - length b ≡ length a = omega (arith, length-append a b) in
    ap (λ n. drop n (a ++ b)) size ∙ go a
  where
    go : (a : List ℕ) → drop (length a) (a ++ b) ≡ b
    go [] = refl
    go (x ∷ a) = go a

ends_with_sound :
    (suffix text : List ℕ) → ends_with suffix text ≡ true → (a : List ℕ) × (text ≡ a ++ suffix)
ends_with_sound suffix text e =
    let n = length text - length suffix in
    (
      take n text,
      sym (take-append-drop n text)
          ∙ ap (λ l. take n text ++ l) (bytes_eq_sound (drop n text) suffix e),
    )

ends_with_complete : (suffix text a : List ℕ) → text ≡ a ++ suffix → ends_with suffix text ≡ true
ends_with_complete suffix text a e =
    ap (ends_with suffix) e
    ∙ ap (λ xs. bytes_eq xs suffix) (drop-length a suffix)
    ∙ bytes_eq_refl suffix

is_absolute_iff :
    (path : List ℕ) → (is_absolute path ≡ true) ↔ ((rest : List ℕ) × (path ≡ b'/' ∷ rest))
is_absolute_iff [] = ((λ h. cc), (λ v. cc))
is_absolute_iff (c ∷ cs) = (
  (λ h. let slash : c ≡ b'/' = ground arith in (cs, ap (λ x. x ∷ cs) slash)),
  (λ v. let slash : c ≡ b'/' = cc in ground arith),
)

-- `.bag` behind at least one byte.
named_iff :
    (path : List ℕ)
    → ((5 ≤ length path) × (ends_with bag_suffix path ≡ true))
      ↔ ((stem : List ℕ) × (path ≡ stem ++ codes ".bag") × (0 < length stem))
named_iff path = (
  (λ facts.
      let (long, named) = facts in
      let (a, e) = ends_with_sound bag_suffix path named in
      (a, e, omega (arith, ap length e, length-append a bag_suffix))),
  (λ v.
      let (a, e, some_bytes) = v in
      (
        omega (arith, ap length e, length-append a bag_suffix),
        ends_with_complete bag_suffix path a e,
      )),
)

last_up_iff :
    (path : List ℕ)
    → ((leb 3 (length path) && ends_with (codes "/..") path) ≡ false)
      ↔ (¬ ((a : List ℕ) × (path ≡ a ++ codes "/..")))
last_up_iff path = (
  (λ absent v.
      let (a, e) = v in
      let named : ends_with (codes "/..") path ≡ true = ends_with_complete (codes "/..") path a e in
      let long : 3 ≤ length path = omega (arith, ap length e, length-append a (codes "/..")) in
      clash (sym (three (length path) (ends_with (codes "/..") path) long named) ∙ absent)),
  (λ free. elim (Bool-cases (ends_with (codes "/..") path)) [
    | inl there ↦ absurd (free (ends_with_sound (codes "/..") path there))
    | inr absent ↦ never (leb 3 (length path)) (ends_with (codes "/..") path) absent
  ]),
)
  where
    three : (n : ℕ) (b : Bool) → 3 ≤ n → b ≡ true → (leb 3 n && b) ≡ true
    three n b h e = ground arith

    never : (a b : Bool) → b ≡ false → (a && b) ≡ false
    never a b e = ground arith

-- A path passes exactly when it begins with a slash, has `.bag` behind at least one byte, has `/../`
-- nowhere in it and no `/..` at its end, and has only printable characters without a blank or a
-- backslash.
pub require_safe_final_bag_path_iff :
    (path : List ℕ)
    → (require_safe_final_bag_path path ≡ ok tt) ↔ (
        ((rest : List ℕ) × (path ≡ b'/' ∷ rest))
        × ((stem : List ℕ) × (path ≡ stem ++ codes ".bag") × (0 < length stem))
        × (¬ ((a : List ℕ) × (b : List ℕ) × (path ≡ a ++ (codes "/../" ++ b))))
        × (¬ ((a : List ℕ) × (path ≡ a ++ codes "/..")))
        × All IsSafe path)
unfolding require_safe_final_bag_path
require_safe_final_bag_path_iff path =
    let (sound, complete) =
      guards_pass (is_absolute path) (ltb (length path) 5) (ends_with bag_suffix path)
        (contains (codes "/../") path) (leb 3 (length path) && ends_with (codes "/..") path)
        (has_unsafe path) in
    let (long, long') = ltb-false_iff (length path) 5 in
    let (safe, safe') = has_unsafe_iff path in
    let (slash, slash') = is_absolute_iff path in
    let (named, named') = named_iff path in
    let (up, up') = contains_iff (codes "/../") path in
    let (last, last') = last_up_iff path in
    (
      (λ e. let (a, s, n, u, l, h) = sound e in (slash a, named (long s, n), up u, last l, safe h)),
      λ facts.
          let (a, n, u, l, h) = facts in
          let (s, e) = named' n in complete (slash' a, long' s, e, up' u, last' l, safe' h),
    )

-- A component of a path: not empty, and no slash in it.
abbrev pub IsComponent : List ℕ → Type 0
IsComponent component = (component ≢ []) × All (λ c. c ≢ b'/') component

All-append : (P : ℕ → Type 0) (xs : List ℕ) (x : ℕ) → All P xs → P x → All P (xs ++ x ∷ [])
All-append P [] x h p = (p, tt)
All-append P (y ∷ ys) x (h, hs) p = (h, All-append P ys x hs p)

split_loop-IsComponent :
    (component text : List ℕ)
    → All (λ c. c ≢ b'/') component
    → All IsComponent (split_loop component text)
unfolding split_loop
split_loop-IsComponent [] [] h = tt
split_loop-IsComponent (c ∷ cs) [] h = (((λ e. cc), h), tt)
split_loop-IsComponent component (c ∷ cs) h =
    choose (c == b'/') _ _
      (λ e. push component (split_loop [] cs) h (split_loop-IsComponent [] cs tt))
      (λ e.
        split_loop-IsComponent (component ++ c ∷ []) cs
          (All-append (λ c. c ≢ b'/') component c h (ground arith)))
  where
    choose :
        (b : Bool) (xs ys : List (List ℕ))
        → (b ≡ true → All IsComponent xs)
        → (b ≡ false → All IsComponent ys)
        → All IsComponent (if b then xs else ys)
    choose true xs ys yes_case no_case = yes_case refl
    choose false xs ys yes_case no_case = no_case refl

    push :
        (component : List ℕ) (rest : List (List ℕ))
        → All (λ c. c ≢ b'/') component
        → All IsComponent rest
        → All IsComponent (push_component component rest)
    push [] rest h hs = hs
    push (c ∷ cs) rest h hs = (((λ e. cc), h), hs)

-- Every component that a path is split into is not empty and has no slash, so that each is one step
-- down from the root.
pub split_absolute_path-IsComponent : (path : List ℕ) → All IsComponent (split_absolute_path path)
unfolding split_absolute_path
split_absolute_path-IsComponent path = split_loop-IsComponent [] (drop 1 path) tt

bytes_eq_eq : (xs ys : List ℕ) → bytes_eq xs ys ≡ true → xs ≡ ys
bytes_eq_eq xs ys e = bytes_eq_sound xs ys e

stem :
    (name : List ℕ)
    → ends_with bag_suffix name ≡ true
    → take (length name - 4) name ++ bag_suffix ≡ name
stem name e =
    ap (λ l. take (length name - 4) name ++ l) (sym (bytes_eq_eq _ _ e))
    ∙ take-append-drop (length name - 4) name

both : (n : ℕ) (b : Bool) → 5 ≤ n → b ≡ true → (ltb 4 n && b) ≡ true
both n b h e = ground arith

-- For a final name of a stem and `.bag`, the partial file is the stem and `.partial.bag` and the
-- quarantine the stem, the session's id and `.bag`.
pub partial_name-quarantine_name :
    (name session_uuid : List ℕ)
    → 5 ≤ length name
    → ends_with bag_suffix name ≡ true
    → (stem : List ℕ) × (name ≡ stem ++ bag_suffix)
      × (partial_name name ≡ stem ++ codes ".partial.bag")
      × (quarantine_name session_uuid name
          ≡ stem ++ (codes ".quarantine-" ++ (session_uuid ++ bag_suffix)))
unfolding partial_name quarantine_name
partial_name-quarantine_name name session_uuid h e = (
  take (length name - 4) name,
  sym (stem name e),
  ap
      (λ b.
        if b
        then take (length name - 4) name ++ codes ".partial.bag"
        else name ++ codes ".partial.bag")
      named,
  ap (λ b. if b then take (length name - 4) name ++ suffix else name ++ suffix) named,
)
  where
    suffix : List ℕ
    suffix = codes ".quarantine-" ++ (session_uuid ++ bag_suffix)

    named : (ltb 4 (length name) && ends_with bag_suffix name) ≡ true
    named = both (length name) (ends_with bag_suffix name) h e
