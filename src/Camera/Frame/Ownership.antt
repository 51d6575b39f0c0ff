-- ===== src/Camera/Frame/Ownership.antt =====
-- No frame is lost and none is released twice.
use mrp_robo_baton_4p_no_ros.Base.{
  ℕ, zero, suc, ◌+◌, ◌<◌, ◌≡◌, ◌≢◌, refl, sym, subst, ap, ◌∙◌, Bool, true, false, Option, none,
  some, List, [], ◌∷◌, length, set, get_or, ◌==◌, if◌then◌else◌, arith, length-set, All,
  get_or-set_other, get_or-set_same,
}
use mrp_robo_baton_4p_no_ros.Camera.Frame.{
  Store, frame_of, reset, release_ownership, move_assign, moved, Step, resets, releases, moves,
  step, run, log_release,
}

abbrev one_if : Bool → ℕ
one_if true = 1
one_if false = 0

abbrev pub count : ℕ → List ℕ → ℕ
count frame [] = 0
count frame (x ∷ xs) = one_if (x == frame) + count frame xs

abbrev pub owns : ℕ → Option ℕ → ℕ
owns frame none = 0
owns frame (some x) = one_if (x == frame)

abbrev pub owned : ℕ → List (Option ℕ) → ℕ
owned frame [] = 0
owned frame (x ∷ xs) = owns frame x + owned frame xs

-- How often a frame stands anywhere: in an object, among the released or among the handed over.
abbrev pub total : ℕ → Store → ℕ
total frame s = owned frame s.frames + count frame s.released + count frame s.handed_over

owned-set :
    (frame : ℕ) (xs : List (Option ℕ)) (i : ℕ) (x : Option ℕ)
    → i < length xs
    → owned frame (set xs i x) + owns frame (get_or xs i none) ≡ owned frame xs + owns frame x
owned-set frame [] i x h = ground arith
owned-set frame (y ∷ ys) zero x h = omega arith
owned-set frame (y ∷ ys) (suc i) x h = omega (arith, owned-set frame ys i x (omega arith))

count-log_release :
    (frame : ℕ) (x : Option ℕ) (log : List ℕ)
    → count frame (log_release x log) ≡ owns frame x + count frame log
count-log_release frame none log = omega arith
count-log_release frame (some x) log = refl

-- The objects that a step names exist.
abbrev pub Names : ℕ → Step → Type 0
Names n (resets object) = object < n
Names n (releases object) = object < n
Names n (moves object other) = (object < n) × (other < n)

length-reset : (object : ℕ) (s : Store) → length (reset object s).frames ≡ length s.frames
unfolding reset
length-reset object s = length-set s.frames object none

length-release_ownership :
    (object : ℕ) (s : Store) → length (release_ownership object s).frames ≡ length s.frames
unfolding release_ownership
length-release_ownership object s = length-set s.frames object none

eq_or : (a b : ℕ) → (a == b) ≡ false → a ≢ b
eq_or a b e f = ground arith

length-move_assign :
    (object other : ℕ) (s : Store) → length (move_assign object other s).frames ≡ length s.frames
unfolding move_assign reset
length-move_assign object other s = go (object == other)
  where
    go :
        (b : Bool)
        → length (if b then s else moved object other (reset object s)).frames ≡ length s.frames
    go true = refl
    go false =
        length-set (set (set s.frames object none) other none) object _
        ∙ length-set (set s.frames object none) other none
        ∙ length-set s.frames object none

total-reset :
    (frame object : ℕ) (s : Store)
    → object < length s.frames
    → total frame (reset object s) ≡ total frame s
unfolding reset
total-reset frame object s h = omega (
  arith,
  owned-set frame s.frames object none h,
  count-log_release frame (frame_of s object) s.released,
)

total-release_ownership :
    (frame object : ℕ) (s : Store)
    → object < length s.frames
    → total frame (release_ownership object s) ≡ total frame s
unfolding release_ownership
total-release_ownership frame object s h = omega (
  arith,
  owned-set frame s.frames object none h,
  count-log_release frame (frame_of s object) s.handed_over,
)

-- A move between two objects that differ, past the reset.
total-move :
    (frame object other : ℕ) (s : Store)
    → object < length s.frames
    → other < length s.frames
    → object ≢ other
    → total frame (moved object other (reset object s)) ≡ total frame s
unfolding reset
total-move frame object other s h h' differ =
    let xs₁ = set s.frames object none in
    let v = get_or xs₁ other none in
    let xs₂ = set xs₁ other none in
    let len₁ = length-set s.frames object none in
    let len₂ = length-set xs₁ other none in
    let empty : get_or xs₂ object none ≡ none =
      get_or-set_other xs₁ other object none none (λ e. differ (sym e))
      ∙ get_or-set_same s.frames object none none h in
    omega (
      arith,
      owned-set frame s.frames object none h,
      owned-set frame xs₁ other none (omega arith),
      owned-set frame xs₂ object v (omega arith),
      ap (owns frame) empty,
      count-log_release frame (frame_of s object) s.released,
    )

total-move_assign :
    (frame object other : ℕ) (s : Store)
    → object < length s.frames
    → other < length s.frames
    → total frame (move_assign object other s) ≡ total frame s
unfolding move_assign
total-move_assign frame object other s h h' = go (object == other) (eq_or object other)
  where
    go :
        (b : Bool)
        → (b ≡ false → object ≢ other)
        → total frame (if b then s else moved object other (reset object s)) ≡ total frame s
    go true differ = refl
    go false differ = total-move frame object other s h h' (differ refl)

total-step :
    (frame : ℕ) (s : Store) (x : Step)
    → Names (length s.frames) x
    → (total frame (step s x) ≡ total frame s) × (length (step s x).frames ≡ length s.frames)
unfolding step
total-step frame s (resets object) h = (total-reset frame object s h, length-reset object s)
total-step frame s (releases object) h =
    (total-release_ownership frame object s h, length-release_ownership object s)
total-step frame s (moves object other) h =
    (total-move_assign frame object other s h.0 h.1, length-move_assign object other s)

-- However the objects are moved, reset and handed over, in any order, a frame stands as often in all
-- as before: in the objects, among the released and among the handed over. So a frame that one object
-- owned at the start is never released twice, nor released and handed over.
pub total-run :
    (frame : ℕ) (s : Store) (xs : List Step)
    → All (Names (length s.frames)) xs
    → total frame (run s xs) ≡ total frame s
unfolding run
total-run frame s [] h = refl
total-run frame s (x ∷ xs) (h, hs) =
    let (kept, len) = total-step frame s x h in
    total-run frame (step s x) xs (subst (λ n. All (Names n) xs) (sym len) hs) ∙ kept
