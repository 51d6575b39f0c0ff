-- ===== src/Mp4/AccessUnit/Ranges.antt =====
-- src/h264_mp4_recorder.cpp: what a start code that is found stands at.
use mrp_robo_baton_4p_no_ros.Base.{
  ℕ, zero, suc, ◌+◌, ◌-◌, ◌≤◌, ◌<◌, ◌≡◌, refl, sym, ap, ◌∙◌, length-drop, Bool, true, false, Option,
  none, some, List, [], ◌∷◌, length, drop, if◌then◌else◌, arith, inl, inr, Option-cases,
}
use mrp_robo_baton_4p_no_ros.Mp4.AccessUnit.{start_code_at, find_from, find_annex_b_start_code}

-- A start code at `begin` with its unit's header behind it, inside the data.
pub record IsUnit (bytes : List ℕ) (begin header : ℕ) : Type 0 where
  pub size : ℕ
  pub code : start_code_at (drop begin bytes) ≡ some (size, true)
  pub behind : header ≡ begin + size
  pub positive : 0 < size
  pub inside : header < length bytes

pub start_code_at-pos :
    (text : List ℕ) (n : ℕ) → start_code_at text ≡ some (n, true) → (0 < n) × (n < length text)
unfolding start_code_at
start_code_at-pos text n e = ground arith

pub drop-suc :
    {A : Type 0} (index : ℕ) (bytes : List A) (c : A) (cs : List A)
    → drop index bytes ≡ c ∷ cs
    → drop (suc index) bytes ≡ cs
drop-suc zero [] c cs e = cc
drop-suc zero (x ∷ xs) c cs e = cc
drop-suc (suc index) [] c cs e = cc
drop-suc (suc index) (x ∷ xs) c cs e = drop-suc index xs c cs e

abbrev found_code : Bool → ℕ → ℕ → Option (ℕ × ℕ)
found_code more index n = if more then some (index, index + n) else none

found_here :
    (bytes text : List ℕ) (index n start header : ℕ) (more : Bool)
    → drop index bytes ≡ text
    → start_code_at text ≡ some (n, more)
    → found_code more index n ≡ some (start, header)
    → (index ≤ start) × IsUnit bytes start header
found_here bytes text index n start header true at here e =
    let code : start_code_at text ≡ some (n, true) = here in
    let (pos, below) = start_code_at-pos text n code in
    let same : start ≡ index = cc in
    let sum : header ≡ index + n = cc in
    let size : length text ≡ length bytes - index = ap length (sym at) ∙ length-drop index bytes in
    rw same (
      omega arith,
      record { size = n; code = rw at code; behind = sum; positive = pos; inside = omega arith },
    )
found_here bytes text index n start header false at here e = cc

find_from-IsUnit :
    (bytes : List ℕ) (index : ℕ) (text : List ℕ) (start header : ℕ)
    → drop index bytes ≡ text
    → find_from index text ≡ some (start, header)
    → (index ≤ start) × IsUnit bytes start header
unfolding find_from
find_from-IsUnit bytes index [] start header at e = cc
find_from-IsUnit bytes index (c ∷ cs) start header at e =
    elim (Option-cases (start_code_at (c ∷ cs))) [
      | inl absent ↦
          let next : index + 1 ≡ suc index = omega arith in
          let (later, unit) =
            find_from-IsUnit bytes (index + 1) cs start header
              (ap (λ (k : ℕ). drop k bytes) next ∙ drop-suc index bytes c cs at)
              (rw (absent, find_from) at e) in
          (omega arith, unit)
      | inr ((n, more), here) ↦
          found_here bytes (c ∷ cs) index n start header more at here (rw (here, find_from) at e)
    ]

pub find_annex_b_start_code-IsUnit :
    (bytes : List ℕ) (from start header : ℕ)
    → find_annex_b_start_code bytes from ≡ some (start, header)
    → (from ≤ start) × IsUnit bytes start header
unfolding find_annex_b_start_code
find_annex_b_start_code-IsUnit bytes from start header e =
    find_from-IsUnit bytes from (drop from bytes) start header refl e
