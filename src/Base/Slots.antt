-- ===== src/Base/Slots.antt =====
-- Arrays as functions from the index, an update at one index, and how many of the first slots pass a
-- test.
use Prim.Native.Nat.{ℕ, zero, suc, ◌+◌, ◌≤◌, ◌<◌}
use mathlib.Core.Logic.{inl, inr}
use mathlib.Core.Path.{◌≡◌, refl}
use mathlib.Core.Bool.{Bool, true, false}
use native.Mathlib.Omega.{arith}
use mrp_robo_baton_4p_no_ros.Base.Tests.{◌==◌, if◌then◌else◌, Bool-cases}

module _ {ℓ} {A : Type ℓ} where
  abbrev pub update : (ℕ → A) → ℕ → A → ℕ → A
  update slots i value j = if i == j then value else slots j

abbrev pub bit_of : Bool → ℕ
bit_of b = if b then 1 else 0

module _ {ℓ} {A : Type ℓ} (test : A → Bool) where
  unfoldable pub tally : ℕ → (ℕ → A) → ℕ
  tally zero slots = 0
  tally (suc n) slots = tally n slots + bit_of (test (slots n))

  tally-update_above :
      (n : ℕ) (slots : ℕ → A) (i : ℕ) (value : A)
      → n ≤ i
      → tally n (update slots i value) ≡ tally n slots
  unfolding tally
  tally-update_above zero slots i value h = refl
  tally-update_above (suc n) slots i value h = ground (arith, tally-update_above n slots i value)

  pub tally-update :
      (n : ℕ) (slots : ℕ → A) (i : ℕ) (value : A)
      → i < n
      → tally n (update slots i value) + bit_of (test (slots i))
        ≡ tally n slots + bit_of (test value)
  unfolding tally
  tally-update zero slots i value h = elim h [ ]
  tally-update (suc n) slots i value h = elim (Bool-cases (i == n)) [
    | inl last ↦ ground (arith, tally-update_above n slots i value)
    | inr below ↦ ground (arith, tally-update n slots i value)
  ]

  pub tally-le : (n : ℕ) (slots : ℕ → A) → tally n slots ≤ n
  unfolding tally
  tally-le zero slots = omega arith
  tally-le (suc n) slots = ground (arith, tally-le n slots)

  pub tally_pos :
      (n : ℕ) (slots : ℕ → A) (i : ℕ) → i < n → test (slots i) ≡ true → 0 < tally n slots
  unfolding tally
  tally_pos zero slots i h t = elim h [ ]
  tally_pos (suc n) slots i h t = elim (Bool-cases (i == n)) [
    | inl last ↦ ground arith
    | inr below ↦ ground (arith, tally_pos n slots i)
  ]

  pub tally_none : (n : ℕ) (slots : ℕ → A) → ((i : ℕ) → test (slots i) ≡ false) → tally n slots ≡ 0
  unfolding tally
  tally_none zero slots h = refl
  tally_none (suc n) slots h = ground (arith, tally_none n slots h, h n)
