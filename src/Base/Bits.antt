-- ===== src/Base/Bits.antt =====
-- Laws of `&` at variables: one digit at a time, masks of ones, and single bits.
use Prim.Native.Nat.{
  ℕ, zero, suc, ◌+◌, ◌-◌, ◌*◌, ◌/◌, ◌%◌, ◌^◌, ◌≤◌, ◌<◌, min, bit_and, digits, bit_and-bitwise,
}
use mathlib.Core.Path.{◌≡◌, refl, ap}
use native.Mathlib.Omega.{arith}
use native.Mathlib.Nat.{pow-suc, one-le-pow}

-- What `bit_and` computes, with the number of digits that it may look at made explicit.
abbrev and_within : ℕ → ℕ → ℕ → ℕ
and_within fuel x y = digits (λ _. zero) min fuel x y

-- Any two allowances that cover the first number agree.
and_within_irrelevant : (f g x y : ℕ) → x ≤ f → x ≤ g → and_within f x y ≡ and_within g x y
and_within_irrelevant zero zero x y hf hg = refl
and_within_irrelevant (suc f) (suc g) (suc x) y hf hg =
    let next = and_within_irrelevant f g (suc x / 2) (y / 2) (omega arith) (omega arith) in
    omega (arith, next)
and_within_irrelevant f g zero y hf hg = refl
and_within_irrelevant _ _ _ y hf hg = absurd (omega arith)

-- The lowest digit splits off.
pub bit_and_digit : (x y : ℕ) → bit_and x y ≡ 2 * bit_and (x / 2) (y / 2) + min (x % 2) (y % 2)
bit_and_digit zero y = omega (arith, bit_and-bitwise 0 y, bit_and-bitwise 0 (y / 2))
bit_and_digit (suc x) y =
    let tail =
      and_within_irrelevant x (suc x / 2) (suc x / 2) (y / 2) (omega arith) (omega arith) in
    omega (arith, tail, bit_and-bitwise (suc x) y, bit_and-bitwise (suc x / 2) (y / 2))

pub bit_and-zero : (k x : ℕ) → x < 2 ^ k → bit_and x 0 ≡ 0
bit_and-zero zero zero h = bit_and-bitwise 0 0
bit_and-zero zero (suc x) h = absurd (omega arith)
bit_and-zero (suc k) x h =
    omega (arith, bit_and_digit x 0, bit_and-zero k (x / 2) (omega (arith, pow-suc 2 k)))

-- A mask of `k` ones keeps a number of `k` digits.
pub bit_and-ones : (k x : ℕ) → x < 2 ^ k → bit_and x (2 ^ k - 1) ≡ x
bit_and-ones zero zero h = bit_and-bitwise 0 (2 ^ 0 - 1)
bit_and-ones zero (suc x) h = absurd (omega arith)
bit_and-ones (suc k) x h =
    let half : (2 ^ suc k - 1) / 2 ≡ 2 ^ k - 1 = omega (arith, pow-suc 2 k) in
    omega (
      arith,
      bit_and_digit x (2 ^ suc k - 1),
      ap (bit_and (x / 2)) half,
      bit_and-ones k (x / 2) (omega (arith, pow-suc 2 k)),
      pow-suc 2 k,
      one-le-pow k 2 (omega arith),
    )

-- `x & ~0xF` on 32 bits clears the lowest four digits.
pub bit_and_high : (x : ℕ) → x < 2 ^ 32 → bit_and x 0xffff_fff0 ≡ 16 * (x / 16)
bit_and_high x h = omega (
  arith,
  bit_and_digit x 0xffff_fff0,
  bit_and_digit (x / 2) 0x7fff_fff8,
  bit_and_digit (x / 2 / 2) 0x3fff_fffc,
  bit_and_digit (x / 2 / 2 / 2) 0x1fff_fffe,
  bit_and-ones 28 (x / 2 / 2 / 2 / 2) (omega arith),
)

-- The four tests of one bit of a 32-bit mask.
pub bit_and-one : (x : ℕ) → x < 2 ^ 32 → bit_and x 1 ≡ x % 2
bit_and-one x h = omega (arith, bit_and_digit x 1, bit_and-zero 32 (x / 2) (omega arith))

pub bit_and_two : (x : ℕ) → x < 2 ^ 32 → bit_and x 2 ≡ 2 * (x / 2 % 2)
bit_and_two x h = omega (arith, bit_and_digit x 2, bit_and-one (x / 2) (omega arith))

pub bit_and_four : (x : ℕ) → x < 2 ^ 32 → bit_and x 4 ≡ 4 * (x / 4 % 2)
bit_and_four x h = omega (arith, bit_and_digit x 4, bit_and_two (x / 2) (omega arith))

pub bit_and_eight : (x : ℕ) → x < 2 ^ 32 → bit_and x 8 ≡ 8 * (x / 8 % 2)
bit_and_eight x h = omega (arith, bit_and_digit x 8, bit_and_four (x / 2) (omega arith))
