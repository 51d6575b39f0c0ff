-- ===== src/Cli/Numbers/Signs.antt =====
-- What the number parsers accept.
use mrp_robo_baton_4p_no_ros.Base.{
  ℕ, ◌+◌, ◌-◌, ◌*◌, ◌^◌, ◌<◌, ◌≡◌, refl, ap, true, false, List, [], ◌∷◌, length, All, map, arith,
  some,
}
use mrp_robo_baton_4p_no_ros.Base.Int.{pos}
use mrp_robo_baton_4p_no_ros.Base.Errors.{ok}
use mrp_robo_baton_4p_no_ros.Cli.Numbers.{
  skip_space, read_sign, digit_value, read_digits, read_number, read_integer, parse_int,
  parse_uint32, parse_uint64,
}

-- The number that decimal digits stand for, behind `acc`.
abbrev pub decimal_value : ℕ → List ℕ → ℕ
decimal_value acc [] = acc
decimal_value acc (d ∷ ds) = decimal_value (acc * 10 + d) ds

abbrev pub decimal_text : List ℕ → List ℕ
decimal_text = map (λ d. b'0' + d)

abbrev pub AreDigits : List ℕ → Type 0
AreDigits = All (λ d. d < 10)

digit_value-decimal : (d : ℕ) → d < 10 → digit_value (b'0' + d) ≡ d
unfolding digit_value
digit_value-decimal d h = ground arith

read_digits-decimal :
    (acc count : ℕ) (ds : List ℕ)
    → AreDigits ds
    → read_digits 10 acc count (decimal_text ds) ≡ (decimal_value acc ds, count + length ds, [])
unfolding read_digits
read_digits-decimal acc count [] h = ap (λ (n : ℕ). (acc, n, [])) (omega arith)
read_digits-decimal acc count (d ∷ ds) h =
    ground (arith, digit_value-decimal d h.0, read_digits-decimal (acc * 10 + d) (count + 1) ds h.1)

read_number-decimal :
    (d : ℕ) (ds : List ℕ)
    → AreDigits (d ∷ ds)
    → read_number false (decimal_text (d ∷ ds)) ≡ read_digits 10 0 0 (decimal_text (d ∷ ds))
unfolding read_number
read_number-decimal d [] h = refl
read_number-decimal d (e ∷ []) h = refl
read_number-decimal d (e ∷ f ∷ ds) h = refl

no_sign :
    (d : ℕ) (rest : List ℕ)
    → d < 10
    → read_sign (skip_space ((b'0' + d) ∷ rest)) ≡ (false, (b'0' + d) ∷ rest)
unfolding skip_space read_sign
no_sign d rest h = ground arith

read_integer-decimal :
    (d : ℕ) (ds : List ℕ)
    → AreDigits (d ∷ ds)
    → read_integer false (decimal_text (d ∷ ds))
      ≡ some (record { negative = false; magnitude = decimal_value 0 (d ∷ ds); complete = true })
unfolding read_integer
read_integer-decimal d ds h = ground (
  arith,
  no_sign d (decimal_text ds) h.0,
  read_number-decimal d ds h,
  read_digits-decimal 0 0 (d ∷ ds) h,
)

-- Every decimal number below 2^31, with however many leading zeros, is read as itself.
pub parse_int-decimal :
    (d : ℕ) (ds : List ℕ)
    → AreDigits (d ∷ ds)
    → decimal_value 0 (d ∷ ds) < 2 ^ 31
    → parse_int (decimal_text (d ∷ ds)) ≡ ok (pos (decimal_value 0 (d ∷ ds)))
unfolding parse_int
parse_int-decimal d ds h k = ground (arith, read_integer-decimal d ds h)

minus_behind_blank : (rest : List ℕ) → read_sign (skip_space (b' ' ∷ b'-' ∷ rest)) ≡ (true, rest)
unfolding skip_space read_sign
minus_behind_blank rest = refl

-- Without a leading zero, base 0 is base 10.
read_number-detect :
    (d : ℕ) (ds : List ℕ)
    → AreDigits (d ∷ ds)
    → 0 < d
    → read_number true (decimal_text (d ∷ ds)) ≡ read_digits 10 0 0 (decimal_text (d ∷ ds))
unfolding read_number
read_number-detect d [] h p = ground arith
read_number-detect d (e ∷ []) h p = ground arith
read_number-detect d (e ∷ f ∷ ds) h p = ground arith

read_integer_blank_minus :
    (d : ℕ) (ds : List ℕ)
    → AreDigits (d ∷ ds)
    → 0 < d
    → read_integer true (b' ' ∷ b'-' ∷ decimal_text (d ∷ ds))
      ≡ some (record { negative = true; magnitude = decimal_value 0 (d ∷ ds); complete = true })
unfolding read_integer
read_integer_blank_minus d ds h p = ground (
  arith,
  minus_behind_blank (decimal_text (d ∷ ds)),
  read_number-detect d ds h p,
  read_digits-decimal 0 0 (d ∷ ds) h,
)

decimal_value-pos : (acc : ℕ) (ds : List ℕ) → 0 < acc → 0 < decimal_value acc ds
decimal_value-pos acc [] h = h
decimal_value-pos acc (d ∷ ds) h = decimal_value-pos (acc * 10 + d) ds (omega arith)

-- The sign test of the 64-bit parser looks at the first character only: behind a blank a minus sign
-- gets through, and every number from 1 to 2^64 - 1 is read as its negative modulo 2^64.
pub parse_uint64_blank_minus :
    (d : ℕ) (ds : List ℕ)
    → AreDigits (d ∷ ds)
    → 0 < d
    → decimal_value 0 (d ∷ ds) < 2 ^ 64
    → parse_uint64 (b' ' ∷ b'-' ∷ decimal_text (d ∷ ds)) ≡ ok (2 ^ 64 - decimal_value 0 (d ∷ ds))
unfolding parse_uint64
parse_uint64_blank_minus d ds h p k =
    ground
      (arith, read_integer_blank_minus d ds h p, decimal_value-pos (0 * 10 + d) ds (omega arith))

-- What the parsers return is in the range of its type.
pub parsed_range :
    (text : List ℕ)
    → ((n : ℕ) → parse_uint32 text ≡ ok n → n < 2 ^ 32)
      × ((n : ℕ) → parse_uint64 text ≡ ok n → n < 2 ^ 64)
unfolding parse_uint32 parse_uint64
parsed_range text = (λ n h. ground arith, λ n h. ground arith)
