-- ===== src/Cli/Numbers.antt =====
-- src/cam_demo_config.cpp: `ParseInt`, `ParseUint32`, `ParseLongLong` and `ParseUint64`, over what
-- the standard library's `stoi`, `stoul`, `stoll` and `stoull` do with the C locale on a target whose
-- `long` has 64 bits.
pub mod Signs
use mrp_robo_baton_4p_no_ros.Base.{
  ℕ, zero, suc, ◌+◌, ◌-◌, ◌*◌, ◌%◌, ◌^◌, Bool, true, false, ◌&&◌, ◌||◌, not, Option, none, some,
  List, [], ◌∷◌, ◌++◌, length, ltb, leb, ◌==◌, if◌then◌else◌,
}
use mrp_robo_baton_4p_no_ros.Base.Int.{ℤ, pos, negsuc, ltb_ℤ}
use mrp_robo_baton_4p_no_ros.Base.Errors.{
  Exception, invalid_argument, out_of_range, Result, ok, throws, ◌>>=◌, ◌>>◌, throw_if,
}

-- `isspace`
abbrev pub is_space : ℕ → Bool
is_space c = c == 32 || leb 9 c && leb c 13

unfoldable pub skip_space : List ℕ → List ℕ
skip_space [] = []
skip_space (c ∷ cs) = let rest = skip_space cs in if is_space c then rest else c ∷ cs

-- A sign, true for `-`, and the text behind it.
unfoldable pub read_sign : List ℕ → Bool × List ℕ
read_sign [] = (false, [])
read_sign (c ∷ cs) =
    if c == b'-' then (true, cs) else if c == b'+' then (false, cs) else (false, c ∷ cs)

-- The value of a digit, and 36 for what is none.
unfoldable pub digit_value : ℕ → ℕ
digit_value c =
    if leb b'0' c && leb c b'9'
    then c - b'0'
    else if leb b'a' c && leb c b'z'
    then c - b'a' + 10
    else if leb b'A' c && leb c b'Z'
    then c - b'A' + 10
    else 36

-- The digits that the text begins with: their value after `acc`, how many, and what is left.
unfoldable pub read_digits : ℕ → ℕ → ℕ → List ℕ → ℕ × ℕ × List ℕ
read_digits base acc count [] = (acc, count, [])
read_digits base acc count (c ∷ cs) =
    let more = read_digits base (acc * base + digit_value c) (count + 1) cs in
    if ltb (digit_value c) base then more else (acc, count, c ∷ cs)

-- With base 0 a prefix tells the base: `0x` where a digit follows, else `0`, else decimal.
unfoldable pub read_number : Bool → List ℕ → ℕ × ℕ × List ℕ
read_number detect (c ∷ x ∷ d ∷ cs) =
    if detect && c == b'0'
    then (if (x == b'x' || x == b'X') && ltb (digit_value d) 16
        then read_digits 16 0 0 (d ∷ cs)
        else read_digits 8 0 0 (c ∷ x ∷ d ∷ cs))
    else read_digits 10 0 0 (c ∷ x ∷ d ∷ cs)
read_number detect (c ∷ cs) = read_digits (if detect && c == b'0' then 8 else 10) 0 0 (c ∷ cs)
read_number detect [] = (0, 0, [])

-- What was read: the sign, the magnitude, and whether the text was used up.
pub record Reading : Type 0 where
  pub negative : Bool
  pub magnitude : ℕ
  pub complete : Bool

abbrev is_empty : List ℕ → Bool
is_empty [] = true
is_empty (c ∷ cs) = false

-- `none` where there is no digit, on which the library throws `invalid_argument`.
unfoldable pub read_integer : Bool → List ℕ → Option Reading
read_integer detect text =
    let (negative, unsigned_text) = read_sign (skip_space text) in
    let (magnitude, count, rest) = read_number detect unsigned_text in
    if count == 0
    then none
    else some (record { negative = negative; magnitude = magnitude; complete = is_empty rest })

abbrev no_conversion : Exception
no_conversion = invalid_argument "no conversion"

abbrev not_representable : Exception
not_representable = out_of_range "out of range"

abbrev signed_value : Reading → ℤ
signed_value r =
    if r.negative && not (r.magnitude == 0) then negsuc (r.magnitude - 1) else pos r.magnitude

-- `stoi` and `stoll`: a value outside `-limit .. limit - 1` is out of range.
unfoldable pub to_signed : ℕ → Option Reading → Result ℤ
to_signed limit none = throws no_conversion
to_signed limit (some r) =
    if ltb (if r.negative then limit else limit - 1) r.magnitude
    then throws not_representable
    else ok (signed_value r)

-- `stoul` and `stoull`: a value with a minus sign is negated in the unsigned type.
unfoldable pub to_unsigned : Option Reading → Result ℕ
to_unsigned none = throws no_conversion
to_unsigned (some r) =
    if ltb (2 ^ 64 - 1) r.magnitude
    then throws not_representable
    else ok (if r.negative then (2 ^ 64 - r.magnitude) % 2 ^ 64 else r.magnitude)

abbrev pub is_complete : Option Reading → Bool
is_complete none = false
is_complete (some r) = r.complete

unfoldable pub parse_int : List ℕ → Result ℤ
unfolding to_signed
parse_int text = do
  value ← to_signed (2 ^ 31) (read_integer false text)
  throw_if (not (is_complete (read_integer false text))) (invalid_argument "invalid integer")
  ok value

unfoldable pub parse_long_long : List ℕ → Result ℤ
unfolding to_signed
parse_long_long text = do
  value ← to_signed (2 ^ 63) (read_integer false text)
  throw_if (not (is_complete (read_integer false text))) (invalid_argument "invalid integer")
  ok value

unfoldable pub parse_uint32 : List ℕ → Result ℕ
unfolding to_unsigned
parse_uint32 text = do
  value ← to_unsigned (read_integer true text)
  throw_if (not (is_complete (read_integer true text)) || ltb (2 ^ 32 - 1) value)
      (invalid_argument "invalid unsigned integer")
  ok (value % 2 ^ 32)

abbrev begins_with_minus : List ℕ → Bool
begins_with_minus [] = false
begins_with_minus (c ∷ cs) = c == b'-'

unfoldable pub parse_uint64 : List ℕ → Result ℕ
unfolding to_unsigned
parse_uint64 text = do
  throw_if (begins_with_minus text) (invalid_argument "invalid unsigned integer")
  value ← to_unsigned (read_integer true text)
  throw_if (not (is_complete (read_integer true text)))
      (invalid_argument "invalid unsigned integer")
  ok value
