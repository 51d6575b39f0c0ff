-- ===== src/Bag/Encode/RoundTrip.antt =====
-- Reading back the record headers that the writer lays out.
use mrp_robo_baton_4p_no_ros.Base.{
  ℕ, zero, suc, ◌^◌, ◌≤◌, ◌<◌, ◌≡◌, ◌≢◌, refl, Option, none, some, List, [], ◌∷◌, ◌++◌,
  append_assoc, length, take, drop, All, length-append, take-length-append, drop-length-append, ltb,
  ◌==◌, if◌then◌else◌, arith,
}
use mathlib.Core.Option
use mrp_robo_baton_4p_no_ros.Base.Bytes.{
  le_bytes, le_value, le_value-le_bytes, take-le_bytes, drop-le_bytes,
}
use mrp_robo_baton_4p_no_ros.Base.Errors.{ok}
use mrp_robo_baton_4p_no_ros.Bag.Encode.{HeaderField, serialize_header}
use mrp_robo_baton_4p_no_ros.Bag.Encode.Layout.{
  field_content, fields_layout, Fits, serialize_header_eq_ok,
}

-- A reader of the bag format, written from the format alone.
split_field : List ℕ → Option (List ℕ × List ℕ)
split_field [] = none
split_field (c ∷ cs) =
    if c == b'='
    then some ([], cs)
    else elim (split_field cs) [ none ↦ none | some (n, v) ↦ some (c ∷ n, v) ]

-- A block behind its length.
pub read_block : List ℕ → Option (List ℕ × List ℕ)
read_block bs =
    let size = le_value (take 4 bs) in
    let body = drop 4 bs in
    if ltb (length body) size then none else some (take size body, drop size body)

parse_fields : ℕ → List ℕ → Option (List HeaderField)
parse_fields fuel [] = some []
parse_fields zero (b ∷ bs) = none
parse_fields (suc fuel) (b ∷ bs) = elim (read_block (b ∷ bs)) [
  | none ↦ none
  | some (content, more) ↦ elim (split_field content) [
    | none ↦ none
    | some (n, v) ↦ Option.map (λ fs. record { name = n; value = v } ∷ fs) (parse_fields fuel more)
  ]
]

-- The fields of the header that the bytes begin with, and the bytes behind it. A field takes a byte
-- at least, so the fuel does.
pub parse_header : List ℕ → Option (List HeaderField × List ℕ)
parse_header bs = elim (read_block bs) [
  | none ↦ none
  | some (block, more) ↦ Option.map (λ fs. (fs, more)) (parse_fields (length block) block)
]

-- A name has no `=`, as the format demands of it.
abbrev pub IsFieldName : List ℕ → Type 0
IsFieldName [] = Unit {0}
IsFieldName (c ∷ cs) = (c ≢ b'=') × IsFieldName cs

split_field-content : (n v : List ℕ) → IsFieldName n → split_field (n ++ b'=' ∷ v) ≡ some (n, v)
unfolding split_field
split_field-content [] v h = refl
split_field-content (c ∷ cs) v h = ground (arith, split_field-content cs v h.1)

pub read_block-append :
    (block rest : List ℕ)
    → length block < 2 ^ 32
    → read_block ((le_bytes 4 (length block) ++ block) ++ rest) ≡ some (block, rest)
unfolding read_block
read_block-append block rest h =
    rw
      (
        append_assoc (le_bytes 4 (length block)) block rest,
        take-le_bytes 4 (length block) (block ++ rest),
        drop-le_bytes 4 (length block) (block ++ rest),
        le_value-le_bytes 4 (length block) h,
      )
      (ground (
        arith,
        length-append block rest,
        take-length-append block rest,
        drop-length-append block rest,
      ))

parse_fields-layout :
    (fuel : ℕ) (fs : List HeaderField)
    → All Fits fs
    → All (λ f. IsFieldName f.name) fs
    → length (fields_layout fs) ≤ fuel
    → parse_fields fuel (fields_layout fs) ≡ some fs
unfolding parse_fields le_bytes
parse_fields-layout fuel [] h n k = refl
parse_fields-layout zero (f ∷ fs) h n k = absurd (omega arith)
parse_fields-layout (suc fuel) (f ∷ fs) h n k =
    let ih =
      parse_fields-layout fuel fs h.1 n.1
        (omega (arith, length-append (field_content f) (fields_layout fs))) in
    ground (
      arith,
      ih,
      read_block-append (field_content f) (fields_layout fs) h.0.1,
      split_field-content f.name f.value n.0,
    )

-- Whatever header the writer produces reads back as its fields, from the front of any longer text.
pub parse_header-serialize_header :
    (fs : List HeaderField) (h rest : List ℕ)
    → All (λ f. IsFieldName f.name) fs
    → length (fields_layout fs) < 2 ^ 63
    → serialize_header fs ≡ ok h
    → parse_header (h ++ rest) ≡ some (fs, rest)
unfolding parse_header
parse_header-serialize_header fs h rest n k e =
    let (fits, small, eq) = serialize_header_eq_ok fs k e in
    ground (
      arith,
      read_block-append (fields_layout fs) rest small,
      parse_fields-layout (length (fields_layout fs)) fs fits n (omega arith),
    )
