-- ===== src/Bag/Encode/Layout.antt =====
-- The headers of src/rosbag_v2_writer.cpp against the layout that the bag format describes.
use mrp_robo_baton_4p_no_ros.Base.{
  ℕ, ◌+◌, ◌^◌, ◌≤◌, ◌<◌, ◌≡◌, ◌≢◌, refl, sym, ap, ◌∙◌, List, [], ◌∷◌, ◌++◌, append_assoc,
  append-nil, length, All, length-append, arith,
}
use mrp_robo_baton_4p_no_ros.Base.Bytes.{le_bytes}
use mrp_robo_baton_4p_no_ros.Base.Errors.{length_error, ok, throws, >>=-eq-ok}
use mrp_robo_baton_4p_no_ros.Bag.Encode.{
  HeaderField, append_serialized_header_field, append_fields, patch_serialized_header_length,
  finish_serialized_header, serialize_header, serialize_record_header, start_serialized_header,
  to_uint32,
}

-- A field as the bag format describes it: the length of the rest, the name, `=`, the value.
abbrev pub field_content : HeaderField → List ℕ
field_content f = f.name ++ b'=' ∷ f.value

abbrev pub field_layout : HeaderField → List ℕ
field_layout f = le_bytes 4 (length (field_content f)) ++ field_content f

abbrev pub fields_layout : List HeaderField → List ℕ
fields_layout [] = []
fields_layout (f ∷ fs) = field_layout f ++ fields_layout fs

abbrev pub header_layout : List HeaderField → List ℕ
header_layout fs = le_bytes 4 (length (fields_layout fs)) ++ fields_layout fs

-- What a field needs to be written.
abbrev pub Fits : HeaderField → Type 0
Fits f = (f.name ≢ []) × (length (field_content f) < 2 ^ 32)

length-field_content :
    (f : HeaderField) → length (field_content f) ≡ length f.name + 1 + length f.value
length-field_content f = omega (arith, length-append f.name (b'=' ∷ f.value))

field_bytes :
    (out : List ℕ) (f : HeaderField) (n : ℕ)
    → n ≡ length (field_content f)
    → out ++ le_bytes 4 n ++ f.name ++ le_bytes 1 b'=' ++ f.value ≡ out ++ field_layout f
unfolding le_bytes
field_bytes out f n e = rw e (simp append_assoc)

append_field_writes :
    (out : List ℕ) (f : HeaderField)
    → Fits f
    → append_serialized_header_field out f ≡ ok (out ++ field_layout f)
unfolding append_serialized_header_field
append_field_writes out f h = ground (
  arith,
  length-field_content f,
  field_bytes out f (to_uint32 (length f.name + 1 + length f.value))
      (omega (arith, length-field_content f, h.1)),
)

append_field-Fits :
    (out : List ℕ) (f : HeaderField) {h : List ℕ}
    → append_serialized_header_field out f ≡ ok h
    → Fits f
unfolding append_serialized_header_field
append_field-Fits out f e = (ground arith, ground (arith, length-field_content f))

append_field_eq_ok :
    (out : List ℕ) (f : HeaderField) {h : List ℕ}
    → append_serialized_header_field out f ≡ ok h
    → Fits f × (h ≡ out ++ field_layout f)
append_field_eq_ok out f e =
    let fits = append_field-Fits out f e in (fits, ground (arith, append_field_writes out f fits))

append_fields_eq_ok :
    (out : List ℕ) (fs : List HeaderField) {h : List ℕ}
    → append_fields out fs ≡ ok h
    → All Fits fs × (h ≡ out ++ fields_layout fs)
unfolding append_fields
append_fields_eq_ok out [] e = (tt, ground (arith, append-nil out))
append_fields_eq_ok out (f ∷ fs) e =
    let (out', first, rest) = >>=-eq-ok (append_serialized_header_field out f) _ e in
    let (fits, eq) = append_field_eq_ok out f first in
    let (all, eq') = append_fields_eq_ok out' fs rest in
    ((fits, all), eq' ∙ rw eq (append_assoc out (field_layout f) (fields_layout fs)))

append_fields_fit :
    (out : List ℕ) (fs : List HeaderField)
    → All Fits fs
    → append_fields out fs ≡ ok (out ++ fields_layout fs)
unfolding append_fields
append_fields_fit out [] h = ap ok (sym (append-nil out))
append_fields_fit out (f ∷ fs) h = rw (append_field_writes out f h.0) (
    append_fields_fit (out ++ field_layout f) fs h.1
    ∙ ap ok (append_assoc out (field_layout f) (fields_layout fs)))

-- The placeholder is overwritten by the length of what follows it.
patch_lem :
    (body : List ℕ)
    → length body < 2 ^ 32
    → patch_serialized_header_length (start_serialized_header ++ body)
      ≡ ok (le_bytes 4 (length body) ++ body)
unfolding patch_serialized_header_length start_serialized_header le_bytes
patch_lem body h = ground arith

patch_too_long :
    (body : List ℕ)
    → 2 ^ 32 ≤ length body
    → length body < 2 ^ 63
    → patch_serialized_header_length (start_serialized_header ++ body)
      ≡ throws (length_error "rosbag header too large")
unfolding patch_serialized_header_length start_serialized_header le_bytes
patch_too_long body h k = ground arith

-- Where every field has a name and fits 32 bits, and so does the whole header, the fields are written
-- as the format lays them out, behind the length of them all.
pub serialize_header-Fits :
    (fs : List HeaderField)
    → All Fits fs
    → length (fields_layout fs) < 2 ^ 32
    → serialize_header fs ≡ ok (header_layout fs)
unfolding serialize_header
serialize_header-Fits fs h k =
    rw (append_fields_fit start_serialized_header fs h) (patch_lem (fields_layout fs) k)

-- Where all fields fit, and the header of a record does, it is written as the format lays it out, with
-- the length of the record's data behind it.
pub serialize_record_header-Fits :
    (fs : List HeaderField) (n : ℕ)
    → All Fits fs
    → length (fields_layout fs) < 2 ^ 32
    → serialize_record_header fs n ≡ ok (header_layout fs ++ le_bytes 4 n)
unfolding serialize_record_header finish_serialized_header
serialize_record_header-Fits fs n h k =
    rw (append_fields_fit start_serialized_header fs h, patch_lem (fields_layout fs) k) refl

pub serialize_header_eq_ok :
    (fs : List HeaderField) {h : List ℕ}
    → length (fields_layout fs) < 2 ^ 63
    → serialize_header fs ≡ ok h
    → All Fits fs × (length (fields_layout fs) < 2 ^ 32) × (h ≡ header_layout fs)
unfolding serialize_header
serialize_header_eq_ok fs k e =
    let (out, first, rest) = >>=-eq-ok (append_fields start_serialized_header fs) _ e in
    let (fits, eq) = append_fields_eq_ok start_serialized_header fs first in
    let small : length (fields_layout fs) < 2 ^ 32 =
      ground (arith, patch_too_long (fields_layout fs)) in
    (fits, small, ground (arith, patch_lem (fields_layout fs) small))
