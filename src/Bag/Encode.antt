-- ===== src/Bag/Encode.antt =====
-- src/rosbag_v2_writer.cpp: how words, texts, times and record headers are laid out as bytes. A
-- vector of bytes is a list. A list is no pointer, so the tests for null are not there, and memory is
-- not bounded, so neither is the test against `max_size`.
pub mod Layout
pub mod RoundTrip
use mrp_robo_baton_4p_no_ros.Base.{
  ℕ, ◌+◌, ◌-◌, ◌*◌, ◌/◌, ◌%◌, ◌^◌, Bool, true, false, List, [], ◌∷◌, ◌++◌, length, drop, ltb,
  if◌then◌else◌,
}
use mrp_robo_baton_4p_no_ros.Base.Bytes.{le_bytes}
use mrp_robo_baton_4p_no_ros.Base.Errors.{
  Exception, invalid_argument, length_error, Result, ok, throws, ◌>>=◌, ◌>>◌, throw_if,
}

abbrev pub uint32_max : ℕ
uint32_max = 2 ^ 32 - 1

-- A conversion to `uint32_t`.
abbrev pub to_uint32 : ℕ → ℕ
to_uint32 n = n % 2 ^ 32

-- ROS1 wire time.
pub record RosbagTime : Type 0 where
  pub sec : ℕ
  pub nsec : ℕ

abbrev pub nanoseconds_per_second : ℕ
nanoseconds_per_second = 1_000_000_000

unfoldable pub rosbag_time_from_ns : ℕ → RosbagTime
rosbag_time_from_ns timestamp_ns = record {
  sec = to_uint32 (timestamp_ns / nanoseconds_per_second);
  nsec = to_uint32 (timestamp_ns % nanoseconds_per_second);
}

unfoldable pub append_bytes : List ℕ → List ℕ → List ℕ
append_bytes out bytes = out ++ bytes

unfoldable pub append_u8 : List ℕ → ℕ → List ℕ
unfolding append_bytes
append_u8 out value = append_bytes out (le_bytes 1 value)

unfoldable pub append_bool : List ℕ → Bool → List ℕ
unfolding append_bytes
append_bool out value = append_bytes out (le_bytes 1 (if value then 1 else 0))

unfoldable pub append_u32 : List ℕ → ℕ → List ℕ
unfolding append_bytes
append_u32 out value = append_bytes out (le_bytes 4 value)

unfoldable pub append_u64 : List ℕ → ℕ → List ℕ
unfolding append_bytes
append_u64 out value = append_bytes out (le_bytes 8 value)

-- A `double` is its bit pattern.
unfoldable pub append_f64 : List ℕ → ℕ → List ℕ
unfolding append_bytes
append_f64 out pattern_bits = append_bytes out (le_bytes 8 pattern_bits)

unfoldable pub append_ros_time : List ℕ → RosbagTime → List ℕ
unfolding append_u32
append_ros_time out value = append_u32 (append_u32 out value.sec) value.nsec

unfoldable pub append_ros_string : List ℕ → List ℕ → Result (List ℕ)
unfolding append_u32
append_ros_string out value =
    if ltb uint32_max (length value)
    then throws (length_error "ROS string too large")
    else ok (append_bytes (append_u32 out (to_uint32 (length value))) value)

pub record HeaderField : Type 0 where
  pub name : List ℕ
  pub value : List ℕ

abbrev pub field_u8 : List ℕ → ℕ → HeaderField
field_u8 name value = record { name = name; value = le_bytes 1 value }

abbrev pub field_u32 : List ℕ → ℕ → HeaderField
field_u32 name value = record { name = name; value = le_bytes 4 value }

abbrev pub field_u64 : List ℕ → ℕ → HeaderField
field_u64 name value = record { name = name; value = le_bytes 8 value }

abbrev pub field_time : List ℕ → RosbagTime → HeaderField
field_time name value = record {
  name = name;
  value = le_bytes 4 value.sec ++ le_bytes 4 value.nsec;
}

abbrev pub field_string : List ℕ → List ℕ → HeaderField
field_string name value = record { name = name; value = value }

unfoldable pub start_serialized_header : List ℕ
unfolding append_u32
start_serialized_header = append_u32 [] 0

abbrev is_empty : List ℕ → Bool
is_empty [] = true
is_empty (x ∷ xs) = false

unfoldable pub append_serialized_header_field : List ℕ → HeaderField → Result (List ℕ)
unfolding append_u32 append_u8
append_serialized_header_field out field =
    let field_size = length field.name + 1 + length field.value in
    do
      throw_if (is_empty field.name) (invalid_argument "empty rosbag header field name")
      throw_if (ltb uint32_max field_size) (length_error "rosbag header field too large")
      ok (
          append_bytes
            (append_u8 (append_bytes (append_u32 out (to_uint32 field_size)) field.name) b'=')
            field.value)

-- `out->size() - 4` is a `size_t`, which wraps below zero.
unfoldable pub patch_serialized_header_length : List ℕ → Result (List ℕ)
patch_serialized_header_length out =
    let header_size = (2 ^ 64 + length out - 4) % 2 ^ 64 in
    if ltb uint32_max header_size
    then throws (length_error "rosbag header too large")
    else ok (le_bytes 4 (to_uint32 header_size) ++ drop 4 out)

unfoldable pub finish_serialized_header : List ℕ → ℕ → Result (List ℕ)
unfolding append_u32
finish_serialized_header out data_length = do
  patched ← patch_serialized_header_length out
  ok (append_u32 patched data_length)

unfoldable pub append_fields : List ℕ → List HeaderField → Result (List ℕ)
append_fields out [] = ok out
append_fields out (field ∷ fields) = do
  out' ← append_serialized_header_field out field
  append_fields out' fields

-- The header bytes of `WriteHeader`, and of the records that are serialized field by field.
unfoldable pub serialize_header : List HeaderField → Result (List ℕ)
serialize_header fields = do
  out ← append_fields start_serialized_header fields
  patch_serialized_header_length out

-- The same, with the length of the data that follows.
unfoldable pub serialize_record_header : List HeaderField → ℕ → Result (List ℕ)
serialize_record_header fields data_length = do
  out ← append_fields start_serialized_header fields
  finish_serialized_header out data_length
