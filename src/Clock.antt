-- ===== src/Clock.antt =====
-- src/frozen_system_clock.h and src/frozen_system_clock.cpp: the offset between the realtime and
-- the raw monotonic clock, frozen at startup. An `int64_t` is an integer, a `uint64_t` a number.
pub mod Mapping
use mrp_robo_baton_4p_no_ros.Base.{
  ℕ, ◌+◌, ◌-◌, ◌*◌, ◌/◌, ◌^◌, Bool, true, false, ◌||◌, Option, none, some, ltb, leb, ◌==◌, not,
  if◌then◌else◌,
}
use mrp_robo_baton_4p_no_ros.Base.Int.{ℤ, pos, negsuc, pos_part, neg_part, ltb_ℤ, eqb_ℤ}
use mrp_robo_baton_4p_no_ros.Base.Errors.{
  Exception, invalid_argument, runtime_error, overflow_error, Result, ok, throws, ◌>>=◌, ◌>>◌,
  throw_if,
}

abbrev pub nanoseconds_per_second : ℕ
nanoseconds_per_second = 1_000_000_000

abbrev pub uint64_max : ℕ
uint64_max = 2 ^ 64 - 1

abbrev pub int64_max : ℕ
int64_max = 2 ^ 63 - 1

abbrev pub int64_min : ℤ
int64_min = negsuc int64_max

pub data FrozenClockId : Type 0 where
  realtime monotonic_raw : FrozenClockId

-- What `clock_gettime` answers: its return code and the timespec.
pub record ClockReply : Type 0 where
  pub rc : ℤ
  pub tv_sec : ℤ
  pub tv_nsec : ℤ

-- `none` is the return value -1; `some` is 0 with the time stored through the pointer.
unfoldable pub read_system_clock : (FrozenClockId → ClockReply) → FrozenClockId → Bool → Option ℕ
read_system_clock clock_gettime clock_id out_is_null =
    let value = clock_gettime clock_id in
    let seconds = pos_part value.tv_sec in
    let whole_seconds_ns = seconds * nanoseconds_per_second in
    let subsecond_ns = pos_part value.tv_nsec in
    if out_is_null
    then none
    else if not (eqb_ℤ value.rc (pos 0))
        || ltb_ℤ value.tv_sec (pos 0)
        || ltb_ℤ value.tv_nsec (pos 0)
        || not (ltb_ℤ value.tv_nsec (pos nanoseconds_per_second))
    then none
    else if ltb (uint64_max / nanoseconds_per_second) seconds
    then none
    else if ltb (uint64_max - subsecond_ns) whole_seconds_ns
    then none
    else some (whole_seconds_ns + subsecond_ns)

pub record Snapshot : Type 0 where
  pub realtime_start_ns : ℕ
  pub monotonic_raw_start_ns : ℕ
  pub frozen_offset_ns : ℤ

-- The magnitude of a negative offset; `int64_min` has no positive counterpart.
unfoldable pub negative_offset_magnitude : ℤ → ℕ
negative_offset_magnitude offset_ns =
    let max_positive = int64_max in
    if eqb_ℤ offset_ns int64_min then max_positive + 1 else neg_part offset_ns

unfoldable pub map_raw_ns : Snapshot → ℕ → Result ℕ
map_raw_ns snapshot raw_timestamp_ns =
    let offset_ns = snapshot.frozen_offset_ns in
    let positive_offset = pos_part offset_ns in
    let negative_offset = negative_offset_magnitude offset_ns in
    if not (ltb_ℤ offset_ns (pos 0))
    then (if ltb (uint64_max - positive_offset) raw_timestamp_ns
        then throws (overflow_error "frozen system timestamp is outside uint64 range")
        else ok (raw_timestamp_ns + positive_offset))
    else (if ltb raw_timestamp_ns negative_offset
        then throws (overflow_error "frozen system timestamp is outside uint64 range")
        else ok (raw_timestamp_ns - negative_offset))

unfoldable pub checked_offset : ℕ → ℕ → Result ℤ
checked_offset realtime_ns monotonic_raw_ns =
    let positive_offset = realtime_ns - monotonic_raw_ns in
    let negative_offset = monotonic_raw_ns - realtime_ns in
    let max_negative_magnitude = int64_max + 1 in
    if leb monotonic_raw_ns realtime_ns
    then (if ltb int64_max positive_offset
        then throws (overflow_error "frozen realtime/raw offset is outside int64 range")
        else ok (pos positive_offset))
    else (if ltb max_negative_magnitude negative_offset
        then throws (overflow_error "frozen realtime/raw offset is outside int64 range")
        else if negative_offset == max_negative_magnitude
        then ok int64_min
        else ok (negsuc (negative_offset - 1)))

abbrev pub ClockReader : Type 0
ClockReader = FrozenClockId → Option ℕ

abbrev or_throw : Option ℕ → Exception → Result ℕ
or_throw none e = throws e
or_throw (some t) e = ok t

-- A reader is a function pointer, which may be null.
unfoldable pub capture : Option ClockReader → Result Snapshot
capture none = throws (invalid_argument "FrozenSystemClock reader is null")
capture (some reader) = do
  realtime_ns ← or_throw (reader realtime) (runtime_error "CLOCK_REALTIME read failed")
  raw_ns ← or_throw (reader monotonic_raw) (runtime_error "CLOCK_MONOTONIC_RAW read failed")
  offset ← checked_offset realtime_ns raw_ns
  ok (record {
    realtime_start_ns = realtime_ns;
    monotonic_raw_start_ns = raw_ns;
    frozen_offset_ns = offset;
  })
