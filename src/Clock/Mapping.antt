-- ===== src/Clock/Mapping.antt =====
-- The frozen clock maps a raw time by one exact integer offset.
use mrp_robo_baton_4p_no_ros.Base.{
  ℕ, ◌+◌, ◌*◌, ◌^◌, ◌<◌, ◌≡◌, ◌⊎◌, ◌↔◌, inl, inr, false, some, arith,
}
use mrp_robo_baton_4p_no_ros.Base.Int.{ℤ, pos, negsuc, pos_part, ◌≤ℤ◌, ◌+ℤ◌}
use mrp_robo_baton_4p_no_ros.Base.Errors.{overflow_error, ok, throws, Result-cases}
use mrp_robo_baton_4p_no_ros.Clock.{
  FrozenClockId, realtime, monotonic_raw, ClockReply, ClockReader, Snapshot, read_system_clock,
  negative_offset_magnitude, map_raw_ns, checked_offset, capture, int64_min, int64_max,
  nanoseconds_per_second,
}

-- A time is delivered exactly when the call worked, its timespec is normal and not negative, and the
-- nanoseconds fit 64 bits; it is then the timespec in nanoseconds.
pub read_system_clock_iff :
    (clock_gettime : FrozenClockId → ClockReply) (id : FrozenClockId) (t : ℕ)
    → (read_system_clock clock_gettime id false ≡ some t) ↔ (
        ((clock_gettime id).rc ≡ pos 0)
        × (pos 0 ≤ℤ (clock_gettime id).tv_sec)
        × (pos 0 ≤ℤ (clock_gettime id).tv_nsec)
        × (pos_part (clock_gettime id).tv_nsec < nanoseconds_per_second)
        × (t
            ≡ pos_part (clock_gettime id).tv_sec * nanoseconds_per_second
              + pos_part (clock_gettime id).tv_nsec)
        × (t < 2 ^ 64))
unfolding read_system_clock
read_system_clock_iff clock_gettime id t = (λ h. ground arith, λ h. ground arith)

abbrev pub IsInt64 : ℤ → Type 0
IsInt64 z = (int64_min ≤ℤ z) × (z ≤ℤ pos int64_max)

-- For an offset in the range of int64 the mapped time is the exact sum where that is a uint64, and
-- the mapping throws exactly where it is not.
pub map_raw_ns_exact :
    (s : Snapshot) (raw : ℕ)
    → IsInt64 s.frozen_offset_ns
    → raw < 2 ^ 64
    → ((t : ℕ) × (map_raw_ns s raw ≡ ok t) × (pos t ≡ pos raw +ℤ s.frozen_offset_ns) × (t < 2 ^ 64))
      ⊎ ((map_raw_ns s raw
            ≡ throws (overflow_error "frozen system timestamp is outside uint64 range"))
          × ((pos raw +ℤ s.frozen_offset_ns ≤ℤ negsuc 0)
              ⊎ (pos (2 ^ 64) ≤ℤ pos raw +ℤ s.frozen_offset_ns)))
unfolding map_raw_ns negative_offset_magnitude ◌+ℤ◌
map_raw_ns_exact s raw h r = elim (Result-cases (map_raw_ns s raw)) [
  | inl (t, e) ↦ inl (t, e, ground arith, ground arith)
  | inr (x, e) ↦ inr (ground arith, ground arith)
]

-- The offset that is kept is the exact difference of the two clocks, and only a difference outside
-- the range of int64 is refused.
pub checked_offset_exact :
    (realtime_ns raw_ns : ℕ)
    → ((z : ℤ) × (checked_offset realtime_ns raw_ns ≡ ok z)
        × (pos raw_ns +ℤ z ≡ pos realtime_ns)
        × IsInt64 z)
      ⊎ ((checked_offset realtime_ns raw_ns
            ≡ throws (overflow_error "frozen realtime/raw offset is outside int64 range"))
          × ((raw_ns + int64_max < realtime_ns) ⊎ (realtime_ns + int64_max + 1 < raw_ns)))
unfolding checked_offset ◌+ℤ◌
checked_offset_exact realtime_ns raw_ns = elim (Result-cases (checked_offset realtime_ns raw_ns)) [
  | inl (z, e) ↦ inl (z, e, ground arith, (ground arith, ground arith))
  | inr (x, e) ↦ inr (ground arith, ground arith)
]

-- A clock that was set up from two 64-bit readings maps the raw start time to the realtime start
-- time.
pub map_raw_ns-capture :
    (reader : ClockReader) (s : Snapshot) (realtime_ns raw_ns : ℕ)
    → reader realtime ≡ some realtime_ns
    → realtime_ns < 2 ^ 64
    → reader monotonic_raw ≡ some raw_ns
    → raw_ns < 2 ^ 64
    → capture (some reader) ≡ ok s
    → (s.monotonic_raw_start_ns ≡ raw_ns) × (map_raw_ns s raw_ns ≡ ok realtime_ns)
unfolding capture checked_offset map_raw_ns negative_offset_magnitude
map_raw_ns-capture reader s realtime_ns raw_ns p hp q hq e = ground arith

-- Two raw times that are both mapped keep their distance: a frozen clock neither drifts nor jumps.
pub map_raw_ns_distance :
    (s : Snapshot) (raw_a raw_b t_a t_b : ℕ)
    → IsInt64 s.frozen_offset_ns
    → map_raw_ns s raw_a ≡ ok t_a
    → map_raw_ns s raw_b ≡ ok t_b
    → t_a + raw_b ≡ t_b + raw_a
unfolding map_raw_ns negative_offset_magnitude
map_raw_ns_distance s raw_a raw_b t_a t_b h p q = ground arith
