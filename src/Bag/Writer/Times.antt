-- ===== src/Bag/Writer/Times.antt =====
-- How the times of messages move through the writer and its chunks.
use mrp_robo_baton_4p_no_ros.Base.{◌+◌, ◌≤◌, ◌<◌, ◌^◌, ◌≡◌, refl, ◌↔◌, true, false, arith, min, max}
use mrp_robo_baton_4p_no_ros.Bag.Encode.{RosbagTime, nanoseconds_per_second}
use mrp_robo_baton_4p_no_ros.Bag.Writer.{
  Writer, ChunkInfo, time_before, time_to_ns, chunk_age_limit_reached, normalize_message_time,
  max_chunk_age_ns,
}
use mrp_robo_baton_4p_no_ros.Bag.Writer.Messages.{widen_chunk_times}

-- The fields are 32 bits, and the nanoseconds less than a second.
abbrev pub IsTime : RosbagTime → Type 0
IsTime t = (t.sec < 2 ^ 32) × (t.nsec < nanoseconds_per_second)

-- On such times the code's order is that of the nanoseconds, which never wrap.
time_before_iff :
    (a b : RosbagTime)
    → IsTime a
    → IsTime b
    → (time_before a b ≡ true) ↔ (time_to_ns a < time_to_ns b)
unfolding time_to_ns
time_before_iff a b ta tb = ground arith

-- The time a message is recorded with is its own, or the last one if there is one and it is later: the
-- later of the two, never another. The writer then holds it as the last, and no message is recorded
-- before an earlier one.
pub normalize_message_time-IsMonotone :
    (time : RosbagTime) (w : Writer)
    → IsTime time
    → IsTime w.last_message_time
    → (t : RosbagTime) × (u : Writer) × (normalize_message_time time w ≡ (t, u))
      × (u.has_last_message_time ≡ true)
      × (u.last_message_time ≡ t)
      × IsTime t
      × (time_to_ns time ≤ time_to_ns t)
      × ((w.has_last_message_time ≡ true) → time_to_ns w.last_message_time ≤ time_to_ns t)
      × ((w.has_last_message_time ≡ false) → t ≡ time)
      × ((time_to_ns w.last_message_time ≤ time_to_ns time) → t ≡ time)
      × ((w.has_last_message_time ≡ true)
          → time_to_ns time < time_to_ns w.last_message_time
          → t ≡ w.last_message_time)
unfolding normalize_message_time time_to_ns
normalize_message_time-IsMonotone time w h h' = (
  (normalize_message_time time w).0,
  (normalize_message_time time w).1,
  refl,
  ground arith,
  ground arith,
  ground arith,
  ground arith,
  ground arith,
  λ none_yet. ground arith,
  λ later. ground arith,
  λ seen earlier. ground arith,
)

-- A chunk's range grows by the least that holds the record.
pub widen_chunk_times_lem :
    (time : RosbagTime) (chunk : ChunkInfo)
    → IsTime time
    → IsTime chunk.start_time
    → IsTime chunk.end_time
    → time_to_ns chunk.start_time ≤ time_to_ns chunk.end_time
    → (time_to_ns (widen_chunk_times time chunk).start_time
        ≡ min (time_to_ns time) (time_to_ns chunk.start_time))
      × (time_to_ns (widen_chunk_times time chunk).end_time
          ≡ max (time_to_ns time) (time_to_ns chunk.end_time))
unfolding widen_chunk_times time_to_ns
widen_chunk_times_lem time chunk t s e h = (ground arith, ground arith)

-- A chunk is closed for its age exactly when its range spans a second or more.
pub chunk_age_limit_reached_iff :
    (a b : RosbagTime)
    → IsTime a
    → IsTime b
    → (chunk_age_limit_reached a b ≡ true) ↔ (time_to_ns a + max_chunk_age_ns ≤ time_to_ns b)
unfolding chunk_age_limit_reached time_to_ns
chunk_age_limit_reached_iff a b ta tb = ground arith
