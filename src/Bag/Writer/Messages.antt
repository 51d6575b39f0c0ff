-- ===== src/Bag/Writer/Messages.antt =====
-- src/rosbag_v2_writer.cpp: `AddConnection`, `WriteMessage` and what they call.
use mrp_robo_baton_4p_no_ros.Base.{
  ℕ, ◌+◌, ◌-◌, ◌%◌, ◌^◌, Bool, true, false, ◌&&◌, ◌||◌, not, List, [], ◌∷◌, ◌++◌, length, set,
  get_or, ltb, ◌==◌, bytes_eq, if◌then◌else◌,
}
use mrp_robo_baton_4p_no_ros.Base.Bytes.{codes}
use mrp_robo_baton_4p_no_ros.Base.Errors.{
  invalid_argument, length_error, logic_error, runtime_error, Result, ok, throws,
}
use mrp_robo_baton_4p_no_ros.Bag.Encode.{
  RosbagTime, HeaderField, field_u8, field_u32, field_time, serialize_record_header, uint32_max,
  to_uint32,
}
use mrp_robo_baton_4p_no_ros.Bag.Meter.{
  chunk_write, record_write, record_record_header_write_stats, record_record_payload_write_stats,
  publish_pending_stats, maybe_publish_pending_stats, observe_writer_latency, Meter,
}
use mrp_robo_baton_4p_no_ros.Bag.Output.{
  M, pure, lift_result, ◌>>=◌, ◌>>◌, steady_now_ns, on_meter, ensure_open, write_raw_buffers,
}
use mrp_robo_baton_4p_no_ros.Bag.Writer.{
  Writer, Connection, IndexEntry, ChunkInfo, on_io, modify, when, throw_when, elapsed,
  observe_since, time_before, chunk_age_limit_reached, normalize_message_time, op_msg_data,
  chunk_threshold_bytes,
}
use mrp_robo_baton_4p_no_ros.Bag.Writer.Chunks.{start_chunk, stop_chunk}

abbrev pub starts_with : List ℕ → List ℕ → Bool
starts_with [] text = true
starts_with (p ∷ ps) [] = false
starts_with (p ∷ ps) (c ∷ cs) = p == c && starts_with ps cs

-- `text.find(part) != npos`
abbrev pub contains : List ℕ → List ℕ → Bool
contains part [] = starts_with part []
contains part (c ∷ cs) = starts_with part (c ∷ cs) || contains part cs

unfoldable pub index_reserve_for_connection : List ℕ → List ℕ → ℕ
index_reserve_for_connection topic datatype =
    if bytes_eq datatype (codes "sensor_msgs/Imu") || bytes_eq topic (codes "/imu/data")
    then 1200
    else if bytes_eq datatype (codes "sensor_msgs/CompressedImage")
        || contains (codes "/image/") topic
        || contains (codes "frame_metadata") topic
    then 64
    else 8

abbrev pub is_absolute : List ℕ → Bool
is_absolute [] = false
is_absolute (c ∷ cs) = c == b'/'

abbrev pub is_empty : List ℕ → Bool
is_empty [] = true
is_empty (c ∷ cs) = false

abbrev pub has_topic : List ℕ → List Connection → Bool
has_topic topic [] = false
has_topic topic (c ∷ cs) = bytes_eq c.topic topic || has_topic topic cs

-- The connection takes its position as its id.
abbrev pub new_connection : List ℕ → List ℕ → List ℕ → List ℕ → List Connection → Connection
new_connection topic datatype md5sum message_definition connections = record {
  id = to_uint32 (length connections);
  topic = topic;
  datatype = datatype;
  md5sum = md5sum;
  message_definition = message_definition;
}

abbrev pub push_connection : Connection → ℕ → Writer → Writer
push_connection connection reserve w = record w {
  connections = w.connections ++ connection ∷ [];
  connection_index_reserves = w.connection_index_reserves ++ reserve ∷ [];
}

-- `topic.empty() || topic.front() != '/'` is one test here: no empty text is absolute.
unfoldable pub add_connection : List ℕ → List ℕ → List ℕ → List ℕ → M Writer ℕ
add_connection topic datatype md5sum message_definition w =
    let connection = new_connection topic datatype md5sum message_definition w.connections in
    (do
      on_io ensure_open
      throw_when w.chunk_is_open (logic_error "connections must be added before messages")
      throw_when (not (is_absolute topic) || is_empty datatype || not (length md5sum == 32))
          (invalid_argument "invalid rosbag connection metadata")
      throw_when (has_topic topic w.connections) (invalid_argument "duplicate rosbag topic")
      modify (push_connection connection (index_reserve_for_connection topic datatype))
      pure connection.id)
      w

-- The offset of the next record in the data of the chunk.
unfoldable pub current_chunk_offset : M Writer ℕ
current_chunk_offset w =
    let current_pos = w.io.logical_offset in
    let offset = current_pos - w.current_chunk_data_pos in
    (do
      throw_when (ltb current_pos w.current_chunk_data_pos)
          (runtime_error "bag write cursor moved before chunk start")
      throw_when (ltb uint32_max offset) (length_error "rosbag chunk offset too large")
      pure (to_uint32 offset))
      w

-- `CurrentChunkIndex(connection_id).push_back(index)`
unfoldable pub push_index : ℕ → IndexEntry → M Writer (Unit {0})
push_index connection_id entry w =
    (do
      throw_when (not (ltb connection_id (length w.current_chunk_indexes)))
          (invalid_argument "unknown rosbag connection id")
      modify (λ u. record u {
        current_chunk_indexes =
            set u.current_chunk_indexes connection_id
              (get_or u.current_chunk_indexes connection_id [] ++ entry ∷ []);
      }))
      w

unfoldable pub count_message : ℕ → Writer → Writer
count_message connection_id w = record w {
  current_chunk = record current_chunk {
    connection_counts =
        set current_chunk.connection_counts connection_id
          (to_uint32 (get_or current_chunk.connection_counts connection_id 0 + 1));
  };
}
  where
    open w use {current_chunk}

abbrev pub message_fields : ℕ → RosbagTime → List HeaderField
message_fields connection_id time =
    field_u8 (codes "op") op_msg_data
    ∷ field_u32 (codes "conn") connection_id
    ∷ field_time (codes "time") time
    ∷ []

-- The size that it returns is used by nobody.
unfoldable pub write_message_record : ℕ → RosbagTime → List ℕ → M Writer (Unit {0})
write_message_record connection_id time payload = do
  header_start_ns ← on_io steady_now_ns
  header ←
      lift_result
        (serialize_record_header (message_fields connection_id time) (to_uint32 (length payload)))
  write_start_ns ← on_io steady_now_ns
  on_io (write_raw_buffers (header ∷ payload ∷ []))
  write_finish_ns ← on_io steady_now_ns
  on_io (
      on_meter (
        record_record_header_write_stats (elapsed header_start_ns write_finish_ns) (length header)))
  on_io (
      on_meter (
        record_record_payload_write_stats (elapsed write_start_ns write_finish_ns)
          (length payload)))

-- The time range of the chunk grows to hold the record.
unfoldable pub widen_chunk_times : RosbagTime → ChunkInfo → ChunkInfo
widen_chunk_times time chunk =
    if time_before chunk.end_time time
    then record chunk { end_time = time }
    else if time_before time chunk.start_time
    then record chunk { start_time = time }
    else chunk

unfoldable pub stop_chunk_if_full : M Writer (Unit {0})
stop_chunk_if_full = do
  chunk_offset_after_record ← current_chunk_offset
  λ w.
      when
        (ltb chunk_threshold_bytes chunk_offset_after_record
          || chunk_age_limit_reached w.current_chunk.start_time w.current_chunk.end_time)
        stop_chunk w

unfoldable pub write_timed_record : ℕ → RosbagTime → List ℕ → M Writer (Unit {0})
write_timed_record connection_id record_time payload = do
  chunk_write_start_ns ← on_io steady_now_ns
  write_message_record connection_id record_time payload
  observe_since chunk_write chunk_write_start_ns

-- The message behind its checks: its index entry, its count, its record, and the chunk's times.
unfoldable pub append_message : ℕ → RosbagTime → List ℕ → M Writer (Unit {0})
append_message connection_id record_time payload = do
  offset ← current_chunk_offset
  push_index connection_id (record { time = record_time; offset = offset })
  modify (count_message connection_id)
  write_timed_record connection_id record_time payload
  modify (λ w. record w { current_chunk = widen_chunk_times record_time w.current_chunk })

unfoldable pub write_in_chunk : ℕ → RosbagTime → List ℕ → M Writer (Unit {0})
write_in_chunk connection_id record_time payload = do
  append_message connection_id record_time payload
  stop_chunk_if_full

unfoldable pub normalized : RosbagTime → M Writer RosbagTime
normalized time w = let (t, w') = normalize_message_time time w in (ok t, w')

unfoldable pub start_chunk_if_closed : RosbagTime → M Writer (Unit {0})
start_chunk_if_closed time w = when (not w.chunk_is_open) (start_chunk time) w

abbrev count_record : Meter → Meter
count_record m = record m {
  pending_stats_record_count = (m.pending_stats_record_count + 1) % 2 ^ 64;
}

unfoldable pub write_message_body : ℕ → RosbagTime → List ℕ → M Writer (Unit {0})
write_message_body connection_id time payload = do
  record_start_ns ← on_io steady_now_ns
  on_io ensure_open
  λ w.
      throw_when (not (ltb connection_id (length w.connections)))
        (invalid_argument "unknown rosbag connection id") w
  throw_when (ltb uint32_max (length payload)) (length_error "rosbag message payload too large")
  record_time ← normalized time
  start_chunk_if_closed record_time
  write_in_chunk connection_id record_time payload
  record_finish_ns ← on_io steady_now_ns
  on_io (on_meter (observe_writer_latency record_write (elapsed record_start_ns record_finish_ns)))
  on_io (on_meter count_record)
  on_io (on_meter (maybe_publish_pending_stats record_finish_ns))

-- `PublishPendingStats()`, which reads the clock itself.
unfoldable pub publish_now : M Writer (Unit {0})
publish_now = do
  publish_ns ← on_io steady_now_ns
  on_io (on_meter (publish_pending_stats publish_ns))

-- The handler publishes the statistics and throws on.
unfoldable pub publish_on_throw : {A : Type 0} → Result A × Writer → Result A × Writer
publish_on_throw (ok a, w) = (ok a, w)
publish_on_throw (throws e, w) = (throws e, (publish_now w).1)

unfoldable pub write_message : ℕ → RosbagTime → List ℕ → M Writer (Unit {0})
write_message connection_id time payload w =
    publish_on_throw (write_message_body connection_id time payload w)
