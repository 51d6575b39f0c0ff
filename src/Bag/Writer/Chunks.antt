-- ===== src/Bag/Writer/Chunks.antt =====
-- src/rosbag_v2_writer.cpp: a chunk from its placeholder header to its index records.
use mrp_robo_baton_4p_no_ros.Base.{
  ℕ, ◌+◌, ◌*◌, ◌/◌, true, false, List, [], ◌∷◌, ◌++◌, length, replicate, ltb, if◌then◌else◌,
}
use mrp_robo_baton_4p_no_ros.Base.Bytes.{codes}
use mrp_robo_baton_4p_no_ros.Base.Errors.{length_error}
use mrp_robo_baton_4p_no_ros.Bag.Encode.{
  RosbagTime, HeaderField, field_u8, field_u32, serialize_record_header, append_u32, uint32_max,
  to_uint32,
}
use mrp_robo_baton_4p_no_ros.Bag.Meter.{chunk_open, chunk_header_patch, chunk_index, chunk_close}
use mrp_robo_baton_4p_no_ros.Bag.Output.{
  M, pure, lift_result, ◌>>=◌, ◌>>◌, steady_now_ns, flush_output_buffer, write_raw_buffers,
}
use mrp_robo_baton_4p_no_ros.Bag.Writer.{
  Writer, IndexEntry, no_chunk, on_io, modify, throw_when, observe_since, elapsed,
  write_chunk_header, patch_chunk_header, op_index_data,
}

abbrev empty_indexes : ℕ → List (List IndexEntry)
empty_indexes n = replicate n []

-- The state that `StartChunk` sets up before it writes.
unfoldable pub begin_chunk : RosbagTime → Writer → Writer
begin_chunk time w = record w {
  current_chunk = record {
    pos = w.io.logical_offset;
    start_time = time;
    end_time = time;
    connection_counts = replicate (length w.connections) 0;
  };
  current_chunk_pos = w.io.logical_offset;
  current_chunk_indexes = empty_indexes (length w.connections);
}

unfoldable pub mark_chunk_open : Writer → Writer
mark_chunk_open w = record w { current_chunk_data_pos = w.io.logical_offset; chunk_is_open = true }

unfoldable pub start_chunk : RosbagTime → M Writer (Unit {0})
start_chunk time = do
  start_ns ← on_io steady_now_ns
  modify (begin_chunk time)
  write_chunk_header 0 0
  on_io flush_output_buffer
  modify mark_chunk_open
  observe_since chunk_open start_ns

abbrev pub index_fields : ℕ → ℕ → List HeaderField
index_fields connection_id count =
    field_u8 (codes "op") op_index_data
    ∷ field_u32 (codes "conn") connection_id
    ∷ field_u32 (codes "ver") 1
    ∷ field_u32 (codes "count") count
    ∷ []

unfoldable pub index_payload : List ℕ → List IndexEntry → List ℕ
index_payload out [] = out
index_payload out (entry ∷ entries) =
    index_payload
      (append_u32 (append_u32 (append_u32 out entry.time.sec) entry.time.nsec) entry.offset) entries

-- The records of the connections from `connection_index` on; an empty index has none.
unfoldable pub write_index_record : ℕ → List IndexEntry → M Writer (Unit {0})
write_index_record connection_index [] =
    throw_when (ltb uint32_max connection_index) (length_error "rosbag connection id too large")
write_index_record connection_index (entry ∷ entries) =
    let index = entry ∷ entries in
    let count = to_uint32 (length index) in
    do
      throw_when (ltb uint32_max connection_index) (length_error "rosbag connection id too large")
      throw_when (ltb (uint32_max / 12) (length index))
          (length_error "rosbag index payload too large")
      header ← lift_result (
          serialize_record_header (index_fields (to_uint32 connection_index) count)
            (to_uint32 (count * 12)))
      on_io (write_raw_buffers (header ∷ index_payload [] index ∷ []))

unfoldable pub write_index_loop : ℕ → List (List IndexEntry) → M Writer (Unit {0})
write_index_loop connection_index [] = pure tt
write_index_loop connection_index (index ∷ indexes) = do
  write_index_record connection_index index
  write_index_loop (connection_index + 1) indexes

unfoldable pub write_index_records : M Writer (Unit {0})
write_index_records w = write_index_loop 0 w.current_chunk_indexes w

unfoldable pub record_chunk : Writer → Writer
record_chunk w = record w {
  chunks = w.chunks ++ w.current_chunk ∷ [];
  current_chunk_indexes = [];
  current_chunk = no_chunk;
  chunk_is_open = false;
}

-- The part of `StopChunk` for an open chunk.
unfoldable pub close_chunk : M Writer (Unit {0})
close_chunk w =
    let chunk_size = elapsed w.current_chunk_data_pos w.io.logical_offset in
    (do
      throw_when (ltb uint32_max chunk_size) (length_error "rosbag chunk too large")
      patch_start_ns ← on_io steady_now_ns
      patch_chunk_header (to_uint32 chunk_size) (to_uint32 chunk_size)
      observe_since chunk_header_patch patch_start_ns
      index_start_ns ← on_io steady_now_ns
      write_index_records
      observe_since chunk_index index_start_ns
      modify record_chunk)
      w

unfoldable pub stop_chunk : M Writer (Unit {0})
stop_chunk w = (if w.chunk_is_open then run else pure tt) w
  where
    run : M Writer (Unit {0})
    run = do
      close_start_ns ← on_io steady_now_ns
      close_chunk
      observe_since chunk_close close_start_ns
