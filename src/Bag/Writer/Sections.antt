-- ===== src/Bag/Writer/Sections.antt =====
-- src/rosbag_v2_writer.cpp: the ends of a bag file, that is what `Open` writes first and the index
-- section that `Finish` writes last.
use mrp_robo_baton_4p_no_ros.Base.{
  ℕ, zero, suc, ◌+◌, ◌*◌, List, [], ◌∷◌, ◌++◌, ltb, ◌==◌, if◌then◌else◌,
}
use mrp_robo_baton_4p_no_ros.Base.Bytes.{codes}
use mrp_robo_baton_4p_no_ros.Base.Errors.{length_error}
use mrp_robo_baton_4p_no_ros.Bag.Encode.{
  HeaderField, field_u8, field_u32, field_u64, field_time, field_string, uint32_max, to_uint32,
}
use mrp_robo_baton_4p_no_ros.Bag.Output.{M, pure, ◌>>◌, flush_output_buffer, write_raw, write_u32}
use mrp_robo_baton_4p_no_ros.Bag.Writer.{
  Writer, Connection, ChunkInfo, on_io, modify, throw_when, write_header, write_file_header_record,
  patch_file_header_record, op_connection, op_chunk_info,
}
use mrp_robo_baton_4p_no_ros.Bag.Writer.Chunks.{stop_chunk}

-- The magic line, and the line feed behind it.
abbrev pub version_line : List ℕ
version_line = codes "#ROSBAG V2.0" ++ 10 ∷ []

unfoldable pub write_preamble : M Writer (Unit {0})
write_preamble = do
  on_io (write_raw version_line)
  modify (λ w. record w { file_header_pos = w.io.logical_offset })
  write_file_header_record
  on_io flush_output_buffer

abbrev pub connection_fields : Connection → List HeaderField
connection_fields connection =
    field_u8 (codes "op") op_connection
    ∷ field_string (codes "topic") connection.topic
    ∷ field_u32 (codes "conn") connection.id
    ∷ []

abbrev pub connection_data_fields : Connection → List HeaderField
connection_data_fields connection =
    field_string (codes "type") connection.datatype
    ∷ field_string (codes "md5sum") connection.md5sum
    ∷ field_string (codes "message_definition") connection.message_definition
    ∷ []

unfoldable pub write_connection_record : Connection → M Writer (Unit {0})
write_connection_record connection = do
  write_header (connection_fields connection)
  write_header (connection_data_fields connection)

unfoldable pub write_connection_loop : List Connection → M Writer (Unit {0})
write_connection_loop [] = pure tt
write_connection_loop (connection ∷ connections) = do
  write_connection_record connection
  write_connection_loop connections

unfoldable pub write_connection_records : M Writer (Unit {0})
write_connection_records w = write_connection_loop w.connections w

unfoldable pub nonzero_count : List ℕ → ℕ
nonzero_count [] = 0
nonzero_count (n ∷ counts) = if n == 0 then nonzero_count counts else nonzero_count counts + 1

unfoldable pub write_counts : ℕ → List ℕ → M Writer (Unit {0})
write_counts connection_index [] = pure tt
write_counts connection_index (zero ∷ counts) = write_counts (connection_index + 1) counts
write_counts connection_index (suc n ∷ counts) = do
  throw_when (ltb uint32_max connection_index) (length_error "rosbag connection id too large")
  on_io (write_u32 (to_uint32 connection_index))
  on_io (write_u32 (suc n))
  write_counts (connection_index + 1) counts

abbrev pub chunk_info_fields : ChunkInfo → ℕ → List HeaderField
chunk_info_fields chunk count =
    field_u8 (codes "op") op_chunk_info
    ∷ field_u32 (codes "ver") 1
    ∷ field_u64 (codes "chunk_pos") chunk.pos
    ∷ field_time (codes "start_time") chunk.start_time
    ∷ field_time (codes "end_time") chunk.end_time
    ∷ field_u32 (codes "count") count
    ∷ []

unfoldable pub write_chunk_info_record : ChunkInfo → M Writer (Unit {0})
write_chunk_info_record chunk =
    let count = to_uint32 (nonzero_count chunk.connection_counts) in
    do
      throw_when (ltb uint32_max (nonzero_count chunk.connection_counts))
          (length_error "rosbag chunk info too large")
      write_header (chunk_info_fields chunk count)
      on_io (write_u32 (to_uint32 (count * 8)))
      write_counts 0 chunk.connection_counts

unfoldable pub write_chunk_info_loop : List ChunkInfo → M Writer (Unit {0})
write_chunk_info_loop [] = pure tt
write_chunk_info_loop (chunk ∷ chunks) = do
  write_chunk_info_record chunk
  write_chunk_info_loop chunks

unfoldable pub write_chunk_info_records : M Writer (Unit {0})
write_chunk_info_records w = write_chunk_info_loop w.chunks w

-- The data that `Finish` completes before it closes and publishes the file.
unfoldable pub finish_data : M Writer (Unit {0})
finish_data = do
  stop_chunk
  modify (λ w. record w { index_data_pos = w.io.logical_offset })
  write_connection_records
  write_chunk_info_records
  patch_file_header_record
  on_io flush_output_buffer
