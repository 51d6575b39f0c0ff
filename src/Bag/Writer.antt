-- ===== src/Bag/Writer.antt =====
-- src/rosbag_v2_writer.h and src/rosbag_v2_writer.cpp: connections, chunks, messages and the index
-- section, over the buffered output. File positions stay below 2^63, as `off_t` makes them, so the
-- sums of positions are written without a wrap.
pub mod Chunks
pub mod Messages
pub mod Sections
pub mod Logging
pub mod Records
pub mod Opening
pub mod Times
pub mod Catalog
use mrp_robo_baton_4p_no_ros.Base.{
  ℕ, zero, suc, ◌+◌, ◌-◌, ◌*◌, ◌/◌, ◌%◌, ◌^◌, Bool, true, false, ◌&&◌, ◌||◌, not, Option, none,
  some, List, [], ◌∷◌, ◌++◌, length, set, get_or, replicate, map, ltb, leb, ◌==◌, bytes_eq,
  if◌then◌else◌,
}
use mrp_robo_baton_4p_no_ros.Base.Bytes.{le_bytes, codes}
use mrp_robo_baton_4p_no_ros.Base.Errors.{
  Exception, invalid_argument, runtime_error, logic_error, length_error, Result, ok, throws,
}
use mrp_robo_baton_4p_no_ros.Bag.Encode.{
  RosbagTime, HeaderField, field_u8, field_u32, field_u64, field_time, field_string,
  serialize_header, serialize_record_header, append_u32, uint32_max, to_uint32,
  nanoseconds_per_second,
}
use mrp_robo_baton_4p_no_ros.Bag.Meter.{
  Meter, LatencyTarget, chunk_open, chunk_write, chunk_header_patch, chunk_index, chunk_close,
  record_write, observe_writer_latency, record_record_header_write_stats,
  record_record_payload_write_stats, publish_pending_stats, maybe_publish_pending_stats,
}
use mrp_robo_baton_4p_no_ros.Bag.Output.{
  Io, M, pure, throw, lift_result, ◌>>=◌, ◌>>◌, steady_now_ns, on_meter, ensure_open,
  flush_output_buffer, write_raw, write_raw_buffers, write_u32, pwrite_raw,
}

abbrev pub op_msg_data : ℕ
op_msg_data = 2

abbrev pub op_file_header : ℕ
op_file_header = 3

abbrev pub op_index_data : ℕ
op_index_data = 4

abbrev pub op_chunk : ℕ
op_chunk = 5

abbrev pub op_chunk_info : ℕ
op_chunk_info = 6

abbrev pub op_connection : ℕ
op_connection = 7

abbrev pub file_header_length : ℕ
file_header_length = 4096

abbrev pub chunk_threshold_bytes : ℕ
chunk_threshold_bytes = 16 * 1024 * 1024

abbrev pub max_chunk_age_ns : ℕ
max_chunk_age_ns = nanoseconds_per_second

pub record Connection : Type 0 where
  pub id : ℕ
  pub topic : List ℕ
  pub datatype : List ℕ
  pub md5sum : List ℕ
  pub message_definition : List ℕ

pub record IndexEntry : Type 0 where
  pub time : RosbagTime
  pub offset : ℕ

pub record ChunkInfo : Type 0 where
  pub pos : ℕ
  pub start_time : RosbagTime
  pub end_time : RosbagTime
  pub connection_counts : List ℕ

abbrev pub zero_time : RosbagTime
zero_time = record { sec = 0; nsec = 0 }

abbrev pub no_chunk : ChunkInfo
no_chunk = record { pos = 0; start_time = zero_time; end_time = zero_time; connection_counts = [] }

pub record Writer : Type 0 where
  pub io : Io
  pub file_header_pos : ℕ
  pub index_data_pos : ℕ
  pub chunk_is_open : Bool
  pub current_chunk_pos : ℕ
  pub current_chunk_data_pos : ℕ
  pub current_chunk : ChunkInfo
  pub chunks : List ChunkInfo
  pub current_chunk_indexes : List (List IndexEntry)
  pub connections : List Connection
  pub connection_index_reserves : List ℕ
  pub has_last_message_time : Bool
  pub last_message_time : RosbagTime

-- A step of the output, as one of the writer.
abbrev pub on_io : {A : Type 0} → M Io A → M Writer A
on_io m w = ((m w.io).0, record w { io = (m w.io).1 })

abbrev pub modify : (Writer → Writer) → M Writer (Unit {0})
modify f w = (ok tt, f w)

abbrev pub when : Bool → M Writer (Unit {0}) → M Writer (Unit {0})
when true m = m
when false m = pure tt

abbrev pub throw_when : Bool → Exception → M Writer (Unit {0})
throw_when true e = throw e
throw_when false e = pure tt

-- `now - start`, which wraps on `uint64_t`.
abbrev pub elapsed : ℕ → ℕ → ℕ
elapsed start now = (now + 2 ^ 64 - start) % 2 ^ 64

unfoldable pub observe_since : LatencyTarget → ℕ → M Writer (Unit {0})
observe_since target start = do
  now ← on_io steady_now_ns
  on_io (on_meter (observe_writer_latency target (elapsed start now)))

-- Times.

abbrev pub time_before : RosbagTime → RosbagTime → Bool
time_before a b = ltb a.sec b.sec || a.sec == b.sec && ltb a.nsec b.nsec

unfoldable pub time_to_ns : RosbagTime → ℕ
time_to_ns time = (time.sec * nanoseconds_per_second + time.nsec) % 2 ^ 64

unfoldable pub chunk_age_limit_reached : RosbagTime → RosbagTime → Bool
unfolding time_to_ns
chunk_age_limit_reached start end_time =
    leb (time_to_ns start) (time_to_ns end_time)
    && leb max_chunk_age_ns (time_to_ns end_time - time_to_ns start)

-- A message time never runs back: an earlier one is written as the last one.
unfoldable pub normalize_message_time : RosbagTime → Writer → RosbagTime × Writer
normalize_message_time time w =
    if not w.has_last_message_time
    then (time, record w { has_last_message_time = true; last_message_time = time })
    else if time_before time w.last_message_time
    then (w.last_message_time, w)
    else (time, record w { last_message_time = time })

-- Headers.

unfoldable pub write_header : List HeaderField → M Writer (Unit {0})
write_header fields = do header ← lift_result (serialize_header fields); on_io (write_raw header)

unfoldable pub serialize_file_header_record : Writer → Result (List ℕ)
serialize_file_header_record w = pad (serialize_header fields)
  where
    fields : List HeaderField
    fields =
        field_u8 (codes "op") op_file_header
        ∷ field_u64 (codes "index_pos") w.index_data_pos
        ∷ field_u32 (codes "conn_count") (to_uint32 (length w.connections))
        ∷ field_u32 (codes "chunk_count") (to_uint32 (length w.chunks))
        ∷ []

    pad : Result (List ℕ) → Result (List ℕ)
    pad (throws e) = throws e
    pad (ok header) =
        let header_size = length header - 4 in
        let padding_size = file_header_length - header_size in
        if ltb file_header_length header_size
        then throws (runtime_error "rosbag file header exceeds reserved length")
        else ok (append_u32 header padding_size ++ replicate padding_size b' ')

unfoldable pub write_file_header_record : M Writer (Unit {0})
write_file_header_record w =
    (lift_result (serialize_file_header_record w) >>= λ record_bytes.
    on_io (write_raw record_bytes))
      w

unfoldable pub patch_file_header_record : M Writer (Unit {0})
patch_file_header_record w =
    (lift_result (serialize_file_header_record w) >>= λ record_bytes.
    on_io (pwrite_raw w.file_header_pos record_bytes))
      w

abbrev pub chunk_fields : ℕ → List HeaderField
chunk_fields uncompressed_size =
    field_u8 (codes "op") op_chunk
    ∷ field_string (codes "compression") (codes "none")
    ∷ field_u32 (codes "size") uncompressed_size
    ∷ []

unfoldable pub serialize_chunk_header : ℕ → ℕ → Result (List ℕ)
serialize_chunk_header compressed_size uncompressed_size =
    serialize_record_header (chunk_fields uncompressed_size) compressed_size

unfoldable pub write_chunk_header : ℕ → ℕ → M Writer (Unit {0})
write_chunk_header compressed_size uncompressed_size = do
  header ← lift_result (serialize_chunk_header compressed_size uncompressed_size)
  on_io (write_raw header)

unfoldable pub patch_chunk_header : ℕ → ℕ → M Writer (Unit {0})
patch_chunk_header compressed_size uncompressed_size w =
    (lift_result (serialize_chunk_header compressed_size uncompressed_size) >>= λ header.
    on_io (pwrite_raw w.current_chunk_pos header))
      w
