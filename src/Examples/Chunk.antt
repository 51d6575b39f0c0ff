-- ===== src/Examples/Chunk.antt =====
-- The connections, times and chunks of src/rosbag_v2_writer.cpp on concrete inputs.
use mrp_robo_baton_4p_no_ros.Base.{
  ◌<◌, false, ℕ, ◌≤◌, ◌≡◌, refl, true, false, List, [], ◌∷◌, ◌++◌, arith,
}
use mrp_robo_baton_4p_no_ros.Base.Bytes.{codes, le_bytes}
use mrp_robo_baton_4p_no_ros.Base.Errors.{ok}
use mrp_robo_baton_4p_no_ros.Bag.Encode.{RosbagTime, serialize_record_header}
use mrp_robo_baton_4p_no_ros.Bag.Encode.Layout.{header_layout, serialize_record_header-Fits}
use mrp_robo_baton_4p_no_ros.Bag.Writer.{
  Writer, Connection, IndexEntry, no_chunk, chunk_fields, serialize_chunk_header, time_to_ns,
  normalize_message_time,
}
use mrp_robo_baton_4p_no_ros.Bag.Writer.Chunks.{start_chunk}
use mrp_robo_baton_4p_no_ros.Bag.Writer.Messages.{add_connection, append_message, message_fields}
use mrp_robo_baton_4p_no_ros.Bag.Writer.Catalog.{IsCatalog, Answers, add_connection-IsCatalog}
use mrp_robo_baton_4p_no_ros.Bag.Writer.Opening.{HasStarted, start_chunk_lem}
use mrp_robo_baton_4p_no_ros.Bag.Writer.Records.{HasMessage, append_message_lem}
use mrp_robo_baton_4p_no_ros.Bag.Writer.Times.{IsTime, normalize_message_time-IsMonotone}
use mrp_robo_baton_4p_no_ros.Examples.Stream.{half_full, half_full-IsStream}

abbrev md5sum : List ℕ
md5sum = codes "6a62c6daae103f4ff57a132d6f95cec2"

abbrev imu : Connection
imu = record {
  id = 0;
  topic = codes "/imu/data";
  datatype = codes "sensor_msgs/Imu";
  md5sum = md5sum;
  message_definition = [];
}

abbrev early : RosbagTime
early = record { sec = 7; nsec = 20 }

abbrev late : RosbagTime
late = record { sec = 8; nsec = 10 }

-- A writer with one connection, whose chunk's data begin at the first byte.
abbrev one_connection : Writer
one_connection = record {
  io = half_full;
  file_header_pos = 0;
  index_data_pos = 0;
  chunk_is_open = false;
  current_chunk_pos = 0;
  current_chunk_data_pos = 1;
  current_chunk = record no_chunk { connection_counts = 0 ∷ [] };
  chunks = [];
  current_chunk_indexes = [] ∷ [];
  connections = imu ∷ [];
  connection_index_reserves = 1200 ∷ [];
  has_last_message_time = true;
  last_message_time = late;
}

one_connection-IsCatalog : IsCatalog one_connection
one_connection-IsCatalog = record { ids = (refl, tt); topics = (refl, tt); reserves = refl }

add_connection-IsCatalog_example :
    Answers (codes "/image/0") (codes "sensor_msgs/CompressedImage") md5sum [] one_connection (
      add_connection
        (codes "/image/0")
        (codes "sensor_msgs/CompressedImage")
        md5sum
        []
        one_connection)
add_connection-IsCatalog_example =
    add_connection-IsCatalog (codes "/image/0") (codes "sensor_msgs/CompressedImage") md5sum []
      one_connection one_connection-IsCatalog (omega arith)

early-IsTime : IsTime early
early-IsTime = (omega arith, omega arith)

late-IsTime : IsTime late
late-IsTime = (omega arith, omega arith)

normalize_message_time-IsMonotone_example :
    (t : RosbagTime) × (u : Writer) × (normalize_message_time early one_connection ≡ (t, u))
    × (u.has_last_message_time ≡ true)
    × (u.last_message_time ≡ t)
    × IsTime t
    × (time_to_ns early ≤ time_to_ns t)
    × ((true ≡ true) → time_to_ns late ≤ time_to_ns t)
    × ((true ≡ false) → t ≡ early)
    × ((time_to_ns late ≤ time_to_ns early) → t ≡ early)
    × ((true ≡ true) → time_to_ns early < time_to_ns late → t ≡ late)
normalize_message_time-IsMonotone_example =
    normalize_message_time-IsMonotone early one_connection early-IsTime late-IsTime

placeholder : serialize_chunk_header 0 0 ≡ ok (header_layout (chunk_fields 0) ++ le_bytes 4 0)
unfolding serialize_chunk_header le_bytes
placeholder =
    serialize_record_header-Fits (chunk_fields 0) 0
      ((λ e. cc, omega arith), ((λ e. cc, omega arith), ((λ e. cc, omega arith), tt))) (omega arith)

start_chunk_lem_example :
    (u : Writer) × (start_chunk early one_connection ≡ (ok tt, u))
    × HasStarted early (header_layout (chunk_fields 0) ++ le_bytes 4 0) one_connection u
start_chunk_lem_example =
    start_chunk_lem early one_connection (header_layout (chunk_fields 0) ++ le_bytes 4 0)
      placeholder half_full-IsStream (tt, (tt, tt))

message_header :
    serialize_record_header (message_fields 0 late) 3
    ≡ ok (header_layout (message_fields 0 late) ++ le_bytes 4 3)
unfolding le_bytes
message_header =
    serialize_record_header-Fits (message_fields 0 late) 3
      ((λ e. cc, omega arith), ((λ e. cc, omega arith), ((λ e. cc, omega arith), tt))) (omega arith)

append_message_lem_example :
    (u : Writer) × (entry : IndexEntry) × (append_message 0 late (1 ∷ 2 ∷ 3 ∷ []) one_connection
      ≡ (ok tt, u))
    × HasMessage 0 late
        ((header_layout (message_fields 0 late) ++ le_bytes 4 3) ++ 1 ∷ 2 ∷ 3 ∷ [])
        one_connection
        u
        entry
append_message_lem_example =
    append_message_lem 0 late (1 ∷ 2 ∷ 3 ∷ [])
      (header_layout (message_fields 0 late) ++ le_bytes 4 3) one_connection half_full-IsStream
      (tt, (tt, tt)) (omega arith) (omega arith) (omega arith) message_header
