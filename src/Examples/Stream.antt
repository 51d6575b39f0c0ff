-- ===== src/Examples/Stream.antt =====
-- The buffered output and the headers of src/rosbag_v2_writer.cpp on concrete inputs.
use mrp_robo_baton_4p_no_ros.Base.{
  ℕ, ◌^◌, ◌<◌, ◌≡◌, ◌⊎◌, refl, true, List, [], ◌∷◌, ◌++◌, arith, length, All, some,
}
use mrp_robo_baton_4p_no_ros.Base.Bytes.{codes, le_bytes}
use mrp_robo_baton_4p_no_ros.Base.Errors.{Exception, ok, throws}
use mrp_robo_baton_4p_no_ros.Bag.Encode.{HeaderField, field_u8, field_u32}
use mrp_robo_baton_4p_no_ros.Bag.Encode.Layout.{
  Fits, header_layout, fields_layout, serialize_header-Fits,
}
use mrp_robo_baton_4p_no_ros.Bag.Encode.RoundTrip.{
  IsFieldName, parse_header, parse_header-serialize_header,
}
use mrp_robo_baton_4p_no_ros.Bag.Meter.{Meter, empty_writer_stats}
use mrp_robo_baton_4p_no_ros.Bag.Output.{
  Io, wrote, interrupted, flush_output_buffer, write_raw_buffers, pwrite_raw,
}
use mrp_robo_baton_4p_no_ros.Bag.Output.Flush.{Benign}
use mrp_robo_baton_4p_no_ros.Bag.Output.Stream.{
  stream, IsStream, Extends, Appends, flush_output_buffer_lem,
}
use mrp_robo_baton_4p_no_ros.Bag.Output.Copying.{concat, write_raw_buffers-Appends}
use mrp_robo_baton_4p_no_ros.Bag.Output.Patch.{Patches, pwrite_raw-Patches}

abbrev pub idle_meter : Meter
idle_meter = record {
  stats = empty_writer_stats;
  pending_stats = empty_writer_stats;
  pending_stats_updates = 0;
  pending_stats_record_count = 0;
  last_stats_publish_ns = 0;
}

-- Three bytes on disk, two in a buffer of four, and a kernel that is interrupted, then takes one byte.
abbrev pub half_full : Io
half_full = record {
  clock = [];
  answers = interrupted ∷ wrote 1 ∷ [];
  is_open = true;
  file = 1 ∷ 2 ∷ 3 ∷ [];
  file_offset = 3;
  write_buffer = 4 ∷ 5 ∷ [];
  buffer_size = 4;
  logical_offset = 5;
  meter = idle_meter;
}

pub half_full-IsStream : IsStream half_full
half_full-IsStream = record {
  opened = refl;
  at_end = refl;
  counted = refl;
  room = omega arith;
  sized = omega arith;
}

flush_output_buffer_lem_example :
    ((t : Io) × (flush_output_buffer half_full ≡ (ok tt, t))
      × Extends half_full t []
      × (t.file ≡ stream half_full))
    ⊎ ((e : Exception) × (t : Io) × (flush_output_buffer half_full ≡ (throws e, t))
        × ((rest : List ℕ) × (t.file ++ rest ≡ stream half_full))
        × ¬ Benign half_full.answers)
flush_output_buffer_lem_example = flush_output_buffer_lem half_full half_full-IsStream

abbrev two_buffers : List (List ℕ)
two_buffers = (6 ∷ 7 ∷ 8 ∷ []) ∷ (9 ∷ []) ∷ []

write_raw_buffers-Appends_example :
    Appends half_full (concat two_buffers) (write_raw_buffers two_buffers half_full)
write_raw_buffers-Appends_example =
    write_raw_buffers-Appends two_buffers half_full half_full-IsStream

pwrite_raw-Patches_example :
    Patches half_full (1 ∷ []) (12 ∷ []) (3 ∷ 4 ∷ 5 ∷ []) (pwrite_raw 1 (12 ∷ []) half_full)
pwrite_raw-Patches_example =
    pwrite_raw-Patches half_full (1 ∷ []) (2 ∷ []) (12 ∷ []) (3 ∷ 4 ∷ 5 ∷ []) half_full-IsStream
      refl refl (omega arith) (omega arith)

-- `op=` and `conn=`.
abbrev two_fields : List HeaderField
two_fields = field_u8 (codes "op") 2 ∷ field_u32 (codes "conn") 3 ∷ []

two_fields-Fits : All Fits two_fields
unfolding le_bytes
two_fields-Fits = ((λ e. cc, omega arith), ((λ e. cc, omega arith), tt))

two_fields-short : length (fields_layout two_fields) < 2 ^ 32
unfolding le_bytes
two_fields-short = omega arith

two_fields-parsable : length (fields_layout two_fields) < 2 ^ 63
unfolding le_bytes
two_fields-parsable = omega arith

two_fields-named : All (λ f. IsFieldName f.name) two_fields
two_fields-named = ((λ e. cc, (λ e. cc, tt)), ((λ e. cc, (λ e. cc, (λ e. cc, (λ e. cc, tt)))), tt))

parse_header-serialize_header_example :
    parse_header (header_layout two_fields ++ 9 ∷ []) ≡ some (two_fields, 9 ∷ [])
parse_header-serialize_header_example =
    parse_header-serialize_header two_fields (header_layout two_fields) (9 ∷ []) two_fields-named
      two_fields-parsable (serialize_header-Fits two_fields two_fields-Fits two_fields-short)
