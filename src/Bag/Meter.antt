-- ===== src/Bag/Meter.antt =====
-- src/rosbag_v2_writer.cpp: the statistics of the writer. They gather in `pending_stats` and are
-- merged into the published `stats` now and then; only the writer's thread touches the former.
pub mod Publishing
use mrp_robo_baton_4p_no_ros.Base.{
  ℕ, ◌+◌, ◌-◌, ◌*◌, ◌%◌, ◌^◌, Bool, true, false, ◌&&◌, ◌||◌, not, ltb, leb, ◌==◌, if◌then◌else◌,
}
use mrp_robo_baton_4p_no_ros.Bag.Latency.{
  LatencyStats, empty_stats, observe_latency, merge_latency_stats, saturating_add, increment64,
}

pub record WriterStats : Type 0 where
  pub chunk_open_latency : LatencyStats
  pub chunk_write_latency : LatencyStats
  pub chunk_header_patch_latency : LatencyStats
  pub chunk_index_latency : LatencyStats
  pub chunk_close_latency : LatencyStats
  pub record_write_latency : LatencyStats
  pub record_header_write_latency : LatencyStats
  pub record_payload_write_latency : LatencyStats
  pub flush_close_latency : LatencyStats
  pub raw_write_calls : ℕ
  pub raw_write_bytes : ℕ
  pub record_header_write_bytes : ℕ
  pub record_payload_write_bytes : ℕ

abbrev pub empty_writer_stats : WriterStats
empty_writer_stats = record {
  chunk_open_latency = empty_stats;
  chunk_write_latency = empty_stats;
  chunk_header_patch_latency = empty_stats;
  chunk_index_latency = empty_stats;
  chunk_close_latency = empty_stats;
  record_write_latency = empty_stats;
  record_header_write_latency = empty_stats;
  record_payload_write_latency = empty_stats;
  flush_close_latency = empty_stats;
  raw_write_calls = 0;
  raw_write_bytes = 0;
  record_header_write_bytes = 0;
  record_payload_write_bytes = 0;
}

unfoldable pub merge_writer_stats : WriterStats → WriterStats → WriterStats
merge_writer_stats target delta = record {
  chunk_open_latency = merge_latency_stats target.chunk_open_latency delta.chunk_open_latency;
  chunk_write_latency = merge_latency_stats target.chunk_write_latency delta.chunk_write_latency;
  chunk_header_patch_latency =
      merge_latency_stats target.chunk_header_patch_latency delta.chunk_header_patch_latency;
  chunk_index_latency = merge_latency_stats target.chunk_index_latency delta.chunk_index_latency;
  chunk_close_latency = merge_latency_stats target.chunk_close_latency delta.chunk_close_latency;
  record_write_latency = merge_latency_stats target.record_write_latency delta.record_write_latency;
  record_header_write_latency =
      merge_latency_stats target.record_header_write_latency delta.record_header_write_latency;
  record_payload_write_latency =
      merge_latency_stats target.record_payload_write_latency delta.record_payload_write_latency;
  flush_close_latency = merge_latency_stats target.flush_close_latency delta.flush_close_latency;
  raw_write_calls = saturating_add target.raw_write_calls delta.raw_write_calls;
  raw_write_bytes = saturating_add target.raw_write_bytes delta.raw_write_bytes;
  record_header_write_bytes =
      saturating_add target.record_header_write_bytes delta.record_header_write_bytes;
  record_payload_write_bytes =
      saturating_add target.record_payload_write_bytes delta.record_payload_write_bytes;
}

pub record Meter : Type 0 where
  pub stats : WriterStats
  pub pending_stats : WriterStats
  pub pending_stats_updates : ℕ
  pub pending_stats_record_count : ℕ
  pub last_stats_publish_ns : ℕ

-- The pointer to a member that `ObserveWriterLatency` is called with.
pub data LatencyTarget : Type 0 where
  chunk_open chunk_write chunk_header_patch chunk_index chunk_close : LatencyTarget
  record_write flush_close : LatencyTarget

unfoldable pub observe_target : LatencyTarget → ℕ → WriterStats → WriterStats
observe_target chunk_open ns s = record s {
  chunk_open_latency = observe_latency s.chunk_open_latency ns;
}
observe_target chunk_write ns s = record s {
  chunk_write_latency = observe_latency s.chunk_write_latency ns;
}
observe_target chunk_header_patch ns s = record s {
  chunk_header_patch_latency = observe_latency s.chunk_header_patch_latency ns;
}
observe_target chunk_index ns s = record s {
  chunk_index_latency = observe_latency s.chunk_index_latency ns;
}
observe_target chunk_close ns s = record s {
  chunk_close_latency = observe_latency s.chunk_close_latency ns;
}
observe_target record_write ns s = record s {
  record_write_latency = observe_latency s.record_write_latency ns;
}
observe_target flush_close ns s = record s {
  flush_close_latency = observe_latency s.flush_close_latency ns;
}

unfoldable pub observe_writer_latency : LatencyTarget → ℕ → Meter → Meter
observe_writer_latency target latency_ns m = record m {
  pending_stats = observe_target target latency_ns m.pending_stats;
  pending_stats_updates = increment64 m.pending_stats_updates;
}

unfoldable pub record_raw_write_stats : ℕ → Meter → Meter
record_raw_write_stats size m = record m {
  pending_stats = record pending_stats {
    raw_write_calls = increment64 pending_stats.raw_write_calls;
    raw_write_bytes = saturating_add pending_stats.raw_write_bytes size;
  };
  pending_stats_updates = increment64 m.pending_stats_updates;
}
  where
    open m use {pending_stats}

unfoldable pub record_record_header_write_stats : ℕ → ℕ → Meter → Meter
record_record_header_write_stats latency_ns bytes m = record m {
  pending_stats = record pending_stats {
    record_header_write_latency =
        observe_latency pending_stats.record_header_write_latency latency_ns;
    record_header_write_bytes = saturating_add pending_stats.record_header_write_bytes bytes;
  };
  pending_stats_updates = increment64 m.pending_stats_updates;
}
  where
    open m use {pending_stats}

unfoldable pub record_record_payload_write_stats : ℕ → ℕ → Meter → Meter
record_record_payload_write_stats latency_ns bytes m = record m {
  pending_stats = record pending_stats {
    record_payload_write_latency =
        observe_latency pending_stats.record_payload_write_latency latency_ns;
    record_payload_write_bytes = saturating_add pending_stats.record_payload_write_bytes bytes;
  };
  pending_stats_updates = increment64 m.pending_stats_updates;
}
  where
    open m use {pending_stats}

abbrev pub stats_publish_record_interval : ℕ
stats_publish_record_interval = 256

abbrev pub stats_publish_interval_ns : ℕ
stats_publish_interval_ns = 100_000_000

-- The pending statistics are merged and cleared.
abbrev pub publish_all : ℕ → Meter → Meter
publish_all publish_ns m = record {
  stats = merge_writer_stats m.stats m.pending_stats;
  pending_stats = empty_writer_stats;
  pending_stats_updates = 0;
  pending_stats_record_count = 0;
  last_stats_publish_ns = publish_ns;
}

unfoldable pub publish_pending_stats : ℕ → Meter → Meter
publish_pending_stats publish_ns m =
    if m.pending_stats_updates == 0
    then record m { last_stats_publish_ns = publish_ns }
    else publish_all publish_ns m

-- Enough records or, on a `uint64_t` that wraps, enough time since the last time.
unfoldable pub is_publish_due : ℕ → Meter → Bool
is_publish_due now_ns m =
    leb stats_publish_record_interval m.pending_stats_record_count
    || not (m.last_stats_publish_ns == 0)
      && leb stats_publish_interval_ns ((now_ns + 2 ^ 64 - m.last_stats_publish_ns) % 2 ^ 64)

unfoldable pub maybe_publish_pending_stats : ℕ → Meter → Meter
maybe_publish_pending_stats now_ns m =
    if m.pending_stats_updates == 0
    then m
    else if is_publish_due now_ns m
    then publish_pending_stats now_ns m
    else m
