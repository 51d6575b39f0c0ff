-- ===== src/Examples/Statistics.antt =====
-- The statistics of src/rosbag_v2_writer.cpp on concrete inputs.
use mrp_robo_baton_4p_no_ros.Base.{ℕ, ◌*◌, ◌^◌, ◌<◌, ◌≡◌, refl, [], ◌∷◌, arith}
use mrp_robo_baton_4p_no_ros.Bag.Latency.{
  LatencyStats, empty_stats, merge_latency_stats, latency_percentile_upper_ns,
}
use mrp_robo_baton_4p_no_ros.Bag.Latency.Buckets.{
  IsStats, IsPercentile, rank_of, latency_percentile_upper_ns_lem,
}
use mrp_robo_baton_4p_no_ros.Bag.Latency.Batches.{observe_all, merge_latency_stats-observe_all}
use mrp_robo_baton_4p_no_ros.Bag.Meter.{Meter, empty_writer_stats}

-- Two latencies below a microsecond and one of three.
abbrev three : LatencyStats
three = record {
  count = 3;
  total_ns = 4000;
  max_ns = 3000;
  buckets =
      2 ∷ 0 ∷ 1 ∷ 0 ∷ 0 ∷ 0 ∷ 0 ∷ 0 ∷ 0 ∷ 0 ∷ 0 ∷ 0 ∷ 0 ∷ 0 ∷ 0 ∷ 0 ∷ 0 ∷ 0 ∷ 0 ∷ 0 ∷ 0 ∷ 0 ∷ 0 ∷ 0
      ∷ 0 ∷ 0 ∷ 0 ∷ 0 ∷ 0 ∷ 0 ∷ 0 ∷ 0 ∷ [];
}

three-IsStats : IsStats three
three-IsStats = record { width = refl; counted = refl }

latency_percentile_upper_ns_lem_example :
    (k : ℕ) × (k < 32)
    × (latency_percentile_upper_ns three 95 ≡ 1000 * 2 ^ k)
    × IsPercentile three.buckets (rank_of 3 95) 0 k
latency_percentile_upper_ns_lem_example =
    latency_percentile_upper_ns_lem three 95 three-IsStats (omega arith) (omega arith)

merge_latency_stats-observe_all_example :
    merge_latency_stats three (observe_all empty_stats (7 ∷ 5_000 ∷ []))
    ≡ observe_all three (7 ∷ 5_000 ∷ [])
merge_latency_stats-observe_all_example =
    merge_latency_stats-observe_all three (7 ∷ 5_000 ∷ []) three-IsStats (omega arith) (omega arith)

-- A meter with 256 records pending.
abbrev busy : Meter
busy = record {
  stats = empty_writer_stats;
  pending_stats = record empty_writer_stats { raw_write_calls = 2; raw_write_bytes = 90 };
  pending_stats_updates = 2;
  pending_stats_record_count = 256;
  last_stats_publish_ns = 5;
}
