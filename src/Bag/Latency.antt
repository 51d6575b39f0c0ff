-- ===== src/Bag/Latency.antt =====
-- src/rosbag_v2_writer.cpp: the latency histograms of the writer, in 32 buckets whose bounds double
-- from one microsecond. The counters are `uint64_t`: `++` wraps, the sums saturate.
pub mod Buckets
pub mod Batches
use mrp_robo_baton_4p_no_ros.Base.{
  ℕ, zero, suc, ◌+◌, ◌-◌, ◌*◌, ◌/◌, ◌%◌, ◌^◌, Bool, true, false, ◌&&◌, List, [], ◌∷◌, length, set,
  get_or, replicate, ltb, leb, ◌==◌, if◌then◌else◌, min, max, ◌<◌, ◌≡◌, arith,
}

abbrev pub uint64_max : ℕ
uint64_max = 2 ^ 64 - 1

abbrev pub latency_first_bucket_ns : ℕ
latency_first_bucket_ns = 1000

abbrev pub latency_bucket_count : ℕ
latency_bucket_count = 32

-- `++x` on a `uint64_t`.
abbrev pub increment64 : ℕ → ℕ
increment64 x = (x + 1) % 2 ^ 64

unfoldable pub saturating_add : ℕ → ℕ → ℕ
saturating_add lhs rhs = if ltb (uint64_max - lhs) rhs then uint64_max else lhs + rhs

pub saturating_add_exact : (a b : ℕ) → a + b < 2 ^ 64 → saturating_add a b ≡ a + b
unfolding saturating_add
saturating_add_exact a b h = ground arith

unfoldable pub double_bound : ℕ → ℕ
double_bound upper_bound_ns =
    if ltb (uint64_max / 2) upper_bound_ns then uint64_max else upper_bound_ns * 2

-- The loop ends by its test: it makes 31 rounds at most, and has a round of fuel for each.
unfoldable pub bucket_index_loop : ℕ → ℕ → ℕ → ℕ → ℕ
bucket_index_loop zero latency_ns upper_bound_ns index = index
bucket_index_loop (suc fuel) latency_ns upper_bound_ns index =
    let next = bucket_index_loop fuel latency_ns (double_bound upper_bound_ns) (index + 1) in
    if ltb upper_bound_ns latency_ns && ltb (index + 1) latency_bucket_count then next else index

unfoldable pub latency_bucket_index : ℕ → ℕ
latency_bucket_index latency_ns =
    bucket_index_loop latency_bucket_count latency_ns latency_first_bucket_ns 0

unfoldable pub upper_bound_loop : ℕ → ℕ → ℕ
upper_bound_loop zero upper_bound_ns = upper_bound_ns
upper_bound_loop (suc rounds) upper_bound_ns = upper_bound_loop rounds (double_bound upper_bound_ns)

unfoldable pub latency_bucket_upper_bound_ns : ℕ → ℕ
latency_bucket_upper_bound_ns index = upper_bound_loop index latency_first_bucket_ns

pub record LatencyStats : Type 0 where
  pub count : ℕ
  pub total_ns : ℕ
  pub max_ns : ℕ
  pub buckets : List ℕ

abbrev pub empty_stats : LatencyStats
empty_stats = record {
  count = 0;
  total_ns = 0;
  max_ns = 0;
  buckets = replicate latency_bucket_count 0;
}

unfoldable pub observe_latency : LatencyStats → ℕ → LatencyStats
observe_latency stats latency_ns = record {
  count = increment64 stats.count;
  total_ns = saturating_add stats.total_ns latency_ns;
  max_ns = max stats.max_ns latency_ns;
  buckets = set stats.buckets index (increment64 (get_or stats.buckets index 0));
}
  where
    index : ℕ
    index = latency_bucket_index latency_ns

unfoldable pub merge_buckets : List ℕ → List ℕ → List ℕ
merge_buckets (x ∷ xs) (y ∷ ys) = saturating_add x y ∷ merge_buckets xs ys
merge_buckets xs _ = xs

unfoldable pub merge_latency_stats : LatencyStats → LatencyStats → LatencyStats
merge_latency_stats target delta = if delta.count == 0 then target else record {
  count = saturating_add target.count delta.count;
  total_ns = saturating_add target.total_ns delta.total_ns;
  max_ns = max target.max_ns delta.max_ns;
  buckets = merge_buckets target.buckets delta.buckets;
}

unfoldable pub latency_average_ns : LatencyStats → ℕ
latency_average_ns stats = if stats.count == 0 then 0 else stats.total_ns / stats.count

-- The buckets from `index` on; `max_ns` is the answer where the loop runs through.
unfoldable pub percentile_loop : List ℕ → ℕ → ℕ → ℕ → ℕ → ℕ
percentile_loop [] index cumulative rank max_ns = max_ns
percentile_loop (bucket ∷ buckets) index cumulative rank max_ns =
    let cumulative' = saturating_add cumulative bucket in
    let next = percentile_loop buckets (index + 1) cumulative' rank max_ns in
    if leb rank cumulative' then latency_bucket_upper_bound_ns index else next

unfoldable pub latency_percentile_upper_ns : LatencyStats → ℕ → ℕ
latency_percentile_upper_ns stats percentile =
    let rank = (stats.count * min percentile 100 + 99) % 2 ^ 64 / 100 in
    if stats.count == 0 then 0 else percentile_loop stats.buckets 0 0 rank stats.max_ns
