-- ===== src/Bag/Latency/Batches.antt =====
-- The writer collects latencies in a batch of its own and merges the batch into the published
-- statistics: that the detour changes nothing.
use mrp_robo_baton_4p_no_ros.Base.{
  ℕ, zero, suc, ◌+◌, ◌^◌, ◌<◌, ◌≡◌, ◌≢◌, refl, ap, ap₂, ◌∙◌, List, [], ◌∷◌, arith, length, sum, set,
  get_or, replicate, get_or-le-sum, sum-set_suc, length-set, max,
}
use mrp_robo_baton_4p_no_ros.Bag.Latency.{
  LatencyStats, saturating_add, saturating_add_exact, merge_buckets, merge_latency_stats,
  observe_latency, latency_bucket_index, empty_stats, increment64,
}
use mrp_robo_baton_4p_no_ros.Bag.Latency.Buckets.{IsStats, latency_bucket_index-IsBucket}

abbrev pub observe_all : LatencyStats → List ℕ → LatencyStats
observe_all stats [] = stats
observe_all stats (l ∷ ls) = observe_all (observe_latency stats l) ls

-- One more latency is counted once, and the buckets still add up to the count, while the counter has
-- room.
pub observe_latency-IsStats :
    (s : LatencyStats) (latency : ℕ)
    → IsStats s
    → s.count + 1 < 2 ^ 64
    → IsStats (observe_latency s latency) × ((observe_latency s latency).count ≡ s.count + 1)
unfolding observe_latency
observe_latency-IsStats s latency v h =
    let i = latency_bucket_index latency in
    let once : increment64 (get_or s.buckets i 0) ≡ get_or s.buckets i 0 + 1 =
      omega (arith, get_or-le-sum s.buckets i, v.counted) in
    (
      record {
        width = length-set s.buckets i _ ∙ v.width;
        counted = rw once (
            omega (
              arith,
              sum-set_suc s.buckets i
                  (omega (arith, (latency_bucket_index-IsBucket latency).0, v.width)),
              v.counted,
            ));
      },
      omega arith,
    )

merge_buckets-set :
    (xs ys : List ℕ) (i : ℕ)
    → length xs ≡ length ys
    → i < length xs
    → sum xs + sum ys + 1 < 2 ^ 64
    → merge_buckets xs (set ys i (increment64 (get_or ys i 0)))
      ≡ set (merge_buckets xs ys) i (increment64 (get_or (merge_buckets xs ys) i 0))
unfolding merge_buckets
merge_buckets-set [] ys i e h k = absurd (omega arith)
merge_buckets-set (x ∷ xs) [] i e h k = absurd (omega arith)
merge_buckets-set (x ∷ xs) (y ∷ ys) zero e h k =
    ap (λ t. t ∷ merge_buckets xs ys)
      (ground (arith, saturating_add_exact x y, saturating_add_exact x (y + 1)))
merge_buckets-set (x ∷ xs) (y ∷ ys) (suc i) e h k =
    ap (λ t. saturating_add x y ∷ t)
      (merge_buckets-set xs ys i (omega arith) (omega arith) (omega arith))

saturating_add_assoc :
    (a b c : ℕ) → saturating_add a (saturating_add b c) ≡ saturating_add (saturating_add a b) c
unfolding saturating_add
saturating_add_assoc a b c = ground arith

-- What the merge does where the batch is not empty.
abbrev merged : LatencyStats → LatencyStats → LatencyStats
merged target delta = record {
  count = saturating_add target.count delta.count;
  total_ns = saturating_add target.total_ns delta.total_ns;
  max_ns = max target.max_ns delta.max_ns;
  buckets = merge_buckets target.buckets delta.buckets;
}

merged-observe :
    (t d : LatencyStats) (l : ℕ)
    → IsStats t
    → IsStats d
    → t.count + d.count + 1 < 2 ^ 64
    → merged t (observe_latency d l) ≡ observe_latency (merged t d) l
unfolding observe_latency
merged-observe t d l vt vd h =
    let i = latency_bucket_index l in
    let buckets =
      merge_buckets-set t.buckets d.buckets i (omega (arith, vt.width, vd.width))
        (omega (arith, (latency_bucket_index-IsBucket l).0, vt.width))
        (omega (arith, vt.counted, vd.counted)) in
    let total = saturating_add_assoc t.total_ns d.total_ns l in
    let count : saturating_add t.count (increment64 d.count)
        ≡ increment64 (saturating_add t.count d.count) =
      ground
        (arith, saturating_add_exact t.count (d.count + 1), saturating_add_exact t.count d.count) in
    let most : max t.max_ns (max d.max_ns l) ≡ max (max t.max_ns d.max_ns) l = omega arith in
    λ k. record { count = count k; total_ns = total k; max_ns = most k; buckets = buckets k }

merged-observe_all :
    (t d : LatencyStats) (ls : List ℕ)
    → IsStats t
    → IsStats d
    → t.count + d.count + length ls < 2 ^ 64
    → merged t (observe_all d ls) ≡ observe_all (merged t d) ls
merged-observe_all t d [] vt vd h = refl
merged-observe_all t d (l ∷ ls) vt vd h =
    let (vd', c) = observe_latency-IsStats d l vd (omega arith) in
    merged-observe_all t (observe_latency d l) ls vt vd' (omega arith)
    ∙ ap (λ s. observe_all s ls) (merged-observe t d l vt vd (omega arith))

count-observe_all :
    (d : LatencyStats) (ls : List ℕ)
    → IsStats d
    → d.count + length ls < 2 ^ 64
    → (observe_all d ls).count ≡ d.count + length ls
count-observe_all d [] v h = omega arith
count-observe_all d (l ∷ ls) v h =
    let (v', c) = observe_latency-IsStats d l v (omega arith) in
    omega (arith, count-observe_all (observe_latency d l) ls v' (omega arith))

saturating_add-zero : (a : ℕ) → a < 2 ^ 64 → saturating_add a 0 ≡ a
unfolding saturating_add
saturating_add-zero a h = ground arith

merge_buckets-zero : (xs : List ℕ) (n : ℕ) → sum xs < 2 ^ 64 → merge_buckets xs (replicate n 0) ≡ xs
unfolding merge_buckets
merge_buckets-zero [] n h = refl
merge_buckets-zero (x ∷ xs) zero h = refl
merge_buckets-zero (x ∷ xs) (suc n) h =
    ap₂ ◌∷◌ (saturating_add-zero x (omega arith)) (merge_buckets-zero xs n (omega arith))

merged-empty :
    (t : LatencyStats)
    → IsStats t
    → t.count < 2 ^ 64
    → t.total_ns < 2 ^ 64
    → merged t empty_stats ≡ t
merged-empty t v h k =
    let count = saturating_add-zero t.count h in
    let total = saturating_add-zero t.total_ns k in
    let most : max t.max_ns 0 ≡ t.max_ns = omega arith in
    let buckets = merge_buckets-zero t.buckets 32 (omega (arith, v.counted)) in
    λ k. record { count = count k; total_ns = total k; max_ns = most k; buckets = buckets k }

empty_stats-IsStats : IsStats empty_stats
empty_stats-IsStats = record { width = refl; counted = refl }

merge_none : (t : LatencyStats) → merge_latency_stats t empty_stats ≡ t
unfolding merge_latency_stats
merge_none t = refl

merge_nonempty : (t d : LatencyStats) → d.count ≢ 0 → merge_latency_stats t d ≡ merged t d
unfolding merge_latency_stats
merge_nonempty t d h = ground arith

-- Merging a batch that starts empty is the same as observing each of its latencies in turn, in all
-- four parts of the statistics, while the 64-bit counter has room for them.
pub merge_latency_stats-observe_all :
    (t : LatencyStats) (ls : List ℕ)
    → IsStats t
    → t.total_ns < 2 ^ 64
    → t.count + length ls < 2 ^ 64
    → merge_latency_stats t (observe_all empty_stats ls) ≡ observe_all t ls
merge_latency_stats-observe_all t [] v k h = merge_none t
merge_latency_stats-observe_all t (l ∷ ls) v k h =
    let count = count-observe_all empty_stats (l ∷ ls) empty_stats-IsStats (omega arith) in
    let all = merged-observe_all t empty_stats (l ∷ ls) v empty_stats-IsStats (omega arith) in
    let start = merged-empty t v (omega arith) k in
    let whole : merged t (observe_all empty_stats (l ∷ ls)) ≡ observe_all t (l ∷ ls) =
      all ∙ ap (λ s. observe_all s (l ∷ ls)) start in
    merge_nonempty t (observe_all empty_stats (l ∷ ls)) (omega (arith, count)) ∙ whole
