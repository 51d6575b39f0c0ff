-- ===== src/Bag/Latency/Buckets.antt =====
-- Which bucket a latency falls in, and what a percentile reports.
use mrp_robo_baton_4p_no_ros.Base.{
  ℕ, zero, suc, ◌+◌, ◌-◌, ◌*◌, ◌/◌, ◌%◌, ◌^◌, ◌≤◌, ◌<◌, ◌≡◌, refl, ap, ◌⊎◌, inl, inr, List, [], ◌∷◌,
  ◌&&◌, arith, Bool-cases, ltb, length, min, take, sum,
}
use native.Mathlib.Numerals.{add-one}
use native.Mathlib.Decide.{dec_le}
use native.Mathlib.Nat.{add-zero, zero-add, pow-suc, pow-le-pow_right}
use mrp_robo_baton_4p_no_ros.Bag.Latency.{
  LatencyStats, saturating_add_exact, double_bound, bucket_index_loop, latency_bucket_index,
  upper_bound_loop, latency_bucket_upper_bound_ns, percentile_loop, latency_percentile_upper_ns,
  latency_bucket_count,
}

-- A power of two is positive, so a product with one is not smaller.
le-mul-pow : (b n : ℕ) → b ≤ b * 2 ^ n
le-mul-pow b zero = omega arith
le-mul-pow b (suc n) = omega (arith, le-mul-pow b n, ap (λ t. b * t) (pow-suc 2 n))

double-mul-pow : (b n : ℕ) → b * 2 * 2 ^ n ≡ b * 2 ^ suc n
double-mul-pow b n = omega (arith, ap (λ t. b * t) (pow-suc 2 n))

-- The saturation of the doubling is never met.
upper_bound_loop_lem :
    (rounds b : ℕ) → b * 2 ^ rounds < 2 ^ 63 → upper_bound_loop rounds b ≡ b * 2 ^ rounds
unfolding upper_bound_loop double_bound
upper_bound_loop_lem zero b h = omega arith
upper_bound_loop_lem (suc n) b h =
    ground (arith, upper_bound_loop_lem n (b * 2), le-mul-pow (b * 2) n, double-mul-pow b n)

index_pow : (i : ℕ) → i < 32 → 1000 * 2 ^ i < 2 ^ 63
index_pow i h = omega (arith, pow-le-pow_right {n = 2} (omega arith) {i = i} {j = 31} (omega arith))

-- The bounds of the 32 buckets are 1000 nanoseconds times the powers of two.
pub latency_bucket_upper_bound_ns_lem :
    (i : ℕ) → i < 32 → latency_bucket_upper_bound_ns i ≡ 1000 * 2 ^ i
unfolding latency_bucket_upper_bound_ns
latency_bucket_upper_bound_ns_lem i h = upper_bound_loop_lem i 1000 (index_pow i h)

-- The bucket of a latency: the first whose bound is not below it, and the last where none is.
abbrev pub IsBucket : ℕ → ℕ → Type 0
IsBucket latency i =
    (i < 32) × ((latency ≤ 1000 * 2 ^ i) ⊎ (i ≡ 31)) × ((i ≡ 0) ⊎ (1000 * 2 ^ (i - 1) < latency))

double_bound_pow : (i : ℕ) → i < 31 → double_bound (1000 * 2 ^ i) ≡ 1000 * 2 ^ (i + 1)
unfolding double_bound
double_bound_pow i h = ground (
  arith,
  index_pow (suc i),
  double-mul-pow 1000 i,
  ap (λ t. 1000 * t) (pow-suc 2 i),
  ap (λ (k : ℕ). 2 ^ k) (add-one i),
)

bucket_index_loop_lem :
    (fuel latency i : ℕ)
    → fuel + i ≡ 32
    → i < 32
    → (i ≡ 0) ⊎ (1000 * 2 ^ (i - 1) < latency)
    → IsBucket latency (bucket_index_loop fuel latency (1000 * 2 ^ i) i)
unfolding bucket_index_loop
bucket_index_loop_lem zero latency i f h b = absurd (omega arith)
bucket_index_loop_lem (suc fuel) latency i f h b =
    elim (Bool-cases (ltb (1000 * 2 ^ i) latency && ltb (i + 1) latency_bucket_count)) [
      | inl more ↦
          rw (more, double_bound_pow i (ground arith))
            (bucket_index_loop_lem fuel latency (i + 1) (omega arith) (ground arith)
              (inr (let e : i + 1 - 1 ≡ i = omega arith in rw e (ground arith))))
      | inr done ↦ rw done (h, ground arith, b)
    ]

-- The loop finds the one bucket of a latency: the first whose bound is not below it, or the last.
pub latency_bucket_index-IsBucket : (latency : ℕ) → IsBucket latency (latency_bucket_index latency)
unfolding latency_bucket_index
latency_bucket_index-IsBucket latency =
    bucket_index_loop_lem 32 latency 0 (omega arith) (omega arith) (inl refl)

-- The first bucket at which the running total reaches the rank.
abbrev pub IsPercentile : List ℕ → ℕ → ℕ → ℕ → Type 0
IsPercentile buckets rank cumulative k =
    (rank ≤ cumulative + sum (take (suc k) buckets))
    × ((rank ≡ 0) ⊎ (cumulative + sum (take k buckets) < rank))

next_index : (i k : ℕ) → i + 1 + k ≡ i + suc k
next_index i k = omega arith

percentile_loop_lem :
    (b : ℕ) (bs : List ℕ) (i cumulative rank max_ns : ℕ)
    → i + suc (length bs) ≤ 32
    → cumulative + sum (b ∷ bs) < 2 ^ 64
    → rank ≤ cumulative + sum (b ∷ bs)
    → (rank ≡ 0) ⊎ (cumulative < rank)
    → (k : ℕ) × (k ≤ length bs)
      × (percentile_loop (b ∷ bs) i cumulative rank max_ns ≡ 1000 * 2 ^ (i + k))
      × IsPercentile (b ∷ bs) rank cumulative k
unfolding percentile_loop
percentile_loop_lem b [] i cumulative rank max_ns len small le low = (
  0,
  omega arith,
  ground
      (arith, saturating_add_exact cumulative b, latency_bucket_upper_bound_ns_lem i, add-zero i),
  (omega arith, ground (arith)),
)
percentile_loop_lem b (c ∷ bs) i cumulative rank max_ns len small le low =
    elim (dec_le rank (cumulative + b)) [
      | yes stop ↦ (
        0,
        omega arith,
        ground (
          arith,
          saturating_add_exact cumulative b,
          latency_bucket_upper_bound_ns_lem i,
          add-zero i,
        ),
        (omega arith, ground arith),
      )
      | no go ↦
          let (k, k_le, eq, found) =
            percentile_loop_lem c bs (i + 1) (cumulative + b) rank max_ns (omega arith)
              (omega arith) (omega arith) (inr (omega arith)) in
          (
            suc k,
            omega arith,
            rw (saturating_add_exact cumulative b (omega arith))
                (ground (arith, eq, ap (λ (n : ℕ). 1000 * 2 ^ n) (next_index i k))),
            (omega (arith, found), ground (arith, found)),
          )
    ]

-- The statistics of at most 2^57 latencies: the buckets hold them all.
pub record IsStats (s : LatencyStats) : Type 0 where
  pub width : length s.buckets ≡ 32
  pub counted : sum s.buckets ≡ s.count

-- The rank of a percentile among `count` values, rounded up.
abbrev pub rank_of : ℕ → ℕ → ℕ
rank_of count percentile = (count * min percentile 100 + 99) / 100

product-le : (count m : ℕ) → m ≤ 100 → count * m ≤ count * 100
product-le count m h = grind arith

rank_exact :
    (count percentile : ℕ)
    → count < 2 ^ 57
    → ((count * min percentile 100 + 99) % 2 ^ 64 / 100 ≡ rank_of count percentile)
      × (rank_of count percentile ≤ count)
rank_exact count percentile h =
    let le = product-le count (min percentile 100) (omega arith) in (omega arith, omega arith)

IsPercentile-exists :
    (buckets : List ℕ) (count rank max_ns : ℕ)
    → length buckets ≡ 32
    → sum buckets ≡ count
    → count < 2 ^ 57
    → rank ≤ count
    → (k : ℕ) × (k < 32)
      × (percentile_loop buckets 0 0 rank max_ns ≡ 1000 * 2 ^ k)
      × IsPercentile buckets rank 0 k
IsPercentile-exists [] count rank max_ns w c h r = absurd (omega arith)
IsPercentile-exists (b ∷ bs) count rank max_ns w c h r =
    let (k, k_le, eq, found) =
      percentile_loop_lem b bs 0 0 rank max_ns (omega arith) (omega arith) (omega arith)
        (ground arith) in
    (k, omega arith, ground (arith, eq, ap (λ (n : ℕ). 1000 * 2 ^ n) (zero-add k)), found)

-- For statistics whose buckets add up to a count of 1 to 2^57 - 1, the reported percentile is the bound of the first bucket at which the running count reaches the
-- rank; the loop never falls through to `max_ns`.
pub latency_percentile_upper_ns_lem :
    (s : LatencyStats) (percentile : ℕ)
    → IsStats s
    → 0 < s.count
    → s.count < 2 ^ 57
    → (k : ℕ) × (k < 32)
      × (latency_percentile_upper_ns s percentile ≡ 1000 * 2 ^ k)
      × IsPercentile s.buckets (rank_of s.count percentile) 0 k
unfolding latency_percentile_upper_ns
latency_percentile_upper_ns_lem s percentile v p h =
    let (exact, le) = rank_exact s.count percentile h in
    let (k, k_lt, eq, found) =
      IsPercentile-exists s.buckets s.count (rank_of s.count percentile) s.max_ns v.width v.counted
        h le in
    (k, k_lt, rw exact (ground (arith, eq)), found)
