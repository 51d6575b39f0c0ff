-- ===== src/Recorder/Reorder/Eviction/Room.antt =====
-- src/sensor_bag_recorder.cpp: room for a new frame set is made by taking out whole sets that the
-- writer has not begun, or nothing is changed.
use mrp_robo_baton_4p_no_ros.Base.{
  ℕ, ◌+◌, ◌-◌, ◌*◌, ◌/◌, ◌%◌, ◌^◌, ◌≤◌, ◌<◌, ◌≡◌, ◌⊎◌, refl, subst, ap, ◌∙◌, true, false, ◌||◌, ltb,
  ◌==◌, arith, inl, inr, Bool-cases, lt→ltb,
}
use mrp_robo_baton_4p_no_ros.Bag.Latency.{saturating_add}
use mrp_robo_baton_4p_no_ros.Recorder.{max_channels, max_oldest_frame_sets_evicted_per_admission}
use mrp_robo_baton_4p_no_ros.Recorder.Reorder.{EncodedQueue}
use mrp_robo_baton_4p_no_ros.Recorder.Reorder.Window.{IsWindow}
use mrp_robo_baton_4p_no_ros.Recorder.Reorder.Eviction.{
  add64, EvictionStats, effective_watermark, candidate_order, groups_to_evict, all_groups_ready,
  evict_oldest, nothing_evicted, add_evictions, make_encoded_admission_room,
}
use mrp_robo_baton_4p_no_ros.Recorder.Reorder.Eviction.Frames.{Evicts}
use mrp_robo_baton_4p_no_ros.Recorder.Reorder.Eviction.Sets.{
  all_groups_ready-Waits, evict_groups-Evicts, evict_groups-counts,
}

round_up : (n size : ℕ) → 0 < size → (n % size < size) × ((n + (size - n % size)) % size ≡ 0)
round_up n size pos =
    let low : n % size < size = grind arith in
    let whole : n + (size - n % size) ≡ (n / size + 1) * size = grind arith in
    (low, rw whole (grind arith))

candidate_order_lem :
    (size : ℕ) (q : EncodedQueue)
    → 0 < size
    → q.next_write_order + size < 2 ^ 64
    → (q.next_write_order ≤ candidate_order size q)
      × (candidate_order size q ≤ q.next_write_order + size)
      × (candidate_order size q % size ≡ 0)
unfolding candidate_order
candidate_order_lem size q pos small =
    let (low, whole) = round_up q.next_write_order size pos in
    elim (Bool-cases (q.next_write_order % size == 0)) [
      | inl first ↦ rw first (omega arith, omega arith, ground arith)
      | inr inside ↦
          let exact : add64 q.next_write_order (size - q.next_write_order % size)
              ≡ q.next_write_order + (size - q.next_write_order % size) =
            omega arith in
          rw (inside, exact) (omega arith, omega arith, whole)
    ]

groups_enough :
    (size frames : ℕ) → 0 < size → size ≤ max_channels → frames ≤ (frames + size - 1) / size * size
groups_enough size frames pos few = grind arith

evict_oldest-Evicts :
    (now_ns size groups : ℕ) (q : EncodedQueue)
    → IsWindow q
    → 0 < size
    → size ≤ max_channels
    → groups ≤ max_oldest_frame_sets_evicted_per_admission
    → q.next_write_order + 4096 < 2 ^ 64
    → all_groups_ready groups 0 size (candidate_order size q) q ≡ true
    → Evicts q (evict_oldest now_ns size groups q).queue (groups * size) (candidate_order size q)
unfolding evict_oldest nothing_evicted
evict_oldest-Evicts now_ns size groups q window pos few sets small ready =
    let candidate : ℕ = candidate_order size q in
    let (low, high, whole) = candidate_order_lem size q pos (omega arith) in
    let little : (0 + groups) * size ≤ 8 = grind arith in
    let waits = all_groups_ready-Waits groups 0 size candidate q (omega arith) ready in
    let evicted =
      evict_groups-Evicts groups 0 size candidate (nothing_evicted q) (omega arith) window waits in
    let from : candidate + 0 * size ≡ candidate = omega arith in
    let out = subst (Evicts q _ (groups * size)) from evicted in
    record {
      window = record { placed = out.window.placed; counted = out.window.counted };
      same_turn = out.same_turn;
      same_watermark = out.same_watermark;
      counted = out.counted;
      kept = out.kept;
    }

evict_oldest_room :
    (size : ℕ) (q q' : EncodedQueue) (first : ℕ)
    → 0 < size
    → size ≤ max_channels
    → 0 < q.high_watermark
    → effective_watermark q ≤ q.count
    → Evicts q q' (groups_to_evict size q * size) first
    → q'.count < effective_watermark q
unfolding groups_to_evict effective_watermark
evict_oldest_room size q q' first pos few watermark full evicts =
    omega (arith, evicts.counted, groups_enough size (q.count - effective_watermark q + 1) pos few)

-- What an admission may change: nothing, or `groups` whole frame sets go.
pub record MakesRoom (size : ℕ) (q q' : EncodedQueue) (stats stats' : EvictionStats) : Type 0 where
  pub groups : ℕ
  pub first : ℕ
  pub at_most : groups ≤ max_oldest_frame_sets_evicted_per_admission
  pub not_begun : q.next_write_order ≤ first
  pub whole_sets : first % size ≡ 0
  pub evicts : Evicts q q' (groups * size) first
  pub counted : stats'.oldest_evicted_groups ≡ saturating_add stats.oldest_evicted_groups groups

-- The admission of a frame set is refused and nothing is changed; or the frames that wait are then
-- below the high watermark. For that nothing is changed or at most two whole frame sets are taken
-- out, which the writer has not begun, and counted, every other frame that waits stays, and the
-- window stays well formed.
pub make_encoded_admission_room-MakesRoom :
    (now_ns size : ℕ) (q : EncodedQueue) (stats : EvictionStats)
    → IsWindow q
    → 0 < q.high_watermark
    → q.next_write_order + 4096 < 2 ^ 64
    → (make_encoded_admission_room now_ns size (q, stats) ≡ ((q, stats), false))
      ⊎ ((q' : EncodedQueue) × (stats' : EvictionStats) × (make_encoded_admission_room now_ns size
              (q, stats)
            ≡ ((q', stats'), true))
          × (q'.count < effective_watermark q')
          × (((q' ≡ q) × (stats' ≡ stats)) ⊎ MakesRoom size q q' stats stats'))
unfolding make_encoded_admission_room
make_encoded_admission_room-MakesRoom now_ns size q stats window watermark small =
    elim (Bool-cases (ltb q.count (effective_watermark q))) [
      | inl room ↦ inr (q, stats, rw room refl, ground arith, inl (refl, refl))
      | inr full ↦ elim (Bool-cases (size == 0 || ltb max_channels size)) [
        | inl bad ↦ inl (rw (full, bad) refl)
        | inr good ↦
            elim (Bool-cases
              (groups == 0 || ltb max_oldest_frame_sets_evicted_per_admission groups)) [
                | inl many ↦ inl (rw (full, good, many) refl)
                | inr few ↦
                    elim (Bool-cases (all_groups_ready groups 0 size (candidate_order size q) q)) [
                      | inl ready ↦
                          let pos : 0 < size = ground arith in
                          let cameras : size ≤ max_channels = ground arith in
                          let q' : EncodedQueue = (evict_oldest now_ns size groups q).queue in
                          let stats' : EvictionStats =
                            add_evictions (evict_oldest now_ns size groups q) stats in
                          let sets : groups ≤ max_oldest_frame_sets_evicted_per_admission =
                            ground arith in
                          let evicts =
                            evict_oldest-Evicts now_ns size groups q window pos cameras sets small
                              ready in
                          let below : q'.count < effective_watermark q =
                            evict_oldest_room size q q' (candidate_order size q) pos cameras
                              watermark (ground arith) evicts in
                          let (low, high, whole) = candidate_order_lem size q pos (omega arith) in
                          inr (
                            q',
                            stats',
                            rw (full, good, few, ready, lt→ltb _ _ below) refl,
                            unfold effective_watermark in rw evicts.same_watermark below,
                            inr (record {
                              groups = groups;
                              first = candidate_order size q;
                              at_most = sets;
                              not_begun = low;
                              whole_sets = whole;
                              evicts = evicts;
                              counted =
                                  unfold add_evictions evict_oldest nothing_evicted in
                                  ap (saturating_add stats.oldest_evicted_groups) (
                                    evict_groups-counts groups 0 size (candidate_order size q)
                                      (nothing_evicted q)
                                    ∙ omega arith);
                            }),
                          )
                      | inr missing ↦ inl (rw (full, good, few, missing) refl)
                    ]
              ]
      ]
    ]
  where
    groups : ℕ
    groups = groups_to_evict size q
