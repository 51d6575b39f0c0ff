-- ===== src/Recorder/Reorder/Eviction/Sets.antt =====
-- src/sensor_bag_recorder.cpp: the loops of an eviction. The test over the frame sets finds frames that
-- wait, and the loops over these take out as many, and no other.
use mrp_robo_baton_4p_no_ros.Base.{
  ℕ, zero, suc, ◌+◌, ◌-◌, ◌*◌, ◌^◌, ◌≤◌, ◌<◌, ◌≡◌, subst, sym, ap, true, ltb, arith, inl, inr,
  Bool-cases,
}
use mrp_robo_baton_4p_no_ros.Bag.Latency.{saturating_add}
use mrp_robo_baton_4p_no_ros.Recorder.Reorder.{EncodedQueue}
use mrp_robo_baton_4p_no_ros.Recorder.Reorder.Window.{IsWindow}
use mrp_robo_baton_4p_no_ros.Recorder.Reorder.Eviction.{
  add64, Eviction, complete_ready_group, all_groups_ready, evict_frames, evict_groups,
}
use mrp_robo_baton_4p_no_ros.Recorder.Reorder.Eviction.Frames.{
  Evicts, Waits, Evicts-refl, Evicts-trans, complete_ready_group-Waits, evict_frames-Evicts,
  evict_frames-counts,
}

turn_of_groups :
    (n gi size : ℕ)
    → ((gi + 1) * size ≡ gi * size + size)
      × ((gi + suc n) * size ≡ gi * size + size + n * size)
      × ((gi + suc n) * size ≡ (gi + 1 + n) * size)
      × (suc n * size ≡ size + n * size)
turn_of_groups n gi size = (grind arith, grind arith, grind arith, grind arith)

all_groups_ready-step :
    (n gi size candidate : ℕ) (q : EncodedQueue)
    → candidate + gi * size < 2 ^ 64
    → all_groups_ready (suc n) gi size candidate q ≡ true
    → (complete_ready_group size 0 (candidate + gi * size) 0 q ≡ true)
      × (all_groups_ready n (gi + 1) size candidate q ≡ true)
unfolding all_groups_ready
all_groups_ready-step n gi size candidate q small ready =
    let exact : add64 candidate (gi * size) ≡ candidate + gi * size = omega arith in
    let ready' = rw exact at ready in (ground arith, ground arith)

pub all_groups_ready-Waits :
    (n gi size candidate : ℕ) (q : EncodedQueue)
    → candidate + (gi + n) * size < 2 ^ 64
    → all_groups_ready n gi size candidate q ≡ true
    → (j : ℕ) → gi * size ≤ j
    → j < (gi + n) * size
    → Waits q (candidate + j)
all_groups_ready-Waits zero gi size candidate q small ready j low high =
    let none_left : (gi + 0) * size ≡ gi * size = ap (λ (t : ℕ). t * size) (omega arith) in
    absurd (omega arith)
all_groups_ready-Waits (suc n) gi size candidate q small ready j low high =
    let (next, all, same, _) = turn_of_groups n gi size in
    let (first, rest) = all_groups_ready-step n gi size candidate q (omega arith) ready in
    elim (Bool-cases (ltb j (gi * size + size))) [
      | inl here ↦
          let at_j : candidate + gi * size + (j - gi * size) ≡ candidate + j = omega arith in
          subst (Waits q) at_j (
            complete_ready_group-Waits size 0 (candidate + gi * size) 0 q (omega arith) first
              (j - gi * size) (omega arith) (ground arith))
      | inr behind ↦
          all_groups_ready-Waits n (gi + 1) size candidate q (omega arith) rest j (ground arith)
            (omega arith)
    ]

pub evict_groups-Evicts :
    (n gi size candidate : ℕ) (e : Eviction)
    → candidate + (gi + n) * size < 2 ^ 64
    → IsWindow e.queue
    → ((j : ℕ) → gi * size ≤ j → j < (gi + n) * size → Waits e.queue (candidate + j))
    → Evicts e.queue (evict_groups n gi size candidate e).queue (n * size) (candidate + gi * size)
unfolding evict_groups
evict_groups-Evicts zero gi size candidate e small window ready =
    subst (λ k. Evicts e.queue e.queue k (candidate + gi * size)) (omega arith)
      (Evicts-refl e.queue (candidate + gi * size) window)
evict_groups-Evicts (suc n) gi size candidate e small window ready =
    let (next, all, same, total) = turn_of_groups n gi size in
    let exact : add64 candidate (gi * size) ≡ candidate + gi * size = omega arith in
    let order : ℕ = candidate + gi * size in
    let e' : Eviction = evict_frames size 0 order e in
    let grown : Eviction = record e' {
      groups = e'.groups + 1;
      frames = saturating_add e'.frames size;
    } in
    let from : order + 0 ≡ order = omega arith in
    let here : Evicts e.queue e'.queue size order = subst (Evicts e.queue e'.queue size) from (
      evict_frames-Evicts size 0 order e (omega arith) window (λ j low high.
        subst (Waits e.queue) (omega arith) (ready (gi * size + j) (omega arith) (omega arith)))) in
    let rest =
      evict_groups-Evicts n (gi + 1) size candidate grown (omega arith) here.window (λ j low high.
        let waits = ready j (omega arith) (omega arith) in
        rw (here.kept (candidate + j) waits (inr (omega arith))) waits) in
    subst
      (λ x.
        Evicts e.queue
          (evict_groups n (gi + 1) size candidate (record (evict_frames size 0 x e) {
            groups = (evict_frames size 0 x e).groups + 1;
            frames = saturating_add (evict_frames size 0 x e).frames size;
          })).queue
          (suc n * size) order)
      (sym exact)
      (Evicts-trans e.queue e'.queue _ size (n * size) (suc n * size) order
        (candidate + (gi + 1) * size) (omega arith) (sym total) here rest)

pub evict_groups-counts :
    (n gi size candidate : ℕ) (e : Eviction)
    → (evict_groups n gi size candidate e).groups ≡ e.groups + n
unfolding evict_groups
evict_groups-counts zero gi size candidate e = omega arith
evict_groups-counts (suc n) gi size candidate e = omega (
  arith,
  evict_groups-counts n (gi + 1) size candidate _,
  (evict_frames-counts size 0 (add64 candidate (gi * size)) e).0,
)
