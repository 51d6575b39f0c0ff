-- ===== src/Recorder/Imu/Contents.antt =====
-- src/sensor_bag_recorder.cpp: the IMU ring as a queue of samples, oldest first.
use mrp_robo_baton_4p_no_ros.Base.{
  ℕ, zero, suc, ◌+◌, ◌-◌, ◌%◌, ◌≤◌, ◌<◌, ◌≡◌, ◌≢◌, ◌⊎◌, refl, ap, ap₂, sym, ◌∙◌, false, List, [],
  ◌∷◌, ◌++◌, leb, ◌==◌, min, arith, inl, inr, length, Bool-cases, leb→le, length-append, append-nil,
}
use mrp_robo_baton_4p_no_ros.Base.Slots.{update}
use mrp_robo_baton_4p_no_ros.Bag.Latency.{increment64}
use mrp_robo_baton_4p_no_ros.Recorder.{imu_queue_capacity}
use mrp_robo_baton_4p_no_ros.Recorder.Imu.{
  ImuSample, ImuQueue, store_imu_sample, admit_imu_sample, copy_n, copy_batch, take_imu_samples,
  pop_imu_batch,
}

-- The `n` slots of the ring from `first` on, around its end.
module _ {ℓ} {A : Type ℓ} where
  pub around : ℕ → ℕ → (ℕ → A) → List A
  around zero first slots = []
  around (suc n) first slots = slots (first % imu_queue_capacity) ∷ around n (first + 1) slots

  length-around : (n first : ℕ) (slots : ℕ → A) → length (around n first slots) ≡ n
  unfolding around
  length-around zero first slots = refl
  length-around (suc n) first slots = ap suc (length-around n (first + 1) slots)

  around-add :
      (n m first : ℕ) (slots : ℕ → A)
      → around (n + m) first slots ≡ around n first slots ++ around m (first + n) slots
  unfolding around
  around-add zero m first slots =
      let none_before : 0 + m ≡ m = omega arith in
      let same : first + 0 ≡ first = omega arith in rw (none_before, same)
  around-add (suc n) m first slots =
      let turn : first + 1 + n ≡ first + suc n = omega arith in
      let out : suc n + m ≡ suc (n + m) = omega arith in
      rw (out, sym turn)
        (ap (λ rest. slots (first % imu_queue_capacity) ∷ rest) (around-add n m (first + 1) slots))

  around_wrap :
      (n first later : ℕ) (slots : ℕ → A)
      → first % imu_queue_capacity ≡ later % imu_queue_capacity
      → around n first slots ≡ around n later slots
  unfolding around
  around_wrap zero first later slots same = refl
  around_wrap (suc n) first later slots same =
      ap₂ (λ i rest. slots i ∷ rest) same
        (around_wrap n (first + 1) (later + 1) slots (omega arith))

  -- A write behind the slots, with less than one turn between it and the first, is not seen.
  around-update :
      (n gap first : ℕ) (slots : ℕ → A) (value : A)
      → n + gap < imu_queue_capacity
      → around n first (update slots ((first + n + gap) % imu_queue_capacity) value)
        ≡ around n first slots
  unfolding around
  around-update zero gap first slots value h = refl
  around-update (suc n) gap first slots value h =
      let next : first + 1 + n + gap ≡ first + suc n + gap = omega arith in
      let apart : (first + suc n + gap) % imu_queue_capacity ≢ first % imu_queue_capacity =
        λ same. omega arith in
      ground (arith, around-update n gap (first + 1) slots value)

  copy_n-around :
      (n first : ℕ) (slots : ℕ → A)
      → first + n ≤ imu_queue_capacity
      → copy_n slots first n ≡ around n first slots
  unfolding around copy_n
  copy_n-around zero first slots h = refl
  copy_n-around (suc n) first slots h =
      let low : first % imu_queue_capacity ≡ first = omega arith in
      ground (arith, copy_n-around n (first + 1) slots)

pub record IsRing (q : ImuQueue) : Type 0 where
  pub head_below : q.head < imu_queue_capacity
  pub count_le : q.count ≤ imu_queue_capacity

-- The queue that the ring stands for.
pub contents : ImuQueue → List ImuSample
contents q = around q.count q.head q.samples

store_imu_sample-contents :
    (now_ns : ℕ) (sample : ImuSample) (q : ImuQueue)
    → q.count < imu_queue_capacity
    → contents (store_imu_sample now_ns sample q) ≡ contents q ++ sample ∷ []
unfolding store_imu_sample contents around
store_imu_sample-contents now_ns sample q room =
    let tail : ℕ = (q.head + q.count) % imu_queue_capacity in
    let slots : (ℕ → ImuSample) = update q.samples tail sample in
    let same : q.head + q.count + 0 ≡ q.head + q.count = omega arith in
    let old : around q.count q.head slots ≡ around q.count q.head q.samples =
      rw same at (around-update q.count 0 q.head q.samples sample (omega arith)) in
    let new : slots tail ≡ sample = ground arith in
    around-add q.count 1 q.head slots ∙ ap₂ (λ xs x. xs ++ x ∷ []) old new

-- An arriving sample is put behind those that wait, and the writer is notified exactly for the first;
-- a full ring keeps what waits and counts the sample as rejected. The ring stays well formed.
pub admit_imu_sample-contents :
    (now_ns : ℕ) (sample : ImuSample) (q : ImuQueue)
    → IsRing q
    → IsRing (admit_imu_sample now_ns sample q).0
      × (((q.count < imu_queue_capacity)
            × (contents (admit_imu_sample now_ns sample q).0 ≡ contents q ++ sample ∷ [])
            × ((admit_imu_sample now_ns sample q).0.admitted ≡ increment64 q.admitted)
            × ((admit_imu_sample now_ns sample q).1 ≡ (q.count == 0)))
          ⊎ ((q.count ≡ imu_queue_capacity)
              × (contents (admit_imu_sample now_ns sample q).0 ≡ contents q)
              × ((admit_imu_sample now_ns sample q).0.stats.full_rejects
                  ≡ increment64 q.stats.full_rejects)
              × ((admit_imu_sample now_ns sample q).1 ≡ false)))
unfolding admit_imu_sample store_imu_sample contents
admit_imu_sample-contents now_ns sample q ring =
    elim (Bool-cases (leb imu_queue_capacity q.count)) [
      | inl full ↦ rw full (
        record { head_below = ring.head_below; count_le = ring.count_le },
        inr (omega (arith, leb→le), refl, refl, refl),
      )
      | inr room ↦ rw room (
        record { head_below = ring.head_below; count_le = ground arith },
        inl (ground arith, store_imu_sample-contents now_ns sample q (ground arith), refl, refl),
      )
    ]

copy_batch-around :
    (n : ℕ) (q : ImuQueue)
    → q.head < imu_queue_capacity
    → n ≤ imu_queue_capacity
    → copy_batch n q ≡ around n q.head q.samples
unfolding copy_batch
copy_batch-around n q h k = elim (Bool-cases (leb n (imu_queue_capacity - q.head))) [
  | inl straight ↦
      let all : min n (imu_queue_capacity - q.head) ≡ n = ground arith in
      let rest : n - n ≡ 0 = omega arith in
      rw (all, rest, copy_n) (append-nil _ ∙ copy_n-around n q.head q.samples (ground arith))
  | inr around_the_end ↦
      let first_count : ℕ = imu_queue_capacity - q.head in
      let cut : min n (imu_queue_capacity - q.head) ≡ first_count = ground arith in
      let whole : first_count + (n - first_count) ≡ n = ground arith in
      let turn : around (n - first_count) 0 q.samples
          ≡ around (n - first_count) (q.head + first_count) q.samples =
        around_wrap (n - first_count) 0 (q.head + first_count) q.samples (omega arith) in
      rw cut (
        ap₂ ◌++◌ (copy_n-around first_count q.head q.samples (omega arith))
          (copy_n-around (n - first_count) 0 q.samples (omega arith) ∙ turn)
        ∙ sym (around-add first_count (n - first_count) q.head q.samples)
        ∙ ap (λ k. around k q.head q.samples) whole)
]

take_imu_samples-contents :
    (now_ns n : ℕ) (q : ImuQueue)
    → IsRing q
    → n ≤ q.count
    → copy_batch n q ++ contents (take_imu_samples now_ns n q) ≡ contents q
unfolding take_imu_samples contents
take_imu_samples-contents now_ns n q ring h =
    let whole : n + (q.count - n) ≡ q.count = omega arith in
    ap₂ ◌++◌ (copy_batch-around n q ring.head_below (omega (arith, ring.count_le))) (
      around_wrap (q.count - n) ((q.head + n) % imu_queue_capacity) (q.head + n) q.samples
        (omega arith))
    ∙ sym (around-add n (q.count - n) q.head q.samples)
    ∙ ap (λ k. around k q.head q.samples) whole

-- The writer takes the oldest samples, as many as it asks for or there are, in their order, and
-- leaves the others. The ring stays well formed.
pub pop_imu_batch-contents :
    (now_ns max_samples : ℕ) (q : ImuQueue)
    → IsRing q
    → IsRing (pop_imu_batch now_ns max_samples q).0
      × ((pop_imu_batch now_ns max_samples q).1 ++ contents (pop_imu_batch now_ns max_samples q).0
          ≡ contents q)
      × (length (pop_imu_batch now_ns max_samples q).1 ≡ min max_samples (length (contents q)))
unfolding pop_imu_batch
pop_imu_batch-contents now_ns max_samples q ring =
    elim (Bool-cases (min max_samples q.count == 0)) [
      | inl nothing ↦
          let none_taken : min max_samples q.count ≡ 0 = ground arith in
          rw nothing
            (ring, refl, unfold contents in omega (arith, length-around q.count q.head q.samples))
      | inr some_samples ↦ rw some_samples (
        unfold take_imu_samples in
            record { head_below = omega arith; count_le = omega (arith, ring.count_le) },
        take_imu_samples-contents now_ns (min max_samples q.count) q ring (omega arith),
        ap length (
              copy_batch-around (min max_samples q.count) q ring.head_below
                (omega (arith, ring.count_le)))
            ∙ length-around _ q.head q.samples
            ∙ ap (min max_samples)
                (sym (unfold contents in length-around q.count q.head q.samples)),
      )
    ]

-- How many samples are taken, and how many stay.
pub pop_imu_batch_count :
    (now_ns max_samples : ℕ) (q : ImuQueue)
    → IsRing q
    → (pop_imu_batch now_ns max_samples q).0.count + length (pop_imu_batch now_ns max_samples q).1
        ≡ q.count
      × (length (pop_imu_batch now_ns max_samples q).1 ≡ min max_samples q.count)
pop_imu_batch_count now_ns max_samples q ring =
    let (ring', parts, taken) = pop_imu_batch-contents now_ns max_samples q ring in
    let whole = ap length parts in
    unfold contents in
    (
      omega (
        arith,
        whole,
        length-append (pop_imu_batch now_ns max_samples q).1
            (contents (pop_imu_batch now_ns max_samples q).0),
        length-around (pop_imu_batch now_ns max_samples q).0.count
            (pop_imu_batch now_ns max_samples q).0.head
            (pop_imu_batch now_ns max_samples q).0.samples,
        length-around q.count q.head q.samples,
      ),
      taken ∙ ap (min max_samples) (length-around q.count q.head q.samples),
    )
