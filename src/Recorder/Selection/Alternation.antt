-- ===== src/Recorder/Selection/Alternation.antt =====
-- src/sensor_bag_recorder.cpp: with `record_frame_skip` 1 every second frame set is recorded, and the
-- callbacks of one set get one answer.
use mrp_robo_baton_4p_no_ros.Base.{
  ℕ, zero, suc, ◌≤◌, ◌<◌, ◌≡◌, ◌≢◌, refl, Bool, not, none, some, List, [], ◌∷◌, ◌++◌, length, arith,
  length-append, All,
}
use mrp_robo_baton_4p_no_ros.Recorder.Selection.{
  RecordSelection, Selector, cached, remember, decide, should_record_group,
  record_selection_cache_capacity,
}

-- Half of the sets are skipped, and the cache is within its capacity.
pub record IsSkipping (s : Selector) : Type 0 where
  pub records : 0 < s.record_target_fps
  pub skips : s.record_frame_skip ≡ 1
  pub bounded : length s.record_selections ≤ record_selection_cache_capacity

length-remember :
    (x : RecordSelection) (xs : List RecordSelection)
    → length xs ≤ record_selection_cache_capacity
    → length (remember x xs) ≤ record_selection_cache_capacity
unfolding remember
length-remember x [] h = omega arith
length-remember x (y ∷ xs) h = ground (arith, length-append xs (x ∷ []))

cached-append :
    (group_id : ℕ) (x : RecordSelection) (xs : List RecordSelection)
    → cached group_id xs ≡ none
    → x.group_id ≡ group_id
    → cached group_id (xs ++ x ∷ []) ≡ some x.selected
unfolding cached
cached-append group_id x [] new same = ground arith
cached-append group_id x (y ∷ xs) new same = ground (arith, cached-append group_id x xs)

cached-append_other :
    (group_id : ℕ) (x : RecordSelection) (xs : List RecordSelection)
    → cached group_id xs ≡ none
    → x.group_id ≢ group_id
    → cached group_id (xs ++ x ∷ []) ≡ none
unfolding cached
cached-append_other group_id x [] new other = ground arith
cached-append_other group_id x (y ∷ xs) new other =
    ground (arith, cached-append_other group_id x xs)

cached-remember :
    (group_id : ℕ) (x : RecordSelection) (xs : List RecordSelection)
    → cached group_id xs ≡ none
    → x.group_id ≡ group_id
    → cached group_id (remember x xs) ≡ some x.selected
unfolding cached remember
cached-remember group_id x [] new same = ground arith
cached-remember group_id x (y ∷ xs) new same = ground (arith, cached-append group_id x xs)

cached-remember_other :
    (group_id : ℕ) (x : RecordSelection) (xs : List RecordSelection)
    → cached group_id xs ≡ none
    → x.group_id ≢ group_id
    → cached group_id (remember x xs) ≡ none
unfolding cached remember
cached-remember_other group_id x [] new other = ground arith
cached-remember_other group_id x (y ∷ xs) new other =
    ground (arith, cached-append_other group_id x xs)

-- A new set gets the turn's answer, and the turn changes; to every further callback of the set the
-- answer is the same and nothing changes. The cache stays within its capacity.
pub should_record_group-IsSkipping :
    (group_id : ℕ) (s : Selector)
    → IsSkipping s
    → cached group_id s.record_selections ≡ none
    → (s' : Selector) × (should_record_group group_id s ≡ (s', s.next_group_should_record))
      × (should_record_group group_id s' ≡ (s', s.next_group_should_record))
      × (s'.next_group_should_record ≡ not s.next_group_should_record)
      × IsSkipping s'
      × ((other : ℕ)
          → other ≢ group_id
          → cached other s.record_selections ≡ none
          → cached other s'.record_selections ≡ none)
unfolding should_record_group decide
should_record_group-IsSkipping group_id s skipping new =
    let now : RecordSelection = record {
      group_id = group_id;
      selected = s.next_group_should_record;
    } in
    let s' : Selector = record s {
      next_group_should_record = not s.next_group_should_record;
      record_selections = remember now s.record_selections;
    } in
    let kept = cached-remember group_id now s.record_selections new refl in
    (
      s',
      ground arith,
      ground arith,
      refl,
      record {
        records = skipping.records;
        skips = skipping.skips;
        bounded = length-remember now s.record_selections skipping.bounded;
      },
      λ other apart none_yet.
          cached-remember_other other now s.record_selections none_yet (ground arith),
    )

-- The answers along a sequence of sets.
pub answers : List ℕ → Selector → List Bool
answers [] s = []
answers (g ∷ gs) s = (should_record_group g s).1 ∷ answers gs (should_record_group g s).0

pub alternating : Bool → ℕ → List Bool
alternating b zero = []
alternating b (suc n) = b ∷ alternating (not b) n

-- Sets that are different from each other, and not in the cache.
abbrev pub AreNew : List ℕ → Selector → Type 0
AreNew gs s = All (λ g. cached g s.record_selections ≡ none) gs

abbrev pub Differ : List ℕ → Type 0
Differ [] = Unit {0}
Differ (g ∷ gs) = All (λ other. other ≢ g) gs × Differ gs

AreNew-after :
    (group_id : ℕ) (gs : List ℕ) (s s' : Selector)
    → All (λ other. other ≢ group_id) gs
    → ((other : ℕ)
        → other ≢ group_id
        → cached other s.record_selections ≡ none
        → cached other s'.record_selections ≡ none)
    → AreNew gs s
    → AreNew gs s'
AreNew-after group_id [] s s' differ keeps new = new
AreNew-after group_id (g ∷ gs) s s' differ keeps new =
    (keeps g differ.0 new.0, AreNew-after group_id gs s s' differ.1 keeps new.1)

-- Of any sequence of new sets every second one is recorded, from the turn's answer on.
pub answers-alternating :
    (gs : List ℕ) (s : Selector)
    → IsSkipping s
    → AreNew gs s
    → Differ gs
    → answers gs s ≡ alternating s.next_group_should_record (length gs)
unfolding answers alternating
answers-alternating [] s skipping new differ = refl
answers-alternating (g ∷ gs) s skipping new differ =
    let (s', first, again, turn, skipping', keeps) =
      should_record_group-IsSkipping g s skipping new.0 in
    let rest =
      answers-alternating gs s' skipping' (AreNew-after g gs s s' differ.0 keeps new.1) differ.1 in
    rw (first, rest, turn) refl
