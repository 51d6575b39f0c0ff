-- ===== src/Recorder/Selection.antt =====
-- src/sensor_bag_recorder.cpp: which frame sets are recorded, `ShouldRecordGroup`, with the cache of
-- its decisions, and `ImagePersistenceFps`.
pub mod Alternation
use mrp_robo_baton_4p_no_ros.Base.{
  ℕ, ◌+◌, ◌/◌, Bool, true, false, not, Option, none, some, List, [], ◌∷◌, ◌++◌, length, drop, ltb,
  leb, ◌==◌, if◌then◌else◌,
}
use mrp_robo_baton_4p_no_ros.Base.Int.{ℤ, pos, pos_part}

abbrev pub record_selection_cache_capacity : ℕ
record_selection_cache_capacity = 256

unfoldable pub image_persistence_fps : ℤ → ℕ → ℕ
image_persistence_fps fps record_frame_skip =
    if leb (pos_part fps) 0 then 0 else pos_part fps / (record_frame_skip + 1)

pub record RecordSelection : Type 0 where
  pub group_id : ℕ
  pub selected : Bool

pub record Selector : Type 0 where
  pub record_target_fps : ℕ
  pub record_frame_skip : ℕ
  pub record_selections : List RecordSelection
  pub next_group_should_record : Bool

unfoldable pub cached : ℕ → List RecordSelection → Option Bool
cached group_id [] = none
cached group_id (x ∷ xs) = if x.group_id == group_id then some x.selected else cached group_id xs

-- The decision joins the cache, which forgets the oldest beyond its capacity.
unfoldable pub remember : RecordSelection → List RecordSelection → List RecordSelection
remember x xs =
    let grown = xs ++ x ∷ [] in
    if ltb record_selection_cache_capacity (length grown) then drop 1 grown else grown

unfoldable pub decide : ℕ → Selector → Selector × Bool
unfolding remember
decide group_id s =
    let alternates = s.record_frame_skip == 1 in
    let selected = if alternates then s.next_group_should_record else true in
    (
      record s {
        next_group_should_record =
            if alternates then not s.next_group_should_record else s.next_group_should_record;
        record_selections =
            remember (record { group_id = group_id; selected = selected }) s.record_selections;
      },
      selected,
    )

unfoldable pub should_record_group : ℕ → Selector → Selector × Bool
unfolding cached decide
should_record_group group_id s =
    if s.record_target_fps == 0
    then (s, false)
    else if s.record_frame_skip == 0
    then (s, true)
    else elim (cached group_id s.record_selections) [
      | some selected ↦ (s, selected)
      | none ↦ decide group_id s
    ]
