-- ===== src/Recorder/Admission/Staged.antt =====
-- src/sensor_bag_recorder.cpp: the checks of a frame set give a job for each of its items.
use mrp_robo_baton_4p_no_ros.Base.{
  ℕ, suc, ◌+◌, ◌%◌, ◌≡◌, refl, sym, subst, ◌∙◌, true, ap, Bool, not, ◌||◌, Option, none, some, List,
  [], ◌∷◌, length, leb, ◌==◌, arith, inl, inr, Bool-cases, bit_and, ◌^◌,
}
use mrp_robo_baton_4p_no_ros.Recorder.{FrameJob, max_channels}
use mrp_robo_baton_4p_no_ros.Recorder.FrameSets.{
  FrameSet, FrameSetItem, FrameInfo, Driver, Checked, jobs_of, refused, check_items, check_item,
  check_info, info_matches, make_job, stage, add_job,
}
use Prim.Native.Nat.{bit_or}
use mrp_robo_baton_4p_no_ros.Base.Int.{pos}
use mrp_robo_baton_4p_no_ros.Camera.{camera_mask_contains}
use mrp_robo_baton_4p_no_ros.Recorder.Reorder.Eviction.{add64}

-- A job is of an item of the set: its fields are the item's and the set's, its frame is the item's, and
-- the row lengths are those that the driver tells of the frame.
pub record IsJobOf (driver : Driver) (frame_set : FrameSet) (item : FrameSetItem) (order : ℕ)
    (job : FrameJob) : Type 0 where
  pub frame :
      (frame : ℕ) × (item.frame ≡ some frame)
      × (job.raw_frame ≡ some frame)
      × ((info : FrameInfo) × (driver.get_info frame ≡ some info)
          × (job.stride ≡ info.stride)
          × (job.vstride ≡ info.vstride))
  pub camera : job.camera_id ≡ item.camera_id
  pub sequence : job.sequence ≡ item.sequence
  pub frame_id : job.frame_id ≡ item.frame_id
  pub size : (job.width ≡ item.width) × (job.height ≡ item.height)
  pub time : job.camera_timestamp_ns ≡ item.timestamp_ns
  pub group :
      (job.group_id ≡ frame_set.group_id) × (job.group_timestamp_ns ≡ frame_set.group_timestamp_ns)
  pub position : job.record_order ≡ order

-- One job for each item, in their order, with consecutive 64-bit orders from `order` on.
abbrev pub AreJobsOf : Driver → FrameSet → ℕ → List FrameSetItem → List FrameJob → Type 0
AreJobsOf driver frame_set order [] [] = Unit {0}
AreJobsOf driver frame_set order [] (job ∷ jobs) = ⊥
AreJobsOf driver frame_set order (item ∷ items) [] = ⊥
AreJobsOf driver frame_set order (item ∷ items) (job ∷ jobs) =
    IsJobOf driver frame_set item order job
    × AreJobsOf driver frame_set ((order + 1) % 2 ^ 64) items jobs

-- The first of the jobs is that of the item.
abbrev Begins : Driver → FrameSet → FrameSetItem → Option ℕ → Checked → List (ℕ × FrameJob) → Type 0
Begins driver frame_set item given checked jobs =
    (rest : List (ℕ × FrameJob)) × (frame : ℕ) × (info : FrameInfo) × (given ≡ some frame)
    × (driver.get_info frame ≡ some info)
    × (info_matches item info ≡ true)
    × (checked ≡ jobs_of rest)
    × (jobs ≡ (frame, make_job frame_set item info) ∷ rest)

add_job-first :
    (frame : ℕ) (job : FrameJob) (checked : Checked) (jobs : List (ℕ × FrameJob))
    → add_job frame job checked ≡ jobs_of jobs
    → (rest : List (ℕ × FrameJob)) × (checked ≡ jobs_of rest) × (jobs ≡ (frame, job) ∷ rest)
add_job-first frame job (jobs_of rest) jobs e = (rest, refl, cc)
add_job-first frame job (refused message) jobs e = cc

check_info-Begins :
    (driver : Driver) (frame_set : FrameSet) (item : FrameSetItem) (frame : ℕ)
    (answer : Option FrameInfo) (checked : Checked) (jobs : List (ℕ × FrameJob))
    → driver.get_info frame ≡ answer
    → check_info frame_set item frame answer checked ≡ jobs_of jobs
    → Begins driver frame_set item (some frame) checked jobs
unfolding check_info
check_info-Begins driver frame_set item frame none checked jobs told e = cc
check_info-Begins driver frame_set item frame (some info) checked jobs told e =
    elim (Bool-cases (info_matches item info)) [
      | inl fits ↦
          let (rest, same, first) =
            add_job-first frame (make_job frame_set item info) checked jobs (rw fits at e) in
          (rest, frame, info, refl, told, fits, same, first)
      | inr differs ↦ absurd (ground arith)
    ]

check_item-Begins :
    (driver : Driver) (camera_mask : ℕ) (frame_set : FrameSet) (observed_mask : ℕ)
    (item : FrameSetItem) (frame : Option ℕ) (checked : Checked) (jobs : List (ℕ × FrameJob))
    → check_item driver camera_mask frame_set observed_mask item frame checked ≡ jobs_of jobs
    → Begins driver frame_set item frame checked jobs
unfolding check_item
check_item-Begins driver camera_mask frame_set observed_mask item none checked jobs e = cc
check_item-Begins driver camera_mask frame_set observed_mask item (some frame) checked jobs e =
    elim (Bool-cases invalid) [
      | inl bad ↦ let e' = rw bad at e in absurd (ground arith)
      | inr good ↦ elim (Bool-cases (bit_and observed_mask (2 ^ item.camera_id) == 0)) [
        | inl new ↦
            check_info-Begins driver frame_set item frame (driver.get_info frame) checked jobs refl
              (rw (good, new) at e)
        | inr seen ↦ let e' = rw (good, seen) at e in absurd (ground arith)
      ]
    ]
  where
    invalid : Bool
    invalid =
        leb max_channels item.camera_id
        || not (camera_mask_contains camera_mask (pos item.camera_id))

staged-IsJobOf :
    (driver : Driver) (frame_set : FrameSet) (item : FrameSetItem) (order frame : ℕ)
    (info : FrameInfo)
    → item.frame ≡ some frame
    → driver.get_info frame ≡ some info
    → info_matches item info ≡ true
    → IsJobOf driver frame_set item order
        (record (make_job frame_set item info) { record_order = order; raw_frame = some frame })
unfolding make_job info_matches
staged-IsJobOf driver frame_set item order frame info given told fits = record {
  frame = (frame, given, refl, (info, told, refl, refl));
  camera = refl;
  sequence = ground arith;
  frame_id = ground arith;
  size = (ground arith, ground arith);
  time = refl;
  group = (refl, refl);
  position = refl;
}

-- Each item of an accepted set gives its job.
pub check_items-AreJobsOf :
    (driver : Driver) (camera_mask : ℕ) (frame_set : FrameSet) (observed_mask order : ℕ)
    (items : List FrameSetItem) (jobs : List (ℕ × FrameJob))
    → check_items driver camera_mask frame_set observed_mask items ≡ jobs_of jobs
    → (length jobs ≡ length items) × AreJobsOf driver frame_set order items (stage order jobs)
unfolding check_items stage
check_items-AreJobsOf driver camera_mask frame_set observed_mask order [] jobs e =
    elim (Bool-cases (observed_mask == camera_mask)) [
      | inl all ↦ let e' = rw all at e in let same : jobs ≡ [] = cc in (ap length same, rw same tt)
      | inr some_missing ↦ let e' = rw some_missing at e in absurd (ground arith)
    ]
check_items-AreJobsOf driver camera_mask frame_set observed_mask order (item ∷ items) jobs e =
    let (rest, frame, info, given, told, fits, e', first) =
      check_item-Begins driver camera_mask frame_set observed_mask item item.frame _ jobs e in
    let (many, later) =
      check_items-AreJobsOf driver camera_mask frame_set (bit_or observed_mask (2 ^ item.camera_id))
        ((order + 1) % 2 ^ 64) items rest e' in
    (
      ap length first ∙ ap suc many,
      subst (λ js. AreJobsOf driver frame_set order (item ∷ items) (stage order js)) (sym first)
          (staged-IsJobOf driver frame_set item order frame info given told fits, later),
    )

pub length-stage :
    (order : ℕ) (jobs : List (ℕ × FrameJob)) → length (stage order jobs) ≡ length jobs
unfolding stage
length-stage order [] = refl
length-stage order ((frame, job) ∷ jobs) = ap suc (length-stage (add64 order 1) jobs)
