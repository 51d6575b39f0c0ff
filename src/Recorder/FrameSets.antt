-- ===== src/Recorder/FrameSets.antt =====
-- src/sensor_bag_recorder.cpp: the frame sets of the camera driver, the checks of `TryAcceptFrameSet`
-- on them, the jobs that it makes of them, and `PopFrame`. The driver's calls are parameters: what it
-- tells of a frame, and which retains succeed; so is whether the queue's memory suffices.
pub mod Queue
use mrp_robo_baton_4p_no_ros.Base.{
  ℕ, zero, suc, ◌+◌, ◌-◌, ◌%◌, ◌^◌, Bool, true, false, not, ◌&&◌, ◌||◌, Option, none, some, List,
  [], ◌∷◌, ◌++◌, length, take, drop, map, ltb, leb, ◌==◌, if◌then◌else◌, String, bit_and, ◌≡◌, ◌⊎◌,
  inl, inr, refl,
}
use Prim.Native.Nat.{bit_or}
use mrp_robo_baton_4p_no_ros.Base.Int.{pos}
use mrp_robo_baton_4p_no_ros.Camera.{camera_mask_contains}
use mrp_robo_baton_4p_no_ros.Recorder.{FrameJob, empty_frame_job, max_channels}
use mrp_robo_baton_4p_no_ros.Recorder.Reorder.Eviction.{add64}

-- `sc132_frame_set_item_t`; `frame` is none for a null pointer.
pub record FrameSetItem : Type 0 where
  pub frame : Option ℕ
  pub camera_id : ℕ
  pub frame_id : ℕ
  pub sequence : ℕ
  pub timestamp_ns : ℕ
  pub width : ℕ
  pub height : ℕ

pub record FrameSet : Type 0 where
  pub struct_size : ℕ
  pub camera_count : ℕ
  pub group_id : ℕ
  pub group_timestamp_ns : ℕ
  pub items : List FrameSetItem

-- `sc132_frame_info_t`; the planes are there or null.
pub record FrameInfo : Type 0 where
  pub struct_size : ℕ
  pub camera_id : ℕ
  pub sequence : ℕ
  pub frame_id : ℕ
  pub has_y_data : Bool
  pub has_uv_data : Bool
  pub width : ℕ
  pub height : ℕ
  pub stride : ℕ
  pub vstride : ℕ

abbrev pub frame_set_size : ℕ
frame_set_size = 224

abbrev pub frame_info_size : ℕ
frame_info_size = 128

abbrev pub frame_set_max_cameras : ℕ
frame_set_max_cameras = 4

-- `get_info` is none unless the call succeeds; `retains` and `allocates` answer for the frames of a
-- set by index.
pub record Driver : Type 0 where
  pub get_info : ℕ → Option FrameInfo
  pub retains : ℕ → Bool
  pub allocates : ℕ → Bool

-- What the loop over the items comes to: the jobs of the set, each with its frame, or an error.
pub data Checked : Type 0 where
  jobs_of : List (ℕ × FrameJob) → Checked
  refused : String → Checked

pub Checked-cases :
    (checked : Checked)
    → ((message : String) × (checked ≡ refused message))
      ⊎ ((jobs : List (ℕ × FrameJob)) × (checked ≡ jobs_of jobs))
Checked-cases (refused message) = inl (message, refl)
Checked-cases (jobs_of jobs) = inr (jobs, refl)

unfoldable pub info_matches : FrameSetItem → FrameInfo → Bool
info_matches item info =
    info.struct_size == frame_info_size
    && (info.camera_id == item.camera_id
        && (info.sequence == item.sequence
            && (info.frame_id == item.frame_id
                && (info.width == item.width
                    && (info.height == item.height
                        && (info.has_y_data
                            && (info.has_uv_data
                                && (not (info.width == 0)
                                    && (not (info.height == 0)
                                        && (leb info.width info.stride
                                            && leb info.height info.vstride))))))))))

unfoldable pub make_job : FrameSet → FrameSetItem → FrameInfo → FrameJob
make_job frame_set item info = record empty_frame_job {
  camera_id = item.camera_id;
  sequence = info.sequence;
  frame_id = info.frame_id;
  group_id = frame_set.group_id;
  group_timestamp_ns = frame_set.group_timestamp_ns;
  camera_timestamp_ns = item.timestamp_ns;
  width = info.width;
  height = info.height;
  stride = info.stride;
  vstride = info.vstride;
}

abbrev pub add_job : ℕ → FrameJob → Checked → Checked
add_job frame job (jobs_of jobs) = jobs_of ((frame, job) ∷ jobs)
add_job frame job (refused message) = refused message

-- An item whose frame is there, with what the driver tells of it.
unfoldable pub check_info : FrameSet → FrameSetItem → ℕ → Option FrameInfo → Checked → Checked
unfolding info_matches make_job
check_info frame_set item frame none rest = refused "frame set info mismatch for bag recorder"
check_info frame_set item frame (some info) rest =
    if info_matches item info
    then add_job frame (make_job frame_set item info) rest
    else refused "frame set info mismatch for bag recorder"

-- One item, `rest` being what the later items come to.
unfoldable pub check_item : Driver → ℕ → FrameSet → ℕ → FrameSetItem → Option ℕ → Checked → Checked
unfolding check_info
check_item driver camera_mask frame_set observed_mask item none rest =
    refused "invalid frame set item for bag recorder"
check_item driver camera_mask frame_set observed_mask item (some frame) rest =
    if leb max_channels item.camera_id
      || not (camera_mask_contains camera_mask (pos item.camera_id))
    then refused "invalid frame set item for bag recorder"
    else if not (bit_and observed_mask (2 ^ item.camera_id) == 0)
    then refused "duplicate frame set camera for bag recorder"
    else check_info frame_set item frame (driver.get_info frame) rest

-- The items of a set, with the mask of the cameras seen so far.
unfoldable pub check_items : Driver → ℕ → FrameSet → ℕ → List FrameSetItem → Checked
unfolding check_item
check_items driver camera_mask frame_set observed_mask [] =
    if observed_mask == camera_mask
    then jobs_of []
    else refused "frame set mask mismatch for bag recorder"
check_items driver camera_mask frame_set observed_mask (item ∷ items) =
    check_item driver camera_mask frame_set observed_mask item item.frame
      (check_items driver camera_mask frame_set (bit_or observed_mask (2 ^ item.camera_id)) items)

-- The jobs as they are queued: with their order and their frame.
unfoldable pub stage : ℕ → List (ℕ × FrameJob) → List FrameJob
stage order [] = []
stage order ((frame, job) ∷ jobs) =
    record job { record_order = order; raw_frame = some frame } ∷ stage (add64 order 1) jobs

-- The index of the first of `n` calls that fails, from `index` on.
unfoldable pub first_failure : (ℕ → Bool) → ℕ → ℕ → Option ℕ
first_failure succeeds index zero = none
first_failure succeeds index (suc n) =
    let later = first_failure succeeds (index + 1) n in if succeeds index then later else some index

abbrev pub frames_of : List (ℕ × FrameJob) → List ℕ
frames_of jobs = map (λ (job : ℕ × FrameJob). job.0) jobs

-- `PopFrame` when its wait is over: the first job of the camera leaves the queue.
unfoldable pub pop_frame : ℕ → List FrameJob → Option (FrameJob × List FrameJob)
pop_frame camera_id [] = none
pop_frame camera_id (job ∷ jobs) =
    let later : Option (FrameJob × List FrameJob) = elim (pop_frame camera_id jobs) [
      | none ↦ none
      | some (found, rest) ↦ some (found, job ∷ rest)
    ] in
    if job.camera_id == camera_id then some (job, jobs) else later
