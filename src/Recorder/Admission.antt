-- ===== src/Recorder/Admission.antt =====
-- src/sensor_bag_recorder.cpp: the admission of a frame set to the recorder, `TryAcceptFrameSet`.
-- Retained and released references are logged; of `raw_frame` only the reference is kept.
pub mod References
pub mod Staged
pub mod Outcomes
use mrp_robo_baton_4p_no_ros.Base.{
  ℕ, zero, suc, ◌+◌, ◌-◌, ◌%◌, ◌^◌, Bool, true, false, not, ◌&&◌, ◌||◌, Option, none, some, List,
  [], ◌∷◌, ◌++◌, length, take, drop, map, ltb, leb, ◌==◌, if◌then◌else◌, String, bit_and,
}
use mrp_robo_baton_4p_no_ros.Bag.Latency.{increment64}
use mrp_robo_baton_4p_no_ros.Camera.{camera_mask_pop_count}
use mrp_robo_baton_4p_no_ros.Recorder.{FrameJob, QueueStats, queue_capacity}
use mrp_robo_baton_4p_no_ros.Recorder.Accounting.{update_frame_queue_accounting}
use mrp_robo_baton_4p_no_ros.Recorder.Control.{Control, set_fatal_error}
use mrp_robo_baton_4p_no_ros.Recorder.FrameSets.{
  FrameSet, FrameSetItem, FrameInfo, Driver, Checked, jobs_of, refused, check_items, stage,
  first_failure, frames_of, frame_set_size, frame_set_max_cameras,
}
use mrp_robo_baton_4p_no_ros.Recorder.Reorder.{EncodedQueue}
use mrp_robo_baton_4p_no_ros.Recorder.Reorder.Eviction.{
  EvictionStats, add64, make_encoded_admission_room,
}
use mrp_robo_baton_4p_no_ros.Recorder.Selection.{Selector, should_record_group}

pub data FrameSetAdmissionStatus : Type 0 where
  accepted skipped stopped queue_full fatal : FrameSetAdmissionStatus

pub record GroupCounts : Type 0 where
  pub source_frame_sets_seen : ℕ
  pub recorder_selected_groups : ℕ
  pub recorder_admitted_groups : ℕ
  pub encoded_queue_full_rejects : ℕ

-- The queue with the order of the next frame, its statistics, and the log of references.
pub record FrameQueue : Type 0 where
  pub jobs : List FrameJob
  pub next_frame_order : ℕ
  pub stats : QueueStats
  pub retained : List ℕ
  pub released : List ℕ

pub record Recorder : Type 0 where
  pub control : Control
  pub camera_mask : ℕ
  pub selector : Selector
  pub counts : GroupCounts
  pub frames : FrameQueue
  pub encoded : EncodedQueue
  pub evictions : EvictionStats

-- A log of references, the newest first.
unfoldable pub log_all : List ℕ → List ℕ → List ℕ
log_all [] log = log
log_all (frame ∷ frames) log = log_all frames (frame ∷ log)

abbrev pub fail : String → Recorder → Recorder × FrameSetAdmissionStatus
fail message r =
    (record r { control = set_fatal_error message r.control }, FrameSetAdmissionStatus.fatal)

-- The queue has no room for the set.
unfoldable pub reject_full : Recorder → Recorder
reject_full r = record r {
  frames = record r.frames {
    stats = record r.frames.stats { full_rejects = increment64 r.frames.stats.full_rejects };
  };
}

-- The retain of index `k` fails: the references before it are given back.
unfoldable pub undo_retains : ℕ → List ℕ → Recorder → Recorder
unfolding log_all
undo_retains k frames r = record r {
  frames = record r.frames {
    retained = log_all (take k frames) r.frames.retained;
    released = log_all (take k frames) r.frames.released;
  };
}

unfoldable pub retain_all : List ℕ → Recorder → Recorder
unfolding log_all
retain_all frames r = record r {
  frames = record r.frames { retained = log_all frames r.frames.retained };
}

-- The queued jobs of the set go, the last first, and the references of all its jobs are given back.
-- `k` of them are in the queue.
unfoldable pub roll_back : ℕ → List ℕ → Recorder → Recorder
unfolding log_all
roll_back k frames r = record r {
  frames = record r.frames {
    released = log_all (drop k frames) (take k frames ++ r.frames.released);
  };
}

-- `RecordEncodedBackpressureReject`.
unfoldable pub record_encoded_backpressure_reject : Recorder → Recorder
record_encoded_backpressure_reject r = record r {
  counts = record r.counts {
    encoded_queue_full_rejects = increment64 r.counts.encoded_queue_full_rejects;
  };
}

-- The staged jobs become visible to the workers.
unfoldable pub commit : ℕ → ℕ → List (ℕ × FrameJob) → Recorder → Recorder
unfolding stage
commit now_ns count jobs r =
    let queued = r.frames.jobs ++ stage r.frames.next_frame_order jobs in
    record r {
      frames = record r.frames {
        jobs = queued;
        next_frame_order = add64 r.frames.next_frame_order count;
        stats = update_frame_queue_accounting now_ns (length queued) r.frames.stats;
      };
      counts = record r.counts {
        recorder_admitted_groups = increment64 r.counts.recorder_admitted_groups;
      };
    }

-- The references are held: staging, the eviction of old sets, and the commit.
unfoldable pub stage_frame_set :
    ℕ → Driver → ℕ → List (ℕ × FrameJob) → Recorder → Recorder × FrameSetAdmissionStatus
unfolding first_failure roll_back commit record_encoded_backpressure_reject
stage_frame_set now_ns driver count jobs r = elim (first_failure driver.allocates 0 count) [
  | some k ↦ fail "bag recorder frame queue allocation failed" (roll_back k (frames_of jobs) r)
  | none ↦
      let room =
        make_encoded_admission_room now_ns (camera_mask_pop_count r.camera_mask)
          (r.encoded, r.evictions) in
      let r' = record r { encoded = room.0.0; evictions = room.0.1 } in
      if room.1 then (commit now_ns count jobs r', FrameSetAdmissionStatus.accepted) else (
        record_encoded_backpressure_reject (roll_back count (frames_of jobs) r'),
        FrameSetAdmissionStatus.queue_full,
      )
]

unfoldable pub retain_frame_set :
    ℕ → Driver → ℕ → List (ℕ × FrameJob) → Recorder → Recorder × FrameSetAdmissionStatus
unfolding stage_frame_set undo_retains retain_all
retain_frame_set now_ns driver count jobs r = elim (first_failure driver.retains 0 count) [
  | some k ↦ fail "bag recorder frame retain failed" (undo_retains k (frames_of jobs) r)
  | none ↦ stage_frame_set now_ns driver count jobs (retain_all (frames_of jobs) r)
]

-- The part of `TryAcceptFrameSet` under the mutex of the queue.
unfoldable pub admit_frame_set :
    ℕ → Driver → ℕ → List (ℕ × FrameJob) → Recorder → Recorder × FrameSetAdmissionStatus
unfolding retain_frame_set reject_full
admit_frame_set now_ns driver count jobs r =
    if r.control.stopping
    then (r, FrameSetAdmissionStatus.stopped)
    else if ltb queue_capacity (length r.frames.jobs + count)
    then (reject_full r, FrameSetAdmissionStatus.queue_full)
    else retain_frame_set now_ns driver count jobs r

unfoldable pub see_frame_set : Recorder → Recorder
see_frame_set r = record r {
  counts = record r.counts { source_frame_sets_seen = increment64 r.counts.source_frame_sets_seen };
}

unfoldable pub select_group : Selector → Recorder → Recorder
select_group selector r = record r {
  selector = selector;
  counts = record r.counts {
    recorder_selected_groups = increment64 r.counts.recorder_selected_groups;
  };
}

abbrev pub is_invalid_frame_set : ℕ → FrameSet → Bool
is_invalid_frame_set camera_mask frame_set =
    not (frame_set.struct_size == frame_set_size)
    || (frame_set.camera_count == 0
        || (not (frame_set.camera_count == camera_mask_pop_count camera_mask)
            || ltb frame_set_max_cameras frame_set.camera_count))

-- The set is selected: its items are checked, and its jobs admitted.
unfoldable pub accept_selected :
    ℕ → Driver → FrameSet → Recorder → Recorder × FrameSetAdmissionStatus
unfolding check_items admit_frame_set
accept_selected now_ns driver frame_set r =
    let items = take frame_set.camera_count frame_set.items in
    elim (check_items driver r.camera_mask frame_set 0 items) [
      | refused message ↦ fail message r
      | jobs_of jobs ↦ admit_frame_set now_ns driver frame_set.camera_count jobs r
    ]

unfoldable pub try_accept_frame_set :
    ℕ → Driver → FrameSet → Recorder → Recorder × FrameSetAdmissionStatus
unfolding accept_selected see_frame_set select_group should_record_group
try_accept_frame_set now_ns driver frame_set r =
    let decision = should_record_group frame_set.group_id r.selector in
    if not r.control.enabled
    then (r, FrameSetAdmissionStatus.skipped)
    else if r.control.fatal_error
    then (r, FrameSetAdmissionStatus.fatal)
    else if is_invalid_frame_set r.camera_mask frame_set
    then fail "invalid frame set for bag recorder" r
    else if not decision.1
    then (record (see_frame_set r) { selector = decision.0 }, FrameSetAdmissionStatus.skipped)
    else accept_selected now_ns driver frame_set (select_group decision.0 (see_frame_set r))
