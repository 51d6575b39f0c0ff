-- ===== src/Recorder/Admission/References.antt =====
-- src/sensor_bag_recorder.cpp: the admission of a frame set leaks no reference. Whatever fails, a
-- frame was retained as often as it was released and is held by the queue.
use mrp_robo_baton_4p_no_ros.Base.{
  ℕ, ◌+◌, ◌≡◌, refl, ap, Bool, not, Option, none, some, List, [], ◌∷◌, ◌++◌, length, take, drop,
  ltb, ◌==◌, if_both, arith, inl, inr, Bool-cases, Option-cases, take-append-drop,
}
use mrp_robo_baton_4p_no_ros.Base.Slots.{bit_of}
use mrp_robo_baton_4p_no_ros.Recorder.{FrameJob, queue_capacity}
use mrp_robo_baton_4p_no_ros.Recorder.FrameSets.{
  FrameSet, Driver, Checked-cases, check_items, stage, first_failure, frames_of,
}
use mrp_robo_baton_4p_no_ros.Recorder.Selection.{should_record_group}
use mrp_robo_baton_4p_no_ros.Camera.{camera_mask_pop_count}
use mrp_robo_baton_4p_no_ros.Recorder.Reorder.{EncodedQueue}
use mrp_robo_baton_4p_no_ros.Recorder.Reorder.Eviction.{
  EvictionStats, add64, make_encoded_admission_room,
}
use mrp_robo_baton_4p_no_ros.Recorder.Admission.{
  Recorder, FrameQueue, FrameSetAdmissionStatus, log_all, undo_retains, retain_all, roll_back,
  commit, stage_frame_set, retain_frame_set, admit_frame_set, accept_selected, try_accept_frame_set,
  is_invalid_frame_set, record_encoded_backpressure_reject, reject_full, see_frame_set,
  select_group,
}

unfoldable pub occurrences : ℕ → List ℕ → ℕ
occurrences frame [] = 0
occurrences frame (x ∷ xs) = bit_of (x == frame) + occurrences frame xs

abbrev holds : ℕ → Option ℕ → ℕ
holds frame none = 0
holds frame (some x) = bit_of (x == frame)

-- How many jobs of the queue hold the frame.
unfoldable pub held : ℕ → List FrameJob → ℕ
held frame [] = 0
held frame (job ∷ jobs) = holds frame job.raw_frame + held frame jobs

-- Retained as often as released and held.
pub record IsBalanced (q : FrameQueue) : Type 0 where
  pub balance :
      (frame : ℕ) → occurrences frame q.retained ≡ occurrences frame q.released + held frame q.jobs

occurrences-append :
    (frame : ℕ) (xs ys : List ℕ)
    → occurrences frame (xs ++ ys) ≡ occurrences frame xs + occurrences frame ys
unfolding occurrences
occurrences-append frame [] ys = omega arith
occurrences-append frame (x ∷ xs) ys = omega (arith, occurrences-append frame xs ys)

occurrences-log_all :
    (frame : ℕ) (xs log : List ℕ)
    → occurrences frame (log_all xs log) ≡ occurrences frame xs + occurrences frame log
unfolding occurrences log_all
occurrences-log_all frame [] log = omega arith
occurrences-log_all frame (x ∷ xs) log = omega (arith, occurrences-log_all frame xs (x ∷ log))

held-append :
    (frame : ℕ) (xs ys : List FrameJob) → held frame (xs ++ ys) ≡ held frame xs + held frame ys
unfolding held
held-append frame [] ys = omega arith
held-append frame (x ∷ xs) ys = omega (arith, held-append frame xs ys)

held-stage :
    (frame order : ℕ) (jobs : List (ℕ × FrameJob))
    → held frame (stage order jobs) ≡ occurrences frame (frames_of jobs)
unfolding held stage occurrences
held-stage frame order [] = refl
held-stage frame order ((f, job) ∷ jobs) =
    ap (λ (t : ℕ). bit_of (f == frame) + t) (held-stage frame (add64 order 1) jobs)

undo_retains-IsBalanced :
    (k : ℕ) (frames : List ℕ) (r : Recorder)
    → IsBalanced r.frames
    → IsBalanced (undo_retains k frames r).frames
unfolding undo_retains
undo_retains-IsBalanced k frames r balanced = record {
  balance = λ frame. omega (
    arith,
    balanced.balance frame,
    occurrences-log_all frame (take k frames) r.frames.retained,
    occurrences-log_all frame (take k frames) r.frames.released,
  );
}

roll_back-IsBalanced :
    (k : ℕ) (frames : List ℕ) (r : Recorder)
    → IsBalanced r.frames
    → IsBalanced (roll_back k frames (retain_all frames r)).frames
unfolding roll_back retain_all
roll_back-IsBalanced k frames r balanced = record {
  balance = λ frame.
      let parts = ap (occurrences frame) (take-append-drop k frames) in
      omega (
        arith,
        balanced.balance frame,
        occurrences-log_all frame frames r.frames.retained,
        occurrences-log_all frame (drop k frames) (take k frames ++ r.frames.released),
        occurrences-append frame (take k frames) r.frames.released,
        occurrences-append frame (take k frames) (drop k frames),
        parts,
      );
}

commit-IsBalanced :
    (now_ns count : ℕ) (jobs : List (ℕ × FrameJob)) (r : Recorder)
    → IsBalanced r.frames
    → IsBalanced (commit now_ns count jobs (retain_all (frames_of jobs) r)).frames
unfolding commit retain_all
commit-IsBalanced now_ns count jobs r balanced = record {
  balance = λ frame. omega (
    arith,
    balanced.balance frame,
    occurrences-log_all frame (frames_of jobs) r.frames.retained,
    held-append frame r.frames.jobs (stage r.frames.next_frame_order jobs),
    held-stage frame r.frames.next_frame_order jobs,
  );
}

-- An answer whose recorder is balanced.
record KeepsBalance (answer : Recorder × FrameSetAdmissionStatus) : Type 0 where
  balanced : IsBalanced answer.0.frames

keeps :
    (r : Recorder) (status : FrameSetAdmissionStatus)
    → IsBalanced r.frames
    → KeepsBalance (r, status)
keeps r status balanced = record { balanced = balanced }

stage_frame_set-KeepsBalance :
    (now_ns : ℕ) (driver : Driver) (count : ℕ) (jobs : List (ℕ × FrameJob)) (r : Recorder)
    → IsBalanced r.frames
    → KeepsBalance (stage_frame_set now_ns driver count jobs (retain_all (frames_of jobs) r))
unfolding stage_frame_set record_encoded_backpressure_reject
stage_frame_set-KeepsBalance now_ns driver count jobs r balanced =
    elim (Option-cases (first_failure driver.allocates 0 count)) [
      | inl staged ↦ elim (Bool-cases room.1) [
        | inl space ↦
            rw (staged, stage_frame_set, space)
              (keeps _ _ (commit-IsBalanced now_ns count jobs r balanced))
        | inr crowded ↦
            rw (staged, stage_frame_set, crowded)
              (keeps _ _ (roll_back-IsBalanced count (frames_of jobs) r balanced))
      ]
      | inr (k, failed) ↦
          rw (failed, stage_frame_set)
            (keeps _ _ (roll_back-IsBalanced k (frames_of jobs) r balanced))
    ]
  where
    room : (EncodedQueue × EvictionStats) × Bool
    room =
        make_encoded_admission_room now_ns
          (camera_mask_pop_count (retain_all (frames_of jobs) r).camera_mask)
          ((retain_all (frames_of jobs) r).encoded, (retain_all (frames_of jobs) r).evictions)

retained-KeepsBalance :
    (now_ns : ℕ) (driver : Driver) (count : ℕ) (jobs : List (ℕ × FrameJob)) (r : Recorder)
    → IsBalanced r.frames
    → KeepsBalance (retain_frame_set now_ns driver count jobs r)
unfolding retain_frame_set
retained-KeepsBalance now_ns driver count jobs r balanced =
    elim (Option-cases (first_failure driver.retains 0 count)) [
      | inl retained ↦
          rw (retained, retain_frame_set)
            (stage_frame_set-KeepsBalance now_ns driver count jobs r balanced)
      | inr (k, failed) ↦
          rw (failed, retain_frame_set)
            (keeps _ _ (undo_retains-IsBalanced k (frames_of jobs) r balanced))
    ]

admit_frame_set-KeepsBalance :
    (now_ns : ℕ) (driver : Driver) (count : ℕ) (jobs : List (ℕ × FrameJob)) (r : Recorder)
    → IsBalanced r.frames
    → KeepsBalance (admit_frame_set now_ns driver count jobs r)
unfolding admit_frame_set reject_full
admit_frame_set-KeepsBalance now_ns driver count jobs r balanced =
    if_both KeepsBalance r.control.stopping _ _ (λ _. record { balanced = balanced })
      (λ _.
        if_both KeepsBalance (ltb queue_capacity (length r.frames.jobs + count)) _ _
          (λ _. record { balanced = record { balance = balanced.balance } })
          (λ _. retained-KeepsBalance now_ns driver count jobs r balanced))

accept_selected-KeepsBalance :
    (now_ns : ℕ) (driver : Driver) (frame_set : FrameSet) (r : Recorder)
    → IsBalanced r.frames
    → KeepsBalance (accept_selected now_ns driver frame_set r)
unfolding accept_selected
accept_selected-KeepsBalance now_ns driver frame_set r balanced =
    elim (Checked-cases (
      check_items driver r.camera_mask frame_set 0 (take frame_set.camera_count frame_set.items))) [
        | inl (message, same) ↦ rw (same, accept_selected) (keeps _ _ balanced)
        | inr (jobs, same) ↦
            rw (same, accept_selected)
              (admit_frame_set-KeepsBalance now_ns driver frame_set.camera_count jobs r balanced)
      ]

-- Whatever the admission of a frame set comes to, and whichever call of the driver or of the allocator
-- fails in it, every frame is retained as often as it is released and held by a queued job.
pub try_accept_frame_set-IsBalanced :
    (now_ns : ℕ) (driver : Driver) (frame_set : FrameSet) (r : Recorder)
    → IsBalanced r.frames
    → IsBalanced (try_accept_frame_set now_ns driver frame_set r).0.frames
unfolding try_accept_frame_set see_frame_set select_group
try_accept_frame_set-IsBalanced now_ns driver frame_set r balanced =
    let same : (r' : Recorder)
        → r'.frames ≡ r.frames
        → (status : FrameSetAdmissionStatus) → KeepsBalance (r', status) =
      λ r' e status. record { balanced = rw e balanced } in
    let outcome : KeepsBalance (try_accept_frame_set now_ns driver frame_set r) =
      if_both KeepsBalance (not r.control.enabled) _ _ (λ _. same _ refl _)
        (λ _.
          if_both KeepsBalance r.control.fatal_error _ _ (λ _. same _ refl _)
            (λ _.
              if_both KeepsBalance (is_invalid_frame_set r.camera_mask frame_set) _ _
                (λ _. same _ refl _)
                (λ _.
                  if_both KeepsBalance (not (should_record_group frame_set.group_id r.selector).1) _
                    _ (λ _. same _ refl _)
                    (λ _.
                      accept_selected-KeepsBalance now_ns driver frame_set
                        (select_group (should_record_group frame_set.group_id r.selector).0
                          (see_frame_set r))
                        balanced)))) in
    outcome.balanced
