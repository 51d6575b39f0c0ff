-- ===== src/Recorder/Admission/Outcomes.antt =====
-- src/sensor_bag_recorder.cpp: a frame set is admitted as a whole, or the queue stays as it is.
use mrp_robo_baton_4p_no_ros.Base.{
  ℕ, ◌+◌, ◌≤◌, ◌≡◌, ◌≢◌, ◌%◌, ◌^◌, ◌∙◌, ◌⊎◌, refl, Bool, true, not, List, ◌++◌, length, take, ltb,
  if_both, arith, inl, inr, Bool-cases, Option-cases, length-append, length-take, String,
}
use mrp_robo_baton_4p_no_ros.Recorder.{FrameJob, queue_capacity}
use mrp_robo_baton_4p_no_ros.Recorder.Control.{set_fatal_error_lem}
use mrp_robo_baton_4p_no_ros.Recorder.FrameSets.{
  FrameSet, Driver, jobs_of, Checked-cases, check_items, stage, first_failure, frames_of,
  frame_set_max_cameras,
}
use mrp_robo_baton_4p_no_ros.Recorder.Selection.{Selector, should_record_group}
use mrp_robo_baton_4p_no_ros.Camera.{camera_mask_pop_count}
use mrp_robo_baton_4p_no_ros.Recorder.Reorder.{EncodedQueue}
use mrp_robo_baton_4p_no_ros.Recorder.Reorder.Eviction.{EvictionStats, make_encoded_admission_room}
use mrp_robo_baton_4p_no_ros.Recorder.Admission.{
  Recorder, fail, FrameSetAdmissionStatus, undo_retains, retain_all, roll_back, commit,
  stage_frame_set, retain_frame_set, admit_frame_set, accept_selected, try_accept_frame_set,
  is_invalid_frame_set, record_encoded_backpressure_reject, reject_full, see_frame_set,
  select_group,
}
use mrp_robo_baton_4p_no_ros.Recorder.Admission.Staged.{
  AreJobsOf, check_items-AreJobsOf, length-stage,
}

-- What an admission that starts at `r` comes to. A set that is not accepted leaves the queue and its
-- next order; the jobs of an accepted one stand behind the queue's, in its order.
pub record Outcome (driver : Driver) (frame_set : FrameSet) (r : Recorder)
    (answer : Recorder × FrameSetAdmissionStatus) : Type 0 where
  pub cases :
      ((answer.1 ≢ FrameSetAdmissionStatus.accepted)
        × (answer.0.frames.jobs ≡ r.frames.jobs)
        × (answer.0.frames.next_frame_order ≡ r.frames.next_frame_order)
        × ((answer.1 ≡ FrameSetAdmissionStatus.fatal) → answer.0.control.fatal_error ≡ true))
      ⊎ ((new : List FrameJob) × (answer.1 ≡ FrameSetAdmissionStatus.accepted)
          × (answer.0.frames.jobs ≡ r.frames.jobs ++ new)
          × AreJobsOf driver frame_set r.frames.next_frame_order
              (take frame_set.camera_count frame_set.items)
              new
          × (length new ≡ frame_set.camera_count)
          × (answer.0.frames.next_frame_order
              ≡ (r.frames.next_frame_order + frame_set.camera_count) % 2 ^ 64)
          × (length answer.0.frames.jobs ≤ queue_capacity))

module _ (now_ns : ℕ) (driver : Driver) (frame_set : FrameSet) (r : Recorder) where
  -- A set that fails or is turned away.
  turned_away :
      (r' : Recorder) (status : FrameSetAdmissionStatus)
      → status ≢ FrameSetAdmissionStatus.accepted
      → status ≢ FrameSetAdmissionStatus.fatal
      → r'.frames.jobs ≡ r.frames.jobs
      → r'.frames.next_frame_order ≡ r.frames.next_frame_order
      → Outcome driver frame_set r (r', status)
  turned_away r' status not_accepted not_fatal jobs order = record {
    cases = inl (not_accepted, jobs, order, λ fatal. absurd (not_fatal fatal));
  }

  failed :
      (message : String) (r' : Recorder)
      → r'.frames.jobs ≡ r.frames.jobs
      → r'.frames.next_frame_order ≡ r.frames.next_frame_order
      → Outcome driver frame_set r (fail message r')
  failed message r' jobs order = record {
    cases = inl ((λ e. cc), jobs, order, λ _. set_fatal_error_lem message r'.control);
  }

  module _ (jobs : List (ℕ × FrameJob))
      (checked : check_items driver r.camera_mask frame_set 0
          (take frame_set.camera_count frame_set.items)
        ≡ jobs_of jobs)
      (few : length jobs ≡ frame_set.camera_count) where
    stage_frame_set-Outcome :
        length r.frames.jobs + frame_set.camera_count ≤ queue_capacity
        → Outcome driver frame_set r (
            stage_frame_set now_ns driver frame_set.camera_count jobs
              (retain_all (frames_of jobs) r))
    unfolding stage_frame_set record_encoded_backpressure_reject
    stage_frame_set-Outcome room =
        elim (Option-cases (first_failure driver.allocates 0 frame_set.camera_count)) [
          | inl staged ↦ elim (Bool-cases space.1) [
            | inl made ↦
                rw (staged, stage_frame_set, made)
                  (record {
                    cases = inr (
                      stage r.frames.next_frame_order jobs,
                      refl,
                      unfold commit retain_all in refl,
                      (check_items-AreJobsOf driver r.camera_mask frame_set 0
                          r.frames.next_frame_order (take frame_set.camera_count frame_set.items)
                          jobs checked).1,
                      length-stage r.frames.next_frame_order jobs ∙ few,
                      unfold commit retain_all in refl,
                      unfold commit retain_all in
                          omega (
                            arith,
                            length-append r.frames.jobs (stage r.frames.next_frame_order jobs),
                            length-stage r.frames.next_frame_order jobs,
                          ),
                    );
                  })
            | inr crowded ↦
                rw (staged, stage_frame_set, crowded)
                  (turned_away _ _ (λ e. cc) (λ e. cc) (unfold roll_back retain_all in refl)
                    (unfold roll_back retain_all in refl))
          ]
          | inr (k, failure) ↦
              rw (failure, stage_frame_set)
                (failed _ _ (unfold roll_back retain_all in refl)
                  (unfold roll_back retain_all in refl))
        ]
      where
        space : (EncodedQueue × EvictionStats) × Bool
        space =
            make_encoded_admission_room now_ns
              (camera_mask_pop_count (retain_all (frames_of jobs) r).camera_mask)
              ((retain_all (frames_of jobs) r).encoded, (retain_all (frames_of jobs) r).evictions)

    retain_frame_set-Outcome :
        length r.frames.jobs + frame_set.camera_count ≤ queue_capacity
        → Outcome driver frame_set r (retain_frame_set now_ns driver frame_set.camera_count jobs r)
    unfolding retain_frame_set
    retain_frame_set-Outcome room =
        elim (Option-cases (first_failure driver.retains 0 frame_set.camera_count)) [
          | inl retained ↦ rw (retained, retain_frame_set) (stage_frame_set-Outcome room)
          | inr (k, failure) ↦
              rw (failure, retain_frame_set)
                (failed _ _ (unfold undo_retains in refl) (unfold undo_retains in refl))
        ]

    admit_frame_set-Outcome :
        Outcome driver frame_set r (admit_frame_set now_ns driver frame_set.camera_count jobs r)
    unfolding admit_frame_set
    admit_frame_set-Outcome =
        if_both (Outcome driver frame_set r) r.control.stopping _ _
          (λ _. turned_away r FrameSetAdmissionStatus.stopped (λ e. cc) (λ e. cc) refl refl)
          (λ _.
            if_both (Outcome driver frame_set r)
              (ltb queue_capacity (length r.frames.jobs + frame_set.camera_count)) _ _
              (λ _.
                turned_away (reject_full r) FrameSetAdmissionStatus.queue_full (λ e. cc) (λ e. cc)
                  (unfold reject_full in refl) (unfold reject_full in refl))
              (λ room. retain_frame_set-Outcome (ground arith)))

  accept_selected-Outcome :
      length frame_set.items ≡ frame_set_max_cameras
      → frame_set.camera_count ≤ frame_set_max_cameras
      → Outcome driver frame_set r (accept_selected now_ns driver frame_set r)
  unfolding accept_selected
  accept_selected-Outcome whole few =
      elim (Checked-cases (
        check_items driver r.camera_mask frame_set 0
          (take frame_set.camera_count frame_set.items))) [
            | inl (message, same) ↦ rw (same, accept_selected) (failed message r refl refl)
            | inr (jobs, same) ↦
                let all =
                  (check_items-AreJobsOf driver r.camera_mask frame_set 0 0
                    (take frame_set.camera_count frame_set.items) jobs same).0 in
                rw (same, accept_selected)
                  (admit_frame_set-Outcome jobs same
                    (omega (arith, all, length-take frame_set.camera_count frame_set.items)))
          ]

-- A frame set is accepted as a whole or not at all. Accepted, one job for each of its items stands
-- behind those that wait, in the order of the items, with consecutive 64-bit orders from the next one
-- on, the fields of the item and the set and the item's frame, and the queue is within its capacity.
-- Otherwise the queue and its next order are as before, and a status of failure means that the fatal
-- error is set. A set holds four items.
pub try_accept_frame_set-Outcome :
    (now_ns : ℕ) (driver : Driver) (frame_set : FrameSet) (r : Recorder)
    → length frame_set.items ≡ frame_set_max_cameras
    → Outcome driver frame_set r (try_accept_frame_set now_ns driver frame_set r)
unfolding try_accept_frame_set
try_accept_frame_set-Outcome now_ns driver frame_set r whole =
    if_both P (not r.control.enabled) _ _
      (λ _. away r FrameSetAdmissionStatus.skipped (λ e. cc) (λ e. cc) refl refl)
      (λ _.
        if_both P r.control.fatal_error _ _
          (λ fatal. record { cases = inl ((λ e. cc), refl, refl, λ _. fatal) })
          (λ _.
            if_both P (is_invalid_frame_set r.camera_mask frame_set) _ _
              (λ _.
                failed now_ns driver frame_set r "invalid frame set for bag recorder" r refl refl)
              (λ valid.
                if_both P (not decision.1) _ _
                  (λ _.
                    away _ FrameSetAdmissionStatus.skipped (λ e. cc) (λ e. cc)
                      (unfold see_frame_set in refl) (unfold see_frame_set in refl))
                  (λ _.
                    let rest =
                      accept_selected-Outcome now_ns driver frame_set
                        (select_group decision.0 (see_frame_set r)) whole (ground arith) in
                    record { cases = unfold see_frame_set select_group in rest.cases }))))
  where
    P : Recorder × FrameSetAdmissionStatus → Type 0
    P = Outcome driver frame_set r

    decision : Selector × Bool
    decision = should_record_group frame_set.group_id r.selector

    away :
        (r' : Recorder) (status : FrameSetAdmissionStatus)
        → status ≢ FrameSetAdmissionStatus.accepted
        → status ≢ FrameSetAdmissionStatus.fatal
        → r'.frames.jobs ≡ r.frames.jobs
        → r'.frames.next_frame_order ≡ r.frames.next_frame_order
        → P (r', status)
    away = turned_away now_ns driver frame_set r
