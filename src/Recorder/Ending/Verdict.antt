-- ===== src/Recorder/Ending/Verdict.antt =====
-- src/sensor_bag_recorder.cpp: what the end of a recording reports, and what it leaves behind.
use mrp_robo_baton_4p_no_ros.Base.{
  ℕ, ◌+◌, ◌≡◌, ◌↔◌, refl, Bool, true, false, not, ◌&&◌, none, List, [], ◌∷◌, arith, inl, inr,
  Option-cases,
}
use mrp_robo_baton_4p_no_ros.Base.Errors.{ok}
use mrp_robo_baton_4p_no_ros.Recorder.{FrameJob}
use mrp_robo_baton_4p_no_ros.Recorder.Control.{Control, request_stop}
use mrp_robo_baton_4p_no_ros.Recorder.Imu.{ImuQueue}
use mrp_robo_baton_4p_no_ros.Recorder.Admission.{Recorder}
use mrp_robo_baton_4p_no_ros.Recorder.Admission.References.{IsBalanced, held, occurrences}
use mrp_robo_baton_4p_no_ros.Recorder.Ending.{
  on_control, stop_workers, close, published_complete, FinishResult, no_result, Answers,
  has_recorded_drops, clear_jobs, clear_queue, conclude, finish,
}
use mrp_robo_baton_4p_no_ros.Recorder.Ending.Outcomes.{IsPublished, conclude-complete_iff}

-- A bag is reported as published and complete exactly when the session succeeded, there was no fatal
-- error, no queue rejected anything and no frame set was evicted, the encoder stopped, the session
-- status was written, and the writer published the bag with nothing left over and its directory entry
-- on disk.
pub finish-complete_iff :
    (answers : Answers) (session_success : Bool) (imu : ImuQueue) (earlier : FinishResult)
    (r : Recorder)
    → r.control.enabled ≡ true
    → r.control.finished ≡ false
    → ((finish answers session_success imu earlier r).1.outcome ≡ published_complete) ↔ (
        (session_success ≡ true)
        × (r.control.fatal_error ≡ false)
        × (r.frames.stats.full_rejects ≡ 0)
        × (r.counts.encoded_queue_full_rejects ≡ 0)
        × (r.evictions.oldest_evicted_groups ≡ 0)
        × (imu.stats.full_rejects ≡ 0)
        × (answers.stop_jpeg ≡ none)
        × (answers.write_status published_complete ≡ ok tt)
        × IsPublished answers)
unfolding finish has_recorded_drops
finish-complete_iff answers session_success imu earlier r on open_yet =
    let data_complete : Bool =
      session_success && (not r.control.fatal_error && not (has_recorded_drops r imu)) in
    let control : Control = request_stop r.control in
    let result : FinishResult = record no_result {
      data_complete = data_complete;
      session_uuid = answers.session_uuid;
    } in
    let ended = conclude answers data_complete (control, result) in
    let runs : (finish answers session_success imu earlier r).1 ≡ ended.1 =
      unfold clear_queue in ground arith in
    let (to, from) = conclude-complete_iff answers data_complete control result in
    rw runs (
      (λ e.
          let (stopped, fine, whole, status, bag) = to e in
          (
            ground arith,
            ground arith,
            ground arith,
            ground arith,
            ground arith,
            ground arith,
            stopped,
            status,
            bag,
          )),
      (λ h.
          let (success, fine, frames, encoded, evicted, samples, stopped, status, bag) = h in
          from (stopped, unfold request_stop in fine, ground arith, status, bag)),
    )

clear_jobs-held :
    (frame : ℕ) (jobs : List FrameJob) (released : List ℕ)
    → occurrences frame (clear_jobs jobs released) ≡ occurrences frame released + held frame jobs
unfolding clear_jobs held occurrences
clear_jobs-held frame [] released = omega arith
clear_jobs-held frame (job ∷ jobs) released = elim (Option-cases job.raw_frame) [
  | inl empty ↦ ground (arith, clear_jobs-held frame jobs released)
  | inr (x, full) ↦ ground (arith, clear_jobs-held frame jobs (x ∷ released))
]

-- An end leaves no job queued and no reference held: each frame was released as often as it was
-- retained. The recorder is off, and a second end changes nothing and reports the same result.
pub finish-ends :
    (answers : Answers) (session_success : Bool) (imu : ImuQueue) (earlier : FinishResult)
    (r : Recorder)
    → r.control.enabled ≡ true
    → r.control.finished ≡ false
    → IsBalanced r.frames
    → (r' : Recorder) × (result : FinishResult) × (finish answers session_success imu earlier r
        ≡ (r', result))
      × (r'.frames.jobs ≡ [])
      × ((frame : ℕ) → occurrences frame r'.frames.retained ≡ occurrences frame r'.frames.released)
      × (r'.control.enabled ≡ false)
      × ((answers' : Answers) (success' : Bool) (imu' : ImuQueue)
          → finish answers' success' imu' result r' ≡ (r', result))
unfolding finish
finish-ends answers session_success imu earlier r on open_yet balanced =
    let data_complete : Bool =
      session_success && (not r.control.fatal_error && not (has_recorded_drops r imu)) in
    let ended = conclude answers data_complete (
      request_stop r.control,
      record no_result { data_complete = data_complete; session_uuid = answers.session_uuid },
    ) in
    (
      record (clear_queue (stop_workers (on_control request_stop r))) { control = close ended.0 },
      ended.1,
      unfold clear_queue in ground arith,
      unfold clear_queue in refl,
      (λ frame.
          unfold clear_queue in
          omega
            (arith, balanced.balance frame, clear_jobs-held frame r.frames.jobs r.frames.released)),
      refl,
      λ answers' success' imu'. refl,
    )
