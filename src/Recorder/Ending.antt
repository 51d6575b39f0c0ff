-- ===== src/Recorder/Ending.antt =====
-- src/sensor_bag_recorder.cpp: how a recording ends, `Finish` and `Abort` with the merging of their
-- errors. What the other parts answer is given: the encoder's stop, the writing of the session status,
-- and the writer's publication and abort.
pub mod Outcomes
pub mod Verdict
use mrp_robo_baton_4p_no_ros.Base.{
  ℕ, ◌+◌, Bool, true, false, not, ◌&&◌, ◌||◌, Option, none, some, List, [], ◌∷◌, ◌++◌, ◌==◌,
  if◌then◌else◌, String,
}
use mrp_robo_baton_4p_no_ros.Base.Bytes.{codes}
use mrp_robo_baton_4p_no_ros.Base.Errors.{
  Exception, invalid_argument, runtime_error, logic_error, length_error, out_of_range,
  overflow_error, Result, ok, throws,
}
use mrp_robo_baton_4p_no_ros.Recorder.{FrameJob}
use mrp_robo_baton_4p_no_ros.Recorder.Control.{Control, set_fatal_error, request_stop}
use mrp_robo_baton_4p_no_ros.Recorder.Imu.{ImuQueue}
use mrp_robo_baton_4p_no_ros.Recorder.Admission.{Recorder}

pub data FinishOutcome : Type 0 where
  published_complete published_partial aborted : FinishOutcome
  cleanup_incomplete published_durability_unproven : FinishOutcome

unfoldable pub outcome_name : FinishOutcome → String
outcome_name published_complete = "published_complete"
outcome_name published_partial = "published_partial"
outcome_name aborted = "aborted"
outcome_name cleanup_incomplete = "cleanup_incomplete"
outcome_name published_durability_unproven = "published_durability_unproven"

pub record FinishResult : Type 0 where
  pub outcome : FinishOutcome
  pub data_complete : Bool
  pub cleanup_complete : Bool
  pub session_uuid : List ℕ
  pub published_path : List ℕ
  pub quarantine_path : List ℕ
  pub error : List ℕ

abbrev pub no_result : FinishResult
no_result = record {
  outcome = aborted;
  data_complete = false;
  cleanup_complete = true;
  session_uuid = [];
  published_path = [];
  quarantine_path = [];
  error = [];
}

-- `operator bool`.
unfoldable pub is_success : FinishResult → Bool
is_success result =
    result.cleanup_complete
    && (elim result.outcome [ published_complete ↦ true | published_partial ↦ true | _ ↦ false ])

abbrev pub is_empty_text : List ℕ → Bool
is_empty_text [] = true
is_empty_text (x ∷ xs) = false

unfoldable pub append_finish_error : List ℕ → FinishResult → FinishResult
append_finish_error error result = if is_empty_text error then result else record result {
  error = if is_empty_text result.error then error else (result.error ++ codes "; ") ++ error;
}

-- `RosbagV2Writer::AbortResult`.
pub record AbortResult : Type 0 where
  pub cleanup_complete : Bool
  pub error : String

unfoldable pub merge_abort_result : AbortResult → FinishResult → FinishResult
unfolding append_finish_error
merge_abort_result abort_result result =
    if abort_result.cleanup_complete
    then result
    else append_finish_error (codes abort_result.error)
        (record result { cleanup_complete = false; outcome = cleanup_incomplete })

abbrev pub what : Exception → String
what (invalid_argument message) = message
what (runtime_error message) = message
what (logic_error message) = message
what (length_error message) = message
what (out_of_range message) = message
what (overflow_error message) = message

-- `RosbagV2Writer::PublishResult`; whether its outcome is that durability is not proven.
pub record PublishResult : Type 0 where
  pub durability_unproven : Bool
  pub data_complete : Bool
  pub cleanup_complete : Bool
  pub session_uuid : List ℕ
  pub published_path : List ℕ
  pub quarantine_path : List ℕ
  pub error : List ℕ

-- `stop_jpeg` is none if the encoder stops, else its error. `write_status` and `publish` may throw.
pub record Answers : Type 0 where
  pub stop_jpeg : Option String
  pub session_uuid : List ℕ
  pub write_status : FinishOutcome → Result (Unit {0})
  pub publish : Bool → Result PublishResult
  pub abort : AbortResult

unfoldable pub has_recorded_drops : Recorder → ImuQueue → Bool
has_recorded_drops r imu =
    not (r.frames.stats.full_rejects == 0)
    || (not (r.counts.encoded_queue_full_rejects == 0)
        || (not (r.evictions.oldest_evicted_groups == 0) || not (imu.stats.full_rejects == 0)))

-- The queue is cleared, which gives back the frames of its jobs.
unfoldable pub clear_jobs : List FrameJob → List ℕ → List ℕ
clear_jobs [] released = released
clear_jobs (job ∷ jobs) released = elim job.raw_frame [
  | none ↦ clear_jobs jobs released
  | some frame ↦ clear_jobs jobs (frame ∷ released)
]

unfoldable pub clear_queue : Recorder → Recorder
unfolding clear_jobs
clear_queue r = record r {
  frames = record r.frames { jobs = []; released = clear_jobs r.frames.jobs r.frames.released };
}

-- `StopWorkers` closes the input of the reorder ring, when the workers are gone.
abbrev pub stop_workers : Recorder → Recorder
stop_workers r = record r { encoded = record r.encoded { input_closed = true } }

abbrev pub on_control : (Control → Control) → Recorder → Recorder
on_control f r = record r { control = f r.control }

abbrev pub close : Control → Control
close control = record control { finished = true; enabled = false }

abbrev pub planned_outcome : Bool → FinishOutcome
planned_outcome data_complete = if data_complete then published_complete else published_partial

-- A published bag.
unfoldable pub report_published : FinishOutcome → PublishResult → FinishResult → FinishResult
unfolding append_finish_error
report_published planned published result =
    record (append_finish_error published.error (record result {
      data_complete = published.data_complete;
      cleanup_complete = published.cleanup_complete;
      session_uuid = published.session_uuid;
      published_path = published.published_path;
      quarantine_path = published.quarantine_path;
    })) {
      outcome =
          if not published.cleanup_complete
          then cleanup_incomplete
          else if published.durability_unproven
          then published_durability_unproven
          else planned;
    }

-- An exception of the last steps.
unfoldable pub report_thrown : Answers → Exception → Control × FinishResult → Control × FinishResult
unfolding append_finish_error merge_abort_result
report_thrown answers thrown (control, result) = (
  set_fatal_error (what thrown) control,
  merge_abort_result answers.abort
      (append_finish_error (codes (what thrown)) (record result { outcome = aborted })),
)

-- The status of the session, then the publication. The data are complete or not.
unfoldable pub publish_bag : Answers → Bool → Control × FinishResult → Control × FinishResult
unfolding report_published report_thrown
publish_bag answers data_complete (control, result) =
    elim (answers.write_status (planned_outcome data_complete)) [
      | throws thrown ↦ report_thrown answers thrown (control, result)
      | ok _ ↦ elim (answers.publish data_complete) [
        | throws thrown ↦ report_thrown answers thrown (control, result)
        | ok published ↦
            (control, report_published (planned_outcome data_complete) published result)
      ]
    ]

abbrev pub error_or : String → String → String
error_or otherwise error = if is_empty_text (codes error) then otherwise else error

-- The encoder does not stop.
unfoldable pub report_jpeg_failure :
    Answers → String → Control × FinishResult → Control × FinishResult
unfolding append_finish_error merge_abort_result
report_jpeg_failure answers error (control, result) =
    let control' = set_fatal_error (error_or "hardware JPEG cleanup failed" error) control in
    (
      control',
      merge_abort_result answers.abort (
          append_finish_error (codes control'.error_message)
            (record result { outcome = cleanup_incomplete; cleanup_complete = false })),
    )

-- A fatal error of the recording.
unfoldable pub report_fatal : Answers → Control × FinishResult → Control × FinishResult
unfolding append_finish_error merge_abort_result
report_fatal answers (control, result) = (
  control,
  merge_abort_result answers.abort
      (append_finish_error (codes control.error_message) (record result { outcome = aborted })),
)

unfoldable pub conclude : Answers → Bool → Control × FinishResult → Control × FinishResult
unfolding publish_bag report_jpeg_failure report_fatal
conclude answers data_complete (control, result) = elim answers.stop_jpeg [
  | some error ↦ report_jpeg_failure answers error (control, result)
  | none ↦
      if control.fatal_error
      then report_fatal answers (control, result)
      else publish_bag answers data_complete (control, result)
]

-- `Finish`, with the result of an earlier end.
unfoldable pub finish :
    Answers → Bool → ImuQueue → FinishResult → Recorder → Recorder × FinishResult
unfolding conclude clear_queue has_recorded_drops request_stop
finish answers session_success imu earlier r =
    let r' = clear_queue (stop_workers (on_control request_stop r)) in
    let data_complete =
      session_success && (not r.control.fatal_error && not (has_recorded_drops r imu)) in
    let ended = conclude answers data_complete (
      r'.control,
      record no_result { data_complete = data_complete; session_uuid = answers.session_uuid },
    ) in
    if not r.control.enabled || r.control.finished
    then (r, earlier)
    else (record r' { control = close ended.0 }, ended.1)

-- The encoder's stop after an abort.
unfoldable pub note_jpeg_failure : Option String → Control → Control
note_jpeg_failure none control = control
note_jpeg_failure (some error) control =
    set_fatal_error (error_or "hardware JPEG cleanup failed" error) control

-- `Abort`.
unfoldable pub abort : Answers → FinishResult → Recorder → Recorder × FinishResult
unfolding append_finish_error clear_queue note_jpeg_failure request_stop
abort answers earlier r =
    let r' = clear_queue (stop_workers (on_control request_stop r)) in
    let result = append_finish_error (codes answers.abort.error) (record earlier {
      outcome = aborted;
      cleanup_complete = answers.abort.cleanup_complete;
      session_uuid = answers.session_uuid;
    }) in
    let failed =
      set_fatal_error (error_or "bag staging cleanup failed" answers.abort.error) r'.control in
    let control = if answers.abort.cleanup_complete then r'.control else failed in
    (
      record r' {
        control = record (note_jpeg_failure answers.stop_jpeg control) { enabled = false };
      },
      if answers.abort.cleanup_complete
          then result
          else record result { outcome = cleanup_incomplete },
    )
