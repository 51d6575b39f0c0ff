-- ===== src/Recorder/Ending/Outcomes.antt =====
-- src/sensor_bag_recorder.cpp: when the last steps of an end report a complete bag.
use mrp_robo_baton_4p_no_ros.Base.{
  ℕ, ◌≡◌, ◌≢◌, ◌↔◌, ◌⊎◌, refl, Bool, true, false, none, List, String, arith, inl, inr, Bool-cases,
  Option-cases,
}
use mrp_robo_baton_4p_no_ros.Base.Errors.{Exception, ok, throws, Result-cases}
use mrp_robo_baton_4p_no_ros.Recorder.Control.{Control}
use mrp_robo_baton_4p_no_ros.Recorder.Ending.{
  FinishOutcome, published_complete, FinishResult, append_finish_error, AbortResult,
  merge_abort_result, PublishResult, Answers, report_published, report_thrown, report_fatal,
  report_jpeg_failure, publish_bag, conclude, planned_outcome,
}

append_finish_error_outcome :
    (error : List ℕ) (result : FinishResult)
    → (append_finish_error error result).outcome ≡ result.outcome
unfolding append_finish_error
append_finish_error_outcome error result = ground arith

-- A result that is not of a whole bag stays so.
merge_abort_result_outcome :
    (abort_result : AbortResult) (result : FinishResult)
    → result.outcome ≢ published_complete
    → (merge_abort_result abort_result result).outcome ≢ published_complete
unfolding merge_abort_result
merge_abort_result_outcome abort_result result h = elim (Bool-cases abort_result.cleanup_complete) [
  | inl clean ↦ rw clean h
  | inr dirty ↦ rw (dirty, append_finish_error_outcome) (λ e. cc)
]

report_thrown_outcome :
    (answers : Answers) (thrown : Exception) (control : Control) (result : FinishResult)
    → (report_thrown answers thrown (control, result)).1.outcome ≢ published_complete
unfolding report_thrown
report_thrown_outcome answers thrown control result =
    merge_abort_result_outcome answers.abort _ (rw append_finish_error_outcome (λ e. cc))

report_fatal_outcome :
    (answers : Answers) (control : Control) (result : FinishResult)
    → (report_fatal answers (control, result)).1.outcome ≢ published_complete
unfolding report_fatal
report_fatal_outcome answers control result =
    merge_abort_result_outcome answers.abort _ (rw append_finish_error_outcome (λ e. cc))

report_jpeg_failure_outcome :
    (answers : Answers) (error : String) (control : Control) (result : FinishResult)
    → (report_jpeg_failure answers error (control, result)).1.outcome ≢ published_complete
unfolding report_jpeg_failure
report_jpeg_failure_outcome answers error control result =
    merge_abort_result_outcome answers.abort _ (rw append_finish_error_outcome (λ e. cc))

-- The bag is published with its directory entry on disk and nothing left over.
abbrev pub IsPublished : Answers → Type 0
IsPublished answers =
    (published : PublishResult) × (answers.publish true ≡ ok published)
    × (published.cleanup_complete ≡ true)
    × (published.durability_unproven ≡ false)

report_published_iff :
    (planned : FinishOutcome) (published : PublishResult) (result : FinishResult)
    → ((report_published planned published result).outcome ≡ published_complete) ↔ (
        (planned ≡ published_complete)
        × (published.cleanup_complete ≡ true)
        × (published.durability_unproven ≡ false))
unfolding report_published
report_published_iff planned published result = elim (Bool-cases published.cleanup_complete) [
  | inr dirty ↦ rw dirty ((λ e. cc), (λ h. cc))
  | inl clean ↦ elim (Bool-cases published.durability_unproven) [
    | inl unproven ↦ rw (clean, unproven) ((λ e. cc), (λ h. cc))
    | inr proven ↦ rw (clean, proven) ((λ e. (e, refl, refl)), (λ h. h.0))
  ]
]

-- The steps of a publication that was thrown out of, or that was made.
publish_bag_cases :
    (answers : Answers) (data_complete : Bool) (control : Control) (result : FinishResult)
    → ((thrown : Exception) × (publish_bag answers data_complete (control, result)
          ≡ report_thrown answers thrown (control, result))
        × ((answers.write_status (planned_outcome data_complete) ≡ throws thrown)
            ⊎ (answers.publish data_complete ≡ throws thrown)))
      ⊎ ((published : PublishResult) × (publish_bag answers data_complete (control, result)
            ≡ (control, report_published (planned_outcome data_complete) published result))
          × (answers.write_status (planned_outcome data_complete) ≡ ok tt)
          × (answers.publish data_complete ≡ ok published))
unfolding publish_bag
publish_bag_cases answers data_complete control result =
    elim (Result-cases (answers.write_status (planned_outcome data_complete))) [
      | inr (thrown, status) ↦ inl (thrown, rw (status, publish_bag) refl, inl status)
      | inl (_, status) ↦ elim (Result-cases (answers.publish data_complete)) [
        | inr (thrown, publication) ↦
            inl (thrown, rw (status, publication, publish_bag) refl, inr publication)
        | inl (published, publication) ↦
            inr (published, rw (status, publication, publish_bag) refl, status, publication)
      ]
    ]

publish_bag-complete_iff :
    (answers : Answers) (data_complete : Bool) (control : Control) (result : FinishResult)
    → ((publish_bag answers data_complete (control, result)).1.outcome ≡ published_complete) ↔ (
        (data_complete ≡ true)
        × (answers.write_status published_complete ≡ ok tt)
        × IsPublished answers)
publish_bag-complete_iff answers true control result =
    elim (publish_bag_cases answers true control result) [
      | inl (thrown, same, why) ↦ rw same (
        (λ e. absurd (report_thrown_outcome answers thrown control result e)),
        (λ h. absurd (elim why [
          | inl status ↦ ground arith
          | inr publication ↦ let (published, made, _, _) = h.2 in ground arith
        ])),
      )
      | inr (published, same, status, publication) ↦ rw same (
        (λ e.
            let (_, clean, proven) =
              (report_published_iff published_complete published result).0 e in
            (refl, status, (published, publication, clean, proven))),
        (λ h.
            let (published', made, clean, proven) = h.2 in
            let alike : published ≡ published' = ground arith in
            (report_published_iff published_complete published result).1
              (refl, rw alike clean, rw alike proven)),
      )
    ]
publish_bag-complete_iff answers false control result =
    elim (publish_bag_cases answers false control result) [
      | inl (thrown, same, why) ↦
          rw same ((λ e. absurd (report_thrown_outcome answers thrown control result e)), (λ h. cc))
      | inr (published, same, status, publication) ↦ rw same (
        (λ e.
            absurd (
              ground (arith, (report_published_iff (planned_outcome false) published result).0 e))),
        (λ h. cc),
      )
    ]

pub conclude-complete_iff :
    (answers : Answers) (data_complete : Bool) (control : Control) (result : FinishResult)
    → ((conclude answers data_complete (control, result)).1.outcome ≡ published_complete) ↔ (
        (answers.stop_jpeg ≡ none)
        × (control.fatal_error ≡ false)
        × (data_complete ≡ true)
        × (answers.write_status published_complete ≡ ok tt)
        × IsPublished answers)
unfolding conclude
conclude-complete_iff answers data_complete control result = elim (Option-cases answers.stop_jpeg) [
  | inr (error, jpeg) ↦
      rw (jpeg, conclude)
        ((λ e. absurd (report_jpeg_failure_outcome answers error control result e)), (λ h. cc))
  | inl stopped ↦ elim (Bool-cases control.fatal_error) [
    | inl fatal ↦
        let same : conclude answers data_complete (control, result)
            ≡ report_fatal answers (control, result) =
          ground arith in
        rw same ((λ e. absurd (report_fatal_outcome answers control result e)), (λ h. cc))
    | inr fine ↦
        let (to, from) = publish_bag-complete_iff answers data_complete control result in
        let same : conclude answers data_complete (control, result)
            ≡ publish_bag answers data_complete (control, result) =
          ground arith in
        rw same (
          (λ e. let (whole, status, bag) = to e in (stopped, fine, whole, status, bag)),
          (λ h. from (h.2, h.3, h.4)),
        )
  ]
]
