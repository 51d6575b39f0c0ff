-- ===== src/Bag/Staging/Release.antt =====
-- What a release of the staging files reports.
use mrp_robo_baton_4p_no_ros.Base.{
  ℕ, ◌≡◌, ◌≢◌, ◌↔◌, refl, Bool, true, false, ◌&&◌, not, List, [], ◌∷◌, ◌++◌,
}
use mrp_robo_baton_4p_no_ros.Base.Bytes.{codes}
use mrp_robo_baton_4p_no_ros.Bag.Staging.{
  AbortResult, is_empty_text, append_cleanup_error, mark_cleanup_error, errno_message, UnlinkAnswer,
  unlinked, absent, unlink_failed, CloseAnswer, closed, close_failed, Answers, Staging, is_held,
  note_unlink, note_close, nothing_held, clean_result, release_staging_files,
}

-- The report is clean and has no text, or it is not and has one.
abbrev pub IsReport : AbortResult → Type 0
IsReport r = (r.cleanup_complete ≡ true) ↔ (r.error ≡ [])

-- The call was not made, or it worked; for an unlink, also where there was no such file.
abbrev pub UnlinkWent : Bool → UnlinkAnswer → Type 0
UnlinkWent true (unlink_failed text) = ⊥
UnlinkWent true unlinked = Unit {0}
UnlinkWent true absent = Unit {0}
UnlinkWent false answer = Unit {0}

abbrev pub CloseWent : Bool → CloseAnswer → Type 0
CloseWent true (close_failed text) = ⊥
CloseWent true closed = Unit {0}
CloseWent false answer = Unit {0}

append_cleanup_error-nonempty :
    (target : List ℕ) (c : ℕ) (cs : List ℕ) → append_cleanup_error target (c ∷ cs) ≢ []
unfolding append_cleanup_error
append_cleanup_error-nonempty [] c cs e = cc
append_cleanup_error-nonempty (x ∷ xs) c cs e = cc

mark-IsReport :
    (r : AbortResult) (c : ℕ) (cs text : List ℕ)
    → IsReport (mark_cleanup_error r (errno_message (c ∷ cs) text))
unfolding mark_cleanup_error errno_message
mark-IsReport r c cs text = (
  (λ e. cc),
  (λ e. absurd (append_cleanup_error-nonempty r.error c (cs ++ (codes ": " ++ text)) e)),
)

-- A report behind a call: it says that all went well when it did so before and the call went well.
abbrev Notes : AbortResult → AbortResult → Type 0 → Type 0
Notes before after went =
    IsReport after × ((after.cleanup_complete ≡ true) ↔ ((before.cleanup_complete ≡ true) × went))

note_unlink-Notes :
    (held : Bool) (answer : UnlinkAnswer) (c : ℕ) (cs : List ℕ) (r : AbortResult)
    → IsReport r
    → Notes r (note_unlink held answer (c ∷ cs) r) (UnlinkWent held answer)
unfolding note_unlink mark_cleanup_error
note_unlink-Notes true (unlink_failed text) c cs r h =
    (mark-IsReport r c cs text, ((λ e. cc), (λ went. absurd went.1)))
note_unlink-Notes true unlinked c cs r h = (h, ((λ e. (e, tt)), (λ went. went.0)))
note_unlink-Notes true absent c cs r h = (h, ((λ e. (e, tt)), (λ went. went.0)))
note_unlink-Notes false answer c cs r h = (h, ((λ e. (e, tt)), (λ went. went.0)))

note_close-Notes :
    (held : Bool) (answer : CloseAnswer) (c : ℕ) (cs : List ℕ) (r : AbortResult)
    → IsReport r
    → Notes r (note_close held answer (c ∷ cs) r) (CloseWent held answer)
unfolding note_close mark_cleanup_error
note_close-Notes true (close_failed text) c cs r h =
    (mark-IsReport r c cs text, ((λ e. cc), (λ went. absurd went.1)))
note_close-Notes true closed c cs r h = (h, ((λ e. (e, tt)), (λ went. went.0)))
note_close-Notes false answer c cs r h = (h, ((λ e. (e, tt)), (λ went. went.0)))

-- The five calls of a release, those that it makes, all went well.
abbrev pub AllWent : Answers → Staging → Type 0
AllWent a s =
    UnlinkWent (is_held s.parent_dir_fd && not (is_empty_text s.temp_name)) a.unlink_temp
    × CloseWent (is_held s.lock_fd) a.close_lock
    × CloseWent (is_held s.temp_fd) a.close_temp
    × UnlinkWent (is_held s.parent_dir_fd && not (is_empty_text s.lock_name)) a.unlink_lock
    × CloseWent (is_held s.parent_dir_fd) a.close_parent

-- Whatever the kernel answers, a release leaves nothing held and no name set. It reports a complete
-- cleanup exactly when every call that it made went well, a missing file counted as unlinked, and
-- gives an error text exactly when the cleanup is not complete.
pub release_staging_files_lem :
    (a : Answers) (s : Staging)
    → ((release_staging_files a s).1 ≡ nothing_held)
      × IsReport (release_staging_files a s).0
      × (((release_staging_files a s).0.cleanup_complete ≡ true) ↔ AllWent a s)
unfolding release_staging_files
release_staging_files_lem a s =
    let temp = is_held s.parent_dir_fd && not (is_empty_text s.temp_name) in
    let lock = is_held s.parent_dir_fd && not (is_empty_text s.lock_name) in
    let (v₁, n₁) =
      note_unlink-Notes temp a.unlink_temp _ _ clean_result ((λ e. refl), (λ e. refl)) in
    let (v₂, n₂) = note_close-Notes (is_held s.lock_fd) a.close_lock _ _ _ v₁ in
    let (v₃, n₃) = note_close-Notes (is_held s.temp_fd) a.close_temp _ _ _ v₂ in
    let (v₄, n₄) = note_unlink-Notes lock a.unlink_lock _ _ _ v₃ in
    let (v₅, n₅) = note_close-Notes (is_held s.parent_dir_fd) a.close_parent _ _ _ v₄ in
    (
      refl,
      v₅,
      (
        (λ e.
            let (e₄, w₅) = n₅.0 e in
            let (e₃, w₄) = n₄.0 e₄ in
            let (e₂, w₃) = n₃.0 e₃ in
            let (e₁, w₂) = n₂.0 e₂ in let (e₀, w₁) = n₁.0 e₁ in (w₁, w₂, w₃, w₄, w₅)),
        λ w.
            let (w₁, w₂, w₃, w₄, w₅) = w in
            n₅.1 (n₄.1 (n₃.1 (n₂.1 (n₁.1 (refl, w₁), w₂), w₃), w₄), w₅),
      ),
    )
