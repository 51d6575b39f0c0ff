-- ===== src/Bag/Staging.antt =====
-- src/rosbag_v2_writer.cpp: the files that a writer holds while it writes, and their release. A file
-- descriptor is `none` when it is -1. What the kernel answers to the calls of `unlinkat` and `close`
-- is given; a failure carries the text of its error number.
pub mod Release
use mrp_robo_baton_4p_no_ros.Base.{
  ℕ, Bool, true, false, ◌&&◌, not, Option, none, some, List, [], ◌∷◌, ◌++◌, if◌then◌else◌,
}
use mrp_robo_baton_4p_no_ros.Base.Bytes.{codes}
use mrp_robo_baton_4p_no_ros.Bag.Meter.{Meter, publish_pending_stats}

pub record AbortResult : Type 0 where
  pub cleanup_complete : Bool
  pub error : List ℕ

abbrev pub is_empty_text : List ℕ → Bool
is_empty_text [] = true
is_empty_text (c ∷ cs) = false

-- An empty message adds nothing, and a second one follows a semicolon.
unfoldable pub append_cleanup_error : List ℕ → List ℕ → List ℕ
append_cleanup_error target message =
    if is_empty_text message
    then target
    else if is_empty_text target
    then message
    else target ++ (codes "; " ++ message)

unfoldable pub mark_cleanup_error : AbortResult → List ℕ → AbortResult
mark_cleanup_error result message = record {
  cleanup_complete = false;
  error = append_cleanup_error result.error message;
}

unfoldable pub errno_message : List ℕ → List ℕ → List ℕ
errno_message prefix text = prefix ++ (codes ": " ++ text)

-- `absent` is ENOENT.
pub data UnlinkAnswer : Type 0 where
  unlinked absent : UnlinkAnswer
  unlink_failed : List ℕ → UnlinkAnswer

pub data CloseAnswer : Type 0 where
  closed : CloseAnswer
  close_failed : List ℕ → CloseAnswer

-- The answers to the five calls of a release.
pub record Answers : Type 0 where
  pub unlink_temp : UnlinkAnswer
  pub close_lock : CloseAnswer
  pub close_temp : CloseAnswer
  pub unlink_lock : UnlinkAnswer
  pub close_parent : CloseAnswer

pub record Staging : Type 0 where
  pub parent_dir_fd : Option ℕ
  pub lock_fd : Option ℕ
  pub temp_fd : Option ℕ
  pub temp_path : List ℕ
  pub temp_name : List ℕ
  pub lock_path : List ℕ
  pub lock_name : List ℕ
  pub final_name : List ℕ

abbrev pub is_held : Option ℕ → Bool
is_held none = false
is_held (some fd) = true

unfoldable pub note_unlink : Bool → UnlinkAnswer → List ℕ → AbortResult → AbortResult
note_unlink true (unlink_failed text) prefix result =
    mark_cleanup_error result (errno_message prefix text)
note_unlink true unlinked prefix result = result
note_unlink true absent prefix result = result
note_unlink false answer prefix result = result

unfoldable pub note_close : Bool → CloseAnswer → List ℕ → AbortResult → AbortResult
note_close true (close_failed text) prefix result =
    mark_cleanup_error result (errno_message prefix text)
note_close true closed prefix result = result
note_close false answer prefix result = result

abbrev pub nothing_held : Staging
nothing_held = record {
  parent_dir_fd = none;
  lock_fd = none;
  temp_fd = none;
  temp_path = [];
  temp_name = [];
  lock_path = [];
  lock_name = [];
  final_name = [];
}

abbrev pub clean_result : AbortResult
clean_result = record { cleanup_complete = true; error = [] }

-- Each call is made only for what is held; no failure keeps the later calls from being made.
unfoldable pub release_staging_files : Answers → Staging → AbortResult × Staging
release_staging_files answers s =
    let r₁ =
      note_unlink (is_held parent_dir_fd && not (is_empty_text temp_name)) answers.unlink_temp
        (codes "unlink temporary bag failed") clean_result in
    let r₂ = note_close (is_held lock_fd) answers.close_lock (codes "close bag lock failed") r₁ in
    let r₃ =
      note_close (is_held temp_fd) answers.close_temp (codes "close temporary bag fd failed") r₂ in
    let r₄ =
      note_unlink (is_held parent_dir_fd && not (is_empty_text lock_name)) answers.unlink_lock
        (codes "unlink bag lock failed") r₃ in
    let r₅ =
      note_close (is_held parent_dir_fd) answers.close_parent
        (codes "close bag parent directory failed") r₄ in
    (r₅, nothing_held)
  where
    open s use {parent_dir_fd, lock_fd, temp_fd, temp_name, lock_name}

-- The result of the release is copied, and the statistics are published at `publish_ns`.
unfoldable pub abort : Answers → ℕ → Staging × Meter → AbortResult × Staging × Meter
abort answers publish_ns (s, meter) =
    let (staging, s') = release_staging_files answers s in
    let result =
      if staging.cleanup_complete
      then clean_result
      else record { cleanup_complete = false; error = append_cleanup_error [] staging.error } in
    (result, s', publish_pending_stats publish_ns meter)
