-- ===== src/Camera/Frame.antt =====
-- src/cam_demo_common.h and src/cam_demo_common.cpp: `QueuedFrame`, the owner of a retained camera
-- frame. The objects stand in a store; a move between two of them, a reset and a hand-over change the
-- frame they own, and `sc132_frame_release` logs the frames that it is given. The other fields are
-- copied and own nothing.
pub mod Ownership
use mrp_robo_baton_4p_no_ros.Base.{
  ℕ, zero, suc, ◌+◌, ◌≤◌, ◌<◌, ◌≡◌, ◌≢◌, refl, Bool, true, false, Option, none, some, List, [], ◌∷◌,
  length, set, get_or, ◌==◌, if◌then◌else◌, arith,
}

pub record Store : Type 0 where
  pub frames : List (Option ℕ)
  pub released : List ℕ
  pub handed_over : List ℕ

abbrev pub frame_of : Store → ℕ → Option ℕ
frame_of s object = get_or s.frames object none

abbrev pub put : ℕ → Option ℕ → Store → Store
put object frame s = record s { frames = set s.frames object frame }

abbrev pub log_release : Option ℕ → List ℕ → List ℕ
log_release none log = log
log_release (some frame) log = frame ∷ log

-- `Reset`, which the destructor calls too.
unfoldable pub reset : ℕ → Store → Store
reset object s = record s {
  frames = set s.frames object none;
  released = log_release (frame_of s object) s.released;
}

-- `ReleaseOwnership`: the caller takes the frame, if there is one.
unfoldable pub release_ownership : ℕ → Store → Store
release_ownership object s = record s {
  frames = set s.frames object none;
  handed_over = log_release (frame_of s object) s.handed_over;
}

-- `std::exchange(other.frame, nullptr)` into `frame`.
abbrev pub moved : ℕ → ℕ → Store → Store
moved object other s = put object (frame_of s other) (put other none s)

-- `*this = std::move(other)`.
unfoldable pub move_assign : ℕ → ℕ → Store → Store
move_assign object other s = if object == other then s else moved object other (reset object s)

pub data Step : Type 0 where
  resets releases : ℕ → Step
  moves : ℕ → ℕ → Step

unfoldable pub step : Store → Step → Store
step s (resets object) = reset object s
step s (releases object) = release_ownership object s
step s (moves object other) = move_assign object other s

unfoldable pub run : Store → List Step → Store
run s [] = s
run s (x ∷ xs) = run (step s x) xs
