-- ===== src/Recorder/FrameSets/Queue.antt =====
-- src/sensor_bag_recorder.cpp: the queue of the workers is a queue for each camera, and the jobs of a
-- frame set get consecutive orders.
use mrp_robo_baton_4p_no_ros.Base.{
  ℕ, ◌+◌, ◌≡◌, ◌≢◌, ◌⊎◌, refl, none, some, List, [], ◌∷◌, length, ◌==◌, if◌then◌else◌, arith, inl,
  inr, Bool-cases,
}
use mrp_robo_baton_4p_no_ros.Recorder.{FrameJob}
use mrp_robo_baton_4p_no_ros.Recorder.FrameSets.{pop_frame}

-- The jobs of one camera, in their order.
pub of_camera : ℕ → List FrameJob → List FrameJob
of_camera camera_id [] = []
of_camera camera_id (job ∷ jobs) =
    if job.camera_id == camera_id then job ∷ of_camera camera_id jobs else of_camera camera_id jobs

-- A worker takes the oldest job of its camera, and the jobs of the other cameras stay as they are;
-- it finds none only where its camera has none.
pub pop_frame-of_camera :
    (camera_id : ℕ) (jobs : List FrameJob)
    → ((pop_frame camera_id jobs ≡ none) × (of_camera camera_id jobs ≡ []))
      ⊎ ((job : FrameJob) × (rest : List FrameJob) × (pop_frame camera_id jobs ≡ some (job, rest))
          × (of_camera camera_id jobs ≡ job ∷ of_camera camera_id rest)
          × (length jobs ≡ length rest + 1)
          × ((other : ℕ) → other ≢ camera_id → of_camera other rest ≡ of_camera other jobs))
unfolding pop_frame of_camera
pop_frame-of_camera camera_id [] = inl (refl, refl)
pop_frame-of_camera camera_id (job ∷ jobs) = elim (Bool-cases (job.camera_id == camera_id)) [
  | inl here ↦ inr (job, jobs, rw here refl, rw here refl, omega arith, λ other apart. ground arith)
  | inr there ↦ elim (pop_frame-of_camera camera_id jobs) [
    | inl (nothing, empty) ↦ inl (rw (there, nothing) refl, rw there empty)
    | inr (found, rest, popped, first, fewer, others) ↦ inr (
      found,
      job ∷ rest,
      rw (there, popped) refl,
      rw there first,
      omega arith,
      λ other apart. rw (others other apart) refl,
    )
  ]
]
