-- ===== src/Examples/Names.antt =====
-- The paths of src/rosbag_v2_writer.cpp and the frames of src/cam_demo_common.cpp on concrete inputs.
use mrp_robo_baton_4p_no_ros.Base.{
  ℕ, ◌≡◌, ◌↔◌, true, none, some, List, [], ◌∷◌, ◌++◌, ◌<◌, All, length, arith,
}
use mrp_robo_baton_4p_no_ros.Base.Bytes.{codes}
use mrp_robo_baton_4p_no_ros.Base.Errors.{ok}
use mrp_robo_baton_4p_no_ros.Bag.Paths.{require_safe_final_bag_path}
use mrp_robo_baton_4p_no_ros.Bag.Paths.Safety.{IsSafe, require_safe_final_bag_path_iff}
use mrp_robo_baton_4p_no_ros.Bag.Staging.{
  Answers, Staging, unlinked, absent, closed, close_failed, nothing_held, release_staging_files,
}
use mrp_robo_baton_4p_no_ros.Bag.Staging.Release.{IsReport, AllWent, release_staging_files_lem}
use mrp_robo_baton_4p_no_ros.Camera.Frame.{Store, moves, resets, releases, run}
use mrp_robo_baton_4p_no_ros.Camera.Frame.Ownership.{total, total-run}

abbrev bag_path : List ℕ
bag_path = codes "/data/run.bag"

require_safe_final_bag_path_iff_example : (require_safe_final_bag_path bag_path ≡ ok tt) ↔ (
    ((rest : List ℕ) × (bag_path ≡ b'/' ∷ rest))
    × ((stem : List ℕ) × (bag_path ≡ stem ++ codes ".bag") × (0 < length stem))
    × (¬ ((a : List ℕ) × (b : List ℕ) × (bag_path ≡ a ++ (codes "/../" ++ b))))
    × (¬ ((a : List ℕ) × (bag_path ≡ a ++ codes "/..")))
    × All IsSafe bag_path)
require_safe_final_bag_path_iff_example = require_safe_final_bag_path_iff bag_path

-- Two owners and an empty object.
abbrev two_owners : Store
two_owners = record { frames = some 7 ∷ some 8 ∷ none ∷ []; released = []; handed_over = [] }

total-run_example :
    total 7 (run two_owners (moves 2 0 ∷ moves 1 2 ∷ releases 1 ∷ resets 0 ∷ []))
    ≡ total 7 two_owners
total-run_example =
    total-run 7 two_owners (moves 2 0 ∷ moves 1 2 ∷ releases 1 ∷ resets 0 ∷ [])
      ((omega arith, omega arith), ((omega arith, omega arith), (omega arith, (omega arith, tt))))

-- The lock does not close.
abbrev bad_lock : Answers
bad_lock = record {
  unlink_temp = unlinked;
  close_lock = close_failed (codes "I/O error");
  close_temp = closed;
  unlink_lock = absent;
  close_parent = closed;
}

abbrev all_held : Staging
all_held = record {
  parent_dir_fd = some 3;
  lock_fd = some 4;
  temp_fd = some 5;
  temp_path = codes "/data/.run.bag.tmp";
  temp_name = codes ".run.bag.tmp";
  lock_path = codes "/data/.run.bag.lock";
  lock_name = codes ".run.bag.lock";
  final_name = codes "run.bag";
}

release_staging_files_lem_example :
    ((release_staging_files bad_lock all_held).1 ≡ nothing_held)
    × IsReport (release_staging_files bad_lock all_held).0
    × (((release_staging_files bad_lock all_held).0.cleanup_complete ≡ true)
        ↔ AllWent bad_lock all_held)
release_staging_files_lem_example = release_staging_files_lem bad_lock all_held
