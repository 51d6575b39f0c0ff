-- ===== src/Bag/Paths.antt =====
-- src/rosbag_v2_writer.cpp: the names of a bag, its partial file and its quarantine, and the test of
-- the path that the user gives.
pub mod Safety
use mrp_robo_baton_4p_no_ros.Base.{
  ℕ, suc, ◌+◌, ◌-◌, ◌<◌, Bool, true, false, ◌&&◌, ◌||◌, not, List, [], ◌∷◌, ◌++◌, length, take,
  drop, ltb, leb, ◌==◌, bytes_eq, if◌then◌else◌,
}
use mrp_robo_baton_4p_no_ros.Base.Bytes.{codes}
use mrp_robo_baton_4p_no_ros.Base.Errors.{invalid_argument, Result, ok, ◌>>=◌, ◌>>◌, throw_if}
use mrp_robo_baton_4p_no_ros.Bag.Writer.Messages.{is_absolute, contains}

abbrev pub bag_suffix : List ℕ
bag_suffix = codes ".bag"

-- `text.compare(text.size() - n, n, suffix) == 0`, for the length n of the suffix.
abbrev pub ends_with : List ℕ → List ℕ → Bool
ends_with suffix text = bytes_eq (drop (length text - length suffix) text) suffix

abbrev pub is_unsafe : ℕ → Bool
is_unsafe c = ltb c 0x21 || ltb 0x7e c || c == 92

unfoldable pub has_unsafe : List ℕ → Bool
has_unsafe [] = false
has_unsafe (c ∷ cs) = is_unsafe c || has_unsafe cs

unfoldable pub require_safe_final_bag_path : List ℕ → Result (Unit {0})
require_safe_final_bag_path final_path = do
  throw_if (not (is_absolute final_path)) (invalid_argument "--record-bag path must be absolute")
  throw_if (ltb (length final_path) 5 || not (ends_with bag_suffix final_path))
      (invalid_argument "--record-bag path must end with .bag")
  throw_if
      (contains (codes "/../") final_path
        || leb 3 (length final_path) && ends_with (codes "/..") final_path)
      (invalid_argument "--record-bag path is unsafe")
  throw_if (has_unsafe final_path)
      (invalid_argument "--record-bag path contains an unsafe character")

-- A finished component is kept unless it is empty.
abbrev pub push_component : List ℕ → List (List ℕ) → List (List ℕ)
push_component [] rest = rest
push_component (c ∷ cs) rest = (c ∷ cs) ∷ rest

-- The text behind the cursor, with the bytes of the component since the last slash.
unfoldable pub split_loop : List ℕ → List ℕ → List (List ℕ)
split_loop component [] = push_component component []
split_loop component (c ∷ cs) =
    let next = split_loop [] cs in
    let longer = split_loop (component ++ c ∷ []) cs in
    if c == b'/' then push_component component next else longer

-- The first byte is skipped: it is the slash of an absolute path.
unfoldable pub split_absolute_path : List ℕ → List (List ℕ)
split_absolute_path path = split_loop [] (drop 1 path)

abbrev with_suffix : List ℕ → List ℕ → List ℕ
with_suffix name suffix =
    if ltb 4 (length name) && ends_with bag_suffix name
    then take (length name - 4) name ++ suffix
    else name ++ suffix

unfoldable pub partial_name : List ℕ → List ℕ
partial_name final_name = with_suffix final_name (codes ".partial.bag")

unfoldable pub quarantine_name : List ℕ → List ℕ → List ℕ
quarantine_name session_uuid target_name =
    with_suffix target_name (codes ".quarantine-" ++ (session_uuid ++ bag_suffix))
