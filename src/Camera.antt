-- ===== src/Camera.antt =====
-- src/cam_demo_common.cpp: camera masks, output canvases and rotations. An `int` is an integer where
-- the code tests its sign, and a mask is a `uint32_t`.
pub mod Masks
pub mod Frame
use mrp_robo_baton_4p_no_ros.Base.{
  ℕ, zero, suc, ◌+◌, ◌-◌, ◌%◌, ◌^◌, Bool, true, false, ◌&&◌, ◌||◌, not, ◌==◌, ltb, leb,
  if◌then◌else◌, bit_and,
}
use mrp_robo_baton_4p_no_ros.Base.Int.{ℤ, pos, pos_part, ltb_ℤ}

abbrev pub max_channels : ℕ
max_channels = 4

abbrev pub default_camera_mask : ℕ
default_camera_mask = 2 ^ max_channels - 1

-- `~x` on 32 bits.
abbrev complement32 : ℕ → ℕ
complement32 x = 2 ^ 32 - 1 - x

unfoldable pub camera_mask_from_channel_count : ℤ → ℕ
camera_mask_from_channel_count channels =
    if not (ltb_ℤ (pos 0) channels)
    then 0
    else if not (ltb_ℤ channels (pos max_channels))
    then default_camera_mask
    else 2 ^ pos_part channels - 1

unfoldable pub camera_mask_contains : ℕ → ℤ → Bool
camera_mask_contains camera_mask camera_id =
    if ltb_ℤ camera_id (pos 0) || not (ltb_ℤ camera_id (pos max_channels))
    then false
    else not (bit_and camera_mask (2 ^ pos_part camera_id) == 0)

-- The loop over the ids from `camera_id` on, with the rounds left.
unfoldable pub pop_count_loop : ℕ → ℕ → ℕ → ℕ → ℕ
pop_count_loop zero camera_id camera_mask count = count
pop_count_loop (suc rounds) camera_id camera_mask count =
    pop_count_loop rounds (camera_id + 1) camera_mask
      (if camera_mask_contains camera_mask (pos camera_id) then count + 1 else count)

unfoldable pub camera_mask_pop_count : ℕ → ℕ
unfolding pop_count_loop
camera_mask_pop_count camera_mask = pop_count_loop max_channels 0 camera_mask 0

unfoldable pub is_supported_camera_mask : ℕ → Bool
is_supported_camera_mask camera_mask =
    if camera_mask == default_camera_mask
    then true
    else camera_mask_pop_count camera_mask == 1
      && bit_and camera_mask (complement32 default_camera_mask) == 0

unfoldable pub is_supported_output_resolution : ℕ → ℕ → Bool
is_supported_output_resolution width height =
    width == 1280 && height == 1088
    || width == 1088 && height == 1280
    || width == 640 && height == 480
    || width == 480 && height == 640
    || width == 720 && height == 480
    || width == 480 && height == 720
    || width == 1280 && height == 720
    || width == 720 && height == 1280

abbrev mount_rotate_degrees : ℕ
mount_rotate_degrees = 90

-- The three read `rotate_degrees`, `width` and `height` of the options.
unfoldable pub output_width : ℕ → ℕ → ℕ → ℕ
output_width rotate_degrees width height =
    if rotate_degrees == 90 || rotate_degrees == 270 then height else width

unfoldable pub output_height : ℕ → ℕ → ℕ → ℕ
output_height rotate_degrees width height =
    if rotate_degrees == 90 || rotate_degrees == 270 then width else height

unfoldable pub internal_rotate_degrees : ℕ → ℕ
internal_rotate_degrees rotate_degrees = (rotate_degrees + mount_rotate_degrees) % 360
