-- ===== src/Camera/Masks.antt =====
-- What the mask functions accept and count.
use mrp_robo_baton_4p_no_ros.Base.{
  ℕ, zero, suc, inl, inr, ◌*◌, ◌+◌, ◌/◌, ◌%◌, ◌^◌, ◌<◌, ◌≡◌, ◌⊎◌, ◌↔◌, true, arith,
}
use mrp_robo_baton_4p_no_ros.Base.Int.{ℤ, pos, negsuc, pos_part, ◌≤ℤ◌}
use mrp_robo_baton_4p_no_ros.Base.Bits.{
  bit_and-one, bit_and_two, bit_and_four, bit_and_eight, bit_and_high,
}
use mrp_robo_baton_4p_no_ros.Camera.{
  camera_mask_from_channel_count, camera_mask_contains, camera_mask_pop_count,
  is_supported_camera_mask, is_supported_output_resolution, output_width, output_height,
  internal_rotate_degrees,
}

-- The count is the number of ones among the lowest four digits of the mask.
pub camera_mask_pop_count_digits :
    (mask : ℕ)
    → mask < 2 ^ 32
    → camera_mask_pop_count mask ≡ mask % 2 + mask / 2 % 2 + mask / 4 % 2 + mask / 8 % 2
unfolding camera_mask_pop_count camera_mask_contains
camera_mask_pop_count_digits mask h =
    ground
      (arith, bit_and-one mask h, bit_and_two mask h, bit_and_four mask h, bit_and_eight mask h)

-- Exactly five 32-bit masks are supported: the four single cameras and all four together.
pub is_supported_camera_mask_iff :
    (mask : ℕ)
    → mask < 2 ^ 32
    → (is_supported_camera_mask mask ≡ true)
      ↔ ((mask ≡ 1) ⊎ (mask ≡ 2) ⊎ (mask ≡ 4) ⊎ (mask ≡ 8) ⊎ (mask ≡ 15))
unfolding is_supported_camera_mask
is_supported_camera_mask_iff mask h =
    let count = camera_mask_pop_count_digits mask h in
    let high = bit_and_high mask h in (λ e. ground arith, λ e. ground arith)

-- Every channel count gives a mask of that many cameras, cut to the range 0 to 4.
pub pop_count-from_channel_count :
    (channels : ℤ)
    → ((channels ≤ℤ pos 0) × (camera_mask_pop_count (camera_mask_from_channel_count channels) ≡ 0))
      ⊎ ((pos 1 ≤ℤ channels)
          × (channels ≤ℤ pos 3)
          × (camera_mask_pop_count (camera_mask_from_channel_count channels) ≡ pos_part channels))
      ⊎ ((pos 4 ≤ℤ channels)
          × (camera_mask_pop_count (camera_mask_from_channel_count channels) ≡ 4))
unfolding camera_mask_from_channel_count
pop_count-from_channel_count (negsuc n) =
    inl (omega arith, ground (arith, camera_mask_pop_count_digits 0 (omega arith)))
pop_count-from_channel_count (pos zero) =
    inl (omega arith, ground (arith, camera_mask_pop_count_digits 0 (omega arith)))
pop_count-from_channel_count (pos (suc zero)) =
    inr (inl (omega arith, omega arith, camera_mask_pop_count_digits 1 (omega arith)))
pop_count-from_channel_count (pos (suc (suc zero))) =
    inr (inl (omega arith, omega arith, camera_mask_pop_count_digits 3 (omega arith)))
pop_count-from_channel_count (pos (suc (suc (suc zero)))) =
    inr (inl (omega arith, omega arith, camera_mask_pop_count_digits 7 (omega arith)))
pop_count-from_channel_count (pos (suc (suc (suc (suc n))))) =
    inr (inr (omega arith, ground (arith, camera_mask_pop_count_digits 15 (omega arith))))

-- Of the four external rotations exactly 180 degrees becomes the internal 270, and a supported canvas
-- is delivered as a supported canvas under each of them, its axes swapped under 90 and 270 only.
pub delivered_canvas :
    (rotate width height : ℕ)
    → (rotate ≡ 0) ⊎ (rotate ≡ 90) ⊎ (rotate ≡ 180) ⊎ (rotate ≡ 270)
    → is_supported_output_resolution width height ≡ true
    → (is_supported_output_resolution
          (output_width rotate width height)
          (output_height rotate width height)
        ≡ true)
      × (output_width rotate width height * output_height rotate width height ≡ width * height)
      × ((internal_rotate_degrees rotate ≡ 270) ↔ (rotate ≡ 180))
unfolding is_supported_output_resolution output_width output_height internal_rotate_degrees
delivered_canvas rotate width height r s =
    (ground arith, ground arith, (λ e. ground arith, λ e. ground arith))
