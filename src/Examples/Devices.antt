-- ===== src/Examples/Devices.antt =====
-- src/frozen_system_clock.cpp, src/cam_demo_common.cpp and src/mosaic_nv12.cpp on concrete inputs.
use mrp_robo_baton_4p_no_ros.Base.{
  ℕ, ◌+◌, ◌-◌, ◌*◌, ◌/◌, ◌%◌, ◌^◌, ◌≤◌, ◌<◌, ◌≡◌, ◌⊎◌, refl, true, some, arith,
}
use mrp_robo_baton_4p_no_ros.Base.Int.{pos, negsuc, ◌+ℤ◌, ◌≤ℤ◌}
use mrp_robo_baton_4p_no_ros.Base.Errors.{overflow_error, ok, throws}
use mrp_robo_baton_4p_no_ros.Clock.{
  realtime, monotonic_raw, Snapshot, map_raw_ns, checked_offset, capture, negative_offset_magnitude,
  ClockReader,
}
use mrp_robo_baton_4p_no_ros.Clock.Mapping.{map_raw_ns_exact}
use mrp_robo_baton_4p_no_ros.Camera.{camera_mask_pop_count, is_supported_output_resolution}
use mrp_robo_baton_4p_no_ros.Camera.Masks.{camera_mask_pop_count_digits}
use mrp_robo_baton_4p_no_ros.Mosaic.{Nv12ImageView, plane}
use mrp_robo_baton_4p_no_ros.Mosaic.Tiles.{IsView}
use mrp_robo_baton_4p_no_ros.Mosaic.Pixels.{Outcomes, copy_nv12_mosaic_2x2-IsMosaic}

abbrev behind : Snapshot
behind = record {
  realtime_start_ns = 40;
  monotonic_raw_start_ns = 100;
  frozen_offset_ns = negsuc 59;
}

map_raw_ns_exact_example :
    ((t : ℕ) × (map_raw_ns behind 130 ≡ ok t) × (pos t ≡ pos 130 +ℤ negsuc 59) × (t < 2 ^ 64))
    ⊎ ((map_raw_ns behind 130
          ≡ throws (overflow_error "frozen system timestamp is outside uint64 range"))
        × ((pos 130 +ℤ negsuc 59 ≤ℤ negsuc 0) ⊎ (pos (2 ^ 64) ≤ℤ pos 130 +ℤ negsuc 59)))
map_raw_ns_exact_example = map_raw_ns_exact behind 130 (omega arith, omega arith) (omega arith)

abbrev reader : ClockReader
reader realtime = some 40
reader monotonic_raw = some 100

captured : capture (some reader) ≡ ok behind
unfolding capture checked_offset
captured = refl

mapped : (raw : ℕ) → 60 ≤ raw → map_raw_ns behind raw ≡ ok (raw - 60)
unfolding map_raw_ns negative_offset_magnitude
mapped raw h = ground arith

camera_mask_pop_count_digits_example :
    camera_mask_pop_count 11 ≡ 11 % 2 + 11 / 2 % 2 + 11 / 4 % 2 + 11 / 8 % 2
camera_mask_pop_count_digits_example = camera_mask_pop_count_digits 11 (omega arith)

supported : is_supported_output_resolution 1280 1088 ≡ true
unfolding is_supported_output_resolution
supported = refl

-- Images with a padded stride, whose bytes tell their camera, and a canvas of zeros.
abbrev image : ℕ → Nv12ImageView
image camera = record {
  y_data = plane (λ i. camera);
  uv_data = plane (λ i. camera + 128);
  width = 1280;
  height = 1088;
  stride = 1536;
  vstride = 1088;
  y_size_bytes = 1536 * 1088;
  uv_size_bytes = 1536 * 544;
}

abbrev canvas : Nv12ImageView
canvas = record {
  y_data = plane (λ i. 0);
  uv_data = plane (λ i. 0);
  width = 2560;
  height = 2176;
  stride = 2560;
  vstride = 2176;
  y_size_bytes = 2560 * 2176;
  uv_size_bytes = 2560 * 1088;
}

canvas-IsView : IsView canvas
canvas-IsView = record {
  stride_range = omega arith;
  y_size_range = omega arith;
  uv_size_range = omega arith;
}

image-IsView : (camera : ℕ) → IsView (image camera)
image-IsView camera = record {
  stride_range = omega arith;
  y_size_range = omega arith;
  uv_size_range = omega arith;
}

copy_nv12_mosaic_2x2-IsMosaic_example : Outcomes image canvas
copy_nv12_mosaic_2x2-IsMosaic_example =
    copy_nv12_mosaic_2x2-IsMosaic image canvas canvas-IsView (λ camera _. image-IsView camera)
