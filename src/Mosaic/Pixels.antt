-- ===== src/Mosaic/Pixels.antt =====
-- src/mosaic_nv12.cpp: the mosaic pixel by pixel, with the sizes written out.
use mrp_robo_baton_4p_no_ros.Base.{
  ℕ, zero, suc, ◌+◌, ◌-◌, ◌*◌, ◌/◌, ◌%◌, ◌^◌, ◌≤◌, ◌<◌, ◌≡◌, ◌⊎◌, ◌↔◌, refl, ap₂, ◌∙◌, true, false,
  some, arith, inl, inr, sym,
}
use mrp_robo_baton_4p_no_ros.Mosaic.{
  Nv12ImageView, PlanePointer, null_plane, plane, is_null, bytes_of, plane_size_is_valid,
  view_is_valid, tile_of, half_tile_of, y_buffer, uv_buffer, copy_nv12_mosaic_2x2, ok,
  invalid_source, invalid_destination,
}
use mrp_robo_baton_4p_no_ros.Mosaic.Tiles.{IsView, HasTiles, covers}
use mrp_robo_baton_4p_no_ros.Mosaic.Canvas.{copy_nv12_mosaic_2x2-HasMosaic}

-- A view of an image of that size: both planes are there, and each holds all of its rows.
pub record IsImage (width height : ℕ) (view : Nv12ImageView) : Type 0 where
  pub y_there : (bytes : ℕ → ℕ) × (view.y_data ≡ plane bytes)
  pub uv_there : (bytes : ℕ → ℕ) × (view.uv_data ≡ plane bytes)
  pub width_same : view.width ≡ width
  pub height_same : view.height ≡ height
  pub row_length : width ≤ view.stride
  pub row_count : height ≤ view.vstride
  pub even : view.vstride % 2 ≡ 0
  pub y_size : view.stride * view.vstride ≤ view.y_size_bytes
  pub uv_size : view.stride * (view.vstride / 2) ≤ view.uv_size_bytes

is_null_sound : (p : PlanePointer) → is_null p ≡ false → (bytes : ℕ → ℕ) × (p ≡ plane bytes)
is_null_sound null_plane h = cc
is_null_sound (plane bytes) h = (bytes, refl)

is_null_complete : (p : PlanePointer) → (bytes : ℕ → ℕ) × (p ≡ plane bytes) → is_null p ≡ false
is_null_complete p (bytes, e) = rw e refl

bool_clash : true ≡ false → ⊥
bool_clash h = cc

div_le : (n m s : ℕ) → s ≤ n / suc m → s * suc m ≤ n
div_le n m s h = grind arith

le_div : (n m s : ℕ) → s * suc m ≤ n → s ≤ n / suc m
le_div n m s h = grind arith

plane_size_is_valid_iff :
    (stride rows size : ℕ)
    → size < 2 ^ 64
    → 0 < rows
    → (plane_size_is_valid stride rows size ≡ true) ↔ (stride * rows ≤ size)
unfolding plane_size_is_valid
plane_size_is_valid_iff stride zero size range positive = absurd (omega arith)
plane_size_is_valid_iff stride (suc m) size range positive = (
  λ h. ground (arith, div_le (2 ^ 64 - 1) m stride),
  λ h. ground (arith, le_div (2 ^ 64 - 1) m stride),
)

-- The tests let through exactly the images of the size.
view_is_valid_iff :
    (width height : ℕ) (view : Nv12ImageView)
    → IsView view
    → 2 ≤ height
    → (view_is_valid width height view ≡ true) ↔ IsImage width height view
unfolding view_is_valid
view_is_valid_iff width height view sized tall = (sound, complete)
  where
    open view use {y_data, uv_data, stride, vstride, y_size_bytes, uv_size_bytes}

    y_plane :
        height ≤ vstride
        → (plane_size_is_valid stride vstride y_size_bytes ≡ true)
          ↔ (stride * vstride ≤ y_size_bytes)
    y_plane le =
        plane_size_is_valid_iff stride vstride y_size_bytes sized.y_size_range (omega arith)

    uv_plane :
        height ≤ vstride
        → (plane_size_is_valid stride (vstride / 2) uv_size_bytes ≡ true)
          ↔ (stride * (vstride / 2) ≤ uv_size_bytes)
    uv_plane le =
        plane_size_is_valid_iff stride (vstride / 2) uv_size_bytes sized.uv_size_range (omega arith)

    sound : view_is_valid width height view ≡ true → IsImage width height view
    sound h =
        let le : height ≤ vstride = ground arith in
        record {
          y_there = is_null_sound y_data (ground arith);
          uv_there = is_null_sound uv_data (ground arith);
          width_same = ground arith;
          height_same = ground arith;
          row_length = ground arith;
          row_count = le;
          even = ground arith;
          y_size = (y_plane le).0 (ground arith);
          uv_size = (uv_plane le).0 (ground arith);
        }

    complete : IsImage width height view → view_is_valid width height view ≡ true
    complete v =
        let y_there : is_null y_data ≡ false = is_null_complete y_data v.y_there in
        let uv_there : is_null uv_data ≡ false = is_null_complete uv_data v.uv_there in
        let y_size : plane_size_is_valid stride vstride y_size_bytes ≡ true =
          (y_plane v.row_count).1 v.y_size in
        let uv_size : plane_size_is_valid stride (vstride / 2) uv_size_bytes ≡ true =
          (uv_plane v.row_count).1 v.uv_size in
        let a = v.width_same in
        let b = v.height_same in
        let c = v.row_length in let d = v.row_count in let e = v.even in ground arith

module _ (sources : ℕ → Nv12ImageView) (destination : Nv12ImageView) where
  open destination use {stride}

  -- The planes of four images in two rows of two: row r and column c of the mosaic, and the bytes that
  -- stand to the right of it or below it as they were.
  abbrev pub IsMosaic : (ℕ → ℕ) → (ℕ → ℕ) → Type 0
  IsMosaic y uv =
      (r c : ℕ)
      → c < stride
      → (r < 2176
          → c < 2560
          → y (r * stride + c)
            ≡ bytes_of (sources (r / 1088 * 2 + c / 1280)).y_data
                (r % 1088 * (sources (r / 1088 * 2 + c / 1280)).stride + c % 1280))
        × (r < 1088
            → c < 2560
            → uv (r * stride + c)
              ≡ bytes_of (sources (r / 544 * 2 + c / 1280)).uv_data
                  (r % 544 * (sources (r / 544 * 2 + c / 1280)).stride + c % 1280))
        × ((2176 ≤ r) ⊎ (2560 ≤ c)
            → y (r * stride + c) ≡ bytes_of destination.y_data (r * stride + c))
        × ((1088 ≤ r) ⊎ (2560 ≤ c)
            → uv (r * stride + c) ≡ bytes_of destination.uv_data (r * stride + c))

  -- The camera of a row and column, of a plane whose images have that height.
  abbrev camera_at : ℕ → ℕ → ℕ → ℕ
  camera_at height r c = r / height * 2 + c / 1280

  y_pixel :
      (d d' : ℕ → ℕ)
      → HasTiles tile_of (λ k. y_buffer (sources k)) stride 1088 0 d d'
      → (r c : ℕ) → c < stride
      → r < 2176
      → c < 2560
      → d' (r * stride + c)
        ≡ bytes_of
            (sources (camera_at 1088 r c)).y_data
            (r % 1088 * (sources (camera_at 1088 r c)).stride + c % 1280)
  y_pixel d d' tiles r c hc hr hw =
      let k = camera_at 1088 r c in
      let inside : covers tile_of (λ k. y_buffer (sources k)) stride 1088 k r c ≡ true =
        ground arith in
      let row : r - k / 2 * 1088 ≡ r % 1088 = omega arith in
      let column : c - k % 2 * 1280 ≡ c % 1280 = omega arith in
      (tiles r c hc).0 k (omega arith) (omega arith) inside
      ∙ ap₂ (λ a b. bytes_of (sources k).y_data (a * (sources k).stride + b)) row column

  uv_pixel :
      (d d' : ℕ → ℕ)
      → HasTiles half_tile_of (λ k. uv_buffer (sources k)) stride 544 0 d d'
      → (r c : ℕ) → c < stride
      → r < 1088
      → c < 2560
      → d' (r * stride + c)
        ≡ bytes_of
            (sources (camera_at 544 r c)).uv_data
            (r % 544 * (sources (camera_at 544 r c)).stride + c % 1280)
  uv_pixel d d' tiles r c hc hr hw =
      let k = camera_at 544 r c in
      let inside : covers half_tile_of (λ k. uv_buffer (sources k)) stride 544 k r c ≡ true =
        ground arith in
      let row : r - k / 2 * 1088 / 2 ≡ r % 544 = omega arith in
      let column : c - k % 2 * 1280 ≡ c % 1280 = omega arith in
      (tiles r c hc).0 k (omega arith) (omega arith) inside
      ∙ ap₂ (λ a b. bytes_of (sources k).uv_data (a * (sources k).stride + b)) row column

  y_outside :
      (r c k : ℕ)
      → k < 4
      → (2176 ≤ r) ⊎ (2560 ≤ c)
      → covers tile_of (λ k. y_buffer (sources k)) stride 1088 k r c ≡ false
  y_outside r c k lt out = ground arith

  uv_outside :
      (r c k : ℕ)
      → k < 4
      → (1088 ≤ r) ⊎ (2560 ≤ c)
      → covers half_tile_of (λ k. uv_buffer (sources k)) stride 544 k r c ≡ false
  uv_outside r c k lt out = ground arith

  abbrev y_before : ℕ → ℕ
  y_before = bytes_of destination.y_data

  abbrev uv_before : ℕ → ℕ
  uv_before = bytes_of destination.uv_data

  -- Refused for the destination, refused for an image, or done.
  abbrev pub Outcomes : Type 0
  Outcomes =
      ((¬ IsImage 2560 2176 destination)
        × (copy_nv12_mosaic_2x2 sources destination
            ≡ some (invalid_destination, y_before, uv_before)))
      ⊎ (IsImage 2560 2176 destination
          × ((k : ℕ) × (k < 4) × (¬ IsImage 1280 1088 (sources k)))
          × (copy_nv12_mosaic_2x2 sources destination ≡ some (invalid_source, y_before, uv_before)))
      ⊎ (IsImage 2560 2176 destination
          × ((k : ℕ) → k < 4 → IsImage 1280 1088 (sources k))
          × ((y : ℕ → ℕ) × (uv : ℕ → ℕ) × (copy_nv12_mosaic_2x2 sources destination
                ≡ some (ok, y, uv))
              × IsMosaic y uv))

  -- Whatever the views say, no access leaves a plane, and one of three things happens: the destination
  -- is not a view of an image of 2560 by 2176, or one of the four sources is not one of 1280 by 1088,
  -- and then no byte is written; or all are, the status is `ok`, and the destination is the mosaic in
  -- both planes: source 0 at the top left, 1 at the top right, 2 and 3 below, each pixel by pixel, and
  -- what lies beyond the 2560 columns or the rows of the plane is as before. The strides and sizes are
  -- in the ranges of their types.
  pub copy_nv12_mosaic_2x2-IsMosaic :
      IsView destination → ((camera : ℕ) → camera < 4 → IsView (sources camera)) → Outcomes
  copy_nv12_mosaic_2x2-IsMosaic sized all_sized =
      let (to, from) = view_is_valid_iff 2560 2176 destination sized (omega arith) in
      let source_iff = λ (k : ℕ) (lt : k < 4).
        view_is_valid_iff 1280 1088 (sources k) (all_sized k lt) (omega arith) in
      elim (copy_nv12_mosaic_2x2-HasMosaic sources destination sized all_sized) [
        | inl (wrong, same) ↦ inl ((λ image. bool_clash (sym (from image) ∙ wrong)), same)
        | inr (inl (good, (k, lt, bad), same)) ↦ inr (
            inl (
              to good,
              (k, lt, (λ image. bool_clash (sym ((source_iff k lt).1 image) ∙ bad))),
              same,
            ))
        | inr (inr (good, all, (y, uv, same, (tiles, tiles')))) ↦ inr (
            inr (
              to good,
              (λ k lt. (source_iff k lt).0 (all k lt)),
              (
                y,
                uv,
                same,
                (λ r c hc. (
                  y_pixel y_before y tiles r c hc,
                  uv_pixel uv_before uv tiles' r c hc,
                  (λ out. (tiles r c hc).1 (λ k le lt. y_outside r c k lt out)),
                  (λ out. (tiles' r c hc).1 (λ k le lt. uv_outside r c k lt out)),
                )),
              ),
            ))
      ]
