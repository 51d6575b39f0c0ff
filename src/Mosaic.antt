-- ===== src/Mosaic.antt =====
-- src/mosaic_nv12.h and src/mosaic_nv12.cpp: four NV12 images copied into one of twice the size.
-- A plane is the function from an offset to its byte, with the size the view gives; `copy_memory`
-- refuses what `memcpy` must not be asked for, an access past either size.
pub mod Rows
pub mod Tiles
pub mod Canvas
pub mod Pixels
use mrp_robo_baton_4p_no_ros.Base.{
  ℕ, zero, suc, ◌+◌, ◌-◌, ◌*◌, ◌/◌, ◌%◌, ◌^◌, Bool, true, false, ◌&&◌, ◌||◌, not, Option, none,
  some, ltb, leb, ◌==◌, if◌then◌else◌,
}

abbrev pub mosaic_camera_count : ℕ
mosaic_camera_count = 4

abbrev pub mosaic_input_width : ℕ
mosaic_input_width = 1280

abbrev pub mosaic_input_height : ℕ
mosaic_input_height = 1088

abbrev pub mosaic_output_width : ℕ
mosaic_output_width = mosaic_input_width * 2

abbrev pub mosaic_output_height : ℕ
mosaic_output_height = mosaic_input_height * 2

-- A pointer to a plane: null, or the bytes behind it.
pub data PlanePointer : Type 0 where
  null_plane : PlanePointer
  plane : (ℕ → ℕ) → PlanePointer

abbrev pub is_null : PlanePointer → Bool
is_null null_plane = true
is_null (plane bytes) = false

abbrev pub bytes_of : PlanePointer → ℕ → ℕ
bytes_of null_plane i = 0
bytes_of (plane bytes) i = bytes i

-- `Nv12ImageView` and `MutableNv12ImageView`.
pub record Nv12ImageView : Type 0 where
  pub y_data : PlanePointer
  pub uv_data : PlanePointer
  pub width : ℕ
  pub height : ℕ
  pub stride : ℕ
  pub vstride : ℕ
  pub y_size_bytes : ℕ
  pub uv_size_bytes : ℕ

pub data MosaicNv12Status : Type 0 where
  ok invalid_argument invalid_source invalid_destination : MosaicNv12Status

abbrev pub wrap64 : ℕ → ℕ
wrap64 n = n % 2 ^ 64

unfoldable pub plane_size_is_valid : ℕ → ℕ → ℕ → Bool
plane_size_is_valid stride rows size_bytes =
    if rows == 0
    then false
    else if ltb ((2 ^ 64 - 1) / rows) stride
    then false
    else leb (wrap64 (stride * rows)) size_bytes

-- The tests that both kinds of view pass, for the width and height expected.
unfoldable pub view_is_valid : ℕ → ℕ → Nv12ImageView → Bool
view_is_valid expected_width expected_height view =
    if is_null y_data || is_null uv_data
    then false
    else if not (width == expected_width) || not (height == expected_height)
    then false
    else if ltb stride width || ltb vstride height || not (vstride % 2 == 0)
    then false
    else plane_size_is_valid stride vstride y_size_bytes
      && plane_size_is_valid stride (vstride / 2) uv_size_bytes
  where
    open view use {y_data, uv_data, width, height, stride, vstride, y_size_bytes, uv_size_bytes}

abbrev pub source_is_valid : Nv12ImageView → Bool
source_is_valid = view_is_valid mosaic_input_width mosaic_input_height

abbrev pub destination_is_valid : Nv12ImageView → Bool
destination_is_valid = view_is_valid mosaic_output_width mosaic_output_height

-- `memcpy(destination + to, source + from, count)`.
unfoldable pub copy_memory : (ℕ → ℕ) → ℕ → ℕ → (ℕ → ℕ) → ℕ → ℕ → ℕ → Option (ℕ → ℕ)
copy_memory destination destination_size to source source_size from count =
    if leb (to + count) destination_size && leb (from + count) source_size
    then some
        (λ i. if leb to i && ltb i (to + count) then source (from + (i - to)) else destination i)
    else none

-- A plane that is copied from, with its stride and size, and the one that is copied to.
pub record Buffer : Type 0 where
  pub bytes : ℕ → ℕ
  pub stride : ℕ
  pub size : ℕ

infixl 5 ◌>>=◌
abbrev pub ◌>>=◌ {ℓ κ} : {A : Type ℓ} {B : Type κ} → Option A → (A → Option B) → Option B
none >>= f = none
some a >>= f = f a

-- Where `CopyPlaneTile` writes and how much of each row.
pub record Tile : Type 0 where
  pub tile_x : ℕ
  pub tile_y : ℕ
  pub copy_width : ℕ

-- The loop of `CopyPlaneTile`: the rows that are left from `row` on.
unfoldable pub copy_rows : Tile → Buffer → ℕ → ℕ → ℕ → ℕ → (ℕ → ℕ) → Option (ℕ → ℕ)
copy_rows tile source destination_size destination_stride zero row d = some d
copy_rows tile source destination_size destination_stride (suc rest) row d =
    copy_memory d destination_size (wrap64 ((tile_y + row) % 2 ^ 32 * destination_stride) + tile_x)
      source.bytes source.size (wrap64 (row * source.stride)) copy_width
    >>= copy_rows tile source destination_size destination_stride rest (suc row)
  where
    open tile use {tile_x, tile_y, copy_width}

unfoldable pub copy_plane_tile : Tile → Buffer → ℕ → ℕ → ℕ → (ℕ → ℕ) → Option (ℕ → ℕ)
copy_plane_tile tile source destination_size destination_stride copy_height =
    copy_rows tile source destination_size destination_stride copy_height 0

abbrev pub y_buffer : Nv12ImageView → Buffer
y_buffer view = record { bytes = bytes_of y_data; stride = stride; size = y_size_bytes }
  where
    open view use {y_data, stride, y_size_bytes}

abbrev pub uv_buffer : Nv12ImageView → Buffer
uv_buffer view = record { bytes = bytes_of uv_data; stride = stride; size = uv_size_bytes }
  where
    open view use {uv_data, stride, uv_size_bytes}

abbrev pub tile_of : ℕ → Tile
tile_of camera = record {
  tile_x = camera % 2 * mosaic_input_width;
  tile_y = camera / 2 * mosaic_input_height;
  copy_width = mosaic_input_width;
}

-- The UV plane has half the rows.
abbrev pub half_tile_of : ℕ → Tile
half_tile_of camera = record {
  tile_x = camera % 2 * mosaic_input_width;
  tile_y = camera / 2 * mosaic_input_height / 2;
  copy_width = mosaic_input_width;
}

-- The loop over the cameras that are left, on the two planes of the destination.
unfoldable pub copy_tiles :
    (ℕ → Nv12ImageView) → Nv12ImageView → ℕ → ℕ → (ℕ → ℕ) → (ℕ → ℕ) → Option ((ℕ → ℕ) × (ℕ → ℕ))
copy_tiles sources destination zero camera y uv = some (y, uv)
copy_tiles sources destination (suc rest) camera y uv =
    copy_plane_tile (tile_of camera) (y_buffer (sources camera)) y_size_bytes stride
      mosaic_input_height y
    >>= λ y'.
        copy_plane_tile (half_tile_of camera) (uv_buffer (sources camera)) uv_size_bytes stride
          (mosaic_input_height / 2) uv
        >>= λ uv'. copy_tiles sources destination rest (suc camera) y' uv'
  where
    open destination use {stride, y_size_bytes, uv_size_bytes}

-- `for (source : sources) if (!SourceIsValid(source)) ...`.
unfoldable pub sources_are_valid : (ℕ → Nv12ImageView) → ℕ → ℕ → Bool
sources_are_valid sources zero camera = true
sources_are_valid sources (suc rest) camera =
    source_is_valid (sources camera) && sources_are_valid sources rest (suc camera)

-- The status and the planes of the destination afterwards; `none` for an access out of bounds.
unfoldable pub copy_nv12_mosaic_2x2 :
    (ℕ → Nv12ImageView) → Nv12ImageView → Option (MosaicNv12Status × (ℕ → ℕ) × (ℕ → ℕ))
copy_nv12_mosaic_2x2 sources destination =
    if not (destination_is_valid destination)
    then some (invalid_destination, bytes_of y_data, bytes_of uv_data)
    else if not (sources_are_valid sources mosaic_camera_count 0)
    then some (invalid_source, bytes_of y_data, bytes_of uv_data)
    else copy_tiles sources destination mosaic_camera_count 0 (bytes_of y_data) (bytes_of uv_data)
      >>= λ planes. some (ok, planes.0, planes.1)
  where
    open destination use {y_data, uv_data}
