-- ===== src/Mosaic/Tiles.antt =====
-- The mosaic: which pixel each offset of the destination holds after the four copies.
use mrp_robo_baton_4p_no_ros.Base.{
  ℕ, zero, suc, ◌+◌, ◌-◌, ◌*◌, ◌/◌, ◌^◌, ◌≤◌, ◌<◌, ◌≡◌, ap, subst, ◌∙◌, Bool, true, false,
  if◌then◌else◌, arith, ◌⊎◌, inl, inr,
}
use mrp_robo_baton_4p_no_ros.Mosaic.{
  Nv12ImageView, Buffer, Tile, plane_size_is_valid, view_is_valid, tile_of, half_tile_of,
}
use mrp_robo_baton_4p_no_ros.Mosaic.Rows.{in_rows, HasRows}

div_bound : (n m s : ℕ) → s ≤ n / suc m → s * suc m ≤ n
div_bound n m s h = grind arith

-- An accepted plane holds all its rows; the product is taken without wrap-around.
plane_size_is_valid_sound :
    (stride rows size : ℕ) → plane_size_is_valid stride rows size ≡ true → stride * rows ≤ size
unfolding plane_size_is_valid
plane_size_is_valid_sound stride zero size h = ground arith
plane_size_is_valid_sound stride (suc m) size h = ground (arith, div_bound (2 ^ 64 - 1) m stride)

pub le_cases : (a b : ℕ) → a ≤ b → (a ≡ b) ⊎ (a < b)
le_cases a b h = ground arith

module _ (tile : ℕ → Tile) (source : ℕ → Buffer) (stride height : ℕ) where
  abbrev pub covers : ℕ → ℕ → ℕ → Bool
  covers camera r c = in_rows (tile camera) 0 height r c

  -- The tiles of the cameras from `first` on are copied, and nothing else is.
  abbrev pub HasTiles : ℕ → (ℕ → ℕ) → (ℕ → ℕ) → Type 0
  HasTiles first d d' =
      (r c : ℕ)
      → c < stride
      → ((camera : ℕ)
          → first ≤ camera
          → camera < 4
          → covers camera r c ≡ true
          → d' (r * stride + c)
            ≡ (source camera).bytes
                ((r - (tile camera).tile_y) * (source camera).stride + (c - (tile camera).tile_x)))
        × (((camera : ℕ) → first ≤ camera → camera < 4 → covers camera r c ≡ false)
            → d' (r * stride + c) ≡ d (r * stride + c))

  abbrev pub AreDisjoint : Type 0
  AreDisjoint = (a b r c : ℕ) → a < b → b < 4 → covers a r c ≡ true → covers b r c ≡ false

  abbrev Shows : (ℕ → ℕ) → ℕ → ℕ → ℕ → Type 0
  Shows d' r c camera =
      covers camera r c ≡ true
      → d' (r * stride + c)
        ≡ (source camera).bytes
            ((r - (tile camera).tile_y) * (source camera).stride + (c - (tile camera).tile_x))

  pub HasTiles-step :
      (camera : ℕ) (d d₁ d' : ℕ → ℕ)
      → camera < 4
      → AreDisjoint
      → HasRows (tile camera) (source camera) stride 0 height d d₁
      → HasTiles (suc camera) d₁ d'
      → HasTiles camera d d'
  HasTiles-step camera d d₁ d' lt disjoint rows tiles r c hc = (pixel, rest)
    where
      row : ℕ → Bool → ℕ
      row k b =
          if b
          then (source k).bytes ((r - (tile k).tile_y) * (source k).stride + (c - (tile k).tile_x))
          else d (r * stride + c)

      here : Shows d' r c camera
      here inside =
          (tiles r c hc).1 (λ b le hb. disjoint camera b r c le hb inside)
          ∙ rows r c hc
          ∙ ap (row camera) inside

      pixel : (k : ℕ) → camera ≤ k → k < 4 → Shows d' r c k
      pixel k le hk = elim (le_cases camera k le) [
        | inl e ↦ subst (Shows d' r c) e here
        | inr later ↦ (tiles r c hc).0 k later hk
      ]

      rest :
          ((k : ℕ) → camera ≤ k → k < 4 → covers k r c ≡ false)
          → d' (r * stride + c) ≡ d (r * stride + c)
      rest outside =
          (tiles r c hc).1 (λ k le. outside k (omega arith))
          ∙ rows r c hc
          ∙ ap (row camera) (outside camera (omega arith) lt)

pub tile_of-AreDisjoint : (s : ℕ) (source : ℕ → Buffer) → AreDisjoint tile_of source s 1088
tile_of-AreDisjoint s source a b r c lt hb inside = ground arith

pub half_tile_of-AreDisjoint : (s : ℕ) (source : ℕ → Buffer) → AreDisjoint half_tile_of source s 544
half_tile_of-AreDisjoint s source a b r c lt hb inside = ground arith

-- The ranges of the fields of a view.
pub record IsView (view : Nv12ImageView) : Type 0 where
  pub stride_range : view.stride < 2 ^ 32
  pub y_size_range : view.y_size_bytes < 2 ^ 64
  pub uv_size_range : view.uv_size_bytes < 2 ^ 64

abbrev pub Holds : ℕ → ℕ → Nv12ImageView → Type 0
Holds width height view =
    (width ≤ view.stride)
    × (height * view.stride ≤ view.y_size_bytes)
    × (height / 2 * view.stride ≤ view.uv_size_bytes)

pub mul_le : (a b s : ℕ) → a ≤ b → a * s ≤ b * s
mul_le a b s h = grind arith

pub view_is_valid-Holds :
    (width height : ℕ) (view : Nv12ImageView)
    → view_is_valid width height view ≡ true
    → Holds width height view
unfolding view_is_valid
view_is_valid-Holds width height view h = ground (
  arith,
  plane_size_is_valid_sound view.stride view.vstride view.y_size_bytes,
  plane_size_is_valid_sound view.stride (view.vstride / 2) view.uv_size_bytes,
  mul_le height view.vstride view.stride,
  mul_le (height / 2) (view.vstride / 2) view.stride,
)
