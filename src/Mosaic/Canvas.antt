-- ===== src/Mosaic/Canvas.antt =====
-- What `copy_nv12_mosaic_2x2` answers, and the canvas that it leaves.
use mrp_robo_baton_4p_no_ros.Base.{
  ℕ, zero, suc, ◌+◌, ◌*◌, ◌/◌, ◌≤◌, ◌<◌, ◌≡◌, refl, ap, ap₂, subst, ◌∙◌, Bool, true, false, ◌&&◌,
  Option, some, if◌then◌else◌, arith, ◌⊎◌, inl, inr, Bool-cases, not,
}
use mrp_robo_baton_4p_no_ros.Mosaic.{
  Nv12ImageView, Buffer, Tile, copy_plane_tile, source_is_valid, destination_is_valid, y_buffer,
  uv_buffer, tile_of, half_tile_of, copy_tiles, sources_are_valid, copy_nv12_mosaic_2x2, bytes_of,
  MosaicNv12Status, ok, invalid_source, invalid_destination, ◌>>=◌,
}
use mrp_robo_baton_4p_no_ros.Mosaic.Rows.{Fits, copy_rows_lem}
use mrp_robo_baton_4p_no_ros.Mosaic.Tiles.{
  HasTiles, HasTiles-step, tile_of-AreDisjoint, half_tile_of-AreDisjoint, IsView, Holds,
  view_is_valid-Holds, mul_le, le_cases,
}

module _ (sources : ℕ → Nv12ImageView) (destination : Nv12ImageView) where
  open destination use {stride, y_size_bytes, uv_size_bytes}

  abbrev y_of : ℕ → Buffer
  y_of camera = y_buffer (sources camera)

  abbrev uv_of : ℕ → Buffer
  uv_of camera = uv_buffer (sources camera)

  -- Both planes have the tiles of the cameras from `first` on, and are as before elsewhere.
  abbrev pub HasMosaic : ℕ → (ℕ → ℕ) → (ℕ → ℕ) → (ℕ → ℕ) → (ℕ → ℕ) → Type 0
  HasMosaic first y uv y' uv' =
      HasTiles tile_of y_of stride 1088 first y y'
      × HasTiles half_tile_of uv_of stride 544 first uv uv'

  abbrev AllHold : Type 0
  AllHold =
      Holds 2560 2176 destination
      × IsView destination
      × ((camera : ℕ) → camera < 4 → Holds 1280 1088 (sources camera) × IsView (sources camera))

  tile-Fits :
      AllHold
      → (camera : ℕ) → camera < 4
      → Fits (tile_of camera) (y_of camera) y_size_bytes stride 1088
  tile-Fits (holds, sized, all) camera lt =
      let (source, source_sized) = all camera lt in
      let (wide, enough, _) = holds in
      let (w, y, uv) = source in
      let more = mul_le (camera / 2 * 1088 + 1088) 2176 stride (omega arith) in
      (omega arith, w, omega arith, y, omega arith, sized.y_size_range, source_sized.y_size_range)

  half_tile-Fits :
      AllHold
      → (camera : ℕ) → camera < 4
      → Fits (half_tile_of camera) (uv_of camera) uv_size_bytes stride 544
  half_tile-Fits (holds, sized, all) camera lt =
      let (source, source_sized) = all camera lt in
      let (wide, _, enough) = holds in
      let (w, y, uv) = source in
      let more = mul_le (camera / 2 * 1088 / 2 + 544) 1088 stride (omega arith) in
      (
        omega arith,
        w,
        omega arith,
        uv,
        omega arith,
        sized.uv_size_range,
        source_sized.uv_size_range,
      )

  untouched :
      (tile : ℕ → Tile) (source : ℕ → Buffer) (height camera : ℕ) (d : ℕ → ℕ)
      → camera + 0 ≡ 4
      → HasTiles tile source stride height camera d d
  untouched tile source height camera d e r c hc = ((λ k le hk. ground arith), (λ _. refl))

  copy_tiles_lem :
      AllHold
      → (rest camera : ℕ) (y uv : ℕ → ℕ) → camera + rest ≡ 4
      → (y' : ℕ → ℕ) × (uv' : ℕ → ℕ) × (copy_tiles sources destination rest camera y uv
          ≡ some (y', uv'))
        × HasMosaic camera y uv y' uv'
  unfolding copy_tiles copy_plane_tile
  copy_tiles_lem hold zero camera y uv e = (
    y,
    uv,
    refl,
    (untouched tile_of y_of 1088 camera y e, untouched half_tile_of uv_of 544 camera uv e),
  )
  copy_tiles_lem hold (suc rest) camera y uv e =
      let lt = at_most camera rest e in
      let (y₁, ran, rows) =
        copy_rows_lem (tile_of camera) (y_of camera) y_size_bytes stride 1088 0 1088 y refl
          (tile-Fits hold camera lt) in
      let (uv₁, ran', rows') =
        copy_rows_lem (half_tile_of camera) (uv_of camera) uv_size_bytes stride 544 0 544 uv refl
          (half_tile-Fits hold camera lt) in
      let (y', uv', runs, (tiles, tiles')) =
        copy_tiles_lem hold rest (suc camera) y₁ uv₁ (omega arith) in
      (
        y',
        uv',
        ap (λ m. m >>= second) ran ∙ ap (λ m. m >>= third y₁) ran' ∙ runs,
        (
          HasTiles-step tile_of y_of stride 1088 camera y y₁ y' lt (tile_of-AreDisjoint stride y_of)
              rows tiles,
          HasTiles-step half_tile_of uv_of stride 544 camera uv uv₁ uv' lt
              (half_tile_of-AreDisjoint stride uv_of) rows' tiles',
        ),
      )
    where
      at_most : (a b : ℕ) → a + suc b ≡ 4 → a < 4
      at_most a b e = omega arith

      third : (ℕ → ℕ) → (ℕ → ℕ) → Option ((ℕ → ℕ) × (ℕ → ℕ))
      third y' uv' = copy_tiles sources destination rest (suc camera) y' uv'

      second : (ℕ → ℕ) → Option ((ℕ → ℕ) × (ℕ → ℕ))
      second y' =
          copy_plane_tile (half_tile_of camera) (uv_of camera) uv_size_bytes stride 544 uv
          >>= third y'

  sources_cases :
      (rest camera : ℕ)
      → ((sources_are_valid sources rest camera ≡ true)
          × ((k : ℕ) → camera ≤ k → k < camera + rest → source_is_valid (sources k) ≡ true))
        ⊎ ((sources_are_valid sources rest camera ≡ false)
            × ((k : ℕ) × (k < camera + rest) × (source_is_valid (sources k) ≡ false)))
  unfolding sources_are_valid
  sources_cases zero camera = inl (refl, (λ k le lt. ground arith))
  sources_cases (suc rest) camera = elim (Bool-cases (source_is_valid (sources camera))) [
    | inr wrong ↦ inr (
      ap (λ b. b && sources_are_valid sources rest (suc camera)) wrong,
      (camera, omega arith, wrong),
    )
    | inl good ↦ elim (sources_cases rest (suc camera)) [
      | inr (some_bad, (k, lt, bad)) ↦
          inr (ap₂ (λ a b. a && b) good some_bad, (k, omega arith, bad))
      | inl (all, each) ↦ inl (
        ap₂ (λ a b. a && b) good all,
        (λ k le lt. elim (le_cases camera k le) [
          | inl e ↦ subst (λ n. source_is_valid (sources n) ≡ true) e good
          | inr later ↦ each k later (omega arith)
        ]),
      )
    ]
  ]

  abbrev y_before : ℕ → ℕ
  y_before = bytes_of destination.y_data

  abbrev uv_before : ℕ → ℕ
  uv_before = bytes_of destination.uv_data

  -- The destination is refused, or one of the four images is, and then no byte is written; or all
  -- pass, the status is `ok` and the planes are the mosaic.
  abbrev pub Answers : Type 0
  Answers =
      ((destination_is_valid destination ≡ false)
        × (copy_nv12_mosaic_2x2 sources destination
            ≡ some (invalid_destination, y_before, uv_before)))
      ⊎ ((destination_is_valid destination ≡ true)
          × ((k : ℕ) × (k < 4) × (source_is_valid (sources k) ≡ false))
          × (copy_nv12_mosaic_2x2 sources destination ≡ some (invalid_source, y_before, uv_before)))
      ⊎ ((destination_is_valid destination ≡ true)
          × ((k : ℕ) → k < 4 → source_is_valid (sources k) ≡ true)
          × ((y : ℕ → ℕ) × (uv : ℕ → ℕ) × (copy_nv12_mosaic_2x2 sources destination
                ≡ some (ok, y, uv))
              × HasMosaic 0 y_before uv_before y uv))

  -- Whatever the views say, no access leaves a plane, and one of three things happens: the
  -- destination is refused, or one of the four images is, and then no byte is written; or all
  -- pass, the status is `ok` and the destination is the mosaic: the pixel at row r and column c of
  -- the tile of a camera is that camera's, in both planes, and what no tile covers is as before. The
  -- strides and sizes are in the ranges of their types.
  pub copy_nv12_mosaic_2x2-HasMosaic :
      IsView destination → ((camera : ℕ) → camera < 4 → IsView (sources camera)) → Answers
  unfolding copy_nv12_mosaic_2x2
  copy_nv12_mosaic_2x2-HasMosaic sized all_sized =
      elim (Bool-cases (destination_is_valid destination)) [
        | inr wrong ↦ inl (wrong, ap (λ b. answer b (sources_are_valid sources 4 0)) wrong)
        | inl good ↦ elim (sources_cases 4 0) [
          | inr (some_bad, bad) ↦ inr (inl (good, bad, ap₂ answer good some_bad))
          | inl (all, each) ↦
              let (y, uv, ran, mosaic) =
                copy_tiles_lem
                  (
                    view_is_valid-Holds 2560 2176 destination good,
                    sized,
                    (λ k lt. (
                      view_is_valid-Holds 1280 1088 (sources k) (each k (omega arith) lt),
                      all_sized k lt,
                    )),
                  )
                  4 0 y_before uv_before refl in
              inr (
                inr (
                  good,
                  (λ k lt. each k (omega arith) lt),
                  (
                    y,
                    uv,
                    ap₂ answer good all ∙ ap (λ m. m >>= λ p. some (ok, p.0, p.1)) ran,
                    mosaic,
                  ),
                ))
        ]
      ]
    where
      answer : Bool → Bool → Option (MosaicNv12Status × (ℕ → ℕ) × (ℕ → ℕ))
      answer destination_valid sources_valid =
          if not destination_valid
          then some (invalid_destination, y_before, uv_before)
          else if not sources_valid
          then some (invalid_source, y_before, uv_before)
          else copy_tiles sources destination 4 0 y_before uv_before >>= λ planes.
              some (ok, planes.0, planes.1)
