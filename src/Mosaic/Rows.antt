-- ===== src/Mosaic/Rows.antt =====
-- What copying the rows of one tile leaves in the destination.
use mrp_robo_baton_4p_no_ros.Base.{
  ℕ, zero, suc, ◌+◌, ◌-◌, ◌*◌, ◌%◌, ◌^◌, ◌≤◌, ◌<◌, ◌≡◌, refl, ap₂, subst, Bool, true, ◌&&◌, none,
  some, ltb, leb, ◌==◌, if◌then◌else◌, arith, ap, ◌∙◌,
}
use mrp_robo_baton_4p_no_ros.Mosaic.{copy_memory, Buffer, Tile, copy_rows, wrap64, ◌>>=◌}

-- Offsets of an earlier row lie before those of a later one.
row_gap : (s r r' : ℕ) → r < r' → r * s + s ≤ r' * s
row_gap s r r' hr = subst (λ n. r * s + s ≤ n * s) (sum r r' hr) (apart r (r' - suc r))
  where
    apart : (r k : ℕ) → r * s + s ≤ (suc r + k) * s
    apart r k = omega arith

    sum : (r r' : ℕ) → r < r' → suc r + (r' - suc r) ≡ r'
    sum r r' h = omega arith

abbrev copied : (ℕ → ℕ) → ℕ → (ℕ → ℕ) → ℕ → ℕ → ℕ → ℕ
copied d to source from count i =
    if leb to i && ltb i (to + count) then source (from + (i - to)) else d i

copy_memory-total :
    (d : ℕ → ℕ) (size to : ℕ) (source : ℕ → ℕ) (source_size from count : ℕ)
    → to + count ≤ size
    → from + count ≤ source_size
    → copy_memory d size to source source_size from count ≡ some (copied d to source from count)
unfolding copy_memory
copy_memory-total d size to source source_size from count h h' =
    ap (λ b. if b then some (copied d to source from count) else none)
      (guard (to + count) size (from + count) source_size h h')
  where
    guard : (a b c e : ℕ) → a ≤ b → c ≤ e → (leb a b && leb c e) ≡ true
    guard a b c e h h' = ground arith

-- A row's copy changes that row alone, between its first and its last column.
copied_row :
    (d : ℕ → ℕ) (s row x w : ℕ) (source : ℕ → ℕ) (from r c : ℕ)
    → x + w ≤ s
    → c < s
    → copied d (row * s + x) source from w (r * s + c)
      ≡ (if r == row && leb x c && ltb c (x + w) then source (from + (c - x)) else d (r * s + c))
copied_row d s row x w source from r c hx hc = ground (arith, row_gap s r row, row_gap s row r)

-- Both planes hold the rows of the tile.
abbrev pub Fits : Tile → Buffer → ℕ → ℕ → ℕ → Type 0
Fits tile source size stride rows =
    (tile.tile_x + tile.copy_width ≤ stride)
    × (tile.copy_width ≤ source.stride)
    × ((tile.tile_y + rows) * stride ≤ size)
    × (rows * source.stride ≤ source.size)
    × (tile.tile_y + rows < 2 ^ 32)
    × (size < 2 ^ 64)
    × (source.size < 2 ^ 64)

abbrev pub in_rows : Tile → ℕ → ℕ → ℕ → ℕ → Bool
in_rows tile first past r c =
    leb (tile.tile_y + first) r
    && ltb r (tile.tile_y + past)
    && leb tile.tile_x c
    && ltb c (tile.tile_x + tile.copy_width)

-- `d'` has the tile's rows from `first` to before `past`, and the rest as in `d`.
abbrev pub HasRows : Tile → Buffer → ℕ → ℕ → ℕ → (ℕ → ℕ) → (ℕ → ℕ) → Type 0
HasRows tile source stride first past d d' =
    (r c : ℕ)
    → c < stride
    → d' (r * stride + c) ≡ (
        if in_rows tile first past r c
        then source.bytes ((r - tile.tile_y) * source.stride + (c - tile.tile_x))
        else d (r * stride + c))

module _ (tile : Tile) (source : Buffer) (size stride : ℕ) where
  open tile use {tile_x, tile_y, copy_width}

  abbrev one_row : (ℕ → ℕ) → ℕ → ℕ → ℕ
  one_row d row =
      copied d ((tile_y + row) * stride + tile_x) source.bytes (row * source.stride) copy_width

  offset_in_range :
      (row past : ℕ)
      → row < past
      → Fits tile source size stride past
      → (wrap64 ((tile_y + row) % 2 ^ 32 * stride) ≡ (tile_y + row) * stride)
        × (wrap64 (row * source.stride) ≡ row * source.stride)
        × ((tile_y + row) * stride + tile_x + copy_width ≤ size)
        × (row * source.stride + copy_width ≤ source.size)
  offset_in_range row past lt (hx, hw, hd, hs, h32, h64, h64') =
      let gap = row_gap stride (tile_y + row) (tile_y + past) (omega arith) in
      let gap' = row_gap source.stride row past lt in
      (
        ap (λ n. wrap64 (n * stride)) (wrap32-small (tile_y + row) (omega arith))
            ∙ wrap64-small ((tile_y + row) * stride) (omega arith),
        wrap64-small (row * source.stride) (omega arith),
        omega arith,
        omega arith,
      )
    where
      wrap32-small : (n : ℕ) → n < 2 ^ 32 → n % 2 ^ 32 ≡ n
      wrap32-small n h = omega arith

      wrap64-small : (n : ℕ) → n < 2 ^ 64 → wrap64 n ≡ n
      wrap64-small n h = omega arith

  copy_rows-suc :
      (rest row past : ℕ) (d : ℕ → ℕ)
      → row < past
      → Fits tile source size stride past
      → copy_rows tile source size stride (suc rest) row d
        ≡ copy_rows tile source size stride rest (suc row) (one_row d row)
  unfolding copy_rows
  copy_rows-suc rest row past d lt fits =
      let (a, b, h, h') = offset_in_range row past lt fits in
      ap (λ m. m >>= copy_rows tile source size stride rest (suc row))
        (ap₂ (λ to from. copy_memory d size (to + tile_x) source.bytes source.size from copy_width)
            a b
          ∙ copy_memory-total d size ((tile_y + row) * stride + tile_x) source.bytes source.size
              (row * source.stride) copy_width h h')

  HasRows-suc :
      (row past : ℕ) (d d' : ℕ → ℕ)
      → row < past
      → tile_x + copy_width ≤ stride
      → HasRows tile source stride (suc row) past (one_row d row) d'
      → HasRows tile source stride row past d d'
  HasRows-suc row past d d' lt hx rows r c hc = ground (
    arith,
    rows r c hc,
    copied_row d stride (tile_y + row) tile_x copy_width source.bytes (row * source.stride) r c hx
        hc,
  )

  pub copy_rows_lem :
      (rest row past : ℕ) (d : ℕ → ℕ)
      → row + rest ≡ past
      → Fits tile source size stride past
      → (d' : ℕ → ℕ) × (copy_rows tile source size stride rest row d ≡ some d')
        × HasRows tile source stride row past d d'
  unfolding copy_rows
  copy_rows_lem zero row past d e fits = (d, refl, (λ r c hc. ground arith))
  copy_rows_lem (suc rest) row past d e fits =
      let (d', run, rows) = copy_rows_lem rest (suc row) past (one_row d row) (omega arith) fits in
      (
        d',
        copy_rows-suc rest row past d (omega arith) fits ∙ run,
        HasRows-suc row past d d' (omega arith) fits.0 rows,
      )
