-- ===== src/Mp4/AccessUnit.antt =====
-- src/h264_mp4_recorder.cpp: the scan of an H.264 access unit in the Annex B format. A range of the
-- data is given by its begin and its end; the data are there.
pub mod Ranges
pub mod Units
use mrp_robo_baton_4p_no_ros.Base.{
  ℕ, zero, suc, ◌+◌, Bool, true, false, ◌&&◌, ◌||◌, Option, none, some, List, [], ◌∷◌, length, take,
  drop, ltb, leb, ◌==◌, if◌then◌else◌, bytes_eq, bit_and,
}

pub record H264AccessUnitInfo : Type 0 where
  pub has_vcl : Bool
  pub has_idr : Bool
  pub has_sps : Bool
  pub has_pps : Bool
  pub sps_begin : ℕ
  pub sps_end : ℕ
  pub pps_begin : ℕ
  pub pps_end : ℕ

abbrev pub nothing_parsed : H264AccessUnitInfo
nothing_parsed = record {
  has_vcl = false;
  has_idr = false;
  has_sps = false;
  has_pps = false;
  sps_begin = 0;
  sps_end = 0;
  pps_begin = 0;
  pps_end = 0;
}

-- The length of the start code that the data begin with, and whether anything is behind it.
unfoldable pub start_code_at : List ℕ → Option (ℕ × Bool)
start_code_at text =
    if bytes_eq (take 3 text) (0 ∷ 0 ∷ 1 ∷ [])
    then some (3, ltb 3 (length text))
    else if bytes_eq (take 4 text) (0 ∷ 0 ∷ 0 ∷ 1 ∷ [])
    then some (4, ltb 4 (length text))
    else none

-- The loop from `index` on, where `text` are the data from there.
unfoldable pub find_from : ℕ → List ℕ → Option (ℕ × ℕ)
unfolding start_code_at
find_from index [] = none
find_from index (c ∷ cs) =
    let later = find_from (index + 1) cs in
    elim (start_code_at (c ∷ cs)) [
      | none ↦ later
      | some (n, more) ↦ if more then some (index, index + n) else none
    ]

-- `FindAnnexBStartCode`: the start code and the header of the unit behind it.
unfoldable pub find_annex_b_start_code : List ℕ → ℕ → Option (ℕ × ℕ)
unfolding find_from
find_annex_b_start_code bytes from = find_from from (drop from bytes)

abbrev pub first_or_zero : List ℕ → ℕ
first_or_zero [] = 0
first_or_zero (x ∷ xs) = x

-- `data[header] & 0x1f`.
abbrev pub nal_type : List ℕ → ℕ → ℕ
nal_type bytes header = bit_and (first_or_zero (drop header bytes)) 0x1f

-- What a unit of the type, with its range, adds.
unfoldable pub note_nal : ℕ → ℕ → ℕ → H264AccessUnitInfo → H264AccessUnitInfo
note_nal kind begin end parsed =
    let seen : H264AccessUnitInfo = record parsed {
      has_vcl = parsed.has_vcl || (leb 1 kind && leb kind 5);
      has_idr = parsed.has_idr || kind == 5;
    } in
    if kind == 7
    then record seen { has_sps = true; sps_begin = begin; sps_end = end }
    else if kind == 8
    then record seen { has_pps = true; pps_begin = begin; pps_end = end }
    else seen

-- The loop over the units. The header moves on in each round, so that a round for each byte is enough.
unfoldable pub parse_loop : ℕ → List ℕ → ℕ → ℕ → H264AccessUnitInfo → Option H264AccessUnitInfo
unfolding find_annex_b_start_code note_nal
parse_loop zero bytes start header parsed = none
parse_loop (suc fuel) bytes start header parsed =
    let kind = nal_type bytes header in
    if leb (length bytes) header
    then some parsed
    else elim (find_annex_b_start_code bytes (header + 1)) [
      | none ↦ some (note_nal kind start (length bytes) parsed)
      | some (next_start, next_header) ↦ elim (leb next_start header) [
        | true ↦ none
        | false ↦
            parse_loop fuel bytes next_start next_header (note_nal kind start next_start parsed)
      ]
    ]

-- `ParseH264AccessUnit`.
unfoldable pub parse_h264_access_unit : List ℕ → Option H264AccessUnitInfo
unfolding find_annex_b_start_code parse_loop
parse_h264_access_unit bytes = elim (find_annex_b_start_code bytes 0) [
  | none ↦ none
  | some (start, header) ↦ parse_loop (length bytes) bytes start header nothing_parsed
]
