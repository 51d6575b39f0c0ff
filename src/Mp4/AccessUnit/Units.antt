-- ===== src/Mp4/AccessUnit/Units.antt =====
-- src/h264_mp4_recorder.cpp: the scan against an account of the units of the data.
use mrp_robo_baton_4p_no_ros.Base.{
  ℕ, zero, suc, ◌+◌, ◌≤◌, ◌<◌, ◌≡◌, ◌≢◌, ◌⊎◌, refl, sym, ap, ◌∙◌, Bool, true, false, ◌&&◌, ◌||◌,
  Option, none, some, List, [], ◌∷◌, ◌++◌, length, take, drop, leb, ◌==◌, if◌then◌else◌, arith, inl,
  inr, Option-cases, Bool-cases, bytes_eq, bytes_eq_sound, take-append-drop, length-drop, bit_and,
  subst,
}
use mrp_robo_baton_4p_no_ros.Mp4.AccessUnit.{
  H264AccessUnitInfo, nothing_parsed, start_code_at, find_from, find_annex_b_start_code, nal_type,
  note_nal, first_or_zero, parse_loop, parse_h264_access_unit,
}
use mrp_robo_baton_4p_no_ros.Mp4.AccessUnit.Ranges.{drop-suc, find_annex_b_start_code-IsUnit}

-- A start code of three or four bytes, with the byte of a unit's header behind it.
pub data StartsUnit : ℕ → ℕ → List ℕ → Type 0 where
  short_code : (c : ℕ) (rest : List ℕ) → StartsUnit 3 c (0 ∷ 0 ∷ 1 ∷ c ∷ rest)
  long_code : (c : ℕ) (rest : List ℕ) → StartsUnit 4 c (0 ∷ 0 ∷ 0 ∷ 1 ∷ c ∷ rest)

some_left : (xs : List ℕ) → 0 < length xs → (c : ℕ) × (rest : List ℕ) × (xs ≡ c ∷ rest)
some_left [] h = absurd (omega arith)
some_left (c ∷ rest) h = (c, rest, refl)

code_of :
    (n : ℕ) (text code : List ℕ)
    → take n text ≡ code
    → n < length text
    → (c : ℕ) × (rest : List ℕ) × (text ≡ code ++ c ∷ rest)
code_of n text code e long =
    let (c, rest, same) = some_left (drop n text) (omega (arith, length-drop n text)) in
    (
      c,
      rest,
      sym (take-append-drop n text) ∙ ap (λ t. t ++ drop n text) e ∙ ap (λ t. code ++ t) same,
    )

short_is :
    (n c : ℕ) (rest text : List ℕ) → n ≡ 3 → text ≡ 0 ∷ 0 ∷ 1 ∷ c ∷ rest → StartsUnit n c text
short_is n c rest text size same = rw (size, same) (short_code c rest)

long_is :
    (n c : ℕ) (rest text : List ℕ) → n ≡ 4 → text ≡ 0 ∷ 0 ∷ 0 ∷ 1 ∷ c ∷ rest → StartsUnit n c text
long_is n c rest text size same = rw (size, same) (long_code c rest)

start_code_at_sound :
    (n : ℕ) (text : List ℕ) → start_code_at text ≡ some (n, true) → (c : ℕ) × StartsUnit n c text
unfolding start_code_at
start_code_at_sound n text e = elim (Bool-cases (bytes_eq (take 3 text) (0 ∷ 0 ∷ 1 ∷ []))) [
  | inl short ↦
      let size : n ≡ 3 = ground arith in
      let long : 3 < length text = ground arith in
      let (c, rest, same) =
        code_of 3 text (0 ∷ 0 ∷ 1 ∷ []) (bytes_eq_sound (take 3 text) (0 ∷ 0 ∷ 1 ∷ []) short)
          long in
      (c, short_is n c rest text size same)
  | inr other ↦
      let size : n ≡ 4 = ground arith in
      let four : bytes_eq (take 4 text) (0 ∷ 0 ∷ 0 ∷ 1 ∷ []) ≡ true = ground arith in
      let long : 4 < length text = ground arith in
      let (c, rest, same) =
        code_of 4 text (0 ∷ 0 ∷ 0 ∷ 1 ∷ []) (bytes_eq_sound (take 4 text) (0 ∷ 0 ∷ 0 ∷ 1 ∷ []) four)
          long in
      (c, long_is n c rest text size same)
]

start_code_at_complete :
    (n c : ℕ) (text : List ℕ) → StartsUnit n c text → start_code_at text ≡ some (n, true)
unfolding start_code_at
start_code_at_complete n c text (short_code d rest) = ground arith
start_code_at_complete n c text (long_code d rest) = ground arith

header_byte :
    (n c : ℕ) (text : List ℕ) → StartsUnit n c text → (rest : List ℕ) × (drop n text ≡ c ∷ rest)
header_byte n c text (short_code d rest) = (rest, refl)
header_byte n c text (long_code d rest) = (rest, refl)

le_cases : (a b : ℕ) → a ≤ b → (a ≡ b) ⊎ (a < b)
le_cases a b h = ground arith

-- A place where a unit starts.
abbrev pub IsStart : List ℕ → ℕ → Type 0
IsStart bytes k = (n : ℕ) × (c : ℕ) × StartsUnit n c (drop k bytes)

HasCode : List ℕ → ℕ → Type 0
HasCode bytes k = (n : ℕ) × (start_code_at (drop k bytes) ≡ some (n, true))

codeless : (bytes : List ℕ) (k : ℕ) → ¬ HasCode bytes k → ¬ IsStart bytes k
unfolding HasCode
codeless bytes k absent (n, c, starts) =
    absent (n, start_code_at_complete n c (drop k bytes) starts)

uncoded : (bytes : List ℕ) (k : ℕ) → start_code_at (drop k bytes) ≡ none → ¬ HasCode bytes k
unfolding HasCode
uncoded bytes k e (n, code) = cc

too_short : (text : List ℕ) (n : ℕ) → length text ≤ 3 → start_code_at text ≡ some (n, true) → ⊥
unfolding start_code_at
too_short text n h e = ground arith

at_the_end : (text : List ℕ) (n : ℕ) → start_code_at text ≡ some (n, false) → length text ≤ 4
unfolding start_code_at
at_the_end text n e = ground arith

-- A start code with nothing behind it is the last place to look at.
nothing_after :
    (bytes : List ℕ) (index k n : ℕ)
    → start_code_at (drop index bytes) ≡ some (n, false)
    → index ≤ k
    → ¬ HasCode bytes k
unfolding HasCode
nothing_after bytes index k n e le (m, code) =
    let size = length-drop index bytes in
    let size' = length-drop k bytes in
    let short = at_the_end (drop index bytes) n e in
    elim (le_cases index k le) [
      | inl same ↦
          let code' : start_code_at (drop index bytes) ≡ some (m, true) = rw same code in cc
      | inr later ↦ too_short (drop k bytes) m (omega arith) code
    ]

-- No unit starts before the one that is found, and none at all where none is found.
abbrev FoundFirst : List ℕ → ℕ → Option (ℕ × ℕ) → Type 0
FoundFirst bytes index none = (k : ℕ) → index ≤ k → ¬ HasCode bytes k
FoundFirst bytes index (some (start, header)) = (k : ℕ) → index ≤ k → k < start → ¬ HasCode bytes k

step_first :
    (bytes : List ℕ) (index : ℕ) (found : Option (ℕ × ℕ))
    → ¬ HasCode bytes index
    → FoundFirst bytes (index + 1) found
    → FoundFirst bytes index found
step_first bytes index none absent later = λ k le. elim (le_cases index k le) [
  | inl same ↦ subst (λ n. ¬ HasCode bytes n) same absent
  | inr more ↦ later k (omega arith)
]
step_first bytes index (some (start, header)) absent later = λ k le lt. elim (le_cases index k le) [
  | inl same ↦ subst (λ n. ¬ HasCode bytes n) same absent
  | inr more ↦ later k (omega arith) lt
]

end_first :
    (bytes : List ℕ) (index n : ℕ) (more : Bool)
    → start_code_at (drop index bytes) ≡ some (n, more)
    → FoundFirst bytes index (if more then some (index, index + n) else none)
end_first bytes index n true e = λ k le lt. absurd (omega arith)
end_first bytes index n false e = λ k le. nothing_after bytes index k n e le

past_the_end :
    (bytes : List ℕ) (index k : ℕ) → drop index bytes ≡ [] → index ≤ k → ¬ HasCode bytes k
unfolding HasCode
past_the_end bytes index k e le (n, code) =
    too_short (drop k bytes) n
      (omega (arith, ap length e, length-drop index bytes, length-drop k bytes)) code

find_from-FoundFirst :
    (bytes : List ℕ) (index : ℕ) (text : List ℕ)
    → drop index bytes ≡ text
    → FoundFirst bytes index (find_from index text)
unfolding find_from
find_from-FoundFirst bytes index [] at = λ k le. past_the_end bytes index k at le
find_from-FoundFirst bytes index (c ∷ cs) at = elim (Option-cases (start_code_at (c ∷ cs))) [
  | inl absent ↦
      let next : index + 1 ≡ suc index = omega arith in
      rw (absent, find_from)
        (step_first bytes index (find_from (index + 1) cs)
          (uncoded bytes index (ap start_code_at at ∙ absent))
          (find_from-FoundFirst bytes (index + 1) cs
            (ap (λ (k : ℕ). drop k bytes) next ∙ drop-suc index bytes c cs at)))
  | inr ((n, more), here) ↦
      rw (here, find_from) (end_first bytes index n more (ap start_code_at at ∙ here))
]

-- A unit of the data: its start code, its header with the type in it, and where it ends.
pub record NalUnit : Type 0 where
  pub begin : ℕ
  pub header : ℕ
  pub kind : ℕ
  pub end : ℕ

abbrev pub first_begin : List ℕ → List NalUnit → ℕ
first_begin bytes [] = length bytes
first_begin bytes (u ∷ us) = u.begin

-- The units of the data from an offset on, and no other: each begins where no unit starts before it,
-- has the type in the low five bits of the byte behind its start code, and ends where the next one
-- begins, the last one at the end of the data.
abbrev pub AreUnits : List ℕ → ℕ → List NalUnit → Type 0
AreUnits bytes from [] = (k : ℕ) → from ≤ k → ¬ IsStart bytes k
AreUnits bytes from (u ∷ us) =
    (from ≤ u.begin)
    × ((k : ℕ) → from ≤ k → k < u.begin → ¬ IsStart bytes k)
    × ((n : ℕ) × (c : ℕ) × StartsUnit n c (drop u.begin bytes)
        × (u.header ≡ u.begin + n)
        × (u.kind ≡ bit_and c 0x1f))
    × (u.end ≡ first_begin bytes us)
    × AreUnits bytes (u.header + 1) us

abbrev pub has_kind : (ℕ → Bool) → List NalUnit → Bool
has_kind p [] = false
has_kind p (u ∷ us) = p u.kind || has_kind p us

-- The range of the last unit of a type.
abbrev later_or : Option (ℕ × ℕ) → Option (ℕ × ℕ) → Option (ℕ × ℕ)
later_or here none = here
later_or here (some later) = some later

abbrev pub last_of : ℕ → List NalUnit → Option (ℕ × ℕ)
last_of kind [] = none
last_of kind (u ∷ us) =
    later_or (if u.kind == kind then some (u.begin, u.end) else none) (last_of kind us)

-- What is reported of a parameter set: the range, or what was reported before.
abbrev pub reported : Option (ℕ × ℕ) → Bool × ℕ × ℕ → Bool × ℕ × ℕ
reported none old = old
reported (some (begin, end)) old = (true, begin, end)

abbrev sps_part : H264AccessUnitInfo → Bool × ℕ × ℕ
sps_part info = (info.has_sps, info.sps_begin, info.sps_end)

abbrev pps_part : H264AccessUnitInfo → Bool × ℕ × ℕ
pps_part info = (info.has_pps, info.pps_begin, info.pps_end)

abbrev pub is_vcl : ℕ → Bool
is_vcl kind = leb 1 kind && leb kind 5

abbrev pub is_idr : ℕ → Bool
is_idr kind = kind == 5

-- The scan of the units, on top of what was reported before.
abbrev Scanned : List NalUnit → H264AccessUnitInfo → H264AccessUnitInfo → Type 0
Scanned units parsed info =
    (info.has_vcl ≡ (parsed.has_vcl || has_kind is_vcl units))
    × (info.has_idr ≡ (parsed.has_idr || has_kind is_idr units))
    × (sps_part info ≡ reported (last_of 7 units) (sps_part parsed))
    × (pps_part info ≡ reported (last_of 8 units) (pps_part parsed))

reported_later :
    (u : Bool) (begin end : ℕ) (later : Option (ℕ × ℕ)) (old noted : Bool × ℕ × ℕ)
    → noted ≡ (if u then (true, begin, end) else old)
    → reported later noted ≡ reported (later_or (if u then some (begin, end) else none) later) old
reported_later true begin end none old noted e = e
reported_later false begin end none old noted e = e
reported_later true begin end (some range) old noted e = refl
reported_later false begin end (some range) old noted e = refl

note_nal-sps :
    (kind begin end : ℕ) (parsed : H264AccessUnitInfo)
    → sps_part (note_nal kind begin end parsed)
      ≡ (if kind == 7 then (true, begin, end) else sps_part parsed)
unfolding note_nal
note_nal-sps kind begin end parsed = ground arith

note_nal-pps :
    (kind begin end : ℕ) (parsed : H264AccessUnitInfo)
    → pps_part (note_nal kind begin end parsed)
      ≡ (if kind == 8 then (true, begin, end) else pps_part parsed)
unfolding note_nal
note_nal-pps kind begin end parsed = ground arith

note_nal-vcl :
    (kind begin end : ℕ) (parsed : H264AccessUnitInfo)
    → ((note_nal kind begin end parsed).has_vcl ≡ (parsed.has_vcl || is_vcl kind))
      × ((note_nal kind begin end parsed).has_idr ≡ (parsed.has_idr || is_idr kind))
unfolding note_nal
note_nal-vcl kind begin end parsed = (ground arith, ground arith)

or_assoc : (a b c : Bool) → ((a || b) || c) ≡ (a || (b || c))
or_assoc true b c = refl
or_assoc false b c = refl

Scanned-note :
    (u : NalUnit) (units : List NalUnit) (parsed info : H264AccessUnitInfo)
    → Scanned units (note_nal u.kind u.begin u.end parsed) info
    → Scanned (u ∷ units) parsed info
Scanned-note u units parsed info (vcl, idr, sps, pps) =
    let (noted, noted') = note_nal-vcl u.kind u.begin u.end parsed in
    (
      vcl
          ∙ ap (λ b. b || has_kind is_vcl units) noted
          ∙ or_assoc parsed.has_vcl (is_vcl u.kind) (has_kind is_vcl units),
      idr
          ∙ ap (λ b. b || has_kind is_idr units) noted'
          ∙ or_assoc parsed.has_idr (is_idr u.kind) (has_kind is_idr units),
      sps
          ∙ reported_later (u.kind == 7) u.begin u.end (last_of 7 units) (sps_part parsed) _
              (note_nal-sps u.kind u.begin u.end parsed),
      pps
          ∙ reported_later (u.kind == 8) u.begin u.end (last_of 8 units) (pps_part parsed) _
              (note_nal-pps u.kind u.begin u.end parsed),
    )

or_false : (b : Bool) → b ≡ (b || false)
or_false true = refl
or_false false = refl

Scanned-nothing : (info : H264AccessUnitInfo) → Scanned [] info info
Scanned-nothing info = (or_false info.has_vcl, or_false info.has_idr, refl, refl)

drop_nil : {A : Type 0} (n : ℕ) → drop {A = A} n [] ≡ []
drop_nil zero = refl
drop_nil (suc n) = refl

drop-drop : (a b : ℕ) (xs : List ℕ) → drop (a + b) xs ≡ drop b (drop a xs)
drop-drop zero b xs = let sum : 0 + b ≡ b = omega arith in ap (λ n. drop n xs) sum
drop-drop (suc a) b [] = drop_nil (suc a + b) ∙ sym (drop_nil b)
drop-drop (suc a) b (x ∷ xs) =
    let sum : suc a + b ≡ suc (a + b) = omega arith in
    ap (λ n. drop n (x ∷ xs)) sum ∙ drop-drop a b xs

first_unless :
    (bytes : List ℕ) (from : ℕ) → FoundFirst bytes from (find_annex_b_start_code bytes from)
unfolding find_annex_b_start_code
first_unless bytes from = find_from-FoundFirst bytes from (drop from bytes) refl

none_left :
    (bytes : List ℕ) (from : ℕ) → find_annex_b_start_code bytes from ≡ none → AreUnits bytes from []
none_left bytes from e k le =
    codeless bytes k (subst (FoundFirst bytes from) e (first_unless bytes from) k le)

none_between :
    (bytes : List ℕ) (from start header : ℕ)
    → find_annex_b_start_code bytes from ≡ some (start, header)
    → (k : ℕ) → from ≤ k
    → k < start
    → ¬ IsStart bytes k
none_between bytes from start header e k le lt =
    codeless bytes k (subst (FoundFirst bytes from) e (first_unless bytes from) k le lt)

nal_type-byte :
    (bytes : List ℕ) (header c : ℕ) (rest : List ℕ)
    → drop header bytes ≡ c ∷ rest
    → nal_type bytes header ≡ bit_and c 0x1f
nal_type-byte bytes header c rest e = ap (λ xs. bit_and (first_or_zero xs) 0x1f) e

-- The unit at a start code, which ends where the next of the list begins.
abbrev unit_at : List ℕ → ℕ → ℕ → List NalUnit → NalUnit
unit_at bytes start header us = record {
  begin = start;
  header = header;
  kind = nal_type bytes header;
  end = first_begin bytes us;
}

AreUnits-found :
    (bytes : List ℕ) (from start header : ℕ) (us : List NalUnit)
    → find_annex_b_start_code bytes from ≡ some (start, header)
    → AreUnits bytes (header + 1) us
    → AreUnits bytes from (unit_at bytes start header us ∷ us)
AreUnits-found bytes from start header us e later =
    let (le, unit) = find_annex_b_start_code-IsUnit bytes from start header e in
    let (c, starts) = start_code_at_sound unit.size (drop start bytes) unit.code in
    let (rest, byte) = header_byte unit.size c (drop start bytes) starts in
    (
      le,
      none_between bytes from start header e,
      (
        unit.size,
        c,
        starts,
        unit.behind,
        nal_type-byte bytes header c rest
            (ap (λ k. drop k bytes) unit.behind ∙ drop-drop start unit.size bytes ∙ byte),
      ),
      refl,
      later,
    )

-- With a round for each byte behind the header the loop ends, and has seen all the units.
parse_loop-Scanned :
    (fuel : ℕ) (bytes : List ℕ) (start header : ℕ) (parsed : H264AccessUnitInfo)
    → header < length bytes
    → length bytes ≤ header + fuel
    → (us : List NalUnit) × (info : H264AccessUnitInfo) × (parse_loop fuel bytes start header parsed
        ≡ some info)
      × AreUnits bytes (header + 1) us
      × Scanned (unit_at bytes start header us ∷ us) parsed info
unfolding parse_loop
parse_loop-Scanned zero bytes start header parsed inside enough = absurd (omega arith)
parse_loop-Scanned (suc fuel) bytes start header parsed inside enough =
    let more : leb (length bytes) header ≡ false = ground arith in
    elim (Option-cases (find_annex_b_start_code bytes (header + 1))) [
      | inl last ↦ (
        [],
        note_nal (nal_type bytes header) start (length bytes) parsed,
        rw (more, last) refl,
        none_left bytes (header + 1) last,
        Scanned-note (unit_at bytes start header []) [] parsed _ (Scanned-nothing _),
      )
      | inr ((next_start, next_header), next) ↦
          let (later, unit') =
            find_annex_b_start_code-IsUnit bytes (header + 1) next_start next_header next in
          let onward : leb next_start header ≡ false = ground arith in
          let (us, info, same, units, scanned) =
            parse_loop-Scanned fuel bytes next_start next_header
              (note_nal (nal_type bytes header) start next_start parsed) unit'.inside
              (omega (arith, unit'.behind)) in
          let us' = unit_at bytes next_start next_header us ∷ us in
          (
            us',
            info,
            rw (more, next, onward) same,
            AreUnits-found bytes (header + 1) next_start next_header us next units,
            Scanned-note (unit_at bytes start header us') us' parsed info scanned,
          )
    ]

-- The scan of an access unit ends. It fails exactly where the data have no unit at all. Otherwise it
-- has seen all the units of the data, from their start codes on, each up to the next one or to the end
-- of the data: it reports a picture and a key picture exactly where one of them has such a type, and
-- of each parameter set whether a unit has its type, with the range of the last one that has.
pub parse_h264_access_unit-AreUnits :
    (bytes : List ℕ)
    → (AreUnits bytes 0 [] × (parse_h264_access_unit bytes ≡ none))
      ⊎ ((units : List NalUnit) × (info : H264AccessUnitInfo) × (units ≢ [])
          × AreUnits bytes 0 units
          × (parse_h264_access_unit bytes ≡ some info)
          × (info.has_vcl ≡ has_kind is_vcl units)
          × (info.has_idr ≡ has_kind is_idr units)
          × ((info.has_sps, info.sps_begin, info.sps_end)
              ≡ reported (last_of 7 units) (false, 0, 0))
          × ((info.has_pps, info.pps_begin, info.pps_end)
              ≡ reported (last_of 8 units) (false, 0, 0)))
unfolding parse_h264_access_unit
parse_h264_access_unit-AreUnits bytes = elim (Option-cases (find_annex_b_start_code bytes 0)) [
  | inl absent ↦ inl (none_left bytes 0 absent, rw (absent, parse_h264_access_unit) refl)
  | inr ((start, header), found) ↦
      let (from_zero, unit) = find_annex_b_start_code-IsUnit bytes 0 start header found in
      let (us, info, same, units, (vcl, idr, sps, pps)) =
        parse_loop-Scanned (length bytes) bytes start header nothing_parsed unit.inside
          (omega arith) in
      inr (
        unit_at bytes start header us ∷ us,
        info,
        (λ e. cc),
        AreUnits-found bytes 0 start header us found units,
        rw (found, parse_h264_access_unit) same,
        vcl,
        idr,
        sps,
        pps,
      )
]
