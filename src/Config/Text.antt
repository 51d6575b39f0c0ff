-- ===== src/Config/Text.antt =====
-- src/sensor_demo_yaml_config.cpp: the texts of a configuration line. Characters are ASCII, in the
-- "C" locale.
use mrp_robo_baton_4p_no_ros.Base.{
  ℕ, suc, ◌+◌, not, ◌&&◌, ◌||◌, Option, none, some, List, [], ◌∷◌, leb, ◌==◌, if◌then◌else◌,
}
use mrp_robo_baton_4p_no_ros.Cli.Numbers.{is_space, skip_space}
use mrp_robo_baton_4p_no_ros.Cli.Options.{is_empty}

abbrev pub lower : ℕ → ℕ
lower c = if leb b'A' c && leb c b'Z' then c + 32 else c

unfoldable pub to_lower : List ℕ → List ℕ
to_lower [] = []
to_lower (c ∷ cs) = lower c ∷ to_lower cs

unfoldable pub trim_end : List ℕ → List ℕ
trim_end [] = []
trim_end (c ∷ cs) = let rest = trim_end cs in if is_space c && is_empty rest then [] else c ∷ rest

unfoldable pub trim : List ℕ → List ℕ
unfolding trim_end skip_space
trim text = trim_end (skip_space text)

unfoldable pub minus_to_underscore : List ℕ → List ℕ
minus_to_underscore [] = []
minus_to_underscore (c ∷ cs) = (if c == b'-' then b'_' else c) ∷ minus_to_underscore cs

unfoldable pub normalize_config_key : List ℕ → List ℕ
unfolding trim to_lower minus_to_underscore
normalize_config_key key = minus_to_underscore (to_lower (trim key))

-- The line up to its comment, inside a quote or not: `quote` is 0 outside.
unfoldable pub strip_from : ℕ → List ℕ → List ℕ
strip_from quote [] = []
strip_from quote (c ∷ cs) =
    let inside = c ∷ strip_from (if c == quote then 0 else quote) cs in
    let outside = c ∷ strip_from (if c == b'\'' || c == b'"' then c else 0) cs in
    if not (quote == 0) then inside else if c == b'#' then [] else outside

unfoldable pub strip_yaml_comment : List ℕ → List ℕ
unfolding strip_from
strip_yaml_comment line = strip_from 0 line

-- The text without its last character, which is the quote given.
unfoldable pub without_closing : ℕ → List ℕ → Option (List ℕ)
without_closing quote [] = none
without_closing quote (c ∷ []) = if c == quote then some [] else none
without_closing quote (c ∷ d ∷ cs) = elim (without_closing quote (d ∷ cs)) [
  | none ↦ none
  | some rest ↦ some (c ∷ rest)
]

abbrev or_else : List ℕ → Option (List ℕ) → List ℕ
or_else text none = text
or_else text (some inner) = inner

-- A text of two characters or more loses the quotes at its ends, if they are alike.
unfoldable pub unquote : List ℕ → List ℕ
unfolding without_closing
unquote [] = []
unquote (c ∷ cs) =
    if c == b'\'' || c == b'"' then or_else (c ∷ cs) (without_closing c cs) else c ∷ cs

unfoldable pub parse_yaml_scalar : List ℕ → List ℕ
unfolding unquote trim
parse_yaml_scalar value = unquote (trim value)

-- Whether a line is indented: `CountLeadingSpaces` is not 0.
unfoldable pub leading_spaces : List ℕ → ℕ
leading_spaces [] = 0
leading_spaces (c ∷ cs) =
    let more = suc (leading_spaces cs) in if c == b' ' || c == b'\t' then more else 0

-- The texts before and behind the first colon.
unfoldable pub split_at_colon : List ℕ → Option (List ℕ × List ℕ)
split_at_colon [] = none
split_at_colon (c ∷ cs) =
    let later : Option (List ℕ × List ℕ) = elim (split_at_colon cs) [
      | none ↦ none
      | some (before, behind) ↦ some (c ∷ before, behind)
    ] in
    if c == b':' then some ([], cs) else later
