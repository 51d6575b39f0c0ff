-- ===== src/Recorder/Json.antt =====
-- src/sensor_bag_recorder.cpp: `JsonEscape`, which puts a text into a JSON string.
use mrp_robo_baton_4p_no_ros.Base.{
  ℕ, ◌≡◌, All, refl, ap, Bool, true, false, List, [], ◌∷◌, ◌++◌, ◌==◌, Option, none, some, ltb, ◌<◌,
  ◌≢◌, ◌⊎◌, inl, inr, if◌then◌else◌, arith, append_assoc, ◌∙◌,
}

-- The escape of one character, none where it stands for itself.
unfoldable pub escape_char : ℕ → List ℕ
escape_char ch =
    if ch == b'\\'
    then b'\\' ∷ b'\\' ∷ []
    else if ch == b'"'
    then b'\\' ∷ b'"' ∷ []
    else if ch == b'\n'
    then b'\\' ∷ b'n' ∷ []
    else if ch == b'\r'
    then b'\\' ∷ b'r' ∷ []
    else if ch == b'\t'
    then b'\\' ∷ b't' ∷ []
    else ch ∷ []

unfoldable pub json_escape : List ℕ → List ℕ
unfolding escape_char
json_escape [] = []
json_escape (ch ∷ value) = escape_char ch ++ json_escape value

-- What the character behind a backslash stands for in JSON; `\\u` is left out.
pub meaning : ℕ → Option ℕ
meaning ch =
    if ch == b'"'
    then some b'"'
    else if ch == b'\\'
    then some b'\\'
    else if ch == b'/'
    then some b'/'
    else if ch == b'b'
    then some 8
    else if ch == b'f'
    then some 12
    else if ch == b'n'
    then some b'\n'
    else if ch == b'r'
    then some b'\r'
    else if ch == b't'
    then some b'\t'
    else none

-- The character in front of what is read behind it.
pub put : Option ℕ → Option (List ℕ × List ℕ) → Option (List ℕ × List ℕ)
put (some ch) (some (value, rest)) = some (ch ∷ value, rest)
put _ _ = none

-- A strict reader of a JSON string, behind a backslash or not: the text up to the quote that closes it,
-- and what follows the quote. A control byte, an escape that JSON has not, and a missing quote are
-- errors.
pub json_read : Bool → List ℕ → Option (List ℕ × List ℕ)
json_read behind [] = none
json_read true (ch ∷ text) = put (meaning ch) (json_read false text)
json_read false (ch ∷ text) =
    let plain = put (some ch) (json_read false text) in
    let next = json_read true text in
    if ch == b'"'
    then some ([], text)
    else if ch == b'\\'
    then next
    else if ltb ch 0x20
    then none
    else plain

-- A control byte that the code leaves as it is.
abbrev pub IsRaw : ℕ → Type 0
IsRaw ch = (ch < 0x20) × (ch ≢ b'\n') × (ch ≢ b'\r') × (ch ≢ b'\t')

json_read-escape_char :
    (ch : ℕ) (text : List ℕ)
    → (IsRaw ch × (json_read false (escape_char ch ++ text) ≡ none))
      ⊎ ((¬ IsRaw ch)
          × (json_read false (escape_char ch ++ text) ≡ put (some ch) (json_read false text)))
unfolding escape_char json_read meaning
json_read-escape_char ch text = ground arith

put-none : (ch : ℕ) → put (some ch) none ≡ none
unfolding put
put-none ch = refl

put-some :
    (ch : ℕ) (value rest : List ℕ) → put (some ch) (some (value, rest)) ≡ some (ch ∷ value, rest)
unfolding put
put-some ch value rest = refl

read_next :
    (ch : ℕ) (value rest : List ℕ)
    → json_read false (json_escape (ch ∷ value) ++ b'"' ∷ rest)
      ≡ json_read false (escape_char ch ++ (json_escape value ++ b'"' ∷ rest))
unfolding json_escape
read_next ch value rest =
    ap (json_read false) (append_assoc (escape_char ch) (json_escape value) (b'"' ∷ rest))

-- A strict JSON reader gets back an escaped text, and stops at the quote that closes it, exactly when
-- the text has no control byte other than a line feed, a carriage return and a tab: whatever quotes and
-- backslashes it has and whatever follows. A text with such a byte is put into a string that the reader
-- refuses.
pub json_read-json_escape :
    (value rest : List ℕ)
    → ((All (λ ch. ¬ IsRaw ch) value)
        × (json_read false (json_escape value ++ b'"' ∷ rest) ≡ some (value, rest)))
      ⊎ ((before : List ℕ) × (ch : ℕ) × (after : List ℕ) × (value ≡ before ++ ch ∷ after)
          × IsRaw ch
          × (json_read false (json_escape value ++ b'"' ∷ rest) ≡ none))
unfolding json_escape json_read
json_read-json_escape [] rest = inl (tt, refl)
json_read-json_escape (ch ∷ value) rest =
    elim (json_read-escape_char ch (json_escape value ++ b'"' ∷ rest)) [
      | inl (raw, bad) ↦ inr ([], ch, value, refl, raw, read_next ch value rest ∙ bad)
      | inr (fine, good) ↦ elim (json_read-json_escape value rest) [
        | inl (all, same) ↦ inl (
          (fine, all),
          read_next ch value rest ∙ good ∙ ap (put (some ch)) same ∙ put-some ch value rest,
        )
        | inr (before, raw_ch, after, e, raw, bad) ↦ inr (
          ch ∷ before,
          raw_ch,
          after,
          ap (λ (xs : List ℕ). ch ∷ xs) e,
          raw,
          read_next ch value rest ∙ good ∙ ap (put (some ch)) bad ∙ put-none ch,
        )
      ]
    ]
