-- ===== src/Config/Text.antt =====
-- drcom/src/configparse.c: `trim_in_place`, `strip_matching_quotes`, `parse_key_value` and
-- `equals_ignore_case`. The texts are edited in place there; here each step returns the new text.
pub mod RoundTrip
use jlu_drcom.Base.{
  ℕ, ◌-◌, Bool, true, false, ◌&&◌, ◌||◌, [], ◌∷◌, Bytes, Option, none, some, ltb, ◌==◌, reverse,
  length, take, drop, get_or, if◌then◌else◌,
}
use jlu_drcom.Ctype.{skip_spaces, to_lower}

-- The loop from the end of the text down.
unfoldable pub trim_end : Bytes → Bytes
trim_end value = reverse (skip_spaces (reverse value))

unfoldable pub trim_in_place : Bytes → Bytes
unfolding trim_end
trim_in_place value = trim_end (skip_spaces value)

-- The first and the last byte are this quote.
abbrev quoted_by : ℕ → Bytes → Bool
quoted_by quote value = get_or value 0 0 == quote && get_or value (length value - 1) 0 == quote

unfoldable pub strip_matching_quotes : Bytes → Bytes
strip_matching_quotes value =
    if ltb (length value) 2
    then value
    else if quoted_by b'\'' value || quoted_by b'"' value
    then take (length value - 2) (drop 1 value)
    else value

-- `strchr(line, '=')`: what stands before the separator and what stands behind it.
unfoldable pub split_at_separator : Bytes → Option (Bytes × Bytes)
split_at_separator [] = none
split_at_separator (c ∷ cs) =
    let rest = split_at_separator cs in
    if c == b'='
    then some ([], cs)
    else elim rest [ none ↦ none | some (before, behind) ↦ some (c ∷ before, behind) ]

-- The results 1 (nothing on the line), -1 and 0.
pub data KeyValue : Type 0 where
  blank malformed : KeyValue
  pair : Bytes → Bytes → KeyValue

-- From the separator on: `key` and `value` are trimmed, and the key may not be empty.
unfoldable pub key_value_of : Option (Bytes × Bytes) → KeyValue
key_value_of none = malformed
key_value_of (some (before, behind)) = elim (trim_in_place before) [
  | [] ↦ malformed
  | c ∷ cs ↦ pair (c ∷ cs) (trim_in_place (strip_matching_quotes (trim_in_place behind)))
]

key_value_of_line : Bytes → KeyValue
key_value_of_line [] = blank
key_value_of_line (c ∷ cs) = if c == b'#' then blank else key_value_of (split_at_separator (c ∷ cs))

unfoldable pub parse_key_value : Bytes → KeyValue
unfolding key_value_of_line key_value_of
parse_key_value buf = key_value_of_line (trim_in_place buf)

unfoldable pub equals_ignore_case : Bytes → Bytes → Bool
unfolding to_lower
equals_ignore_case [] [] = true
equals_ignore_case (x ∷ xs) (y ∷ ys) = to_lower x == to_lower y && equals_ignore_case xs ys
equals_ignore_case _ _ = false
