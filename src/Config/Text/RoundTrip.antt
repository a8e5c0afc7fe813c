-- ===== src/Config/Text/RoundTrip.antt =====
-- drcom/src/configparse.c: `parse_key_value` on a setting written with its value in quotes.
use mathlib.Core.List.{append_assoc, reverse-append, reverse-cons, reverse-reverse}
use jlu_drcom.Base.{
  ℕ, suc, ◌+◌, ◌-◌, ◌≡◌, ◌⊎◌, refl, sym, ap, ◌∙◌, true, false, [], ◌∷◌, ◌++◌, Bytes, some, arith,
  reverse, length, length-append, take-append, get_or, ◌==◌,
}
use jlu_drcom.Ctype.{is_space, skip_spaces}
use jlu_drcom.Config.Text.{
  trim_in_place, strip_matching_quotes, split_at_separator, pair, key_value_of, key_value_of_line,
  parse_key_value,
}

abbrev pub NoSpaces : Bytes → Type 0
NoSpaces [] = Unit
NoSpaces (c ∷ cs) = (is_space c ≡ false) × NoSpaces cs

abbrev pub NoSeparator : Bytes → Type 0
NoSeparator [] = Unit
NoSeparator (c ∷ cs) = ((c == b'=') ≡ false) × NoSeparator cs

-- A key that the line format can express: no space, no `=`, and `#` not in front.
pub record IsKey (c : ℕ) (cs : Bytes) : Type 0 where
  pub no_spaces : NoSpaces (c ∷ cs)
  pub no_separator : NoSeparator (c ∷ cs)
  pub no_comment : (c == b'#') ≡ false

abbrev pub IsQuote : ℕ → Type 0
IsQuote q = (q ≡ b'\'') ⊎ (q ≡ b'"')

skip_spaces-cons : (c : ℕ) (cs : Bytes) → is_space c ≡ false → skip_spaces (c ∷ cs) ≡ c ∷ cs
unfolding skip_spaces
skip_spaces-cons c cs h = rw h

NoSpaces-append : (xs ys : Bytes) → NoSpaces xs → NoSpaces ys → NoSpaces (xs ++ ys)
NoSpaces-append [] ys hx hy = hy
NoSpaces-append (x ∷ xs) ys hx hy = (hx.0, NoSpaces-append xs ys hx.1 hy)

NoSpaces-reverse : (xs : Bytes) → NoSpaces xs → NoSpaces (reverse xs)
NoSpaces-reverse [] h = tt
NoSpaces-reverse (x ∷ xs) h =
    rw (reverse-append (x ∷ []) xs)
      (NoSpaces-append (reverse xs) (x ∷ []) (NoSpaces-reverse xs h.1) (h.0, tt))

skip_spaces-NoSpaces : (xs : Bytes) → NoSpaces xs → skip_spaces xs ≡ xs
skip_spaces-NoSpaces [] h = unfold skip_spaces in refl
skip_spaces-NoSpaces (x ∷ xs) h = skip_spaces-cons x xs h.0

trim_in_place-NoSpaces : (xs : Bytes) → NoSpaces xs → trim_in_place xs ≡ xs
unfolding trim_in_place
trim_in_place-NoSpaces xs h =
    rw (skip_spaces-NoSpaces xs h, skip_spaces-NoSpaces (reverse xs) (NoSpaces-reverse xs h))
      (reverse-reverse xs)

skip_spaces_space : (c : ℕ) (cs : Bytes) → is_space c ≡ true → skip_spaces (c ∷ cs) ≡ skip_spaces cs
unfolding skip_spaces
skip_spaces_space c cs h = rw h

reverse-cons-reverse : (q : ℕ) (xs : Bytes) → reverse (q ∷ reverse xs) ≡ xs ++ q ∷ []
reverse-cons-reverse q xs =
    reverse-cons q (reverse xs) ∙ ap (λ (ys : Bytes). ys ++ q ∷ []) (reverse-reverse xs)

module _ (c : ℕ) (cs : Bytes) (q : ℕ) (hc : is_space c ≡ false) (hq : is_space q ≡ false) where
  -- Behind a text that begins and ends with other bytes, one space at the end is cut off.
  trim_in_place-newline :
      (s : ℕ) → is_space s ≡ true → trim_in_place (c ∷ (cs ++ q ∷ s ∷ [])) ≡ c ∷ (cs ++ q ∷ [])
  unfolding trim_in_place
  trim_in_place-newline s hs =
      rw
        (
          skip_spaces-cons c (cs ++ q ∷ s ∷ []) hc,
          reverse-append (c ∷ cs) (q ∷ s ∷ []),
          skip_spaces_space s _ hs,
          skip_spaces-cons q _ hq,
        )
        (reverse-cons-reverse q (c ∷ cs))

  trim_in_place_ends : trim_in_place (c ∷ (cs ++ q ∷ [])) ≡ c ∷ (cs ++ q ∷ [])
  unfolding trim_in_place
  trim_in_place_ends =
      rw
        (
          skip_spaces-cons c (cs ++ q ∷ []) hc,
          reverse-append (c ∷ cs) (q ∷ []),
          skip_spaces-cons q _ hq,
        )
        (reverse-cons-reverse q (c ∷ cs))

split_at_separator-append :
    (xs ys : Bytes) → NoSeparator xs → split_at_separator (xs ++ b'=' ∷ ys) ≡ some (xs, ys)
unfolding split_at_separator
split_at_separator-append [] ys h = refl
split_at_separator-append (x ∷ xs) ys h =
    rw (h.0, split_at_separator-append xs ys h.1, split_at_separator)

get_or-append_last : (v : Bytes) (q : ℕ) → get_or (v ++ q ∷ []) (length v) 0 ≡ q
get_or-append_last [] q = refl
get_or-append_last (x ∷ v) q = get_or-append_last v q

strip_matching_quotes-quoted :
    (q : ℕ) (v : Bytes) → IsQuote q → strip_matching_quotes (q ∷ (v ++ q ∷ [])) ≡ v
unfolding strip_matching_quotes
strip_matching_quotes-quoted q v h =
    let n : length (v ++ q ∷ []) ≡ length v + 1 = length-append v (q ∷ []) in
    let whole : length (q ∷ (v ++ q ∷ [])) ≡ suc (suc (length v)) = omega arith in
    let last : suc (suc (length v)) - 1 ≡ suc (length v) = omega arith in
    let inner : suc (suc (length v)) - 2 ≡ length v = omega arith in
    rw (whole, last, inner, get_or-append_last v q, take-append v (q ∷ []) (length v) refl)
      (ground arith)

quote-IsSpace : (q : ℕ) → IsQuote q → is_space q ≡ false
unfolding is_space
quote-IsSpace q h = ground arith

-- The line as it is written: `key=`, the value in quotes, and the newline.
pub setting_line : ℕ → Bytes → ℕ → Bytes → Bytes
setting_line c cs q v = c ∷ (cs ++ b'=' ∷ q ∷ (v ++ q ∷ b'\n' ∷ []))

key_value_of-quoted :
    (c : ℕ) (cs : Bytes) (q : ℕ) (v : Bytes)
    → IsKey c cs
    → IsQuote q
    → trim_in_place v ≡ v
    → key_value_of (some (c ∷ cs, q ∷ (v ++ q ∷ []))) ≡ pair (c ∷ cs) v
unfolding key_value_of
key_value_of-quoted c cs q v k h trimmed =
    let space = quote-IsSpace q h in
    rw (trim_in_place-NoSpaces (c ∷ cs) k.no_spaces, key_value_of)
      (rw (trim_in_place_ends q v q space space, strip_matching_quotes-quoted q v h, trimmed))

key_value_of_line-quoted :
    (c : ℕ) (cs : Bytes) (q : ℕ) (v : Bytes)
    → IsKey c cs
    → IsQuote q
    → trim_in_place v ≡ v
    → key_value_of_line (c ∷ (cs ++ b'=' ∷ q ∷ (v ++ q ∷ []))) ≡ pair (c ∷ cs) v
unfolding key_value_of_line
key_value_of_line-quoted c cs q v k h trimmed =
    rw (k.no_comment, split_at_separator-append (c ∷ cs) (q ∷ (v ++ q ∷ [])) k.no_separator)
      (key_value_of-quoted c cs q v k h trimmed)

-- A line `key='value'` or `key="value"` gives just this key and this value, if the key has no space
-- and no `=` and does not begin with `#`, and the value neither begins nor ends with a space.
pub parse_key_value-setting_line :
    (c : ℕ) (cs : Bytes) (q : ℕ) (v : Bytes)
    → IsKey c cs
    → IsQuote q
    → trim_in_place v ≡ v
    → parse_key_value (setting_line c cs q v) ≡ pair (c ∷ cs) v
unfolding parse_key_value setting_line
parse_key_value-setting_line c cs q v k h trimmed =
    let regroup : cs ++ b'=' ∷ q ∷ (v ++ q ∷ b'\n' ∷ []) ≡ (cs ++ b'=' ∷ q ∷ v) ++ q ∷ b'\n' ∷ [] =
      sym (append_assoc cs (b'=' ∷ q ∷ v) (q ∷ b'\n' ∷ [])) in
    let back : (cs ++ b'=' ∷ q ∷ v) ++ q ∷ [] ≡ cs ++ b'=' ∷ q ∷ (v ++ q ∷ []) =
      append_assoc cs (b'=' ∷ q ∷ v) (q ∷ []) in
    rw
      (
        regroup,
        trim_in_place-newline c (cs ++ b'=' ∷ q ∷ v) q k.no_spaces.0 (quote-IsSpace q h) b'\n'
            newline,
        back,
      )
      (key_value_of_line-quoted c cs q v k h trimmed)
  where
    newline : is_space b'\n' ≡ true
    newline = unfold is_space in refl
