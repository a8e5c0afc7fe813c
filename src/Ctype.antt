-- ===== src/Ctype.antt =====
-- The C library's character classes and number readers, as the program uses them on
-- NUL-terminated texts (a text here holds the bytes before its NUL).
pub mod Decimal
pub mod Digits
use jlu_drcom.Base.{
  ℕ, zero, suc, ◌+◌, ◌-◌, ◌*◌, ◌^◌, min, Bool, true, false, ◌&&◌, ◌||◌, List, [], ◌∷◌, Option, none,
  some, Bytes, ltb, leb, ◌==◌, if◌then◌else◌,
}

-- The text that a buffer holds: its bytes before the first NUL.
unfoldable pub c_string : Bytes → Bytes
c_string [] = []
c_string (c ∷ cs) = let rest = c_string cs in if c == 0 then [] else c ∷ rest

unfoldable pub is_space : ℕ → Bool
is_space c = c == b' ' || (leb 9 c && leb c 13)

unfoldable pub is_digit : ℕ → Bool
is_digit c = leb b'0' c && leb c b'9'

unfoldable pub is_xdigit : ℕ → Bool
unfolding is_digit
is_xdigit c = is_digit c || (leb b'a' c && leb c b'f') || (leb b'A' c && leb c b'F')

unfoldable pub to_lower : ℕ → ℕ
to_lower c = if leb b'A' c && leb c b'Z' then c + 32 else c

unfoldable pub skip_spaces : Bytes → Bytes
unfolding is_space
skip_spaces [] = []
skip_spaces (c ∷ cs) = let rest = skip_spaces cs in if is_space c then rest else c ∷ cs

-- The value of the digits that a text begins with, on top of `acc`, and the text behind them.
unfoldable pub read_decimal : ℕ → Bytes → ℕ × Bytes
unfolding is_digit
read_decimal acc [] = (acc, [])
read_decimal acc (c ∷ cs) =
    let rest = read_decimal (acc * 10 + (c - b'0')) cs in if is_digit c then rest else (acc, c ∷ cs)

-- `ULONG_MAX` and `LONG_MAX` where `long` has 32 bits, as on most of the routers. The callers
-- compare with 255 and 1800, so a wider `long` gives the same.
abbrev pub ulong_max : ℕ
ulong_max = 2 ^ 32 - 1

abbrev pub long_max : ℕ
long_max = 2 ^ 31 - 1

-- `strtoul(text, &end, 10)` on a text that begins with a digit: no space and no sign to read.
unfoldable pub strtoul : Bytes → ℕ × Bytes
strtoul text = let (value, end) = read_decimal 0 text in (min value ulong_max, end)

pub record Long : Type 0 where
  pub below_zero : Bool
  pub magnitude : ℕ
  pub end : Bytes

-- The digits behind an optional sign; `none` where there is none (`end == value`).
long_digits : Bool → Bytes → Option Long
long_digits minus [] = none
long_digits minus (c ∷ cs) =
    let (value, end) = read_decimal 0 (c ∷ cs) in
    if is_digit c
    then some (record {
      below_zero = minus && ltb 0 value;
      magnitude = min value (if minus then long_max + 1 else long_max);
      end = end;
    })
    else none

signed_digits : Bytes → Option Long
unfolding long_digits
signed_digits [] = none
signed_digits (c ∷ cs) =
    if c == b'-'
    then long_digits true cs
    else if c == b'+'
    then long_digits false cs
    else long_digits false (c ∷ cs)

-- `strtol(text, &end, 10)`
unfoldable pub strtol : Bytes → Option Long
unfolding signed_digits long_digits
strtol text = signed_digits (skip_spaces text)
