-- ===== src/Config/Values.antt =====
-- drcom/src/configparse.c: the readers of single values and the bounded copies.
pub mod Hex
pub mod Bounds
use jlu_drcom.Base.{
  ℕ, ◌+◌, ◌-◌, ◌*◌, Bool, true, false, not, ◌&&◌, ◌||◌, [], ◌∷◌, Bytes, Option, none, some, ltb,
  leb, ◌==◌, ◌>>=◌, length, take, equal, codes, Status, success, failure, if◌then◌else◌,
}
use jlu_drcom.Ctype.{is_digit, is_xdigit, Long, strtol}
use jlu_drcom.Config.Text.{equals_ignore_case, trim_in_place}
use jlu_drcom.Ipv4.{parse_ipv4_address}

-- `snprintf(dest, dest_size, "%s", value)` and the test of its result: the field's new text, which
-- is cut to the field also where the copy fails.
unfoldable pub copy_checked : Bytes → ℕ → Bytes → Bytes × Status
copy_checked dest dest_size value =
    if dest_size == 0
    then (dest, failure)
    else (take (dest_size - 1) value, if leb dest_size (length value) then failure else success)

unfoldable pub copy_ipv4_checked : Bytes → ℕ → Bytes → Bytes × Status
unfolding copy_checked
copy_ipv4_checked dest dest_size value = elim (parse_ipv4_address value) [
  | none ↦ (dest, failure)
  | some parsed_ip ↦ copy_checked dest dest_size value
]

-- `if (value[0] == '0' && (value[1] == 'x' || value[1] == 'X')) value += 2;`
unfoldable pub skip_hex_prefix : Bytes → Bytes
skip_hex_prefix (z ∷ x ∷ rest) =
    if z == b'0' && (x == b'x' || x == b'X') then rest else z ∷ x ∷ rest
skip_hex_prefix value = value

-- The loop of `collect_hex_digits`, with the digits collected so far counted: what it appends, or
-- `none` where a digit too many ends the loop with an error.
unfoldable pub hex_digits : ℕ → ℕ → Bytes → Option Bytes
unfolding is_xdigit
hex_digits expected count [] = if count == expected then some [] else none
hex_digits expected count (c ∷ cs) =
    let rest = hex_digits expected (if is_xdigit c then count + 1 else count) cs in
    if is_xdigit c
    then (if leb expected count then none else (do digits ← rest; some (c ∷ digits)))
    else rest

-- `digits_size` is `expected_digits + 1` at every call, so its test passes.
unfoldable pub collect_hex_digits : Bytes → ℕ → Option Bytes
unfolding skip_hex_prefix hex_digits
collect_hex_digits value expected_digits = hex_digits expected_digits 0 (skip_hex_prefix value)

-- The value of a hexadecimal digit.
unfoldable pub hex_value : ℕ → ℕ
unfolding is_digit
hex_value c =
    if is_digit c
    then c - b'0'
    else if leb b'a' c && leb c b'f'
    then c - b'a' + 10
    else c - b'A' + 10

-- `sscanf` with `%2x` for each pair of a text of hexadecimal digits.
unfoldable pub scan_pairs : Bytes → Bytes
unfolding hex_value
scan_pairs (hi ∷ lo ∷ rest) = (hex_value hi * 16 + hex_value lo) ∷ scan_pairs rest
scan_pairs _ = []

-- The byte that `sscanf` stores, or `none` where it converts none.
first_byte : Bytes → Option ℕ
first_byte [] = none
first_byte (b ∷ bs) = some b

unfoldable pub parse_hex_byte_string : Bytes → Option ℕ
unfolding first_byte
parse_hex_byte_string value = do digits ← collect_hex_digits value 2; first_byte (scan_pairs digits)

-- The test that `sscanf` converted as many bytes as asked.
scanned : ℕ → Bytes → Option Bytes
scanned expected bytes = if length bytes == expected then some bytes else none

unfoldable pub parse_two_byte_string : Bytes → Option Bytes
unfolding scanned
parse_two_byte_string value = do digits ← collect_hex_digits value 4; scanned 2 (scan_pairs digits)

unfoldable pub parse_mac_string : Bytes → Option Bytes
unfolding scanned
parse_mac_string value = do digits ← collect_hex_digits value 12; scanned 6 (scan_pairs digits)

unfoldable pub parse_bool_string : Bytes → Option Bool
unfolding equals_ignore_case equal
parse_bool_string value =
    if equals_ignore_case value (codes "True")
    then some true
    else if equal value (codes "1")
    then some true
    else if equals_ignore_case value (codes "False")
    then some false
    else if equal value (codes "0")
    then some false
    else none

-- The tests on what `strtol` returns.
bounded_long : Option Long → Option ℕ
bounded_long none = none
bounded_long (some parsed) =
    if not (equal (trim_in_place parsed.end) []) || parsed.below_zero || ltb 1800 parsed.magnitude
    then none
    else some parsed.magnitude

unfoldable pub parse_nonnegative_int_string : Bytes → Option ℕ
unfolding bounded_long equal
parse_nonnegative_int_string [] = none
parse_nonnegative_int_string (c ∷ cs) = bounded_long (strtol (c ∷ cs))
