-- ===== src/Config/Values/Bounds.antt =====
-- drcom/src/configparse.c: the sizes of what the readers of single values store.
use jlu_drcom.Base.{
  ℕ, ◌-◌, ◌≤◌, ◌<◌, ◌≡◌, [], ◌∷◌, Bytes, Option, none, some, arith, length, length-take,
  >>=-eq-some,
}
use jlu_drcom.Config.Values.{
  copy_checked, copy_ipv4_checked, scanned, parse_two_byte_string, parse_mac_string,
  parse_nonnegative_int_string, bounded_long, collect_hex_digits, scan_pairs,
}
use jlu_drcom.Ctype.{Long, strtol}
use jlu_drcom.Ipv4.{parse_ipv4_address}

-- The copy never leaves more text than the field holds beside its NUL.
pub copy_checked-lt :
    (dest : Bytes) (size : ℕ) (value : Bytes)
    → length dest < size
    → length (copy_checked dest size value).0 < size
unfolding copy_checked
copy_checked-lt dest size value h = ground (arith, length-take (size - 1) value)

pub copy_ipv4_checked-lt :
    (dest : Bytes) (size : ℕ) (value : Bytes)
    → length dest < size
    → length (copy_ipv4_checked dest size value).0 < size
unfolding copy_ipv4_checked
copy_ipv4_checked-lt dest size value h =
    ground (arith, copy_checked-lt dest size value h, parse_ipv4_address value)

scanned-length : (n : ℕ) (bytes : Bytes) {r : Bytes} → scanned n bytes ≡ some r → length r ≡ n
unfolding scanned
scanned-length n bytes h = ground arith

pub parse_two_byte_string-length :
    (value : Bytes) {r : Bytes} → parse_two_byte_string value ≡ some r → length r ≡ 2
unfolding parse_two_byte_string
parse_two_byte_string-length value h =
    let (digits, _, read) = >>=-eq-some (collect_hex_digits value 4) _ h in
    scanned-length 2 (scan_pairs digits) read

pub parse_mac_string-length :
    (value : Bytes) {r : Bytes} → parse_mac_string value ≡ some r → length r ≡ 6
unfolding parse_mac_string
parse_mac_string-length value h =
    let (digits, _, read) = >>=-eq-some (collect_hex_digits value 12) _ h in
    scanned-length 6 (scan_pairs digits) read

bounded_long-le : (o : Option Long) {n : ℕ} → bounded_long o ≡ some n → n ≤ 1800
unfolding bounded_long
bounded_long-le none h = cc
bounded_long-le (some l) h = ground arith

pub parse_nonnegative_int_string-le :
    (value : Bytes) {n : ℕ} → parse_nonnegative_int_string value ≡ some n → n ≤ 1800
unfolding parse_nonnegative_int_string
parse_nonnegative_int_string-le [] h = cc
parse_nonnegative_int_string-le (c ∷ cs) h = bounded_long-le (strtol (c ∷ cs)) h
