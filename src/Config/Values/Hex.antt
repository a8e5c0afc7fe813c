-- ===== src/Config/Values/Hex.antt =====
-- drcom/src/configparse.c: the readers of hexadecimal bytes, and how a MAC address is written.
use jlu_drcom.Base.{
  ℕ, suc, ◌+◌, ◌-◌, ◌*◌, ◌/◌, ◌%◌, ◌<◌, ◌≡◌, ◌↔◌, refl, ap, sym, ◌∙◌, Bool, true, false, [], ◌∷◌,
  Bytes, Option, none, some, arith, length, leb, Bool-cases, inl, inr, if◌then◌else◌, AllBytes,
  ◌>>=◌,
}
use jlu_drcom.Ctype.{is_xdigit}
use jlu_drcom.Config.Values.{
  skip_hex_prefix, hex_digits, collect_hex_digits, hex_value, scan_pairs, scanned, parse_mac_string,
}

-- The hexadecimal digits of a text.
pub only_xdigits : Bytes → Bytes
only_xdigits [] = []
only_xdigits (c ∷ cs) = let rest = only_xdigits cs in if is_xdigit c then c ∷ rest else rest

hex_digits-only_xdigits :
    (expected count : ℕ) (s : Bytes)
    → count + length (only_xdigits s) ≡ expected
    → hex_digits expected count s ≡ some (only_xdigits s)
unfolding hex_digits only_xdigits
hex_digits-only_xdigits expected count [] h = ground arith
hex_digits-only_xdigits expected count (c ∷ cs) h = elim (Bool-cases (is_xdigit c)) [
  | inl digit ↦
      let n : count + suc (length (only_xdigits cs)) ≡ expected = rw digit at h in
      rw (digit, hex_digits-only_xdigits expected (count + 1) cs (omega arith)) (ground arith)
  | inr other ↦ rw (other, hex_digits-only_xdigits expected count cs (rw other at h))
]

append_inv :
    (full : Bool) (o : Option Bytes) (c : ℕ) {digits : Bytes}
    → (if full then none else (o >>= λ ds. some (c ∷ ds))) ≡ some digits
    → (ds : Bytes) × (o ≡ some ds) × (digits ≡ c ∷ ds)
append_inv true o c h = cc
append_inv false none c h = cc
append_inv false (some ds) c h = (ds, refl, cc)

hex_digits_inv :
    (expected count : ℕ) (s : Bytes) {digits : Bytes}
    → hex_digits expected count s ≡ some digits
    → (digits ≡ only_xdigits s) × (count + length (only_xdigits s) ≡ expected)
unfolding hex_digits only_xdigits
hex_digits_inv expected count [] h = ground arith
hex_digits_inv expected count (c ∷ cs) h = elim (Bool-cases (is_xdigit c)) [
  | inl digit ↦
      let (ds, read, whole) =
        append_inv (leb expected count) (hex_digits expected (count + 1) cs) c (rw digit at h) in
      let (same, n) = hex_digits_inv expected (count + 1) cs read in
      rw digit (whole ∙ ap (◌∷◌ c) same, omega arith)
  | inr other ↦ rw other (hex_digits_inv expected count cs (rw other at h))
]

-- A value is accepted exactly when, behind a prefix `0x` or `0X`, it has the expected number of
-- hexadecimal digits, with whatever other bytes between them; the result is these digits.
pub collect_hex_digits_iff :
    (value : Bytes) (expected : ℕ) (digits : Bytes)
    → (collect_hex_digits value expected ≡ some digits)
      ↔ ((digits ≡ only_xdigits (skip_hex_prefix value)) × (length digits ≡ expected))
unfolding collect_hex_digits
collect_hex_digits_iff value expected digits = (
  λ h.
      let (same, n) = hex_digits_inv expected 0 (skip_hex_prefix value) h in
      (same, rw same (omega arith)),
  λ h.
      rw h.0
        (hex_digits-only_xdigits expected 0 (skip_hex_prefix value) (omega (arith, ap length h.0))),
)

-- A digit, of either case.
abbrev pub hex_digit : Bool → ℕ → ℕ
hex_digit upper n = if leb n 9 then b'0' + n else (if upper then b'A' + n - 10 else b'a' + n - 10)

hex_digit-is_xdigit : (upper : Bool) (n : ℕ) → n < 16 → is_xdigit (hex_digit upper n) ≡ true
unfolding is_xdigit
hex_digit-is_xdigit upper n h = ground arith

hex_value-hex_digit : (upper : Bool) (n : ℕ) → n < 16 → hex_value (hex_digit upper n) ≡ n
unfolding hex_value
hex_value-hex_digit upper n h = ground arith

-- The digits of some bytes.
unfoldable pub show_hex : Bool → Bytes → Bytes
show_hex upper [] = []
show_hex upper (b ∷ bs) = hex_digit upper (b / 16) ∷ hex_digit upper (b % 16) ∷ show_hex upper bs

-- The digits of some bytes, with `sep` between the bytes.
unfoldable pub show_hex_separated : Bool → ℕ → Bytes → Bytes
show_hex_separated upper sep [] = []
show_hex_separated upper sep (b ∷ []) = hex_digit upper (b / 16) ∷ hex_digit upper (b % 16) ∷ []
show_hex_separated upper sep (b ∷ c ∷ bs) =
    hex_digit upper (b / 16)
    ∷ hex_digit upper (b % 16)
    ∷ sep
    ∷ show_hex_separated upper sep (c ∷ bs)

pub scan_pairs-show_hex :
    (upper : Bool) (bs : Bytes) → AllBytes bs → scan_pairs (show_hex upper bs) ≡ bs
unfolding scan_pairs show_hex
scan_pairs-show_hex upper [] h = refl
scan_pairs-show_hex upper (b ∷ bs) h =
    let hi = hex_value-hex_digit upper (b / 16) (omega arith) in
    let lo = hex_value-hex_digit upper (b % 16) (omega arith) in
    let whole : b / 16 * 16 + b % 16 ≡ b = omega arith in
    rw (hi, lo, whole) (ap (◌∷◌ b) (scan_pairs-show_hex upper bs h.1))

length-show_hex : (upper : Bool) (bs : Bytes) → length (show_hex upper bs) ≡ 2 * length bs
unfolding show_hex
length-show_hex upper [] = refl
length-show_hex upper (b ∷ bs) = omega (arith, length-show_hex upper bs)

only_xdigits_byte :
    (upper : Bool) (b : ℕ) (rest : Bytes)
    → b < 256
    → only_xdigits (hex_digit upper (b / 16) ∷ hex_digit upper (b % 16) ∷ rest)
      ≡ hex_digit upper (b / 16) ∷ hex_digit upper (b % 16) ∷ only_xdigits rest
unfolding only_xdigits
only_xdigits_byte upper b rest h = rw (
  hex_digit-is_xdigit upper (b / 16) (omega arith),
  hex_digit-is_xdigit upper (b % 16) (omega arith),
)

only_xdigits_skip :
    (c : ℕ) (cs : Bytes) → is_xdigit c ≡ false → only_xdigits (c ∷ cs) ≡ only_xdigits cs
unfolding only_xdigits
only_xdigits_skip c cs h = rw h

module _ (upper : Bool) where
  only_xdigits-show_hex :
      (bs : Bytes) → AllBytes bs → only_xdigits (show_hex upper bs) ≡ show_hex upper bs
  unfolding show_hex
  only_xdigits-show_hex [] h = unfold only_xdigits in refl
  only_xdigits-show_hex (b ∷ bs) h =
      rw (only_xdigits_byte upper b (show_hex upper bs) h.0, only_xdigits-show_hex bs h.1)

  only_xdigits-show_hex_separated :
      (sep : ℕ) (bs : Bytes)
      → AllBytes bs
      → is_xdigit sep ≡ false
      → only_xdigits (show_hex_separated upper sep bs) ≡ show_hex upper bs
  unfolding show_hex show_hex_separated
  only_xdigits-show_hex_separated sep [] h s = unfold only_xdigits in refl
  only_xdigits-show_hex_separated sep (b ∷ []) h s =
      only_xdigits_byte upper b [] h.0 ∙ unfold only_xdigits in refl
  only_xdigits-show_hex_separated sep (b ∷ c ∷ bs) h s =
      only_xdigits_byte upper b (sep ∷ show_hex_separated upper sep (c ∷ bs)) h.0
      ∙ rw (
        only_xdigits_skip sep (show_hex_separated upper sep (c ∷ bs)) s,
        only_xdigits-show_hex_separated sep (c ∷ bs) h.1 s,
      )

-- Two bytes whose second is a digit are no prefix.
no_prefix :
    (a b : ℕ) (rest : Bytes) → is_xdigit b ≡ true → skip_hex_prefix (a ∷ b ∷ rest) ≡ a ∷ b ∷ rest
unfolding skip_hex_prefix is_xdigit
no_prefix a b rest h = ground arith

parse_mac_string_of :
    (value : Bytes) (upper : Bool) (mac : Bytes)
    → length mac ≡ 6
    → AllBytes mac
    → only_xdigits (skip_hex_prefix value) ≡ show_hex upper mac
    → parse_mac_string value ≡ some mac
unfolding parse_mac_string scanned
parse_mac_string_of value upper mac n all same =
    let size : length (show_hex upper mac) ≡ 12 = omega (arith, length-show_hex upper mac) in
    rw
      (
        (collect_hex_digits_iff value 12 (show_hex upper mac)).1 (sym same, size),
        scan_pairs-show_hex upper mac all,
      )
      (ground arith)

-- Six bytes, written as `B025...`, as `0xB025...` or as `B0:25:...` with any byte between them that
-- is no hexadecimal digit, the digits of either case, are read back as these bytes.
pub parse_mac_string-show_hex :
    (upper : Bool) (sep : ℕ) (mac : Bytes)
    → length mac ≡ 6
    → AllBytes mac
    → is_xdigit sep ≡ false
    → (parse_mac_string (show_hex upper mac) ≡ some mac)
      × (parse_mac_string (b'0' ∷ b'x' ∷ show_hex upper mac) ≡ some mac)
      × (parse_mac_string (show_hex_separated upper sep mac) ≡ some mac)
parse_mac_string-show_hex upper sep [] n all s = absurd (omega arith)
parse_mac_string-show_hex upper sep (b ∷ []) n all s = absurd (omega arith)
parse_mac_string-show_hex upper sep (b ∷ c ∷ bs) n all s =
    let lo = hex_digit-is_xdigit upper (b % 16) (omega arith) in
    let mac = b ∷ c ∷ bs in
    let plain : skip_hex_prefix (show_hex upper mac) ≡ show_hex upper mac =
      unfold show_hex in no_prefix (hex_digit upper (b / 16)) _ (show_hex upper (c ∷ bs)) lo in
    let prefixed : skip_hex_prefix (b'0' ∷ b'x' ∷ show_hex upper mac) ≡ show_hex upper mac =
      unfold skip_hex_prefix in refl in
    let separated : skip_hex_prefix (show_hex_separated upper sep mac)
        ≡ show_hex_separated upper sep mac =
      unfold show_hex_separated in
      no_prefix (hex_digit upper (b / 16)) _ (sep ∷ show_hex_separated upper sep (c ∷ bs)) lo in
    (
      parse_mac_string_of (show_hex upper mac) upper mac n all
          (ap only_xdigits plain ∙ only_xdigits-show_hex upper mac all),
      parse_mac_string_of (b'0' ∷ b'x' ∷ show_hex upper mac) upper mac n all
          (ap only_xdigits prefixed ∙ only_xdigits-show_hex upper mac all),
      parse_mac_string_of (show_hex_separated upper sep mac) upper mac n all
          (ap only_xdigits separated ∙ only_xdigits-show_hex_separated upper sep mac all s),
    )
