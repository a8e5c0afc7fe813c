-- ===== src/Ipv4/Grammar.antt =====
-- drcom/src/configparse.h: the texts that `drcom_parse_ipv4_address` accepts.
use mathlib.Core.List.{append-nil}
use jlu_drcom.Base.{
  ℕ, zero, suc, ◌≤◌, ◌≡◌, ◌≢◌, ◌↔◌, refl, ap, ◌∙◌, true, false, [], ◌∷◌, ◌++◌, Bytes, some, arith,
  length, AllBytes,
}
use jlu_drcom.Ctype.{is_digit, strtoul, read_decimal}
use jlu_drcom.Ctype.Decimal.{StopsDigits}
use jlu_drcom.Ctype.Digits.{
  AllDigits, value_from, Reading, read_decimal-Reading, read_decimal-append,
}
use jlu_drcom.Ipv4.{octet, octets, parse_ipv4_address}
use jlu_drcom.Ipv4.Steps.{
  octets-last, octets-next, octets-last_inv, octets-next_inv, parse_ipv4_address-octets,
}

-- One or more digits, leading zeros included, that stand for a number of at most 255.
pub record IsOctet (s : Bytes) (v : ℕ) : Type 0 where
  pub nonempty : s ≢ []
  pub digits : AllDigits s
  pub value : value_from 0 s ≡ v
  pub small : v ≤ 255

-- `left + 1` octets with dots between them.
pub data IsDotted : ℕ → Bytes → Bytes → Type 0 where
  last : {left v : ℕ} {s vs : Bytes} → left ≡ 0 → IsOctet s v → vs ≡ v ∷ [] → IsDotted left s vs
  next :
      {left before v : ℕ} {s o r us vs : Bytes}
      → left ≡ suc before
      → IsOctet o v
      → IsDotted before r us
      → s ≡ o ++ b'.' ∷ r
      → vs ≡ v ∷ us
      → IsDotted left s vs

octet_facts :
    (c : ℕ) (cs : Bytes) {v : ℕ} {end : Bytes}
    → octet (c ∷ cs) ≡ some (v, end)
    → (is_digit c ≡ true)
      × ((read_decimal 0 (c ∷ cs)).0 ≡ v)
      × (v ≤ 255)
      × ((read_decimal 0 (c ∷ cs)).1 ≡ end)
unfolding octet strtoul
octet_facts c cs h = ground arith

Reading-nonempty :
    (acc c : ℕ) (cs : Bytes) {v : ℕ} {end : Bytes}
    → is_digit c ≡ true
    → (r : Reading acc (c ∷ cs) v end) → r.digits ≢ []
Reading-nonempty acc c cs {v} {end} digit r none_read =
    not_both (end) (r.splits ∙ ap (λ (d : Bytes). d ++ end) none_read) r.stops
  where
    not_both : (e : Bytes) → c ∷ cs ≡ e → StopsDigits e → ⊥
    not_both [] e stop = cc
    not_both (x ∷ xs) e stop = ground arith

octet_inv :
    (s : Bytes) {v : ℕ} {end : Bytes}
    → octet s ≡ some (v, end)
    → (o : Bytes) × IsOctet o v × (s ≡ o ++ end) × StopsDigits end
octet_inv [] h = absurd (no_digit h)
  where
    no_digit : {v : ℕ} {end : Bytes} → octet [] ≡ some (v, end) → ⊥
    no_digit e = unfold octet in cc
octet_inv (c ∷ cs) {v} {end} h =
    let (digit, value, small, ends) = octet_facts c cs h in
    let r : Reading 0 (c ∷ cs) v end = rw (value, ends) at (read_decimal-Reading 0 (c ∷ cs)) in
    (
      r.digits,
      record {
        nonempty = Reading-nonempty 0 c cs digit r;
        digits = r.all;
        value = r.value;
        small = small;
      },
      r.splits,
      r.stops,
    )

octet-append :
    (o : Bytes) {v : ℕ} (end : Bytes)
    → IsOctet o v
    → StopsDigits end
    → octet (o ++ end) ≡ some (v, end)
unfolding octet strtoul
octet-append [] end h stop = absurd (h.nonempty refl)
octet-append (c ∷ cs) end h stop =
    let read = read_decimal-append 0 (c ∷ cs) end h.digits stop in
    rw (read, h.digits.0, h.value) (ground arith)

octets-IsDotted : (left : ℕ) (s vs : Bytes) → octets left s ≡ some vs → IsDotted left s vs
octets-IsDotted zero s vs h =
    let (v, read, values) = octets-last_inv s h in
    let (o, octet_ok, splits, _) = octet_inv s read in
    let whole : s ≡ o = splits ∙ append-nil o in last refl (rw (← whole) at octet_ok) values
octets-IsDotted (suc left) s vs h =
    let (v, r, us, read, others, values) = octets-next_inv left s h in
    let (o, octet_ok, splits, _) = octet_inv s read in
    next refl octet_ok (octets-IsDotted left r us others) splits values

IsDotted-octets : {left : ℕ} {s vs : Bytes} → IsDotted left s vs → octets left s ≡ some vs
IsDotted-octets {s} (last e o values) =
    rw (e, values) (octets-last s (rw append-nil at (octet-append _ [] o tt)))
IsDotted-octets (next {before = b} {o = o} {r = r} e ok rest splits values) =
    rw (e, splits, values)
      (octets-next b _ (octet-append o (b'.' ∷ r) ok dot) (IsDotted-octets rest))
  where
    dot : is_digit b'.' ≡ false
    dot = unfold is_digit in refl

-- A text is accepted as an IPv4 address with the bytes `vs` exactly when it is four runs of digits
-- with dots between them, each run (leading zeros allowed) standing for a number of at most 255,
-- and `vs` are these four numbers.
pub parse_ipv4_address-iff-IsDotted :
    (s vs : Bytes) → (parse_ipv4_address s ≡ some vs) ↔ IsDotted 3 s vs
parse_ipv4_address-iff-IsDotted s vs =
    rw (parse_ipv4_address-octets s) (octets-IsDotted 3 s vs, IsDotted-octets)

IsDotted-length :
    {left : ℕ} {s vs : Bytes} → IsDotted left s vs → (length vs ≡ suc left) × AllBytes vs
IsDotted-length (last e o values) = rw (e, values) (refl, (omega arith, tt))
IsDotted-length (next e o rest splits values) =
    let (n, small) = IsDotted-length rest in rw (e, values) (omega arith, (omega arith, small))

-- An accepted address has four bytes.
pub parse_ipv4_address-length :
    (s vs : Bytes) → parse_ipv4_address s ≡ some vs → (length vs ≡ 4) × AllBytes vs
parse_ipv4_address-length s vs h = IsDotted-length ((parse_ipv4_address-iff-IsDotted s vs).0 h)
