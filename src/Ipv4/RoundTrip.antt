-- ===== src/Ipv4/RoundTrip.antt =====
-- drcom/src/configparse.h: `drcom_parse_ipv4_address` on the dotted notation of four bytes.
use jlu_drcom.Base.{ℕ, ◌<◌, ◌≡◌, refl, ◌∙◌, [], ◌∷◌, Bytes, some, arith}
use jlu_drcom.Ctype.{is_digit, strtoul, read_decimal}
use jlu_drcom.Ctype.Decimal.{
  show_decimal, StopsDigits, read_decimal-show_decimal, show_decimal-cons,
}
use jlu_drcom.Ipv4.{octet, parse_ipv4_address}
use jlu_drcom.Ipv4.Steps.{octets-last, octets-next, parse_ipv4_address-octets}

-- The dotted notation that a user writes.
pub show_ipv4 : ℕ → ℕ → ℕ → ℕ → Bytes
show_ipv4 a b c d =
    show_decimal a (b'.' ∷ show_decimal b (b'.' ∷ show_decimal c (b'.' ∷ show_decimal d [])))

octet-show_decimal :
    (n : ℕ) (rest : Bytes)
    → n < 256
    → StopsDigits rest
    → octet (show_decimal n rest) ≡ some (n, rest)
unfolding octet strtoul
octet-show_decimal n rest h stop =
    let (c, cs, e, digit) = show_decimal-cons n rest in
    let read : read_decimal 0 (c ∷ cs) ≡ (n, rest) =
      rw (← e) (read_decimal-show_decimal n rest stop) in
    rw e (rw (digit, read) (ground arith))

-- The dotted notation of any four numbers below 256 parses to just these numbers.
pub parse_ipv4_address-show_ipv4 :
    (a b c d : ℕ)
    → a < 256
    → b < 256
    → c < 256
    → d < 256
    → parse_ipv4_address (show_ipv4 a b c d) ≡ some (a ∷ b ∷ c ∷ d ∷ [])
unfolding show_ipv4 is_digit
parse_ipv4_address-show_ipv4 a b c d ha hb hc hd =
    parse_ipv4_address-octets (show_ipv4 a b c d)
    ∙ octets-next 2 _ (octet-show_decimal a _ ha refl) (
        octets-next 1 _ (octet-show_decimal b _ hb refl) (
          octets-next 0 _ (octet-show_decimal c _ hc refl)
            (octets-last _ (octet-show_decimal d [] hd tt))))
