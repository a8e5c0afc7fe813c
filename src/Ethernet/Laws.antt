-- ===== src/Ethernet/Laws.antt =====
-- drcom/src/libs/common.c: what the helpers compute.
use jlu_drcom.Base.{
  ℕ, zero, suc, ◌+◌, ◌≡◌, ◌↔◌, refl, ◌==◌, true, false, if◌then◌else◌, Bytes, some, length, take,
  get_or, arith, AllBytes, Bool-cases, inl, inr, take_all,
}
use jlu_drcom.Ctype.{is_xdigit}
use jlu_drcom.Config.Values.{parse_mac_string}
use jlu_drcom.Config.Values.Hex.{parse_mac_string-show_hex}
use jlu_drcom.Ethernet.{equal_from, ip_equal, format_mac}

-- Two arrays agree at `n` places from `i` on.
abbrev pub Agree : ℕ → ℕ → Bytes → Bytes → Type 0
Agree zero i p q = Unit
Agree (suc n) i p q = (get_or p i 0 ≡ get_or q i 0) × Agree n (i + 1) p q

equal_from_iff : (n i : ℕ) (p q : Bytes) → (equal_from n i p q ≡ true) ↔ Agree n i p q
unfolding equal_from
equal_from_iff zero i p q = (λ h. tt, λ h. refl)
equal_from_iff (suc n) i p q =
    let later = equal_from_iff n (i + 1) p q in
    elim (Bool-cases (get_or p i 0 == get_or q i 0)) [
      | inl same ↦ rw same (λ h. (ground (arith, same), later.0 h), λ h. later.1 h.1)
      | inr differ ↦ rw differ (λ h. cc, λ h. absurd (let e = h.0 in ground (arith, differ, e)))
    ]

-- Two addresses are equal exactly when their four bytes agree, or sixteen for addresses of version 6.
pub ip_equal_iff :
    (af_inet6 type : ℕ) (ip1 ip2 : Bytes)
    → (ip_equal af_inet6 type ip1 ip2 ≡ true) ↔ Agree (if af_inet6 == type then 16 else 4) 0 ip1 ip2
unfolding ip_equal
ip_equal_iff af_inet6 type ip1 ip2 = equal_from_iff (if af_inet6 == type then 16 else 4) 0 ip1 ip2

colon_no_digit : is_xdigit b':' ≡ false
unfolding is_xdigit
colon_no_digit = refl

-- A MAC address that `format_mac` prints is read back by the parser of the configuration.
pub parse_mac_string-format_mac :
    (mac : Bytes)
    → length mac ≡ 6
    → AllBytes mac
    → (text : Bytes) × (format_mac (some mac) ≡ some text) × (parse_mac_string text ≡ some mac)
unfolding format_mac
parse_mac_string-format_mac mac n bytes =
    let whole : take 6 mac ≡ mac = take_all 6 mac (omega arith) in
    (_, rw whole, (parse_mac_string-show_hex true b':' mac n bytes colon_no_digit).2)
