-- ===== src/Ethernet.antt =====
-- drcom/src/libs/common.c: the helpers beside `mac_equal` and `getall_ifs`.
pub mod ByteOrder
pub mod Files
pub mod Laws
use jlu_drcom.Base.{
  ℕ, zero, suc, ◌+◌, ◌%◌, ◌==◌, ◌&&◌, Bool, true, false, if◌then◌else◌, Bytes, [], ◌∷◌, ◌++◌,
  Option, none, some, take, get_or,
}
use jlu_drcom.Config.Values.Hex.{show_hex, show_hex_separated}

-- The loop of `ip_equal` from index `i` on, with `left` rounds to go.
unfoldable pub equal_from : ℕ → ℕ → Bytes → Bytes → Bool
equal_from zero i p1 p2 = true
equal_from (suc left) i p1 p2 =
    let later = equal_from left (i + 1) p1 p2 in
    if get_or p1 i 0 == get_or p2 i 0 then later else false

-- `AF_INET6`, a constant of the system, is the first argument.
unfoldable pub ip_equal : ℕ → ℕ → Bytes → Bytes → Bool
unfolding equal_from
ip_equal af_inet6 type ip1 ip2 = equal_from (if af_inet6 == type then 16 else 4) 0 ip1 ip2

-- `format_mac` of six bytes; `none` is NULL.
unfoldable pub format_mac : Option Bytes → Option Bytes
unfolding show_hex_separated
format_mac none = none
format_mac (some macarr) = some (show_hex_separated true b':' (take 6 macarr))

-- `format_data` from index `i` on: what is printed.
unfoldable pub format_from : ℕ → Bytes → Bytes
unfolding show_hex
format_from i [] = b'\n' ∷ []
format_from i (b ∷ d) =
    let later = show_hex false (b ∷ []) ++ (b' ' ∷ format_from (i + 1) d) in
    if i == 0 then later else if i % 16 == 0 then b'\n' ∷ later else later

unfoldable pub format_data : Bytes → ℕ → Bytes
unfolding format_from
format_data d len = format_from 0 (take len d)
