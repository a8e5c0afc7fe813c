-- ===== src/Keepalive.antt =====
-- drcom/src/keepalive.c: the checksum that both keepalive exchanges share. Their packets and
-- exchanges are in the children.
pub mod First
pub mod Second
use jlu_drcom.Base.{
  ℕ, zero, suc, ◌+◌, ◌%◌, Bytes, List, [], ◌∷◌, ◌++◌, Option, none, some, get_or, slice, zeros,
  put_all, equal, codes, ◌==◌, if◌then◌else◌, Status, success, failure,
}
use jlu_drcom.Config.{Config}
use jlu_drcom.Ipv4.{parse_ipv4_address}
use jlu_drcom.Packet.{Digests}
use jlu_drcom.RetryPolicy.{ExtraKind, extra_none, extra_first, extra_periodic}
use jlu_drcom.Udp.{
  Address, World, Expected, expect_any, udp_send_recv_expected_with_retries, random_byte,
}

-- The bytes of a digest at eight places.
abbrev pick : Bytes → ℕ → ℕ → ℕ → ℕ → ℕ → ℕ → ℕ → ℕ → Bytes
pick hash a b c d e f g h =
    get_or hash a 0
    ∷ get_or hash b 0
    ∷ get_or hash c 0
    ∷ get_or hash d 0
    ∷ get_or hash e 0
    ∷ get_or hash f 0
    ∷ get_or hash g 0
    ∷ get_or hash h 0
    ∷ []

-- The array `crc` that the callers clear before the call.
unfoldable pub gen_crc : Digests → Bytes → ℕ → Bytes
gen_crc digests seed encrypt_type =
    if encrypt_type == 0
    then 0xc7 ∷ 0x2f ∷ 0x31 ∷ 0x01 ∷ 0x7e ∷ 0x00 ∷ 0x00 ∷ 0x00 ∷ []
    else if encrypt_type == 1
    then pick (digests.md5 seed) 2 3 8 9 5 6 13 14
    else if encrypt_type == 2
    then pick (digests.md4 seed) 1 2 8 9 4 5 11 12
    else if encrypt_type == 3
    then pick (digests.sha1 seed) 2 3 9 10 5 6 15 16
    else zeros 8
