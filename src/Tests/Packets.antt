-- ===== src/Tests/Packets.antt =====
-- Runs of Packet and of the packets of Keepalive.
use jlu_drcom.Base.{
  ◌+◌, ◌≤◌, ◌<◌, ◌⊎◌, ◌≡◌, refl, true, false, Bytes, [], ◌∷◌, some, length, take, codes, arith,
  replicate, xor_bytes,
}
use jlu_drcom.Ipv4.{parse_ipv4_address}
use jlu_drcom.Packet.{built, fault}
use jlu_drcom.Packet.Size.{
  dhcp_login_packet_size, login_counter, ror_padding, dhcp_login_packet_size_fits,
}
use jlu_drcom.Packet.Logout.{build_dhcp_logout_packet}
use jlu_drcom.Packet.Logout.Laws.{IsLogoutPacket, build_dhcp_logout_packet-IsLogoutPacket}
use jlu_drcom.Packet.Login.{build_login_packet}
use jlu_drcom.Packet.Login.Parts.{mac_xor_md5a, scrambled_password}
use jlu_drcom.Packet.Login.Mac.{mac_xor_md5a-xor_bytes}
use jlu_drcom.Packet.Login.Scramble.{scrambled_password-unscramble, unscramble}
use jlu_drcom.Packet.Login.Total.{build_login_packet-built, build_login_packet-fault}
use jlu_drcom.Keepalive.Second.{keepalive_2_packet}
use jlu_drcom.Keepalive.Second.Layout.{IsThirdPacket, keepalive_2_packet-IsThirdPacket}
use jlu_drcom.RetryPolicy.{extra_first}
use jlu_drcom.Tests.Data.{flat_digests, campus, campus-Fits, talkative, talkative-Fits}

abbrev seed : Bytes
seed = 0x52 ∷ 0x6c ∷ 0xe4 ∷ 0x00 ∷ []

abbrev info : Bytes
info = replicate 16 0x44

pub host_read : parse_ipv4_address (codes "49.140.1.2") ≡ some (49 ∷ 140 ∷ 1 ∷ 2 ∷ [])
unfolding parse_ipv4_address jlu_drcom.Ctype.is_digit jlu_drcom.Ctype.strtoul
    jlu_drcom.Ctype.read_decimal
host_read = refl

pub dns_read : parse_ipv4_address (codes "10.10.10.10") ≡ some (10 ∷ 10 ∷ 10 ∷ 10 ∷ [])
unfolding parse_ipv4_address jlu_drcom.Ctype.is_digit jlu_drcom.Ctype.strtoul
    jlu_drcom.Ctype.read_decimal
dns_read = refl

pub server_read : parse_ipv4_address (codes "0.0.0.0") ≡ some (0 ∷ 0 ∷ 0 ∷ 0 ∷ [])
unfolding parse_ipv4_address jlu_drcom.Ctype.is_digit jlu_drcom.Ctype.strtoul
    jlu_drcom.Ctype.read_decimal
server_read = refl

build_login_packet-built_example :
    (packet : Bytes) × (build_login_packet flat_digests campus seed true ≡ built packet)
    × (length packet ≡ dhcp_login_packet_size 6 true true)
build_login_packet-built_example =
    build_login_packet-built flat_digests campus seed true campus-Fits host_read dns_read
      server_read (λ ror. omega arith)

build_login_packet-fault_example : build_login_packet flat_digests talkative seed false ≡ fault
build_login_packet-fault_example =
    build_login_packet-fault flat_digests talkative seed false talkative-Fits host_read dns_read
      server_read refl (omega arith)

build_dhcp_logout_packet-IsLogoutPacket_example :
    (packet : Bytes) × (build_dhcp_logout_packet flat_digests campus seed info ≡ some packet)
    × IsLogoutPacket flat_digests campus seed info packet
build_dhcp_logout_packet-IsLogoutPacket_example =
    build_dhcp_logout_packet-IsLogoutPacket flat_digests campus seed info campus-Fits refl

dhcp_login_packet_size_fits_example :
    (login_counter 16 true + ror_padding 16 true true + 16 ≤ dhcp_login_packet_size 16 false true)
    × ((dhcp_login_packet_size 16 false true
          ≡ login_counter 16 true + ror_padding 16 true true + 16)
        ⊎ ((true ≡ true) × (8 < 16)))
dhcp_login_packet_size_fits_example = dhcp_login_packet_size_fits 16 false true

mac_xor_md5a-xor_bytes_example :
    mac_xor_md5a (replicate 16 0x5a) (0xb0 ∷ 0x25 ∷ 0xaa ∷ 0x85 ∷ 0x14 ∷ 0x9b ∷ [])
    ≡ xor_bytes (take 6 (replicate 16 0x5a)) (0xb0 ∷ 0x25 ∷ 0xaa ∷ 0x85 ∷ 0x14 ∷ 0x9b ∷ [])
mac_xor_md5a-xor_bytes_example =
    mac_xor_md5a-xor_bytes (replicate 16 0x5a) (0xb0 ∷ 0x25 ∷ 0xaa ∷ 0x85 ∷ 0x14 ∷ 0x9b ∷ [])
      (omega arith) refl (omega arith) (omega arith)

scrambled_password-unscramble_example :
    (s : Bytes) × (scrambled_password (replicate 16 0x5a) (codes "secret") ≡ some s)
    × (length s ≡ 6)
    × (unscramble (replicate 16 0x5a) s ≡ codes "secret")
scrambled_password-unscramble_example =
    scrambled_password-unscramble (replicate 16 0x5a) (codes "secret") (omega arith) (omega arith)
      (omega arith)

keepalive_2_packet-IsThirdPacket_example :
    IsThirdPacket campus 300 extra_first seed
      (49 ∷ 140 ∷ 1 ∷ 2 ∷ [])
      (keepalive_2_packet flat_digests (codes "dhcp") campus 300 extra_first 3 0 ((16, seed) ∷ []))
keepalive_2_packet-IsThirdPacket_example =
    keepalive_2_packet-IsThirdPacket flat_digests campus 300 0 extra_first seed
      (49 ∷ 140 ∷ 1 ∷ 2 ∷ []) campus-Fits refl host_read
