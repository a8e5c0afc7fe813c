-- ===== src/Packet/Logout.antt =====
-- drcom/src/protocol.c: `drcom_build_dhcp_logout_packet`.
pub mod Laws
use jlu_drcom.Base.{
  ℕ, ◌+◌, ◌%◌, Bytes, List, [], ◌∷◌, ◌++◌, Option, none, some, length, take, zeros, put_all, memcpy,
  writes, xor_bytes,
}
use jlu_drcom.Config.{Config}
use jlu_drcom.Packet.{Digests}

abbrev pub dhcp_logout_packet_size : ℕ
dhcp_logout_packet_size = 80

-- `md5a`: the digest of the code, the seed and the password.
unfoldable pub logout_md5a : Digests → Config → Bytes → Bytes
logout_md5a digests config logout_seed =
    digests.md5 (0x06 ∷ 0x01 ∷ (logout_seed ++ config.password))

-- The writes into the packet, in their order. The loop over the six bytes of the MAC address is one
-- write of their exclusive or with the digest.
unfoldable pub logout_writes : Digests → Config → Bytes → Bytes → List (ℕ × Bytes)
unfolding logout_md5a
logout_writes digests config logout_seed auth_information =
    (0, 0x06 ∷ [])
    ∷ (1, 0x01 ∷ [])
    ∷ (2, 0x00 ∷ [])
    ∷ (3, ((length config.username + 20) % 256) ∷ [])
    ∷ (4, logout_md5a digests config logout_seed)
    ∷ (20, config.username)
    ∷ (56, config.control_check_status ∷ [])
    ∷ (57, config.adapter_num ∷ [])
    ∷ (58, xor_bytes (take 6 (logout_md5a digests config logout_seed)) config.mac)
    ∷ (64, auth_information)
    ∷ []

-- `none` is a write past the end of the packet.
unfoldable pub build_dhcp_logout_packet : Digests → Config → Bytes → Bytes → Option Bytes
unfolding logout_writes
build_dhcp_logout_packet digests config logout_seed auth_information =
    writes (logout_writes digests config logout_seed auth_information)
      (zeros dhcp_logout_packet_size)
