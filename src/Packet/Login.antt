-- ===== src/Packet/Login.antt =====
-- drcom/src/auth.c: the packet that `dhcp_login` builds and sends. The array `checksum1` holds the
-- first eight bytes of a digest: `MD5` writes all sixteen there, and the eight behind the array's
-- end are not modelled.
pub mod Parts
mod Checksum
pub mod Mac
pub mod Scramble
pub mod Total
use jlu_drcom.Base.{
  ℕ, ◌+◌, ◌*◌, ◌%◌, Bool, true, false, ◌||◌, Bytes, List, [], ◌∷◌, ◌++◌, Option, none, some, length,
  take, zeros, writes, if◌then◌else◌,
}
use jlu_drcom.Config.{Config}
use jlu_drcom.Ipv4.{parse_ipv4_address}
use jlu_drcom.Packet.{Digests, Build, built, rejected, fault, ◌>>=◌, checked, required}
use jlu_drcom.Packet.Login.Parts.{
  mac_xor_md5a, scrambled_password, checksum2, md5a_of, md5b_of, service_pack, jlu_hostname,
}
use jlu_drcom.Packet.Size.{dhcp_login_packet_size, login_counter, ror_padding}

module _ (digests : Digests) (config : Config) (seed : Bytes) (try_jlu_version : Bool) where
  abbrev pub password_length : ℕ
  password_length = length config.password

  abbrev pub use_ror_version : Bool
  use_ror_version = config.ror_version || try_jlu_version

  abbrev pub packet_size : ℕ
  packet_size = dhcp_login_packet_size password_length config.ror_version try_jlu_version

  -- Up to `login_packet[80]`.
  unfoldable pub header_writes : List (ℕ × Bytes)
  header_writes =
      (0, 0x03 ∷ [])
      ∷ (1, 0x01 ∷ [])
      ∷ (2, 0x00 ∷ [])
      ∷ (3, ((length config.username + 20) % 256) ∷ [])
      ∷ (4, md5a_of digests config seed)
      ∷ (20, config.username)
      ∷ (56, config.control_check_status ∷ [])
      ∷ (57, config.adapter_num ∷ [])
      ∷ (58, mac_xor_md5a (md5a_of digests config seed) config.mac)
      ∷ (64, md5b_of digests config seed)
      ∷ (80, 0x01 ∷ [])
      ∷ []

  -- `checksum1`, of the packet so far.
  unfoldable pub checksum1 : Bytes → Bytes
  checksum1 packet = take 8 (digests.md5 (take 97 packet ++ 0x14 ∷ 0x00 ∷ 0x07 ∷ 0x0b ∷ []))

  -- Behind the address of the host.
  unfoldable pub host_writes : Bytes → List (ℕ × Bytes)
  host_writes packet =
      (97, checksum1 packet) ∷ (105, config.ip_dog ∷ []) ∷ (110, config.host_name) ∷ []

  -- The writes behind the addresses that depend on the template.
  unfoldable pub system_writes : List (ℕ × Bytes)
  system_writes =
      if try_jlu_version
      then (182, jlu_hostname)
        ∷ (246, service_pack)
        ∷ (162, 0x94 ∷ 0x00 ∷ 0x00 ∷ 0x00 ∷ [])
        ∷ (166, 0x06 ∷ 0x00 ∷ 0x00 ∷ 0x00 ∷ [])
        ∷ (170, 0x02 ∷ 0x00 ∷ 0x00 ∷ 0x00 ∷ [])
        ∷ (174, 0xf0 ∷ 0x23 ∷ 0x00 ∷ 0x00 ∷ [])
        ∷ (178, 0x02 ∷ 0x00 ∷ 0x00 ∷ 0x00 ∷ [])
        ∷ (310, config.auth_version)
        ∷ []
      else (162, 0x94 ∷ 0x00 ∷ 0x00 ∷ 0x00 ∷ [])
        ∷ (166, 0x05 ∷ 0x00 ∷ 0x00 ∷ 0x00 ∷ [])
        ∷ (170, 0x01 ∷ 0x00 ∷ 0x00 ∷ 0x00 ∷ [])
        ∷ (174, 0x28 ∷ 0x0a ∷ 0x00 ∷ 0x00 ∷ [])
        ∷ (178, 0x02 ∷ 0x00 ∷ 0x00 ∷ 0x00 ∷ [])
        ∷ (182, config.host_os)
        ∷ (310, config.auth_version)
        ∷ []

  -- The length and the scrambled bytes of the password, where the template has them.
  unfoldable pub ror_writes : Build (List (ℕ × Bytes))
  ror_writes =
      if use_ror_version
      then (do
        scrambled ← checked (scrambled_password (md5a_of digests config seed) config.password)
        built ((313, (password_length % 256) ∷ []) ∷ (314, scrambled) ∷ []))
      else built []

  abbrev pub counter : ℕ
  counter = login_counter password_length use_ror_version

  abbrev pub padding : ℕ
  padding = ror_padding password_length use_ror_version try_jlu_version

  unfoldable pub trailer_head : List (ℕ × Bytes)
  trailer_head = (counter, 0x02 ∷ []) ∷ (counter + 1, 0x0c ∷ []) ∷ []

  unfoldable pub trailer_writes : Bytes → List (ℕ × Bytes)
  trailer_writes sum =
      (counter + 2, sum)
      ∷ (counter + 8, config.mac)
      ∷ (counter + padding + 14, 0xe9 ∷ [])
      ∷ (counter + padding + 15, 0x13 ∷ [])
      ∷ (if try_jlu_version
          then (counter + padding + 14, 0x60 ∷ []) ∷ (counter + padding + 15, 0xa2 ∷ []) ∷ []
          else [])

  -- The packet, the error return for a bad address in the configuration, or a fault.
  unfoldable pub build_login_packet : Build Bytes
  build_login_packet = do
    headed ← checked (writes header_writes (zeros packet_size))
    host_ip ← required (parse_ipv4_address config.host_ip)
    hosted ← checked (writes ((81, host_ip) ∷ []) headed)
    named ← checked (writes (host_writes hosted) hosted)
    primary_dns ← required (parse_ipv4_address config.primary_dns)
    resolved ← checked (writes ((142, primary_dns) ∷ []) named)
    dhcp_server ← required (parse_ipv4_address config.dhcp_server)
    served ← checked (writes ((146, dhcp_server) ∷ []) resolved)
    described ← checked (writes system_writes served)
    password_writes ← ror_writes
    scrambled ← checked (writes password_writes described)
    marked ← checked (writes trailer_head scrambled)
    sum ← checked (checksum2 counter (take (counter + 2) marked) config.mac)
    checked (writes (trailer_writes sum) marked)
