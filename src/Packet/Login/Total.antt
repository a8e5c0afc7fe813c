-- ===== src/Packet/Login/Total.antt =====
-- drcom/src/auth.c: how building the login packet in `dhcp_login` ends.
use jlu_drcom.Base.{
  ℕ, ◌+◌, ◌%◌, ◌≤◌, ◌<◌, ◌≡◌, ◌∙◌, refl, Bool, true, ◌||◌, Bytes, List, [], ◌∷◌, ◌++◌, some, arith,
  length, take, length-take, zeros, length-zeros, writes, put_all, writes-put_all, length-put_all,
  AllFit, Bool-cases, inl, inr,
}
use jlu_drcom.Config.{Config}
use jlu_drcom.Config.Reader.Bounds.{Fits}
use jlu_drcom.Ipv4.{parse_ipv4_address}
use jlu_drcom.Ipv4.Grammar.{parse_ipv4_address-length}
use jlu_drcom.Packet.{Digests, built, fault, ◌>>=◌, checked}
use jlu_drcom.Packet.Login
use jlu_drcom.Packet.Login.Checksum.{checksum2-total}
use jlu_drcom.Packet.Login.Parts.{mac_xor_md5a, pack, checksum2, md5a_of, md5b_of}
use jlu_drcom.Packet.Login.Scramble.{scrambled_password-total, scrambled_password-fault}
use jlu_drcom.Packet.Size.{
  dhcp_login_packet_size_fits, le-dhcp_login_packet_size, le-dhcp_login_packet_size_ror,
}

-- A row of writes that fit.
checked-writes-built :
    (n : ℕ) (ws : List (ℕ × Bytes)) (buf : Bytes)
    → length buf ≡ n
    → AllFit n ws
    → (b : Bytes) × (checked (writes ws buf) ≡ built b) × (length b ≡ n)
checked-writes-built n ws buf e fit =
    (put_all ws buf, rw (writes-put_all ws buf (rw e fit)), length-put_all ws buf ∙ e)

length-mac_xor_md5a : (md5a mac : Bytes) → length (mac_xor_md5a md5a mac) ≡ 6
unfolding mac_xor_md5a pack
length-mac_xor_md5a md5a mac = refl

module _ (digests : Digests) (config : Config) (seed : Bytes) (jlu : Bool)
    (fits : Fits config) where
  abbrev size : ℕ
  size = Login.packet_size digests config seed jlu

  md5a_size : length (md5a_of digests config seed) ≡ 16
  unfolding md5a_of
  md5a_size = digests.md5_length _

  md5b_size : length (md5b_of digests config seed) ≡ 16
  unfolding md5b_of
  md5b_size = digests.md5_length _

  size_large : 330 ≤ size
  size_large = le-dhcp_login_packet_size (length config.password) config.ror_version jlu

  header-AllFit : AllFit size (Login.header_writes digests config seed jlu)
  unfolding Login.header_writes
  header-AllFit = omega (
    arith,
    size_large,
    md5a_size,
    md5b_size,
    length-mac_xor_md5a (md5a_of digests config seed) config.mac,
    fits.username_fits,
  )

  host-AllFit : (packet : Bytes) → AllFit size (Login.host_writes digests config seed jlu packet)
  unfolding Login.host_writes Login.checksum1
  host-AllFit packet = omega (
    arith,
    size_large,
    length-take 8 (digests.md5 (take 97 packet ++ 0x14 ∷ 0x00 ∷ 0x07 ∷ 0x0b ∷ [])),
    fits.host_name_fits,
  )

  system-AllFit : AllFit size (Login.system_writes digests config seed jlu)
  unfolding Login.system_writes
  system-AllFit = elim (Bool-cases jlu) [
    | inl t ↦ rw t (omega (arith, rw t at size_large, fits.auth_version_size))
    | inr f ↦ rw f (omega (arith, rw f at size_large, fits.auth_version_size, fits.host_os_fits))
  ]

  trailer_room :
      Login.counter digests config seed jlu + Login.padding digests config seed jlu + 16 ≤ size
  trailer_room = (dhcp_login_packet_size_fits (length config.password) config.ror_version jlu).0

  trailer_head-AllFit : AllFit size (Login.trailer_head digests config seed jlu)
  unfolding Login.trailer_head
  trailer_head-AllFit = omega (arith, trailer_room)

  trailer-AllFit :
      (sum : Bytes)
      → length sum ≡ 4
      → AllFit size (Login.trailer_writes digests config seed jlu sum)
  unfolding Login.trailer_writes
  trailer-AllFit sum n = ground (arith, trailer_room, fits.mac_size)

  ror_built :
      (Login.use_ror_version digests config seed jlu ≡ true → length config.password ≤ 16)
      → (ws : List (ℕ × Bytes)) × (Login.ror_writes digests config seed jlu ≡ built ws)
        × AllFit size ws
  unfolding Login.ror_writes
  ror_built short = elim (Bool-cases (config.ror_version || jlu)) [
    | inr plain ↦ ([], rw plain, tt)
    | inl ror ↦
        let (s, e, n) =
          scrambled_password-total (md5a_of digests config seed) config.password
            (omega (arith, md5a_size, short ror)) in
        let room : 314 + length config.password + 16 ≤ size =
          le-dhcp_login_packet_size_ror (length config.password) config.ror_version jlu ror in
        (
          (313, (length config.password % 256) ∷ []) ∷ (314, s) ∷ [],
          rw (ror, e),
          (omega arith, (omega arith, tt)),
        )
  ]

  -- The faulting case: the digest runs out before the password does.
  ror_fault :
      Login.use_ror_version digests config seed jlu ≡ true
      → 16 < length config.password
      → Login.ror_writes digests config seed jlu ≡ fault
  unfolding Login.ror_writes
  ror_fault ror long = rw (
    ror,
    scrambled_password-fault (md5a_of digests config seed) config.password
        (omega (arith, md5a_size)),
  )

  module _ {host_ip primary_dns dhcp_server : Bytes}
      (host : parse_ipv4_address config.host_ip ≡ some host_ip)
      (dns : parse_ipv4_address config.primary_dns ≡ some primary_dns)
      (server : parse_ipv4_address config.dhcp_server ≡ some dhcp_server) where
    -- Up to the password, whatever the rest does.
    described_built :
        (described : Bytes) × (length described ≡ size)
        × (Login.build_login_packet digests config seed jlu ≡ (
            Login.ror_writes digests config seed jlu >>= λ password_writes.
            checked (writes password_writes described) >>= λ scrambled.
            checked (writes (Login.trailer_head digests config seed jlu) scrambled) >>= λ marked.
            checked (
              checksum2
                (Login.counter digests config seed jlu)
                (take (Login.counter digests config seed jlu + 2) marked)
                config.mac)
            >>= λ sum. checked (writes (Login.trailer_writes digests config seed jlu sum) marked)))
    unfolding Login.build_login_packet
    described_built =
        let zero_size : length (zeros size) ≡ size = length-zeros size in
        let four = (parse_ipv4_address-length config.host_ip host_ip host).0 in
        let four_dns = (parse_ipv4_address-length config.primary_dns primary_dns dns).0 in
        let four_server = (parse_ipv4_address-length config.dhcp_server dhcp_server server).0 in
        let (headed, e1, n1) = checked-writes-built size _ (zeros size) zero_size header-AllFit in
        let (hosted, e2, n2) =
          checked-writes-built size ((81, host_ip) ∷ []) headed n1 (omega (arith, size_large)) in
        let (named, e3, n3) = checked-writes-built size _ hosted n2 (host-AllFit hosted) in
        let (resolved, e4, n4) =
          checked-writes-built size ((142, primary_dns) ∷ []) named n3
            (omega (arith, size_large)) in
        let (served, e5, n5) =
          checked-writes-built size ((146, dhcp_server) ∷ []) resolved n4
            (omega (arith, size_large)) in
        let (described, e6, n6) = checked-writes-built size _ served n5 system-AllFit in
        (described, n6, rw (e1, host, e2, e3, dns, e4, server, e5, e6))

    -- With a configuration that fits its fields and three addresses that parse, the packet is built at
    -- its full size, with no write past the end of `login_packet` or `checksum2_str` and no read past the end of
    -- `MD5A`, if the password is no longer than the digest wherever it is scrambled. The write of a whole
    -- digest into the eight bytes of `checksum1` is taken to hit nothing else that is used.
    pub build_login_packet-built :
        (Login.use_ror_version digests config seed jlu ≡ true → length config.password ≤ 16)
        → (packet : Bytes) × (Login.build_login_packet digests config seed jlu ≡ built packet)
          × (length packet ≡ size)
    build_login_packet-built short =
        let (described, n1, e1) = described_built in
        let (ws, e2, fit) = ror_built short in
        let (scrambled, e3, n3) = checked-writes-built size ws described n1 fit in
        let (marked, e4, n4) = checked-writes-built size _ scrambled n3 trailer_head-AllFit in
        let (sum, e5, n5) =
          checksum2-total (Login.counter digests config seed jlu)
            (take (Login.counter digests config seed jlu + 2) marked) config.mac
            (omega (
              arith,
              length-take (Login.counter digests config seed jlu + 2) marked,
              n4,
              trailer_room,
            ))
            fits.mac_size in
        let (packet, e6, n6) = checked-writes-built size _ marked n4 (trailer-AllFit sum n5) in
        (packet, e1 ∙ rw (e2, e3, e4, e5, e6), n6)

    -- Where the password is scrambled, one of more than 16 bytes makes the builder read past the end of
    -- the digest, whatever the addresses and the other fields are, as long as they are well formed.
    pub build_login_packet-fault :
        Login.use_ror_version digests config seed jlu ≡ true
        → 16 < length config.password
        → Login.build_login_packet digests config seed jlu ≡ fault
    build_login_packet-fault ror long =
        let (described, n, e) = described_built in e ∙ rw (ror_fault ror long)
