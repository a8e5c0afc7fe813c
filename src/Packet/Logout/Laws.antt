-- ===== src/Packet/Logout/Laws.antt =====
-- drcom/src/protocol.c: the layout of the logout packet.
use jlu_drcom.Base.{
  ℕ, ◌+◌, ◌-◌, ◌%◌, ◌≤◌, ◌≡◌, ◌∙◌, refl, sym, suc, Bytes, [], ◌∷◌, ◌++◌, some, arith, length, take,
  drop, zeros, length-take, put_all, slice, AllFit, AllApart, writes-put_all, slice-put_all,
  slice-put_all_nth, slice-zeros, length-put_all, xor_bytes, length-xor_bytes,
}
use jlu_drcom.Config.{Config}
use jlu_drcom.Config.Reader.Bounds.{Fits}
use jlu_drcom.Packet.{Digests}
use jlu_drcom.Packet.Logout.{logout_md5a, logout_writes, build_dhcp_logout_packet}

-- The layout of the packet, of all its bytes.
pub record IsLogoutPacket (digests : Digests) (config : Config) (seed info packet : Bytes)
    : Type 0 where
  pub size : length packet ≡ 80
  pub code : slice 0 1 packet ≡ 0x06 ∷ []
  pub kind : slice 1 1 packet ≡ 0x01 ∷ []
  pub end : slice 2 1 packet ≡ 0x00 ∷ []
  pub user_length : slice 3 1 packet ≡ (length config.username + 20) ∷ []
  pub digest : slice 4 16 packet ≡ digests.md5 (0x06 ∷ 0x01 ∷ (seed ++ config.password))
  pub user : slice 20 (length config.username) packet ≡ config.username
  pub padding :
      slice (20 + length config.username) (36 - length config.username) packet
      ≡ zeros (36 - length config.username)
  pub status : slice 56 1 packet ≡ config.control_check_status ∷ []
  pub adapter : slice 57 1 packet ≡ config.adapter_num ∷ []
  pub mac :
      slice 58 6 packet
      ≡ xor_bytes (take 6 (digests.md5 (0x06 ∷ 0x01 ∷ (seed ++ config.password)))) config.mac
  pub auth : slice 64 16 packet ≡ info

module _ (digests : Digests) (config : Config) (seed info : Bytes) (fits : Fits config)
    (info_size : length info ≡ 16) where
  digest_size : length (logout_md5a digests config seed) ≡ 16
  unfolding logout_md5a
  digest_size = digests.md5_length _

  mac_size : length (xor_bytes (take 6 (logout_md5a digests config seed)) config.mac) ≡ 6
  mac_size =
      let n : length (take 6 (logout_md5a digests config seed)) ≡ 6 =
        omega (arith, length-take 6 (logout_md5a digests config seed), digest_size) in
      length-xor_bytes _ config.mac (n ∙ sym fits.mac_size) ∙ n

  logout_writes-AllFit : AllFit 80 (logout_writes digests config seed info)
  unfolding logout_writes
  logout_writes-AllFit = omega (arith, digest_size, mac_size, fits.username_fits, info_size)

  logout_packet : Bytes
  logout_packet = put_all (logout_writes digests config seed info) (zeros 80)

  -- A field that the write number `k` stores and that no later write touches.
  field :
      (k at n : ℕ) (src : Bytes)
      → take 1 (drop k (logout_writes digests config seed info)) ≡ (at, src) ∷ []
      → length src ≡ n
      → at + n ≤ 80
      → AllApart at n (drop (suc k) (logout_writes digests config seed info))
      → slice at n logout_packet ≡ src
  unfolding logout_packet
  field k at n src e size fits_in apart =
      slice-put_all_nth k _ (zeros 80) at n src e size fits_in apart

  logout_packet-IsLogoutPacket : IsLogoutPacket digests config seed info logout_packet
  unfolding logout_writes logout_md5a
  logout_packet-IsLogoutPacket =
      let md = digest_size in
      let mc = mac_size in
      let un = fits.username_fits in
      let small : (length config.username + 20) % 256 ≡ length config.username + 20 = omega arith in
      record {
        size = unfold logout_packet in length-put_all _ (zeros 80);
        code = field 0 0 1 _ refl refl (omega arith) (omega arith);
        kind = field 1 1 1 _ refl refl (omega arith) (omega arith);
        end = field 2 2 1 _ refl refl (omega arith) (omega arith);
        user_length = field 3 3 1 _ refl refl (omega arith) (omega arith) ∙ rw small;
        digest = field 4 4 16 _ refl md (omega arith) (omega arith);
        user = field 5 20 (length config.username) _ refl refl (omega arith) (omega arith);
        padding =
            unfold logout_packet in
            slice-put_all (20 + length config.username) (36 - length config.username) _ (zeros 80)
              (omega arith)
            ∙ slice-zeros (20 + length config.username) (36 - length config.username) 80
                (omega arith);
        status = field 6 56 1 _ refl refl (omega arith) (omega arith);
        adapter = field 7 57 1 _ refl refl (omega arith) (omega arith);
        mac = field 8 58 6 _ refl mc (omega arith) (omega arith);
        auth = field 9 64 16 _ refl info_size (omega arith) tt;
      }

  -- With a configuration that fits its fields and 16 bytes of authentication data the logout packet
  -- is built with no write out of bounds, and all its 80 bytes are those that the protocol wants: the
  -- fields, and zeros between the user name and the status.
  pub build_dhcp_logout_packet-IsLogoutPacket :
      (packet : Bytes) × (build_dhcp_logout_packet digests config seed info ≡ some packet)
      × IsLogoutPacket digests config seed info packet
  unfolding build_dhcp_logout_packet logout_packet
  build_dhcp_logout_packet-IsLogoutPacket = (
    logout_packet,
    writes-put_all _ (zeros 80) logout_writes-AllFit,
    logout_packet-IsLogoutPacket,
  )
