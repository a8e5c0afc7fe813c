-- ===== src/Keepalive/Second/Layout.antt =====
-- drcom/src/keepalive.c: the layout of the packets of `keepalive_2`.
use jlu_drcom.Base.{
  ℕ, suc, ◌+◌, ◌%◌, ◌≤◌, ◌≡◌, ◌∙◌, refl, Bytes, List, [], ◌∷◌, ◌++◌, some, arith, length, slice,
  put, put_all, AllApart, slice-put_all_nth, length-put_all, zeros, equal, codes, take, drop,
}
use jlu_drcom.Config.{Config}
use jlu_drcom.Config.Reader.Bounds.{Fits}
use jlu_drcom.Packet.{Digests}
use jlu_drcom.Ipv4.{parse_ipv4_address}
use jlu_drcom.Ipv4.Grammar.{parse_ipv4_address-length}
use jlu_drcom.RetryPolicy.{ExtraKind, extra_none, extra_first, extra_periodic}
use jlu_drcom.Keepalive.Second.{
  keepalive_version, keepalive_2_base, keepalive_2_third, used_encrypt_type,
  keepalive_2_packetbuilder, keepalive_2_packet,
}

version_size :
    (config : Config) (kind : ExtraKind) → Fits config → length (keepalive_version config kind) ≡ 2
unfolding keepalive_version
version_size config extra_none fits = fits.keep_alive_version_size
version_size config extra_first fits = refl
version_size config extra_periodic fits = refl

put_all-append :
    (xs ys : List (ℕ × Bytes)) (buf : Bytes) → put_all (xs ++ ys) buf ≡ put_all ys (put_all xs buf)
unfolding put_all
put_all-append [] ys buf = refl
put_all-append ((at, src) ∷ xs) ys buf = put_all-append xs ys (put at src buf)

-- The layout of the packet of type 3 in mode `dhcp`.
pub record IsThirdPacket (config : Config) (c : ℕ) (kind : ExtraKind) (token host_ip packet : Bytes)
    : Type 0 where
  pub size : length packet ≡ 40
  pub code : slice 0 1 packet ≡ 0x07 ∷ []
  pub number : slice 1 1 packet ≡ (c % 255) ∷ []
  pub third : slice 5 1 packet ≡ 0x03 ∷ []
  pub version : slice 6 2 packet ≡ keepalive_version config kind
  pub echo : slice 16 4 packet ≡ token
  pub host : slice 28 4 packet ≡ host_ip

module _ (digests : Digests) (config : Config) (c encrypt_type : ℕ) (kind : ExtraKind)
    (token host_ip : Bytes) (fits : Fits config) (token_size : length token ≡ 4)
    (host : parse_ipv4_address config.host_ip ≡ some host_ip) where
  -- The stores one after the other, in one list.
  third_stores : List (ℕ × Bytes)
  third_stores =
      keepalive_2_base digests (codes "dhcp") config (c % 0xff) kind 3
      ++ ((28, host_ip) ∷ (16, token) ∷ [])

  third_only :
      keepalive_2_third digests
        (codes "dhcp")
        config
        (put_all (keepalive_2_base digests (codes "dhcp") config (c % 0xff) kind 3) (zeros 40))
        (used_encrypt_type digests (codes "dhcp") config encrypt_type)
      ≡ (28, host_ip) ∷ []
  unfolding keepalive_2_third equal
  third_only = rw (host)

  packet-stores :
      keepalive_2_packet digests (codes "dhcp") config c kind 3 encrypt_type ((16, token) ∷ [])
      ≡ put_all third_stores (zeros 40)
  unfolding keepalive_2_packet keepalive_2_packetbuilder third_stores
  packet-stores = rw (third_only, put_all-append) (unfold put_all in refl)

  field :
      (k at n : ℕ) (src : Bytes)
      → take 1 (drop k third_stores) ≡ (at, src) ∷ []
      → length src ≡ n
      → at + n ≤ 40
      → AllApart at n (drop (suc k) third_stores)
      → slice at n (put_all third_stores (zeros 40)) ≡ src
  field k at n src e size fits_in apart =
      slice-put_all_nth k third_stores (zeros 40) at n src e size fits_in apart

  -- In mode `dhcp`, with a host address that parses, the packet of type 3 has 40 bytes, its number is
  -- the counter modulo 255, and it carries the version, the four bytes of the server's token and the address.
  pub keepalive_2_packet-IsThirdPacket :
      IsThirdPacket config c kind token host_ip
        (keepalive_2_packet digests (codes "dhcp") config c kind 3 encrypt_type ((16, token) ∷ []))
  unfolding third_stores keepalive_2_base
  keepalive_2_packet-IsThirdPacket =
      let vs = version_size config kind fits in
      let hs = (parse_ipv4_address-length config.host_ip host_ip host).0 in
      rw packet-stores (record {
        size = length-put_all third_stores (zeros 40);
        code = field 0 0 1 _ refl refl (omega arith) (omega arith);
        number =
            field 1 1 1 _ refl refl (omega arith) (omega arith)
            ∙ (let small : c % 255 % 256 ≡ c % 255 = omega arith in rw small);
        third = field 4 5 1 _ refl refl (omega arith) (omega arith);
        version = field 5 6 2 _ refl vs (omega arith) (omega arith);
        echo = field 9 16 4 _ refl token_size (omega arith) tt;
        host = field 8 28 4 _ refl hs (omega arith) (omega arith);
      })
