-- ===== src/Keepalive/Second.antt =====
-- drcom/src/keepalive.c: the 40-byte packets of `keepalive_2` and its exchanges.
-- Stores into a packet are made by `put_all`.
pub mod Counter
pub mod Layout
pub mod Served
use jlu_drcom.Base.{
  ℕ, zero, suc, ◌+◌, ◌%◌, Bytes, List, [], ◌∷◌, ◌++◌, Option, none, some, get_or, slice, zeros,
  put_all, equal, codes, ◌==◌, if◌then◌else◌, Status, success, failure,
}
use jlu_drcom.Config.{Config}
use jlu_drcom.Ipv4.{parse_ipv4_address}
use jlu_drcom.Packet.{Digests}
use jlu_drcom.RetryPolicy.{ExtraKind, extra_none, extra_first, extra_periodic}
use jlu_drcom.Udp.{
  Address, World, Expected, expect_any, udp_send_recv_expected_with_retries, random_byte,
}
use jlu_drcom.Keepalive.{gen_crc}

-- `DRCOM_KEEPALIVE_FIRST_VERSION`, or the configured version.
unfoldable pub keepalive_version : Config → ExtraKind → Bytes
keepalive_version config extra_none = config.keep_alive_version
keepalive_version config _ = 0x0f ∷ 0x27 ∷ []

-- What one exchange of `keepalive_2` waits for.
abbrev pub reply_to : ℕ → Option ℕ → Option ℕ → ℕ → Expected
reply_to packet_counter third sixth minimum_length = record {
  first = some 0x07;
  alternate = none;
  second = some packet_counter;
  third = third;
  fourth = none;
  sixth = sixth;
  minimum_length = minimum_length;
}

module _ (digests : Digests) (mode : Bytes) (config : Config) where
  -- The stores in front of the test of `type`.
  unfoldable pub keepalive_2_base : ℕ → ExtraKind → ℕ → List (ℕ × Bytes)
  unfolding keepalive_version
  keepalive_2_base keepalive_counter extra_packet_kind type =
      (0, 0x07 ∷ [])
      ∷ (1, (keepalive_counter % 256) ∷ [])
      ∷ (2, 0x28 ∷ [])
      ∷ (4, 0x0b ∷ [])
      ∷ (5, (type % 256) ∷ [])
      ∷ (6, keepalive_version config extra_packet_kind)
      ∷ (8, 0x2f ∷ [])
      ∷ (9, 0x12 ∷ [])
      ∷ []

  -- The stores for `type == 3`; an address that cannot be parsed ends the builder there.
  unfoldable pub keepalive_2_third : Bytes → ℕ → List (ℕ × Bytes)
  unfolding equal
  keepalive_2_third packet encrypt_type =
      if equal mode (codes "dhcp")
      then (elim (parse_ipv4_address config.host_ip) [
        | none ↦ []
        | some host_ip ↦ (28, host_ip) ∷ []
      ])
      else if equal mode (codes "pppoe")
      then (32, gen_crc digests (slice 0 4 packet) encrypt_type) ∷ []
      else []

  unfoldable pub keepalive_2_packetbuilder : Bytes → ℕ → ExtraKind → ℕ → ℕ → Bytes
  unfolding keepalive_2_base keepalive_2_third
  keepalive_2_packetbuilder packet keepalive_counter extra_packet_kind type encrypt_type =
      let based = put_all (keepalive_2_base keepalive_counter extra_packet_kind type) packet in
      if type == 3 then put_all (keepalive_2_third based encrypt_type) based else based

  -- `*encrypt_type` counts in mode `pppoe` only.
  abbrev pub used_encrypt_type : ℕ → ℕ
  used_encrypt_type encrypt_type = if equal mode (codes "pppoe") then encrypt_type else 0

  -- The packet number, type and tail of an exchange, on a cleared array.
  unfoldable pub keepalive_2_packet : ℕ → ExtraKind → ℕ → ℕ → List (ℕ × Bytes) → Bytes
  unfolding keepalive_2_packetbuilder
  keepalive_2_packet keepalive_counter extra_packet_kind type encrypt_type tail = put_all tail (
      keepalive_2_packetbuilder (zeros 40) (keepalive_counter % 0xff) extra_packet_kind type
        (used_encrypt_type encrypt_type))

  -- The first or periodic extra packet, where one is due.
  unfoldable pub keepalive_2_extra : Address → ℕ → ExtraKind → ℕ → World → Status × ℕ × World
  keepalive_2_extra addr keepalive_counter extra_none encrypt_type w =
      (success, keepalive_counter, w)
  keepalive_2_extra addr keepalive_counter extra_packet_kind encrypt_type w =
      let packet = keepalive_2_packet keepalive_counter extra_packet_kind 1 encrypt_type [] in
      let (reply, w1) =
        udp_send_recv_expected_with_retries addr packet
          (reply_to (keepalive_counter % 0xff) none none 3) w in
      let counter = keepalive_counter + 1 in
      elim reply [
        | none ↦ (failure, counter, w1)
        | some recv_packet ↦
            if get_or recv_packet 0 0 == 0x07
            then if get_or recv_packet 2 0 == 0x10
              then (success, counter, w1)
              else if get_or recv_packet 2 0 == 0x28
              then (success, counter, w1)
              else (failure, counter, w1)
            else (failure, counter, w1)
      ]

  -- One of the two exchanges behind it; `some` is the accepted reply.
  unfoldable pub keepalive_2_exchange :
      Address → ℕ → ℕ → ℕ → List (ℕ × Bytes) → ℕ → ℕ → World → Option Bytes × ℕ × World
  keepalive_2_exchange addr keepalive_counter type encrypt_type tail sixth minimum_length w =
      let packet = keepalive_2_packet keepalive_counter extra_none type encrypt_type tail in
      let (reply, w1) =
        udp_send_recv_expected_with_retries addr packet
          (reply_to (keepalive_counter % 0xff) (some 0x28) (some sixth) minimum_length) w in
      let counter = keepalive_counter + 1 in
      elim reply [
        | none ↦ (none, counter, w1)
        | some recv_packet ↦
            if get_or recv_packet 0 0 == 0x07
            then if get_or recv_packet 2 0 == 0x28
              then (some recv_packet, counter, w1)
              else (none, counter, w1)
            else (none, counter, w1)
      ]

  -- From the first packet on.
  unfoldable pub keepalive_2_pair : Address → ℕ → ℕ → World → Status × ℕ × World
  unfolding keepalive_2_exchange
  keepalive_2_pair addr keepalive_counter encrypt_type w =
      let (first, counter1, w1) =
        keepalive_2_exchange addr keepalive_counter 1 encrypt_type [] 0x02 20 w in
      elim first [
        | none ↦ (failure, counter1, w1)
        | some recv_packet ↦
            let (third, counter2, w2) =
              keepalive_2_exchange addr counter1 3 encrypt_type ((16, slice 16 4 recv_packet) ∷ [])
                0x04 6 w1 in
            elim third [ none ↦ (failure, counter2, w2) | some answer ↦ (success, counter2, w2) ]
      ]

  -- The result, the new `*keepalive_counter` and the world.
  unfoldable pub keepalive_2 : Address → ℕ → ExtraKind → ℕ → World → Status × ℕ × World
  unfolding keepalive_2_extra keepalive_2_pair
  keepalive_2 addr keepalive_counter extra_packet_kind encrypt_type w =
      let (status, counter, w1) =
        keepalive_2_extra addr keepalive_counter extra_packet_kind encrypt_type w in
      elim status [
        | failure ↦ (failure, counter, w1)
        | success ↦ keepalive_2_pair addr counter encrypt_type w1
      ]
