-- ===== src/Keepalive/First.antt =====
-- drcom/src/keepalive.c: `keepalive_1`, in its variant with a challenge and in the one without.
-- Stores into a packet are made by `put_all`.
pub mod Laws
pub mod Served
use jlu_drcom.Base.{
  ℕ, zero, suc, ◌+◌, ◌%◌, Bytes, List, [], ◌∷◌, ◌++◌, Option, none, some, get_or, slice, zeros,
  put_all, equal, codes, ◌==◌, if◌then◌else◌, Status, success, failure,
}
use jlu_drcom.Config.{Config}
use jlu_drcom.Ipv4.{parse_ipv4_address}
use jlu_drcom.Packet.{Digests}
use jlu_drcom.RetryPolicy.{ExtraKind, extra_none, extra_first, extra_periodic}
use jlu_drcom.Udp.{
  Address, World, Expected, expect_any, udp_send_recv_expected_with_retries, random_byte,
}
use jlu_drcom.Keepalive.{gen_crc}

-- The end of a round of one of the loops in `keepalive_1`.
pub data Round : Type 0 where
  answered : Bytes → Round
  again failed : Round

abbrev pub keepalive_1_expected : ℕ → Expected
keepalive_1_expected minimum_length = record expect_any {
  first = some 0x07;
  minimum_length = minimum_length;
}

unfoldable pub keepalive_1_round : Address → Bytes → ℕ → World → Round × World
keepalive_1_round addr packet minimum_length w =
    let (reply, w1) =
      udp_send_recv_expected_with_retries addr packet (keepalive_1_expected minimum_length) w in
    elim reply [
      | none ↦ (failed, w1)
      | some recv_packet ↦
          if get_or recv_packet 0 0 == 0x07
          then (answered recv_packet, w1)
          else if get_or recv_packet 0 0 == 0x4d
          then (again, w1)
          else (failed, w1)
    ]

-- The loop, with the rounds that are left; `none` is the return value 1, or too few rounds.
unfoldable pub keepalive_1_loop : ℕ → Address → Bytes → ℕ → World → Option Bytes × World
keepalive_1_loop zero addr packet minimum_length w = (none, w)
keepalive_1_loop (suc rounds) addr packet minimum_length w =
    let (round, w1) = keepalive_1_round addr packet minimum_length w in
    let more = keepalive_1_loop rounds addr packet minimum_length w1 in
    elim round [
      | answered recv_packet ↦ (some recv_packet, w1)
      | again ↦ more
      | failed ↦ (none, w1)
    ]

-- The rounds that each loop is given.
abbrev pub keepalive_1_rounds : ℕ
keepalive_1_rounds = 1

module _ (digests : Digests) (config : Config) where
  -- `keepalive_1_packet2`, with two random bytes at its end.
  unfoldable pub keepalive_1_response : Bytes → Bytes → ℕ → ℕ → Bytes
  keepalive_1_response keepalive1_seed auth_information r1 r2 =
      put_all
        ((0, 0xff ∷ [])
          ∷ (8, keepalive1_seed)
          ∷ (12, gen_crc digests keepalive1_seed (get_or keepalive1_seed 0 0 % 4))
          ∷ (20, auth_information)
          ∷ (36, r1 ∷ [])
          ∷ (37, r2 ∷ [])
          ∷ [])
        (zeros 38)

  -- `keepalive_1_packet` of the other variant.
  unfoldable pub keepalive_1_packet : Bytes → Bytes → ℕ → ℕ → Bytes
  keepalive_1_packet seed auth_information r1 r2 =
      put_all
        ((0, 0xff ∷ [])
          ∷ (1, digests.md5 (0x03 ∷ 0x01 ∷ (seed ++ config.password)))
          ∷ (20, auth_information)
          ∷ (36, r1 ∷ [])
          ∷ (37, r2 ∷ [])
          ∷ [])
        (zeros 42)

  -- The variant with a challenge.
  unfoldable pub keepalive_1_challenged : Address → Bytes → World → Status × World
  keepalive_1_challenged addr auth_information w =
      let (challenge, w1) =
        keepalive_1_loop keepalive_1_rounds addr
          (0x07 ∷ 0x01 ∷ 0x08 ∷ 0x00 ∷ 0x01 ∷ 0x00 ∷ 0x00 ∷ 0x00 ∷ []) 12 w in
      elim challenge [
        | none ↦ (failure, w1)
        | some recv_packet1 ↦
            let (r1, w2) = random_byte w1 in
            let (r2, w3) = random_byte w2 in
            let (reply, w4) =
              udp_send_recv_expected_with_retries addr
                (keepalive_1_response (slice 8 4 recv_packet1) auth_information r1 r2)
                (keepalive_1_expected 1) w3 in
            elim reply [
              | none ↦ (failure, w4)
              | some recv_packet2 ↦
                  (if get_or recv_packet2 0 0 == 0x07 then success else failure, w4)
            ]
      ]

  -- The variant with the seed of the login.
  unfoldable pub keepalive_1_direct : Address → Bytes → Bytes → World → Status × World
  keepalive_1_direct addr seed auth_information w =
      let (r1, w1) = random_byte w in
      let (r2, w2) = random_byte w1 in
      let (reply, w3) =
        keepalive_1_loop keepalive_1_rounds addr (keepalive_1_packet seed auth_information r1 r2) 1
          w2 in
      elim reply [ none ↦ (failure, w3) | some recv_packet ↦ (success, w3) ]

  unfoldable pub keepalive_1 : Address → Bytes → Bytes → World → Status × World
  unfolding keepalive_1_challenged keepalive_1_direct
  keepalive_1 addr seed auth_information w =
      if config.keepalive1_mod
      then keepalive_1_challenged addr auth_information w
      else keepalive_1_direct addr seed auth_information w
