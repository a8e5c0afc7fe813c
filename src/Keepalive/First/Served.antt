-- ===== src/Keepalive/First/Served.antt =====
-- drcom/src/keepalive.c: `keepalive_1` with a server that answers, whatever else arrives in between.
use jlu_drcom.Base.{
  ◌≡◌, refl, Bool, true, false, ℕ, Bytes, List, [], ◌∷◌, ◌==◌, some, get_or, slice, success, arith,
}
use jlu_drcom.Config.{Config}
use jlu_drcom.Keepalive.First.{
  keepalive_1, keepalive_1_challenged, keepalive_1_direct, keepalive_1_loop, keepalive_1_round,
  keepalive_1_expected, keepalive_1_packet, keepalive_1_response, answered,
}
use jlu_drcom.Packet.{Digests}
use jlu_drcom.Udp.{
  Address, Incoming, World, accepts, packet_matches_expected, expected_byte_matches, random_byte,
}
use jlu_drcom.Udp.Laws.{Delivery}
use jlu_drcom.Udp.Served.{Serving, random_byte-Serving, retries-Serving}

code_of_reply :
    (addr from : Address) (minimum_length : ℕ) (bytes : Bytes)
    → accepts addr (keepalive_1_expected minimum_length) from bytes ≡ true
    → (get_or bytes 0 0 == 0x07) ≡ true
unfolding accepts packet_matches_expected expected_byte_matches
code_of_reply addr from minimum_length bytes h = ground (arith, h)

module _ (addr : Address) {slept : List ℕ} {inbox rest : List Incoming} {bytes : Bytes} where
  round-Serving :
      (packet : Bytes) (minimum_length : ℕ) (w : World)
      → Serving inbox slept w
      → Delivery addr (keepalive_1_expected minimum_length) inbox bytes rest
      → let r = keepalive_1_round addr packet minimum_length w in
        (r.0 ≡ answered bytes) × Serving rest slept r.1
  unfolding keepalive_1_round
  round-Serving packet minimum_length w h d =
      let (reply, served) =
        retries-Serving addr packet (keepalive_1_expected minimum_length) w h d in
      let code = code_of_reply addr d.from minimum_length bytes d.accepted in
      rw (keepalive_1_round, reply, code) (refl, served)

  loop-Serving :
      (packet : Bytes) (minimum_length : ℕ) (w : World)
      → Serving inbox slept w
      → Delivery addr (keepalive_1_expected minimum_length) inbox bytes rest
      → let r = keepalive_1_loop 1 addr packet minimum_length w in
        (r.0 ≡ some bytes) × Serving rest slept r.1
  unfolding keepalive_1_loop
  loop-Serving packet minimum_length w h d =
      let (ends, served) = round-Serving packet minimum_length w h d in
      rw (keepalive_1_loop, ends) (refl, served)

-- The replies to `keepalive_1`, in its two variants.
pub data First (addr : Address) (inbox rest : List Incoming) : Bool → Type 0 where
  direct :
      {bytes : Bytes}
      → Delivery addr (keepalive_1_expected 1) inbox bytes rest
      → First addr inbox rest false
  challenged :
      {between : List Incoming} {bytes reply : Bytes}
      → Delivery addr (keepalive_1_expected 12) inbox bytes between
      → Delivery addr (keepalive_1_expected 1) between reply rest
      → First addr inbox rest true

module _ (digests : Digests) (config : Config) (addr : Address) {slept : List ℕ} where
  direct-Serving :
      {inbox rest : List Incoming} {bytes : Bytes} (seed auth_information : Bytes) (w : World)
      → Serving inbox slept w
      → Delivery addr (keepalive_1_expected 1) inbox bytes rest
      → let r = keepalive_1_direct digests config addr seed auth_information w in
        (r.0 ≡ success) × Serving rest slept r.1
  unfolding keepalive_1_direct
  direct-Serving seed auth_information w h d =
      let w2 = (random_byte (random_byte w).1).1 in
      let h2 = random_byte-Serving (random_byte w).1 (random_byte-Serving w h) in
      let (reply, served) =
        loop-Serving addr
          (keepalive_1_packet digests config seed auth_information (random_byte w).0
            (random_byte (random_byte w).1).0)
          1 w2 h2 d in
      rw (keepalive_1_direct, reply) (refl, served)

  challenged-Serving :
      {inbox between rest : List Incoming} {bytes answer : Bytes} (auth_information : Bytes)
      (w : World)
      → Serving inbox slept w
      → Delivery addr (keepalive_1_expected 12) inbox bytes between
      → Delivery addr (keepalive_1_expected 1) between answer rest
      → let r = keepalive_1_challenged digests config addr auth_information w in
        (r.0 ≡ success) × Serving rest slept r.1
  unfolding keepalive_1_challenged
  challenged-Serving {bytes = bytes} {answer = answer} auth_information w h d d2 =
      let packet : Bytes = 0x07 ∷ 0x01 ∷ 0x08 ∷ 0x00 ∷ 0x01 ∷ 0x00 ∷ 0x00 ∷ 0x00 ∷ [] in
      let (reply, h1) = loop-Serving addr packet 12 w h d in
      let w1 = (keepalive_1_loop 1 addr packet 12 w).1 in
      let h3 = random_byte-Serving (random_byte w1).1 (random_byte-Serving w1 h1) in
      let (reply2, h4) =
        retries-Serving addr
          (keepalive_1_response digests config (slice 8 4 bytes) auth_information (random_byte w1).0
            (random_byte (random_byte w1).1).0)
          (keepalive_1_expected 1) (random_byte (random_byte w1).1).1 h3 d2 in
      let code = code_of_reply addr d2.from 1 answer d2.accepted in
      rw (keepalive_1_challenged, reply, reply2, code) (refl, h4)

  pub keepalive_1-Serving :
      {inbox rest : List Incoming} (seed auth_information : Bytes) (w : World)
      (with_challenge : Bool)
      → config.keepalive1_mod ≡ with_challenge
      → Serving inbox slept w
      → First addr inbox rest with_challenge
      → let r = keepalive_1 digests config addr seed auth_information w in
        (r.0 ≡ success) × Serving rest slept r.1
  unfolding keepalive_1
  keepalive_1-Serving seed auth_information w false plain h (First.direct d) =
      let e : keepalive_1 digests config addr seed auth_information w
          ≡ keepalive_1_direct digests config addr seed auth_information w =
        simp plain in
      rw e (direct-Serving seed auth_information w h d)
  keepalive_1-Serving seed auth_information w true modified h (First.challenged d d2) =
      let e : keepalive_1 digests config addr seed auth_information w
          ≡ keepalive_1_challenged digests config addr auth_information w =
        simp modified in
      rw e (challenged-Serving auth_information w h d d2)
