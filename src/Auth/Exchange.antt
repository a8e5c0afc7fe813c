-- ===== src/Auth/Exchange.antt =====
-- drcom/src/auth.c: the challenge, login and logout exchanges of mode `dhcp`.
pub mod Laws
use jlu_drcom.Base.{
  ℕ, ◌==◌, ltb, leb, ◌&&◌, not, Bool, true, false, if◌then◌else◌, Bytes, [], ◌∷◌, ◌++◌, ℤ, pos,
  length, get_or, slice, zeros, Option, none, some, Status, success, failure,
}
use jlu_drcom.Config.{Config}
use jlu_drcom.Packet.{Digests, Build, built, rejected, fault}
use jlu_drcom.Packet.Login.{build_login_packet}
use jlu_drcom.Packet.Logout.{build_dhcp_logout_packet}
use jlu_drcom.RetryPolicy.{
  default_login_retry_delay_seconds, short_generic_retry_delay_seconds, retry_delay_for_login_reply,
}
use jlu_drcom.Auth.Delay.{extract_retry_after_seconds, set_login_retry_delay}
use jlu_drcom.Udp.{
  Address, World, Expected, expect_any, random_byte, send, recv_any, udp_recv_expected_packet,
  udp_send_recv_expected_with_retries,
}

-- `challenge_packet`; `kind` is 2 for a login and 3 for a logout.
unfoldable pub challenge_packet : Config → ℕ → ℕ → ℕ → Bytes
challenge_packet config kind r1 r2 =
    0x01 ∷ kind ∷ r1 ∷ r2 ∷ get_or config.auth_version 0 0 ∷ zeros 15

abbrev pub challenge_expected : ℕ → ℕ → ℕ → Expected
challenge_expected kind r1 r2 = record {
  first = some 0x02;
  alternate = none;
  second = some kind;
  third = some r1;
  fourth = some r2;
  sixth = none;
  minimum_length = 8;
}

-- What the two challenges share; `some` is the seed.
unfoldable pub challenge : Config → Address → ℕ → World → Option Bytes × World
unfolding challenge_packet
challenge config addr kind w =
    let (r1, w1) = random_byte w in
    let (r2, w2) = random_byte w1 in
    let (reply, w3) =
      udp_send_recv_expected_with_retries addr (challenge_packet config kind r1 r2)
        (challenge_expected kind r1 r2) w2 in
    elim reply [
      | none ↦ (none, w3)
      | some recv_packet ↦
          (if get_or recv_packet 0 0 == 0x02 then some (slice 4 4 recv_packet) else none, w3)
    ]

-- The seed, `login_retry_delay_seconds` and the world.
unfoldable pub dhcp_challenge : Config → Address → World → Option Bytes × ℤ × World
unfolding challenge
dhcp_challenge config addr w =
    let (seed, w1) = challenge config addr 0x02 w in
    (seed, pos default_login_retry_delay_seconds, w1)

unfoldable pub dhcp_logout_challenge : Config → Address → World → Option Bytes × World
unfolding challenge
dhcp_logout_challenge config addr w = challenge config addr 0x03 w

-- How a login ends: with the authentication data, with the return value 1, or in the undefined
-- behaviour of the builder.
pub data LoginResult : Type 0 where
  accepted : Bytes → LoginResult
  refused undefined : LoginResult

abbrev pub login_expected : Expected
login_expected = record expect_any { first = some 0x04; alternate = some 0x05; minimum_length = 1 }

-- The delay that a rejection asks for.
unfoldable pub rejection_delay : Bytes → ℤ
rejection_delay recv_packet =
    if leb (length recv_packet) 4
    then set_login_retry_delay (pos short_generic_retry_delay_seconds)
    else set_login_retry_delay (
        retry_delay_for_login_reply (get_or recv_packet 4 0) (pos (length recv_packet))
          (pos (extract_retry_after_seconds recv_packet)))

-- From the reply on.
unfoldable pub login_reply : Bytes → ℤ → World → LoginResult × ℤ × World
unfolding rejection_delay
login_reply recv_packet delay w =
    if get_or recv_packet 0 0 == 0x04 && ltb (length recv_packet) 39
    then (refused, delay, w)
    else if not (get_or recv_packet 0 0 == 0x04)
    then (refused, if get_or recv_packet 0 0 == 0x05 then rejection_delay recv_packet else delay, w)
    else (accepted (slice 23 16 recv_packet), delay, (recv_any w).1)

unfoldable pub dhcp_login :
    Digests → Config → Address → Bytes → Bool → ℤ → World → LoginResult × ℤ × World
unfolding login_reply
dhcp_login digests config addr seed try_jlu_version delay w =
    elim (build_login_packet digests config seed try_jlu_version) [
      | fault ↦ (undefined, delay, w)
      | rejected ↦ (refused, delay, w)
      | built login_packet ↦
          let (delivered, w1) = send login_packet w in
          let (reply, w2) = udp_recv_expected_packet addr login_expected w1 in
          elim reply [
            | none ↦ (refused, delay, w2)
            | some recv_packet ↦ login_reply recv_packet delay w2
          ]
    ]

-- `fault` is a write past the end of the packet.
unfoldable pub dhcp_logout :
    Digests → Config → Address → Bytes → Bytes → World → Build Status × World
dhcp_logout digests config addr seed auth_information w =
    elim (build_dhcp_logout_packet digests config seed auth_information) [
      | none ↦ (fault, w)
      | some logout_packet ↦
          let (reply, w1) =
            udp_send_recv_expected_with_retries addr logout_packet
              (record expect_any { first = some 0x04; minimum_length = 1 }) w in
          elim reply [
            | none ↦ (built failure, w1)
            | some recv_packet ↦
                (built (if get_or recv_packet 0 0 == 0x04 then success else failure), w1)
          ]
    ]

unfoldable pub logout_before_stop_exit : Digests → Config → Address → Bytes → World → Build World
unfolding dhcp_logout_challenge dhcp_logout
logout_before_stop_exit digests config addr auth_information w =
    let (logout_seed, w1) = dhcp_logout_challenge config addr w in
    elim logout_seed [
      | none ↦ built w1
      | some seed ↦
          let (status, w2) = dhcp_logout digests config addr seed auth_information w1 in
          elim status [ built s ↦ built w2 | _ ↦ fault ]
    ]
