-- ===== src/Auth/Exchange/Laws.antt =====
-- drcom/src/auth.c: what the exchanges with the server leave.
use jlu_drcom.Base.{
  ℕ, ◌+◌, ◌≤◌, ◌≡◌, ◌∙◌, sym, ap, ap₂, List, inl, inr, ◌==◌, Bool, true, false, if◌then◌else◌,
  Bytes, ℤ, exceeds, length, get_or, slice, drop, none, some, Status, success, failure, arith,
  length-take, length-drop, Option-cases,
}
use jlu_drcom.Config.{Config}
use jlu_drcom.Config.Reader.Bounds.{Fits}
use jlu_drcom.Packet.{Digests, built}
use jlu_drcom.Packet.Login.{build_login_packet}
use jlu_drcom.Packet.Logout.Laws.{build_dhcp_logout_packet-IsLogoutPacket}
use jlu_drcom.RetryPolicy.{retry_delay_for_login_reply, normalize_login_retry_delay}
use jlu_drcom.Auth.Delay.{set_login_retry_delay}
use jlu_drcom.Auth.Delay.Laws.{extract_retry_after_seconds-le}
use jlu_drcom.Auth.Exchange.{
  accepted, refused, rejection_delay, login_reply, login_expected, dhcp_login, dhcp_logout,
  dhcp_logout_challenge, logout_before_stop_exit,
}
use mathlib.Core.Path.{subst}
use jlu_drcom.Udp.Silence.{send-inbox}
use jlu_drcom.Udp.Laws.{Delivery, recv-eq-some}
use jlu_drcom.Udp.{
  Address, Expected, Incoming, World, expect_any, accepts, packet_source_matches, send,
  udp_recv_expected_packet, udp_send_recv_expected_with_retries,
}

-- Whatever the reply to a login says, the delay that it asks for is more than 0 seconds and no more
-- than half an hour.
pub rejection_delay_bounds :
    (recv_packet : Bytes)
    → (exceeds (rejection_delay recv_packet) 0 ≡ true)
      × (exceeds (rejection_delay recv_packet) 1800 ≡ false)
unfolding rejection_delay set_login_retry_delay retry_delay_for_login_reply
    normalize_login_retry_delay
rejection_delay_bounds recv_packet = ground (arith, extract_retry_after_seconds-le recv_packet)

slice-length : (at n : ℕ) (s : Bytes) → at + n ≤ length s → length (slice at n s) ≡ n
slice-length at n s h = omega (arith, length-take n (drop at s), length-drop at s)

login_reply-accepted :
    (recv_packet info : Bytes) (delay : ℤ) (w : World)
    → (login_reply recv_packet delay w).0 ≡ accepted info
    → (get_or recv_packet 0 0 ≡ 0x04) × (39 ≤ length recv_packet) × (info ≡ slice 23 16 recv_packet)
unfolding login_reply
login_reply-accepted recv_packet info delay w h = ground arith

login_reply-size :
    (recv_packet info : Bytes) (delay : ℤ) (w : World)
    → (login_reply recv_packet delay w).0 ≡ accepted info
    → length info ≡ 16
login_reply-size recv_packet info delay w h =
    let (code, long, cut) = login_reply-accepted recv_packet info delay w h in
    rw cut (slice-length 23 16 recv_packet (omega arith))

from_server :
    (addr : Address) (e : Expected) (from : Address) (bytes : Bytes)
    → accepts addr e from bytes ≡ true
    → from ≡ addr
unfolding accepts packet_source_matches
from_server addr e from bytes h =
    let host : from.host ≡ addr.host = ground (arith, h) in
    let port : from.port ≡ addr.port = ground (arith, h) in
    ap₂ (λ host port. record { host = host; port = port }) host port

module _ (digests : Digests) (config : Config) (addr : Address) (seed : Bytes) (jlu : Bool)
    (delay : ℤ) (w : World) where
  login_sent : Bytes → World
  login_sent packet = (send packet w).1

  login_silent :
      (packet : Bytes)
      → build_login_packet digests config seed jlu ≡ built packet
      → (udp_recv_expected_packet addr login_expected (login_sent packet)).0 ≡ none
      → (dhcp_login digests config addr seed jlu delay w).0 ≡ refused
  unfolding dhcp_login login_sent
  login_silent packet e silent = rw (dhcp_login, e, silent)

  login_replied :
      (packet recv_packet : Bytes)
      → build_login_packet digests config seed jlu ≡ built packet
      → (udp_recv_expected_packet addr login_expected (login_sent packet)).0 ≡ some recv_packet
      → dhcp_login digests config addr seed jlu delay w
        ≡ login_reply recv_packet delay
            (udp_recv_expected_packet addr login_expected (login_sent packet)).1
  unfolding dhcp_login login_sent
  login_replied packet recv_packet e reply = rw (dhcp_login, e, reply)

  -- When the login packet can be built, a login is accepted only on the first datagram to arrive
  -- that comes from the address of the server and has the code 4 or 5 in front, with no timeout before
  -- it; its code is 4 and it has at least 39 bytes; the authentication data are its 16 bytes from
  -- index 23 on.
  pub dhcp_login-accepted :
      (packet info : Bytes)
      → build_login_packet digests config seed jlu ≡ built packet
      → (dhcp_login digests config addr seed jlu delay w).0 ≡ accepted info
      → (recv_packet : Bytes) × (rest : List Incoming) × (d : Delivery addr login_expected w.inbox
          recv_packet rest)
        × (d.from ≡ addr)
        × (get_or recv_packet 0 0 ≡ 0x04)
        × (39 ≤ length recv_packet)
        × (info ≡ slice 23 16 recv_packet)
        × (length info ≡ 16)
  dhcp_login-accepted packet info e h =
      elim (Option-cases (udp_recv_expected_packet addr login_expected (login_sent packet)).0) [
        | inl silent ↦ absurd (let n = login_silent packet e silent in cc)
        | inr (recv_packet, reply) ↦
            let k = login_replied packet recv_packet e reply in
            let h1 = sym (ap (λ r. r.0) k) ∙ h in
            let (code, long, cut) = login_reply-accepted recv_packet info delay _ h1 in
            let d = recv-eq-some addr login_expected (login_sent packet) reply in
            let same : (login_sent packet).inbox ≡ w.inbox =
              unfold login_sent in (send-inbox packet w) in
            let d1 =
              subst
                (λ l.
                  Delivery addr login_expected l recv_packet
                    (udp_recv_expected_packet addr login_expected (login_sent packet)).1.inbox)
                same d in
            (
              recv_packet,
              (udp_recv_expected_packet addr login_expected (login_sent packet)).1.inbox,
              d1,
              from_server addr login_expected d1.from recv_packet d1.accepted,
              code,
              long,
              cut,
              login_reply-size recv_packet info delay _ h1,
            )
      ]

module _ (digests : Digests) (config : Config) (addr : Address) (fits : Fits config) (info : Bytes)
    (size : length info ≡ 16) where
  dhcp_logout-built :
      (seed : Bytes) (w : World)
      → (s : Status) × ((dhcp_logout digests config addr seed info w).0 ≡ built s)
  unfolding dhcp_logout
  dhcp_logout-built seed w =
      let (packet, e, layout) =
        build_dhcp_logout_packet-IsLogoutPacket digests config seed info fits size in
      elim (Option-cases
        (udp_send_recv_expected_with_retries addr packet
          (record expect_any { first = some 0x04; minimum_length = 1 }) w).0) [
            | inl silent ↦ (failure, rw (dhcp_logout, e, silent))
            | inr (bytes, reply) ↦
                (if get_or bytes 0 0 == 0x04 then success else failure, rw (dhcp_logout, e, reply))
          ]

  -- With a configuration that fits its fields and 16 bytes of authentication data, the logout that a
  -- stop request causes is always carried out to its end, with no write out of bounds, whatever the
  -- server answers.
  pub logout_before_stop_exit-built :
      (w : World) → (w1 : World) × (logout_before_stop_exit digests config addr info w ≡ built w1)
  unfolding logout_before_stop_exit
  logout_before_stop_exit-built w = elim (Option-cases (dhcp_logout_challenge config addr w).0) [
    | inl silent ↦ ((dhcp_logout_challenge config addr w).1, rw (logout_before_stop_exit, silent))
    | inr (seed, reply) ↦
        let (s, e) = dhcp_logout-built seed (dhcp_logout_challenge config addr w).1 in
        (
          (dhcp_logout digests config addr seed info (dhcp_logout_challenge config addr w).1).1,
          rw (logout_before_stop_exit, reply, e),
        )
  ]
