-- ===== src/Auth/Session/Stops.antt =====
-- drcom/src/auth.c: the stop flag where the keepalive loop ends the program.
use mathlib.Core.Path.{subst}
use jlu_drcom.Base.{
  ℕ, zero, suc, ◌≡◌, ◌∙◌, refl, ◌⊎◌, inl, inr, true, false, Bytes, some, Status-cases, Bool-cases,
  Option-cases, codes,
}
use jlu_drcom.Auth.Exchange.{
  challenge, challenge_packet, challenge_expected, dhcp_logout_challenge, dhcp_logout,
  logout_before_stop_exit,
}
use jlu_drcom.Keepalive.First.{keepalive_1}
use jlu_drcom.Keepalive.Second.{keepalive_2}
use jlu_drcom.RetryPolicy.{should_reconnect_after_keepalive_failure, next_keepalive_failure_count}
use jlu_drcom.Auth.Session.{
  extra_kind, keepalive_failed, Session, Step, go_on, reconnect, stop, keepalive_round,
  keepalive_exchanges, keepalive_loop,
}
use jlu_drcom.Config.{Config}
use jlu_drcom.Packet.{Digests, Build, built, rejected, fault}
use jlu_drcom.Packet.Logout.{build_dhcp_logout_packet}
use jlu_drcom.Udp.{
  Expected, expect_any, Address, World, poll_stop, random_byte, udp_send_recv_expected_with_retries,
}
use jlu_drcom.Udp.Stop.{
  poll_stop-stop_requested, udp_send_recv-stop_requested, random_byte-stop_requested,
}

-- A world that is reached has the stop flag up.
abbrev pub Stopped : Build World → Type 0
Stopped (built w) = w.stop_requested ≡ true
Stopped rejected = Unit
Stopped fault = Unit

pub Build-cases :
    {A : Type 0} (b : Build A) → ((a : A) × (b ≡ built a)) ⊎ (b ≡ rejected) ⊎ (b ≡ fault)
Build-cases (built a) = inl (a, refl)
Build-cases rejected = inr (inl refl)
Build-cases fault = inr (inr refl)

challenge-stop_requested :
    (config : Config) (addr : Address) (kind : ℕ) (w : World)
    → (challenge config addr kind w).1.stop_requested ≡ w.stop_requested
unfolding challenge
challenge-stop_requested config addr kind w =
    let r1 = (random_byte w).0 in
    let w1 = (random_byte w).1 in
    let r2 = (random_byte w1).0 in
    let w2 = (random_byte w1).1 in
    let packet = challenge_packet config kind r1 r2 in
    let kept =
      udp_send_recv-stop_requested addr packet (challenge_expected kind r1 r2) w2
      ∙ random_byte-stop_requested w1
      ∙ random_byte-stop_requested w in
    elim (Option-cases
      (udp_send_recv_expected_with_retries addr packet (challenge_expected kind r1 r2) w2).0) [
        | inl silent ↦ rw (challenge, silent) kept
        | inr (bytes, answer) ↦ rw (challenge, answer) kept
      ]

pub Step-cases :
    (r : Step)
    → ((s : Session) × (r ≡ go_on s))
      ⊎ ((s : Session) × (r ≡ reconnect s))
      ⊎ ((end : Build World) × (r ≡ stop end))
Step-cases (go_on s) = inl (s, refl)
Step-cases (reconnect s) = inr (inl (s, refl))
Step-cases (stop end) = inr (inr (end, refl))

module _ (digests : Digests) (config : Config) (addr : Address) where
  dhcp_logout-stop_requested :
      (seed auth_information : Bytes) (w : World)
      → (dhcp_logout digests config addr seed auth_information w).1.stop_requested
        ≡ w.stop_requested
  unfolding dhcp_logout
  dhcp_logout-stop_requested seed auth_information w =
      elim (Option-cases (build_dhcp_logout_packet digests config seed auth_information)) [
        | inl lost ↦ rw (dhcp_logout, lost)
        | inr (packet, packed) ↦
            let expected : Expected = record expect_any { first = some 0x04; minimum_length = 1 } in
            let kept = udp_send_recv-stop_requested addr packet expected w in
            elim (Option-cases (udp_send_recv_expected_with_retries addr packet expected w).0) [
              | inl silent ↦ rw (dhcp_logout, packed, silent) kept
              | inr (bytes, answer) ↦ rw (dhcp_logout, packed, answer) kept
            ]
      ]

  pub logout-Stopped :
      (auth_information : Bytes) (w : World)
      → w.stop_requested ≡ true
      → Stopped (logout_before_stop_exit digests config addr auth_information w)
  unfolding logout_before_stop_exit dhcp_logout_challenge
  logout-Stopped auth_information w up =
      let asked = challenge-stop_requested config addr 3 w in
      let w1 = (challenge config addr 3 w).1 in
      elim (Option-cases (challenge config addr 3 w).0) [
        | inl silent ↦ rw (logout_before_stop_exit, silent) (asked ∙ up)
        | inr (seed, answer) ↦
            let left = dhcp_logout-stop_requested seed auth_information w1 in
            elim (Build-cases (dhcp_logout digests config addr seed auth_information w1).0) [
              | inl (status, done) ↦ rw (logout_before_stop_exit, answer, done) (left ∙ asked ∙ up)
              | inr (inl bad) ↦ rw (logout_before_stop_exit, answer, bad) tt
              | inr (inr bad) ↦ rw (logout_before_stop_exit, answer, bad) tt
            ]
      ]

  -- A round that ends the program has the stop flag up.
  unfoldable pub StopStep : Step → Type 0
  StopStep (go_on s) = Unit
  StopStep (reconnect s) = Unit
  StopStep (stop end) = Stopped end

  keepalive_failed-StopStep : (s : Session) → StopStep (keepalive_failed s)
  unfolding keepalive_failed StopStep
  keepalive_failed-StopStep s =
      elim (Bool-cases (
        should_reconnect_after_keepalive_failure
          (next_keepalive_failure_count s.keepalive_try_counter false))) [
            | inl given_up ↦ rw (keepalive_failed, given_up) tt
            | inr kept ↦ rw (keepalive_failed, kept) tt
          ]

  keepalive_exchanges-StopStep :
      (seed auth_information : Bytes) (s : Session)
      → StopStep (keepalive_exchanges digests config addr seed auth_information s)
  unfolding keepalive_exchanges StopStep
  keepalive_exchanges-StopStep seed auth_information s =
      let one = keepalive_1 digests config addr seed auth_information s.world in
      let two =
        keepalive_2 digests (codes "dhcp") config addr s.keepalive_counter
          (extra_kind config s.keepalive_rounds) 0 one.1 in
      elim (Status-cases one.0) [
        | inr failed ↦ rw (keepalive_exchanges, failed) (keepalive_failed-StopStep _)
        | inl first ↦ elim (Status-cases two.0) [
          | inr failed ↦ rw (keepalive_exchanges, first, failed) (keepalive_failed-StopStep _)
          | inl second ↦ rw (keepalive_exchanges, first, second) tt
        ]
      ]

  keepalive_round-StopStep :
      (seed auth_information : Bytes) (s : Session)
      → StopStep (keepalive_round digests config addr seed auth_information s)
  unfolding keepalive_round StopStep
  keepalive_round-StopStep seed auth_information s = elim (Bool-cases (poll_stop s.world).0) [
    | inl stopping ↦
        rw (keepalive_round, stopping)
          (logout-Stopped auth_information (poll_stop s.world).1
            (poll_stop-stop_requested s.world stopping))
    | inr running ↦
        rw (keepalive_round, running) (keepalive_exchanges-StopStep seed auth_information _)
  ]

  pub keepalive_loop-StopStep :
      (left : ℕ) (seed auth_information : Bytes) (s : Session)
      → StopStep (keepalive_loop digests config addr left seed auth_information s)
  unfolding keepalive_loop StopStep
  keepalive_loop-StopStep zero seed auth_information s = tt
  keepalive_loop-StopStep (suc left) seed auth_information s =
      let round = keepalive_round digests config addr seed auth_information s in
      let one = keepalive_round-StopStep seed auth_information s in
      elim (Step-cases round) [
        | inl (t, e) ↦ rw (keepalive_loop, e) (keepalive_loop-StopStep left seed auth_information t)
        | inr (inl (t, e)) ↦ rw (keepalive_loop, e) tt
        | inr (inr (end, e)) ↦ rw (keepalive_loop, e) (subst StopStep e one)
      ]
