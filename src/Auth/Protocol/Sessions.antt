-- ===== src/Auth/Protocol/Sessions.antt =====
-- drcom/src/auth.c: the keepalive loop and the logout, in the protocol.
use jlu_drcom.Base.{
  ℕ, zero, suc, ◌≡◌, refl, pos, inl, inr, Bool, false, Bytes, some, slice, codes, Option-cases,
  Bool-cases, Status-cases,
}
use mathlib.Core.Path.{subst}
use jlu_drcom.Auth.Exchange.{challenge, dhcp_logout_challenge, dhcp_logout, logout_before_stop_exit}
use jlu_drcom.Auth.Protocol.{
  Phase, online, closing, leaving, dismissed, gone, MayEnd, MayIgnore, Dialogue, ignore, nap, close,
  leave, leave_again, be_dismissed, say_goodbye, repeat,
}
use jlu_drcom.Auth.Protocol.Online.{keepalive_1-Online, keepalive_2-Online}
use jlu_drcom.Auth.Protocol.Sending.{
  View, Hears, Holds, Holds-Heard, Holds-SameSent, Retried, udp_send_recv-Retried, Challenged,
  challenge-Challenged, poll_stop-SameSent,
}
use jlu_drcom.Auth.Session.{
  Session, Step, go_on, reconnect, stop, extra_kind, keepalive_failed, keepalive_exchanges,
  keepalive_round, keepalive_loop,
}
use jlu_drcom.Auth.Session.Stops.{Step-cases, Build-cases}
use jlu_drcom.Config.{Config}
use jlu_drcom.Keepalive.First.{keepalive_1}
use jlu_drcom.Keepalive.Second.{keepalive_2}
use jlu_drcom.Packet.{Digests, Build, built, rejected, fault}
use jlu_drcom.Packet.Logout.{build_dhcp_logout_packet}
use jlu_drcom.Auth.Delay.{set_login_retry_delay}
use jlu_drcom.RetryPolicy.{
  should_reconnect_after_keepalive_failure, next_keepalive_failure_count,
  normalize_login_retry_delay,
}
use jlu_drcom.Udp.{Address, Expected, expect_any, World, poll_stop}

module _ (digests : Digests) (config : Config) (addr : Address) (lossy : Bool) (start : World) where
  -- The packets sent lead to this phase.
  abbrev pub At : Phase → World → Type 0
  At p w = Holds lossy (Dialogue digests config addr lossy start p) w

  abbrev Reached : Phase → View
  Reached p = Dialogue digests config addr lossy start p

  pub ignores : (p : Phase) → MayIgnore p → Hears (Reached p)
  ignores p may sent inbox rest slept left d = ignore d may left

  abbrev pub AtEnd : World → Type 0
  AtEnd w = (p : Phase) × MayEnd p × At p w

  -- A world that is reached is one in which the client may end.
  abbrev pub EndsWell : Build World → Type 0
  EndsWell (built w) = AtEnd w
  EndsWell rejected = Unit
  EndsWell fault = Unit

  goodbye-AtEnd :
      (seed information : Bytes) (w : World)
      → At (dismissed information seed) w
      → AtEnd (dhcp_logout digests config addr seed information w).1
  unfolding dhcp_logout
  goodbye-AtEnd seed information w h =
      elim (Option-cases (build_dhcp_logout_packet digests config seed information)) [
        | inl overrun ↦ rw (dhcp_logout, overrun) (dismissed information seed, tt, h)
        | inr (packet, packed) ↦
            let e : Expected = record expect_any { first = some 0x04; minimum_length = 1 } in
            elim (udp_send_recv-Retried addr packet e w (ignores (gone packet) tt)
              (λ sent inbox slept d. say_goodbye d packed) (λ sent inbox slept d. repeat d) h) [
                | Retried.unsent silent may h1 ↦
                    rw (dhcp_logout, packed, silent) (dismissed information seed, tt, h1)
                | Retried.unanswered silent h1 ↦
                    rw (dhcp_logout, packed, silent) (gone packet, tt, h1)
                | Retried.replied heard ↦
                    let answer = heard.answer in
                    rw (dhcp_logout, packed, answer)
                      (gone packet, tt, Holds-Heard (ignores (gone packet) tt) heard)
              ]
      ]

  module _ (seed information : Bytes) where
    pub logout-EndsWell :
        (w : World)
        → At (online seed information) w
        → EndsWell (logout_before_stop_exit digests config addr information w)
    unfolding logout_before_stop_exit dhcp_logout_challenge
    logout-EndsWell w h =
        let asked = challenge config addr 3 w in
        elim (challenge-Challenged config addr 3 w (λ r1 r2. ignores (leaving information r1 r2) tt)
          (λ r1 r2 sent inbox slept d. leave r1 r2 d) (λ r1 r2 sent inbox slept d. leave_again d)
          h) [
            | Challenged.unsent silent may h1 ↦
                rw (logout_before_stop_exit, silent)
                  (closing information, tt, record { holds = close h1.holds may; sends = h1.sends })
            | Challenged.unanswered r1 r2 silent h1 ↦
                rw (logout_before_stop_exit, silent) (leaving information r1 r2, tt, h1)
            | Challenged.replied r1 r2 bytes inbox answer arrives d sends ↦
                let new = slice 4 4 bytes in
                let h2 : At (dismissed information new) asked.1 = record {
                  holds = be_dismissed bytes d arrives;
                  sends = sends;
                } in
                let done = goodbye-AtEnd new information asked.1 h2 in
                elim (Build-cases (dhcp_logout digests config addr new information asked.1).0) [
                  | inl (status, e) ↦ rw (logout_before_stop_exit, answer, e) done
                  | inr (inl bad) ↦ rw (logout_before_stop_exit, answer, bad) tt
                  | inr (inr bad) ↦ rw (logout_before_stop_exit, answer, bad) tt
                ]
          ]

    -- A round leaves the client online, for the next one or for a pause of a minute, or ends it well.
    unfoldable pub StaysOnline : Step → Type 0
    StaysOnline (go_on s) = At (online seed information) s.world
    StaysOnline (reconnect s) = At (online seed information) s.world × (s.delay ≡ pos 60)
    StaysOnline (stop end) = EndsWell end

    failed-StaysOnline :
        (s : Session) → At (online seed information) s.world → StaysOnline (keepalive_failed s)
    unfolding keepalive_failed StaysOnline set_login_retry_delay normalize_login_retry_delay
    failed-StaysOnline s h =
        elim (Bool-cases (
          should_reconnect_after_keepalive_failure
            (next_keepalive_failure_count s.keepalive_try_counter false))) [
              | inl given_up ↦ rw (keepalive_failed, given_up) (h, refl)
              | inr kept ↦ rw (keepalive_failed, kept) h
            ]

    exchanges-StaysOnline :
        (s : Session)
        → At (online seed information) s.world
        → StaysOnline (keepalive_exchanges digests config addr seed information s)
    unfolding keepalive_exchanges StaysOnline
    exchanges-StaysOnline s h =
        let one = keepalive_1 digests config addr seed information s.world in
        let h1 = keepalive_1-Online digests config addr lossy start seed information s.world h in
        let kind = extra_kind config s.keepalive_rounds in
        let two = keepalive_2 digests (codes "dhcp") config addr s.keepalive_counter kind 0 one.1 in
        let h2 =
          keepalive_2-Online digests config addr lossy start seed information s.keepalive_counter
            kind 0 one.1 h1 in
        elim (Status-cases one.0) [
          | inr lost ↦ rw (keepalive_exchanges, lost) (failed-StaysOnline _ h1)
          | inl first ↦ elim (Status-cases two.0) [
            | inr lost ↦ rw (keepalive_exchanges, first, lost) (failed-StaysOnline _ h2)
            | inl second ↦
                rw (keepalive_exchanges, first, second)
                  (record { holds = nap h2.holds; sends = h2.sends })
          ]
        ]

    round-StaysOnline :
        (s : Session)
        → At (online seed information) s.world
        → StaysOnline (keepalive_round digests config addr seed information s)
    unfolding keepalive_round StaysOnline
    round-StaysOnline s h =
        let h1 = Holds-SameSent (poll_stop-SameSent s.world) h in
        elim (Bool-cases (poll_stop s.world).0) [
          | inl stopping ↦ rw (keepalive_round, stopping) (logout-EndsWell (poll_stop s.world).1 h1)
          | inr running ↦ rw (keepalive_round, running) (exchanges-StaysOnline _ h1)
        ]

    pub keepalive_loop-StaysOnline :
        (left : ℕ) (s : Session)
        → At (online seed information) s.world
        → StaysOnline (keepalive_loop digests config addr left seed information s)
    unfolding keepalive_loop StaysOnline
    keepalive_loop-StaysOnline zero s h = h
    keepalive_loop-StaysOnline (suc left) s h =
        let one = round-StaysOnline s h in
        elim (Step-cases (keepalive_round digests config addr seed information s)) [
          | inl (t, e) ↦
              rw (keepalive_loop, e) (keepalive_loop-StaysOnline left t (subst StaysOnline e one))
          | inr (inl (t, e)) ↦ rw (keepalive_loop, e) (subst StaysOnline e one)
          | inr (inr (end, e)) ↦ rw (keepalive_loop, e) (subst StaysOnline e one)
        ]
