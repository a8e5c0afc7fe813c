-- ===== src/Auth/Protocol/Runs.antt =====
-- drcom/src/auth.c: the attempts of `dogcom` in mode `dhcp`, in the protocol.
use jlu_drcom.Base.{
  ℕ, zero, suc, ◌≡◌, ◌⊎◌, refl, negsuc, none, some, Option, inl, inr, Bool, ltb, Bytes, pos, ℤ,
  slice, get_or, length, ◌==◌, Option-cases, Bool-cases, arith,
}
use mathlib.Core.Path.{subst}
use jlu_drcom.Auth.Delay.{sleep_before_retry}
use jlu_drcom.Auth.Dogcom.{
  Attempts, Decision, next, ended, unfinished, session, attempt, pause_or_stop, is_jlu, dogcom_dhcp,
}
use jlu_drcom.Auth.Dogcom.Exit.{LoginResult-cases, Decision-cases}
use jlu_drcom.Auth.Exchange.{
  LoginResult, accepted, refused, undefined, challenge, dhcp_challenge, dhcp_login, login_reply,
  login_expected, logout_before_stop_exit,
}
use jlu_drcom.Auth.Protocol.{
  Phase, idle, asking, MayGiveUp, challenged, greeting, online, Refuses, pause, lose, be_refused,
  ask, ask_again, be_challenged, greet, greet_in_vain, be_accepted, give_up,
}
use jlu_drcom.Auth.Protocol.Sending.{
  Holds-SameSent, Holds-heard, delivered, lost, send-Posted, recv_any-heard, Challenged,
  challenge-Challenged, poll_stop-SameSent,
}
use jlu_drcom.Auth.Protocol.Sessions.{
  At, EndsWell, StaysOnline, ignores, logout-EndsWell, keepalive_loop-StaysOnline,
}
use jlu_drcom.Auth.Session.{Session, keepalive_loop}
use jlu_drcom.Auth.Session.Stops.{Step-cases, Build-cases}
use jlu_drcom.Config.{Config}
use jlu_drcom.Packet.{Digests, Build, built}
use jlu_drcom.Packet.Login.{build_login_packet}
use jlu_drcom.RetryPolicy.{
  login_template_for_attempt, default_login_retry_delay_seconds, normalize_login_retry_delay,
}
use jlu_drcom.Udp.{Address, World, receive_from, poll_stop, send, udp_recv_expected_packet}
use jlu_drcom.Udp.Laws.{pair_of, recv-eq-some}

ℤ-cases : (z : ℤ) → ((n : ℕ) × (z ≡ pos n)) ⊎ ((n : ℕ) × (z ≡ negsuc n))
ℤ-cases (pos n) = inl (n, refl)
ℤ-cases (negsuc n) = inr (n, refl)

minute : (delay : ℤ) → delay ≡ pos 60 → normalize_login_retry_delay delay ≡ pos 60
unfolding normalize_login_retry_delay
minute delay e = rw e refl

module _ (digests : Digests) (config : Config) (addr : Address) (lossy : Bool) (start : World) where
  abbrev Here : Phase → World → Type 0
  Here p w = At digests config addr lossy start p w

  -- A pause of an idle client, and one behind a session that is given up.
  sleep-idle : (seconds : ℤ) (w : World) → Here idle w → Here idle (sleep_before_retry seconds w)
  unfolding sleep_before_retry
  sleep-idle seconds w h = elim (ℤ-cases (normalize_login_retry_delay seconds)) [
    | inl (n, e) ↦ rw (sleep_before_retry, e) (record { holds = pause n h.holds; sends = h.sends })
    | inr (n, e) ↦ rw (sleep_before_retry, e) h
  ]

  sleep-online :
      (seed information : Bytes) (seconds : ℤ) (w : World)
      → seconds ≡ pos 60
      → Here (online seed information) w
      → Here idle (sleep_before_retry seconds w)
  unfolding sleep_before_retry normalize_login_retry_delay
  sleep-online seed information seconds w sixty h =
      rw sixty (record { holds = lose h.holds; sends = h.sends })

  given_up : (p : Phase) (w : World) → MayGiveUp p → Here p w → Here idle w
  given_up p w may h = record { holds = give_up h.holds may; sends = h.sends }

  -- A login leaves the client online, or idle.
  LogsAs : Bytes → LoginResult → World → Type 0
  LogsAs seed (accepted information) w = Here (online seed information) w
  LogsAs seed refused w = Here idle w
  LogsAs seed undefined w = Unit

  abbrev LogsIn : Bytes → LoginResult × ℤ × World → Type 0
  LogsIn seed r = LogsAs seed r.0 r.2

  -- A reply that does not accept the login.
  refusal :
      (seed : Bytes) (reply : Option Bytes) (w : World)
      → (udp_recv_expected_packet addr login_expected w).0 ≡ reply
      → Refuses reply
      → Here (greeting seed) w
      → Here idle (udp_recv_expected_packet addr login_expected w).1
  unfolding udp_recv_expected_packet
  refusal seed reply w e refuses h = record {
    holds = be_refused reply h.holds (pair_of (receive_from addr login_expected w.inbox) e) refuses;
    sends = h.sends;
  }

  reply-LogsIn :
      (seed recv_packet : Bytes) (delay : ℤ) (w : World)
      → (udp_recv_expected_packet addr login_expected w).0 ≡ some recv_packet
      → Here (greeting seed) w
      → LogsIn seed
          (login_reply recv_packet delay (udp_recv_expected_packet addr login_expected w).1)
  unfolding login_reply LogsAs udp_recv_expected_packet
  reply-LogsIn seed recv_packet delay w answer h =
      let w1 = (udp_recv_expected_packet addr login_expected w).1 in
      elim (Bool-cases (get_or recv_packet 0 0 == 0x04)) [
        | inr other ↦
            rw (login_reply, other)
              (refusal seed (some recv_packet) w answer (λ code. ground (arith, code, other)) h)
        | inl code ↦ elim (Bool-cases (ltb (length recv_packet) 39)) [
          | inl short ↦
              rw (login_reply, code, short)
                (refusal seed (some recv_packet) w answer (λ four. ground (arith, short)) h)
          | inr long ↦
              let online_now : Here (online seed (slice 23 16 recv_packet)) w1 = record {
                holds =
                    unfold udp_recv_expected_packet in
                    be_accepted recv_packet h.holds (recv-eq-some addr login_expected w answer)
                      (ground (arith, code)) (ground (arith, long));
                sends = h.sends;
              } in
              rw (login_reply, code, long)
                (Holds-heard
                  (ignores digests config addr lossy start (online seed (slice 23 16 recv_packet))
                    tt)
                  (recv_any-heard w1) online_now)
        ]
      ]

  received-LogsIn :
      (seed : Bytes) (jlu : Bool) (delay : ℤ) (w : World) (packet : Bytes)
      → build_login_packet digests config seed jlu ≡ built packet
      → Here (greeting seed) (send packet w).1
      → LogsIn seed (dhcp_login digests config addr seed jlu delay w)
  unfolding dhcp_login LogsAs
  received-LogsIn seed jlu delay w packet packed h =
      let w1 = (send packet w).1 in
      elim (Option-cases (udp_recv_expected_packet addr login_expected w1).0) [
        | inl silent ↦ rw (dhcp_login, packed, silent) (refusal seed none w1 silent tt h)
        | inr (bytes, answer) ↦
            rw (dhcp_login, packed, answer) (reply-LogsIn seed bytes delay w1 answer h)
      ]

  dhcp_login-LogsIn :
      (seed : Bytes) (jlu : Bool) (delay : ℤ) (w : World)
      → Here (challenged seed) w
      → LogsIn seed (dhcp_login digests config addr seed jlu delay w)
  unfolding dhcp_login LogsAs
  dhcp_login-LogsIn seed jlu delay w h =
      elim (Build-cases (build_login_packet digests config seed jlu)) [
        | inr (inl bad) ↦ rw (dhcp_login, bad) (given_up (challenged seed) w tt h)
        | inr (inr bad) ↦ rw (dhcp_login, bad) tt
        | inl (packet, packed) ↦
            elim (send-Posted packet (λ sent inbox slept d. greet jlu packet d packed) w h) [
              | delivered went h1 ↦ received-LogsIn seed jlu delay w packet packed h1
              | lost failed may h1 ↦
                  received-LogsIn seed jlu delay w packet packed
                    (record { holds = greet_in_vain h1.holds may; sends = h1.sends })
            ]
      ]

  -- What an attempt leaves: an idle client for the next one, or an end that is allowed.
  abbrev pub Obeys : Decision → Type 0
  Obeys (next s) = Here idle s.outside
  Obeys (ended n end) = EndsWell digests config addr lossy start end
  Obeys (unfinished w) = (p : Phase) × Here p w

  pause-Obeys :
      (on_stop : World → Build World) (s : Attempts)
      → Here idle
          (sleep_before_retry (normalize_login_retry_delay s.retry_delay) (poll_stop s.outside).1)
      → EndsWell digests config addr lossy start (on_stop (poll_stop s.outside).1)
      → Obeys (pause_or_stop on_stop s)
  pause-Obeys on_stop s h stopped = elim (Bool-cases (poll_stop s.outside).0) [
    | inl stopping ↦ rw stopping stopped
    | inr running ↦ rw running (record { holds = h.holds; sends = h.sends })
  ]

  module _ (rounds : ℕ) where
    session-Obeys :
        (seed information : Bytes) (w : World)
        → Here (online seed information) w
        → Obeys (session digests config addr rounds seed information w)
    unfolding session StaysOnline
    session-Obeys seed information w h =
        let begun : Session = record {
          keepalive_counter = 0;
          keepalive_try_counter = pos 0;
          keepalive_rounds = 0;
          delay = pos default_login_retry_delay_seconds;
          world = w;
        } in
        let loop = keepalive_loop digests config addr rounds seed information begun in
        let all =
          keepalive_loop-StaysOnline digests config addr lossy start seed information rounds begun
            (record { holds = h.holds; sends = h.sends }) in
        let stays = StaysOnline digests config addr lossy start seed information in
        elim (Step-cases loop) [
          | inl (t, e) ↦ rw (session, e) (online seed information, subst stays e all)
          | inr (inl (t, e)) ↦
              let still = subst stays e all in
              let polled = Holds-SameSent (poll_stop-SameSent t.world) still.0 in
              rw (session, e)
                (pause-Obeys (logout_before_stop_exit digests config addr information) _
                  (sleep-online seed information (normalize_login_retry_delay t.delay) _
                    (minute t.delay still.1) polled)
                  (logout-EndsWell digests config addr lossy start seed information _ polled))
          | inr (inr (end, e)) ↦ rw (session, e) (subst stays e all)
        ]

    idle_pause : (s : Attempts) → Here idle s.outside → Obeys (pause_or_stop built s)
    idle_pause s h =
        let polled = Holds-SameSent (poll_stop-SameSent s.outside) h in
        pause-Obeys built s (sleep-idle (normalize_login_retry_delay s.retry_delay) _ polled)
          (idle, tt, polled)

    attempt-Obeys :
        (s : Attempts) → Here idle s.outside → Obeys (attempt digests config addr rounds s)
    unfolding attempt dhcp_challenge LogsAs
    attempt-Obeys s h =
        let w = (poll_stop s.outside).1 in
        let polled = Holds-SameSent (poll_stop-SameSent s.outside) h in
        let asked = challenge config addr 2 w in
        let first_delay = pos default_login_retry_delay_seconds in
        let template =
          is_jlu (login_template_for_attempt config.jlu_mode (pos s.login_failed_attempts)) in
        elim (Bool-cases (poll_stop s.outside).0) [
          | inl stopping ↦ rw (attempt, stopping) (idle, tt, polled)
          | inr running ↦
              elim (challenge-Challenged config addr 2 w
                (λ r1 r2. ignores digests config addr lossy start (asking r1 r2) tt)
                (λ r1 r2 sent inbox slept d. ask r1 r2 d) (λ r1 r2 sent inbox slept d. ask_again d)
                polled) [
                  | Challenged.unsent silent may h1 ↦
                      rw (attempt, running, silent) (idle_pause _ h1)
                  | Challenged.unanswered r1 r2 silent h1 ↦
                      rw (attempt, running, silent) (idle_pause _ (given_up (asking r1 r2) _ tt h1))
                  | Challenged.replied r1 r2 bytes inbox answer arrives d sends ↦
                      let seed = slice 4 4 bytes in
                      let h2 : Here (challenged seed) asked.1 = record {
                        holds = be_challenged bytes d arrives;
                        sends = sends;
                      } in
                      let login =
                        dhcp_login digests config addr seed template first_delay asked.1 in
                      let goes = dhcp_login-LogsIn seed template first_delay asked.1 h2 in
                      elim (LoginResult-cases login.0) [
                        | inl (information, e) ↦
                            rw (attempt, running, answer, e)
                              (session-Obeys seed information login.2
                                (subst (λ x. LogsAs seed x login.2) e goes))
                        | inr (inl e) ↦
                            rw (attempt, running, answer, e)
                              (idle_pause _ (subst (λ x. LogsAs seed x login.2) e goes))
                        | inr (inr e) ↦ rw (attempt, running, answer, e) tt
                      ]
                ]
        ]

    pub dogcom_dhcp-Obeys :
        (left : ℕ) (eternal_flag : Bool) (try_times c : ℕ) (s : Attempts)
        → Here idle s.outside
        → Obeys (dogcom_dhcp digests config addr rounds left eternal_flag try_times c s)
    unfolding dogcom_dhcp
    dogcom_dhcp-Obeys zero eternal_flag try_times c s h = (idle, h)
    dogcom_dhcp-Obeys (suc left) eternal_flag try_times c s h =
        let one = attempt-Obeys s h in
        elim (Bool-cases (ltb c try_times)) [
          | inr over ↦ rw (dogcom_dhcp, over) (idle, tt, h)
          | inl under ↦ elim (Decision-cases (attempt digests config addr rounds s)) [
            | inl (t, e) ↦
                rw (dogcom_dhcp, under, e)
                  (dogcom_dhcp-Obeys left eternal_flag try_times _ t (subst Obeys e one))
            | inr (inl (result, w, e)) ↦ rw (dogcom_dhcp, under, e) (subst Obeys e one)
            | inr (inr (w, e)) ↦ rw (dogcom_dhcp, under, e) (subst Obeys e one)
          ]
        ]
