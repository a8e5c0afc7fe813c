-- ===== src/Auth/Dogcom/Laws.antt =====
-- drcom/src/auth.c: the attempts of `dogcom` when the server does not answer.
use jlu_drcom.Base.{
  ℕ, zero, suc, ◌+◌, ◌-◌, ◌<◌, ◌≡◌, ◌∙◌, refl, ap, true, false, List, ◌∷◌, ◌++◌, pos, none, arith,
  ltb, Bool-cases, inl, inr, replicate, ltb→lt,
}
use jlu_drcom.Config.{Config}
use jlu_drcom.Packet.{Digests, built}
use jlu_drcom.RetryPolicy.{normalize_login_retry_delay}
use jlu_drcom.Auth.Delay.{sleep_before_retry}
use jlu_drcom.Auth.Exchange.{challenge, challenge_packet, challenge_expected, dhcp_challenge}
use jlu_drcom.Auth.Dogcom.{Attempts, next, ended, attempt, dogcom_dhcp}
use jlu_drcom.Udp.{Address, World, poll_stop, random_byte}
use jlu_drcom.Udp.Silence.{
  Quiet, udp_send_recv-Quiet, udp_send_recv-slept, random_byte-Quiet, random_byte-slept,
  poll_stop-Quiet, poll_stop-slept,
}

-- A challenge that nobody answers.
challenge-Quiet :
    (config : Config) (addr : Address) (kind : ℕ) (w : World)
    → Quiet w
    → ((challenge config addr kind w).0 ≡ none)
      × Quiet (challenge config addr kind w).1
      × ((challenge config addr kind w).1.slept ≡ w.slept)
unfolding challenge
challenge-Quiet config addr kind w q =
    let (r1, w1) = random_byte w in
    let w2 = (random_byte (random_byte w).1).1 in
    let r2 = (random_byte (random_byte w).1).0 in
    let q2 = random_byte-Quiet (random_byte w).1 (random_byte-Quiet w q) in
    let (silent, q3) =
      udp_send_recv-Quiet addr (challenge_packet config kind (random_byte w).0 r2)
        (challenge_expected kind (random_byte w).0 r2) w2 q2 in
    let sleeps =
      udp_send_recv-slept addr (challenge_packet config kind (random_byte w).0 r2)
        (challenge_expected kind (random_byte w).0 r2) w2 q2 in
    rw (challenge, silent)
      (refl, q3, sleeps ∙ random_byte-slept (random_byte w).1 ∙ random_byte-slept w)

sleep-Quiet : (w : World) → Quiet w → Quiet (sleep_before_retry (pos 60) w)
unfolding sleep_before_retry normalize_login_retry_delay
sleep-Quiet w q = record {
  nothing_arrives = q.nothing_arrives;
  sending_works = q.sending_works;
  no_signal = q.no_signal;
  not_stopped = q.not_stopped;
}

sleep-slept : (w : World) → (sleep_before_retry (pos 60) w).slept ≡ 60 ∷ w.slept
unfolding sleep_before_retry normalize_login_retry_delay
sleep-slept w = refl

minute_more :
    (k : ℕ) (slept : List ℕ) → replicate k 60 ++ (60 ∷ slept) ≡ replicate (suc k) 60 ++ slept
minute_more zero slept = refl
minute_more (suc k) slept = rw (minute_more k slept)

module _ (digests : Digests) (config : Config) (addr : Address) (rounds : ℕ) where
  -- A silent attempt sleeps for a minute.
  attempt_silent :
      (s : Attempts)
      → Quiet s.outside
      → (t : Attempts) × (attempt digests config addr rounds s ≡ next t)
        × Quiet t.outside
        × (t.outside.slept ≡ 60 ∷ s.outside.slept)
  unfolding attempt dhcp_challenge normalize_login_retry_delay
  attempt_silent s q =
      let (running, q1) = poll_stop-Quiet s.outside q in
      let (silent, q2, slept2) = challenge-Quiet config addr 2 (poll_stop s.outside).1 q1 in
      let w2 = (challenge config addr 2 (poll_stop s.outside).1).1 in
      let (still_running, q3) = poll_stop-Quiet w2 q2 in
      (
        record s { retry_delay = pos 60; outside = sleep_before_retry (pos 60) (poll_stop w2).1 },
        rw (attempt, running, silent, still_running),
        sleep-Quiet (poll_stop w2).1 q3,
        sleep-slept (poll_stop w2).1
            ∙ ap (◌∷◌ 60) (poll_stop-slept w2 ∙ slept2 ∙ poll_stop-slept s.outside),
      )

  attempts_used :
      (left try_times c : ℕ) (s : Attempts)
      → ltb c try_times ≡ false
      → dogcom_dhcp digests config addr rounds (suc left) false try_times c s
        ≡ ended 1 (built s.outside)
  unfolding dogcom_dhcp
  attempts_used left try_times c s over = rw (dogcom_dhcp, over)

  attempts_next :
      (left try_times c : ℕ) (s t : Attempts)
      → ltb c try_times ≡ true
      → attempt digests config addr rounds s ≡ next t
      → dogcom_dhcp digests config addr rounds (suc left) false try_times c s
        ≡ dogcom_dhcp digests config addr rounds left false try_times (c + 1) t
  unfolding dogcom_dhcp
  attempts_next left try_times c s t under e = rw (dogcom_dhcp, under, e)

  -- When the server never answers, sending works and nobody stops the program, `dogcom` without the
  -- eternal flag makes the attempts that are left from `c` on, sleeps for 60 seconds behind each of
  -- them, and ends with 1; one round of the loop more than there are attempts is enough.
  pub dogcom_dhcp_silent :
      (left try_times c : ℕ) (s : Attempts)
      → Quiet s.outside
      → try_times - c < left
      → (w : World) × (dogcom_dhcp digests config addr rounds left false try_times c s
          ≡ ended 1 (built w))
        × (w.slept ≡ replicate (try_times - c) 60 ++ s.outside.slept)
  dogcom_dhcp_silent zero try_times c s q enough = absurd (omega arith)
  dogcom_dhcp_silent (suc left) try_times c s q enough = elim (Bool-cases (ltb c try_times)) [
    | inr over ↦
        let none_left : try_times - c ≡ 0 = ground arith in
        (s.outside, attempts_used left try_times c s over, rw none_left)
    | inl under ↦
        let (t, e, q1, slept1) = attempt_silent s q in
        let below = ltb→lt c try_times under in
        let (w, e1, slept2) = dogcom_dhcp_silent left try_times (c + 1) t q1 (omega arith) in
        let one_more : try_times - c ≡ suc (try_times - (c + 1)) = omega arith in
        (
          w,
          attempts_next left try_times c s t under e ∙ e1,
          rw (slept2, slept1, one_more) (minute_more (try_times - (c + 1)) s.outside.slept),
        )
  ]
