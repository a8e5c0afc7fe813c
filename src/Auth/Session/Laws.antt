-- ===== src/Auth/Session/Laws.antt =====
-- drcom/src/auth.c: the keepalive loop when the server falls silent.
use jlu_drcom.Base.{
  ℕ, zero, suc, ◌+◌, ◌≤◌, ◌<◌, ◌≡◌, ◌∙◌, refl, ap, true, false, Bytes, [], ◌∷◌, pos, none, arith,
  Bool-cases, leb, leb→le, inl, inr, failure,
}
use jlu_drcom.Config.{Config}
use jlu_drcom.Packet.{Digests}
use jlu_drcom.RetryPolicy.{
  next_keepalive_failure_count, should_reconnect_after_keepalive_failure,
  default_login_retry_delay_seconds, normalize_login_retry_delay,
}
use jlu_drcom.Auth.Delay.{set_login_retry_delay}
use jlu_drcom.Auth.Session.{
  Session, go_on, reconnect, keepalive_failed, keepalive_exchanges, keepalive_round, keepalive_loop,
}
use jlu_drcom.Keepalive.First.{
  keepalive_1, keepalive_1_challenged, keepalive_1_direct, keepalive_1_loop, keepalive_1_round,
  keepalive_1_packet, keepalive_1_expected, failed,
}
use jlu_drcom.Keepalive.First.Laws.{round_silent, loop_failed}
use jlu_drcom.Udp.{Address, World, poll_stop, random_byte}
use jlu_drcom.Udp.Silence.{Quiet, udp_send_recv-Quiet, random_byte-Quiet, poll_stop-Quiet}

round-Quiet :
    (addr : Address) (packet : Bytes) (m : ℕ) (w : World)
    → Quiet w
    → ((keepalive_1_round addr packet m w).0 ≡ failed) × Quiet (keepalive_1_round addr packet m w).1
unfolding keepalive_1_round
round-Quiet addr packet m w q =
    let (silent, q1) = udp_send_recv-Quiet addr packet (keepalive_1_expected m) w q in
    (round_silent addr packet m w silent, rw (keepalive_1_round, silent) q1)

loop-Quiet :
    (addr : Address) (packet : Bytes) (m : ℕ) (w : World)
    → Quiet w
    → ((keepalive_1_loop 1 addr packet m w).0 ≡ none) × Quiet (keepalive_1_loop 1 addr packet m w).1
loop-Quiet addr packet m w q =
    let (ends, q1) = round-Quiet addr packet m w q in
    rw (loop_failed addr packet m w 0 ends) (refl, q1)

module _ (digests : Digests) (config : Config) (addr : Address) (seed info : Bytes) where
  challenged-Quiet :
      (w : World)
      → Quiet w
      → ((keepalive_1_challenged digests config addr info w).0 ≡ failure)
        × Quiet (keepalive_1_challenged digests config addr info w).1
  unfolding keepalive_1_challenged
  challenged-Quiet w q =
      let (silent, q1) =
        loop-Quiet addr (0x07 ∷ 0x01 ∷ 0x08 ∷ 0x00 ∷ 0x01 ∷ 0x00 ∷ 0x00 ∷ 0x00 ∷ []) 12 w q in
      rw (keepalive_1_challenged, silent) (refl, q1)

  direct-Quiet :
      (w : World)
      → Quiet w
      → ((keepalive_1_direct digests config addr seed info w).0 ≡ failure)
        × Quiet (keepalive_1_direct digests config addr seed info w).1
  unfolding keepalive_1_direct
  direct-Quiet w q =
      let q2 = random_byte-Quiet (random_byte w).1 (random_byte-Quiet w q) in
      let (silent, q3) =
        loop-Quiet addr
          (keepalive_1_packet digests config seed info (random_byte w).0
            (random_byte (random_byte w).1).0)
          1 (random_byte (random_byte w).1).1 q2 in
      rw (keepalive_1_direct, silent) (refl, q3)

  keepalive_1-Quiet :
      (w : World)
      → Quiet w
      → ((keepalive_1 digests config addr seed info w).0 ≡ failure)
        × Quiet (keepalive_1 digests config addr seed info w).1
  unfolding keepalive_1
  keepalive_1-Quiet w q = elim (Bool-cases config.keepalive1_mod) [
    | inl modified ↦
        let e : keepalive_1 digests config addr seed info w
            ≡ keepalive_1_challenged digests config addr info w =
          simp modified in
        rw e (challenged-Quiet w q)
    | inr plain ↦
        let e : keepalive_1 digests config addr seed info w
            ≡ keepalive_1_direct digests config addr seed info w =
          simp plain in
        rw e (direct-Quiet w q)
  ]

  exchanges-Quiet :
      (s : Session)
      → Quiet s.world
      → (w : World) × (keepalive_exchanges digests config addr seed info s
          ≡ keepalive_failed (record s { world = w }))
        × Quiet w
  unfolding keepalive_exchanges
  exchanges-Quiet s q =
      let (fails, q1) = keepalive_1-Quiet s.world q in
      ((keepalive_1 digests config addr seed info s.world).1, rw (keepalive_exchanges, fails), q1)

  round_failed :
      (s : Session)
      → Quiet s.world
      → (w : World) × (keepalive_round digests config addr seed info s
          ≡ keepalive_failed (record s { world = w }))
        × Quiet w
  unfolding keepalive_round
  round_failed s q =
      let (running, q1) = poll_stop-Quiet s.world q in
      let (w, e, q2) = exchanges-Quiet (record s { world = (poll_stop s.world).1 }) q1 in
      (w, rw (keepalive_round, running, e), q2)

  loop_round :
      (rounds : ℕ) (s t : Session)
      → keepalive_round digests config addr seed info s ≡ go_on t
      → keepalive_loop digests config addr (suc rounds) seed info s
        ≡ keepalive_loop digests config addr rounds seed info t
  unfolding keepalive_loop
  loop_round rounds s t e = rw (keepalive_loop, e)

  loop_last :
      (rounds : ℕ) (s t : Session)
      → keepalive_round digests config addr seed info s ≡ reconnect t
      → keepalive_loop digests config addr (suc rounds) seed info s ≡ reconnect t
  unfolding keepalive_loop
  loop_last rounds s t e = rw (keepalive_loop, e)

counted :
    (s : Session) (k : ℕ)
    → s.keepalive_try_counter ≡ pos k
    → next_keepalive_failure_count s.keepalive_try_counter false ≡ pos (suc k)
unfolding next_keepalive_failure_count
counted s k counter = rw counter (ap pos (omega arith))

threshold : (k : ℕ) → should_reconnect_after_keepalive_failure (pos k) ≡ leb 6 k
unfolding should_reconnect_after_keepalive_failure
threshold k = ground arith

keepalive_failed-go_on :
    (s : Session) (k : ℕ)
    → s.keepalive_try_counter ≡ pos k
    → suc k < 6
    → keepalive_failed s ≡ go_on (record s { keepalive_try_counter = pos (suc k) })
unfolding keepalive_failed
keepalive_failed-go_on s k counter few =
    let n = counted s k counter in
    let goes : leb 6 (suc k) ≡ false = ground arith in simp (n, threshold (suc k), goes)

keepalive_failed-reconnect :
    (s : Session) (k : ℕ)
    → s.keepalive_try_counter ≡ pos k
    → 6 ≤ suc k
    → keepalive_failed s
      ≡ reconnect (record s {
        keepalive_try_counter = pos (suc k);
        delay = pos default_login_retry_delay_seconds;
      })
unfolding keepalive_failed set_login_retry_delay normalize_login_retry_delay
keepalive_failed-reconnect s k counter many =
    let n = counted s k counter in
    let ends : leb 6 (suc k) ≡ true = ground arith in simp (n, threshold (suc k), ends)

module _ (digests : Digests) (config : Config) (addr : Address) (seed info : Bytes) where
  -- When nothing arrives any more, sending works and nobody stops the program, the keepalive loop ends by
  -- giving the session up, with a delay of 60 seconds before the next login: with `k` failures counted
  -- before, `6 - k` rounds are enough, and any larger number gives the same kind of end.
  pub keepalive_loop_silent :
      (rounds k : ℕ) (s : Session)
      → Quiet s.world
      → s.keepalive_try_counter ≡ pos k
      → k < 6
      → 6 ≤ k + rounds
      → (last : Session) × (keepalive_loop digests config addr rounds seed info s ≡ reconnect last)
        × (last.delay ≡ pos 60)
        × (last.keepalive_try_counter ≡ pos 6)
  keepalive_loop_silent zero k s q counter few many = absurd (omega arith)
  keepalive_loop_silent (suc rounds) k s q counter few many =
      let (w, e, q1) = round_failed digests config addr seed info s q in
      elim (Bool-cases (leb 6 (suc k))) [
        | inl ends ↦
            let six : k ≡ 5 = ground arith in
            let done =
              keepalive_failed-reconnect (record s { world = w }) k counter
                (leb→le 6 (suc k) ends) in
            (
              record s { keepalive_try_counter = pos (suc k); delay = pos 60; world = w },
              loop_last digests config addr seed info rounds s _ (e ∙ done),
              refl,
              rw six,
            )
        | inr goes ↦
            let few1 : suc k < 6 = ground arith in
            let step = keepalive_failed-go_on (record s { world = w }) k counter few1 in
            let (last, e1, d, n) =
              keepalive_loop_silent rounds (suc k)
                (record s { world = w; keepalive_try_counter = pos (suc k) }) q1 refl few1
                (omega arith) in
            (last, loop_round digests config addr seed info rounds s _ (e ∙ step) ∙ e1, d, n)
      ]
