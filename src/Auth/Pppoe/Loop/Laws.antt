-- ===== src/Auth/Pppoe/Loop/Laws.antt =====
-- drcom/src/auth.c: the loop of mode `pppoe` when the server does not answer.
use jlu_drcom.Base.{
  ℕ, zero, suc, ◌+◌, ◌-◌, ◌<◌, ◌≡◌, ◌∙◌, refl, ap, true, false, Bytes, List, ◌∷◌, ◌++◌, none, arith,
  leb, Bool-cases, inl, inr, replicate,
}
use jlu_drcom.Auth.Dogcom.{ended}
use jlu_drcom.Auth.Pppoe.{pppoe_challenge, pppoe_challenge_packet}
use jlu_drcom.Auth.Pppoe.Loop.{Pppoe, sleep, challenge_failed, pppoe_round, pppoe_loop}
use jlu_drcom.Packet.{Digests, built}
use jlu_drcom.Udp.{Address, World, send, recv_any, poll_stop}
use jlu_drcom.Udp.Retry.{send_works}
use jlu_drcom.Udp.Silence.{
  Quiet, send-Quiet, send-slept, poll_stop-Quiet, poll_stop-slept, poll_stop-sent,
}

recv_any-Quiet : (w : World) → Quiet w → recv_any w ≡ (none, w)
unfolding recv_any
recv_any-Quiet w q = simp (recv_any, q.nothing_arrives)

-- A challenge that nobody answers.
pppoe_challenge-Quiet :
    (stack : World → Bytes) (counter : ℕ) (w : World)
    → Quiet w
    → ((pppoe_challenge stack counter w).0 ≡ none)
      × Quiet (pppoe_challenge stack counter w).2
      × ((pppoe_challenge stack counter w).2.slept ≡ w.slept)
      × ((pppoe_challenge stack counter w).2.sent ≡ pppoe_challenge_packet counter ∷ w.sent)
      × ((pppoe_challenge stack counter w).1 ≡ counter + 1)
unfolding pppoe_challenge
pppoe_challenge-Quiet stack counter w q =
    let packet = pppoe_challenge_packet counter in
    let q1 = send-Quiet packet w q in
    let silence = recv_any-Quiet (send packet w).1 q1 in
    let no_reply : (recv_any (send packet w).1).0 ≡ none = cc silence in
    let same_world : (recv_any (send packet w).1).1 ≡ (send packet w).1 = cc silence in
    rw (pppoe_challenge, no_reply, same_world)
      (refl, q1, send-slept packet w, (send_works packet w q.sending_works).1, refl)

sleep-Quiet : (w : World) → Quiet w → Quiet (sleep 5 w)
sleep-Quiet w q = record {
  nothing_arrives = q.nothing_arrives;
  sending_works = q.sending_works;
  no_signal = q.no_signal;
  not_stopped = q.not_stopped;
}

-- Challenges in front of what was sent, with their numbers from `n` on; the newest is the first.
pub challenges : ℕ → ℕ → List Bytes → List Bytes
challenges zero n sent = sent
challenges (suc k) n sent = challenges k (n + 1) (pppoe_challenge_packet n ∷ sent)

nap_more : (k : ℕ) (slept : List ℕ) → replicate k 5 ++ (5 ∷ slept) ≡ replicate (suc k) 5 ++ slept
nap_more zero slept = refl
nap_more (suc k) slept = rw (nap_more k slept)

module _ (digests : Digests) (stack : World → Bytes) (addr : Address) (try_times : ℕ) where
  -- What a silent round leaves, from where the challenge failed.
  round_silent :
      (s : Pppoe)
      → Quiet s.world
      → (t : Pppoe) × (pppoe_round digests stack addr false try_times s
          ≡ challenge_failed digests stack addr false try_times t)
        × Quiet t.world
        × (t.world.slept ≡ s.world.slept)
        × (t.try_counter ≡ s.try_counter)
        × (t.world.sent ≡ pppoe_challenge_packet s.pppoe_counter ∷ s.world.sent)
        × (t.pppoe_counter ≡ s.pppoe_counter + 1)
  unfolding pppoe_round
  round_silent s q =
      let (running, q1) = poll_stop-Quiet s.world q in
      let w1 = (poll_stop s.world).1 in
      let (silent, q2, slept2, sent2, count2) = pppoe_challenge-Quiet stack s.pppoe_counter w1 q1 in
      (
        record s {
          pppoe_counter = (pppoe_challenge stack s.pppoe_counter w1).1;
          world = (pppoe_challenge stack s.pppoe_counter w1).2;
        },
        rw (pppoe_round, running, silent),
        q2,
        slept2 ∙ poll_stop-slept s.world,
        refl,
        sent2 ∙ ap (◌∷◌ (pppoe_challenge_packet s.pppoe_counter)) (poll_stop-sent s.world),
        count2,
      )

  last_round :
      (rounds : ℕ) (s t : Pppoe)
      → pppoe_round digests stack addr false try_times s
        ≡ challenge_failed digests stack addr false try_times t
      → leb try_times (t.try_counter + 1) ≡ true
      → pppoe_loop digests stack addr false try_times (suc rounds) s ≡ ended 1 (built t.world)
  unfolding pppoe_loop challenge_failed
  last_round rounds s t e over = rw (pppoe_loop, e, challenge_failed, over)

  next_round :
      (rounds : ℕ) (s t : Pppoe)
      → pppoe_round digests stack addr false try_times s
        ≡ challenge_failed digests stack addr false try_times t
      → leb try_times (t.try_counter + 1) ≡ false
      → pppoe_loop digests stack addr false try_times (suc rounds) s
        ≡ pppoe_loop digests stack addr false try_times rounds (record t {
          login_first = true;
          try_counter = t.try_counter + 1;
          world = sleep 5 t.world;
        })
  unfolding pppoe_loop challenge_failed
  next_round rounds s t e under = rw (pppoe_loop, e, challenge_failed, under)

  -- When the server never answers, sending works and nobody stops the program, the loop without the
  -- eternal flag sends nothing but the challenges that are left behind `try_counter` failed ones (one
  -- where none is left), numbered from the counter on, sleeps for 5 seconds between two of them, and
  -- ends with 1; as many rounds as challenges are enough.
  pub pppoe_loop_silent :
      (rounds : ℕ) (s : Pppoe)
      → Quiet s.world
      → try_times - (s.try_counter + 1) < rounds
      → (w : World) × (pppoe_loop digests stack addr false try_times rounds s ≡ ended 1 (built w))
        × (w.slept ≡ replicate (try_times - (s.try_counter + 1)) 5 ++ s.world.slept)
        × (w.sent ≡ challenges (suc (try_times - (s.try_counter + 1))) s.pppoe_counter s.world.sent)
  unfolding challenges
  pppoe_loop_silent zero s q enough = absurd (omega arith)
  pppoe_loop_silent (suc rounds) s q enough =
      let (t, e, q1, slept1, tries, sent1, count1) = round_silent s q in
      elim (Bool-cases (leb try_times (t.try_counter + 1))) [
        | inl over ↦
            let none_left : try_times - (s.try_counter + 1) ≡ 0 = ground (arith, tries) in
            (t.world, last_round rounds s t e over, rw none_left slept1, rw none_left sent1)
        | inr under ↦
            let left : s.try_counter + 1 < try_times = ground (arith, tries) in
            let u = record t {
              login_first = true;
              try_counter = t.try_counter + 1;
              world = sleep 5 t.world;
            } in
            let (w, e1, slept2, sent2) =
              pppoe_loop_silent rounds u (sleep-Quiet t.world q1) (omega (arith, tries)) in
            let one_more : try_times - (s.try_counter + 1)
                ≡ suc (try_times - (t.try_counter + 1 + 1)) =
              omega (arith, tries) in
            (
              w,
              next_round rounds s t e under ∙ e1,
              rw (slept2, slept1, one_more)
                  (nap_more (try_times - (t.try_counter + 1 + 1)) s.world.slept),
              rw (sent2, one_more, count1, sent1),
            )
      ]
