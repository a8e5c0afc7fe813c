-- ===== src/Udp/Retry.antt =====
-- drcom/src/keepalive.c: how many copies of a packet the retry loop sends, and which reply it returns.
use jlu_drcom.Base.{
  replicate-snoc, ℕ, zero, suc, ◌≤◌, ◌≡◌, ◌∙◌, refl, sym, ap, inl, inr, ◌⊎◌, true, false, Bytes, [],
  ◌∷◌, ◌++◌, none, some, arith, replicate, Option-cases,
}
use jlu_drcom.Udp.{
  Address, Expected, World, send, udp_recv_expected_packet, receive_from, accepts,
  send_recv_attempts, udp_send_recv_expected_with_retries,
}
use jlu_drcom.Udp.Laws.{receive_from-Delivery}

-- `sendto` sends one copy, or fails and sends none.
send_sent :
    (packet : Bytes) (w : World)
    → (((send packet w).0 ≡ true) × ((send packet w).1.sent ≡ packet ∷ w.sent))
      ⊎ (((send packet w).0 ≡ false) × ((send packet w).1.sent ≡ w.sent))
unfolding send
send_sent packet w = ground arith

recv_sent :
    (addr : Address) (e : Expected) (w : World)
    → (udp_recv_expected_packet addr e w).1.sent ≡ w.sent
unfolding udp_recv_expected_packet
recv_sent addr e w = refl

module _ (left : ℕ) (addr : Address) (packet : Bytes) (e : Expected) (w : World) where
  pub attempts_undelivered :
      (send packet w).0 ≡ false
      → send_recv_attempts (suc left) addr packet e w ≡ (none, (send packet w).1)
  unfolding send_recv_attempts
  attempts_undelivered h = rw h

  pub attempts_answered :
      (bytes : Bytes)
      → (send packet w).0 ≡ true
      → (udp_recv_expected_packet addr e (send packet w).1).0 ≡ some bytes
      → send_recv_attempts (suc left) addr packet e w
        ≡ (some bytes, (udp_recv_expected_packet addr e (send packet w).1).1)
  unfolding send_recv_attempts
  attempts_answered bytes h k = rw (h, k)

  pub attempts_again :
      (send packet w).0 ≡ true
      → (udp_recv_expected_packet addr e (send packet w).1).0 ≡ none
      → send_recv_attempts (suc left) addr packet e w
        ≡ send_recv_attempts left addr packet e
            (udp_recv_expected_packet addr e (send packet w).1).1
  unfolding send_recv_attempts
  attempts_again h k = rw (h, k)

attempts_copies :
    (left : ℕ) (addr : Address) (packet : Bytes) (e : Expected) (w : World)
    → (k : ℕ) × (k ≤ left)
      × ((send_recv_attempts left addr packet e w).1.sent ≡ replicate k packet ++ w.sent)
attempts_copies zero addr packet e w = unfold send_recv_attempts in (0, omega arith, refl)
attempts_copies (suc left) addr packet e w = elim (send_sent packet w) [
  | inr (failed, unsent) ↦
      (0, omega arith, rw (attempts_undelivered left addr packet e w failed) unsent)
  | inl (delivered, sent) ↦
      elim (Option-cases (udp_recv_expected_packet addr e (send packet w).1).0) [
        | inr (bytes, reply) ↦ (
          1,
          omega arith,
          rw (attempts_answered left addr packet e w bytes delivered reply, recv_sent) sent,
        )
        | inl silent ↦
            let (k, bound, copies) =
              attempts_copies left addr packet e
                (udp_recv_expected_packet addr e (send packet w).1).1 in
            (
              suc k,
              omega arith,
              rw (
                attempts_again left addr packet e w delivered silent,
                copies,
                recv_sent,
                sent,
                replicate-snoc k packet w.sent,
              ),
            )
      ]
]

pub udp_recv_accepts :
    (addr : Address) (e : Expected) (w : World) {bytes : Bytes}
    → (udp_recv_expected_packet addr e w).0 ≡ some bytes
    → (from : Address) × (accepts addr e from bytes ≡ true)
unfolding udp_recv_expected_packet
udp_recv_accepts addr e w h =
    let d =
      receive_from-Delivery addr e w.inbox {rest = (receive_from addr e w.inbox).1} (rw (← h)) in
    (d.from, d.accepted)

pub send_works :
    (packet : Bytes) (w : World)
    → w.send_results ≡ []
    → ((send packet w).0 ≡ true)
      × ((send packet w).1.sent ≡ packet ∷ w.sent)
      × ((send packet w).1.inbox ≡ w.inbox)
      × ((send packet w).1.send_results ≡ [])
unfolding send
send_works packet w works = ground arith

pub recv_silent :
    (addr : Address) (e : Expected) (w : World)
    → w.inbox ≡ []
    → ((udp_recv_expected_packet addr e w).0 ≡ none)
      × ((udp_recv_expected_packet addr e w).1.inbox ≡ [])
unfolding udp_recv_expected_packet receive_from
recv_silent addr e w quiet = (simp quiet, simp quiet)

recv_results :
    (addr : Address) (e : Expected) (w : World)
    → (udp_recv_expected_packet addr e w).1.send_results ≡ w.send_results
unfolding udp_recv_expected_packet
recv_results addr e w = refl

-- Silence and a `sendto` that works.
attempts_silent :
    (left : ℕ) (addr : Address) (packet : Bytes) (e : Expected) (w : World)
    → w.inbox ≡ []
    → w.send_results ≡ []
    → ((send_recv_attempts left addr packet e w).0 ≡ none)
      × ((send_recv_attempts left addr packet e w).1.sent ≡ replicate left packet ++ w.sent)
attempts_silent zero addr packet e w quiet works = unfold send_recv_attempts in (refl, refl)
attempts_silent (suc left) addr packet e w quiet works =
    let (delivered, sent, inbox1, results1) = send_works packet w works in
    let (silent, inbox2) = recv_silent addr e (send packet w).1 (inbox1 ∙ quiet) in
    let step = attempts_again left addr packet e w delivered silent in
    let (unanswered, copies) =
      attempts_silent left addr packet e (udp_recv_expected_packet addr e (send packet w).1).1
        inbox2 (recv_results addr e (send packet w).1 ∙ results1) in
    (rw step unanswered, rw (step, copies, recv_sent, sent) (replicate-snoc left packet w.sent))

attempts_reply :
    (left : ℕ) (addr : Address) (packet : Bytes) (e : Expected) (w : World) {bytes : Bytes}
    → (send_recv_attempts left addr packet e w).0 ≡ some bytes
    → (from : Address) × (accepts addr e from bytes ≡ true)
attempts_reply zero addr packet e w h = unfold send_recv_attempts in absurd cc
attempts_reply (suc left) addr packet e w {bytes} h = elim (send_sent packet w) [
  | inr (failed, unsent) ↦ absurd (let k = attempts_undelivered left addr packet e w failed in cc)
  | inl (delivered, sent) ↦
      elim (Option-cases (udp_recv_expected_packet addr e (send packet w).1).0) [
        | inr (got, reply) ↦
            let k = attempts_answered left addr packet e w got delivered reply in
            let same : got ≡ bytes = cc in
            rw (← same) (udp_recv_accepts addr e (send packet w).1 reply)
        | inl silent ↦
            let k = attempts_again left addr packet e w delivered silent in
            attempts_reply left addr packet e (udp_recv_expected_packet addr e (send packet w).1).1
              (sym (ap (λ r. r.0) k) ∙ h)
      ]
]

-- Whatever arrives, the retry loop sends at most four packets, all of them copies of the one it was
-- given and on top of what was sent before.
pub udp_send_recv_expected_with_retries_copies :
    (addr : Address) (packet : Bytes) (e : Expected) (w : World)
    → (k : ℕ) × (k ≤ 4)
      × ((udp_send_recv_expected_with_retries addr packet e w).1.sent
          ≡ replicate k packet ++ w.sent)
unfolding udp_send_recv_expected_with_retries
udp_send_recv_expected_with_retries_copies addr packet e w = attempts_copies 4 addr packet _ w

-- A reply that the retry loop returns passed the test on the source address and, with the alternate
-- first byte struck out, the expectations.
pub udp_send_recv_expected_with_retries-accepts :
    (addr : Address) (packet : Bytes) (e : Expected) (w : World) {bytes : Bytes}
    → (udp_send_recv_expected_with_retries addr packet e w).0 ≡ some bytes
    → (from : Address) × (accepts addr (record e { alternate = none }) from bytes ≡ true)
unfolding udp_send_recv_expected_with_retries
udp_send_recv_expected_with_retries-accepts addr packet e w h = attempts_reply 4 addr packet _ w h

-- When nothing arrives and sending works, the retry loop gives up after sending exactly four copies
-- of the packet.
pub udp_send_recv_expected_with_retries_silent :
    (addr : Address) (packet : Bytes) (e : Expected) (w : World)
    → w.inbox ≡ []
    → w.send_results ≡ []
    → ((udp_send_recv_expected_with_retries addr packet e w).0 ≡ none)
      × ((udp_send_recv_expected_with_retries addr packet e w).1.sent
          ≡ replicate 4 packet ++ w.sent)
unfolding udp_send_recv_expected_with_retries
udp_send_recv_expected_with_retries_silent addr packet e w quiet works =
    attempts_silent 4 addr packet _ w quiet works
