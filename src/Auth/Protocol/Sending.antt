-- ===== src/Auth/Protocol/Sending.antt =====
-- drcom/src/keepalive.c and auth.c: what the retry loop and the challenges do to the packets sent and
-- to what arrives, as steps of a protocol.
use jlu_drcom.Base.{
  ℕ, zero, suc, ◌≡◌, ◌≢◌, ◌∙◌, sym, ap, refl, ◌⊎◌, inl, inr, Bool, true, false, Bytes, List, [],
  ◌∷◌, ◌++◌, take, none, some, get_or, slice, ◌==◌, Option, Option-cases, Bool-cases, arith,
}
use mathlib.Core.Path.{subst}
use jlu_drcom.Config.{Config}
use jlu_drcom.Auth.Exchange.{challenge, challenge_packet, challenge_expected}
use jlu_drcom.Auth.Protocol.{Sends, Rest}
use jlu_drcom.Udp.{
  Address, Expected, Incoming, timeout, datagram, World, receive_size, accepts, receive_from, send,
  udp_recv_expected_packet, send_recv_attempts, udp_send_recv_expected_with_retries, random_byte,
  poll_stop, recv_any,
}
use jlu_drcom.Udp.Laws.{Delivery, recv-eq-some}
use jlu_drcom.Udp.Retry.{attempts_undelivered, attempts_answered, attempts_again}
use jlu_drcom.Udp.Silence.{send-slept, send-inbox}

-- What is looked at: the packets sent, what is still to arrive, and the seconds slept.
abbrev pub View : Type 1
View = List Bytes → List Incoming → List ℕ → Type 0

-- A view that allows datagrams to be left unread.
abbrev pub Hears : View → Type 0
Hears P =
    (sent : List Bytes) (inbox rest : List Incoming) (slept : List ℕ)
    → Rest inbox rest
    → P sent inbox slept
    → P sent rest slept

-- Nothing of that has changed, and `sendto` works as long as before.
pub record SameSent (v w : World) : Type 0 where
  pub same_sent : w.sent ≡ v.sent
  pub same_inbox : w.inbox ≡ v.inbox
  pub same_slept : w.slept ≡ v.slept
  pub same_results : w.send_results ≡ v.send_results

pub random_byte-SameSent : (w : World) → SameSent w (random_byte w).1
unfolding random_byte
random_byte-SameSent w = record {
  same_sent = ground arith;
  same_inbox = ground arith;
  same_slept = ground arith;
  same_results = ground arith;
}

pub poll_stop-SameSent : (w : World) → SameSent w (poll_stop w).1
unfolding poll_stop
poll_stop-SameSent w = record {
  same_sent = ground arith;
  same_inbox = ground arith;
  same_slept = ground arith;
  same_results = ground arith;
}

Sends-same :
    {lossy : Bool} (v w : World) → w.send_results ≡ v.send_results → Sends lossy v → Sends lossy w
Sends-same v w same (inl lost) = inl lost
Sends-same v w same (inr works) = inr (same ∙ works)

-- A view of a world where `sendto` is as `lossy` says.
pub record Holds (lossy : Bool) (P : View) (w : World) : Type 0 where
  pub holds : P w.sent w.inbox w.slept
  pub sends : Sends lossy w

view-same :
    (P : View) {s1 s2 : List Bytes} {i1 i2 : List Incoming} {l1 l2 : List ℕ}
    → s2 ≡ s1
    → i2 ≡ i1
    → l2 ≡ l1
    → P s1 i1 l1
    → P s2 i2 l2
view-same P {s1} {s2} {i1} {i2} {l1} {l2} es ei el h =
    subst (λ s. P s i2 l2) (sym es)
      (subst (λ i. P s1 i l2) (sym ei) (subst (λ l. P s1 i1 l) (sym el) h))

pub Holds-SameSent :
    {lossy : Bool} {P : View} {v w : World} → SameSent v w → Holds lossy P v → Holds lossy P w
Holds-SameSent {lossy} {P} {v} {w} same h = record {
  holds = view-same P same.same_sent same.same_inbox same.same_slept h.holds;
  sends = Sends-same v w same.same_results h.sends;
}

-- What a call of `recvfrom` leaves.
pub record SameButHeard (v w : World) : Type 0 where
  pub heard : Rest v.inbox w.inbox
  pub same_sent : w.sent ≡ v.sent
  pub same_slept : w.slept ≡ v.slept
  pub same_results : w.send_results ≡ v.send_results

pub Holds-heard :
    {lossy : Bool} {P : View} {v w : World}
    → Hears P
    → SameButHeard v w
    → Holds lossy P v
    → Holds lossy P w
Holds-heard {lossy} {P} {v} {w} hears same h = record {
  holds =
      view-same P same.same_sent refl same.same_slept
        (hears v.sent v.inbox w.inbox v.slept same.heard h.holds);
  sends = Sends-same v w same.same_results h.sends;
}

receive_from-Rest :
    (addr : Address) (e : Expected) (inbox : List Incoming)
    → Rest inbox (receive_from addr e inbox).1
unfolding receive_from
receive_from-Rest addr e [] = record { taken = []; order = refl }
receive_from-Rest addr e (timeout ∷ more) = record { taken = timeout ∷ []; order = refl }
receive_from-Rest addr e (datagram from bytes ∷ more) =
    elim (Bool-cases (accepts addr e from (take receive_size bytes))) [
      | inl passes ↦ rw passes (record { taken = datagram from bytes ∷ []; order = refl })
      | inr fails ↦
          let later = receive_from-Rest addr e more in
          let order = later.order in
          rw fails (record {
            taken = datagram from bytes ∷ later.taken;
            order = ap (◌∷◌ (datagram from bytes)) order;
          })
    ]

pub recv-heard :
    (addr : Address) (e : Expected) (w : World)
    → SameButHeard w (udp_recv_expected_packet addr e w).1
unfolding udp_recv_expected_packet
recv-heard addr e w = record {
  heard = receive_from-Rest addr e w.inbox;
  same_sent = refl;
  same_slept = refl;
  same_results = refl;
}

recv_any-Rest :
    (inbox : List Incoming) (w : World) → w.inbox ≡ inbox → Rest inbox (recv_any w).1.inbox
unfolding recv_any
recv_any-Rest [] w e = rw (recv_any, e) (record { taken = []; order = sym e })
recv_any-Rest (timeout ∷ more) w e =
    rw (recv_any, e) (record { taken = timeout ∷ []; order = refl })
recv_any-Rest (datagram from bytes ∷ more) w e =
    rw (recv_any, e) (record { taken = datagram from bytes ∷ []; order = refl })

pub recv_any-heard : (w : World) → SameButHeard w (recv_any w).1
unfolding recv_any
recv_any-heard w = record {
  heard = recv_any-Rest w.inbox w refl;
  same_sent = ground arith;
  same_slept = ground arith;
  same_results = ground arith;
}

joined :
    (front : List Incoming) (one : Incoming) (rest : List Incoming)
    → front ++ (one ∷ rest) ≡ (front ++ (one ∷ [])) ++ rest
joined [] one rest = refl
joined (first ∷ front) one rest = ap (◌∷◌ first) (joined front one rest)

pub Delivery-Rest :
    {addr : Address} {e : Expected} {inbox : List Incoming} {bytes : Bytes} {rest : List Incoming}
    → Delivery addr e inbox bytes rest
    → Rest inbox rest
Delivery-Rest {rest = rest} d =
    let order = d.order in
    record {
      taken = d.skipped ++ (datagram d.from d.raw ∷ []);
      order = order ∙ joined d.skipped (datagram d.from d.raw) rest;
    }

-- `sendto` delivers the packet, or it may fail and has failed.
pub data Posted (lossy : Bool) (P Q : View) (r : Bool × World) : Type 0 where
  delivered : r.0 ≡ true → Holds lossy Q r.1 → Posted lossy P Q r
  lost : r.0 ≡ false → lossy ≡ true → Holds lossy P r.1 → Posted lossy P Q r

sent_by :
    (packet : Bytes) (w : World)
    → (((send packet w).0 ≡ true) × ((send packet w).1.sent ≡ packet ∷ w.sent))
      ⊎ (((send packet w).0 ≡ false) × ((send packet w).1.sent ≡ w.sent) × (w.send_results ≢ []))
unfolding send
sent_by packet w = ground arith

results_behind :
    (packet : Bytes) (w : World) → w.send_results ≡ [] → (send packet w).1.send_results ≡ []
unfolding send
results_behind packet w h = ground (arith, h)

Sends-send :
    {lossy : Bool} (packet : Bytes) (w : World) → Sends lossy w → Sends lossy (send packet w).1
Sends-send packet w (inl may) = inl may
Sends-send packet w (inr works) = inr (results_behind packet w works)

may_fail : {lossy : Bool} (w : World) → w.send_results ≢ [] → Sends lossy w → lossy ≡ true
may_fail w fails (inl may) = may
may_fail w fails (inr works) = absurd (fails works)

-- A packet that leads from one view to another.
abbrev pub Leads : Bytes → View → View → Type 0
Leads packet P Q =
    (sent : List Bytes) (inbox : List Incoming) (slept : List ℕ)
    → P sent inbox slept
    → Q (packet ∷ sent) inbox slept

pub send-Posted :
    {lossy : Bool} {P Q : View} (packet : Bytes)
    → Leads packet P Q
    → (w : World) → Holds lossy P w
    → Posted lossy P Q (send packet w)
send-Posted {lossy} {P} {Q} packet first w h =
    let inbox = send-inbox packet w in
    let slept = send-slept packet w in
    elim (sent_by packet w) [
      | inl (went, sent) ↦ delivered went (record {
        holds = view-same Q sent inbox slept (first w.sent w.inbox w.slept h.holds);
        sends = Sends-send packet w h.sends;
      })
      | inr (failed, unsent, fails) ↦ lost failed (may_fail w fails h.sends) (record {
        holds = view-same P unsent inbox slept h.holds;
        sends = Sends-send packet w h.sends;
      })
    ]

-- An answer, with what was still to arrive in front of it.
pub record Heard (lossy : Bool) (Q : View) (addr : Address) (e : Expected)
    (r : Option Bytes × World) : Type 0 where
  pub bytes : Bytes
  pub inbox : List Incoming
  pub answer : r.0 ≡ some bytes
  pub arrives : Delivery addr e inbox bytes r.1.inbox
  pub holds : Q r.1.sent inbox r.1.slept
  pub sends : Sends lossy r.1

pub Holds-Heard :
    {lossy : Bool} {Q : View} {addr : Address} {e : Expected} {r : Option Bytes × World}
    → Hears Q
    → Heard lossy Q addr e r
    → Holds lossy Q r.1
Holds-Heard {r = r} hears h = record {
  holds = hears r.1.sent h.inbox r.1.inbox r.1.slept (Delivery-Rest h.arrives) h.holds;
  sends = h.sends;
}

pub recv-Heard :
    {lossy : Bool} {Q : View} {bytes : Bytes} (addr : Address) (e : Expected) (w : World)
    → (udp_recv_expected_packet addr e w).0 ≡ some bytes
    → Holds lossy Q w
    → Heard lossy Q addr e (udp_recv_expected_packet addr e w)
recv-Heard {bytes = bytes} addr e w answer h = record {
  bytes = bytes;
  inbox = w.inbox;
  answer = answer;
  arrives = recv-eq-some addr e w answer;
  holds = unfold udp_recv_expected_packet in h.holds;
  sends =
      Sends-same w (udp_recv_expected_packet addr e w).1 (recv-heard addr e w).same_results h.sends;
}

-- How attempts end that have sent the packet before.
abbrev Attempted : Bool → View → Address → Expected → Option Bytes × World → Type 0
Attempted lossy Q addr e r = ((r.0 ≡ none) × Holds lossy Q r.1) ⊎ Heard lossy Q addr e r

module _ {lossy : Bool} {Q : View} (addr : Address) (packet : Bytes) (e : Expected)
    (hears : Hears Q) (again : Leads packet Q Q) where
  behind_sending :
      (left : ℕ) (w : World)
      → ((v : World)
          → Holds lossy Q v
          → Attempted lossy Q addr e (send_recv_attempts left addr packet e v))
      → (send packet w).0 ≡ true
      → Holds lossy Q (send packet w).1
      → Attempted lossy Q addr e (send_recv_attempts (suc left) addr packet e w)
  unfolding recv-Heard
  behind_sending left w later went h1 =
      elim (Option-cases (udp_recv_expected_packet addr e (send packet w).1).0) [
        | inr (bytes, answer) ↦
            let heard = recv-Heard addr e (send packet w).1 answer h1 in
            rw (attempts_answered left addr packet e w bytes went answer) (
              inr (record {
                bytes = bytes;
                inbox = heard.inbox;
                answer = refl;
                arrives = heard.arrives;
                holds = heard.holds;
                sends = heard.sends;
              }))
        | inl silent ↦
            rw (attempts_again left addr packet e w went silent)
              (later _ (Holds-heard hears (recv-heard addr e (send packet w).1) h1))
      ]

  attempts-Attempted :
      (left : ℕ) (w : World)
      → Holds lossy Q w
      → Attempted lossy Q addr e (send_recv_attempts left addr packet e w)
  attempts-Attempted zero w h = unfold send_recv_attempts in (inl (refl, h))
  attempts-Attempted (suc left) w h = elim (send-Posted packet again w h) [
    | lost failed may h1 ↦ rw (attempts_undelivered left addr packet e w failed) (inl (refl, h1))
    | delivered went h1 ↦ behind_sending left w (attempts-Attempted left) went h1
  ]

-- How the retry loop ends: with no packet sent, with no answer, or with an answer.
pub data Retried (lossy : Bool) (P Q : View) (addr : Address) (e : Expected)
    (r : Option Bytes × World) : Type 0 where
  unsent : r.0 ≡ none → lossy ≡ true → Holds lossy P r.1 → Retried lossy P Q addr e r
  unanswered : r.0 ≡ none → Holds lossy Q r.1 → Retried lossy P Q addr e r
  replied : Heard lossy Q addr (record e { alternate = none }) r → Retried lossy P Q addr e r

module _ {lossy : Bool} {P Q : View} (addr : Address) (packet : Bytes) (e : Expected) (w : World)
    (hears : Hears Q) (first : Leads packet P Q) (again : Leads packet Q Q) where
  pub udp_send_recv-Retried :
      Holds lossy P w
      → Retried lossy P Q addr e (udp_send_recv_expected_with_retries addr packet e w)
  unfolding udp_send_recv_expected_with_retries
  udp_send_recv-Retried h =
      let e1 : Expected = record e { alternate = none } in
      elim (send-Posted packet first w h) [
        | lost failed may h1 ↦
            rw (attempts_undelivered 3 addr packet e1 w failed) (unsent refl may h1)
        | delivered went h1 ↦
            elim (behind_sending addr packet e1 hears again 3 w
              (attempts-Attempted addr packet e1 hears again 3) went h1) [
                | inl (silent, h2) ↦ unanswered silent h2
                | inr heard ↦ replied heard
              ]
      ]

-- How a challenge ends; `kind` is 2 for a login and 3 for a logout.
pub data Challenged (lossy : Bool) (P : View) (Q : ℕ → ℕ → View) (addr : Address) (kind : ℕ)
    (r : Option Bytes × World) : Type 0 where
  unsent : r.0 ≡ none → lossy ≡ true → Holds lossy P r.1 → Challenged lossy P Q addr kind r
  unanswered :
      (r1 r2 : ℕ) → r.0 ≡ none → Holds lossy (Q r1 r2) r.1 → Challenged lossy P Q addr kind r
  replied :
      (r1 r2 : ℕ) (bytes : Bytes) (inbox : List Incoming)
      → r.0 ≡ some (slice 4 4 bytes)
      → Delivery addr (challenge_expected kind r1 r2) inbox bytes r.1.inbox
      → Q r1 r2 r.1.sent inbox r.1.slept
      → Sends lossy r.1
      → Challenged lossy P Q addr kind r

module _ {lossy : Bool} {P : View} {Q : ℕ → ℕ → View} (config : Config) (addr : Address) (kind : ℕ)
    (w : World) (hears : (r1 r2 : ℕ) → Hears (Q r1 r2))
    (first : (r1 r2 : ℕ) → Leads (challenge_packet config kind r1 r2) P (Q r1 r2))
    (again : (r1 r2 : ℕ) → Leads (challenge_packet config kind r1 r2) (Q r1 r2) (Q r1 r2)) where
  pub challenge-Challenged :
      Holds lossy P w → Challenged lossy P Q addr kind (challenge config addr kind w)
  unfolding challenge
  challenge-Challenged h =
      let r1 = (random_byte w).0 in
      let w1 = (random_byte w).1 in
      let r2 = (random_byte w1).0 in
      let w2 = (random_byte w1).1 in
      let h2 =
        Holds-SameSent (random_byte-SameSent w1) (Holds-SameSent (random_byte-SameSent w) h) in
      elim (udp_send_recv-Retried addr (challenge_packet config kind r1 r2)
        (challenge_expected kind r1 r2) w2 (hears r1 r2) (first r1 r2) (again r1 r2) h2) [
          | Retried.unsent silent may h3 ↦ rw (challenge, silent) (Challenged.unsent refl may h3)
          | Retried.unanswered silent h3 ↦
              rw (challenge, silent) (Challenged.unanswered r1 r2 refl h3)
          | Retried.replied heard ↦
              let answer = heard.answer in
              elim (Bool-cases (get_or heard.bytes 0 0 == 0x02)) [
                | inl code ↦
                    rw (challenge, answer, code)
                      (Challenged.replied r1 r2 heard.bytes heard.inbox refl heard.arrives
                        heard.holds heard.sends)
                | inr other ↦
                    rw (challenge, answer, other)
                      (Challenged.unanswered r1 r2 refl (Holds-Heard (hears r1 r2) heard))
              ]
        ]
