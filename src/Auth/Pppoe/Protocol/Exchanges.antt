-- ===== src/Auth/Pppoe/Protocol/Exchanges.antt =====
-- drcom/src/auth.c: the challenge and the login of mode `pppoe`, in the protocol.
use mathlib.Core.Path.{subst}
use jlu_drcom.Base.{
  ℕ, ◌+◌, ◌≡◌, refl, sym, ap, inl, inr, Bool, Bytes, List, [], ◌∷◌, none, some, Option, get_or,
  ◌==◌, take, ◌∙◌, arith, Status, success, failure, Bool-cases, Option-cases,
}
use jlu_drcom.Auth.Pppoe.{
  Challenge, challenge_of, filled, pppoe_challenge, pppoe_challenge_packet, pppoe_login,
  pppoe_login_packet,
}
use jlu_drcom.Auth.Pppoe.Protocol.{
  Stage, between, asked, challenged, greeted, logged, versioned, type_of, Received, Talk, ignore,
  ask, ask_in_vain, get_nothing, be_challenged, greet, greet_in_vain, be_refused, be_accepted,
}
use jlu_drcom.Auth.Protocol.Sending.{
  View, Hears, Holds, Holds-heard, delivered, lost, send-Posted, recv_any-heard,
}
use jlu_drcom.Config.{Config}
use jlu_drcom.Packet.{Digests}
use jlu_drcom.Udp.{Address, World, Incoming, timeout, datagram, receive_size, send, recv_any}

recv_any-none : (w : World) → w.inbox ≡ [] → (recv_any w).0 ≡ none
unfolding recv_any
recv_any-none w e = rw (recv_any, e)

recv_any-timeout :
    (w : World) (more : List Incoming) → w.inbox ≡ timeout ∷ more → (recv_any w).0 ≡ none
unfolding recv_any
recv_any-timeout w more e = rw (recv_any, e)

recv_any-some :
    (w : World) (from : Address) (raw : Bytes) (more : List Incoming)
    → w.inbox ≡ datagram from raw ∷ more
    → recv_any w ≡ (some (take receive_size raw), record w { inbox = more })
unfolding recv_any
recv_any-some w from raw more e = simp (recv_any, e)

-- A reply is the next datagram.
received :
    (inbox : List Incoming) (w : World) {bytes : Bytes}
    → w.inbox ≡ inbox
    → (recv_any w).0 ≡ some bytes
    → Received inbox bytes (recv_any w).1.inbox
received [] w {bytes} e answer =
    absurd (let no : none ≡ some bytes = sym (recv_any-none w e) ∙ answer in cc no)
received (timeout ∷ more) w {bytes} e answer =
    absurd (let no : none ≡ some bytes = sym (recv_any-timeout w more e) ∙ answer in cc no)
received (datagram from raw ∷ more) w {bytes} e answer =
    let given = recv_any-some w from raw more e in
    let same : some (take receive_size raw) ≡ some bytes = sym (ap (λ r. r.0) given) ∙ answer in
    record {
      from = from;
      raw = raw;
      order = ap (λ r. datagram from raw ∷ r.1.inbox) (sym given);
      cut = cc same;
    }

module _ (digests : Digests) (config : Config) (stack : World → Bytes) (lossy : Bool)
    (start : World) where
  -- The packets sent and what is still to arrive lead to this stage.
  abbrev Reached : Stage → View
  Reached p sent inbox slept = Talk digests config stack lossy start p sent inbox

  abbrev pub At : Stage → World → Type 0
  At p w = Holds lossy (Reached p) w

  pub ignores : (p : Stage) → Hears (Reached p)
  ignores p sent inbox rest slept left d = ignore d left

  heard : (p : Stage) (w : World) → At p w → At p (recv_any w).1
  heard p w h = Holds-heard (ignores p) (recv_any-heard w) h

  -- The stage with the datagrams in front of the call of `recvfrom`.
  unread :
      (p : Stage) (w : World)
      → At p w
      → Talk digests config stack lossy start p (recv_any w).1.sent w.inbox
  unread p w h =
      subst (λ s. Talk digests config stack lossy start p s w.inbox)
        (sym ((recv_any-heard w).same_sent)) h.holds

  -- How a challenge ends.
  abbrev pub ChallengeAt : ℕ → Option Challenge → World → Type 0
  ChallengeAt n none w = At (between n) w
  ChallengeAt n (some c) w = At (challenged n c) w

  read-ChallengeAt :
      (n : ℕ) (w : World) {bytes : Bytes} (v : World)
      → (recv_any w).0 ≡ some bytes
      → At (asked n) w
      → ChallengeAt n (challenge_of (filled (stack v) bytes)) (recv_any w).1
  read-ChallengeAt n w {bytes} v answer h =
      let h1 = heard (asked n) w h in
      elim (Option-cases (challenge_of (filled (stack v) bytes))) [
        | inl wrong ↦ rw wrong (record { holds = get_nothing h1.holds; sends = h1.sends })
        | inr (c, e) ↦ rw e (record {
          holds = be_challenged v bytes (unread (asked n) w h) (received w.inbox w refl answer) e;
          sends = h1.sends;
        })
      ]

  -- How a login ends.
  abbrev pub LoginAt : ℕ → Challenge → Status → World → Type 0
  LoginAt n c success w = At (logged n c) w
  LoginAt n c failure w = At (between n) w

  asked_by :
      (n : ℕ) (w : World)
      → At (between n) w
      → At (asked (n + 1)) (send (pppoe_challenge_packet n) w).1
  asked_by n w h = elim (send-Posted (pppoe_challenge_packet n) (λ sent inbox slept d. ask d) w h) [
    | delivered went h1 ↦ h1
    | lost failed may h1 ↦ record { holds = ask_in_vain h1.holds may; sends = h1.sends }
  ]

  pub challenge-ChallengeAt :
      (n : ℕ) (w : World)
      → At (between n) w
      → let r = pppoe_challenge stack n w in (r.1 ≡ n + 1) × ChallengeAt (n + 1) r.0 r.2
  unfolding pppoe_challenge
  challenge-ChallengeAt n w h =
      let w1 = (send (pppoe_challenge_packet n) w).1 in
      let h1 = asked_by n w h in
      let h2 = heard (asked (n + 1)) w1 h1 in
      elim (Option-cases (recv_any w1).0) [
        | inl silent ↦
            rw (pppoe_challenge, silent)
              (refl, record { holds = get_nothing h2.holds; sends = h2.sends })
        | inr (bytes, answer) ↦
            rw (pppoe_challenge, answer) (refl, read-ChallengeAt (n + 1) w1 w1 answer h1)
      ]

  greeted_by :
      (cfg : Config) (n : ℕ) (c : Challenge) (login_first : Bool) (w : World)
      → cfg ≡ versioned config c
      → At (challenged n c) w
      → At
          (greeted (n + 1) c)
          (send (pppoe_login_packet digests cfg n c.seed c.sip login_first (type_of c)) w).1
  greeted_by cfg n c login_first w same h =
      elim (send-Posted (pppoe_login_packet digests cfg n c.seed c.sip login_first (type_of c))
        (λ sent inbox slept d. rw same (greet login_first d)) w h) [
          | delivered went h1 ↦ h1
          | lost failed may h1 ↦ record { holds = greet_in_vain h1.holds may; sends = h1.sends }
        ]

  pub login-LoginAt :
      (cfg : Config) (n : ℕ) (c : Challenge) (login_first : Bool) (w : World)
      → cfg ≡ versioned config c
      → At (challenged n c) w
      → let r = pppoe_login digests cfg stack n c.seed c.sip login_first c.encrypt_mode w in
        (r.1 ≡ type_of c) × (r.2 ≡ n + 1) × LoginAt (n + 1) c r.0 r.3
  unfolding pppoe_login
  login-LoginAt cfg n c login_first w same h =
      let w1 = (send (pppoe_login_packet digests cfg n c.seed c.sip login_first (type_of c)) w).1 in
      let h1 = greeted_by cfg n c login_first w same h in
      let h2 = heard (greeted (n + 1) c) w1 h1 in
      elim (Option-cases (recv_any w1).0) [
        | inl silent ↦
            rw (pppoe_login, silent)
              (refl, refl, record { holds = be_refused h2.holds; sends = h2.sends })
        | inr (bytes, answer) ↦ elim (Bool-cases (get_or (filled (stack w1) bytes) 0 0 == 0x07)) [
          | inr other ↦
              rw (pppoe_login, answer, other)
                (refl, refl, record { holds = be_refused h2.holds; sends = h2.sends })
          | inl code ↦
              let accepted : At (logged (n + 1) c) (recv_any w1).1 = record {
                holds =
                    be_accepted w1 bytes (unread (greeted (n + 1) c) w1 h1)
                      (received w1.inbox w1 refl answer) (ground (arith, code));
                sends = h2.sends;
              } in
              rw (pppoe_login, answer, code)
                (refl, refl, heard (logged (n + 1) c) (recv_any w1).1 accepted)
        ]
      ]
