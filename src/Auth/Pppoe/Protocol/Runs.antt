-- ===== src/Auth/Pppoe/Protocol/Runs.antt =====
-- drcom/src/auth.c: the rounds of mode `pppoe`, in the protocol.
use mathlib.Core.Path.{subst}
use jlu_drcom.Base.{
  ℕ, zero, suc, ◌+◌, ◌≡◌, refl, sym, inl, inr, Bool, Bytes, List, if◌then◌else◌, leb, codes,
  Status-cases, Bool-cases, Option-cases,
}
use jlu_drcom.Auth.Dogcom.{Decision, next, ended, unfinished}
use jlu_drcom.Auth.Pppoe.{Challenge, pppoe_challenge, pppoe_login}
use jlu_drcom.Auth.Pppoe.Loop.{
  Pppoe, PppoeStep, continue, break, stopped, challenge_failed, challenge_answered, pppoe_keepalive,
  pppoe_round, pppoe_loop, dogcom_pppoe,
}
use jlu_drcom.Auth.Pppoe.Loop.Exit.{PppoeStep-cases}
use jlu_drcom.Auth.Pppoe.Protocol.{
  Stage, between, challenged, logged, versioned, type_of, Talk, keep_alive, leave,
}
use jlu_drcom.Auth.Pppoe.Protocol.Exchanges.{
  At, ignores, ChallengeAt, LoginAt, challenge-ChallengeAt, login-LoginAt,
}
use jlu_drcom.Auth.Protocol.Counting.{keepalive_2-Holds}
use jlu_drcom.Auth.Protocol.Sending.{Leads, Holds-SameSent, poll_stop-SameSent}
use jlu_drcom.Config.{Config}
use jlu_drcom.Keepalive.Second.{keepalive_2, keepalive_2_packet}
use jlu_drcom.Packet.{Digests, built, rejected, fault}
use jlu_drcom.RetryPolicy.{ExtraKind, extra_first, extra_none}
use jlu_drcom.Udp.{Address, World, poll_stop}

module _ (digests : Digests) (config : Config) (stack : World → Bytes) (lossy : Bool)
    (start : World) where
  abbrev Here : Stage → World → Type 0
  Here p w = At digests config stack lossy start p w

  kept_alive :
      (cfg : Config) (et n : ℕ) (c : Challenge)
      → cfg ≡ versioned config c
      → et ≡ type_of c
      → (m : ℕ) (kind : ExtraKind) (type : ℕ) (tail : List (ℕ × Bytes))
      → Leads
          (keepalive_2_packet digests (codes "pppoe") cfg m kind type et tail)
          (λ sent inbox slept. Talk digests config stack lossy start (logged n c) sent inbox)
          (λ sent inbox slept. Talk digests config stack lossy start (logged n c) sent inbox)
  kept_alive cfg et n c same same_type m kind type tail sent inbox slept d =
      rw (same, same_type) (keep_alive m kind type tail d)

  -- Wherever the loop ends or is cut off, a round has come to its end.
  abbrev pub Talks : Decision → Type 0
  Talks (next s) = ⊥
  Talks (ended code (built w)) = (n : ℕ) × Here (between n) w
  Talks (ended code rejected) = ⊥
  Talks (ended code fault) = ⊥
  Talks (unfinished w) = (n : ℕ) × Here (between n) w

  module _ (addr : Address) (eternal_flag : Bool) (try_times : ℕ) where
    -- Between two rounds; the configuration has changed in its version only.
    Settled : Pppoe → Type 0
    Settled s =
        Here (between s.pppoe_counter) s.world
        × ((v : Bytes)
            → record s.config { keep_alive_version = v } ≡ record config { keep_alive_version = v })

    StepAt : PppoeStep → Type 0
    unfolding Settled
    StepAt (continue s) = Settled s
    StepAt (break s) = Settled s
    StepAt (stopped s) = Settled s

    failed-StepAt :
        (s : Pppoe)
        → Settled s
        → StepAt (challenge_failed digests stack addr eternal_flag try_times s)
    unfolding challenge_failed StepAt
    failed-StepAt s h =
        elim (Bool-cases (leb try_times (if eternal_flag then 0 else s.try_counter + 1))) [
          | inl over ↦ rw (challenge_failed, over) h
          | inr under ↦
              rw (challenge_failed, under) (record { holds = h.0.holds; sends = h.0.sends }, h.1)
        ]

    keepalive-StepAt :
        (s : Pppoe) (c : Challenge)
        → s.config ≡ versioned config c
        → s.encrypt_type ≡ type_of c
        → Here (logged s.pppoe_counter c) s.world
        → ((v : Bytes)
            → record s.config { keep_alive_version = v } ≡ record config { keep_alive_version = v })
        → StepAt (pppoe_keepalive digests stack addr eternal_flag try_times s)
    unfolding pppoe_keepalive StepAt
    keepalive-StepAt s c same type h others =
        let kind = if s.first then extra_first else extra_none in
        let kept =
          keepalive_2 digests (codes "pppoe") s.config addr s.keepalive_counter kind s.encrypt_type
            s.world in
        let h1 =
          keepalive_2-Holds digests (codes "pppoe") s.config addr lossy s.encrypt_type
            (λ sent inbox slept.
              Talk digests config stack lossy start (logged s.pppoe_counter c) sent inbox)
            (ignores digests config stack lossy start (logged s.pppoe_counter c))
            (kept_alive s.config s.encrypt_type s.pppoe_counter c same type) s.keepalive_counter
            kind s.world h in
        let resting : Here (between s.pppoe_counter) kept.2 = record {
          holds = leave h1.holds;
          sends = h1.sends;
        } in
        elim (Status-cases kept.0) [
          | inl alive ↦
              rw (pppoe_keepalive, alive)
                (record { holds = resting.holds; sends = resting.sends }, others)
          | inr failed ↦ rw (pppoe_keepalive, failed) (resting, others)
        ]

    -- The state that a challenge leaves to the login.
    answering : Challenge → Pppoe → Pppoe
    answering c s = record s {
      encrypt_mode = c.encrypt_mode;
      config = record s.config { keep_alive_version = c.keep_alive_version };
    }

    answered-StepAt :
        (c : Challenge) (s : Pppoe)
        → Here (challenged s.pppoe_counter c) s.world
        → ((v : Bytes)
            → record s.config { keep_alive_version = v } ≡ record config { keep_alive_version = v })
        → StepAt (challenge_answered digests stack addr eternal_flag try_times c (answering c s))
    unfolding challenge_answered StepAt answering
    answered-StepAt c s h others =
        let set = answering c s in
        let login =
          pppoe_login digests set.config stack s.pppoe_counter c.seed c.sip s.login_first
            c.encrypt_mode s.world in
        let logging : Pppoe = record set {
          encrypt_type = login.1;
          pppoe_counter = login.2;
          world = login.3;
        } in
        let ends =
          login-LoginAt digests config stack lossy start set.config s.pppoe_counter c s.login_first
            s.world (others c.keep_alive_version) h in
        let goes : LoginAt digests config stack lossy start login.2 c login.0 login.3 =
          subst (λ m. LoginAt digests config stack lossy start m c login.0 login.3) (sym (ends.1))
            (ends.2) in
        elim (Status-cases login.0) [
          | inl accepts ↦
              rw (challenge_answered, accepts)
                (keepalive-StepAt logging c (others c.keep_alive_version) (ends.0)
                  (subst (λ r. LoginAt digests config stack lossy start login.2 c r login.3) accepts
                    goes)
                  others)
          | inr failed ↦
              rw (challenge_answered, failed)
                (
                  subst (λ r. LoginAt digests config stack lossy start login.2 c r login.3) failed
                      goes,
                  others,
                )
        ]

    round-StepAt :
        (s : Pppoe) → Settled s → StepAt (pppoe_round digests stack addr eternal_flag try_times s)
    unfolding pppoe_round StepAt answering
    round-StepAt s h =
        let w = (poll_stop s.world).1 in
        let polled = Holds-SameSent (poll_stop-SameSent s.world) (h.0) in
        let asked = pppoe_challenge stack s.pppoe_counter w in
        let failing : Pppoe = record s { pppoe_counter = asked.1; world = asked.2 } in
        let ends =
          challenge-ChallengeAt digests config stack lossy start s.pppoe_counter w polled in
        let goes : ChallengeAt digests config stack lossy start asked.1 asked.0 asked.2 =
          subst (λ m. ChallengeAt digests config stack lossy start m asked.0 asked.2) (sym (ends.0))
            (ends.1) in
        elim (Bool-cases (poll_stop s.world).0) [
          | inl stopping ↦ rw (pppoe_round, stopping) (polled, h.1)
          | inr running ↦ elim (Option-cases asked.0) [
            | inl silent ↦
                rw (pppoe_round, running, silent)
                  (failed-StepAt failing (
                    subst (λ r. ChallengeAt digests config stack lossy start asked.1 r asked.2)
                        silent goes,
                    h.1,
                  ))
            | inr (c, answer) ↦
                rw (pppoe_round, running, answer)
                  (answered-StepAt c failing
                    (subst (λ r. ChallengeAt digests config stack lossy start asked.1 r asked.2)
                      answer goes)
                    (h.1))
          ]
        ]

    loop-Talks :
        (left : ℕ) (s : Pppoe)
        → Settled s
        → Talks (pppoe_loop digests stack addr eternal_flag try_times left s)
    unfolding pppoe_loop StepAt
    loop-Talks zero s h = (s.pppoe_counter, h.0)
    loop-Talks (suc left) s h =
        let one = round-StepAt s h in
        elim (PppoeStep-cases (pppoe_round digests stack addr eternal_flag try_times s)) [
          | inl (t, e) ↦ rw (pppoe_loop, e) (loop-Talks left t (subst StepAt e one))
          | inr (inl (t, e)) ↦ rw (pppoe_loop, e) (t.pppoe_counter, (subst StepAt e one).0)
          | inr (inr (t, e)) ↦ rw (pppoe_loop, e) (t.pppoe_counter, (subst StepAt e one).0)
        ]

    pub dogcom_pppoe-Talks :
        (rounds : ℕ) (w : World)
        → Here (between 0) w
        → Talks (dogcom_pppoe digests stack addr eternal_flag try_times rounds config w)
    unfolding dogcom_pppoe Settled
    dogcom_pppoe-Talks rounds w h = loop-Talks rounds _ (h, (λ v. refl))
