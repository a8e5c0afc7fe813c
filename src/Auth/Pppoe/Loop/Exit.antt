-- ===== src/Auth/Pppoe/Loop/Exit.antt =====
-- drcom/src/auth.c: the results of `dogcom` in mode `pppoe`.
use mathlib.Core.Path.{subst}
use jlu_drcom.Base.{
  ◌+◌, ℕ, zero, suc, ◌≡◌, refl, ◌⊎◌, inl, inr, Bool, true, if◌then◌else◌, Bytes, leb, Status-cases,
  Bool-cases, Option-cases, codes,
}
use jlu_drcom.Auth.Pppoe.{Challenge, pppoe_challenge, pppoe_login}
use jlu_drcom.Auth.Pppoe.Loop.{
  pppoe_keepalive, Pppoe, PppoeStep, continue, break, stopped, pppoe_round, pppoe_loop,
  challenge_failed, challenge_answered,
}
use jlu_drcom.Keepalive.Second.{keepalive_2}
use jlu_drcom.RetryPolicy.{extra_first, extra_none}
use jlu_drcom.Packet.{Digests}
use jlu_drcom.Udp.{Address, World, poll_stop}
use jlu_drcom.Udp.Stop.{poll_stop-stop_requested}
use jlu_drcom.Auth.Dogcom.Exit.{IsExit}

pub PppoeStep-cases :
    (r : PppoeStep)
    → ((s : Pppoe) × (r ≡ continue s))
      ⊎ ((s : Pppoe) × (r ≡ break s))
      ⊎ ((s : Pppoe) × (r ≡ stopped s))
PppoeStep-cases (continue s) = inl (s, refl)
PppoeStep-cases (break s) = inr (inl (s, refl))
PppoeStep-cases (stopped s) = inr (inr (s, refl))

module _ (digests : Digests) (stack : World → Bytes) (addr : Address) (eternal_flag : Bool)
    (try_times : ℕ) where
  -- A round that stops has the stop flag up.
  StopRound : PppoeStep → Type 0
  StopRound (continue s) = Unit
  StopRound (break s) = Unit
  StopRound (stopped s) = s.world.stop_requested ≡ true

  challenge_failed-StopRound :
      (s : Pppoe) → StopRound (challenge_failed digests stack addr eternal_flag try_times s)
  unfolding challenge_failed StopRound
  challenge_failed-StopRound s =
      elim (Bool-cases (leb try_times (if eternal_flag then 0 else s.try_counter + 1))) [
        | inl over ↦ rw (challenge_failed, over) tt
        | inr under ↦ rw (challenge_failed, under) tt
      ]

  pppoe_keepalive-StopRound :
      (s : Pppoe) → StopRound (pppoe_keepalive digests stack addr eternal_flag try_times s)
  unfolding pppoe_keepalive StopRound
  pppoe_keepalive-StopRound s =
      let kept =
        keepalive_2 digests (codes "pppoe") s.config addr s.keepalive_counter
          (if s.first then extra_first else extra_none) s.encrypt_type s.world in
      elim (Status-cases kept.0) [
        | inl alive ↦ rw (pppoe_keepalive, alive) tt
        | inr failed ↦ rw (pppoe_keepalive, failed) tt
      ]

  challenge_answered-StopRound :
      (c : Challenge) (s : Pppoe)
      → StopRound (challenge_answered digests stack addr eternal_flag try_times c s)
  unfolding challenge_answered StopRound
  challenge_answered-StopRound c s =
      let login =
        pppoe_login digests s.config stack s.pppoe_counter c.seed c.sip s.login_first s.encrypt_mode
          s.world in
      let logged : Pppoe = record s {
        encrypt_type = login.1;
        pppoe_counter = login.2;
        world = login.3;
      } in
      elim (Status-cases login.0) [
        | inl accepts ↦ rw (challenge_answered, accepts) (pppoe_keepalive-StopRound logged)
        | inr failed ↦ rw (challenge_answered, failed) tt
      ]

  pppoe_round-StopRound :
      (s : Pppoe) → StopRound (pppoe_round digests stack addr eternal_flag try_times s)
  unfolding pppoe_round StopRound
  pppoe_round-StopRound s =
      let w = (poll_stop s.world).1 in
      let asked = pppoe_challenge stack s.pppoe_counter w in
      let failing : Pppoe = record s { pppoe_counter = asked.1; world = asked.2 } in
      elim (Bool-cases (poll_stop s.world).0) [
        | inl stopping ↦ rw (pppoe_round, stopping) (poll_stop-stop_requested s.world stopping)
        | inr running ↦ elim (Option-cases asked.0) [
          | inl silent ↦ rw (pppoe_round, running, silent) (challenge_failed-StopRound failing)
          | inr (c, answer) ↦
              rw (pppoe_round, running, answer)
                (challenge_answered-StopRound c (record failing {
                  encrypt_mode = c.encrypt_mode;
                  config = record s.config { keep_alive_version = c.keep_alive_version };
                }))
        ]
      ]

  pub pppoe_loop-IsExit :
      (left : ℕ) (s : Pppoe) → IsExit (pppoe_loop digests stack addr eternal_flag try_times left s)
  unfolding pppoe_loop StopRound
  pppoe_loop-IsExit zero s = tt
  pppoe_loop-IsExit (suc left) s =
      let one = pppoe_round-StopRound s in
      elim (PppoeStep-cases (pppoe_round digests stack addr eternal_flag try_times s)) [
        | inl (t, e) ↦ rw (pppoe_loop, e) (pppoe_loop-IsExit left t)
        | inr (inl (t, e)) ↦ rw (pppoe_loop, e) tt
        | inr (inr (t, e)) ↦ rw (pppoe_loop, e) (subst StopRound e one)
      ]
