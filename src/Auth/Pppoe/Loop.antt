-- ===== src/Auth/Pppoe/Loop.antt =====
-- drcom/src/auth.c: the loop of `dogcom` in mode `pppoe`.
pub mod Laws
pub mod Exit
use jlu_drcom.Base.{
  ℕ, zero, suc, ◌+◌, leb, Bool, true, false, if◌then◌else◌, Bytes, [], ◌∷◌, Option, none, some,
  codes, Status, success, failure,
}
use jlu_drcom.Auth.Dogcom.{Decision, ended, unfinished}
use jlu_drcom.Auth.Pppoe.{Challenge, pppoe_challenge, pppoe_login}
use jlu_drcom.Config.{Config}
use jlu_drcom.Keepalive.Second.{keepalive_2}
use jlu_drcom.Packet.{Digests, Build, built}
use jlu_drcom.RetryPolicy.{ExtraKind, extra_none, extra_first}
use jlu_drcom.Udp.{Address, World, poll_stop}

-- The variables in front of the loop, the configuration and the world. `seed` and `sip` are written
-- by a challenge and read by the login behind it.
pub record Pppoe : Type 0 where
  pub pppoe_counter : ℕ
  pub keepalive_counter : ℕ
  pub login_first : Bool
  pub first : Bool
  pub encrypt_mode : Bool
  pub encrypt_type : ℕ
  pub try_counter : ℕ
  pub config : Config
  pub world : World

-- What a round decides.
pub data PppoeStep : Type 0 where
  continue break stopped : Pppoe → PppoeStep

abbrev sleep : ℕ → World → World
sleep seconds w = record w { slept = seconds ∷ w.slept }

module _ (digests : Digests) (stack : World → Bytes) (addr : Address) (eternal_flag : Bool)
    (try_times : ℕ) where
  -- Behind a challenge that failed.
  unfoldable pub challenge_failed : Pppoe → PppoeStep
  challenge_failed s =
      let tries = if eternal_flag then 0 else s.try_counter + 1 in
      let failed = record s { login_first = true; try_counter = tries } in
      if leb try_times tries
      then break failed
      else continue (record failed { world = sleep 5 s.world })

  -- Behind a login that was accepted.
  unfoldable pub pppoe_keepalive : Pppoe → PppoeStep
  pppoe_keepalive s =
      let (status, counter, w) =
        keepalive_2 digests (codes "pppoe") s.config addr s.keepalive_counter
          (if s.first then extra_first else extra_none) s.encrypt_type s.world in
      let kept = record s { login_first = false; keepalive_counter = counter; world = w } in
      elim status [
        | failure ↦ continue kept
        | success ↦ continue (record kept { first = false; world = sleep 10 w })
      ]

  -- Behind a challenge that was answered.
  unfoldable pub challenge_answered : Challenge → Pppoe → PppoeStep
  unfolding pppoe_keepalive
  challenge_answered c s =
      let (status, type, counter, w) =
        pppoe_login digests s.config stack s.pppoe_counter c.seed c.sip s.login_first s.encrypt_mode
          s.world in
      let logged = record s { encrypt_type = type; pppoe_counter = counter; world = w } in
      elim status [ failure ↦ continue logged | success ↦ pppoe_keepalive logged ]

  unfoldable pub pppoe_round : Pppoe → PppoeStep
  unfolding challenge_failed challenge_answered
  pppoe_round s =
      let (stopping, w) = poll_stop s.world in
      if stopping
      then stopped (record s { world = w })
      else (let (challenge, counter, w1) = pppoe_challenge stack s.pppoe_counter w in
          elim challenge [
            | none ↦ challenge_failed (record s { pppoe_counter = counter; world = w1 })
            | some c ↦ challenge_answered c (record s {
              pppoe_counter = counter;
              encrypt_mode = c.encrypt_mode;
              config = record s.config { keep_alive_version = c.keep_alive_version };
              world = w1;
            })
          ])

  -- The `while (1)` loop, for a number of rounds.
  unfoldable pub pppoe_loop : ℕ → Pppoe → Decision
  unfolding pppoe_round
  pppoe_loop zero s = unfinished s.world
  pppoe_loop (suc rounds) s = elim (pppoe_round s) [
    | continue t ↦ pppoe_loop rounds t
    | break t ↦ ended 1 (built t.world)
    | stopped t ↦ ended 0 (built t.world)
  ]

  -- The loop with its variables as `dogcom` starts them.
  unfoldable pub dogcom_pppoe : ℕ → Config → World → Decision
  unfolding pppoe_loop
  dogcom_pppoe rounds config w = pppoe_loop rounds (record {
    pppoe_counter = 0;
    keepalive_counter = 0;
    login_first = true;
    first = true;
    encrypt_mode = false;
    encrypt_type = 0;
    try_counter = 0;
    config = config;
    world = w;
  })
