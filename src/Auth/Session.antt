-- ===== src/Auth/Session.antt =====
-- drcom/src/auth.c: the loop of `dogcom` in mode `dhcp`, from the first check of the stop flag on.
-- The pauses of 0.2 seconds have no effect on the state and are left out.
pub mod Laws
pub mod Served
pub mod Stops
use jlu_drcom.Base.{
  ℕ, zero, suc, ◌+◌, ltb, not, codes, ◌==◌, Bool, true, false, if◌then◌else◌, Bytes, [], ◌∷◌, ℤ,
  pos, Option, none, some, Status, success, failure,
}
use jlu_drcom.Config.{Config}
use jlu_drcom.Packet.{Digests, Build, built, rejected, fault}
use jlu_drcom.RetryPolicy.{
  ExtraKind, extra_none, extra_first, LoginTemplate, standard, jlu,
  default_login_retry_delay_seconds, normalize_login_retry_delay, next_keepalive_failure_count,
  should_reconnect_after_keepalive_failure, keepalive_extra_packet_kind, login_template_for_attempt,
}
use jlu_drcom.Auth.Delay.{set_login_retry_delay, sleep_before_retry}
use jlu_drcom.Auth.Exchange.{
  dhcp_challenge, dhcp_login, LoginResult, accepted, refused, undefined, logout_before_stop_exit,
}
use jlu_drcom.Keepalive.First.{keepalive_1}
use jlu_drcom.Keepalive.Second.{keepalive_2}
use jlu_drcom.Udp.{Address, World, poll_stop}

-- The variables of the keepalive loop, `login_retry_delay_seconds` and the world.
pub record Session : Type 0 where
  pub keepalive_counter : ℕ
  pub keepalive_try_counter : ℤ
  pub keepalive_rounds : ℕ
  pub delay : ℤ
  pub world : World

-- What a round of the keepalive loop decides: to go on, to log in again, or to end the program.
pub data Step : Type 0 where
  go_on reconnect : Session → Step
  stop : Build World → Step

-- A failed exchange: the counter, and whether the session is given up.
unfoldable pub keepalive_failed : Session → Step
keepalive_failed s =
    let failures = next_keepalive_failure_count s.keepalive_try_counter false in
    if should_reconnect_after_keepalive_failure failures
    then reconnect (record s {
      keepalive_try_counter = failures;
      delay = set_login_retry_delay (pos default_login_retry_delay_seconds);
    })
    else go_on (record s { keepalive_try_counter = failures })

abbrev pub extra_kind : Config → ℕ → ExtraKind
extra_kind config rounds =
    if config.jlu_mode
    then keepalive_extra_packet_kind (pos rounds)
    else if rounds == 0
    then extra_first
    else extra_none

module _ (digests : Digests) (config : Config) (addr : Address) where
  -- The part of a round behind the check of the stop flag.
  unfoldable pub keepalive_exchanges : Bytes → Bytes → Session → Step
  unfolding keepalive_failed
  keepalive_exchanges seed auth_information s =
      let (first, w1) = keepalive_1 digests config addr seed auth_information s.world in
      let (second, counter, w2) =
        keepalive_2 digests (codes "dhcp") config addr s.keepalive_counter
          (extra_kind config s.keepalive_rounds) 0 w1 in
      elim first [
        | failure ↦ keepalive_failed (record s { world = w1 })
        | success ↦ elim second [
          | failure ↦ keepalive_failed (record s { keepalive_counter = counter; world = w2 })
          | success ↦ go_on (record s {
            keepalive_counter = counter;
            keepalive_rounds = s.keepalive_rounds + 1;
            keepalive_try_counter = next_keepalive_failure_count s.keepalive_try_counter true;
            world = record w2 { slept = 20 ∷ w2.slept };
          })
        ]
      ]

  unfoldable pub keepalive_round : Bytes → Bytes → Session → Step
  unfolding keepalive_exchanges
  keepalive_round seed auth_information s =
      let (stopping, w) = poll_stop s.world in
      if stopping
      then stop (logout_before_stop_exit digests config addr auth_information w)
      else keepalive_exchanges seed auth_information (record s { world = w })

  -- The `while (1)` loop, for a number of rounds; `go_on` says that it has not ended in them.
  unfoldable pub keepalive_loop : ℕ → Bytes → Bytes → Session → Step
  unfolding keepalive_round
  keepalive_loop zero seed auth_information s = go_on s
  keepalive_loop (suc rounds) seed auth_information s =
      elim (keepalive_round seed auth_information s) [
        | go_on next ↦ keepalive_loop rounds seed auth_information next
        | reconnect last ↦ reconnect last
        | stop end ↦ stop end
      ]
