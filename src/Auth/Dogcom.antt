-- ===== src/Auth/Dogcom.antt =====
-- drcom/src/auth.c: the attempts of `dogcom` in mode `dhcp`, each a challenge, a login and the keepalive
-- loop of the session.
pub mod Laws
pub mod Exit
pub mod Welcome
pub mod Stay
use jlu_drcom.Base.{
  ℕ, zero, suc, ◌+◌, ltb, Bool, true, false, if◌then◌else◌, Bytes, ℤ, pos, none, some,
}
use jlu_drcom.Config.{Config}
use jlu_drcom.Packet.{Digests, Build, built, fault}
use jlu_drcom.RetryPolicy.{
  LoginTemplate, standard, jlu, default_login_retry_delay_seconds, normalize_login_retry_delay,
  login_template_for_attempt,
}
use jlu_drcom.Auth.Delay.{sleep_before_retry}
use jlu_drcom.Auth.Exchange.{
  dhcp_challenge, dhcp_login, accepted, refused, undefined, logout_before_stop_exit,
}
use jlu_drcom.Auth.Session.{go_on, reconnect, stop, keepalive_loop}
use jlu_drcom.Udp.{Address, World, poll_stop}

pub record Attempts : Type 0 where
  pub login_failed_attempts : ℕ
  pub retry_delay : ℤ
  pub outside : World

-- What an attempt decides: the next attempt, the end of `dogcom` with a result, or that the keepalive
-- loop runs for longer than the rounds that are modelled, with the world so far.
pub data Decision : Type 0 where
  next : Attempts → Decision
  ended : ℕ → Build World → Decision
  unfinished : World → Decision

-- `sleep_before_retry(current_login_retry_delay())`, unless a stop is requested: then `on_stop`.
abbrev pub pause_or_stop : (World → Build World) → Attempts → Decision
pause_or_stop on_stop s =
    let (stopping, w) = poll_stop s.outside in
    if stopping
    then ended 0 (on_stop w)
    else next
        (record s { outside = sleep_before_retry (normalize_login_retry_delay s.retry_delay) w })

abbrev pub is_jlu : LoginTemplate → Bool
is_jlu standard = false
is_jlu jlu = true

module _ (digests : Digests) (config : Config) (addr : Address) (rounds : ℕ) where
  -- Behind a login that was accepted. The delay after a reconnection is awaited with no further check
  -- but the one that stands in front of it.
  unfoldable pub session : Bytes → Bytes → World → Decision
  session seed auth_information w =
      elim (keepalive_loop digests config addr rounds seed auth_information (record {
        keepalive_counter = 0;
        keepalive_try_counter = pos 0;
        keepalive_rounds = 0;
        delay = pos default_login_retry_delay_seconds;
        world = w;
      })) [
        | go_on s ↦ unfinished s.world
        | stop end ↦ ended 0 end
        | reconnect s ↦
            pause_or_stop (logout_before_stop_exit digests config addr auth_information)
              (record { login_failed_attempts = 0; retry_delay = s.delay; outside = s.world })
      ]

  -- One round of the `for` loop.
  unfoldable pub attempt : Attempts → Decision
  unfolding session
  attempt s =
      let (stopping, w) = poll_stop s.outside in
      if stopping
      then ended 0 (built w)
      else (let (challenged, delay1, w1) = dhcp_challenge config addr w in
          elim challenged [
            | none ↦ pause_or_stop built (record s { retry_delay = delay1; outside = w1 })
            | some seed ↦
                let try_jlu_version =
                  is_jlu
                    (login_template_for_attempt config.jlu_mode (pos s.login_failed_attempts)) in
                let (result, delay2, w2) =
                  dhcp_login digests config addr seed try_jlu_version delay1 w1 in
                elim result [
                  | accepted auth_information ↦ session seed auth_information w2
                  | refused ↦ pause_or_stop built (record {
                    login_failed_attempts = s.login_failed_attempts + 1;
                    retry_delay = delay2;
                    outside = w2;
                  })
                  | undefined ↦ ended 0 fault
                ]
          ])

  -- The `for` loop from a value of `try_counter` on, for a number of rounds.
  unfoldable pub dogcom_dhcp : ℕ → Bool → ℕ → ℕ → Attempts → Decision
  unfolding attempt
  dogcom_dhcp zero eternal_flag try_times try_counter s = unfinished s.outside
  dogcom_dhcp (suc left) eternal_flag try_times try_counter s =
      if ltb try_counter try_times
      then (elim (attempt s) [
        | next s1 ↦
            dogcom_dhcp left eternal_flag try_times ((if eternal_flag then 0 else try_counter) + 1)
              s1
        | ended result w ↦ ended result w
        | unfinished w ↦ unfinished w
      ])
      else ended 1 (built s.outside)
