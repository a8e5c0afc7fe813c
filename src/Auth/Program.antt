-- ===== src/Auth/Program.antt =====
-- drcom/src/auth.c: `dogcom`, from the set-up of the socket to the loop of the mode.
pub mod Exit
pub mod SetUp
use jlu_drcom.Base.{ℕ, Bool, true, false, not, if◌then◌else◌, Bytes, [], ◌∷◌, pos, codes, equal}
use jlu_drcom.Auth.Delay.{maybe_delay_initial_login, Uptime, read_system_uptime_seconds}
use jlu_drcom.Auth.Dogcom.{Decision, ended, unfinished, dogcom_dhcp}
use jlu_drcom.Auth.Pppoe.Loop.{dogcom_pppoe}
use jlu_drcom.Config.{Config}
use jlu_drcom.Packet.{Digests, Build, built}
use jlu_drcom.RetryPolicy.{default_login_retry_delay_seconds}
use jlu_drcom.Udp.{Address, World, poll_stop}

-- What the system calls in front of the loops return: whether the socket can be created, bound and
-- given its timeout, and what /proc/uptime holds.
pub record System : Type 0 where
  pub socket_created : Bool
  pub socket_bound : Bool
  pub timeout_set : Bool
  pub uptime : Uptime

module _ (digests : Digests) (stack : World → Bytes) (addr : Address) (rounds attempts : ℕ) where
  -- Behind the set-up: `rounds` bounds the keepalive loop of a session, and `attempts` the loop of
  -- the mode.
  unfoldable pub run_mode : Bytes → Bool → Config → ℕ → World → Decision
  unfolding equal
  run_mode mode eternal_flag config try_times w =
      if equal mode (codes "dhcp")
      then dogcom_dhcp digests config addr rounds attempts eternal_flag try_times 0 (record {
        login_failed_attempts = 0;
        retry_delay = pos default_login_retry_delay_seconds;
        outside = w;
      })
      else if equal mode (codes "pppoe")
      then dogcom_pppoe digests stack addr eternal_flag try_times attempts config w
      else ended 1 (built w)

  unfoldable pub dogcom : System → Bytes → Bool → Config → ℕ → World → Decision
  unfolding run_mode
  dogcom system mode eternal_flag config try_times w =
      if not system.socket_created
      then ended 1 (built w)
      else if not system.socket_bound
      then ended 1 (built w)
      else if not system.timeout_set
      then ended 1 (built w)
      else (let (stopping, w1) =
            poll_stop
              (maybe_delay_initial_login config (read_system_uptime_seconds system.uptime) w) in
          if stopping then ended 0 (built w1) else run_mode mode eternal_flag config try_times w1)
