-- ===== src/Auth/Program/SetUp.antt =====
-- drcom/src/auth.c: the ways of `dogcom` to the loop of the mode.
use jlu_drcom.Base.{ℕ, ◌≡◌, inl, inr, Bool, true, Bytes, Bool-cases}
use jlu_drcom.Auth.Delay.{maybe_delay_initial_login, read_system_uptime_seconds}
use jlu_drcom.Auth.Dogcom.{Decision, ended}
use jlu_drcom.Auth.Program.{System, run_mode, dogcom}
use jlu_drcom.Config.{Config}
use jlu_drcom.Packet.{Digests, built}
use jlu_drcom.Udp.{Address, World, poll_stop}

-- The world behind the initial delay.
abbrev pub delayed : System → Config → World → World
delayed system config w =
    maybe_delay_initial_login config (read_system_uptime_seconds system.uptime) w

module _ (digests : Digests) (stack : World → Bytes) (addr : Address) (rounds attempts : ℕ) where
  -- What holds behind a set-up that fails, a stop in the initial delay and the loop of the mode holds
  -- behind `dogcom`.
  pub dogcom-via-run_mode :
      (P : Decision → Type 0) (system : System) (mode : Bytes) (eternal_flag : Bool)
      (config : Config) (try_times : ℕ) (w : World)
      → let polled = poll_stop (delayed system config w) in
        P (ended 1 (built w))
        → (polled.0 ≡ true → P (ended 0 (built polled.1)))
        → P (
            run_mode digests stack addr rounds attempts mode eternal_flag config try_times polled.1)
        → P (dogcom digests stack addr rounds attempts system mode eternal_flag config try_times w)
  unfolding dogcom
  dogcom-via-run_mode P system mode eternal_flag config try_times w fails stops runs =
      elim (Bool-cases system.socket_created) [
        | inr no_socket ↦ rw (dogcom, no_socket) fails
        | inl created ↦ elim (Bool-cases system.socket_bound) [
          | inr unbound ↦ rw (dogcom, created, unbound) fails
          | inl bound ↦ elim (Bool-cases system.timeout_set) [
            | inr unset ↦ rw (dogcom, created, bound, unset) fails
            | inl set ↦ elim (Bool-cases (poll_stop (delayed system config w)).0) [
              | inl stopping ↦ rw (dogcom, created, bound, set, stopping) (stops stopping)
              | inr running ↦ rw (dogcom, created, bound, set, running) runs
            ]
          ]
        ]
      ]
