-- ===== src/Auth/Program/Exit.antt =====
-- drcom/src/auth.c: the results of `dogcom`.
use jlu_drcom.Base.{ℕ, inl, inr, Bool, Bytes, Bool-cases, codes, equal}
use jlu_drcom.Auth.Pppoe.Loop.{dogcom_pppoe}
use jlu_drcom.Auth.Program.{System, run_mode, dogcom}
use jlu_drcom.Auth.Program.SetUp.{delayed, dogcom-via-run_mode}
use jlu_drcom.Config.{Config}
use jlu_drcom.Packet.{Digests}
use jlu_drcom.Udp.{Address, World}
use jlu_drcom.Udp.Stop.{poll_stop-stop_requested}
use jlu_drcom.Auth.Dogcom.Exit.{IsExit, dogcom_dhcp-IsExit}
use jlu_drcom.Auth.Pppoe.Loop.Exit.{pppoe_loop-IsExit}

module _ (digests : Digests) (stack : World → Bytes) (addr : Address) (rounds attempts : ℕ) where
  run_mode-IsExit :
      (mode : Bytes) (eternal_flag : Bool) (config : Config) (try_times : ℕ) (w : World)
      → IsExit (run_mode digests stack addr rounds attempts mode eternal_flag config try_times w)
  unfolding run_mode dogcom_pppoe
  run_mode-IsExit mode eternal_flag config try_times w =
      elim (Bool-cases (equal mode (codes "dhcp"))) [
        | inl dhcp ↦
            rw (run_mode, dhcp)
              (dogcom_dhcp-IsExit digests config addr rounds attempts eternal_flag try_times 0 _)
        | inr other ↦ elim (Bool-cases (equal mode (codes "pppoe"))) [
          | inl pppoe ↦
              rw (run_mode, other, pppoe)
                (pppoe_loop-IsExit digests stack addr eternal_flag try_times attempts _)
          | inr unknown ↦ rw (run_mode, other, unknown) tt
        ]
      ]

  -- In every mode, with every configuration and whatever the server does, `dogcom` ends with 0 or 1, and
  -- with 0 only when a stop has been requested, unless the login packet has run into undefined behaviour.
  pub dogcom-IsExit :
      (system : System) (mode : Bytes) (eternal_flag : Bool) (config : Config) (try_times : ℕ)
      (w : World)
      → IsExit
          (dogcom digests stack addr rounds attempts system mode eternal_flag config try_times w)
  dogcom-IsExit system mode eternal_flag config try_times w =
      dogcom-via-run_mode digests stack addr rounds attempts IsExit system mode eternal_flag config
        try_times w tt (λ stopping. poll_stop-stop_requested (delayed system config w) stopping)
        (run_mode-IsExit mode eternal_flag config try_times _)
