-- ===== src/Auth/Protocol/Program.antt =====
-- drcom/src/auth.c: `dogcom` in mode `dhcp`, in the protocol.
use jlu_drcom.Base.{
  ℕ, ◌-◌, ◌≡◌, ◌⊎◌, inl, inr, ◌==◌, ◌||◌, leb, Bool, Bool-cases, Bytes, List, [], ◌∷◌, codes,
}
use jlu_drcom.Auth.Delay.{maybe_delay_initial_login, read_system_uptime_seconds}
use jlu_drcom.Auth.Program.{System, run_mode, dogcom}
use jlu_drcom.Auth.Program.SetUp.{delayed, dogcom-via-run_mode}
use jlu_drcom.Auth.Protocol.{idle, begin, pause, Dialogue, Sends}
use jlu_drcom.Auth.Protocol.Runs.{Obeys, dogcom_dhcp-Obeys}
use jlu_drcom.Auth.Protocol.Sending.{View, Holds, Holds-SameSent, poll_stop-SameSent}
use jlu_drcom.Auth.Protocol.Sessions.{At}
use jlu_drcom.Config.{Config}
use jlu_drcom.Packet.{Digests}
use jlu_drcom.Udp.{Address, Incoming, World, poll_stop}

-- The initial delay is a pause or nothing.
pub delayed-cases :
    (system : System) (config : Config) (w : World)
    → (delayed system config w ≡ w)
      ⊎ ((n : ℕ) × (delayed system config w ≡ record w { slept = n ∷ w.slept }))
unfolding maybe_delay_initial_login
delayed-cases system config w =
    let uptime = read_system_uptime_seconds system.uptime in
    elim (Bool-cases (
      config.startup_delay_seconds == 0
      || uptime == 0
      || leb config.startup_delay_seconds uptime)) [
        | inl none_due ↦ inl (rw (maybe_delay_initial_login, none_due))
        | inr due ↦ inr (config.startup_delay_seconds - uptime, rw (maybe_delay_initial_login, due))
      ]

-- Behind the initial delay and the look at the stop flag, for a view that a pause keeps.
pub delayed-Holds :
    {lossy : Bool} {P : View} (system : System) (config : Config) (w : World)
    → ((n : ℕ) (sent : List Bytes) (inbox : List Incoming) (slept : List ℕ)
        → P sent inbox slept
        → P sent inbox (n ∷ slept))
    → Holds lossy P w
    → Holds lossy P (poll_stop (delayed system config w)).1
delayed-Holds {lossy} {P} system config w pauses h =
    Holds-SameSent (poll_stop-SameSent (delayed system config w))
      (elim (delayed-cases system config w) [
        | inl same ↦ rw same h
        | inr (n, later) ↦
            rw later (record { holds = pauses n w.sent w.inbox w.slept h.holds; sends = h.sends })
      ])

module _ (digests : Digests) (stack : World → Bytes) (addr : Address) (rounds attempts : ℕ) where
  -- `dogcom` in mode `dhcp` keeps to the protocol, whatever arrives and whenever a stop is requested.
  -- What it has sent, from no packet on, what it has taken from the datagrams that were to arrive and
  -- what it has slept lead to a phase, also where the run is cut off in the middle. Where it ends, short
  -- of undefined behaviour, it is idle or behind the start of a logout: an open session is left by a
  -- logout or given up with a pause of a minute. If `sendto` never fails, the rules for packets that got
  -- lost are not used.
  pub dogcom-Obeys :
      (system : System) (eternal_flag : Bool) (config : Config) (try_times : ℕ) (lossy : Bool)
      (w : World)
      → w.sent ≡ []
      → Sends lossy w
      → Obeys digests config addr lossy w (
          dogcom digests stack addr rounds attempts system
            (codes "dhcp")
            eternal_flag
            config
            try_times
            w)
  unfolding run_mode
  dogcom-Obeys system eternal_flag config try_times lossy w nothing sends =
      let start : At digests config addr lossy w idle w = record {
        holds = rw nothing begin;
        sends = sends;
      } in
      let polled =
        delayed-Holds {P = Dialogue digests config addr lossy w idle} system config w
          (λ n sent inbox slept d. pause n d) start in
      dogcom-via-run_mode digests stack addr rounds attempts (Obeys digests config addr lossy w)
        system (codes "dhcp") eternal_flag config try_times w (idle, tt, start)
        (λ stopping. (idle, tt, polled))
        (dogcom_dhcp-Obeys digests config addr lossy w rounds attempts eternal_flag try_times 0 _
          (record { holds = polled.holds; sends = polled.sends }))
