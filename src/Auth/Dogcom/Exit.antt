-- ===== src/Auth/Dogcom/Exit.antt =====
-- drcom/src/auth.c: the results of `dogcom` in mode `dhcp`.
use mathlib.Core.Path.{subst}
use jlu_drcom.Base.{
  ℕ, zero, suc, ◌≡◌, refl, ◌⊎◌, inl, inr, Bool, true, Bytes, ltb, Bool-cases, Option-cases, pos,
}
use jlu_drcom.Auth.Dogcom.{
  Attempts, Decision, next, ended, unfinished, session, attempt, pause_or_stop, is_jlu, dogcom_dhcp,
}
use jlu_drcom.Auth.Exchange.{
  dhcp_challenge, dhcp_login, accepted, refused, undefined, LoginResult, logout_before_stop_exit,
}
use jlu_drcom.RetryPolicy.{login_template_for_attempt, default_login_retry_delay_seconds}
use jlu_drcom.Auth.Session.{Session, keepalive_loop}
use jlu_drcom.Config.{Config}
use jlu_drcom.Packet.{Digests, Build, built}
use jlu_drcom.Udp.{Address, World, poll_stop}
use jlu_drcom.Udp.Stop.{poll_stop-stop_requested}
use jlu_drcom.Auth.Session.Stops.{
  Stopped, logout-Stopped, Step-cases, StopStep, keepalive_loop-StopStep,
}

-- The result is 0 or 1, and 0 only with the stop flag up.
abbrev pub IsExit : Decision → Type 0
IsExit (next s) = Unit
IsExit (ended zero end) = Stopped end
IsExit (ended (suc zero) end) = Unit
IsExit (ended (suc (suc n)) end) = ⊥
IsExit (unfinished w) = Unit

pub LoginResult-cases :
    (r : LoginResult) → ((b : Bytes) × (r ≡ accepted b)) ⊎ (r ≡ refused) ⊎ (r ≡ undefined)
LoginResult-cases (accepted b) = inl (b, refl)
LoginResult-cases refused = inr (inl refl)
LoginResult-cases undefined = inr (inr refl)

pub Decision-cases :
    (d : Decision)
    → ((s : Attempts) × (d ≡ next s))
      ⊎ ((n : ℕ) × (w : Build World) × (d ≡ ended n w))
      ⊎ ((w : World) × (d ≡ unfinished w))
Decision-cases (next s) = inl (s, refl)
Decision-cases (ended n w) = inr (inl (n, w, refl))
Decision-cases (unfinished w) = inr (inr (w, refl))

module _ (digests : Digests) (config : Config) (addr : Address) (rounds : ℕ) where
  pause_or_stop-IsExit :
      (on_stop : World → Build World) (s : Attempts)
      → ((w : World) → w.stop_requested ≡ true → Stopped (on_stop w))
      → IsExit (pause_or_stop on_stop s)
  pause_or_stop-IsExit on_stop s keeps = elim (Bool-cases (poll_stop s.outside).0) [
    | inl stopping ↦
        rw stopping (keeps (poll_stop s.outside).1 (poll_stop-stop_requested s.outside stopping))
    | inr running ↦ rw running tt
  ]

  session-IsExit :
      (seed auth_information : Bytes) (w : World)
      → IsExit (session digests config addr rounds seed auth_information w)
  unfolding session StopStep
  session-IsExit seed auth_information w =
      let begun : Session = record {
        keepalive_counter = 0;
        keepalive_try_counter = pos 0;
        keepalive_rounds = 0;
        delay = pos default_login_retry_delay_seconds;
        world = w;
      } in
      let loop = keepalive_loop digests config addr rounds seed auth_information begun in
      let all = keepalive_loop-StopStep digests config addr rounds seed auth_information begun in
      elim (Step-cases loop) [
        | inl (t, e) ↦ rw (session, e) tt
        | inr (inl (t, e)) ↦
            rw (session, e)
              (pause_or_stop-IsExit (logout_before_stop_exit digests config addr auth_information) _
                (logout-Stopped digests config addr auth_information))
        | inr (inr (end, e)) ↦ rw (session, e) (subst (StopStep digests config addr) e all)
      ]

  attempt-IsExit : (s : Attempts) → IsExit (attempt digests config addr rounds s)
  unfolding attempt
  attempt-IsExit s =
      let w = (poll_stop s.outside).1 in
      let asked = dhcp_challenge config addr w in
      elim (Bool-cases (poll_stop s.outside).0) [
        | inl stopping ↦ rw (attempt, stopping) (poll_stop-stop_requested s.outside stopping)
        | inr running ↦ elim (Option-cases asked.0) [
          | inl silent ↦ rw (attempt, running, silent) (pause_or_stop-IsExit built _ (λ v up. up))
          | inr (seed, challenged) ↦
              let template =
                is_jlu (login_template_for_attempt config.jlu_mode (pos s.login_failed_attempts)) in
              let login = dhcp_login digests config addr seed template asked.1 asked.2 in
              elim (LoginResult-cases login.0) [
                | inl (information, e) ↦
                    rw (attempt, running, challenged, e) (session-IsExit seed information login.2)
                | inr (inl e) ↦
                    rw (attempt, running, challenged, e) (pause_or_stop-IsExit built _ (λ v up. up))
                | inr (inr e) ↦ rw (attempt, running, challenged, e) tt
              ]
        ]
      ]

  pub dogcom_dhcp-IsExit :
      (left : ℕ) (eternal_flag : Bool) (try_times c : ℕ) (s : Attempts)
      → IsExit (dogcom_dhcp digests config addr rounds left eternal_flag try_times c s)
  unfolding dogcom_dhcp
  dogcom_dhcp-IsExit zero eternal_flag try_times c s = tt
  dogcom_dhcp-IsExit (suc left) eternal_flag try_times c s =
      let one = attempt-IsExit s in
      elim (Bool-cases (ltb c try_times)) [
        | inr over ↦ rw (dogcom_dhcp, over) tt
        | inl under ↦ elim (Decision-cases (attempt digests config addr rounds s)) [
          | inl (t, e) ↦
              rw (dogcom_dhcp, under, e) (dogcom_dhcp-IsExit left eternal_flag try_times _ t)
          | inr (inl (result, w, e)) ↦ rw (dogcom_dhcp, under, e) (subst IsExit e one)
          | inr (inr (w, e)) ↦ rw (dogcom_dhcp, under, e) tt
        ]
      ]
