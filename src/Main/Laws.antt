-- ===== src/Main/Laws.antt =====
-- drcom/src/main.c: what holds when `main` calls `dogcom`.
use mathlib.Core.Path.{subst}
use jlu_drcom.Base.{
  ◌≡◌, ◌∙◌, refl, sym, ◌⊎◌, inl, inr, Bool, true, false, Bytes, List, [], Option, codes, arith,
  Bool-cases,
}
use jlu_drcom.Auth.Dogcom.{Decision}
use jlu_drcom.Auth.Dogcom.Exit.{IsExit}
use jlu_drcom.Auth.Program.Exit.{dogcom-IsExit}
use jlu_drcom.Config.Reader.Bounds.{GlobalsFit}
use jlu_drcom.Eapol.{Eapol}
use jlu_drcom.Eapol.Login.{Interface}
use jlu_drcom.Main.{
  Argument, Program, read_options, Outside, configured, with_bind_ip, Smart, logged_in, rejected,
  stuck, try_smart_eaplogin, Run, exited, session, hangs, Network, dogcom_5, connect, authorise,
  main,
}
use jlu_drcom.Packet.{Digests}
use jlu_drcom.Main.Options.{IsMode, OptionsFit, Goes-goes_on, Stage-cases, read_options-OptionsFit}
use jlu_drcom.Main.Configured.{SessionFits, configured-SessionFits, with_bind_ip-SessionFits}

Smart-cases :
    (r : Smart)
    → ((t : Eapol) × (r ≡ logged_in t))
      ⊎ ((t : Eapol) × (r ≡ rejected t))
      ⊎ ((t : Eapol) × (r ≡ stuck t))
Smart-cases (logged_in t) = inl (t, refl)
Smart-cases (rejected t) = inr (inl (t, refl))
Smart-cases (stuck t) = inr (inr (t, refl))

module _ (digests : Digests) (interfaces : Bytes → Interface) (net_dev : Option (List Bytes))
    (outside : Outside) (network : Network) where
  -- What a run that reaches `dogcom` has behind it.
  SessionOf : Eapol → Run → Type 0
  SessionOf s (exited status) = Unit
  SessionOf s (hangs t) = Unit
  SessionOf s (session q d) =
      IsMode q.mode_text
      × GlobalsFit q.globals
      × (d ≡ dogcom_5 digests interfaces net_dev outside network q)
      × IsExit d
      × ((q.eapol_flag ≡ false)
          ⊎ ((t : Eapol) × (try_smart_eaplogin digests interfaces net_dev q.globals.config s
                ≡ logged_in t)))

  with_bind_ip-same :
      (p : Program)
      → ((with_bind_ip p).eapol_flag ≡ p.eapol_flag)
        × ((with_bind_ip p).globals.config ≡ p.globals.config)
  unfolding with_bind_ip
  with_bind_ip-same p = (ground arith, ground arith)

  dogcom_5-IsExit : (q : Program) → IsExit (dogcom_5 digests interfaces net_dev outside network q)
  unfolding dogcom_5
  dogcom_5-IsExit q =
      dogcom-IsExit digests network.stack network.addr network.rounds network.attempts
        network.system q.mode_text q.globals.eternal_flag q.globals.config 5 network.world

  connect-SessionOf :
      (s : Eapol) (p : Program)
      → SessionFits p
      → (p.eapol_flag ≡ false)
        ⊎ ((t : Eapol) × (try_smart_eaplogin digests interfaces net_dev p.globals.config s
              ≡ logged_in t))
      → SessionOf s (connect digests interfaces net_dev outside network p)
  unfolding connect SessionOf
  connect-SessionOf s p h way =
      let kept = with_bind_ip-SessionFits p h in
      let (same_flag, same_config) = with_bind_ip-same p in
      (
        kept.is_mode,
        kept.globals_fit,
        refl,
        dogcom_5-IsExit (with_bind_ip p),
        elim way [ inl off ↦ inl (same_flag ∙ off) | inr (t, e) ↦ inr (t, rw same_config e) ],
      )

  authorised :
      (s : Eapol) (p : Program) (t : Eapol)
      → p.eapol_flag ≡ true
      → try_smart_eaplogin digests interfaces net_dev p.globals.config s ≡ logged_in t
      → authorise digests interfaces net_dev outside network s p
        ≡ connect digests interfaces net_dev outside network p
  unfolding authorise
  authorised s p t on e = simp (authorise, on, e)

  not_asked :
      (s : Eapol) (p : Program)
      → p.eapol_flag ≡ false
      → authorise digests interfaces net_dev outside network s p
        ≡ connect digests interfaces net_dev outside network p
  unfolding authorise
  not_asked s p off = simp (authorise, off)

  authorise-SessionOf :
      (s : Eapol) (p : Program)
      → SessionFits p
      → SessionOf s (authorise digests interfaces net_dev outside network s p)
  unfolding authorise SessionOf
  authorise-SessionOf s p h = elim (Bool-cases p.eapol_flag) [
    | inr off ↦ subst (SessionOf s) (sym (not_asked s p off)) (connect-SessionOf s p h (inl off))
    | inl on ↦
        elim (Smart-cases (try_smart_eaplogin digests interfaces net_dev p.globals.config s)) [
          | inl (t, e) ↦
              subst (SessionOf s) (sym (authorised s p t on e))
                (connect-SessionOf s p h (inr (t, e)))
          | inr (inl (t, e)) ↦ rw (authorise, on, e) tt
          | inr (inr (t, e)) ↦ rw (authorise, on, e) tt
        ]
  ]

  main-SessionOf :
      (bare : Bool) (arguments : List Argument) (p : Program) (s : Eapol)
      → OptionsFit p
      → SessionOf s (main digests interfaces net_dev outside network bare arguments p s)
  unfolding main SessionOf
  main-SessionOf true arguments p s h = tt
  main-SessionOf false arguments p s h =
      let options = read_options-OptionsFit outside.realpath arguments p h in
      elim (Stage-cases (read_options outside.realpath arguments p)) [
        | inr (n, e) ↦ rw (main, e) tt
        | inl (q, e) ↦
            let fits =
              Goes-goes_on OptionsFit (read_options outside.realpath arguments p) q e options in
            let set_up = configured-SessionFits outside q fits in
            elim (Stage-cases (configured outside q)) [
              | inr (n, stops) ↦ rw (main, e, stops) tt
              | inl (r, ready) ↦
                  rw (main, e, ready)
                    (authorise-SessionOf s r
                      (Goes-goes_on SessionFits (configured outside q) r ready set_up))
            ]
      ]

  -- When a run that begins with no mode and an empty address to bind reaches the session, the mode is
  -- `dhcp` or `pppoe`, every field of the configuration fits its array, the session is the one that
  -- `dogcom` gives for these globals and ends with 0 or 1, with 0 only on a stop request (or in the
  -- undefined behaviour of the login packet), and the 802.1X login was not asked for or has succeeded.
  pub main-session :
      (bare : Bool) (arguments : List Argument) (p : Program) (s : Eapol) (q : Program)
      (d : Decision)
      → p.mode_text ≡ []
      → p.globals.bind_ip ≡ []
      → main digests interfaces net_dev outside network bare arguments p s ≡ session q d
      → ((q.mode_text ≡ codes "dhcp") ⊎ (q.mode_text ≡ codes "pppoe"))
        × GlobalsFit q.globals
        × (d ≡ dogcom_5 digests interfaces net_dev outside network q)
        × IsExit d
        × ((q.eapol_flag ≡ false)
            ⊎ ((t : Eapol) × (try_smart_eaplogin digests interfaces net_dev q.globals.config s
                  ≡ logged_in t)))
  unfolding SessionOf
  main-session bare arguments p s q d no_mode no_bind e = subst (SessionOf s) e (
      main-SessionOf bare arguments p s
        (record { known = inl no_mode; bind_fits = rw no_bind (omega arith) }))
