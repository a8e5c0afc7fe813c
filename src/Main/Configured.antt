-- ===== src/Main/Configured.antt =====
-- drcom/src/main.c: from the options to the call of `dogcom`, the globals fit.
use jlu_drcom.Base.{
  ◌<◌, ◌≡◌, ◌∙◌, sym, inl, inr, false, Bytes, [], Option, none, some, length, equal, equal_iff,
  arith, Bool-cases, Option-cases, success, Status-cases,
}
use jlu_drcom.Config.{Globals, text_size}
use jlu_drcom.Config.Parse.{config_parse}
use jlu_drcom.Config.Parse.Laws.{config_parse-Fits}
use jlu_drcom.Config.Reader.Bounds.{GlobalsFit}
use jlu_drcom.Daemon.{daemonise}
use jlu_drcom.Main.{Program, goes_on, exits, Outside, daemonised, configured, with_bind_ip}
use jlu_drcom.Main.Options.{IsMode, OptionsFit, Goes, Stage-cases}

-- What `dogcom` is called with.
pub record SessionFits (p : Program) : Type 0 where
  pub is_mode : IsMode p.mode_text
  pub globals_fit : GlobalsFit p.globals

daemonised-same : (outside : Outside) (p q : Program) → daemonised outside p ≡ goes_on q → q ≡ p
unfolding daemonised
daemonised-same outside p q e = elim (Bool-cases p.daemon_flag) [
  | inr off ↦
      let stays : daemonised outside p ≡ goes_on p = simp (daemonised, off) in
      let same = sym stays ∙ e in sym (cc same)
  | inl on ↦ elim (Option-cases (daemonise outside.calls)) [
    | inl returns ↦
        let stays : daemonised outside p ≡ goes_on p = simp (daemonised, on, returns) in
        let same = sym stays ∙ e in sym (cc same)
    | inr (status, ends) ↦
        let lost : exits status ≡ goes_on q = rw (← e, daemonised, on, ends) in cc lost
  ]
]

IsMode-kept : (p : Program) → OptionsFit p → equal p.mode_text [] ≡ false → IsMode p.mode_text
IsMode-kept p h has_mode = elim h.known [
  | inl empty ↦ absurd (ground (arith, equal_iff p.mode_text [], empty))
  | inr is_mode ↦ is_mode
]

config_parse-success :
    (chosen : Bytes) (file : Option Bytes) (g : Globals)
    → length g.bind_ip < text_size
    → (config_parse chosen file g).1 ≡ success
    → GlobalsFit (config_parse chosen file g).0
unfolding config_parse
config_parse-success chosen none g h e = cc
config_parse-success chosen (some file) g h e = config_parse-Fits chosen file g h

pub configured-SessionFits :
    (outside : Outside) (p : Program) → OptionsFit p → Goes SessionFits (configured outside p)
unfolding configured
configured-SessionFits outside p h = elim (Option-cases p.file_path) [
  | inl no_path ↦ rw (configured, no_path) tt
  | inr (file_path, path) ↦ elim (Bool-cases (equal p.mode_text [])) [
    | inl no_mode ↦ rw (configured, path, no_mode) tt
    | inr has_mode ↦ elim (Stage-cases (daemonised outside p)) [
      | inr (status, ends) ↦ rw (configured, path, has_mode, ends) tt
      | inl (q, stays) ↦
          let same = daemonised-same outside p q stays in
          elim (Status-cases (config_parse q.mode_text (outside.file file_path) q.globals).1) [
            | inr failed ↦ rw (configured, path, has_mode, stays, failed) tt
            | inl parsed ↦
                rw (configured, path, has_mode, stays, parsed)
                  (record {
                    is_mode = rw same (IsMode-kept p h has_mode);
                    globals_fit =
                        config_parse-success q.mode_text (outside.file file_path) q.globals
                          (rw same h.bind_fits) parsed;
                  })
          ]
    ]
  ]
]

pub with_bind_ip-SessionFits : (p : Program) → SessionFits p → SessionFits (with_bind_ip p)
unfolding with_bind_ip
with_bind_ip-SessionFits p h = elim (Bool-cases (equal p.globals.bind_ip [])) [
  | inl empty ↦
      simp (with_bind_ip, empty)
        (record { is_mode = h.is_mode; globals_fit = (h.globals_fit.0, omega arith) })
  | inr given ↦ simp (with_bind_ip, given) h
]
