-- ===== src/Main/Options.antt =====
-- drcom/src/main.c: what the options of the command line leave.
use mathlib.Core.Path.{subst}
use jlu_drcom.Base.{
  ℕ, ◌<◌, ◌≡◌, refl, ◌⊎◌, inl, inr, ◌||◌, Bytes, List, [], ◌∷◌, none, some, length, codes, equal,
  equal_iff, arith, Bool-cases, Option-cases, leb,
}
use jlu_drcom.Config.{text_size}
use jlu_drcom.Main.{
  Argument, mode, conf, bindip, log, daemon, eapol, eternal, verbose, help, unknown, Realpath,
  Program, Stage, goes_on, exits, copy_option_value, duplicate_path_value, read_option,
  read_options,
}

abbrev pub IsMode : Bytes → Type 0
IsMode text = (text ≡ codes "dhcp") ⊎ (text ≡ codes "pppoe")

-- What the options leave.
pub record OptionsFit (p : Program) : Type 0 where
  pub known : (p.mode_text ≡ []) ⊎ IsMode p.mode_text
  pub bind_fits : length p.globals.bind_ip < text_size

-- A predicate of the program that goes on.
abbrev pub Goes : (Program → Type 0) → Stage → Type 0
Goes P (goes_on p) = P p
Goes P (exits status) = Unit

copy_option_value-cases :
    (size : ℕ) (source : Bytes)
    → (copy_option_value size source ≡ none)
      ⊎ ((copy_option_value size source ≡ some source) × (length source < size))
unfolding copy_option_value
copy_option_value-cases size source = elim (Bool-cases (leb size (length source))) [
  | inl long ↦ inl (rw (copy_option_value, long))
  | inr short ↦ inr (rw (copy_option_value, short), ground arith)
]

read_option-OptionsFit :
    (realpath : Bytes → Realpath) (argument : Argument) (p : Program)
    → OptionsFit p
    → Goes OptionsFit (read_option realpath argument p)
unfolding read_option
read_option-OptionsFit realpath (mode optarg) p h =
    elim (Bool-cases (equal optarg (codes "dhcp") || equal optarg (codes "pppoe"))) [
      | inr other ↦ rw (read_option, other) tt
      | inl good ↦
          let is_mode : IsMode optarg =
            ground (arith, equal_iff optarg (codes "dhcp"), equal_iff optarg (codes "pppoe")) in
          elim (copy_option_value-cases 10 optarg) [
            | inl long ↦ rw (read_option, good, long) tt
            | inr (copied, short) ↦
                rw (read_option, good, copied)
                  (record { known = inr is_mode; bind_fits = h.bind_fits })
          ]
    ]
read_option-OptionsFit realpath (conf optarg) p h =
    elim (Option-cases (duplicate_path_value realpath optarg)) [
      | inl lost ↦ rw (read_option, lost) tt
      | inr (path, found) ↦
          rw (read_option, found) (record { known = h.known; bind_fits = h.bind_fits })
    ]
read_option-OptionsFit realpath (bindip optarg) p h =
    elim (copy_option_value-cases text_size optarg) [
      | inl long ↦ rw (read_option, long) tt
      | inr (copied, short) ↦
          rw (read_option, copied) (record { known = h.known; bind_fits = short })
    ]
read_option-OptionsFit realpath (log optarg) p h =
    elim (Option-cases (duplicate_path_value realpath optarg)) [
      | inl lost ↦ rw (read_option, lost) tt
      | inr (path, found) ↦
          rw (read_option, found) (record { known = h.known; bind_fits = h.bind_fits })
    ]
read_option-OptionsFit realpath daemon p h = record { known = h.known; bind_fits = h.bind_fits }
read_option-OptionsFit realpath eapol p h = record { known = h.known; bind_fits = h.bind_fits }
read_option-OptionsFit realpath eternal p h = record { known = h.known; bind_fits = h.bind_fits }
read_option-OptionsFit realpath verbose p h = record { known = h.known; bind_fits = h.bind_fits }
read_option-OptionsFit realpath help p h = tt
read_option-OptionsFit realpath unknown p h = tt

pub Stage-cases : (s : Stage) → ((p : Program) × (s ≡ goes_on p)) ⊎ ((n : ℕ) × (s ≡ exits n))
Stage-cases (goes_on p) = inl (p, refl)
Stage-cases (exits n) = inr (n, refl)

pub Goes-goes_on : (P : Program → Type 0) (s : Stage) (p : Program) → s ≡ goes_on p → Goes P s → P p
Goes-goes_on P s p e h = subst (Goes P) e h

pub read_options-OptionsFit :
    (realpath : Bytes → Realpath) (arguments : List Argument) (p : Program)
    → OptionsFit p
    → Goes OptionsFit (read_options realpath arguments p)
unfolding read_options
read_options-OptionsFit realpath [] p h = h
read_options-OptionsFit realpath (argument ∷ arguments) p h =
    let one = read_option-OptionsFit realpath argument p h in
    elim (Stage-cases (read_option realpath argument p)) [
      | inr (n, e) ↦ rw (read_options, e) tt
      | inl (q, e) ↦
          let fits = Goes-goes_on OptionsFit (read_option realpath argument p) q e one in
          rw (read_options, e) (read_options-OptionsFit realpath arguments q fits)
    ]
