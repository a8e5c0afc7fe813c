-- ===== src/Config/Parse/Settings/Final.antt =====
-- The settings of the final configuration.
use jlu_drcom.Base.{
  ◌≡◌, ◌∙◌, refl, sym, Bool, false, Bytes, List, [], ◌∷◌, Option, none, some, Status, success,
  failure, Bool-cases, inl, inr, equal, equal_iff, codes, if◌then◌else◌, ◌-◌, not, ap,
}
use jlu_drcom.Config.{Globals, zero_config, zero_explicit}
use jlu_drcom.Config.Parse.{
  buffer_size, fgets_lines, apply_found, with_defaults, apply_profile_defaults, read_lines,
  finish_parse, config_parse,
}
use jlu_drcom.RetryPolicy.{ProfileDefaults, profile_defaults_for_name}
use jlu_drcom.Config.Parse.Settings.{
  override, assigned, settle, profile_default, SettingsOf, reads_auth_version,
  reads_keep_alive_version, reads_jlu_mode, reads_ror_version, reads_startup_delay_seconds,
}
use jlu_drcom.Config.Parse.Settings.Tracking.{
  read_lines-assigned, auth_version_law, keep_alive_version_law, jlu_mode_law, ror_version_law,
  startup_delay_seconds_law,
}

abbrev IsSettled : {V : Type 0} → Option V → Bool → V → V → Type 0
IsSettled {V} o flag value unset = ◌≡◌ {A = Bool × V} (flag, value) (override o (false, unset))

settle_unless :
    {V : Type 0} (o : Option V) (flag : Bool) (value unset : V) {default expected : V}
    → IsSettled o flag value unset
    → expected ≡ default
    → (if not flag then default else value) ≡ settle o expected
settle_unless none flag value unset h e = rw (ap (λ (p : Bool × _). p.0) h, e)
settle_unless (some v) flag value unset h e =
    rw (ap (λ (p : Bool × _). p.0) h) (ap (λ (p : Bool × _). p.1) h)

settle_unset :
    {V : Type 0} (o : Option V) (flag : Bool) (value unset : V) {expected : V}
    → IsSettled o flag value unset
    → expected ≡ unset
    → value ≡ settle o expected
settle_unset none flag value unset h e = ap (λ (p : Bool × _). p.1) h ∙ sym e
settle_unset (some v) flag value unset h e = ap (λ (p : Bool × _). p.1) h

module _ {V : Type 0} (field : ProfileDefaults → V) (name : Bytes) (unset : V) where
  profile_default-some :
      (d : ProfileDefaults)
      → profile_defaults_for_name name ≡ some d
      → profile_default field name unset ≡ field d
  unfolding profile_default
  profile_default-some d found = rw (found, profile_default)

  profile_default-none :
      profile_defaults_for_name name ≡ none → profile_default field name unset ≡ unset
  unfolding profile_default
  profile_default-none unknown = rw (unknown, profile_default)

-- The five settings before the profile is applied.
record SettingsRead (lines : List Bytes) (g : Globals) : Type 0 where
  auth_version :
      IsSettled
        (assigned reads_auth_version lines)
        g.explicit.auth_version
        g.config.auth_version
        (0 ∷ 0 ∷ [])
  keep_alive_version :
      IsSettled
        (assigned reads_keep_alive_version lines)
        g.explicit.keep_alive_version
        g.config.keep_alive_version
        (0 ∷ 0 ∷ [])
  jlu_mode : IsSettled (assigned reads_jlu_mode lines) g.explicit.jlu_mode g.config.jlu_mode false
  ror_version :
      IsSettled (assigned reads_ror_version lines) g.explicit.ror_version g.config.ror_version false
  startup_delay_seconds :
      IsSettled
        (assigned reads_startup_delay_seconds lines)
        g.explicit.startup_delay_seconds
        g.config.startup_delay_seconds
        0

abbrev start_of : Globals → Globals
start_of g = record g { config = zero_config; explicit = zero_explicit }

read_lines-SettingsRead :
    (lines : List Bytes) (g : Globals)
    → (read_lines (codes "dhcp") (start_of g) lines).1 ≡ success
    → SettingsRead lines (read_lines (codes "dhcp") (start_of g) lines).0
read_lines-SettingsRead lines g h = record {
  auth_version =
      read_lines-assigned (λ k. (k.explicit.auth_version, k.config.auth_version)) reads_auth_version
        auth_version_law lines (start_of g) h;
  keep_alive_version =
      read_lines-assigned (λ k. (k.explicit.keep_alive_version, k.config.keep_alive_version))
        reads_keep_alive_version keep_alive_version_law lines (start_of g) h;
  jlu_mode =
      read_lines-assigned (λ k. (k.explicit.jlu_mode, k.config.jlu_mode)) reads_jlu_mode
        jlu_mode_law lines (start_of g) h;
  ror_version =
      read_lines-assigned (λ k. (k.explicit.ror_version, k.config.ror_version)) reads_ror_version
        ror_version_law lines (start_of g) h;
  startup_delay_seconds =
      read_lines-assigned (λ k. (k.explicit.startup_delay_seconds, k.config.startup_delay_seconds))
        reads_startup_delay_seconds startup_delay_seconds_law lines (start_of g) h;
}

module _ (lines : List Bytes) (g : Globals) (read : SettingsRead lines g) where
  settled_with :
      (d : ProfileDefaults)
      → profile_defaults_for_name g.config.profile ≡ some d
      → SettingsOf lines (with_defaults g.config g.explicit d)
  unfolding with_defaults
  settled_with d found = record {
    auth_version = settle_unless _ _ _ _ read.auth_version (profile_default-some _ _ _ d found);
    keep_alive_version =
        settle_unless _ _ _ _ read.keep_alive_version (profile_default-some _ _ _ d found);
    jlu_mode = settle_unless _ _ _ _ read.jlu_mode (profile_default-some _ _ _ d found);
    ror_version = settle_unless _ _ _ _ read.ror_version (profile_default-some _ _ _ d found);
    startup_delay_seconds =
        settle_unless _ _ _ _ read.startup_delay_seconds (profile_default-some _ _ _ d found);
  }

  settled_without : profile_defaults_for_name g.config.profile ≡ none → SettingsOf lines g.config
  settled_without unknown = record {
    auth_version = settle_unset _ _ _ _ read.auth_version (profile_default-none _ _ _ unknown);
    keep_alive_version =
        settle_unset _ _ _ _ read.keep_alive_version (profile_default-none _ _ _ unknown);
    jlu_mode = settle_unset _ _ _ _ read.jlu_mode (profile_default-none _ _ _ unknown);
    ror_version = settle_unset _ _ _ _ read.ror_version (profile_default-none _ _ _ unknown);
    startup_delay_seconds =
        settle_unset _ _ _ _ read.startup_delay_seconds (profile_default-none _ _ _ unknown);
  }

apply_profile_defaults-SettingsOf :
    (lines : List Bytes) (g : Globals)
    → SettingsRead lines g
    → (apply_profile_defaults g).1 ≡ success
    → SettingsOf lines (apply_profile_defaults g).0.config
unfolding apply_profile_defaults profile_defaults_for_name
apply_profile_defaults-SettingsOf lines g read h = elim (Bool-cases (equal g.config.profile [])) [
  | inl unnamed ↦
      rw unnamed (settled_without lines g read (rw ((equal_iff g.config.profile []).0 unnamed)))
  | inr named ↦ rw named (found (profile_defaults_for_name g.config.profile) refl (rw named at h))
]
  where
    found :
        (o : Option ProfileDefaults)
        → profile_defaults_for_name g.config.profile ≡ o
        → (apply_found g o).1 ≡ success
        → SettingsOf lines (apply_found g o).0.config
    found none e k = cc
    found (some d) e k = settled_with lines g read d e

finish_parse-SettingsOf :
    (lines : List Bytes) (r : Globals × Status)
    → (r.1 ≡ success → SettingsRead lines r.0)
    → (finish_parse r).1 ≡ success
    → SettingsOf lines (finish_parse r).0.config
unfolding finish_parse
finish_parse-SettingsOf lines (g, success) read h =
    apply_profile_defaults-SettingsOf lines g (read refl) h
finish_parse-SettingsOf lines (g, failure) read h = cc

-- In a file for `dhcp` that is accepted, each of the two versions, `jlu_mode`, `ror_version` and the
-- startup delay is what the last line with its key says, wherever the `profile` line stands; with
-- no such line it is the default of the named profile, and with no profile either it is zero.
pub config_parse-SettingsOf :
    (file : Bytes) (g : Globals)
    → (config_parse (codes "dhcp") (some file) g).1 ≡ success
    → SettingsOf
        (fgets_lines (buffer_size - 1) file)
        (config_parse (codes "dhcp") (some file) g).0.config
unfolding config_parse
config_parse-SettingsOf file g h =
    finish_parse-SettingsOf (fgets_lines (buffer_size - 1) file) _
      (read_lines-SettingsRead (fgets_lines (buffer_size - 1) file) g) h
