-- ===== src/Config/Parse/Settings.antt =====
-- The five settings that a profile has defaults for, in a file for the mode `dhcp`: which line, or
-- which profile, decides them.
mod Tracking
pub mod Final
use jlu_drcom.Base.{
  ℕ, ◌≤◌, ◌<◌, ◌≡◌, ◌∙◌, refl, sym, Bool, true, false, Bytes, List, [], ◌∷◌, Option, none, some,
  arith, ◌>>=◌, Status, success, failure, Status-cases, Option-cases, Bool-cases, inl, inr, equal,
  equal_iff, codes, if◌then◌else◌, ◌-◌, not, ap,
}
use jlu_drcom.Config.{Config, Explicit, Globals, zero_config, zero_explicit}
use jlu_drcom.Config.Parse.{
  buffer_size, fgets_lines, apply_found, with_defaults, apply_profile_defaults, read_line,
  read_lines, finish_parse, config_parse,
}
use jlu_drcom.Config.Parse.Laws.{read_lines-success, read_lines-failure}
use jlu_drcom.Config.Reader.{DhcpKey, dhcp_key, store_dhcp, store_known, dhcp_pair, read_d_config}
use jlu_drcom.Config.Text.{KeyValue, blank, malformed, pair, parse_key_value}
use jlu_drcom.Config.Values.{parse_two_byte_string, parse_bool_string, parse_nonnegative_int_string}
use jlu_drcom.Ctype.{c_string}
use jlu_drcom.RetryPolicy.{ProfileDefaults, profile_defaults_for_name}

-- A setting: whether a line has set it, and its value.
abbrev pub override {ℓ} : {V : Type ℓ} → Option V → Bool × V → Bool × V
override none s = s
override (some v) s = (true, v)

-- What a line with the key `k` gives a setting whose key has the reader `reads`.
abbrev pub line_value : {V : Type 0} → (DhcpKey → Bytes → Option V) → KeyValue → Option V
line_value reads (pair key value) = dhcp_key key >>= λ k. reads k value
line_value reads _ = none

-- The value that the last line with the setting's key gives, or `none` if no line has it.
unfoldable pub assigned : {V : Type 0} → (DhcpKey → Bytes → Option V) → List Bytes → Option V
assigned reads [] = none
assigned reads (buf ∷ bufs) =
    let later = assigned reads bufs in
    elim later [ some v ↦ some v | none ↦ line_value reads (parse_key_value (c_string buf)) ]

-- The readers of the five settings, one for each of their keys.
unfoldable pub reads_auth_version : DhcpKey → Bytes → Option Bytes
reads_auth_version DhcpKey.auth_version value = parse_two_byte_string value
reads_auth_version _ value = none

unfoldable pub reads_keep_alive_version : DhcpKey → Bytes → Option Bytes
reads_keep_alive_version DhcpKey.keep_alive_version value = parse_two_byte_string value
reads_keep_alive_version _ value = none

unfoldable pub reads_jlu_mode : DhcpKey → Bytes → Option Bool
reads_jlu_mode DhcpKey.jlu_mode value = parse_bool_string value
reads_jlu_mode _ value = none

unfoldable pub reads_ror_version : DhcpKey → Bytes → Option Bool
reads_ror_version DhcpKey.ror_version value = parse_bool_string value
reads_ror_version _ value = none

unfoldable pub reads_startup_delay_seconds : DhcpKey → Bytes → Option ℕ
reads_startup_delay_seconds DhcpKey.startup_delay_seconds value = parse_nonnegative_int_string value
reads_startup_delay_seconds _ value = none

-- What a setting is in the end: the assigned value, else the default.
abbrev pub settle {ℓ} : {V : Type ℓ} → Option V → V → V
settle (some v) default = v
settle none default = default

-- A field of the named profile, or `unset` if no profile has this name.
unfoldable pub profile_default : {V : Type 0} → (ProfileDefaults → V) → Bytes → V → V
profile_default field name unset = elim (profile_defaults_for_name name) [
  | some d ↦ field d
  | none ↦ unset
]

-- One setting of the final configuration, by the lines and by the profile's default.
abbrev pub SettledBy :
    {V : Type 0}
    → (DhcpKey → Bytes → Option V)
    → List Bytes
    → (ProfileDefaults → V)
    → Bytes
    → V
    → V
    → Type 0
SettledBy reads lines field name unset final =
    final ≡ settle (assigned reads lines) (profile_default field name unset)

-- The five settings of a configuration.
pub record SettingsOf (lines : List Bytes) (c : Config) : Type 0 where
  pub auth_version :
      SettledBy reads_auth_version lines (λ d. d.auth_version) c.profile (0 ∷ 0 ∷ []) c.auth_version
  pub keep_alive_version :
      SettledBy reads_keep_alive_version lines
        (λ d. d.keep_alive_version)
        c.profile
        (0 ∷ 0 ∷ [])
        c.keep_alive_version
  pub jlu_mode : SettledBy reads_jlu_mode lines (λ d. d.jlu_mode) c.profile false c.jlu_mode
  pub ror_version :
      SettledBy reads_ror_version lines (λ d. d.ror_version) c.profile false c.ror_version
  pub startup_delay_seconds :
      SettledBy reads_startup_delay_seconds lines
        (λ d. d.startup_delay_seconds)
        c.profile
        0
        c.startup_delay_seconds
