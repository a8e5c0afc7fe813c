-- ===== src/RetryPolicy.antt =====
-- drcom/src/retry_policy.c and retry_policy.h: delays, failure counters, the choice of templates
-- and packets, and the named profiles.
pub mod Laws
use jlu_drcom.Base.{
  ℕ, Bool, true, false, not, ◌&&◌, Bytes, [], ◌∷◌, Option, none, some, equal, codes, ◌==◌,
  if◌then◌else◌,
}
use jlu_drcom.Base.{ℤ, pos, exceeds, at_least, is_negative, increment, remainder}

abbrev pub short_generic_retry_delay_seconds : ℕ
short_generic_retry_delay_seconds = 3

abbrev pub default_login_retry_delay_seconds : ℕ
default_login_retry_delay_seconds = 60

abbrev pub keepalive_failure_reconnect_threshold : ℕ
keepalive_failure_reconnect_threshold = 6

abbrev pub jlu_keepalive_extra_interval : ℕ
jlu_keepalive_extra_interval = 10

-- `DRCOM_DEFAULT_STARTUP_DELAY_SECONDS` of configparse.h
abbrev pub default_startup_delay_seconds : ℕ
default_startup_delay_seconds = 60

-- The reply codes of auth.h.
abbrev pub wrong_pass : ℕ
wrong_pass = 0x03

abbrev pub update_client : ℕ
update_client = 0x15

pub data LoginTemplate : Type 0 where
  standard jlu : LoginTemplate

pub data ExtraKind : Type 0 where
  extra_none extra_first extra_periodic : ExtraKind

pub record ProfileDefaults : Type 0 where
  pub auth_version : Bytes
  pub keep_alive_version : Bytes
  pub jlu_mode : Bool
  pub ror_version : Bool
  pub startup_delay_seconds : ℕ

unfoldable pub normalize_login_retry_delay : ℤ → ℤ
normalize_login_retry_delay seconds =
    if exceeds seconds 0 then seconds else pos default_login_retry_delay_seconds

unfoldable pub retry_delay_for_login_reply : ℕ → ℤ → ℤ → ℤ
retry_delay_for_login_reply reply_code recv_length retry_after_seconds =
    if reply_code == wrong_pass && not (exceeds recv_length 5)
    then pos short_generic_retry_delay_seconds
    else if reply_code == update_client && exceeds retry_after_seconds 0
    then retry_after_seconds
    else pos default_login_retry_delay_seconds

unfoldable pub next_keepalive_failure_count : ℤ → Bool → ℤ
next_keepalive_failure_count current_failures keepalive_exchange_succeeded =
    if keepalive_exchange_succeeded
    then pos 0
    else if is_negative current_failures
    then increment (pos 0)
    else increment current_failures

unfoldable pub should_reconnect_after_keepalive_failure : ℤ → Bool
should_reconnect_after_keepalive_failure consecutive_failures =
    at_least consecutive_failures keepalive_failure_reconnect_threshold

unfoldable pub login_template_for_attempt : Bool → ℤ → LoginTemplate
login_template_for_attempt jlu_mode login_failed_attempts =
    if jlu_mode
    then jlu
    else if exceeds login_failed_attempts 2 && not (remainder login_failed_attempts 2 == 0)
    then jlu
    else standard

unfoldable pub keepalive_extra_packet_kind : ℤ → ExtraKind
keepalive_extra_packet_kind completed_keepalive_rounds =
    if not (exceeds completed_keepalive_rounds 0)
    then extra_first
    else if remainder completed_keepalive_rounds jlu_keepalive_extra_interval == 0
    then extra_periodic
    else extra_none

abbrev pub profile_jlu_modern : ProfileDefaults
profile_jlu_modern = record {
  auth_version = 0x6a ∷ 0x00 ∷ [];
  keep_alive_version = 0xdc ∷ 0x02 ∷ [];
  jlu_mode = true;
  ror_version = true;
  startup_delay_seconds = default_startup_delay_seconds;
}

abbrev pub profile_jlu_legacy : ProfileDefaults
profile_jlu_legacy = record {
  auth_version = 0x68 ∷ 0x00 ∷ [];
  keep_alive_version = 0xdc ∷ 0x02 ∷ [];
  jlu_mode = true;
  ror_version = true;
  startup_delay_seconds = default_startup_delay_seconds;
}

abbrev pub profile_generic : ProfileDefaults
profile_generic = record {
  auth_version = 0x2c ∷ 0x00 ∷ [];
  keep_alive_version = 0xdc ∷ 0x02 ∷ [];
  jlu_mode = false;
  ror_version = false;
  startup_delay_seconds = 0;
}

-- `none` is the return value 1: the name is unknown.
unfoldable pub profile_defaults_for_name : Bytes → Option ProfileDefaults
unfolding equal
profile_defaults_for_name profile =
    if equal profile (codes "jlu-modern")
    then some profile_jlu_modern
    else if equal profile (codes "jlu-legacy")
    then some profile_jlu_legacy
    else if equal profile (codes "generic")
    then some profile_generic
    else none
