-- ===== src/Config.antt =====
-- drcom/src/configparse.h and configparse.c: the configuration and the reader of its file.
pub mod Text
pub mod Values
pub mod Reader
pub mod Parse
use jlu_drcom.Base.{ℕ, Bool, Bytes, Option, false, [], ◌∷◌}

-- `struct config`. A text field holds the bytes before its NUL; `int` fields that only ever hold
-- 0 or 1 are truth values.
pub record Config : Type 0 where
  pub profile : Bytes
  pub server : Bytes
  pub username : Bytes
  pub password : Bytes
  pub control_check_status : ℕ
  pub adapter_num : ℕ
  pub host_ip : Bytes
  pub ip_dog : ℕ
  pub host_name : Bytes
  pub primary_dns : Bytes
  pub dhcp_server : Bytes
  pub auth_version : Bytes
  pub mac : Bytes
  pub host_os : Bytes
  pub keep_alive_version : Bytes
  pub ror_version : Bool
  pub keepalive1_mod : Bool
  pub jlu_mode : Bool
  pub startup_delay_seconds : ℕ
  pub pppoe_flag : ℕ
  pub keep_alive2_flag : ℕ

-- The marks of `config_explicit` that the program reads or sets.
pub record Explicit : Type 0 where
  pub auth_version : Bool
  pub keep_alive_version : Bool
  pub jlu_mode : Bool
  pub ror_version : Bool
  pub startup_delay_seconds : Bool

-- The globals that the reader writes.
pub record Globals : Type 0 where
  pub config : Config
  pub explicit : Explicit
  pub bind_ip : Bytes
  pub log_path : Option Bytes
  pub logging_flag : Bool
  pub eternal_flag : Bool

-- `sizeof` of the text fields and of `bind_ip`.
abbrev pub username_size : ℕ
username_size = 36

abbrev pub text_size : ℕ
text_size = 20

-- `memset(&drcom_config, 0, sizeof(drcom_config))`
abbrev pub zero_config : Config
zero_config = record {
  profile = [];
  server = [];
  username = [];
  password = [];
  control_check_status = 0;
  adapter_num = 0;
  host_ip = [];
  ip_dog = 0;
  host_name = [];
  primary_dns = [];
  dhcp_server = [];
  auth_version = 0 ∷ 0 ∷ [];
  mac = 0 ∷ 0 ∷ 0 ∷ 0 ∷ 0 ∷ 0 ∷ [];
  host_os = [];
  keep_alive_version = 0 ∷ 0 ∷ [];
  ror_version = false;
  keepalive1_mod = false;
  jlu_mode = false;
  startup_delay_seconds = 0;
  pppoe_flag = 0;
  keep_alive2_flag = 0;
}

-- `memset(&config_explicit, 0, sizeof(config_explicit))`
abbrev pub zero_explicit : Explicit
zero_explicit = record {
  auth_version = false;
  keep_alive_version = false;
  jlu_mode = false;
  ror_version = false;
  startup_delay_seconds = false;
}
