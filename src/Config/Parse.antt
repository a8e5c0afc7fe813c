-- ===== src/Config/Parse.antt =====
-- drcom/src/configparse.c: `config_parse` and `apply_profile_defaults`.
pub mod Laws
pub mod Settings
use jlu_drcom.Base.{
  ℕ, ◌-◌, Bool, true, false, not, Bytes, List, [], ◌∷◌, Option, none, some, equal, codes, ◌==◌,
  ◌||◌, Status, success, failure, if◌then◌else◌,
}
use jlu_drcom.Config.{Config, Explicit, Globals, zero_config, zero_explicit}
use jlu_drcom.Config.Reader.{read_d_config, read_p_config}
use jlu_drcom.Ctype.{c_string}
use jlu_drcom.RetryPolicy.{ProfileDefaults, profile_defaults_for_name}

abbrev pub buffer_size : ℕ
buffer_size = 256

-- A byte in front of the line that is being read.
extend_line : ℕ → List Bytes → List Bytes
extend_line c [] = (c ∷ []) ∷ []
extend_line c (line ∷ lines) = (c ∷ line) ∷ lines

-- What successive calls of `fgets(buf, sizeof(buf), file)` return: a line ends behind a newline, at
-- the end of the file, or when `room`, which starts as 255, is used up.
unfoldable pub fgets_lines : ℕ → Bytes → List Bytes
unfolding extend_line
fgets_lines room [] = []
fgets_lines room (c ∷ cs) =
    let ends = c == b'\n' || room == 1 in
    let rest = fgets_lines (if ends then buffer_size - 1 else room - 1) cs in
    if ends then (c ∷ []) ∷ rest else extend_line c rest

abbrev unless {ℓ} : {A : Type ℓ} → Bool → A → A → A
unless explicit old default = if not explicit then default else old

with_defaults : Config → Explicit → ProfileDefaults → Config
with_defaults c e d = record c {
  auth_version = unless e.auth_version c.auth_version d.auth_version;
  keep_alive_version = unless e.keep_alive_version c.keep_alive_version d.keep_alive_version;
  jlu_mode = unless e.jlu_mode c.jlu_mode d.jlu_mode;
  ror_version = unless e.ror_version c.ror_version d.ror_version;
  startup_delay_seconds =
      unless e.startup_delay_seconds c.startup_delay_seconds d.startup_delay_seconds;
}

-- The branch on what `drcom_profile_defaults_for_name` returns.
apply_found : Globals → Option ProfileDefaults → Globals × Status
apply_found g none = (g, failure)
apply_found g (some d) = (record g { config = with_defaults g.config g.explicit d }, success)

unfoldable pub apply_profile_defaults : Globals → Globals × Status
unfolding apply_found with_defaults equal
apply_profile_defaults g =
    if equal g.config.profile []
    then (g, success)
    else apply_found g (profile_defaults_for_name g.config.profile)

-- The reader that `mode` selects, tested on every line.
unfoldable pub read_line : Bytes → Globals → Bytes → Globals × Status
unfolding equal
read_line mode g buf =
    if equal mode (codes "dhcp")
    then read_d_config g buf
    else if equal mode (codes "pppoe")
    then read_p_config g buf
    else (g, failure)

-- The loop over the lines; the first failure ends it.
unfoldable pub read_lines : Bytes → Globals → List Bytes → Globals × Status
read_lines mode g [] = (g, success)
read_lines mode g (buf ∷ bufs) =
    let (g', status) = read_line mode g (c_string buf) in
    elim status [ success ↦ read_lines mode g' bufs | failure ↦ (g', failure) ]

finish_parse : Globals × Status → Globals × Status
finish_parse (g, success) = apply_profile_defaults g
finish_parse (g, failure) = (g, failure)

-- The file's content is the argument; `none` is a file that cannot be opened.
unfoldable pub config_parse : Bytes → Option Bytes → Globals → Globals × Status
unfolding finish_parse
config_parse mode none g = (g, failure)
config_parse mode (some file) g =
    let start = record g { config = zero_config; explicit = zero_explicit } in
    finish_parse (read_lines mode start (fgets_lines (buffer_size - 1) file))
