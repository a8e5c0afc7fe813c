-- ===== src/Config/Parse/Laws.antt =====
-- The configuration that `config_parse` leaves, and the part that a profile has in it.
use jlu_drcom.Base.{
  ◌≤◌, ◌<◌, ◌≡◌, Bytes, List, [], ◌∷◌, some, arith, length, Status, success, failure, Status-cases,
  Option-cases, inl, inr, ◌-◌,
}
use jlu_drcom.Config.{Globals, text_size}
use jlu_drcom.Config.Parse.{
  buffer_size, fgets_lines, apply_profile_defaults, read_line, read_lines, finish_parse,
  config_parse,
}
use jlu_drcom.Config.Reader.Bounds.{GlobalsFit, read_d_config-Fits, read_p_config-Fits}
use jlu_drcom.Ctype.{c_string}
use jlu_drcom.RetryPolicy.{ProfileDefaults, profile_defaults_for_name}

profile_defaults_size :
    (name : Bytes) {d : ProfileDefaults}
    → profile_defaults_for_name name ≡ some d
    → (length d.auth_version ≡ 2)
      × (length d.keep_alive_version ≡ 2)
      × (d.startup_delay_seconds ≤ 1800)
unfolding profile_defaults_for_name
profile_defaults_size name h = ground arith

apply_profile_defaults-Fits : (g : Globals) → GlobalsFit g → GlobalsFit (apply_profile_defaults g).0
unfolding apply_profile_defaults
apply_profile_defaults-Fits g h = elim (Option-cases (profile_defaults_for_name g.config.profile)) [
  | inl unknown ↦ rw unknown (ground arith)
  | inr (d, found) ↦
      let sizes = profile_defaults_size g.config.profile found in rw found (ground arith)
]

read_line-Fits :
    (mode : Bytes) (g : Globals) (buf : Bytes) → GlobalsFit g → GlobalsFit (read_line mode g buf).0
unfolding read_line
read_line-Fits mode g buf h = ground (arith, read_d_config-Fits g buf h, read_p_config-Fits g buf h)

module _ (mode : Bytes) (g : Globals) (buf : Bytes) (bufs : List Bytes) where
  pub read_lines-success :
      (read_line mode g (c_string buf)).1 ≡ success
      → read_lines mode g (buf ∷ bufs) ≡ read_lines mode (read_line mode g (c_string buf)).0 bufs
  unfolding read_lines
  read_lines-success h = rw (h, read_lines)

  pub read_lines-failure :
      (read_line mode g (c_string buf)).1 ≡ failure
      → read_lines mode g (buf ∷ bufs) ≡ ((read_line mode g (c_string buf)).0, failure)
  unfolding read_lines
  read_lines-failure h = rw (h, read_lines)

read_lines-Fits :
    (mode : Bytes) (bufs : List Bytes) (g : Globals)
    → GlobalsFit g
    → GlobalsFit (read_lines mode g bufs).0
read_lines-Fits mode [] g h = unfold read_lines in h
read_lines-Fits mode (buf ∷ bufs) g h =
    let fits = read_line-Fits mode g (c_string buf) h in
    elim (Status-cases (read_line mode g (c_string buf)).1) [
      | inl good ↦ rw (read_lines-success mode g buf bufs good) (read_lines-Fits mode bufs _ fits)
      | inr bad ↦ rw (read_lines-failure mode g buf bufs bad) fits
    ]

finish_parse-Fits : (r : Globals × Status) → GlobalsFit r.0 → GlobalsFit (finish_parse r).0
unfolding finish_parse
finish_parse-Fits (g, success) h = apply_profile_defaults-Fits g h
finish_parse-Fits (g, failure) h = h

-- Whatever an opened file holds, and whether it is accepted or not, every text that `config_parse`
-- leaves is shorter than its array, the versions have two bytes, the MAC address six, and the startup
-- delay is at most 1800 seconds, provided that `bind_ip` was shorter than its array before.
pub config_parse-Fits :
    (mode file : Bytes) (g : Globals)
    → length g.bind_ip < text_size
    → GlobalsFit (config_parse mode (some file) g).0
unfolding config_parse
config_parse-Fits mode file g h =
    finish_parse-Fits _ (read_lines-Fits mode (fgets_lines (buffer_size - 1) file) _ (omega arith))
