-- ===== src/Config/Parse/Settings/Tracking.antt =====
-- The effect of the lines of a `dhcp` file on a setting, and the law of each setting.
use jlu_drcom.Base.{
  ℕ, ◌≡◌, ◌∙◌, refl, Bool, Bytes, List, [], ◌∷◌, Option, none, some, arith, ◌>>=◌, success, failure,
  Status-cases, Option-cases, inl, inr, equal, codes,
}
use jlu_drcom.Config.{Globals}
use jlu_drcom.Config.Parse.{read_line, read_lines}
use jlu_drcom.Config.Parse.Laws.{read_lines-success, read_lines-failure}
use jlu_drcom.Config.Reader.{DhcpKey, dhcp_key, store_dhcp, store_known, dhcp_pair, read_d_config}
use jlu_drcom.Config.Text.{KeyValue, blank, malformed, pair, parse_key_value}
use jlu_drcom.Ctype.{c_string}
use jlu_drcom.Config.Parse.Settings.{
  override, line_value, assigned, reads_auth_version, reads_keep_alive_version, reads_jlu_mode,
  reads_ror_version, reads_startup_delay_seconds,
}

-- Each line's effect on one setting, and so that of all lines.
module _ {V : Type 0} (view : Globals → Bool × V) (reads : DhcpKey → Bytes → Option V)
    (law : (g : Globals) (key : DhcpKey) (value : Bytes)
      → (store_dhcp g key value).1 ≡ success
      → view (store_dhcp g key value).0 ≡ override (reads key value) (view g)) where
  known_law :
      (g : Globals) (o : Option DhcpKey) (value : Bytes)
      → (store_known g o value).1 ≡ success
      → view (store_known g o value).0 ≡ override (o >>= λ k. reads k value) (view g)
  unfolding store_known
  known_law g none value h = refl
  known_law g (some key) value h = law g key value h

  line_law :
      (g : Globals) (kv : KeyValue)
      → (dhcp_pair g kv).1 ≡ success
      → view (dhcp_pair g kv).0 ≡ override (line_value reads kv) (view g)
  unfolding dhcp_pair
  line_law g blank h = refl
  line_law g malformed h = refl
  line_law g (pair key value) h = known_law g (dhcp_key key) value h

  read_line_law :
      (g : Globals) (buf : Bytes)
      → (read_line (codes "dhcp") g buf).1 ≡ success
      → view (read_line (codes "dhcp") g buf).0
        ≡ override (line_value reads (parse_key_value buf)) (view g)
  unfolding read_line equal read_d_config
  read_line_law g buf h = line_law g (parse_key_value buf) h

  assigned-override :
      (buf : Bytes) (bufs : List Bytes) (s : Bool × V)
      → override
          (assigned reads bufs)
          (override (line_value reads (parse_key_value (c_string buf))) s)
        ≡ override (assigned reads (buf ∷ bufs)) s
  unfolding assigned
  assigned-override buf bufs s = elim (Option-cases (assigned reads bufs)) [
    | inl e ↦ rw e
    | inr (v, e) ↦ rw e
  ]

  pub read_lines-assigned :
      (bufs : List Bytes) (g : Globals)
      → (read_lines (codes "dhcp") g bufs).1 ≡ success
      → view (read_lines (codes "dhcp") g bufs).0 ≡ override (assigned reads bufs) (view g)
  read_lines-assigned [] g h = unfold read_lines assigned in refl
  read_lines-assigned (buf ∷ bufs) g h =
      elim (Status-cases (read_line (codes "dhcp") g (c_string buf)).1) [
        | inl good ↦
            let step = read_lines-success (codes "dhcp") g buf bufs good in
            rw step (
              read_lines-assigned bufs _ (rw step at h)
              ∙ rw (read_line_law g (c_string buf) good) (assigned-override buf bufs (view g)))
        | inr bad ↦ absurd (not_both (rw (read_lines-failure (codes "dhcp") g buf bufs bad) at h))
      ]
    where
      not_both : failure ≡ success → ⊥
      not_both e = cc

pub auth_version_law :
    (g : Globals) (key : DhcpKey) (value : Bytes)
    → (store_dhcp g key value).1 ≡ success
    → ◌≡◌ {A = Bool × Bytes}
        (
          (store_dhcp g key value).0.explicit.auth_version,
          (store_dhcp g key value).0.config.auth_version,
        )
        (override (reads_auth_version key value) (g.explicit.auth_version, g.config.auth_version))
unfolding store_dhcp reads_auth_version
auth_version_law g DhcpKey.auth_version value h = ground arith
auth_version_law g _ value h = ground arith

pub keep_alive_version_law :
    (g : Globals) (key : DhcpKey) (value : Bytes)
    → (store_dhcp g key value).1 ≡ success
    → ◌≡◌ {A = Bool × Bytes}
        (
          (store_dhcp g key value).0.explicit.keep_alive_version,
          (store_dhcp g key value).0.config.keep_alive_version,
        )
        (override
          (reads_keep_alive_version key value)
          (g.explicit.keep_alive_version, g.config.keep_alive_version))
unfolding store_dhcp reads_keep_alive_version
keep_alive_version_law g DhcpKey.keep_alive_version value h = ground arith
keep_alive_version_law g _ value h = ground arith

pub jlu_mode_law :
    (g : Globals) (key : DhcpKey) (value : Bytes)
    → (store_dhcp g key value).1 ≡ success
    → ◌≡◌ {A = Bool × Bool}
        ((store_dhcp g key value).0.explicit.jlu_mode, (store_dhcp g key value).0.config.jlu_mode)
        (override (reads_jlu_mode key value) (g.explicit.jlu_mode, g.config.jlu_mode))
unfolding store_dhcp reads_jlu_mode
jlu_mode_law g DhcpKey.jlu_mode value h = ground arith
jlu_mode_law g _ value h = ground arith

pub ror_version_law :
    (g : Globals) (key : DhcpKey) (value : Bytes)
    → (store_dhcp g key value).1 ≡ success
    → ◌≡◌ {A = Bool × Bool}
        (
          (store_dhcp g key value).0.explicit.ror_version,
          (store_dhcp g key value).0.config.ror_version,
        )
        (override (reads_ror_version key value) (g.explicit.ror_version, g.config.ror_version))
unfolding store_dhcp reads_ror_version
ror_version_law g DhcpKey.ror_version value h = ground arith
ror_version_law g _ value h = ground arith

pub startup_delay_seconds_law :
    (g : Globals) (key : DhcpKey) (value : Bytes)
    → (store_dhcp g key value).1 ≡ success
    → ◌≡◌ {A = Bool × ℕ}
        (
          (store_dhcp g key value).0.explicit.startup_delay_seconds,
          (store_dhcp g key value).0.config.startup_delay_seconds,
        )
        (override
          (reads_startup_delay_seconds key value)
          (g.explicit.startup_delay_seconds, g.config.startup_delay_seconds))
unfolding store_dhcp reads_startup_delay_seconds
startup_delay_seconds_law g DhcpKey.startup_delay_seconds value h = ground arith
startup_delay_seconds_law g _ value h = ground arith
