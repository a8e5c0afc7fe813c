-- ===== src/Eapol/Login/Outcome.antt =====
-- drcom/src/eapol.c: `eaplogin` as a whole.
use jlu_drcom.Base.{
  ℕ, zero, suc, ◌<◌, ◌≤◌, ◌≡◌, refl, false, true, Bytes, [], ◌∷◌, ◌++◌, some, none, arith, length,
  take, zeros, pos, ◌==◌, Option-cases, inl, inr,
}
use jlu_drcom.Eapol.{Eapol, eap_md5_clg, md5_text, eapol_logoff, strncpy, strlen}
use jlu_drcom.Eapol.Login.{Interface, eapol_init}
use jlu_drcom.Packet.{Digests}

-- A text has no NUL.
abbrev pub NoNul : Bytes → Type 0
NoNul [] = Unit
NoNul (x ∷ xs) = (0 < x) × NoNul xs

-- An interface that the system can use.
abbrev pub usable : Bytes → Interface
usable mac = record { socket_created = true; has_index = true; hwaddr = some mac }

not_nul : (x : ℕ) → 0 < x → (x == 0) ≡ false
not_nul x h = ground arith

-- A text that is not has none.
strlen-cut :
    (n : ℕ) (text more : Bytes)
    → NoNul text
    → n ≤ length text
    → strlen (take n (text ++ more)) ≡ none
unfolding strlen
strlen-cut zero text more h long = refl
strlen-cut (suc n) [] more h long = absurd (omega arith)
strlen-cut (suc n) (x ∷ text) more h long =
    rw (strlen, not_nul x h.0, strlen-cut n text more h.1 (omega arith))

-- A name of 32 bytes or more leaves no NUL in its array: where the answer to a challenge is built,
-- `strlen` reads on behind the array.
pub eap_md5_clg-overrun :
    (digests : Digests) (uname : Bytes) (s : Eapol)
    → NoNul uname
    → 32 ≤ length uname
    → s.uname ≡ strncpy 32 uname
    → eap_md5_clg digests s ≡ none
unfolding eap_md5_clg strncpy
eap_md5_clg-overrun digests uname s clean long e =
    let endless : strlen s.uname ≡ none = rw e (strlen-cut 32 uname (zeros 32) clean long) in
    elim (Option-cases (md5_text s)) [
      | inl lost ↦ rw (eap_md5_clg, lost)
      | inr (text, hashes) ↦ rw (eap_md5_clg, hashes, endless)
    ]

pub eapol_init-usable :
    (interfaces : Bytes → Interface) (mac : Bytes) (s : Eapol)
    → interfaces s.ifname ≡ usable mac
    → ((eapol_init interfaces s).0 ≡ pos 0)
      × ((eapol_init interfaces s).1 ≡ record s { client_mac = mac })
unfolding eapol_init
eapol_init-usable interfaces mac s ready = (rw (eapol_init, ready), simp (eapol_init, ready))

module _ (digests : Digests) (interfaces : Bytes → Interface) (uname pwd : Bytes) (s : Eapol) where
  named : Eapol
  named = record s { uname = strncpy 32 uname; pwd = strncpy 32 pwd }

  module _ (mac : Bytes) where
    begun : Eapol
    unfolding named
    begun = record named { pwdlen = length pwd; client_mac = mac }

    logged_off : Eapol
    logged_off = eapol_logoff begun
