-- ===== src/Eapol/Login.antt =====
-- drcom/src/eapol.c: `eaplogin`, `eaplogoff`, the keepalive loop and the set-up of the interface.
pub mod Tries
pub mod Turns
pub mod Laws
pub mod Outcome
pub mod KeepAlive
pub mod Logoff
use jlu_drcom.Base.{
  ℕ, zero, suc, ◌-◌, leb, Bool, true, false, not, if◌then◌else◌, Bytes, Option, none, some, ℤ, pos,
  negsuc,
}
use jlu_drcom.Eapol.{
  Eapol, eapol_start, eapol_logoff, eap_res_identity, eap_md5_clg, strncpy, strlen, uname_len,
  pwd_len, ifname_size,
}
use jlu_drcom.Eapol.Filters.{
  Waiting, found, timed_out, refused, faulted, blocked, filte_req_identity, filte_req_md5clg,
  filte_success,
}
use jlu_drcom.Packet.{Digests}

-- What the system says of an interface: whether a raw socket can be had, the interface exists, and
-- its hardware address.
pub record Interface : Type 0 where
  pub socket_created : Bool
  pub has_index : Bool
  pub hwaddr : Option Bytes

-- The result: a number that is returned, an access outside of an array, or no return.
pub data Result : Type 0 where
  returned : ℤ → Eapol → Result
  overrun waits : Eapol → Result

-- `TRY_TIMES`
abbrev pub try_times : ℕ
try_times = 3

unfoldable pub eapol_init : (Bytes → Interface) → Eapol → ℤ × Eapol
eapol_init interfaces s =
    let interface = interfaces s.ifname in
    if not interface.socket_created
    then (negsuc 0, s)
    else if not interface.has_index
    then (negsuc 1, s)
    else elim interface.hwaddr [
      | none ↦ (negsuc 1, s)
      | some mac ↦ (pos 0, record s { client_mac = mac })
    ]

-- A turn of each of the three loops of `eaplogin`; `timed_out` is a turn that goes on with the next.
unfoldable pub start_turn : Eapol → Waiting
start_turn s = elim (filte_req_identity (eapol_start s)) [
  | found t ↦ found t
  | timed_out t ↦ timed_out t
  | refused t ↦ timed_out t
  | faulted t ↦ faulted t
  | blocked t ↦ blocked t
]

unfoldable pub identity_turn : Eapol → Waiting
identity_turn s = filte_req_md5clg (eap_res_identity s)

unfoldable pub md5clg_turn : Digests → Eapol → Waiting
md5clg_turn digests s = elim (eap_md5_clg digests s) [
  | none ↦ faulted s
  | some answer ↦ filte_success answer
]

-- Such a loop, for the turns that are left.
unfoldable pub tries : (Eapol → Waiting) → ℕ → Eapol → Waiting
tries turn zero s = timed_out s
tries turn (suc left) s = elim (turn s) [
  | found t ↦ found t
  | timed_out t ↦ tries turn left t
  | refused t ↦ refused t
  | faulted t ↦ faulted t
  | blocked t ↦ blocked t
]

-- The parts of `eaplogin` behind the first, the second and the third loop.
unfoldable pub after_md5clg : Waiting → Result
after_md5clg (found t) = returned (pos 0) t
after_md5clg (timed_out t) = returned (negsuc 1) t
after_md5clg (refused t) = returned (pos 4) t
after_md5clg (faulted t) = overrun t
after_md5clg (blocked t) = waits t

unfoldable pub after_identity : Digests → Waiting → Result
unfolding md5clg_turn tries after_md5clg
after_identity digests (found t) = after_md5clg (tries (md5clg_turn digests) try_times t)
after_identity digests (timed_out t) = returned (negsuc 1) t
after_identity digests (refused t) = returned (pos 1) t
after_identity digests (faulted t) = overrun t
after_identity digests (blocked t) = waits t

unfoldable pub after_start : Digests → Waiting → Result
unfolding identity_turn tries after_identity
after_start digests (found t) = after_identity digests (tries identity_turn try_times t)
after_start digests (timed_out t) = returned (negsuc 1) t
after_start digests (refused t) = returned (negsuc 1) t
after_start digests (faulted t) = overrun t
after_start digests (blocked t) = waits t

-- `uname` and `pwd` as texts. This is the process that returns; behind a success a child process is
-- left with the keepalive loop (Eapol.Child). `strlen(_pwd)` is read before anything is sent.
unfoldable pub eaplogin : Digests → (Bytes → Interface) → Bytes → Bytes → Eapol → Result
unfolding strncpy strlen eapol_init start_turn tries after_start
eaplogin digests interfaces uname pwd s =
    let named = record s { uname = strncpy uname_len uname; pwd = strncpy pwd_len pwd } in
    elim (strlen named.pwd) [
      | none ↦ overrun named
      | some pwdlen ↦
          let (status, t) = eapol_init interfaces (record named { pwdlen = pwdlen }) in
          elim status [
            | pos zero ↦ after_start digests (tries start_turn try_times (eapol_logoff t))
            | pos (suc n) ↦ returned (negsuc 0) t
            | negsuc n ↦ returned (negsuc 0) t
          ]
    ]

-- A turn of the loop of `eaplogoff`.
unfoldable pub logoff_turn : Eapol → Waiting
logoff_turn s = elim (filte_success (eapol_logoff s)) [
  | found t ↦ timed_out t
  | timed_out t ↦ timed_out t
  | refused t ↦ refused t
  | faulted t ↦ faulted t
  | blocked t ↦ blocked t
]

unfoldable pub after_logoff : Waiting → Result
after_logoff (found t) = returned (negsuc 0) t
after_logoff (timed_out t) = returned (negsuc 0) t
after_logoff (refused t) = returned (pos 0) t
after_logoff (faulted t) = overrun t
after_logoff (blocked t) = waits t

unfoldable pub eaplogoff : (Bytes → Interface) → Eapol → Result
unfolding eapol_init logoff_turn tries after_logoff
eaplogoff interfaces s =
    let (status, t) = eapol_init interfaces s in
    elim status [
      | pos zero ↦ after_logoff (tries logoff_turn try_times t)
      | pos (suc n) ↦ returned (negsuc 0) t
      | negsuc n ↦ returned (negsuc 0) t
    ]

unfoldable pub eaprefresh : Digests → (Bytes → Interface) → Bytes → Bytes → Eapol → Result
unfolding eaplogin
eaprefresh digests interfaces uname pwd s = eaplogin digests interfaces uname pwd s

unfoldable pub setifname : Bytes → Eapol → Eapol
unfolding strncpy
setifname name s = record s { ifname = strncpy ifname_size name }

-- `eap_keep_alive` after `rounds` turns of its loop, or where it waits in `recvfrom` for ever.
unfoldable pub eap_keep_alive : ℕ → ℕ → Eapol → Eapol
eap_keep_alive zero stime s = s
eap_keep_alive (suc rounds) stime s = elim (filte_req_identity s) [
  | found t ↦
      if leb (t.clock - stime) 10
      then eap_keep_alive rounds t.clock t
      else eap_keep_alive rounds t.clock (eap_res_identity t)
  | timed_out t ↦ eap_keep_alive rounds stime t
  | refused t ↦ eap_keep_alive rounds stime t
  | faulted t ↦ t
  | blocked t ↦ t
]
