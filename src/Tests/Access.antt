-- ===== src/Tests/Access.antt =====
-- Runs of Eapol and Interfaces.
use jlu_drcom.Base.{
  ◌+◌, ◌*◌, ◌≤◌, ◌≡◌, refl, Bytes, List, [], ◌∷◌, ◌++◌, some, none, length, take, replicate, zeros,
  codes, arith, pos, ltb, if◌then◌else◌, drop, negsuc, ℕ, Option, ℤ,
}
use jlu_drcom.Eapol.{Eapol, Arrival, arrived, eap_md5_clg, strncpy, strlen}
use jlu_drcom.Eapol.Login.{
  Interface, Result, returned, overrun, waits, eaplogin, eaplogoff, eap_keep_alive,
}
use jlu_drcom.Eapol.Login.KeepAlive.{eap_keep_alive-Spaced}
use jlu_drcom.Eapol.Login.Logoff.{SignedOff, eaplogoff-SignedOff}
use jlu_drcom.Eapol.Login.Outcome.{usable, eap_md5_clg-overrun}
use jlu_drcom.Eapol.Md5.{Safe, hashed, IsMd5Answer, eap_md5_clg-IsMd5Answer}
use jlu_drcom.Interfaces.{getall_ifs}
use jlu_drcom.Interfaces.Laws.{kept_names, getall_ifs-kept_names}
use jlu_drcom.Tests.Data.{flat_digests}

abbrev own_mac : Bytes
own_mac = 0xb0 ∷ 0x25 ∷ 0xaa ∷ 0x85 ∷ 0x14 ∷ 0x9b ∷ []

abbrev switch_mac : Bytes
switch_mac = 0x01 ∷ 0x80 ∷ 0xc2 ∷ 0x00 ∷ 0x00 ∷ 0x03 ∷ []

-- A frame of the switch with this EAP code, id and rest.
abbrev from_switch : ℕ → ℕ → Bytes → Bytes
from_switch code id rest =
    own_mac
    ++ (switch_mac ++ (0x88 ∷ 0x8e ∷ 0x01 ∷ 0x00 ∷ 0x00 ∷ 0x05 ∷ code ∷ id ∷ 0x00 ∷ 0x05 ∷ rest))

abbrev identity_request : Bytes
identity_request = from_switch 0x01 7 (0x01 ∷ [])

abbrev challenge_request : Bytes
challenge_request = from_switch 0x01 8 (0x04 ∷ 16 ∷ replicate 16 0xc4)

abbrev pub plugged_in : Eapol
plugged_in = record {
  ifname = codes "eth0";
  client_mac = zeros 6;
  sendbuff = zeros 512;
  recvbuff = zeros 512;
  uname = zeros 32;
  pwd = zeros 32;
  pwdlen = 0;
  arrivals =
      arrived 1 (some identity_request)
      ∷ arrived 0 (some challenge_request)
      ∷ arrived 1 (some (from_switch 0x03 8 []))
      ∷ [];
  clock = 100;
  sent = [];
}

abbrev pub one_interface : Bytes → Interface
one_interface ifname = usable own_mac

-- A challenge has arrived.
abbrev challenged : Eapol
challenged = record plugged_in {
  client_mac = own_mac;
  recvbuff = challenge_request ++ zeros 472;
  uname = codes "student" ++ zeros 25;
  pwd = codes "secret" ++ zeros 26;
  pwdlen = 6;
}

challenged-Safe : Safe challenged
unfolding strlen
challenged-Safe = record {
  recv_size = refl;
  pwd_size = refl;
  pwd_ends = omega arith;
  uname_size = refl;
  name_size = 7;
  name_ends = refl;
}

-- What is hashed: the id, the password and the challenge.
hashed_text : hashed challenged ≡ 8 ∷ (codes "secret" ++ replicate 16 0xc4)
unfolding hashed
hashed_text = refl

eap_md5_clg-IsMd5Answer_example :
    (t : Eapol) × (frame : Bytes) × (eap_md5_clg flat_digests challenged ≡ some t)
    × (t.sent ≡ frame ∷ [])
    × IsMd5Answer flat_digests challenged (hashed challenged) challenged-Safe.name_size frame
eap_md5_clg-IsMd5Answer_example =
    eap_md5_clg-IsMd5Answer challenged challenged-Safe flat_digests refl

abbrev long_name : Bytes
long_name = replicate 33 0x61

abbrev too_long : Eapol
too_long = record challenged { uname = replicate 32 0x61 }

eap_md5_clg-overrun_example : eap_md5_clg flat_digests too_long ≡ none
unfolding strncpy
eap_md5_clg-overrun_example =
    eap_md5_clg-overrun flat_digests long_name too_long (omega arith) (omega arith) refl

-- Online: a request a minute, and one that is repeated.
abbrev online : Eapol
online = record challenged {
  arrivals =
      arrived 60 (some identity_request)
      ∷ arrived 2 (some identity_request)
      ∷ arrived 58 (some identity_request)
      ∷ [];
}

eap_keep_alive-Spaced_example :
    11 * length (eap_keep_alive 3 100 online).sent + 100
    ≤ 11 * 0 + (eap_keep_alive 3 100 online).clock
eap_keep_alive-Spaced_example = eap_keep_alive-Spaced 3 100 online (omega arith)

abbrev pub net_dev : List Bytes
net_dev =
    codes "Inter-|   Receive"
    ∷ codes " face |bytes    packets"
    ∷ codes "  eth0: 147125283  119599"
    ∷ codes " wlan0:  229230    2635"
    ∷ codes "    lo: 10285509   38254"
    ∷ []

getall_ifs-kept_names_example : getall_ifs (some net_dev) 64 ≡ (
    if ltb (length (kept_names (drop 2 net_dev))) 64
    then (pos (length (kept_names (drop 2 net_dev))), kept_names (drop 2 net_dev))
    else (negsuc 1, []))
getall_ifs-kept_names_example = getall_ifs-kept_names net_dev 64 (omega arith)

-- Of these three only the first is taken.
only_eth0 : kept_names (drop 2 net_dev) ≡ codes "eth0" ∷ []
unfolding jlu_drcom.Interfaces.is_filter jlu_drcom.Interfaces.get_ifname_from_buff
only_eth0 = refl

abbrev status : Result → Option ℤ
status (returned number t) = some number
status (overrun t) = none
status (waits t) = none

-- The three frames that arrive log in.
logs_in :
    status (eaplogin flat_digests one_interface (codes "student") (codes "secret") plugged_in)
    ≡ some (pos 0)
unfolding eaplogin strncpy strlen jlu_drcom.Eapol.read jlu_drcom.Eapol.transmit
    jlu_drcom.Eapol.Login.eapol_init jlu_drcom.Eapol.Login.start_turn
    jlu_drcom.Eapol.Login.identity_turn jlu_drcom.Eapol.Login.md5clg_turn
    jlu_drcom.Eapol.Login.tries jlu_drcom.Eapol.Login.after_start
    jlu_drcom.Eapol.Login.after_identity jlu_drcom.Eapol.Login.after_md5clg
    jlu_drcom.Eapol.eapol_logoff jlu_drcom.Eapol.eapol_start jlu_drcom.Eapol.eap_res_identity
    jlu_drcom.Eapol.md5_text eap_md5_clg jlu_drcom.Eapol.Filters.filte_req_identity
    jlu_drcom.Eapol.Filters.filte_req_md5clg jlu_drcom.Eapol.Filters.filte_success
    jlu_drcom.Base.put jlu_drcom.Base.writes jlu_drcom.Base.memcpy jlu_drcom.Base.put_all
logs_in = refl

-- The switch answers a logoff with a failure frame.
abbrev leaving : Eapol
leaving = record plugged_in { arrivals = arrived 1 (some (from_switch 0x04 255 [])) ∷ [] }

eaplogoff-SignedOff_example : SignedOff own_mac leaving (eaplogoff one_interface leaving)
eaplogoff-SignedOff_example = eaplogoff-SignedOff one_interface own_mac leaving refl refl refl tt
