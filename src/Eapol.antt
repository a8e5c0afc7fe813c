-- ===== src/Eapol.antt =====
-- drcom/src/eapol.c and eapol.h: the 802.1X client; this file has its state and its frames,
-- `Filters` what it waits for, and `Login` its sessions.
--
-- A frame has the Ethernet header at 0 (receiver, sender, type), the EAPOL header at 14 (version,
-- type, length), the EAP header at 18 (code, id, length, type) and the body at 23, which is an
-- identity or a challenge (size at 23, value at 24, rest at 40).
--
-- Time passes in `recvfrom` only. The socket has no timeout: when `arrivals` is used up, the next
-- call never returns.
pub mod Filters
pub mod Frames
pub mod Login
pub mod Md5
pub mod Child
use jlu_drcom.Base.{
  ℕ, zero, suc, ◌+◌, ◌*◌, ◌/◌, ◌%◌, ◌==◌, leb, Bool, true, false, ◌&&◌, if◌then◌else◌, Bytes, List,
  [], ◌∷◌, ◌++◌, Option, none, some, length, get_or, take, slice, replicate, zeros, put, put_all,
  writes, memcpy, ◌>>=◌, ℤ, pos, negsuc,
}
use jlu_drcom.Ctype.{c_string}
use jlu_drcom.Packet.{Digests}

-- One call of `recvfrom`: the seconds it waits, and the frame, or `none` when it fails.
pub data Arrival : Type 0 where
  arrived : ℕ → Option Bytes → Arrival

-- The static variables, and what is outside. `sent` has the newest frame first.
pub record Eapol : Type 0 where
  pub ifname : Bytes
  pub client_mac : Bytes
  pub sendbuff : Bytes
  pub recvbuff : Bytes
  pub uname : Bytes
  pub pwd : Bytes
  pub pwdlen : ℕ
  pub arrivals : List Arrival
  pub clock : ℕ
  pub sent : List Bytes

-- `BUFF_LEN`, `UNAME_LEN`, `PWD_LEN`, `IFNAMSIZ`
abbrev pub buff_len : ℕ
buff_len = 512

abbrev pub uname_len : ℕ
uname_len = 32

abbrev pub pwd_len : ℕ
pwd_len = 32

abbrev pub ifname_size : ℕ
ifname_size = 16

-- `strlen`, of an array; `none` when the array has no NUL, and reading goes on behind its end.
unfoldable pub strlen : Bytes → Option ℕ
strlen [] = none
strlen (x ∷ xs) = let rest = strlen xs in if x == 0 then some 0 else (rest >>= λ n. some (suc n))

-- What `strncpy(dest, text, n)` leaves in `dest`.
unfoldable pub strncpy : ℕ → Bytes → Bytes
strncpy n text = take n (text ++ zeros n)

-- `n` bytes from `at` on; `none` is a read behind the end of the array.
unfoldable pub read : ℕ → ℕ → Bytes → Option Bytes
read at n buf = if leb (at + n) (length buf) then some (slice at n buf) else none

abbrev pub htons : ℕ → Bytes
htons n = ((n / 256) % 256) ∷ (n % 256) ∷ []

abbrev pub broadcast_mac : Bytes
broadcast_mac = replicate 6 0xff

abbrev pub ethii_8021x : Bytes
ethii_8021x = htons 0x888e

-- `sizeof(eap_t)` and `sizeof(eapbody_t)`
abbrev pub sizeof_eap : ℕ
sizeof_eap = 5

abbrev pub sizeof_eapbody : ℕ
sizeof_eapbody = 81

-- `sendto` with the first `n` bytes of the buffer. Its result is not looked at.
unfoldable pub transmit : ℕ → Eapol → Eapol
transmit n s = record s { sent = take n s.sendbuff ∷ s.sent }

abbrev pub fill : List (ℕ × Bytes) → Eapol → Eapol
fill stores s = record s { sendbuff = put_all stores s.sendbuff }

unfoldable pub eapol_start : Eapol → Eapol
unfolding transmit
eapol_start s = transmit 18 (
    fill
      ((0, broadcast_mac)
        ∷ (6, s.client_mac)
        ∷ (12, ethii_8021x)
        ∷ (14, 0x01 ∷ [])
        ∷ (15, 0x01 ∷ [])
        ∷ (16, 0 ∷ 0 ∷ [])
        ∷ [])
      s)

unfoldable pub eapol_logoff : Eapol → Eapol
unfolding transmit
eapol_logoff s = transmit 18 (
    fill
      ((0, broadcast_mac)
        ∷ (6, s.client_mac)
        ∷ (12, ethii_8021x)
        ∷ (14, 0x01 ∷ [])
        ∷ (15, 0x02 ∷ [])
        ∷ (16, 0 ∷ 0 ∷ [])
        ∷ (19, 255 ∷ [])
        ∷ [])
      s)

unfoldable pub eap_res_identity : Eapol → Eapol
unfolding transmit strncpy c_string
eap_res_identity s = transmit (18 + 5 + sizeof_eapbody) (
    fill
      ((0, slice 6 6 s.recvbuff)
        ∷ (15, 0x00 ∷ [])
        ∷ (16, htons (sizeof_eap + sizeof_eapbody))
        ∷ (18, 0x02 ∷ [])
        ∷ (19, slice 19 1 s.recvbuff)
        ∷ (20, htons sizeof_eapbody)
        ∷ (22, 0x01 ∷ [])
        ∷ (23, strncpy uname_len (c_string s.uname))
        ∷ [])
      s)

-- `md5buff`, as far as it is written (`md5size` is an `unsigned char`): the id, the password and the value of the challenge.
unfoldable pub md5_text : Eapol → Option Bytes
unfolding read
md5_text s =
    let md5size = get_or s.recvbuff 23 0 % 256 in
    let size = 1 + s.pwdlen + md5size in
    read 0 s.pwdlen s.pwd >>= λ password. read 24 md5size s.recvbuff >>= λ value.
    writes ((0, slice 19 1 s.recvbuff) ∷ (1, password) ∷ (1 + s.pwdlen, value) ∷ [])
      (zeros buff_len)
    >>= λ md5buff. read 0 size md5buff

-- `none` is an access outside of an array.
unfoldable pub eap_md5_clg : Digests → Eapol → Option Eapol
unfolding md5_text strlen transmit
eap_md5_clg digests s = md5_text s >>= λ text. strlen s.uname >>= λ n. some (
    transmit (18 + 5 + sizeof_eapbody) (
      fill
        ((19, slice 19 1 s.recvbuff)
          ∷ (20, htons sizeof_eapbody)
          ∷ (22, 0x04 ∷ [])
          ∷ (23, slice 23 1 s.recvbuff)
          ∷ (24, digests.md5 text)
          ∷ (40, take n s.uname)
          ∷ [])
        s))
