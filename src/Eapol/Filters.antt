-- ===== src/Eapol/Filters.antt =====
-- drcom/src/eapol.c: `recvfrom`, and the three loops that wait for a frame.
pub mod Laws
pub mod Answers
use jlu_drcom.Base.{
  ℕ, ◌+◌, ◌-◌, ◌==◌, leb, Bool, true, false, ◌&&◌, if◌then◌else◌, Bytes, List, [], ◌∷◌, Option,
  none, some, get_or, take, slice, put, equal,
}
use jlu_drcom.Eapol.{Eapol, Arrival, arrived, buff_len, ethii_8021x}

-- `TIMEOUT`, in seconds
abbrev pub timeout_seconds : ℕ
timeout_seconds = 3

-- How waiting ends: with the frame (0), with the time used up (-1), with a refusal (-2), with an
-- access outside of an array, or not at all.
pub data Waiting : Type 0 where
  found timed_out refused faulted blocked : Eapol → Waiting

-- What a frame is for a loop.
pub data Verdict : Type 0 where
  accept refuse ignore : Verdict

-- libs/common.c: `mac_equal`, of two arrays of six bytes.
unfoldable pub mac_equal : Bytes → Bytes → Bool
unfolding equal
mac_equal mac1 mac2 = equal (take 6 mac1) (take 6 mac2)

-- What a call of `recvfrom` leaves in `recvbuff`.
abbrev pub received : Option Bytes → Bytes → Bytes
received none recvbuff = recvbuff
received (some frame) recvbuff = put 0 (take buff_len frame) recvbuff

-- `recvethii->type`, `recvethii->dst_mac` and `recveapol->type`
unfoldable pub is_packet_for_us : Eapol → Bool
unfolding mac_equal
is_packet_for_us s =
    equal (slice 12 2 s.recvbuff) ethii_8021x
    && mac_equal (slice 0 6 s.recvbuff) s.client_mac
    && get_or s.recvbuff 15 0 == 0x00

-- `recveap->code == code && recveap->type == type`
abbrev pub has_code_and_type : ℕ → ℕ → Eapol → Bool
has_code_and_type code type s = get_or s.recvbuff 18 0 == code && get_or s.recvbuff 22 0 == type

-- `recveap->id == sendeap->id && recveap->code == code`
abbrev pub answers_with : ℕ → Eapol → Bool
answers_with code s =
    get_or s.recvbuff 19 0 == get_or s.sendbuff 19 0 && get_or s.recvbuff 18 0 == code

-- The body of the loop of `filte_req_identity`, behind `recvfrom`.
unfoldable pub req_identity : Eapol → Verdict
unfolding is_packet_for_us
req_identity s = if is_packet_for_us s && has_code_and_type 0x01 0x01 s then accept else ignore

-- Of `filte_req_md5clg`.
unfoldable pub req_md5clg : Eapol → Verdict
unfolding is_packet_for_us
req_md5clg s =
    if is_packet_for_us s
    then if has_code_and_type 0x01 0x04 s
      then accept
      else if answers_with 0x04 s
      then refuse
      else ignore
    else ignore

-- Of `filte_success`.
unfoldable pub success_frame : Eapol → Verdict
unfolding is_packet_for_us
success_frame s =
    if is_packet_for_us s
    then if answers_with 0x03 s then accept else if answers_with 0x04 s then refuse else ignore
    else ignore

abbrev pub receive : ℕ → Option Bytes → List Arrival → Eapol → Eapol
receive seconds frame more s = record s {
  clock = s.clock + seconds;
  recvbuff = received frame s.recvbuff;
  arrivals = more;
}

-- The loop, over what arrives.
unfoldable pub receive_until : (Eapol → Verdict) → ℕ → List Arrival → Eapol → Waiting
receive_until verdict stime [] s =
    if leb (s.clock - stime) timeout_seconds then blocked s else timed_out s
receive_until verdict stime (arrived seconds frame ∷ more) s =
    let t = receive seconds frame more s in
    let later = receive_until verdict stime more t in
    if leb (s.clock - stime) timeout_seconds
    then elim (verdict t) [ accept ↦ found t | refuse ↦ refused t | ignore ↦ later ]
    else timed_out s

unfoldable pub filte_req_identity : Eapol → Waiting
unfolding receive_until req_identity
filte_req_identity s = receive_until req_identity s.clock s.arrivals s

unfoldable pub filte_req_md5clg : Eapol → Waiting
unfolding receive_until req_md5clg
filte_req_md5clg s = receive_until req_md5clg s.clock s.arrivals s

unfoldable pub filte_success : Eapol → Waiting
unfolding receive_until success_frame
filte_success s = receive_until success_frame s.clock s.arrivals s
