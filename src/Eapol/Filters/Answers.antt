-- ===== src/Eapol/Filters/Answers.antt =====
-- drcom/src/eapol.c: the frames that end a login, byte by byte.
use jlu_drcom.Base.{
  ℕ, ◌≡◌, ◌∙◌, sym, true, [], ◌∷◌, arith, get_or, take, drop, slice, take_all, length-take,
  equal_iff,
}
use jlu_drcom.Eapol.{Eapol, ethii_8021x}
use jlu_drcom.Eapol.Filters.{
  accept, refuse, mac_equal, is_packet_for_us, answers_with, req_md5clg, success_frame,
}

-- The received frame is an EAP packet for this client with this code, and its id is that of the last
-- response.
pub record IsAnswer (code : ℕ) (s : Eapol) : Type 0 where
  pub ethertype : slice 12 2 s.recvbuff ≡ 0x88 ∷ 0x8e ∷ []
  pub receiver : slice 0 6 s.recvbuff ≡ take 6 s.client_mac
  pub kind : get_or s.recvbuff 15 0 ≡ 0x00
  pub same_id : get_or s.recvbuff 19 0 ≡ get_or s.sendbuff 19 0
  pub same_code : get_or s.recvbuff 18 0 ≡ code

packet_for_us :
    (s : Eapol)
    → is_packet_for_us s ≡ true
    → (slice 12 2 s.recvbuff ≡ 0x88 ∷ 0x8e ∷ [])
      × (take 6 (slice 0 6 s.recvbuff) ≡ take 6 s.client_mac)
      × (get_or s.recvbuff 15 0 ≡ 0x00)
unfolding is_packet_for_us mac_equal
packet_for_us s h =
    let type = equal_iff (slice 12 2 s.recvbuff) ethii_8021x in
    let mac = equal_iff (take 6 (slice 0 6 s.recvbuff)) (take 6 s.client_mac) in
    (ground (arith, h, type), ground (arith, h, mac), ground (arith, h))

answer :
    (code : ℕ) (s : Eapol)
    → is_packet_for_us s ≡ true
    → answers_with code s ≡ true
    → IsAnswer code s
answer code s ours answers =
    let (ethertype, mac, kind) = packet_for_us s ours in
    let short =
      take_all 6 (slice 0 6 s.recvbuff) (omega (arith, length-take 6 (drop 0 s.recvbuff))) in
    record {
      ethertype = ethertype;
      receiver = sym short ∙ mac;
      kind = kind;
      same_id = ground (arith, answers);
      same_code = ground (arith, answers);
    }

pub success_frame-accept : (s : Eapol) → success_frame s ≡ accept → IsAnswer 0x03 s
unfolding success_frame
success_frame-accept s e = answer 0x03 s (ground (arith, e)) (ground (arith, e))

pub success_frame-refuse : (s : Eapol) → success_frame s ≡ refuse → IsAnswer 0x04 s
unfolding success_frame
success_frame-refuse s e = answer 0x04 s (ground (arith, e)) (ground (arith, e))

pub req_md5clg-refuse : (s : Eapol) → req_md5clg s ≡ refuse → IsAnswer 0x04 s
unfolding req_md5clg
req_md5clg-refuse s e = answer 0x04 s (ground (arith, e)) (ground (arith, e))
