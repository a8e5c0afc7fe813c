-- ===== src/Eapol/Login/Turns.antt =====
-- drcom/src/eapol.c: one turn of each of the loops of `eaplogin`.
use jlu_drcom.Base.{ℕ, ◌≡◌, refl, inl, inr, Bytes, some, arith, Bool-cases, ◌&&◌}
use jlu_drcom.Eapol.{Eapol, eapol_start, eap_res_identity, eap_md5_clg}
use jlu_drcom.Eapol.Filters.{
  Waiting, found, timed_out, refused, faulted, blocked, accept, refuse, ignore, req_identity,
  req_md5clg, success_frame, filte_req_identity, filte_req_md5clg, filte_success, is_packet_for_us,
  has_code_and_type,
}
use jlu_drcom.Eapol.Filters.Laws.{Kept, receive_until-Ends}
use jlu_drcom.Eapol.Frames.{Kept-Sound, Kept-Headed, Kept-Responding}
use jlu_drcom.Eapol.Frames.Start.{eapol_start-Headed}
use jlu_drcom.Eapol.Frames.Responses.{
  eap_res_identity-Responding, eap_md5_clg-Responding, challenge_answer, eap_md5_clg-eq-some,
}
use jlu_drcom.Eapol.Login.{start_turn, identity_turn, md5clg_turn}
use jlu_drcom.Eapol.Login.Tries.{
  Tried, waited, Beginning, AfterStart, AfterIdentity, Identified, Answered, LastSent,
  Kept-LastSent, eap_res_identity-LastSent, challenge_answer-LastSent,
}
use jlu_drcom.Eapol.Md5.{Safe, Kept-Safe, eap_md5_clg-IsMd5Answer}
use jlu_drcom.Packet.{Digests}

-- The name, the password and the received bytes stay when a frame is sent.
eapol_start-Safe : (s : Eapol) → Safe s → Safe (eapol_start s)
unfolding eapol_start jlu_drcom.Eapol.transmit
eapol_start-Safe s h = record {
  recv_size = h.recv_size;
  pwd_size = h.pwd_size;
  pwd_ends = h.pwd_ends;
  uname_size = h.uname_size;
  name_size = h.name_size;
  name_ends = h.name_ends;
}

eap_res_identity-Safe : (s : Eapol) → Safe s → Safe (eap_res_identity s)
unfolding eap_res_identity jlu_drcom.Eapol.transmit
eap_res_identity-Safe s h = record {
  recv_size = h.recv_size;
  pwd_size = h.pwd_size;
  pwd_ends = h.pwd_ends;
  uname_size = h.uname_size;
  name_size = h.name_size;
  name_ends = h.name_ends;
}

challenge_answer-Safe :
    (s : Eapol) (digests : Digests) (text : Bytes) (n : ℕ)
    → Safe s
    → Safe (challenge_answer s digests text n)
unfolding challenge_answer
challenge_answer-Safe s digests text n h = record {
  recv_size = h.recv_size;
  pwd_size = h.pwd_size;
  pwd_ends = h.pwd_ends;
  uname_size = h.uname_size;
  name_size = h.name_size;
  name_ends = h.name_ends;
}

pub req_identity-never_refuse : (s : Eapol) → req_identity s ≡ refuse → ⊥
unfolding req_identity
req_identity-never_refuse s e =
    elim (Bool-cases (is_packet_for_us s && has_code_and_type 0x01 0x01 s)) [
      | inl good ↦ let h : accept ≡ refuse = rw (← e, req_identity, good) in cc h
      | inr other ↦ let h : ignore ≡ refuse = rw (← e, req_identity, other) in cc h
    ]

module _ (mac : Bytes) (s : Eapol) where
  start_turn-waited :
      (w : Waiting)
      → filte_req_identity (eapol_start s) ≡ w
      → Tried req_identity (Beginning mac) (AfterStart mac) 1 s w
      → Tried req_identity (Beginning mac) (AfterStart mac) 1 s (start_turn s)
  unfolding start_turn Tried
  start_turn-waited (found t) e h = rw (start_turn, e) h
  start_turn-waited (timed_out t) e h = rw (start_turn, e) h
  start_turn-waited (refused t) e h = absurd (req_identity-never_refuse t h.0)
  start_turn-waited (faulted t) e h = absurd h
  start_turn-waited (blocked t) e h = rw (start_turn, e) h

  pub start_turn-Tried :
      Beginning mac s → Tried req_identity (Beginning mac) (AfterStart mac) 1 s (start_turn s)
  unfolding filte_req_identity
  start_turn-Tried h =
      let u = eapol_start s in
      let headed = eapol_start-Headed mac s h.sound in
      let safe = eapol_start-Safe s h.safe in
      start_turn-waited (filte_req_identity u) refl (
        waited req_identity (Beginning mac) (AfterStart mac) s u (filte_req_identity u)
          (λ t k. record { headed = Kept-Headed k headed; safe = Kept-Safe k safe })
          (λ t k. record { sound = Kept-Sound k headed.sound; safe = Kept-Safe k safe })
          (unfold eapol_start jlu_drcom.Eapol.transmit in omega arith)
          (unfold eapol_start jlu_drcom.Eapol.transmit in refl)
          (receive_until-Ends req_identity u.clock u.arrivals u refl))

  pub identity_turn-Tried :
      AfterStart mac s → Tried req_md5clg (AfterStart mac) (Identified mac) 1 s (identity_turn s)
  unfolding identity_turn filte_req_md5clg
  identity_turn-Tried h =
      let u = eap_res_identity s in
      let responding = eap_res_identity-Responding mac s h.headed in
      let safe = eap_res_identity-Safe s h.safe in
      let last = eap_res_identity-LastSent mac s h.headed in
      waited req_md5clg (AfterStart mac) (Identified mac) s u (filte_req_md5clg u)
        (λ t k. record {
          after = record { responding = Kept-Responding k responding; safe = Kept-Safe k safe };
          last = Kept-LastSent k last;
        })
        (λ t k. record { headed = Kept-Headed k responding.headed; safe = Kept-Safe k safe })
        (unfold eap_res_identity jlu_drcom.Eapol.transmit in omega arith)
        (unfold eap_res_identity jlu_drcom.Eapol.transmit in refl)
        (receive_until-Ends req_md5clg u.clock u.arrivals u refl)

  md5clg_answer :
      (digests : Digests) (u : Eapol)
      → eap_md5_clg digests s ≡ some u
      → md5clg_turn digests s ≡ filte_success u
  unfolding md5clg_turn
  md5clg_answer digests u e = rw (md5clg_turn, e)

  pub md5clg_turn-Tried :
      (digests : Digests)
      → AfterIdentity mac s
      → Tried success_frame (AfterIdentity mac) (Answered mac) 1 s (md5clg_turn digests s)
  unfolding filte_success
  md5clg_turn-Tried digests h =
      let full = h.responding.headed.sound.send_size in
      let answer = eap_md5_clg-IsMd5Answer s h.safe digests full in
      let u = answer.0 in
      let (text, n, e1, e2, same) = eap_md5_clg-eq-some s digests answer.2 in
      let responding = eap_md5_clg-Responding mac s digests answer.2 h.responding in
      let safe : Safe u = rw (← same) (challenge_answer-Safe s digests text n h.safe) in
      let after : (t : Eapol) → Kept u t → AfterIdentity mac t =
        λ t k. record { responding = Kept-Responding k responding; safe = Kept-Safe k safe } in
      let last : LastSent 0x04 u = rw (← same) (challenge_answer-LastSent s digests text n full) in
      rw (md5clg_answer digests u answer.2) (
        waited success_frame (AfterIdentity mac) (Answered mac) s u (filte_success u)
          (λ t k. record { after = after t k; last = Kept-LastSent k last }) after
          (rw (← same) (unfold challenge_answer in omega arith))
          (rw (← same) (unfold challenge_answer in refl))
          (receive_until-Ends success_frame u.clock u.arrivals u refl))
