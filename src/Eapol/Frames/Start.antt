-- ===== src/Eapol/Frames/Start.antt =====
-- drcom/src/eapol.c: the frames of `eapol_start` and `eapol_logoff`.
use jlu_drcom.Base.{
  ℕ, zero, suc, ap, put, ◌+◌, ◌≤◌, ◌≡◌, ◌∙◌, refl, ◌⊎◌, inl, inr, Bytes, List, [], ◌∷◌, arith,
  length, take, drop, slice, put_all, length-put_all, AllApart, slice-put_all_nth,
}
use jlu_drcom.Eapol.{
  Eapol, Arrival, fill, transmit, ethii_8021x, broadcast_mac, buff_len, eapol_start, eapol_logoff,
  eap_res_identity, eap_md5_clg, md5_text, strlen, strncpy,
}
use jlu_drcom.Eapol.Frames.{Sound, Headed, length-front, front}

put_nothing : (at : ℕ) (buf : Bytes) → put at [] buf ≡ buf
unfolding put
put_nothing zero buf = refl
put_nothing (suc at) [] = refl
put_nothing (suc at) (x ∷ buf) = ap (◌∷◌ x) (put_nothing at buf)

module _ (mac : Bytes) (s : Eapol) where
  -- The stores of a start (kind 1, no mark) or a logoff (kind 2, marked with its id).
  announcement : ℕ → Bytes → List (ℕ × Bytes)
  announcement kind mark =
      (0, broadcast_mac)
      ∷ (6, s.client_mac)
      ∷ (12, ethii_8021x)
      ∷ (14, 0x01 ∷ [])
      ∷ (15, kind ∷ [])
      ∷ (16, 0 ∷ 0 ∷ [])
      ∷ (19, mark)
      ∷ []

  announced : ℕ → Bytes → Eapol
  unfolding announcement jlu_drcom.Eapol.transmit
  announced kind mark = transmit 18 (fill (announcement kind mark) s)

  announced-Headed :
      (kind : ℕ) (mark : Bytes)
      → (kind ≡ 0x01) ⊎ (kind ≡ 0x02)
      → length mark ≤ 1
      → Sound mac s
      → Headed mac (announced kind mark)
  unfolding announced
  announced-Headed kind mark known short h =
      let fits : length s.client_mac ≡ 6 = rw h.own_mac h.mac_size in
      let room = h.send_size in
      let stores = announcement kind mark in
      let field : (k at n : ℕ) (src : Bytes)
          → take 1 (drop k stores) ≡ (at, src) ∷ []
          → length src ≡ n
          → at + n ≤ 18
          → AllApart at n (drop (suc k) stores)
          → slice at n (put_all stores s.sendbuff) ≡ src =
        λ k at n src e size inside apart.
          slice-put_all_nth k stores s.sendbuff at n src e size (omega arith) apart in
      let to = field 0 0 6 _ refl refl (omega arith) (omega arith) in
      let from = field 1 6 6 _ refl fits (omega arith) (omega arith) ∙ h.own_mac in
      let ethertype = field 2 12 2 _ refl refl (omega arith) (omega arith) in
      let version = field 3 14 1 _ refl refl (omega arith) (omega arith) in
      let mark_field = field 4 15 1 _ refl refl (omega arith) (omega arith) in
      let empty = field 5 16 2 _ refl refl (omega arith) (omega arith) in
      let frame = put_all stores s.sendbuff in
      let full : length frame ≡ 512 = length-put_all stores s.sendbuff ∙ room in
      record {
        sound = record {
          send_size = full;
          mac_size = h.mac_size;
          own_mac = h.own_mac;
          frames = (
            inl (record {
              size = length-front 18 frame (omega arith);
              receiver = front 0 6 18 frame (omega arith) to;
              sender = front 6 6 18 frame (omega arith) from;
              ethertype = front 12 2 18 frame (omega arith) ethertype;
              version = front 14 1 18 frame (omega arith) version;
              kind = elim known [
                | inl e ↦ inl (front 15 1 18 frame (omega arith) (mark_field ∙ ap (λ k. k ∷ []) e))
                | inr e ↦ inr (front 15 1 18 frame (omega arith) (mark_field ∙ ap (λ k. k ∷ []) e))
              ];
              body_size = front 16 2 18 frame (omega arith) empty;
            }),
            h.frames,
          );
        };
        sender = from;
        ethertype = ethertype;
        version = version;
      }

  pub eapol_start-Headed : Sound mac s → Headed mac (eapol_start s)
  unfolding eapol_start announced announcement put_all
  eapol_start-Headed h =
      let same : announced 0x01 [] ≡ eapol_start s = simp (put_nothing) in
      rw (← same) (announced-Headed 0x01 [] (inl refl) (omega arith) h)

  pub eapol_logoff-Headed : Sound mac s → Headed mac (eapol_logoff s)
  unfolding eapol_logoff announced announcement
  eapol_logoff-Headed h = announced-Headed 0x02 (255 ∷ []) (inr refl) (omega arith) h
