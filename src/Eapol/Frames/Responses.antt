-- ===== src/Eapol/Frames/Responses.antt =====
-- drcom/src/eapol.c: the frames of `eap_res_identity` and `eap_md5_clg`.
use jlu_drcom.Base.{
  ℕ, suc, ap, ◌+◌, ◌≤◌, ◌≡◌, ◌∙◌, refl, ◌⊎◌, inl, inr, Bytes, List, [], ◌∷◌, some, arith, length,
  take, drop, slice, put_all, length-put_all, AllApart, slice-put_all, slice-put_all_nth,
  >>=-eq-some,
}
use jlu_drcom.Ctype.{c_string}
use jlu_drcom.Eapol.{Eapol, eap_res_identity, eap_md5_clg, md5_text, strlen, strncpy}
use jlu_drcom.Packet.{Digests}
use jlu_drcom.Eapol.Frames.{Sound, Headed, Responding, length-slice, length-front, front}

-- What is sent from a buffer that has all fields of a response.
responded :
    (mac : Bytes) (s : Eapol) (sendbuff : Bytes) (kind : ℕ)
    → (kind ≡ 0x01) ⊎ (kind ≡ 0x04)
    → slice 22 1 sendbuff ≡ kind ∷ []
    → Sound mac s
    → Responding mac (record s { sendbuff = sendbuff; sent = s.sent })
    → Responding mac (record s { sendbuff = sendbuff; sent = take 104 sendbuff ∷ s.sent })
responded mac s sendbuff kind known type old r =
    let headed = r.headed in
    let room = headed.sound.send_size in
    record {
      headed = record {
        sound = record {
          send_size = room;
          mac_size = old.mac_size;
          own_mac = old.own_mac;
          frames = (
            inr (record {
              size = length-front 104 sendbuff (omega arith);
              sender = front 6 6 104 sendbuff (omega arith) headed.sender;
              ethertype = front 12 2 104 sendbuff (omega arith) headed.ethertype;
              version = front 14 1 104 sendbuff (omega arith) headed.version;
              kind = front 15 1 104 sendbuff (omega arith) r.kind;
              body_size = front 16 2 104 sendbuff (omega arith) r.body_size;
              code = front 18 1 104 sendbuff (omega arith) r.code;
              eap_size = front 20 2 104 sendbuff (omega arith) r.eap_size;
              type = elim known [
                | inl e ↦ inl (front 22 1 104 sendbuff (omega arith) (type ∙ ap (λ k. k ∷ []) e))
                | inr e ↦ inr (front 22 1 104 sendbuff (omega arith) (type ∙ ap (λ k. k ∷ []) e))
              ];
            }),
            old.frames,
          );
        };
        sender = headed.sender;
        ethertype = headed.ethertype;
        version = headed.version;
      };
      kind = r.kind;
      body_size = r.body_size;
      code = r.code;
      eap_size = r.eap_size;
    }

module _ (s : Eapol) where
  unfoldable pub challenge_stores : Digests → Bytes → ℕ → List (ℕ × Bytes)
  challenge_stores digests text n =
      (19, slice 19 1 s.recvbuff)
      ∷ (20, 0 ∷ 81 ∷ [])
      ∷ (22, 0x04 ∷ [])
      ∷ (23, slice 23 1 s.recvbuff)
      ∷ (24, digests.md5 text)
      ∷ (40, take n s.uname)
      ∷ []

  unfoldable pub challenge_answer : Digests → Bytes → ℕ → Eapol
  challenge_answer digests text n =
      let buf = put_all (challenge_stores digests text n) s.sendbuff in
      record s { sendbuff = buf; sent = take 104 buf ∷ s.sent }

  -- Where the answer ends, it is this one.
  pub eap_md5_clg-eq-some :
      (digests : Digests) {t : Eapol}
      → eap_md5_clg digests s ≡ some t
      → (text : Bytes) × (n : ℕ) × (md5_text s ≡ some text)
        × (strlen s.uname ≡ some n)
        × (challenge_answer digests text n ≡ t)
  unfolding eap_md5_clg challenge_answer challenge_stores
  eap_md5_clg-eq-some digests e =
      let (text, e1, rest) = >>=-eq-some (md5_text s) _ e in
      let (n, e2, last) = >>=-eq-some (strlen s.uname) _ rest in (text, n, e1, e2, cc last)

module _ (mac : Bytes) (s : Eapol) where
  identity_stores : List (ℕ × Bytes)
  unfolding strncpy c_string
  identity_stores =
      (0, slice 6 6 s.recvbuff)
      ∷ (15, 0x00 ∷ [])
      ∷ (16, 0 ∷ 86 ∷ [])
      ∷ (18, 0x02 ∷ [])
      ∷ (19, slice 19 1 s.recvbuff)
      ∷ (20, 0 ∷ 81 ∷ [])
      ∷ (22, 0x01 ∷ [])
      ∷ (23, strncpy 32 (c_string s.uname))
      ∷ []

  pub eap_res_identity-type : Headed mac s → slice 22 1 (eap_res_identity s).sendbuff ≡ 0x01 ∷ []
  unfolding eap_res_identity identity_stores jlu_drcom.Eapol.transmit
  eap_res_identity-type h =
      let room = h.sound.send_size in
      slice-put_all_nth 6 identity_stores s.sendbuff 22 1 _ refl refl (omega arith) (omega arith)

  pub eap_res_identity-Responding : Headed mac s → Responding mac (eap_res_identity s)
  unfolding eap_res_identity identity_stores
  eap_res_identity-Responding h =
      let stores = identity_stores in
      let buf = put_all stores s.sendbuff in
      let room = h.sound.send_size in
      let to = length-slice 6 6 s.recvbuff in
      let id = length-slice 19 1 s.recvbuff in
      let kept : (at n : ℕ) → AllApart at n stores → slice at n buf ≡ slice at n s.sendbuff =
        λ at n apart. slice-put_all at n stores s.sendbuff apart in
      let field : (k at n : ℕ) (src : Bytes)
          → take 1 (drop k stores) ≡ (at, src) ∷ []
          → length src ≡ n
          → at + n ≤ 104
          → AllApart at n (drop (suc k) stores)
          → slice at n buf ≡ src =
        λ k at n src e size inside apart.
          slice-put_all_nth k stores s.sendbuff at n src e size (omega arith) apart in
      responded mac s buf 0x01 (inl refl) (field 6 22 1 _ refl refl (omega arith) (omega arith))
        h.sound
        (record {
          headed = record {
            sound = record {
              send_size = length-put_all stores s.sendbuff ∙ room;
              mac_size = h.sound.mac_size;
              own_mac = h.sound.own_mac;
              frames = h.sound.frames;
            };
            sender = kept 6 6 (omega arith) ∙ h.sender;
            ethertype = kept 12 2 (omega arith) ∙ h.ethertype;
            version = kept 14 1 (omega arith) ∙ h.version;
          };
          kind = field 1 15 1 _ refl refl (omega arith) (omega arith);
          body_size = field 2 16 2 _ refl refl (omega arith) (omega arith);
          code = field 3 18 1 _ refl refl (omega arith) (omega arith);
          eap_size = field 5 20 2 _ refl refl (omega arith) (omega arith);
        })

  challenge_answer-Responding :
      (digests : Digests) (text : Bytes) (n : ℕ)
      → Responding mac s
      → Responding mac (challenge_answer s digests text n)
  unfolding challenge_answer challenge_stores
  challenge_answer-Responding digests text n h =
      let stores = challenge_stores s digests text n in
      let buf = put_all stores s.sendbuff in
      let old = h.headed in
      let room = old.sound.send_size in
      let id = length-slice 19 1 s.recvbuff in
      let kept : (at n : ℕ) → AllApart at n stores → slice at n buf ≡ slice at n s.sendbuff =
        λ at n apart. slice-put_all at n stores s.sendbuff apart in
      let type =
        slice-put_all_nth 2 stores s.sendbuff 22 1 _ refl refl (omega arith) (omega arith) in
      let eap_size =
        slice-put_all_nth 1 stores s.sendbuff 20 2 _ refl refl (omega arith) (omega arith) in
      responded mac s buf 0x04 (inr refl) type old.sound (record {
        headed = record {
          sound = record {
            send_size = length-put_all stores s.sendbuff ∙ room;
            mac_size = old.sound.mac_size;
            own_mac = old.sound.own_mac;
            frames = old.sound.frames;
          };
          sender = kept 6 6 (omega arith) ∙ old.sender;
          ethertype = kept 12 2 (omega arith) ∙ old.ethertype;
          version = kept 14 1 (omega arith) ∙ old.version;
        };
        kind = kept 15 1 (omega arith) ∙ h.kind;
        body_size = kept 16 2 (omega arith) ∙ h.body_size;
        code = kept 18 1 (omega arith) ∙ h.code;
        eap_size = eap_size;
      })

  pub eap_md5_clg-Responding :
      (digests : Digests) {t : Eapol}
      → eap_md5_clg digests s ≡ some t
      → Responding mac s
      → Responding mac t
  eap_md5_clg-Responding digests e h =
      let (text, n, e1, e2, same) = eap_md5_clg-eq-some s digests e in
      rw (← same) (challenge_answer-Responding digests text n h)
