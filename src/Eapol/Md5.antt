-- ===== src/Eapol/Md5.antt =====
-- drcom/src/eapol.c: the text that `eap_md5_clg` hashes, and its accesses of the arrays.
use jlu_drcom.Base.{
  List, ℕ, zero, suc, ◌+◌, ◌%◌, ◌<◌, ◌≤◌, ◌≡◌, ◌∙◌, refl, ap, Bytes, [], ◌∷◌, ◌++◌, some, arith,
  length, get_or, take, drop, slice, zeros, put, length-put, length-take, length-drop, put_all,
  writes, writes-put_all, AllApart, slice-put_all_nth, length-put_all, le→leb, none, Bool-cases,
  Option-cases, inl, inr, ◌==◌,
}
use jlu_drcom.Eapol.{Eapol, md5_text, eap_md5_clg, strlen, read, transmit}
use jlu_drcom.Eapol.Frames.{front, length-front}
use jlu_drcom.Eapol.Filters.Laws.{Kept}
use jlu_drcom.Eapol.Frames.Responses.{challenge_answer, challenge_stores}
use jlu_drcom.Packet.{Digests}

-- The arrays have their sizes, and the name and the password end inside of theirs.
pub record Safe (s : Eapol) : Type 0 where
  pub recv_size : length s.recvbuff ≡ 512
  pub pwd_size : length s.pwd ≡ 32
  pub pwd_ends : s.pwdlen < 32
  pub uname_size : length s.uname ≡ 32
  pub name_size : ℕ
  pub name_ends : strlen s.uname ≡ some name_size

pub Kept-Safe : {s t : Eapol} → Kept s t → Safe s → Safe t
Kept-Safe k h = record {
  recv_size = k.same_size ∙ h.recv_size;
  pwd_size = rw k.same_pwd h.pwd_size;
  pwd_ends = rw k.same_pwdlen h.pwd_ends;
  uname_size = rw k.same_uname h.uname_size;
  name_size = h.name_size;
  name_ends = rw k.same_uname h.name_ends;
}

-- The front of an array that ends with a write.
take-put_end :
    (at total : ℕ) (src buf : Bytes)
    → at + length src ≡ total
    → total ≤ length buf
    → take total (put at src buf) ≡ take at buf ++ src
unfolding put
take-put_end zero zero [] buf e h = refl
take-put_end zero (suc n) [] buf e h = absurd (omega arith)
take-put_end zero zero (x ∷ src) buf e h = absurd (omega arith)
take-put_end zero (suc n) (x ∷ src) [] e h = absurd (omega arith)
take-put_end zero (suc n) (x ∷ src) (y ∷ buf) e h =
    ap (◌∷◌ x) (take-put_end zero n src buf (omega arith) (omega arith))
take-put_end (suc at) zero src buf e h = absurd (omega arith)
take-put_end (suc at) (suc n) src [] e h = absurd (omega arith)
take-put_end (suc at) (suc n) src (y ∷ buf) e h =
    ap (◌∷◌ y) (take-put_end at n src buf (omega arith) (omega arith))

read-eq-some :
    (at n : ℕ) (buf : Bytes) → at + n ≤ length buf → read at n buf ≡ some (slice at n buf)
unfolding read
read-eq-some at n buf h = rw (le→leb (at + n) (length buf) h)

length-slice_inside : (at n : ℕ) (buf : Bytes) → at + n ≤ length buf → length (slice at n buf) ≡ n
length-slice_inside at n buf h = omega (arith, length-take n (drop at buf), length-drop at buf)

-- Three pieces, one behind the other, from the front of an array.
pieces :
    (p m : ℕ) (id password value buf : Bytes)
    → length id ≡ 1
    → length password ≡ p
    → length value ≡ m
    → 1 + p + m ≤ length buf
    → take (1 + p + m) (put (1 + p) value (put 1 password (put 0 id buf)))
      ≡ (id ++ password) ++ value
pieces p m id password value buf hi hp hv room =
    let b0 = put 0 id buf in
    let l0 = length-put 0 id buf in
    let b1 = put 1 password b0 in
    let l1 = length-put 1 password b0 in
    let e2 = take-put_end (1 + p) (1 + p + m) value b1 (omega arith) (omega arith) in
    let e1 = take-put_end 1 (1 + p) password b0 (omega arith) (omega arith) in
    let e0 = take-put_end 0 1 id buf (omega arith) (omega arith) in e2 ∙ rw (e1, e0)

strlen-inside : (xs : Bytes) {n : ℕ} → strlen xs ≡ some n → n < length xs
unfolding strlen
strlen-inside [] {n} e = cc
strlen-inside (x ∷ xs) {n} e = elim (Bool-cases (x == 0)) [
  | inl nul ↦
      let found : some 0 ≡ some n = rw (← e, strlen, nul) in
      let same : 0 ≡ n = cc found in omega arith
  | inr other ↦ elim (Option-cases (strlen xs)) [
    | inl endless ↦ let lost : none ≡ some n = rw (← e, strlen, other, endless) in cc lost
    | inr (m, rest) ↦
        let found : some (suc m) ≡ some n = rw (← e, strlen, other, rest) in
        let same : suc m ≡ n = cc found in let inside = strlen-inside xs rest in omega arith
  ]
]

-- The answer to the challenge in `recvbuff`: its id, its size, the digest of what belongs to it, and the
-- name.
pub record IsMd5Answer (digests : Digests) (s : Eapol) (hashed : Bytes) (n : ℕ) (frame : Bytes)
    : Type 0 where
  pub size : length frame ≡ 104
  pub id : slice 19 1 frame ≡ slice 19 1 s.recvbuff
  pub type : slice 22 1 frame ≡ 0x04 ∷ []
  pub value_size : slice 23 1 frame ≡ slice 23 1 s.recvbuff
  pub value : slice 24 16 frame ≡ digests.md5 hashed
  pub name : slice 40 n frame ≡ take n s.uname

-- The id of a request, the password and the value of the challenge.
unfoldable pub hashed : Eapol → Bytes
hashed s =
    (slice 19 1 s.recvbuff ++ take s.pwdlen s.pwd)
    ++ slice 24 (get_or s.recvbuff 23 0 % 256) s.recvbuff

module _ (s : Eapol) (h : Safe s) where
  md5_text-hashed : md5_text s ≡ some (hashed s)
  unfolding md5_text hashed writes put_all
  md5_text-hashed =
      let rs = h.recv_size in
      let ps = h.pwd_size in
      let pe = h.pwd_ends in
      let m = get_or s.recvbuff 23 0 % 256 in
      let id = slice 19 1 s.recvbuff in
      let password = take s.pwdlen s.pwd in
      let value = slice 24 m s.recvbuff in
      let li : length id ≡ 1 = length-slice_inside 19 1 s.recvbuff (omega arith) in
      let lp : length password ≡ s.pwdlen = length-slice_inside 0 s.pwdlen s.pwd (omega arith) in
      let lv : length value ≡ m = length-slice_inside 24 m s.recvbuff (omega arith) in
      let stores : List (ℕ × Bytes) = (0, id) ∷ (1, password) ∷ (1 + s.pwdlen, value) ∷ [] in
      let r1 : read 0 s.pwdlen s.pwd ≡ some password =
        read-eq-some 0 s.pwdlen s.pwd (omega arith) in
      let r2 : read 24 m s.recvbuff ≡ some value = read-eq-some 24 m s.recvbuff (omega arith) in
      let r3 : writes stores (zeros 512) ≡ some (put_all stores (zeros 512)) =
        writes-put_all stores (zeros 512) (omega arith) in
      let full = length-put_all stores (zeros 512) in
      let r4 : read 0 (1 + s.pwdlen + m) (put_all stores (zeros 512))
          ≡ some (take (1 + s.pwdlen + m) (put_all stores (zeros 512))) =
        read-eq-some 0 (1 + s.pwdlen + m) (put_all stores (zeros 512)) (omega arith) in
      rw (md5_text, r1, r2, r3, r4)
        (ap some (pieces s.pwdlen m id password value (zeros 512) li lp lv (omega arith)))

  -- With arrays of their sizes, and a name and a password that end inside of theirs, the answer to a
  -- challenge is sent without an access outside of an array: it repeats the id and the size, carries
  -- the MD5 digest of the id, the password and as many bytes of the challenge as its size says,
  -- whatever the frame has there, and has the name behind it.
  pub eap_md5_clg-IsMd5Answer :
      (digests : Digests)
      → length s.sendbuff ≡ 512
      → (t : Eapol) × (frame : Bytes) × (eap_md5_clg digests s ≡ some t)
        × (t.sent ≡ frame ∷ s.sent)
        × IsMd5Answer digests s (hashed s) h.name_size frame
  unfolding eap_md5_clg challenge_answer challenge_stores transmit
  eap_md5_clg-IsMd5Answer digests room =
      let n = h.name_size in
      let short = strlen-inside s.uname h.name_ends in
      let us = h.uname_size in
      let rs = h.recv_size in
      let stores = challenge_stores s digests (hashed s) n in
      let buf = put_all stores s.sendbuff in
      let full : length buf ≡ 512 = length-put_all stores s.sendbuff ∙ room in
      let digest = digests.md5_length (hashed s) in
      let li : length (slice 19 1 s.recvbuff) ≡ 1 =
        length-slice_inside 19 1 s.recvbuff (omega arith) in
      let lm : length (slice 23 1 s.recvbuff) ≡ 1 =
        length-slice_inside 23 1 s.recvbuff (omega arith) in
      let ln : length (take n s.uname) ≡ n = length-slice_inside 0 n s.uname (omega arith) in
      let field : (k at m : ℕ) (src : Bytes)
          → take 1 (drop k stores) ≡ (at, src) ∷ []
          → length src ≡ m
          → at + m ≤ 104
          → AllApart at m (drop (suc k) stores)
          → slice at m (take 104 buf) ≡ src =
        λ k at m src e size inside apart.
          front at m 104 buf inside
            (slice-put_all_nth k stores s.sendbuff at m src e size (omega arith) apart) in
      (
        challenge_answer s digests (hashed s) n,
        take 104 buf,
        rw (eap_md5_clg, md5_text-hashed, h.name_ends),
        refl,
        record {
          size = length-front 104 buf (omega arith);
          id = field 0 19 1 _ refl li (omega arith) (omega arith);
          type = field 2 22 1 _ refl refl (omega arith) (omega arith);
          value_size = field 3 23 1 _ refl lm (omega arith) (omega arith);
          value = field 4 24 16 _ refl digest (omega arith) (omega arith);
          name = field 5 40 n _ refl ln (omega arith) (omega arith);
        },
      )
