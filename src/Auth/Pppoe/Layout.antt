-- ===== src/Auth/Pppoe/Layout.antt =====
-- drcom/src/auth.c: the layout of the packet of `pppoe_login`.
use jlu_drcom.Base.{
  ℕ, zero, suc, ◌%◌, ◌≤◌, ◌≡◌, ◌∙◌, refl, ap, Bool, Bytes, [], ◌∷◌, ◌++◌, arith, length, slice,
  take, zeros, put, put_all, length-put, slice-put_apart, take-zeros, ◌-◌, if◌then◌else◌, ◌==◌,
  Bool-cases, inl, inr,
}
use jlu_drcom.Auth.Pppoe.{pppoe_login_writes, pppoe_login_crc, pppoe_login_packet}
use jlu_drcom.Config.{Config}
use jlu_drcom.Keepalive.{gen_crc}
use jlu_drcom.Packet.{Digests}
use jlu_drcom.Auth.Pppoe.Check.{
  IsCheck, check_bytes, length-gen_crc, length-check_bytes, check_bytes-IsCheck,
}

pub record IsPppoeLogin (digests : Digests) (config : Config) (counter : ℕ) (seed sip : Bytes)
    (mark encrypt_type : ℕ) (packet : Bytes) : Type 0 where
  pub size : length packet ≡ 96
  pub head : slice 0 5 packet ≡ 0x07 ∷ (counter % 0xff) ∷ 0x60 ∷ 0x00 ∷ 0x03 ∷ []
  pub address : slice 12 4 packet ≡ sip
  pub turn : slice 17 1 packet ≡ mark ∷ []
  pub flag : slice 19 1 packet ≡ config.pppoe_flag ∷ []
  pub challenge : slice 20 4 packet ≡ seed
  pub check : IsCheck digests seed encrypt_type (take 24 packet) (slice 24 8 packet)
  pub behind_head : slice 5 7 packet ≡ zeros 7
  pub behind_address : slice 16 1 packet ≡ 0 ∷ []
  pub behind_turn : slice 18 1 packet ≡ 0 ∷ []
  pub behind_check : slice 32 64 packet ≡ zeros 64

put_behind :
    (xs ys src : Bytes) → length src ≡ length ys → put (length xs) src (xs ++ ys) ≡ xs ++ src
unfolding put
put_behind [] [] [] h = refl
put_behind [] [] (s ∷ src) h = absurd (omega arith)
put_behind [] (y ∷ ys) [] h = absurd (omega arith)
put_behind [] (y ∷ ys) (s ∷ src) h = ap (◌∷◌ s) (put_behind [] ys src (omega arith))
put_behind (x ∷ xs) ys src h = ap (◌∷◌ x) (put_behind xs ys src h)

take-put-zeros :
    (k m : ℕ) (src : Bytes)
    → length src ≤ k
    → k ≤ m
    → take k (put 0 src (zeros m)) ≡ src ++ zeros (k - length src)
unfolding put
take-put-zeros zero m [] short room = refl
take-put-zeros zero m (s ∷ src) short room = absurd (omega arith)
take-put-zeros (suc k) zero src short room = absurd (omega arith)
take-put-zeros (suc k) (suc m) [] short room =
    let all : suc k - 0 ≡ suc k = omega arith in rw all (ap (◌∷◌ 0) (take-zeros k m (omega arith)))
take-put-zeros (suc k) (suc m) (s ∷ src) short room =
    let one_less : suc k - suc (length src) ≡ k - length src = omega arith in
    rw one_less (ap (◌∷◌ s) (take-put-zeros k m src (omega arith) (omega arith)))

take-put : (at n : ℕ) (src buf : Bytes) → n ≤ at → take n (put at src buf) ≡ take n buf
unfolding put
take-put at zero src buf h = refl
take-put zero (suc n) src buf h = absurd (omega arith)
take-put (suc at) (suc n) src [] h = refl
take-put (suc at) (suc n) src (x ∷ buf) h = ap (◌∷◌ x) (take-put at n src buf (omega arith))

module _ (digests : Digests) (config : Config) (counter : ℕ) (login_first : Bool)
    (s1 s2 s3 s4 i1 i2 i3 i4 : ℕ) where
  seed : Bytes
  seed = s1 ∷ s2 ∷ s3 ∷ s4 ∷ []

  sip : Bytes
  sip = i1 ∷ i2 ∷ i3 ∷ i4 ∷ []

  mark : ℕ
  mark = if login_first then 0x62 else 0x63

  -- The packet up to the check bytes.
  front : Bytes
  unfolding mark
  front =
      0x07
      ∷ (counter % 0xff)
      ∷ 0x60
      ∷ 0x00
      ∷ 0x03
      ∷ (zeros 7 ++ (i1 ∷ i2 ∷ i3 ∷ i4 ∷ 0 ∷ mark ∷ 0 ∷ config.pppoe_flag ∷ s1 ∷ s2 ∷ s3 ∷ s4 ∷ []))

  plain : Bytes
  unfolding front
  plain = front ++ zeros 72

  writes-plain : put_all (pppoe_login_writes config counter seed sip login_first) (zeros 96) ≡ plain
  unfolding plain seed sip pppoe_login_writes put_all put
  writes-plain = refl

  crc-check_bytes :
      (encrypt_type : ℕ)
      → pppoe_login_crc digests config seed plain encrypt_type
        ≡ check_bytes digests seed encrypt_type front
  unfolding pppoe_login_crc check_bytes
  crc-check_bytes encrypt_type = elim (Bool-cases (encrypt_type == 0)) [
    | inr encrypted ↦ rw (pppoe_login_crc, check_bytes, encrypted)
    | inl unencrypted ↦
        let zero_type : encrypt_type ≡ 0 = ground arith in
        let shorter : take 32 plain ≡ front ++ zeros 8 = unfold plain front in refl in
        let joined : put 24 (gen_crc digests seed 0) (front ++ zeros 8)
            ≡ front ++ gen_crc digests seed 0 =
          unfold front in
          put_behind front (zeros 8) (gen_crc digests seed 0) (length-gen_crc digests seed 0) in
        rw (pppoe_login_crc, check_bytes, zero_type, shorter, joined)
  ]

  packet : ℕ → Bytes
  packet encrypt_type = pppoe_login_packet digests config counter seed sip login_first encrypt_type

  packet-plain :
      (encrypt_type : ℕ)
      → packet encrypt_type ≡ put 24 (check_bytes digests seed encrypt_type front) plain
  unfolding packet pppoe_login_packet
  packet-plain encrypt_type = rw (writes-plain, crc-check_bytes encrypt_type)

  packet-IsPppoeLogin :
      (encrypt_type : ℕ)
      → IsPppoeLogin digests config counter seed sip mark encrypt_type (packet encrypt_type)
  unfolding seed sip
  packet-IsPppoeLogin encrypt_type =
      let c = check_bytes digests seed encrypt_type front in
      let kept : take 24 (put 24 c plain) ≡ front =
        take-put 24 24 c plain (omega arith) ∙ (unfold plain front in refl) in
      let small = length-check_bytes digests seed encrypt_type front in
      let behind : slice 24 8 (put 24 c plain) ≡ c ++ zeros (8 - length c) =
        unfold plain front put in take-put-zeros 8 72 c small (omega arith) in
      rw (packet-plain encrypt_type) (record {
        size = length-put 24 c plain ∙ (unfold plain front in refl);
        head = unfold plain front put in refl;
        address = unfold plain front put in refl;
        turn = unfold plain front put in refl;
        flag = unfold plain front put in refl;
        challenge = unfold plain front put in refl;
        check = rw kept (check_bytes-IsCheck digests seed encrypt_type front _ behind);
        behind_head = unfold plain front put in refl;
        behind_address = unfold plain front put in refl;
        behind_turn = unfold plain front put in refl;
        behind_check =
            slice-put_apart 32 64 24 c plain (inr (omega (arith, small)))
            ∙ (unfold plain front in refl);
      })

four : (s : Bytes) → length s ≡ 4 → (a b c d : ℕ) × (s ≡ a ∷ b ∷ c ∷ d ∷ [])
four (a ∷ b ∷ c ∷ d ∷ []) h = (a, b, c, d, refl)
four [] h = absurd (omega arith)
four (a ∷ []) h = absurd (omega arith)
four (a ∷ b ∷ []) h = absurd (omega arith)
four (a ∷ b ∷ c ∷ []) h = absurd (omega arith)
four (a ∷ b ∷ c ∷ d ∷ e ∷ s) h = absurd (omega arith)

-- With a seed and an address of four bytes the login packet has 96 bytes, and each of them is
-- stated: its number, the address, the mark of a first or later login, the flag, the seed, the eight
-- check bytes by a description that does not use the program's functions, and zeros elsewhere.
pub pppoe_login_packet-IsPppoeLogin :
    (digests : Digests) (config : Config) (counter : ℕ) (seed sip : Bytes) (login_first : Bool)
    (encrypt_type : ℕ)
    → length seed ≡ 4
    → length sip ≡ 4
    → IsPppoeLogin digests config counter seed sip
        (if login_first then 0x62 else 0x63)
        encrypt_type
        (pppoe_login_packet digests config counter seed sip login_first encrypt_type)
unfolding packet mark seed sip
pppoe_login_packet-IsPppoeLogin digests config counter key ip login_first encrypt_type hs hi =
    let (s1, s2, s3, s4, es) = four key hs in
    let (i1, i2, i3, i4, ei) = four ip hi in
    rw (es, ei)
      (packet-IsPppoeLogin digests config counter login_first s1 s2 s3 s4 i1 i2 i3 i4 encrypt_type)
