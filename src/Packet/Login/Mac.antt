-- ===== src/Packet/Login/Mac.antt =====
-- drcom/src/auth.c: the MAC field of the login packet, which goes through two 48-bit numbers, against
-- the exclusive or byte by byte that the logout packet computes.
use mathlib.Core.List.{append-nil}
use jlu_drcom.Base.{
  ℕ, zero, suc, ◌+◌, ◌*◌, ◌/◌, ◌%◌, ◌≤◌, ◌≡◌, ◌∙◌, Bytes, [], ◌∷◌, ◌++◌, arith, length, take,
  take_all, length-take, AllBytes, bit_xor, xor_bytes, bit_xor_bytes, bit_xor-lt_byte,
}
use jlu_drcom.Packet.Login.Parts.{unpack, pack, mac_xor_md5a}

-- The lowest bytes of the number are those of the two texts; `k` bytes of the rest follow.
pack-unpack :
    (xs ys : Bytes) (s t k m : ℕ) (packed : Bytes)
    → length xs ≡ length ys
    → AllBytes xs
    → AllBytes ys
    → m ≡ k + length xs
    → pack m (bit_xor (unpack s xs) (unpack t ys)) packed
      ≡ pack k (bit_xor s t) (xor_bytes xs ys ++ packed)
unfolding unpack xor_bytes
pack-unpack [] [] s t k m packed n hx hy e = let e' : m ≡ k = omega arith in rw e'
pack-unpack [] (y ∷ ys) s t k m packed n hx hy e = absurd (omega arith)
pack-unpack (x ∷ xs) [] s t k m packed n hx hy e = absurd (omega arith)
pack-unpack (x ∷ xs) (y ∷ ys) s t k m packed n hx hy e =
    pack-unpack xs ys (x + s * 256) (y + t * 256) (suc k) m packed (omega arith) hx.1 hy.1
      (omega arith)
    ∙ pack-suc k
  where
    joined : bit_xor (x + s * 256) (y + t * 256) ≡ bit_xor s t * 256 + bit_xor x y
    joined =
        let ex : x + s * 256 ≡ s * 256 + x = omega arith in
        let ey : y + t * 256 ≡ t * 256 + y = omega arith in
        rw (ex, ey) (bit_xor_bytes s t x y hx.0 hy.0)

    pack-suc :
        (k : ℕ)
        → pack (suc k) (bit_xor (x + s * 256) (y + t * 256)) (xor_bytes xs ys ++ packed)
          ≡ pack k (bit_xor s t) (bit_xor x y ∷ (xor_bytes xs ys ++ packed))
    pack-suc k =
        let small = bit_xor-lt_byte x y hx.0 hy.0 in
        let hi : (bit_xor s t * 256 + bit_xor x y) / 256 ≡ bit_xor s t = omega arith in
        let lo : (bit_xor s t * 256 + bit_xor x y) % 256 ≡ bit_xor x y = omega arith in
        rw (joined) (unfold pack in rw (hi, lo))

AllBytes-take : (n : ℕ) (xs : Bytes) → AllBytes xs → AllBytes (take n xs)
AllBytes-take zero xs h = tt
AllBytes-take (suc n) [] h = tt
AllBytes-take (suc n) (x ∷ xs) h = (h.0, AllBytes-take n xs h.1)

-- The six bytes that `dhcp_login` packs from two numbers are the bytewise exclusive or of the first
-- six bytes of the digest with the MAC address.
pub mac_xor_md5a-xor_bytes :
    (md5a mac : Bytes)
    → 6 ≤ length md5a
    → length mac ≡ 6
    → AllBytes md5a
    → AllBytes mac
    → mac_xor_md5a md5a mac ≡ xor_bytes (take 6 md5a) mac
unfolding mac_xor_md5a
mac_xor_md5a-xor_bytes md5a mac n size hm hc =
    let six : length (take 6 md5a) ≡ 6 = omega (arith, length-take 6 md5a) in
    rw (take_all 6 mac (omega arith)) (
      pack-unpack (take 6 md5a) mac 0 0 0 6 [] (omega arith) (AllBytes-take 6 md5a hm) hc
        (omega arith)
      ∙ unfold pack in append-nil _)
