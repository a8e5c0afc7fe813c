-- ===== src/Auth/Pppoe/Check.antt =====
-- drcom/src/auth.c: the check bytes of the packet of `pppoe_login`, and how a server computes them.
use mathlib.Core.Path.{subst}
use jlu_drcom.Base.{
  ℕ, zero, suc, ◌+◌, ◌*◌, ◌^◌, ◌%◌, ◌/◌, ◌≤◌, ◌≡◌, ◌∙◌, refl, ap, Bytes, [], ◌∷◌, ◌++◌, arith,
  length, take, zeros, drop, bit_xor, AllBytes, List, get_or, ◌-◌, if◌then◌else◌, ◌==◌, false,
}
use jlu_drcom.Auth.Pppoe.{pppoe_checksum, word, xor_masked}
use jlu_drcom.Keepalive.{gen_crc}
use jlu_drcom.Packet.{Digests}
use jlu_drcom.Packet.Login.Parts.{little_endian}

-- The bytes at these places.
abbrev pub chosen : Bytes → List ℕ → Bytes
chosen bytes [] = []
chosen bytes (i ∷ is) = get_or bytes i 0 ∷ chosen bytes is

-- The number that bytes stand for, the lowest first.
pub number : Bytes → ℕ
number [] = 0
number (b ∷ bs) = b + number bs * 256

-- The exclusive or of `count` words of four bytes, on top of `sum`, in 32 bits.
pub xor_of_words : ℕ → Bytes → ℕ → ℕ
unfolding number
xor_of_words zero bytes sum = sum
xor_of_words (suc count) bytes sum =
    xor_of_words count (drop 4 bytes) (bit_xor sum (number (take 4 bytes)) % 4294967296)

-- The eight bytes that belong behind the first 24 bytes of a login packet. Without encryption the
-- first four stand for 19680126 times the exclusive or of eight words, of these bytes and of eight
-- fixed ones, in 32 bits, and four zeros follow; with encryption they are bytes of a digest of the seed.
pub IsCheck : Digests → Bytes → ℕ → Bytes → Bytes → Type 0
unfolding number xor_of_words
IsCheck digests seed zero front check =
    AllBytes check
    × (number (take 4 check)
        ≡ (xor_of_words 8 (front ++ (0xc7 ∷ 0x2f ∷ 0x31 ∷ 0x01 ∷ 0x7e ∷ 0x00 ∷ 0x00 ∷ 0x00 ∷ [])) 0
            * 19680126)
          % 4294967296)
    × (drop 4 check ≡ 0 ∷ 0 ∷ 0 ∷ 0 ∷ [])
IsCheck digests seed (suc zero) front check =
    let hash = digests.md5 seed in check ≡ chosen hash (2 ∷ 3 ∷ 8 ∷ 9 ∷ 5 ∷ 6 ∷ 13 ∷ 14 ∷ [])
IsCheck digests seed (suc (suc zero)) front check =
    let hash = digests.md4 seed in check ≡ chosen hash (1 ∷ 2 ∷ 8 ∷ 9 ∷ 4 ∷ 5 ∷ 11 ∷ 12 ∷ [])
IsCheck digests seed (suc (suc (suc zero))) front check =
    let hash = digests.sha1 seed in check ≡ chosen hash (2 ∷ 3 ∷ 9 ∷ 10 ∷ 5 ∷ 6 ∷ 15 ∷ 16 ∷ [])
IsCheck digests seed (suc (suc (suc (suc n)))) front check = check ≡ zeros 8

-- The check bytes by the functions of the program.
unfoldable pub check_bytes : Digests → Bytes → ℕ → Bytes → Bytes
check_bytes digests seed encrypt_type front =
    if encrypt_type == 0
    then pppoe_checksum (front ++ gen_crc digests seed 0)
    else gen_crc digests seed encrypt_type

word-number : (bytes : Bytes) → word bytes ≡ number (take 4 bytes)
unfolding word number
word-number [] = refl
word-number (a ∷ []) = omega arith
word-number (a ∷ b ∷ []) = omega arith
word-number (a ∷ b ∷ c ∷ []) = omega arith
word-number (a ∷ b ∷ c ∷ d ∷ bytes) = omega arith

xor_masked-xor_of_words :
    (count : ℕ) (bytes : Bytes) (sum : ℕ)
    → xor_masked count bytes sum ≡ xor_of_words count bytes sum
unfolding xor_masked xor_of_words
xor_masked-xor_of_words zero bytes sum = refl
xor_masked-xor_of_words (suc count) bytes sum =
    rw (word-number bytes) (xor_masked-xor_of_words count (drop 4 bytes) _)

number_of : (n : ℕ) → number (take 4 (little_endian 4 n ++ zeros 4)) ≡ n % 4294967296
unfolding little_endian number
number_of n = omega arith

-- Four bytes of a number, with zeros behind.
padded_number :
    (n : ℕ) (check : Bytes)
    → check ≡ little_endian 4 n ++ zeros 4
    → AllBytes check
      × (number (take 4 check) ≡ n % 4294967296)
      × (drop 4 check ≡ 0 ∷ 0 ∷ 0 ∷ 0 ∷ [])
padded_number n check e =
    rw e (unfold little_endian in (omega arith), number_of n, unfold little_endian in refl)

pub length-gen_crc :
    (digests : Digests) (seed : Bytes) (type : ℕ) → length (gen_crc digests seed type) ≡ 8
unfolding gen_crc
length-gen_crc digests seed type = ground arith

length-little_endian : (count sum : ℕ) → length (little_endian count sum) ≡ count
unfolding little_endian
length-little_endian zero sum = refl
length-little_endian (suc count) sum = ap suc (length-little_endian count (sum / 256))

length-pppoe_checksum : (crc_tmp : Bytes) → length (pppoe_checksum crc_tmp) ≡ 4
unfolding pppoe_checksum
length-pppoe_checksum crc_tmp =
    length-little_endian 4 ((xor_masked 8 crc_tmp 0 * 19680126) % 2 ^ 32)

pub length-check_bytes :
    (digests : Digests) (seed : Bytes) (type : ℕ) (front : Bytes)
    → length (check_bytes digests seed type front) ≤ 8
unfolding check_bytes
length-check_bytes digests seed type front = ground (
  arith,
  length-gen_crc digests seed type,
  length-pppoe_checksum (front ++ gen_crc digests seed 0),
)

mod_mod : (x : ℕ) → (x % 4294967296) % 4294967296 ≡ x % 4294967296
mod_mod x = omega arith

check_bytes-other :
    (digests : Digests) (seed : Bytes) (n : ℕ) (front : Bytes)
    → check_bytes digests seed (suc (suc (suc (suc n)))) front ≡ zeros 8
unfolding check_bytes gen_crc
check_bytes-other digests seed n front =
    let no0 : (suc (suc (suc (suc n))) == 0) ≡ false = ground arith in
    let no1 : (suc (suc (suc (suc n))) == 1) ≡ false = ground arith in
    let no2 : (suc (suc (suc (suc n))) == 2) ≡ false = ground arith in
    let no3 : (suc (suc (suc (suc n))) == 3) ≡ false = ground arith in
    rw (check_bytes, gen_crc, no0, no1, no2, no3) refl

-- The check bytes of the program are those that belong.
pub check_bytes-IsCheck :
    (digests : Digests) (seed : Bytes) (type : ℕ) (front check : Bytes)
    → check
      ≡ check_bytes digests seed type front
        ++ zeros (8 - length (check_bytes digests seed type front))
    → IsCheck digests seed type front check
unfolding check_bytes IsCheck gen_crc
check_bytes-IsCheck digests seed zero front check e =
    let bytes = front ++ (0xc7 ∷ 0x2f ∷ 0x31 ∷ 0x01 ∷ 0x7e ∷ 0x00 ∷ 0x00 ∷ 0x00 ∷ []) in
    let (small, value, padding) =
      padded_number ((xor_masked 8 bytes 0 * 19680126) % 4294967296) check
        (unfold pppoe_checksum little_endian in e) in
    (
      small,
      value
          ∙ mod_mod (xor_masked 8 bytes 0 * 19680126)
          ∙ ap (λ x. (x * 19680126) % 4294967296) (xor_masked-xor_of_words 8 bytes 0),
      padding,
    )
check_bytes-IsCheck digests seed (suc zero) front check e = e
check_bytes-IsCheck digests seed (suc (suc zero)) front check e = e
check_bytes-IsCheck digests seed (suc (suc (suc zero))) front check e = e
check_bytes-IsCheck digests seed (suc (suc (suc (suc n)))) front check e =
    subst (λ c. check ≡ c ++ zeros (8 - length c)) (check_bytes-other digests seed n front) e
