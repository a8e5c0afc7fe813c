-- ===== src/Packet/Login/Scramble.antt =====
-- drcom/src/auth.c: the scrambled password of the login packet, and how a server reads it.
use jlu_drcom.Base.{
  ℕ, ◌+◌, ◌*◌, ◌/◌, ◌%◌, ◌≤◌, ◌<◌, ◌≡◌, refl, ap₂, Bytes, [], ◌∷◌, none, some, arith, length, ltb,
  true, AllBytes, bit_xor, bit_xor_cancel, bit_xor-lt_byte, >>=-eq-some,
}
use jlu_drcom.Packet.Login.Parts.{rotate_byte, scrambled_byte, scrambled_password}

-- The rotation back.
pub rotate_back : ℕ → ℕ
rotate_back y = y / 8 + (y % 8) * 32

rotate_back-rotate_byte : (x : ℕ) → x < 256 → rotate_back (rotate_byte x % 256) ≡ x
unfolding rotate_back rotate_byte
rotate_back-rotate_byte x h = omega arith

abbrev pub IsAscii : Bytes → Type 0
IsAscii [] = Unit
IsAscii (c ∷ cs) = (c < 128) × IsAscii cs

-- What a server with the same digest does.
pub unscramble : Bytes → Bytes → Bytes
unscramble (m ∷ md5a) (s ∷ scrambled) = bit_xor m (rotate_back s) ∷ unscramble md5a scrambled
unscramble _ _ = []

unscramble_byte : (m c : ℕ) → m < 256 → c < 128 → bit_xor m (rotate_back (scrambled_byte m c)) ≡ c
unfolding scrambled_byte
unscramble_byte m c hm hc =
    let ascii : ltb c 128 ≡ true = ground arith in
    rw (ascii, rotate_back-rotate_byte (bit_xor m c) (bit_xor-lt_byte m c hm (omega arith)))
      (bit_xor_cancel m c)

-- The loop stays inside the digest exactly when the password is not longer than it.
pub scrambled_password-total :
    (md5a password : Bytes)
    → length password ≤ length md5a
    → (s : Bytes) × (scrambled_password md5a password ≡ some s) × (length s ≡ length password)
unfolding scrambled_password
scrambled_password-total md5a [] h = ([], refl, refl)
scrambled_password-total [] (c ∷ password) h = absurd (omega arith)
scrambled_password-total (m ∷ md5a) (c ∷ password) h =
    let (rest, e, n) = scrambled_password-total md5a password (omega arith) in
    (scrambled_byte m c ∷ rest, rw e, omega arith)

pub scrambled_password-fault :
    (md5a password : Bytes)
    → length md5a < length password
    → scrambled_password md5a password ≡ none
unfolding scrambled_password
scrambled_password-fault md5a [] h = absurd (omega arith)
scrambled_password-fault [] (c ∷ password) h = refl
scrambled_password-fault (m ∷ md5a) (c ∷ password) h =
    rw (scrambled_password-fault md5a password (omega arith))

unscramble-scrambled_password :
    (md5a password : Bytes) {s : Bytes}
    → AllBytes md5a
    → IsAscii password
    → scrambled_password md5a password ≡ some s
    → unscramble md5a s ≡ password
unfolding scrambled_password unscramble
unscramble-scrambled_password [] [] hm hp e = refl
unscramble-scrambled_password (m ∷ md5a) [] {s} hm hp e = let same : [] ≡ s = cc e in rw (← same)
unscramble-scrambled_password [] (c ∷ password) hm hp e = cc
unscramble-scrambled_password (m ∷ md5a) (c ∷ password) {s} hm hp e =
    let (rest, read, whole) = >>=-eq-some (scrambled_password md5a password) _ e in
    let same : scrambled_byte m c ∷ rest ≡ s = cc whole in
    rw (← same) (
      ap₂ ◌∷◌ (unscramble_byte m c hm.0 hp.0)
        (unscramble-scrambled_password md5a password hm.1 hp.1 read))

-- A password of ASCII characters that is not longer than the digest is scrambled to as many bytes,
-- from which a server that has the same digest gets the password back.
pub scrambled_password-unscramble :
    (md5a password : Bytes)
    → AllBytes md5a
    → IsAscii password
    → length password ≤ length md5a
    → (s : Bytes) × (scrambled_password md5a password ≡ some s)
      × (length s ≡ length password)
      × (unscramble md5a s ≡ password)
scrambled_password-unscramble md5a password hm hp h =
    let (s, e, n) = scrambled_password-total md5a password h in
    (s, e, n, unscramble-scrambled_password md5a password hm hp e)
