-- ===== src/Packet/Login/Checksum.antt =====
-- drcom/src/auth.c: the array that `checksum2` is computed from, and its size.
use jlu_drcom.Base.{
  ℕ, zero, suc, ◌+◌, ◌*◌, ◌/◌, ◌%◌, ◌^◌, ◌≤◌, ◌≡◌, ◌∙◌, refl, ap, Bytes, List, [], ◌∷◌, some, arith,
  length, drop, length-drop, length-zeros, zeros, bit_xor, put_all, writes-put_all, length-put_all,
}
use jlu_drcom.Packet.Login.Parts.{read_word, xor_words, little_endian, checksum2}

read_word-total : (str : Bytes) → 4 ≤ length str → (w : ℕ) × (read_word str ≡ some w)
unfolding read_word
read_word-total [] h = absurd (omega arith)
read_word-total (a ∷ []) h = absurd (omega arith)
read_word-total (a ∷ b ∷ []) h = absurd (omega arith)
read_word-total (a ∷ b ∷ c ∷ []) h = absurd (omega arith)
read_word-total (a ∷ b ∷ c ∷ d ∷ rest) h = (((d * 256 + c) * 256 + b) * 256 + a, refl)

xor_words-total :
    (count : ℕ) (str : Bytes) (sum : ℕ)
    → 4 * count ≤ length str
    → (r : ℕ) × (xor_words count str sum ≡ some r)
unfolding xor_words
xor_words-total zero str sum h = (sum, refl)
xor_words-total (suc count) str sum h =
    let (w, e) = read_word-total str (omega arith) in
    rw e (xor_words-total count (drop 4 str) (bit_xor sum w) (omega (arith, length-drop 4 str)))

length-little_endian : (count sum : ℕ) → length (little_endian count sum) ≡ count
unfolding little_endian
length-little_endian zero sum = refl
length-little_endian (suc count) sum = ap suc (length-little_endian count (sum / 256))

pub checksum2-total :
    (counter : ℕ) (packet mac : Bytes)
    → length packet ≡ counter + 2
    → length mac ≡ 6
    → (s : Bytes) × (checksum2 counter packet mac ≡ some s) × (length s ≡ 4)
unfolding checksum2
checksum2-total counter packet mac n m =
    let size : length (zeros (counter + 18)) ≡ counter + 18 = length-zeros (counter + 18) in
    let ws : List (ℕ × Bytes) =
      (0, packet)
      ∷ (counter + 2, 0x01 ∷ 0x26 ∷ 0x07 ∷ 0x11 ∷ 0x00 ∷ 0x00 ∷ [])
      ∷ (counter + 8, mac)
      ∷ [] in
    let stored = writes-put_all ws (zeros (counter + 18)) (omega arith) in
    let whole : length (put_all ws (zeros (counter + 18))) ≡ counter + 18 =
      length-put_all ws (zeros (counter + 18)) ∙ size in
    let (r, e) =
      xor_words-total ((counter + 17) / 4) (put_all ws (zeros (counter + 18))) 1234 (omega arith) in
    rw (stored) (
      rw e
        (little_endian 4 ((1968 * r) % 2 ^ 32), refl, length-little_endian 4 ((1968 * r) % 2 ^ 32)))
