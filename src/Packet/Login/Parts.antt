-- ===== src/Packet/Login/Parts.antt =====
-- drcom/src/auth.c: the computed fields of the login packet.
use jlu_drcom.Base.{
  ℕ, zero, suc, ◌+◌, ◌-◌, ◌*◌, ◌/◌, ◌%◌, ◌^◌, Bytes, [], ◌∷◌, ◌++◌, Option, none, some, take, drop,
  zeros, bit_xor, codes, ltb, if◌then◌else◌, writes, ◌>>=◌,
}
use jlu_drcom.Config.{Config}
use jlu_drcom.Packet.{Digests}

-- `MD5A` and `MD5B`.
unfoldable pub md5a_of : Digests → Config → Bytes → Bytes
md5a_of digests config seed = digests.md5 (0x03 ∷ 0x01 ∷ (seed ++ config.password))

unfoldable pub md5b_of : Digests → Config → Bytes → Bytes
md5b_of digests config seed = digests.md5 (0x01 ∷ (config.password ++ (seed ++ zeros 4)))

-- `unpack`: the number that bytes stand for, the highest first, on top of `sum`. Six bytes stay
-- far below 2 ^ 64.
unfoldable pub unpack : ℕ → Bytes → ℕ
unpack sum [] = sum
unpack sum (b ∷ bs) = unpack (b + sum * 256) bs

-- `pack`: the `count` lowest bytes of `sum`, the highest first, in front of `packed`.
unfoldable pub pack : ℕ → ℕ → Bytes → Bytes
pack zero sum packed = packed
pack (suc count) sum packed = pack count (sum / 256) ((sum % 256) ∷ packed)

-- `MACxorMD5A`
unfoldable pub mac_xor_md5a : Bytes → Bytes → Bytes
unfolding unpack pack
mac_xor_md5a md5a mac = pack 6 (bit_xor (unpack 0 (take 6 md5a)) (unpack 0 (take 6 mac))) []

-- `((x << 3) & 0xff) + (x >> 5)`
unfoldable pub rotate_byte : ℕ → ℕ
rotate_byte x = (x * 8) % 256 + x / 32

-- A byte of the packet. `char` is signed, as on x86 and MIPS: from 128 on `(int)password[i]` is 256
-- less than the byte, the exclusive or is negative, and `x >> 5`, which keeps the sign, is 8 less.
unfoldable pub scrambled_byte : ℕ → ℕ → ℕ
unfolding rotate_byte
scrambled_byte m c =
    if ltb c 128
    then rotate_byte (bit_xor m c) % 256
    else (rotate_byte (bit_xor m c) + 256 - 8) % 256

-- The loop over the password. Its index runs through `MD5A` as well: `none` is a read past the end
-- of the digest.
unfoldable pub scrambled_password : Bytes → Bytes → Option Bytes
unfolding scrambled_byte
scrambled_password md5a [] = some []
scrambled_password [] (c ∷ password) = none
scrambled_password (m ∷ md5a) (c ∷ password) = do
  rest ← scrambled_password md5a password
  some (scrambled_byte m c ∷ rest)

-- Four bytes as a number, the lowest first; `none` is a read past the end.
unfoldable pub read_word : Bytes → Option ℕ
read_word (a ∷ b ∷ c ∷ d ∷ rest) = some (((d * 256 + c) * 256 + b) * 256 + a)
read_word _ = none

-- `count` rounds of `sum ^= ret`, one for each word.
unfoldable pub xor_words : ℕ → Bytes → ℕ → Option ℕ
unfolding read_word
xor_words zero str sum = some sum
xor_words (suc count) str sum = do
  ret ← read_word str
  xor_words count (drop 4 str) (bit_xor sum ret)

-- The bytes of a number, the lowest first.
unfoldable pub little_endian : ℕ → ℕ → Bytes
little_endian zero sum = []
little_endian (suc count) sum = (sum % 256) ∷ little_endian count (sum / 256)

-- `checksum2`, of the packet up to `counter + 2` and the MAC address. The loop runs while
-- `i < counter + 14` in steps of four.
unfoldable pub checksum2 : ℕ → Bytes → Bytes → Option Bytes
unfolding xor_words little_endian
checksum2 counter packet mac = do
  str ←
      writes
        ((0, packet)
          ∷ (counter + 2, 0x01 ∷ 0x26 ∷ 0x07 ∷ 0x11 ∷ 0x00 ∷ 0x00 ∷ [])
          ∷ (counter + 8, mac)
          ∷ [])
        (zeros (counter + 18))
  sum ← xor_words ((counter + 17) / 4) str 1234
  some (little_endian 4 ((1968 * sum) % 2 ^ 32))

-- `ServicePack` and `hostname` of the JLU template.
abbrev pub service_pack : Bytes
service_pack = codes "3dc79f5212e8170acfa9ec95f1d74916542be7b1"

abbrev pub jlu_hostname : Bytes
jlu_hostname = 0x44 ∷ 0x72 ∷ 0x43 ∷ 0x4f ∷ 0x4d ∷ 0x00 ∷ 0xcf ∷ 0x07 ∷ 0x68 ∷ []
