-- ===== src/Auth/Pppoe.antt =====
-- drcom/src/auth.c: `pppoe_challenge` and `pppoe_login`. Both read the array `recv_packet` at fixed
-- places, whatever the length of the reply is, and never clear it: the parameter `stack` is what
-- the array holds before `recvfrom` fills its front, which C does not say.
pub mod Check
pub mod Layout
pub mod Replies
pub mod Loop
pub mod Protocol
use jlu_drcom.Base.{
  ℕ, zero, suc, ◌+◌, ◌*◌, ◌/◌, ◌%◌, ◌^◌, ◌==◌, not, Bool, true, false, if◌then◌else◌, Bytes, List,
  [], ◌∷◌, ◌++◌, Option, none, some, get_or, slice, take, drop, zeros, put, put_all, bit_xor,
  Status, success, failure,
}
use jlu_drcom.Config.{Config}
use jlu_drcom.Keepalive.{gen_crc}
use jlu_drcom.Packet.{Digests}
use jlu_drcom.Packet.Login.Parts.{little_endian}
use jlu_drcom.Udp.{World, send, recv_any}

-- `challenge_packet`
unfoldable pub pppoe_challenge_packet : ℕ → Bytes
pppoe_challenge_packet pppoe_counter = 0x07 ∷ (pppoe_counter % 0xff) ∷ 0x08 ∷ 0x00 ∷ 0x01 ∷ zeros 3

-- What a challenge gives: `seed`, `sip`, `*encrypt_mode`, and the new `KEEP_ALIVE_VERSION`.
pub record Challenge : Type 0 where
  pub seed : Bytes
  pub sip : Bytes
  pub encrypt_mode : Bool
  pub keep_alive_version : Bytes

-- From the test of the first byte on; `none` is the return value 1.
unfoldable pub challenge_of : Bytes → Option Challenge
challenge_of recv_packet =
    if get_or recv_packet 0 0 == 0x07
    then some (record {
      seed = slice 8 4 recv_packet;
      sip = slice 12 4 recv_packet;
      encrypt_mode = not (get_or recv_packet 5 0 == 0x00);
      keep_alive_version = slice 28 2 recv_packet;
    })
    else none

-- `recv_packet` behind `recvfrom`.
unfoldable pub filled : Bytes → Bytes → Bytes
filled stack bytes = put 0 bytes stack

-- The challenge, `*pppoe_counter` and the world.
unfoldable pub pppoe_challenge : (World → Bytes) → ℕ → World → Option Challenge × ℕ × World
unfolding challenge_of filled
pppoe_challenge stack pppoe_counter w =
    let (delivered, w1) = send (pppoe_challenge_packet pppoe_counter) w in
    let (reply, w2) = recv_any w1 in
    elim reply [
      | none ↦ (none, pppoe_counter + 1, w2)
      | some bytes ↦ (challenge_of (filled (stack w1) bytes), pppoe_counter + 1, w2)
    ]

-- The stores in front of the checksum.
unfoldable pub pppoe_login_writes : Config → ℕ → Bytes → Bytes → Bool → List (ℕ × Bytes)
pppoe_login_writes config pppoe_counter seed sip login_first =
    (0, 0x07 ∷ 0x00 ∷ 0x60 ∷ 0x00 ∷ 0x03 ∷ [])
    ∷ (1, (pppoe_counter % 0xff) ∷ [])
    ∷ (12, sip)
    ∷ (17, (if login_first then 0x62 else 0x63) ∷ [])
    ∷ (19, config.pppoe_flag ∷ [])
    ∷ (20, seed)
    ∷ []

-- `*encrypt_type`
unfoldable pub login_encrypt_type : Bytes → Bool → ℕ
login_encrypt_type seed encrypt_mode = if encrypt_mode then get_or seed 0 0 % 4 else 0

-- Four bytes as a number, the lowest first.
unfoldable pub word : Bytes → ℕ
word str = ((get_or str 3 0 * 256 + get_or str 2 0) * 256 + get_or str 1 0) * 256 + get_or str 0 0

-- `count` rounds of `sum ^= ret; sum &= 0xffffffff`.
unfoldable pub xor_masked : ℕ → Bytes → ℕ → ℕ
unfolding word
xor_masked zero str sum = sum
xor_masked (suc count) str sum = xor_masked count (drop 4 str) (bit_xor sum (word str) % 2 ^ 32)

-- `crc2`, of `crc_tmp`.
unfoldable pub pppoe_checksum : Bytes → Bytes
pppoe_checksum crc_tmp = little_endian 4 ((xor_masked 8 crc_tmp 0 * 19680126) % 2 ^ 32)

module _ (digests : Digests) (config : Config) where
  -- The bytes from `login_packet[24]` on.
  unfoldable pub pppoe_login_crc : Bytes → Bytes → ℕ → Bytes
  pppoe_login_crc seed login_packet encrypt_type =
      let crc = gen_crc digests seed encrypt_type in
      if encrypt_type == 0 then pppoe_checksum (put 24 crc (take 32 login_packet)) else crc

  unfoldable pub pppoe_login_packet : ℕ → Bytes → Bytes → Bool → ℕ → Bytes
  pppoe_login_packet pppoe_counter seed sip login_first encrypt_type =
      let login_packet =
        put_all (pppoe_login_writes config pppoe_counter seed sip login_first) (zeros 96) in
      put 24 (pppoe_login_crc seed login_packet encrypt_type) login_packet

  -- The result, `*encrypt_type`, `*pppoe_counter` and the world.
  unfoldable pub pppoe_login :
      (World → Bytes) → ℕ → Bytes → Bytes → Bool → Bool → World → Status × ℕ × ℕ × World
  unfolding login_encrypt_type filled
  pppoe_login stack pppoe_counter seed sip login_first encrypt_mode w =
      let encrypt_type = login_encrypt_type seed encrypt_mode in
      let (delivered, w1) =
        send (pppoe_login_packet pppoe_counter seed sip login_first encrypt_type) w in
      let (reply, w2) = recv_any w1 in
      elim reply [
        | none ↦ (failure, encrypt_type, pppoe_counter + 1, w2)
        | some bytes ↦
            if get_or (filled (stack w1) bytes) 0 0 == 0x07
            then (success, encrypt_type, pppoe_counter + 1, (recv_any w2).1)
            else (failure, encrypt_type, pppoe_counter + 1, w2)
      ]
