-- ===== src/Packet.antt =====
-- The packets of drcom/src/protocol.c and auth.c: what their builders share.
pub mod Size
pub mod Logout
pub mod Login
use jlu_drcom.Base.{◌≡◌, Bytes, Option, none, some, length, AllBytes}

-- The digests of drcom/src/libs/md5.c, md4.c and sha1.c, which are copies of other projects' code:
-- functions on byte strings, with the length and the range of what they write.
pub record Digests : Type 0 where
  pub md5 : Bytes → Bytes
  pub md4 : Bytes → Bytes
  pub sha1 : Bytes → Bytes
  pub md5_length : (s : Bytes) → length (md5 s) ≡ 16
  pub md4_length : (s : Bytes) → length (md4 s) ≡ 16
  pub sha1_length : (s : Bytes) → length (sha1 s) ≡ 20
  pub md5_bytes : (s : Bytes) → AllBytes (md5 s)

-- How a builder ends: with its value, with its own error return, or with an access past the end of
-- one of its arrays, which C leaves undefined.
pub data Build {ℓ} (A : Type ℓ) : Type ℓ where
  built : A → Build A
  rejected fault : Build A

infixl 5 ◌>>=◌
abbrev pub ◌>>=◌ {ℓ κ} : {A : Type ℓ} {B : Type κ} → Build A → (A → Build B) → Build B
built a >>= f = f a
rejected >>= f = rejected
fault >>= f = fault

-- A checked access.
abbrev pub checked {ℓ} : {A : Type ℓ} → Option A → Build A
checked none = fault
checked (some a) = built a

-- A call of `drcom_parse_ipv4_address` with its error return.
abbrev pub required {ℓ} : {A : Type ℓ} → Option A → Build A
required none = rejected
required (some a) = built a
