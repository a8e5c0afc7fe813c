-- ===== src/Ethernet/ByteOrder.antt =====
-- drcom/src/libs/common.c: the conversions of byte orders. What `|` joins has no bits in common, and
-- is added.
use mathlib.Core.List.{reverse-reverse}
use jlu_drcom.Base.{
  ℕ, zero, suc, ◌+◌, ◌*◌, ◌/◌, ◌%◌, ◌^◌, ◌<◌, ◌≡◌, ◌∙◌, ap, refl, Bool, true, false, if◌then◌else◌,
  Bytes, [], ◌∷◌, reverse, arith,
}

-- The bytes of a number that has `width` bytes, the lowest first.
unfoldable pub little_end_first : ℕ → ℕ → Bytes
little_end_first zero n = []
little_end_first (suc width) n = (n % 256) ∷ little_end_first width (n / 256)

-- How a host keeps a number in memory: the lowest byte first, or last.
unfoldable pub in_memory : Bool → ℕ → ℕ → Bytes
unfolding little_end_first
in_memory true width n = little_end_first width n
in_memory false width n = reverse (little_end_first width n)

-- The first byte of `a`, which is 1: whether it is 0.
unfoldable pub islsb : Bool → Bool
unfolding in_memory
islsb lowest_first = elim (in_memory lowest_first 2 0x0001) [ zero ∷ more ↦ false | _ ↦ true ]

-- `uint16`
unfoldable pub exorders : ℕ → ℕ
exorders n = n / 2 ^ 8 + n * 2 ^ 8 % 2 ^ 16

-- `uint32`
unfoldable pub exorderl : ℕ → ℕ
exorderl n =
    n / 2 ^ 24 + n / 2 ^ 16 % 2 ^ 8 * 2 ^ 8 + n / 2 ^ 8 % 2 ^ 8 * 2 ^ 16 + n * 2 ^ 24 % 2 ^ 32

-- The conversions on a host that keeps the lowest byte first, or last.
module _ (lowest_first : Bool) where
  unfoldable pub htols : ℕ → ℕ
  unfolding islsb exorders
  htols n = if islsb lowest_first then n else exorders n

  unfoldable pub htoms : ℕ → ℕ
  unfolding islsb exorders
  htoms n = if islsb lowest_first then exorders n else n

  unfoldable pub ltohs : ℕ → ℕ
  unfolding islsb exorders
  ltohs n = if islsb lowest_first then n else exorders n

  unfoldable pub mtohs : ℕ → ℕ
  unfolding islsb exorders
  mtohs n = if islsb lowest_first then exorders n else n

  unfoldable pub htoll : ℕ → ℕ
  unfolding islsb exorderl
  htoll n = if islsb lowest_first then n else exorderl n

  unfoldable pub htoml : ℕ → ℕ
  unfolding islsb exorderl
  htoml n = if islsb lowest_first then exorderl n else n

  unfoldable pub ltohl : ℕ → ℕ
  unfolding islsb exorderl
  ltohl n = if islsb lowest_first then n else exorderl n

  unfoldable pub mtohl : ℕ → ℕ
  unfolding islsb exorderl
  mtohl n = if islsb lowest_first then exorderl n else n

-- Exchanging the bytes twice changes nothing.
exorders_twice : (n : ℕ) → n < 2 ^ 16 → exorders (exorders n) ≡ n
unfolding exorders
exorders_twice n h = omega arith

exorderl_twice : (n : ℕ) → n < 2 ^ 32 → exorderl (exorderl n) ≡ n
unfolding exorderl
exorderl_twice n h = omega arith

exorders-reverse :
    (n : ℕ) → n < 2 ^ 16 → little_end_first 2 (exorders n) ≡ reverse (little_end_first 2 n)
unfolding exorders little_end_first
exorders-reverse n h = ground arith

exorderl-reverse :
    (n : ℕ) → n < 2 ^ 32 → little_end_first 4 (exorderl n) ≡ reverse (little_end_first 4 n)
unfolding exorderl little_end_first
exorderl-reverse n h = ground arith

-- Whatever the host's own order, a converted number stands in its memory in the order asked for, and is
-- converted back: numbers of two bytes.
pub short_orders :
    (lowest_first : Bool) (n : ℕ)
    → n < 2 ^ 16
    → (in_memory lowest_first 2 (htols lowest_first n) ≡ little_end_first 2 n)
      × (in_memory lowest_first 2 (htoms lowest_first n) ≡ reverse (little_end_first 2 n))
      × (ltohs lowest_first (htols lowest_first n) ≡ n)
      × (mtohs lowest_first (htoms lowest_first n) ≡ n)
unfolding htols htoms ltohs mtohs in_memory
short_orders true n h = (refl, exorders-reverse n h, refl, exorders_twice n h)
short_orders false n h =
    (ap reverse (exorders-reverse n h) ∙ reverse-reverse _, refl, exorders_twice n h, refl)

-- The same for numbers of four bytes.
pub long_orders :
    (lowest_first : Bool) (n : ℕ)
    → n < 2 ^ 32
    → (in_memory lowest_first 4 (htoll lowest_first n) ≡ little_end_first 4 n)
      × (in_memory lowest_first 4 (htoml lowest_first n) ≡ reverse (little_end_first 4 n))
      × (ltohl lowest_first (htoll lowest_first n) ≡ n)
      × (mtohl lowest_first (htoml lowest_first n) ≡ n)
unfolding htoll htoml ltohl mtohl in_memory
long_orders true n h = (refl, exorderl-reverse n h, refl, exorderl_twice n h)
long_orders false n h =
    (ap reverse (exorderl-reverse n h) ∙ reverse-reverse _, refl, exorderl_twice n h, refl)
