-- ===== src/Base/Xor.antt =====
-- `^` byte by byte, and `^` of numbers that are made of bytes.
use Prim.Native.Nat.{
  ℕ, zero, suc, ◌+◌, ◌*◌, ◌/◌, ◌%◌, ◌^◌, ◌≤◌, ◌<◌, bit_xor, differ, digits, bit_xor-bitwise,
}
use mathlib.Core.Path.{◌≡◌, refl, ap, ◌∙◌}
use mathlib.Core.List.{[], ◌∷◌}
use native.Mathlib.Nat.{pow-suc}
use native.Mathlib.Omega.{arith}
use jlu_drcom.Base.Lists.{Bytes, length}
pub use Prim.Native.Nat.{bit_xor}

-- The digits to go may be any number that is large enough.
xor_digits_fuel :
    (n m a b : ℕ) → a ≤ n → a ≤ m → digits (λ d. d) differ n a b ≡ digits (λ d. d) differ m a b
xor_digits_fuel zero zero a b p q = refl
xor_digits_fuel zero (suc m) zero b p q = refl
xor_digits_fuel zero (suc m) (suc a) b p q = absurd (omega arith)
xor_digits_fuel (suc n) zero zero b p q = refl
xor_digits_fuel (suc n) zero (suc a) b p q = absurd (omega arith)
xor_digits_fuel (suc n) (suc m) zero b p q = refl
xor_digits_fuel (suc n) (suc m) (suc a) b p q =
    rw (xor_digits_fuel n m (suc a / 2) (b / 2) (omega arith) (omega arith))

zero-bit_xor : (b : ℕ) → bit_xor 0 b ≡ b
zero-bit_xor b = bit_xor-bitwise 0 b

-- Two binary digits.
differ_bits : (a b : ℕ) → a < 2 → b < 2 → (differ a b ≡ (a + b) % 2)
differ_bits zero b p q = omega arith
differ_bits (suc zero) zero p q = refl
differ_bits (suc zero) (suc zero) p q = refl
differ_bits (suc zero) (suc (suc b)) p q = absurd (omega arith)
differ_bits (suc (suc a)) b p q = absurd (omega arith)

-- The lowest digit, and the others.
bit_xor_step : (a b : ℕ) → bit_xor a b ≡ bit_xor (a / 2) (b / 2) * 2 + (a % 2 + b % 2) % 2
bit_xor_step zero b = omega (arith, zero-bit_xor b, zero-bit_xor (b / 2))
bit_xor_step (suc a) b = omega (
  arith,
  bit_xor-bitwise (suc a) b,
  bit_xor-bitwise (suc a / 2) (b / 2),
  xor_digits_fuel a (suc a / 2) (suc a / 2) (b / 2) (omega arith) (omega arith),
  differ_bits (suc a % 2) (b % 2) (omega arith) (omega arith),
)

-- Numbers of at most `k` binary digits have an exclusive or of at most `k`.
bit_xor-lt_pow : (k a b : ℕ) → a < 2 ^ k → b < 2 ^ k → bit_xor a b < 2 ^ k
bit_xor-lt_pow zero a b p q = let ea : a ≡ 0 = omega arith in rw (ea, zero-bit_xor b) q
bit_xor-lt_pow (suc k) a b p q = omega (
  arith,
  bit_xor_step a b,
  pow-suc 2 k,
  bit_xor-lt_pow k (a / 2) (b / 2) (omega (arith, pow-suc 2 k)) (omega (arith, pow-suc 2 k)),
)

-- One binary digit more.
shift_suc : (k high : ℕ) → 2 * (high * 2 ^ k) ≡ high * 2 ^ suc k
shift_suc k high =
    let wider : high * 2 ^ suc k ≡ high * (2 ^ k * 2) = ap (◌*◌ high) (pow-suc 2 k ∙ omega arith) in
    omega (arith, wider)

-- The exclusive or of two numbers is that of their high and that of their low parts.
bit_xor_fields :
    (k a b x y : ℕ)
    → x < 2 ^ k
    → y < 2 ^ k
    → bit_xor (a * 2 ^ k + x) (b * 2 ^ k + y) ≡ bit_xor a b * 2 ^ k + bit_xor x y
bit_xor_fields zero a b x y p q =
    let ex : x ≡ 0 = omega arith in
    let ey : y ≡ 0 = omega arith in
    let ea : a * 2 ^ 0 + 0 ≡ a = omega arith in
    let eb : b * 2 ^ 0 + 0 ≡ b = omega arith in rw (ex, ey, ea, eb) (omega (arith, zero-bit_xor 0))
bit_xor_fields (suc k) a b x y p q =
    let ha : (a * 2 ^ suc k + x) / 2 ≡ a * 2 ^ k + x / 2 = omega (arith, shift_suc k a) in
    let hb : (b * 2 ^ suc k + y) / 2 ≡ b * 2 ^ k + y / 2 = omega (arith, shift_suc k b) in
    let la : (a * 2 ^ suc k + x) % 2 ≡ x % 2 = omega (arith, shift_suc k a) in
    let lb : (b * 2 ^ suc k + y) % 2 ≡ y % 2 = omega (arith, shift_suc k b) in
    let rest =
      bit_xor_fields k a b (x / 2) (y / 2) (omega (arith, pow-suc 2 k))
        (omega (arith, pow-suc 2 k)) in
    bit_xor_step (a * 2 ^ suc k + x) (b * 2 ^ suc k + y)
    ∙ rw (ha, hb, la, lb, rest) (omega (arith, bit_xor_step x y, shift_suc k (bit_xor a b)))

pub bit_xor-lt_byte : (a b : ℕ) → a < 256 → b < 256 → bit_xor a b < 256
bit_xor-lt_byte a b p q = bit_xor-lt_pow 8 a b p q

pub bit_xor_bytes :
    (a b x y : ℕ)
    → x < 256
    → y < 256
    → bit_xor (a * 256 + x) (b * 256 + y) ≡ bit_xor a b * 256 + bit_xor x y
bit_xor_bytes a b x y p q = bit_xor_fields 8 a b x y p q

-- The exclusive or of two byte strings, as far as both go.
unfoldable pub xor_bytes : Bytes → Bytes → Bytes
xor_bytes (x ∷ xs) (y ∷ ys) = bit_xor x y ∷ xor_bytes xs ys
xor_bytes _ _ = []

pub length-xor_bytes :
    (xs ys : Bytes) → length xs ≡ length ys → length (xor_bytes xs ys) ≡ length xs
unfolding xor_bytes
length-xor_bytes (x ∷ xs) (y ∷ ys) h = ap suc (length-xor_bytes xs ys (omega arith))
length-xor_bytes [] _ h = refl
length-xor_bytes (x ∷ xs) [] h = absurd (omega arith)

bit_xor_cancel_fuel : (n a b : ℕ) → a ≤ n → bit_xor a (bit_xor a b) ≡ b
bit_xor_cancel_fuel n zero b h = zero-bit_xor (bit_xor 0 b) ∙ zero-bit_xor b
bit_xor_cancel_fuel zero (suc a) b h = absurd (omega arith)
bit_xor_cancel_fuel (suc n) (suc a) b h =
    let half : bit_xor (suc a) b / 2 ≡ bit_xor (suc a / 2) (b / 2) =
      omega (arith, bit_xor_step (suc a) b) in
    let low : bit_xor (suc a) b % 2 ≡ (suc a % 2 + b % 2) % 2 =
      omega (arith, bit_xor_step (suc a) b) in
    bit_xor_step (suc a) (bit_xor (suc a) b)
    ∙ rw (half, low, bit_xor_cancel_fuel n (suc a / 2) (b / 2) (omega arith)) (omega arith)

-- What is added by `^` is taken away by it.
pub bit_xor_cancel : (a b : ℕ) → bit_xor a (bit_xor a b) ≡ b
bit_xor_cancel a b = bit_xor_cancel_fuel a a b (omega arith)

pub zero-bit_xor-zero : bit_xor 0 0 ≡ 0
zero-bit_xor-zero = refl
