-- ===== src/Ctype/Decimal.antt =====
-- Decimal notation: a printer for `read_decimal`.
use jlu_drcom.Base.{
  ℕ, zero, suc, ◌+◌, ◌-◌, ◌*◌, ◌/◌, ◌%◌, ◌<◌, ◌≤◌, length, ◌≡◌, ◌≢◌, refl, ap, ◌∙◌, true, false, [],
  ◌∷◌, Bytes, arith, ltb, if◌then◌else◌, Bool-cases, inl, inr,
}
use jlu_drcom.Ctype.{is_digit, read_decimal}

-- The first byte, if there is one, is no digit.
abbrev pub StopsDigits : Bytes → Type 0
StopsDigits [] = Unit
StopsDigits (c ∷ cs) = is_digit c ≡ false

show_fuel : ℕ → ℕ → Bytes → Bytes
show_fuel zero n rest = rest
show_fuel (suc f) n rest =
    let more = show_fuel f (n / 10) ((b'0' + n % 10) ∷ rest) in
    if ltb n 10 then (b'0' + n) ∷ rest else more

-- The decimal digits of `n`, in front of `rest`. Each round divides by ten, so `n + 1` rounds
-- are enough.
unfoldable pub show_decimal : ℕ → Bytes → Bytes
unfolding show_fuel
show_decimal n rest = show_fuel (suc n) n rest

read_decimal-stop :
    (acc : ℕ) (rest : Bytes) → StopsDigits rest → read_decimal acc rest ≡ (acc, rest)
unfolding read_decimal
read_decimal-stop acc [] h = refl
read_decimal-stop acc (c ∷ cs) h = rw h

is_digit-digit : (d : ℕ) → d < 10 → is_digit (b'0' + d) ≡ true
unfolding is_digit
is_digit-digit d h = ground arith

read_decimal-digit :
    (acc d : ℕ) (rest : Bytes)
    → d < 10
    → read_decimal acc ((b'0' + d) ∷ rest) ≡ read_decimal (acc * 10 + d) rest
unfolding read_decimal
read_decimal-digit acc d rest h =
    let e : b'0' + d - b'0' ≡ d = omega arith in rw (is_digit-digit d h) (rw e)

read_decimal-show_fuel :
    (f n : ℕ) (rest : Bytes) → n < f → read_decimal 0 (show_fuel f n rest) ≡ read_decimal n rest
unfolding show_fuel
read_decimal-show_fuel zero n rest h = absurd (omega arith)
read_decimal-show_fuel (suc f) n rest h = elim (Bool-cases (ltb n 10)) [
  | inl small ↦ rw small (
      read_decimal-digit 0 n rest (ground arith)
      ∙ ap (λ (x : ℕ). read_decimal x rest) (omega arith))
  | inr large ↦ rw large (
      read_decimal-show_fuel f (n / 10) ((b'0' + n % 10) ∷ rest) (ground arith)
      ∙ read_decimal-digit (n / 10) (n % 10) rest (omega arith)
      ∙ ap (λ (x : ℕ). read_decimal x rest) (omega arith))
]

-- A printed number is read back, up to the first byte that is no digit.
pub read_decimal-show_decimal :
    (n : ℕ) (rest : Bytes) → StopsDigits rest → read_decimal 0 (show_decimal n rest) ≡ (n, rest)
unfolding show_decimal
read_decimal-show_decimal n rest h =
    read_decimal-show_fuel (suc n) n rest (omega arith) ∙ read_decimal-stop n rest h

show_fuel-cons :
    (f n : ℕ) (rest : Bytes)
    → n < f
    → (c : ℕ) × (cs : Bytes) × (show_fuel f n rest ≡ c ∷ cs) × (is_digit c ≡ true)
unfolding show_fuel
show_fuel-cons zero n rest h = absurd (omega arith)
show_fuel-cons (suc f) n rest h = elim (Bool-cases (ltb n 10)) [
  | inl small ↦ rw small (b'0' + n, rest, refl, is_digit-digit n (ground arith))
  | inr large ↦ rw large (show_fuel-cons f (n / 10) ((b'0' + n % 10) ∷ rest) (ground arith))
]

-- A printed number begins with a digit.
pub show_decimal-cons :
    (n : ℕ) (rest : Bytes)
    → (c : ℕ) × (cs : Bytes) × (show_decimal n rest ≡ c ∷ cs) × (is_digit c ≡ true)
unfolding show_decimal
show_decimal-cons n rest = show_fuel-cons (suc n) n rest (omega arith)

-- No byte is a line break.
abbrev pub NoBreak : Bytes → Type 0
NoBreak [] = Unit
NoBreak (c ∷ cs) = (c ≢ b'\n') × NoBreak cs

show_fuel-NoBreak : (f n : ℕ) (rest : Bytes) → NoBreak rest → NoBreak (show_fuel f n rest)
unfolding show_fuel
show_fuel-NoBreak zero n rest h = h
show_fuel-NoBreak (suc f) n rest h = elim (Bool-cases (ltb n 10)) [
  | inl small ↦ rw small (omega arith, h)
  | inr large ↦ rw large (show_fuel-NoBreak f (n / 10) ((b'0' + n % 10) ∷ rest) (omega arith, h))
]

pub show_decimal-NoBreak : (n : ℕ) → NoBreak (show_decimal n [])
unfolding show_decimal
show_decimal-NoBreak n = show_fuel-NoBreak (suc n) n [] tt

abbrev pub pow10 : ℕ → ℕ
pow10 zero = 1
pow10 (suc k) = 10 * pow10 k

length-show_fuel :
    (f k n : ℕ) (rest : Bytes)
    → n < pow10 (suc k)
    → length (show_fuel f n rest) ≤ suc k + length rest
unfolding show_fuel
length-show_fuel zero k n rest h = omega arith
length-show_fuel (suc f) zero n rest h =
    let small : ltb n 10 ≡ true = ground arith in rw small (omega arith)
length-show_fuel (suc f) (suc k) n rest h = elim (Bool-cases (ltb n 10)) [
  | inl small ↦ rw small (omega arith)
  | inr large ↦
      let fewer = length-show_fuel f k (n / 10) ((b'0' + n % 10) ∷ rest) (omega arith) in
      rw large (omega arith)
]

-- A number below a power of ten has no more digits than that power has zeros.
pub length-show_decimal :
    (k n : ℕ) (rest : Bytes)
    → n < pow10 (suc k)
    → length (show_decimal n rest) ≤ suc k + length rest
unfolding show_decimal
length-show_decimal k n rest h = length-show_fuel (suc n) k n rest h
