-- ===== src/Ctype/Digits.antt =====
-- The digits that `read_decimal` reads.
use jlu_drcom.Base.{
  ℕ, ◌+◌, ◌-◌, ◌*◌, ◌≡◌, refl, ap, true, [], ◌∷◌, ◌++◌, Bytes, Bool-cases, inl, inr,
}
use jlu_drcom.Ctype.{is_digit, read_decimal}
use jlu_drcom.Ctype.Decimal.{StopsDigits}

abbrev pub AllDigits : Bytes → Type 0
AllDigits [] = Unit
AllDigits (c ∷ cs) = (is_digit c ≡ true) × AllDigits cs

-- The number that a run of digits stands for, on top of `acc`.
unfoldable pub value_from : ℕ → Bytes → ℕ
value_from acc [] = acc
value_from acc (c ∷ cs) = value_from (acc * 10 + (c - b'0')) cs

pub record Reading (acc : ℕ) (s : Bytes) (v : ℕ) (end : Bytes) : Type 0 where
  pub digits : Bytes
  pub splits : s ≡ digits ++ end
  pub all : AllDigits digits
  pub value : value_from acc digits ≡ v
  pub stops : StopsDigits end

pub read_decimal-Reading :
    (acc : ℕ) (s : Bytes) → Reading acc s (read_decimal acc s).0 (read_decimal acc s).1
unfolding read_decimal value_from
read_decimal-Reading acc [] = record {
  digits = [];
  splits = refl;
  all = tt;
  value = refl;
  stops = tt;
}
read_decimal-Reading acc (c ∷ cs) = elim (Bool-cases (is_digit c)) [
  | inl digit ↦
      let later = read_decimal-Reading (acc * 10 + (c - b'0')) cs in
      rw digit (record {
        digits = c ∷ later.digits;
        splits = ap (◌∷◌ c) later.splits;
        all = (digit, later.all);
        value = later.value;
        stops = later.stops;
      })
  | inr other ↦
      rw other (record { digits = []; splits = refl; all = tt; value = refl; stops = other })
]

pub read_decimal-append :
    (acc : ℕ) (digits end : Bytes)
    → AllDigits digits
    → StopsDigits end
    → read_decimal acc (digits ++ end) ≡ (value_from acc digits, end)
unfolding read_decimal value_from
read_decimal-append acc [] [] all stop = refl
read_decimal-append acc [] (c ∷ cs) all stop = rw stop
read_decimal-append acc (d ∷ digits) end all stop =
    rw all.0 (read_decimal-append (acc * 10 + (d - b'0')) digits end all.1 stop)
