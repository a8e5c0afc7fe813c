-- ===== src/Base/Int.antt =====
-- C's `int`, as far as the program computes with it: a sign, tests against small numerals and the
-- successor. Over the native numbers, since the library's ℤ stands on the unary ones.
use Prim.Native.Nat.{ℕ, zero, suc, ◌+◌, ◌%◌}
use mathlib.Core.Bool.{Bool, true, false}
use jlu_drcom.Base.Logic.{ltb, leb}

-- `negsuc n` is -(n + 1).
pub data ℤ : Type 0 where
  pos : ℕ → ℤ
  negsuc : ℕ → ℤ

-- `a > k`, for a constant `k` that is not negative
abbrev pub exceeds : ℤ → ℕ → Bool
exceeds (pos n) k = ltb k n
exceeds (negsuc n) k = false

-- `a >= k`, for a constant `k` that is not negative
abbrev pub at_least : ℤ → ℕ → Bool
at_least (pos n) k = leb k n
at_least (negsuc n) k = false

abbrev pub is_negative : ℤ → Bool
is_negative (pos n) = false
is_negative (negsuc n) = true

-- `a + 1`
abbrev pub increment : ℤ → ℤ
increment (pos n) = pos (n + 1)
increment (negsuc zero) = pos 0
increment (negsuc (suc n)) = negsuc n

-- the value where it is not negative, else 0
abbrev pub pos_part : ℤ → ℕ
pos_part (pos n) = n
pos_part (negsuc n) = 0

-- `a % k` for a value that is not negative; every use of it is behind a test of the sign
abbrev pub remainder : ℤ → ℕ → ℕ
remainder a k = pos_part a % k
