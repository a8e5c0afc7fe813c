-- ===== src/Base/Buffer.antt =====
-- C arrays of bytes: writes that are checked against the array's length, and slices.
use Prim.Native.Nat.{ℕ, zero, suc, ◌+◌, ◌≤◌}
use mathlib.Core.Path.{◌≡◌, refl, ap, ◌∙◌}
use mathlib.Core.Logic.{◌⊎◌, inl, inr}
use mathlib.Core.List.{List, [], ◌∷◌}
use mathlib.Core.Option.{Option, none, some}
use native.Mathlib.Omega.{arith}
use jlu_drcom.Base.Logic.{leb, if◌then◌else◌, le→leb}
use jlu_drcom.Base.Lists.{Bytes, length, take, drop, replicate, length-replicate}
use jlu_drcom.Base.Partial.{◌>>=◌}

-- The bytes `src` stored from index `at` on, one after the other.
unfoldable pub put : ℕ → Bytes → Bytes → Bytes
put zero [] buf = buf
put zero (s ∷ ss) [] = []
put zero (s ∷ ss) (x ∷ xs) = s ∷ put zero ss xs
put (suc at) src [] = []
put (suc at) src (x ∷ xs) = x ∷ put at src xs

-- `memcpy(buf + at, src, length of src)`; `none` is a write past the end of the array.
unfoldable pub memcpy : ℕ → Bytes → Bytes → Option Bytes
memcpy at src buf = if leb (at + length src) (length buf) then some (put at src buf) else none

-- Several writes, in the order of the list.
unfoldable pub writes : List (ℕ × Bytes) → Bytes → Option Bytes
writes [] buf = some buf
writes ((at, src) ∷ ws) buf = memcpy at src buf >>= writes ws

-- `memset(buf, 0, n)`
abbrev pub zeros : ℕ → Bytes
zeros n = replicate n 0

pub length-zeros : (n : ℕ) → length (zeros n) ≡ n
length-zeros n = length-replicate n 0

abbrev pub slice : ℕ → ℕ → Bytes → Bytes
slice at n buf = take n (drop at buf)

-- The front of an array holds the same bytes.
pub slice-take : (i n m : ℕ) (buf : Bytes) → i + n ≤ m → slice i n (take m buf) ≡ slice i n buf
slice-take zero zero m buf h = refl
slice-take zero (suc n) zero buf h = absurd (omega arith)
slice-take zero (suc n) (suc m) [] h = refl
slice-take zero (suc n) (suc m) (x ∷ buf) h = ap (◌∷◌ x) (slice-take zero n m buf (omega arith))
slice-take (suc i) n zero buf h = absurd (omega arith)
slice-take (suc i) n (suc m) [] h = refl
slice-take (suc i) n (suc m) (x ∷ buf) h = slice-take i n m buf (omega arith)

pub length-put : (at : ℕ) (src buf : Bytes) → length (put at src buf) ≡ length buf
unfolding put
length-put zero [] buf = refl
length-put zero (s ∷ ss) [] = refl
length-put zero (s ∷ ss) (x ∷ xs) = ap suc (length-put zero ss xs)
length-put (suc at) src [] = refl
length-put (suc at) src (x ∷ xs) = ap suc (length-put at src xs)

pub slice-put_self :
    (at : ℕ) (src buf : Bytes)
    → at + length src ≤ length buf
    → slice at (length src) (put at src buf) ≡ src
unfolding put
slice-put_self zero [] buf h = refl
slice-put_self zero (s ∷ ss) [] h = absurd (omega arith)
slice-put_self zero (s ∷ ss) (x ∷ xs) h = ap (◌∷◌ s) (slice-put_self zero ss xs (omega arith))
slice-put_self (suc at) [] [] h = refl
slice-put_self (suc at) (s ∷ ss) [] h = absurd (omega arith)
slice-put_self (suc at) src (x ∷ xs) h = slice-put_self at src xs (omega arith)

slice-put_before :
    (i n at : ℕ) (src buf : Bytes) → i + n ≤ at → slice i n (put at src buf) ≡ slice i n buf
unfolding put
slice-put_before zero zero at src buf h = refl
slice-put_before zero (suc n) zero src buf h = absurd (omega arith)
slice-put_before zero (suc n) (suc at) src [] h = refl
slice-put_before zero (suc n) (suc at) src (x ∷ xs) h =
    ap (◌∷◌ x) (slice-put_before zero n at src xs (omega arith))
slice-put_before (suc i) n zero src buf h = absurd (omega arith)
slice-put_before (suc i) n (suc at) src [] h = refl
slice-put_before (suc i) n (suc at) src (x ∷ xs) h = slice-put_before i n at src xs (omega arith)

slice-put_after :
    (i n at : ℕ) (src buf : Bytes)
    → at + length src ≤ i
    → slice i n (put at src buf) ≡ slice i n buf
unfolding put
slice-put_after i n zero [] buf h = refl
slice-put_after i n zero (s ∷ ss) [] h = refl
slice-put_after zero n zero (s ∷ ss) (x ∷ xs) h = absurd (omega arith)
slice-put_after (suc i) n zero (s ∷ ss) (x ∷ xs) h = slice-put_after i n zero ss xs (omega arith)
slice-put_after i n (suc at) src [] h = refl
slice-put_after zero n (suc at) src (x ∷ xs) h = absurd (omega arith)
slice-put_after (suc i) n (suc at) src (x ∷ xs) h = slice-put_after i n at src xs (omega arith)

-- Every write fits an array of `size` bytes.
abbrev pub AllFit : ℕ → List (ℕ × Bytes) → Type 0
AllFit size [] = Unit
AllFit size ((at, src) ∷ ws) = (at + length src ≤ size) × AllFit size ws

-- No write touches the `n` bytes from index `i` on.
abbrev pub AllApart : ℕ → ℕ → List (ℕ × Bytes) → Type 0
AllApart i n [] = Unit
AllApart i n ((at, src) ∷ ws) = ((i + n ≤ at) ⊎ (at + length src ≤ i)) × AllApart i n ws

-- The array after writes that fit.
unfoldable pub put_all : List (ℕ × Bytes) → Bytes → Bytes
put_all [] buf = buf
put_all ((at, src) ∷ ws) buf = put_all ws (put at src buf)

pub length-put_all : (ws : List (ℕ × Bytes)) (buf : Bytes) → length (put_all ws buf) ≡ length buf
unfolding put_all
length-put_all [] buf = refl
length-put_all ((at, src) ∷ ws) buf = length-put_all ws (put at src buf) ∙ length-put at src buf

pub writes-put_all :
    (ws : List (ℕ × Bytes)) (buf : Bytes)
    → AllFit (length buf) ws
    → writes ws buf ≡ some (put_all ws buf)
unfolding writes put_all memcpy
writes-put_all [] buf h = refl
writes-put_all ((at, src) ∷ ws) buf h =
    rw (le→leb (at + length src) (length buf) h.0)
      (writes-put_all ws (put at src buf) (rw (length-put at src buf) h.1))

pub slice-put_apart :
    (i n at : ℕ) (src buf : Bytes)
    → (i + n ≤ at) ⊎ (at + length src ≤ i)
    → slice i n (put at src buf) ≡ slice i n buf
slice-put_apart i n at src buf (inl before) = slice-put_before i n at src buf before
slice-put_apart i n at src buf (inr after) = slice-put_after i n at src buf after

-- Bytes that later writes do not touch stay.
pub slice-put_all :
    (i n : ℕ) (ws : List (ℕ × Bytes)) (buf : Bytes)
    → AllApart i n ws
    → slice i n (put_all ws buf) ≡ slice i n buf
unfolding put_all
slice-put_all i n [] buf h = refl
slice-put_all i n ((at, src) ∷ ws) buf h =
    slice-put_all i n ws (put at src buf) h.1 ∙ slice-put_apart i n at src buf h.0

-- A field that is written and then left alone holds what was written.
pub slice-put_all_field :
    (at n : ℕ) (src : Bytes) (ws : List (ℕ × Bytes)) (buf : Bytes)
    → length src ≡ n
    → at + n ≤ length buf
    → AllApart at n ws
    → slice at n (put_all ((at, src) ∷ ws) buf) ≡ src
unfolding put_all
slice-put_all_field at n src ws buf e fits apart =
    slice-put_all at n ws (put at src buf) apart
    ∙ rw (← e) (slice-put_self at src buf (omega arith))

-- The same by the position of the write in the list.
pub slice-put_all_nth :
    (k : ℕ) (ws : List (ℕ × Bytes)) (buf : Bytes) (at n : ℕ) (src : Bytes)
    → take 1 (drop k ws) ≡ (at, src) ∷ []
    → length src ≡ n
    → at + n ≤ length buf
    → AllApart at n (drop (suc k) ws)
    → slice at n (put_all ws buf) ≡ src
unfolding put_all
slice-put_all_nth zero [] buf at n src e size fits apart = cc
slice-put_all_nth zero ((a, s) ∷ ws) buf at n src e size fits apart =
    let here : ◌≡◌ {A = ℕ × Bytes} (a, s) (at, src) = cc e in
    let same_at : a ≡ at = ap (λ (p : ℕ × Bytes). p.0) here in
    let same_src : s ≡ src = ap (λ (p : ℕ × Bytes). p.1) here in
    rw (same_at, same_src) (slice-put_all_field at n src ws buf size fits apart)
slice-put_all_nth (suc k) [] buf at n src e size fits apart = cc
slice-put_all_nth (suc k) ((a, s) ∷ ws) buf at n src e size fits apart =
    slice-put_all_nth k ws (put a s buf) at n src e size (rw (length-put a s buf) fits) apart

pub take-zeros : (n m : ℕ) → n ≤ m → take n (zeros m) ≡ zeros n
take-zeros zero m h = refl
take-zeros (suc n) zero h = absurd (omega arith)
take-zeros (suc n) (suc m) h = ap (◌∷◌ 0) (take-zeros n m (omega arith))

pub slice-zeros : (at n m : ℕ) → at + n ≤ m → slice at n (zeros m) ≡ zeros n
slice-zeros zero n m h = take-zeros n m (omega arith)
slice-zeros (suc at) n zero h = absurd (omega arith)
slice-zeros (suc at) n (suc m) h = slice-zeros at n m (omega arith)
