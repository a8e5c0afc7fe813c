-- ===== src/Auth/Delay/Laws.antt =====
-- drcom/src/auth.c: the cooldown that `extract_retry_after_seconds` reads.
use jlu_drcom.Base.{
  ℕ, ◌+◌, ◌-◌, ◌*◌, ◌≤◌, ◌≡◌, refl, zero, suc, ◌==◌, ltb, leb, Bool, true, false, if◌then◌else◌,
  Bytes, [], ◌∷◌, ◌++◌, drop, length, arith, replicate, drop-append, length-append,
}
use mathlib.Core.Path.{subst}
use jlu_drcom.Ctype.{is_digit}
use jlu_drcom.Ctype.Decimal.{
  show_decimal, StopsDigits, show_decimal-cons, read_decimal-show_decimal,
}
use jlu_drcom.Ctype.Digits.{AllDigits, value_from, Reading, read_decimal-Reading}
use jlu_drcom.Auth.Delay.{seconds_follow, scan_retry_after, extract_retry_after_seconds}

scan_retry_after-le :
    (value : ℕ) (have_digits : Bool) (s : Bytes) → scan_retry_after value have_digits s ≤ 1800
unfolding scan_retry_after
scan_retry_after-le value have_digits [] = omega arith
scan_retry_after-le value have_digits (ch ∷ rest) =
    let n =
      scan_retry_after-le (if ltb value 100000 then value * 10 + (ch - 0x30) else value) true
        rest in
    let r = scan_retry_after-le 0 false rest in
    let u = scan_retry_after-le value have_digits rest in ground (arith, n, r, u)

-- The parser of the cooldown gives at most half an hour, whatever the server sends.
pub extract_retry_after_seconds-le : (packet : Bytes) → extract_retry_after_seconds packet ≤ 1800
unfolding extract_retry_after_seconds
extract_retry_after_seconds-le packet = ground (arith, scan_retry_after-le 0 false (drop 20 packet))

-- Bytes with no digit and no terminator.
unfoldable pub IsProse : Bytes → Type 0
IsProse [] = Unit
IsProse (ch ∷ rest) = (is_digit ch ≡ false) × (1 ≤ ch) × IsProse rest

scan_prose :
    (text rest : Bytes)
    → IsProse text
    → scan_retry_after 0 false (text ++ rest) ≡ scan_retry_after 0 false rest
unfolding scan_retry_after IsProse
scan_prose [] rest prose = refl
scan_prose (ch ∷ text) rest prose =
    let nonzero : (ch == 0) ≡ false = ground arith in
    rw (nonzero, prose.0) (scan_prose text rest prose.2)

value_from-ge : (acc : ℕ) (digits : Bytes) → acc ≤ value_from acc digits
unfolding value_from
value_from-ge acc [] = omega arith
value_from-ge acc (c ∷ cs) = omega (arith, value_from-ge (acc * 10 + (c - b'0')) cs)

scan_digits :
    (acc : ℕ) (digits rest : Bytes)
    → AllDigits digits
    → value_from acc digits ≤ 1800
    → scan_retry_after acc true (digits ++ rest)
      ≡ scan_retry_after (value_from acc digits) true rest
unfolding scan_retry_after value_from
scan_digits acc [] rest all small = refl
scan_digits acc (c ∷ cs) rest all small =
    let digit = all.0 in
    let nonzero : (c == 0) ≡ false = unfold is_digit in ground arith in
    let grows = value_from-ge (acc * 10 + (c - b'0')) cs in
    let low : ltb acc 100000 ≡ true = ground arith in
    rw (nonzero, digit, low) (scan_digits (acc * 10 + (c - b'0')) cs rest all.1 small)

seconds_follow_spaces :
    (k : ℕ) (tail : Bytes) → seconds_follow (replicate k 0x20 ++ (b's' ∷ tail)) ≡ true
unfolding seconds_follow
seconds_follow_spaces zero tail = refl
seconds_follow_spaces (suc k) tail = seconds_follow_spaces k tail

-- The byte behind the digits.
scan_unit :
    (n k : ℕ) (tail : Bytes)
    → 1 ≤ n
    → n ≤ 1800
    → scan_retry_after n true (replicate k 0x20 ++ (b's' ∷ tail)) ≡ n
unfolding scan_retry_after is_digit
scan_unit n zero tail low high = unfold seconds_follow in ground arith
scan_unit n (suc k) tail low high =
    rw (scan_retry_after, seconds_follow_spaces (suc k) tail) (ground arith)

-- A number that is not zero has a first digit.
scan_run :
    (digits rest : Bytes)
    → AllDigits digits
    → 1 ≤ value_from 0 digits
    → value_from 0 digits ≤ 1800
    → scan_retry_after 0 false (digits ++ rest) ≡ scan_retry_after (value_from 0 digits) true rest
unfolding scan_retry_after value_from
scan_run [] rest all low high = absurd (omega arith)
scan_run (c ∷ cs) rest all low high =
    let digit = all.0 in
    let nonzero : (c == 0) ≡ false = unfold is_digit in ground arith in
    rw (nonzero, digit) (scan_digits (0 * 10 + (c - b'0')) cs rest all.1 high)

StopsDigits-spaces : (k : ℕ) (tail : Bytes) → StopsDigits (replicate k 0x20 ++ (b's' ∷ tail))
unfolding is_digit
StopsDigits-spaces zero tail = refl
StopsDigits-spaces (suc k) tail = refl

scan_number :
    (n k : ℕ) (tail : Bytes)
    → 1 ≤ n
    → n ≤ 1800
    → scan_retry_after 0 false (show_decimal n (replicate k 0x20 ++ (b's' ∷ tail))) ≡ n
scan_number n k tail low high =
    let end = replicate k 0x20 ++ (b's' ∷ tail) in
    let reads = read_decimal-show_decimal n end (StopsDigits-spaces k tail) in
    let r : Reading 0 (show_decimal n end) n end =
      subst (λ (x : ℕ × Bytes). Reading 0 (show_decimal n end) x.0 x.1) reads
        (read_decimal-Reading 0 (show_decimal n end)) in
    let value = r.value in
    let splits = r.splits in
    rw (splits, scan_run r.digits end r.all (omega arith) (omega arith), value)
      (scan_unit n k tail low high)

-- A cooldown that the server writes as a number of seconds from 1 to 1800, behind 20 bytes and prose
-- with no digit in it and in front of any number of spaces and an `s`, is what the client reads.
pub extract_retry_after_seconds-show_decimal :
    (header text : Bytes) (n k : ℕ) (tail : Bytes)
    → length header ≡ 20
    → IsProse text
    → 1 ≤ n
    → n ≤ 1800
    → extract_retry_after_seconds
        (header ++ (text ++ show_decimal n (replicate k 0x20 ++ (b's' ∷ tail))))
      ≡ n
unfolding extract_retry_after_seconds
extract_retry_after_seconds-show_decimal header text n k tail size prose low high =
    let end = replicate k 0x20 ++ (b's' ∷ tail) in
    let (c, cs, e, digit) = show_decimal-cons n end in
    let shown : 1 ≤ length (show_decimal n end) = rw e (omega arith) in
    let l1 = length-append header (text ++ show_decimal n end) in
    let l2 = length-append text (show_decimal n end) in
    let long : leb (length (header ++ (text ++ show_decimal n end))) 20 ≡ false = ground arith in
    rw
      (
        long,
        drop-append header (text ++ show_decimal n end) 20 size,
        scan_prose text (show_decimal n end) prose,
      )
      (scan_number n k tail low high)
