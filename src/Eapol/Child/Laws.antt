-- ===== src/Eapol/Child/Laws.antt =====
-- drcom/src/eapol.c: the pid file hands the child over to the next one.
use jlu_drcom.Base.{
  ℕ, ◌^◌, ◌-◌, ◌≤◌, ◌≡◌, ◌∙◌, ap, sym, true, false, ◌==◌, min, Bytes, [], ◌∷◌, Option, none, some,
  arith,
}
use jlu_drcom.Ctype.{Long, strtol, read_decimal, is_digit, is_space, skip_spaces}
use jlu_drcom.Ctype.Decimal.{show_decimal, show_decimal-cons, read_decimal-show_decimal}
use jlu_drcom.Eapol.{Eapol}
use jlu_drcom.Eapol.Child.{PidFile, there, created, unusable, Child, old_child, eap_daemon}

abbrev pub positive : ℕ → Long
positive n = record { below_zero = false; magnitude = n; end = [] }

digit_signs :
    (c : ℕ)
    → is_digit c ≡ true
    → (is_space c ≡ false) × ((c == b'-') ≡ false) × ((c == b'+') ≡ false)
unfolding is_digit is_space
digit_signs c h = (ground (arith, h), ground (arith, h), ground (arith, h))

strtol-digit :
    (c n : ℕ) (cs : Bytes)
    → is_digit c ≡ true
    → read_decimal 0 (c ∷ cs) ≡ (n, [])
    → n ≤ 2 ^ 31 - 1
    → strtol (c ∷ cs) ≡ some (positive n)
unfolding strtol skip_spaces
strtol-digit c n cs digit reads small =
    let (space, minus, plus) = digit_signs c digit in
    let value : (read_decimal 0 (c ∷ cs)).0 ≡ n = ap (λ (r : ℕ × Bytes). r.0) reads in
    let end : (read_decimal 0 (c ∷ cs)).1 ≡ [] = ap (λ (r : ℕ × Bytes). r.1) reads in
    let kept : min n (2 ^ 31 - 1) ≡ n = omega arith in
    rw (strtol, skip_spaces, space, minus, plus, digit, value, end, kept)

old_child-show_decimal :
    (n : ℕ) → n ≤ 2 ^ 31 - 1 → old_child (show_decimal n []) ≡ some (positive n)
unfolding old_child
old_child-show_decimal n small =
    let (c, cs, shown, digit) = show_decimal-cons n [] in
    let reads = read_decimal-show_decimal n [] tt in
    let number : strtol (show_decimal n []) ≡ some (positive n) =
      rw shown (strtol-digit c n cs digit (ap (read_decimal 0) (sym shown) ∙ reads) small) in
    rw (old_child, number)

text_left : Option Child → Bytes
text_left none = []
text_left (some c) = c.pid_text

left_behind :
    (file : PidFile) (n rounds : ℕ) (s : Eapol) {c : Child}
    → eap_daemon file n rounds s ≡ some c
    → c.pid_text ≡ show_decimal n []
unfolding eap_daemon text_left
left_behind (there text) n rounds s e = ap text_left (sym e)
left_behind created n rounds s e = ap text_left (sym e)
left_behind unusable n rounds s e = cc

given_to_kill : Option Child → Option Long
given_to_kill none = none
given_to_kill (some c) = c.killed

-- Whatever pid file a child finds, the next one gives exactly its number to `kill`.
pub eap_daemon-killed :
    (file : PidFile) (n m rounds turns : ℕ) (s t : Eapol) {c d : Child}
    → n ≤ 2 ^ 31 - 1
    → eap_daemon file n rounds s ≡ some c
    → eap_daemon (there c.pid_text) m turns t ≡ some d
    → d.killed ≡ some (positive n)
unfolding eap_daemon given_to_kill
eap_daemon-killed file n m rounds turns s t {c} small first second =
    ap given_to_kill (sym second)
    ∙ ap old_child (left_behind file n rounds s first)
    ∙ old_child-show_decimal n small
