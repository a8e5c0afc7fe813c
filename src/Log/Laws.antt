-- ===== src/Log/Laws.antt =====
-- drcom/src/auth.c: the lines of the log file.
use mathlib.Core.List.{append_assoc}
use jlu_drcom.Base.{
  ℕ, zero, suc, ◌+◌, ◌-◌, ◌≡◌, ap, true, false, Bytes, List, [], ◌∷◌, ◌++◌, none, some, Option,
  length, take, get_or, replicate, arith, AllBytes,
}
use jlu_drcom.Config.Values.{scan_pairs}
use jlu_drcom.Config.Values.Hex.{show_hex, scan_pairs-show_hex}
use jlu_drcom.Ctype.Decimal.{show_decimal, show_decimal-NoBreak, NoBreak}
use jlu_drcom.Log.{hex_bytes, joined, padded, wday, Tm, stamp_parts, time_stamp, log_line, logging}

NoBreak-append : (xs ys : Bytes) → NoBreak xs → NoBreak ys → NoBreak (xs ++ ys)
NoBreak-append [] ys hx hy = hy
NoBreak-append (x ∷ xs) ys hx hy = (hx.0, NoBreak-append xs ys hx.1 hy)

NoBreak-replicate : (n : ℕ) → NoBreak (replicate n b'0')
NoBreak-replicate zero = tt
NoBreak-replicate (suc n) = (omega arith, NoBreak-replicate n)

padded-NoBreak : (width n : ℕ) → NoBreak (padded width n)
unfolding padded
padded-NoBreak width n =
    NoBreak-append (replicate (width - length (show_decimal n [])) b'0') _ (NoBreak-replicate _)
      (show_decimal-NoBreak n)

wday-NoBreak : (n : ℕ) → NoBreak (get_or wday n [])
wday-NoBreak zero = omega arith
wday-NoBreak (suc zero) = omega arith
wday-NoBreak (suc (suc zero)) = omega arith
wday-NoBreak (suc (suc (suc zero))) = omega arith
wday-NoBreak (suc (suc (suc (suc zero)))) = omega arith
wday-NoBreak (suc (suc (suc (suc (suc zero))))) = omega arith
wday-NoBreak (suc (suc (suc (suc (suc (suc zero)))))) = omega arith
wday-NoBreak (suc (suc (suc (suc (suc (suc (suc n))))))) = tt

abbrev AllNoBreak : List Bytes → Type 0
AllNoBreak [] = Unit
AllNoBreak (text ∷ more) = NoBreak text × AllNoBreak more

joined-NoBreak : (texts : List Bytes) → AllNoBreak texts → NoBreak (joined texts)
unfolding joined
joined-NoBreak [] h = tt
joined-NoBreak (text ∷ more) h = NoBreak-append text (joined more) h.0 (joined-NoBreak more h.1)

stamp_parts-NoBreak : (p : Tm) → AllNoBreak (stamp_parts p)
unfolding stamp_parts
stamp_parts-NoBreak p =
    let two = λ (n : ℕ). padded-NoBreak 2 n in
    (
      omega arith,
      (
        padded-NoBreak 4 (1900 + p.tm_year),
        (
          omega arith,
          (
            two (1 + p.tm_mon),
            (
              omega arith,
              (
                two p.tm_mday,
                (
                  omega arith,
                  (
                    wday-NoBreak p.tm_wday,
                    (
                      omega arith,
                      (
                        two p.tm_hour,
                        (
                          omega arith,
                          (two p.tm_min, (omega arith, (two p.tm_sec, (omega arith, tt)))),
                        ),
                      ),
                    ),
                  ),
                ),
              ),
            ),
          ),
        ),
      ),
    )

time_stamp-NoBreak : (p : Tm) → NoBreak (time_stamp p)
unfolding time_stamp
time_stamp-NoBreak p = joined-NoBreak (stamp_parts p) (stamp_parts-NoBreak p)

show_hex-NoBreak : (bs : Bytes) → NoBreak (show_hex false bs)
unfolding show_hex
show_hex-NoBreak [] = tt
show_hex-NoBreak (b ∷ bs) = (ground arith, (ground arith, show_hex-NoBreak bs))

line_split :
    (stamp msg digits : Bytes)
    → stamp ++ (msg ++ (digits ++ b'\n' ∷ [])) ≡ (stamp ++ (msg ++ digits)) ++ b'\n' ∷ []
line_split stamp msg digits = simp append_assoc

quiet_line :
    (p : Tm) (msg bytes : Bytes)
    → NoBreak msg
    → NoBreak (time_stamp p ++ (msg ++ show_hex false bytes))
quiet_line p msg bytes quiet =
    NoBreak-append (time_stamp p) _ (time_stamp-NoBreak p)
      (NoBreak-append msg _ quiet (show_hex-NoBreak bytes))

-- What a file holds, nothing where there is none.
abbrev pub contents : Option Bytes → Bytes
contents none = []
contents (some text) = text

-- With a log file that can be opened and a time, `logging` keeps what the file holds and adds exactly
-- one line to it, if the message has no line break: a time stamp, the message, and digits from which
-- the bytes of the packet can be read back.
pub logging-one_line :
    (path msg packet : Bytes) (p : Tm) (n : ℕ) (file : Option Bytes)
    → NoBreak msg
    → AllBytes (take n packet)
    → (digits : Bytes) × (logging (some path) true (some p) (some msg) packet n file
        ≡ some (contents file ++ ((time_stamp p ++ (msg ++ digits)) ++ b'\n' ∷ [])))
      × NoBreak (time_stamp p ++ (msg ++ digits))
      × (scan_pairs digits ≡ take n packet)
unfolding logging log_line hex_bytes
logging-one_line path msg packet p n none quiet bytes = (
  show_hex false (take n packet),
  ap some (line_split (time_stamp p) msg _),
  quiet_line p msg (take n packet) quiet,
  scan_pairs-show_hex false (take n packet) bytes,
)
logging-one_line path msg packet p n (some text) quiet bytes = (
  show_hex false (take n packet),
  ap (λ (line : Bytes). some (text ++ line)) (line_split (time_stamp p) msg _),
  quiet_line p msg (take n packet) quiet,
  scan_pairs-show_hex false (take n packet) bytes,
)
