-- ===== src/Log.antt =====
-- drcom/src/auth.c: `print_packet`, which writes on the console, and `logging`, which appends to the
-- log file.
pub mod Laws
use jlu_drcom.Base.{
  ℕ, ◌≡◌, refl, ◌+◌, ◌-◌, ◌/◌, ◌%◌, Bool, true, false, Bytes, List, [], ◌∷◌, ◌++◌, Option, none,
  some, length, take, get_or, replicate, codes,
}
use jlu_drcom.Config.Values.Hex.{show_hex}
use jlu_drcom.Ctype.Decimal.{show_decimal}

-- What `printf` makes of some bytes with `%02x`.
unfoldable pub hex_bytes : Bytes → Bytes
unfolding show_hex
hex_bytes bs = show_hex false bs

-- The text on the console. `length` is no more than the size of the array.
unfoldable pub print_packet : Bytes → Bytes → ℕ → Bytes
print_packet msg packet length = msg ++ (hex_bytes (take length packet) ++ b'\n' ∷ [])

-- `struct tm`, as `localtime` gives it.
pub record Tm : Type 0 where
  pub tm_year : ℕ
  pub tm_mon : ℕ
  pub tm_mday : ℕ
  pub tm_wday : ℕ
  pub tm_hour : ℕ
  pub tm_min : ℕ
  pub tm_sec : ℕ

abbrev pub wday : List Bytes
wday =
    codes "Sun"
    ∷ codes "Mon"
    ∷ codes "Tue"
    ∷ codes "Wed"
    ∷ codes "Thu"
    ∷ codes "Fri"
    ∷ codes "Sat"
    ∷ []

-- `%02d` and `%04d`
unfoldable pub padded : ℕ → ℕ → Bytes
padded width n = let digits = show_decimal n [] in replicate (width - length digits) b'0' ++ digits

-- Texts one behind the other.
unfoldable pub joined : List Bytes → Bytes
joined [] = []
joined (text ∷ more) = text ++ joined more

-- The pieces of the format `[%04d/%02d/%02d %s %02d:%02d:%02d] `.
unfoldable pub stamp_parts : Tm → List Bytes
unfolding padded
stamp_parts p =
    codes "["
    ∷ padded 4 (1900 + p.tm_year)
    ∷ codes "/"
    ∷ padded 2 (1 + p.tm_mon)
    ∷ codes "/"
    ∷ padded 2 p.tm_mday
    ∷ codes " "
    ∷ get_or wday p.tm_wday []
    ∷ codes " "
    ∷ padded 2 p.tm_hour
    ∷ codes ":"
    ∷ padded 2 p.tm_min
    ∷ codes ":"
    ∷ padded 2 p.tm_sec
    ∷ codes "] "
    ∷ []

unfoldable pub time_stamp : Tm → Bytes
unfolding joined stamp_parts
time_stamp p = joined (stamp_parts p)

unfoldable pub log_line : Tm → Bytes → Bytes → ℕ → Bytes
unfolding time_stamp
log_line p msg packet length =
    time_stamp p ++ (msg ++ (hex_bytes (take length packet) ++ b'\n' ∷ []))

-- What the file holds behind the call, `none` where there is none. `opened` is whether `fopen` succeeds,
-- which creates the file; `now` is what `localtime` returns.
unfoldable pub logging :
    Option Bytes → Bool → Option Tm → Option Bytes → Bytes → ℕ → Option Bytes → Option Bytes
logging none opened now msg packet length file = file
logging (some log_path) opened now none packet length file = file
logging (some log_path) false now (some msg) packet length file = file
logging (some log_path) true none (some msg) packet length none = some []
logging (some log_path) true none (some msg) packet length (some text) = some text
logging (some log_path) true (some p) (some msg) packet length none =
    some (log_line p msg packet length)
logging (some log_path) true (some p) (some msg) packet length (some text) =
    some (text ++ log_line p msg packet length)
