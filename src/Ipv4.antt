-- ===== src/Ipv4.antt =====
-- drcom/src/configparse.h, `drcom_parse_ipv4_address`.
mod Steps
pub mod Grammar
pub mod RoundTrip
use jlu_drcom.Base.{
  ℕ, zero, suc, Bool, true, false, [], ◌∷◌, Option, none, some, Bytes, ltb, ◌==◌, ◌>>=◌,
  if◌then◌else◌,
}
use jlu_drcom.Ctype.{is_digit, strtoul}

-- The head of the loop's body: a digit at the cursor, then a number of at most 255. The result is
-- the number and `end`. (`end == cursor` cannot hold behind the test of the digit.)
unfoldable pub octet : Bytes → Option (ℕ × Bytes)
octet [] = none
octet (c ∷ cs) =
    let (parsed, end) = strtoul (c ∷ cs) in
    if is_digit c then (if ltb 255 parsed then none else some (parsed, end)) else none

-- `if (*end != '.') return 1; cursor = end + 1;`
unfoldable pub after_dot : Bytes → Option Bytes
after_dot [] = none
after_dot (c ∷ cs) = if c == b'.' then some cs else none

-- `if (*end != '\0') return 1;`
unfoldable pub at_end : ℕ → Bytes → Option Bytes
at_end parsed [] = some (parsed ∷ [])
at_end parsed (c ∷ cs) = none

-- The loop at `index`, where `left` is 3 - index.
unfoldable pub octets : ℕ → Bytes → Option Bytes
unfolding octet after_dot at_end
octets zero cursor = do (parsed, end) ← octet cursor; at_end parsed end
octets (suc left) cursor = do
  (parsed, end) ← octet cursor
  cursor' ← after_dot end
  rest ← octets left cursor'
  some (parsed ∷ rest)

-- `none` is the return value 1. (An empty text has no digit at its start either.)
unfoldable pub parse_ipv4_address : Bytes → Option Bytes
unfolding octets
parse_ipv4_address [] = none
parse_ipv4_address (c ∷ cs) = octets 3 (c ∷ cs)
