-- ===== src/Auth/Delay.antt =====
-- drcom/src/auth.c: how long the client waits before the next login. `login_retry_delay_seconds` is a
-- part of the state that the functions take and give.
pub mod Laws
use jlu_drcom.Base.{
  ℕ, ◌+◌, ◌-◌, ◌*◌, zero, suc, ◌==◌, ltb, leb, ◌&&◌, ◌||◌, Bool, true, false, if◌then◌else◌, Bytes,
  [], ◌∷◌, ℤ, pos, drop, length,
}
use jlu_drcom.Ctype.{is_digit}
use jlu_drcom.Config.{Config}
use jlu_drcom.RetryPolicy.{normalize_login_retry_delay}
use jlu_drcom.Udp.{World}

-- The spaces in front of the unit, and the unit: the `s` of seconds.
unfoldable pub seconds_follow : Bytes → Bool
seconds_follow [] = false
seconds_follow (ch ∷ rest) =
    let behind = seconds_follow rest in if ch == 0x20 then behind else ch == 0x73 || ch == 0x53

-- The loop from the byte it stands at: `value` and `have_digits` are its variables.
unfoldable pub scan_retry_after : ℕ → Bool → Bytes → ℕ
unfolding seconds_follow
scan_retry_after value have_digits [] = 0
scan_retry_after value have_digits (ch ∷ rest) =
    let next_value = if ltb value 100000 then value * 10 + (ch - 0x30) else value in
    let in_number = scan_retry_after next_value true rest in
    let restarted = scan_retry_after 0 false rest in
    let unchanged = scan_retry_after value have_digits rest in
    if ch == 0x00
    then 0
    else if is_digit ch
    then in_number
    else if have_digits
    then if seconds_follow (ch ∷ rest)
      then if ltb 0 value && leb value 1800 then value else 0
      else restarted
    else unchanged

unfoldable pub extract_retry_after_seconds : Bytes → ℕ
unfolding scan_retry_after
extract_retry_after_seconds packet =
    if leb (length packet) 20 then 0 else scan_retry_after 0 false (drop 20 packet)

unfoldable pub set_login_retry_delay : ℤ → ℤ
set_login_retry_delay seconds = normalize_login_retry_delay seconds

-- `sleep_before_retry`
unfoldable pub sleep_before_retry : ℤ → World → World
sleep_before_retry seconds w = elim (normalize_login_retry_delay seconds) [
  | pos n ↦ record w { slept = n ∷ w.slept }
  | _ ↦ w
]

-- /proc/uptime: it cannot be opened, it holds no number, or it holds one, of which it is said whether
-- it is negative, and its whole part, which fits an `int`.
pub data Uptime : Type 0 where
  no_file no_number : Uptime
  seconds : Bool → ℕ → Uptime

unfoldable pub read_system_uptime_seconds : Uptime → ℕ
read_system_uptime_seconds no_file = 0
read_system_uptime_seconds no_number = 0
read_system_uptime_seconds (seconds negative whole) = if negative then 0 else whole

-- The argument is the result of `read_system_uptime_seconds`.
unfoldable pub maybe_delay_initial_login : Config → ℕ → World → World
maybe_delay_initial_login config uptime_seconds w =
    if config.startup_delay_seconds == 0
      || uptime_seconds == 0
      || leb config.startup_delay_seconds uptime_seconds
    then w
    else record w { slept = (config.startup_delay_seconds - uptime_seconds) ∷ w.slept }
