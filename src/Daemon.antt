-- ===== src/Daemon.antt =====
-- drcom/src/daemon.c: `daemonise`, by what its system calls return.
use jlu_drcom.Base.{
  ℕ, suc, ◌<◌, ◌≡◌, arith, true, false, leb, Bool, not, if◌then◌else◌, Bytes, [], ◌∷◌, ◌++◌, Option,
  none, some, length, drop,
}
use jlu_drcom.Ctype.Decimal.{show_decimal, length-show_decimal}

-- `fork()`: it fails, or it returns in the parent or in the child.
pub data Fork : Type 0 where
  fork_failed parent child : Fork

pub record Calls : Type 0 where
  pub first_fork : Fork
  pub has_session : Bool
  pub second_fork : Fork
  pub pid_file_opened : Bool
  pub pid_file_locked : Bool

-- `exit(1)` where it failed, `exit(0)` in the parent; the child goes on.
unfoldable pub behind_fork : Fork → Option ℕ → Option ℕ
behind_fork fork_failed go_on = some 1
behind_fork parent go_on = some 0
behind_fork child go_on = go_on

-- `none` is the return to the caller, in the daemon; `some` is the status that the process ends with.
unfoldable pub daemonise : Calls → Option ℕ
unfolding behind_fork
daemonise calls = behind_fork calls.first_fork (
    if not calls.has_session
    then some 1
    else behind_fork calls.second_fork (
        if not calls.pid_file_opened
        then some 1
        else if not calls.pid_file_locked
        then some 1
        else none))

-- `spid`, an array of ten bytes, with the process id as `sprintf` writes it; `none` is a write past
-- its end.
unfoldable pub spid : ℕ → Option Bytes
spid pid =
    let text = show_decimal pid (b'\n' ∷ []) in
    if leb (suc (length text)) 10 then some text else none

-- The pid file behind the write: it is opened without O_TRUNC, so what is longer stays.
unfoldable pub pid_file_after : Bytes → Bytes → Bytes
pid_file_after old text = text ++ drop (length text) old

-- The handle of the pid file, and what the file holds where it is there.
pub record PidState : Type 0 where
  pub handle_open : Bool
  pub pid_file : Option Bytes

unfoldable pub kill_daemon : PidState → PidState
kill_daemon s = record { handle_open = false; pid_file = none }

-- The signals that `daemonise` installs the handler for, and any other.
pub data Signal : Type 0 where
  sighup sigint sigterm other_signal : Signal

-- `some` is the status that the process ends with.
unfoldable pub signal_handler : Signal → PidState → Option ℕ × PidState
unfolding kill_daemon
signal_handler sighup s = (none, s)
signal_handler sigint s = (none, s)
signal_handler sigterm s = (some 0, kill_daemon s)
signal_handler other_signal s = (none, s)

-- A process id of at most eight digits fits the array.
pub spid_fits : (pid : ℕ) → pid < 100000000 → (text : Bytes) × (spid pid ≡ some text)
unfolding spid
spid_fits pid h =
    let short = length-show_decimal 7 pid (b'\n' ∷ []) (omega arith) in
    let room : leb (suc (length (show_decimal pid (b'\n' ∷ [])))) 10 ≡ true =
      ground (arith, short) in
    (show_decimal pid (b'\n' ∷ []), rw room)
