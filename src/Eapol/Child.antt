-- ===== src/Eapol/Child.antt =====
-- drcom/src/eapol.c: `eap_daemon`, the child process that `eaplogin` leaves behind a success.
pub mod Laws
use jlu_drcom.Base.{ℕ, ◌==◌, ◌&&◌, Bool, true, false, if◌then◌else◌, Bytes, [], Option, none, some}
use jlu_drcom.Ctype.{Long, strtol}
use jlu_drcom.Ctype.Decimal.{show_decimal}
use jlu_drcom.Eapol.{Eapol}
use jlu_drcom.Eapol.Login.{eap_keep_alive}

-- The file /tmp/cwnu-drcom-eap.pid: it is there with its text, it can be created, or neither.
pub data PidFile : Type 0 where
  there : Bytes → PidFile
  created unusable : PidFile

-- The child as it keeps the login alive: the number that it has given to `kill`, the text of the pid
-- file, and the state of the socket.
pub record Child : Type 0 where
  pub killed : Option Long
  pub pid_text : Bytes
  pub socket : Eapol

-- `fscanf` reads a number like `strtol`. -1 is what a child that has left would have written.
unfoldable pub old_child : Bytes → Option Long
old_child text = elim (strtol text) [
  | none ↦ none
  | some oldpid ↦ if oldpid.below_zero && oldpid.magnitude == 1 then none else some oldpid
]

child_of : Bytes → ℕ → ℕ → Eapol → Child
child_of text curpid rounds s = record {
  killed = old_child text;
  pid_text = show_decimal curpid [];
  socket = eap_keep_alive rounds s.clock s;
}

-- `none` is the return value -1. The call of `eap_keep_alive` does not return; what stands behind it
-- is never reached, and `rounds` says how many turns the loop has made.
unfoldable pub eap_daemon : PidFile → ℕ → ℕ → Eapol → Option Child
unfolding child_of
eap_daemon (there text) curpid rounds s = some (child_of text curpid rounds s)
eap_daemon created curpid rounds s = some (child_of [] curpid rounds s)
eap_daemon unusable curpid rounds s = none
