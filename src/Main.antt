-- ===== src/Main.antt =====
-- drcom/src/main.c: the options of the command line, the 802.1X login and the call of `dogcom`.
--
-- What `getopt_long` returns is a list, one constructor for each case of the switch.
pub mod Options
pub mod Configured
pub mod Laws
use jlu_drcom.Base.{
  ℕ, zero, suc, leb, Bool, true, false, ◌||◌, if◌then◌else◌, Bytes, List, [], ◌∷◌, Option, none,
  some, length, codes, equal, ℤ, pos, negsuc, Status, success, failure,
}
use jlu_drcom.Auth.Dogcom.{Decision}
use jlu_drcom.Auth.Program.{System, dogcom}
use jlu_drcom.Config.{Config, Globals, text_size}
use jlu_drcom.Config.Parse.{config_parse}
use jlu_drcom.Daemon.{Calls, daemonise}
use jlu_drcom.Eapol.{Eapol}
use jlu_drcom.Eapol.Login.{Interface, Result, returned, overrun, waits, eaplogin, setifname}
use jlu_drcom.Interfaces.{getall_ifs}
use jlu_drcom.Packet.{Digests}
use jlu_drcom.Udp.{Address, World}

-- An option with its argument; `unknown` is '?'.
pub data Argument : Type 0 where
  mode conf bindip log : Bytes → Argument
  daemon eapol eternal verbose help unknown : Argument

-- What `realpath` does: it resolves the path, finds that there is no such file, or fails otherwise.
pub data Realpath : Type 0 where
  resolved : Bytes → Realpath
  missing unreadable : Realpath

-- The globals of main.c and of config_parse.
pub record Program : Type 0 where
  pub mode_text : Bytes
  pub file_path : Option Bytes
  pub globals : Globals
  pub daemon_flag : Bool
  pub eapol_flag : Bool
  pub verbose_flag : Bool

-- The program goes on with its globals, or the process ends with a status.
pub data Stage : Type 0 where
  goes_on : Program → Stage
  exits : ℕ → Stage

-- `sizeof(mode)`
abbrev pub mode_size : ℕ
mode_size = 10

-- `none` is the return value 1.
unfoldable pub copy_option_value : ℕ → Bytes → Option Bytes
copy_option_value dest_size source = if leb dest_size (length source) then none else some source

unfoldable pub duplicate_path_value : (Bytes → Realpath) → Bytes → Option Bytes
unfolding equal
duplicate_path_value realpath path = if equal path [] then none else elim (realpath path) [
  | resolved full ↦ some full
  | missing ↦ some path
  | unreadable ↦ none
]

-- The switch on one option.
unfoldable pub read_option : (Bytes → Realpath) → Argument → Program → Stage
unfolding equal copy_option_value duplicate_path_value
read_option realpath (mode optarg) p =
    if equal optarg (codes "dhcp") || equal optarg (codes "pppoe")
    then (elim (copy_option_value mode_size optarg) [
      | none ↦ exits 1
      | some text ↦ goes_on (record p { mode_text = text })
    ])
    else exits 1
read_option realpath (conf optarg) p = elim (duplicate_path_value realpath optarg) [
  | none ↦ exits 1
  | some path ↦ goes_on (record p { file_path = some path })
]
read_option realpath (bindip optarg) p = elim (copy_option_value text_size optarg) [
  | none ↦ exits 1
  | some text ↦ goes_on (record p { globals = record p.globals { bind_ip = text } })
]
read_option realpath (log optarg) p = elim (duplicate_path_value realpath optarg) [
  | none ↦ exits 1
  | some path ↦
      goes_on
        (record p { globals = record p.globals { log_path = some path; logging_flag = true } })
]
read_option realpath daemon p = goes_on (record p { daemon_flag = true })
read_option realpath eapol p = goes_on (record p { eapol_flag = true })
read_option realpath eternal p =
    goes_on (record p { globals = record p.globals { eternal_flag = true } })
read_option realpath verbose p = goes_on (record p { verbose_flag = true })
read_option realpath help p = exits 0
read_option realpath unknown p = exits 1

unfoldable pub read_options : (Bytes → Realpath) → List Argument → Program → Stage
unfolding read_option
read_options realpath [] p = goes_on p
read_options realpath (argument ∷ arguments) p = elim (read_option realpath argument p) [
  | goes_on q ↦ read_options realpath arguments q
  | exits status ↦ exits status
]

-- What is outside: the paths, the content of a file, and the calls of `daemonise`.
pub record Outside : Type 0 where
  pub realpath : Bytes → Realpath
  pub file : Bytes → Option Bytes
  pub calls : Calls

unfoldable pub daemonised : Outside → Program → Stage
daemonised outside p =
    if p.daemon_flag
    then (elim (daemonise outside.calls) [ none ↦ goes_on p | some status ↦ exits status ])
    else goes_on p

-- From the test of the options up to the signals.
unfoldable pub configured : Outside → Program → Stage
unfolding daemonised equal
configured outside p = elim p.file_path [
  | none ↦ exits 1
  | some file_path ↦ if equal p.mode_text [] then exits 1 else elim (daemonised outside p) [
    | exits status ↦ exits status
    | goes_on q ↦
        let (globals, status) = config_parse q.mode_text (outside.file file_path) q.globals in
        elim status [ failure ↦ exits 1 | success ↦ goes_on (record q { globals = globals }) ]
  ]
]

-- `bind_ip`, in front of the call of `dogcom`.
unfoldable pub with_bind_ip : Program → Program
unfolding equal
with_bind_ip p =
    if equal p.globals.bind_ip []
    then record p { globals = record p.globals { bind_ip = codes "0.0.0.0" } }
    else p

-- The result of the 802.1X login on the first interface that has one.
pub data Smart : Type 0 where
  logged_in rejected stuck : Eapol → Smart

module _ (digests : Digests) (interfaces : Bytes → Interface) where
  unfoldable pub login_on : Config → List Bytes → Eapol → Smart
  login_on config [] s = rejected s
  login_on config (ifname ∷ ifs) s =
      elim (eaplogin digests interfaces config.username config.password (setifname ifname s)) [
        | returned (pos zero) t ↦ logged_in t
        | returned (pos (suc status)) t ↦ login_on config ifs t
        | returned (negsuc status) t ↦ login_on config ifs t
        | overrun t ↦ stuck t
        | waits t ↦ stuck t
      ]

  unfoldable pub try_smart_eaplogin : Option (List Bytes) → Config → Eapol → Smart
  unfolding login_on
  try_smart_eaplogin net_dev config s =
      let (count, ifs) = getall_ifs net_dev 64 in
      elim count [ pos n ↦ login_on config ifs s | negsuc n ↦ rejected s ]

-- How `main` ends: with a status, with what `dogcom` returns, or in the 802.1X login for ever.
pub data Run : Type 0 where
  exited : ℕ → Run
  session : Program → Decision → Run
  hangs : Eapol → Run

-- What the call of `dogcom` finds outside: see Auth.Program.
pub record Network : Type 0 where
  pub stack : World → Bytes
  pub addr : Address
  pub rounds : ℕ
  pub attempts : ℕ
  pub system : System
  pub world : World

module _ (digests : Digests) (interfaces : Bytes → Interface) (net_dev : Option (List Bytes))
    (outside : Outside) (network : Network) where
  -- `dogcom(5)`
  unfoldable pub dogcom_5 : Program → Decision
  dogcom_5 p =
      dogcom digests network.stack network.addr network.rounds network.attempts network.system
        p.mode_text p.globals.eternal_flag p.globals.config 5 network.world

  unfoldable pub connect : Program → Run
  unfolding with_bind_ip
  connect p = let q = with_bind_ip p in session q (dogcom_5 q)

  unfoldable pub authorise : Eapol → Program → Run
  authorise s p =
      if p.eapol_flag
      then (elim (try_smart_eaplogin digests interfaces net_dev p.globals.config s) [
        | logged_in t ↦ connect p
        | rejected t ↦ exited 1
        | stuck t ↦ hangs t
      ])
      else connect p

  -- `argc == 1` is an empty list of options and of operands.
  unfoldable pub main : Bool → List Argument → Program → Eapol → Run
  main no_arguments arguments p s =
      if no_arguments then exited 1 else elim (read_options outside.realpath arguments p) [
        | exits status ↦ exited status
        | goes_on q ↦ elim (configured outside q) [
          | exits status ↦ exited status
          | goes_on r ↦ authorise s r
        ]
      ]
