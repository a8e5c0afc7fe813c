-- ===== src/Tests/Start.antt =====
-- A run of Main.
use jlu_drcom.Auth.Dogcom.Exit.{IsExit}
use jlu_drcom.Log.{Tm, time_stamp, logging}
use jlu_drcom.Log.Laws.{logging-one_line}
use jlu_drcom.Ctype.Decimal.{NoBreak}
use jlu_drcom.Config.Values.{scan_pairs}
use jlu_drcom.Base.{
  Bytes, ◌++◌, take, arith, ◌≡◌, ◌⊎◌, refl, true, false, [], ◌∷◌, none, some, codes, List,
}
use jlu_drcom.Config.Parse.{config_parse}
use jlu_drcom.Config.Reader.Bounds.{GlobalsFit}
use jlu_drcom.Daemon.{signal_handler, sigterm, sighup, spid, pid_file_after, Calls, child}
use jlu_drcom.Eapol.{Eapol}
use jlu_drcom.Main.{
  Program, Argument, mode, conf, bindip, verbose, Outside, resolved, Network, main, session,
  with_bind_ip, dogcom_5, try_smart_eaplogin, logged_in, read_options, configured, authorise,
  connect, goes_on,
}
use jlu_drcom.Main.Laws.{main-session}
use jlu_drcom.Tests.Access.{one_interface, plugged_in, net_dev}
use jlu_drcom.Tests.Data.{flat_digests, fresh, server_address, still}
use jlu_drcom.Tests.Parsing.{settings, settings_succeed}
use jlu_drcom.Tests.Pppoe.{ready, garbage}

abbrev all_good : Calls
all_good = record {
  first_fork = child;
  has_session = true;
  second_fork = child;
  pid_file_opened = true;
  pid_file_locked = true;
}

abbrev disk : Outside
disk = record { realpath = λ path. resolved path; file = λ path. some settings; calls = all_good }

abbrev wire : Network
wire = record {
  stack = garbage;
  addr = server_address;
  rounds = 3;
  attempts = 3;
  system = ready;
  world = still;
}

-- The globals before the options are read, and behind them.
abbrev zeroed : Program
zeroed = record {
  mode_text = [];
  file_path = none;
  globals = record fresh { bind_ip = [] };
  daemon_flag = false;
  eapol_flag = false;
  verbose_flag = false;
}

abbrev chosen : Program
chosen = record zeroed {
  mode_text = codes "dhcp";
  file_path = some (codes "/etc/drcom.conf");
  globals = fresh;
  verbose_flag = true;
}

abbrev arguments : List Argument
arguments =
    mode (codes "dhcp") ∷ conf (codes "/etc/drcom.conf") ∷ bindip (codes "0.0.0.0") ∷ verbose ∷ []

abbrev begun : Program
begun =
    with_bind_ip (record chosen { globals = (config_parse (codes "dhcp") (some settings) fresh).0 })

options_read : read_options disk.realpath arguments zeroed ≡ goes_on chosen
unfolding read_options
options_read = refl

file_read :
    configured disk chosen
    ≡ goes_on (record chosen { globals = (config_parse (codes "dhcp") (some settings) fresh).0 })
unfolding configured
file_read = rw (configured, settings_succeed)

starts :
    main flat_digests one_interface (some net_dev) disk wire false arguments zeroed plugged_in
    ≡ session begun (dogcom_5 flat_digests one_interface (some net_dev) disk wire begun)
unfolding main authorise connect
starts = rw (main, options_read, file_read)

main-session_example :
    ((begun.mode_text ≡ codes "dhcp") ⊎ (begun.mode_text ≡ codes "pppoe"))
    × GlobalsFit begun.globals
    × (dogcom_5 flat_digests one_interface (some net_dev) disk wire begun
        ≡ dogcom_5 flat_digests one_interface (some net_dev) disk wire begun)
    × IsExit (dogcom_5 flat_digests one_interface (some net_dev) disk wire begun)
    × ((begun.eapol_flag ≡ false)
        ⊎ ((t : Eapol) × (try_smart_eaplogin flat_digests one_interface
                (some net_dev)
                begun.globals.config
                plugged_in
              ≡ logged_in t)))
main-session_example =
    main-session flat_digests one_interface (some net_dev) disk wire false arguments zeroed
      plugged_in begun (dogcom_5 flat_digests one_interface (some net_dev) disk wire begun) refl
      refl starts

-- A shorter process id leaves the end of an older one in the file.
pid_written : spid 77 ≡ some (codes "77\n")
unfolding spid jlu_drcom.Ctype.Decimal.show_decimal
pid_written = refl

pid_kept : pid_file_after (codes "12345\n") (codes "77\n") ≡ codes "77\n45\n"
unfolding pid_file_after
pid_kept = refl

abbrev wednesday : Tm
wednesday = record {
  tm_year = 126;
  tm_mon = 10;
  tm_mday = 25;
  tm_wday = 3;
  tm_hour = 9;
  tm_min = 5;
  tm_sec = 30;
}

logging-one_line_example :
    (digits : Bytes) × (logging
        (some (codes "/tmp/log"))
        true
        (some wednesday)
        (some (codes "[login recv] "))
        (0x04 ∷ 0xff ∷ [])
        2
        (some (codes "old\n"))
      ≡ some (
          codes "old\n"
          ++ ((time_stamp wednesday ++ (codes "[login recv] " ++ digits)) ++ b'\n' ∷ [])))
    × NoBreak (time_stamp wednesday ++ (codes "[login recv] " ++ digits))
    × (scan_pairs digits ≡ take 2 (0x04 ∷ 0xff ∷ []))
logging-one_line_example =
    logging-one_line (codes "/tmp/log") (codes "[login recv] ") (0x04 ∷ 0xff ∷ []) wednesday 2
      (some (codes "old\n")) (omega arith) (omega arith)

stamped : time_stamp wednesday ≡ codes "[2026/11/25 Wed 09:05:30] "
unfolding time_stamp jlu_drcom.Ctype.Decimal.show_decimal
stamped = refl

-- The handler removes the pid file on SIGTERM only.
terminated :
    signal_handler sigterm (record { handle_open = true; pid_file = some (codes "77\n") })
    ≡ (some 0, record { handle_open = false; pid_file = none })
unfolding signal_handler
terminated = refl

hung_up :
    signal_handler sighup (record { handle_open = true; pid_file = some (codes "77\n") })
    ≡ (none, record { handle_open = true; pid_file = some (codes "77\n") })
unfolding signal_handler
hung_up = refl
