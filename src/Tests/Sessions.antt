-- ===== src/Tests/Sessions.antt =====
-- Runs of Auth.
use jlu_drcom.Auth.Dogcom.{Attempts, ended, dogcom_dhcp}
use jlu_drcom.Auth.Dogcom.Laws.{dogcom_dhcp_silent}
use jlu_drcom.Base.{
  List, ◌-◌, ◌≤◌, ◌≡◌, refl, true, false, Bytes, [], ◌∷◌, ◌++◌, length, codes, arith, replicate,
  zeros, get_or, slice, pos,
}
use jlu_drcom.Packet.{built}
use jlu_drcom.Packet.Login.{build_login_packet}
use jlu_drcom.Packet.Login.Total.{build_login_packet-built}
use jlu_drcom.Packet.Size.{dhcp_login_packet_size}
use jlu_drcom.Tests.Packets.{host_read, dns_read, server_read}
use jlu_drcom.Auth.Delay.{extract_retry_after_seconds}
use jlu_drcom.Auth.Delay.Laws.{extract_retry_after_seconds-show_decimal, IsProse}
use jlu_drcom.Auth.Exchange.{dhcp_login, accepted, login_expected, logout_before_stop_exit}
use jlu_drcom.Auth.Exchange.Laws.{dhcp_login-accepted, logout_before_stop_exit-built}
use jlu_drcom.Auth.Session.{Session, reconnect, keepalive_loop}
use jlu_drcom.Auth.Session.Laws.{keepalive_loop_silent}
use jlu_drcom.Ctype.{is_digit}
use jlu_drcom.Ctype.Decimal.{show_decimal}
use jlu_drcom.Udp.Laws.{Delivery}
use jlu_drcom.Udp.{
  Address, World, Incoming, timeout, datagram, Expected, expect_any, accepts, receive_from,
  udp_send_recv_expected_with_retries,
}
use jlu_drcom.Udp.Silence.{Quiet}
use jlu_drcom.Tests.Data.{flat_digests, campus, campus-Fits, server_address, still, receiving}

wait_IsProse : IsProse (codes "wait ")
unfolding IsProse is_digit
wait_IsProse = (
  refl,
  omega arith,
  (refl, omega arith, (refl, omega arith, (refl, omega arith, (refl, omega arith, tt)))),
)

extract_retry_after_seconds-show_decimal_example :
    extract_retry_after_seconds
      (zeros 20 ++ (codes "wait " ++ show_decimal 120 (replicate 1 0x20 ++ codes "seconds")))
    ≡ 120
extract_retry_after_seconds-show_decimal_example =
    extract_retry_after_seconds-show_decimal (zeros 20) (codes "wait ") 120 1 (codes "econds") refl
      wait_IsProse (omega arith) (omega arith)

logout_before_stop_exit-built_example :
    (w1 : World) × (logout_before_stop_exit flat_digests campus server_address
        (replicate 16 0x44)
        still
      ≡ built w1)
logout_before_stop_exit-built_example =
    logout_before_stop_exit-built flat_digests campus server_address campus-Fits (replicate 16 0x44)
      refl still

pub still-Quiet : Quiet still
still-Quiet = record {
  nothing_arrives = refl;
  sending_works = refl;
  no_signal = refl;
  not_stopped = refl;
}

abbrev losing : Session
losing = record {
  keepalive_counter = 9;
  keepalive_try_counter = pos 2;
  keepalive_rounds = 3;
  delay = pos 60;
  world = still;
}

keepalive_loop_silent_example :
    (last : Session) × (keepalive_loop flat_digests campus server_address 4
        (zeros 4)
        (zeros 16)
        losing
      ≡ reconnect last)
    × (last.delay ≡ pos 60)
    × (last.keepalive_try_counter ≡ pos 6)
keepalive_loop_silent_example =
    keepalive_loop_silent flat_digests campus server_address (zeros 4) (zeros 16) 4 2 losing
      still-Quiet refl (omega arith) (omega arith)

-- The login packet of the sample configuration.
login_built :
    (packet : Bytes) × (build_login_packet flat_digests campus (zeros 4) false ≡ built packet)
    × (length packet ≡ dhcp_login_packet_size 6 true false)
login_built =
    build_login_packet-built flat_digests campus (zeros 4) false campus-Fits host_read dns_read
      server_read (λ ror. omega arith)

abbrev greeting : Bytes
greeting = replicate 16 0x44

abbrev pub welcome : Bytes
welcome = 0x04 ∷ (zeros 22 ++ replicate 16 0x44)

abbrev welcoming : World
welcoming = receiving (datagram server_address welcome ∷ [])

logged_in :
    (dhcp_login flat_digests campus server_address (zeros 4) false (pos 60) welcoming).0
    ≡ accepted (replicate 16 0x44)
unfolding dhcp_login jlu_drcom.Udp.send jlu_drcom.Udp.udp_recv_expected_packet accepts
    jlu_drcom.Udp.packet_source_matches jlu_drcom.Udp.packet_matches_expected
logged_in = rw (dhcp_login, login_built.1) refl

dhcp_login-accepted_example :
    (recv_packet : Bytes) × (rest : List Incoming) × (d : Delivery server_address login_expected
      welcoming.inbox recv_packet rest)
    × (d.from ≡ server_address)
    × (get_or recv_packet 0 0 ≡ 0x04)
    × (39 ≤ length recv_packet)
    × (greeting ≡ slice 23 16 recv_packet)
    × (length greeting ≡ 16)
dhcp_login-accepted_example =
    dhcp_login-accepted flat_digests campus server_address (zeros 4) false (pos 60) welcoming
      login_built.0 (replicate 16 0x44) login_built.1 logged_in

abbrev begun : Attempts
begun = record { login_failed_attempts = 0; retry_delay = pos 60; outside = still }

dogcom_dhcp_silent_example :
    (w : World) × (dogcom_dhcp flat_digests campus server_address 9 6 false 5 0 begun
      ≡ ended 1 (built w))
    × (w.slept ≡ replicate (5 - 0) 60 ++ [])
dogcom_dhcp_silent_example =
    dogcom_dhcp_silent flat_digests campus server_address 9 6 5 0 begun still-Quiet (omega arith)
