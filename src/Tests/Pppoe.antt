-- ===== src/Tests/Pppoe.antt =====
-- Runs of Auth.Pppoe and Auth.Program.
use jlu_drcom.Auth.Delay.{seconds}
use jlu_drcom.Auth.Dogcom.{ended}
use jlu_drcom.Auth.Pppoe.{
  Challenge, pppoe_challenge, pppoe_challenge_packet, pppoe_login_packet, pppoe_checksum,
}
use jlu_drcom.Auth.Pppoe.Layout.{IsPppoeLogin, pppoe_login_packet-IsPppoeLogin}
use jlu_drcom.Auth.Pppoe.Loop.{Pppoe, pppoe_loop}
use jlu_drcom.Auth.Pppoe.Loop.Laws.{challenges, pppoe_loop_silent}
use jlu_drcom.Auth.Pppoe.Replies.{pppoe_challenge-stale}
use jlu_drcom.Auth.Program.{System, dogcom}
use jlu_drcom.Auth.Dogcom.Exit.{IsExit}
use jlu_drcom.Auth.Program.Exit.{dogcom-IsExit}
use jlu_drcom.Base.{
  ◌-◌, ◌≡◌, refl, true, false, Bytes, [], ◌∷◌, ◌++◌, some, slice, replicate, zeros, codes, arith,
  ◌+◌,
}
use jlu_drcom.Packet.{built}
use jlu_drcom.Tests.Data.{flat_digests, campus, server_address, stranger, still, receiving}
use jlu_drcom.Tests.Sessions.{still-Quiet}
use jlu_drcom.Udp.{World, send, datagram}

pppoe_login_packet-IsPppoeLogin_example :
    IsPppoeLogin flat_digests campus 300
      (1 ∷ 2 ∷ 3 ∷ 4 ∷ [])
      (10 ∷ 0 ∷ 0 ∷ 1 ∷ [])
      0x62
      0
      (pppoe_login_packet flat_digests campus 300 (1 ∷ 2 ∷ 3 ∷ 4 ∷ []) (10 ∷ 0 ∷ 0 ∷ 1 ∷ []) true 0)
pppoe_login_packet-IsPppoeLogin_example =
    pppoe_login_packet-IsPppoeLogin flat_digests campus 300 (1 ∷ 2 ∷ 3 ∷ 4 ∷ [])
      (10 ∷ 0 ∷ 0 ∷ 1 ∷ []) true 0 refl refl

-- The checksum of a word alone.
checksum_of_one : pppoe_checksum (1 ∷ zeros 31) ≡ 0x7e ∷ 0x4b ∷ 0x2c ∷ 0x01 ∷ []
unfolding pppoe_checksum jlu_drcom.Auth.Pppoe.xor_masked jlu_drcom.Auth.Pppoe.word
    jlu_drcom.Packet.Login.Parts.little_endian
checksum_of_one = refl

abbrev pub garbage : World → Bytes
garbage w = replicate 1024 0xee

abbrev lonely_byte : World
lonely_byte = receiving (datagram stranger (0x07 ∷ []) ∷ [])

pppoe_challenge-stale_example :
    (c : Challenge) × ((pppoe_challenge garbage 0 lonely_byte).0 ≡ some c)
    × (c.seed ≡ slice 8 4 (garbage (send (pppoe_challenge_packet 0) lonely_byte).1))
    × (c.sip ≡ slice 12 4 (garbage (send (pppoe_challenge_packet 0) lonely_byte).1))
    × (c.keep_alive_version ≡ slice 28 2 (garbage (send (pppoe_challenge_packet 0) lonely_byte).1))
pppoe_challenge-stale_example =
    pppoe_challenge-stale garbage 0 lonely_byte stranger (0x07 ∷ []) [] refl (omega arith)
      (omega arith) refl refl

abbrev starting : Pppoe
starting = record {
  pppoe_counter = 0;
  keepalive_counter = 0;
  login_first = true;
  first = true;
  encrypt_mode = false;
  encrypt_type = 0;
  try_counter = 0;
  config = campus;
  world = still;
}

pppoe_loop_silent_example :
    (w : World) × (pppoe_loop flat_digests garbage server_address false 5 6 starting
      ≡ ended 1 (built w))
    × (w.slept ≡ replicate (5 - (0 + 1)) 5 ++ [])
    × (w.sent ≡ challenges 5 0 [])
pppoe_loop_silent_example =
    pppoe_loop_silent flat_digests garbage server_address 5 6 starting still-Quiet (omega arith)

abbrev interrupted : World
interrupted = record still { stop_requested = true }

abbrev pub ready : System
ready = record {
  socket_created = true;
  socket_bound = true;
  timeout_set = true;
  uptime = seconds false 20;
}

dogcom-IsExit_example : IsExit (
    dogcom flat_digests garbage server_address 3 3 ready (codes "pppoe") false campus 5 interrupted)
dogcom-IsExit_example =
    dogcom-IsExit flat_digests garbage server_address 3 3 ready (codes "pppoe") false campus 5
      interrupted

-- A challenge and a login are answered, the keepalive exchange is not; then a stop is requested.
abbrev short_stay : World
short_stay =
    record (receiving (
      datagram server_address (0x07 ∷ 0x01 ∷ 0x00 ∷ 0x00 ∷ 0x00 ∷ 0x00 ∷ [])
      ∷ datagram server_address (0x07 ∷ 0x04 ∷ [])
      ∷ [])) { stops = false ∷ false ∷ true ∷ [] }
