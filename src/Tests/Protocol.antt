-- ===== src/Tests/Protocol.antt =====
-- A run of `dogcom` in mode `dhcp`, from the challenge to the logout.
use jlu_drcom.Auth.Dogcom.{attempt, session, is_jlu}
use jlu_drcom.Auth.Dogcom.Welcome.{working, attempt-session}
use jlu_drcom.Auth.Exchange.{challenge_packet, challenge_expected, login_expected}
use jlu_drcom.Auth.Program.{dogcom}
use jlu_drcom.Auth.Protocol.Program.{dogcom-Obeys}
use jlu_drcom.Auth.Protocol.Runs.{Obeys}
use jlu_drcom.Base.{
  refl, inr, true, false, [], ◌∷◌, codes, arith, pos, slice, length, Bytes, List, ◌≡◌,
}
use jlu_drcom.Packet.{built}
use jlu_drcom.Packet.Login.{build_login_packet}
use jlu_drcom.Packet.Login.Total.{build_login_packet-built}
use jlu_drcom.Packet.Size.{dhcp_login_packet_size}
use jlu_drcom.RetryPolicy.{login_template_for_attempt}
use jlu_drcom.Tests.Data.{campus-Fits, stranger, flat_digests, campus, server_address, receiving}
use jlu_drcom.Tests.Packets.{host_read, dns_read, server_read}
use jlu_drcom.Tests.Pppoe.{ready, garbage}
use jlu_drcom.Tests.Sessions.{welcome}
use jlu_drcom.Udp.{
  receive_from, accepts, packet_source_matches, packet_matches_expected, Incoming, World, datagram,
  timeout,
}
use jlu_drcom.Udp.Laws.{Delivery, receive_from-iff-Delivery}

-- The server answers the challenge, the login and the logout; a stop is requested behind the login.
abbrev visit : World
visit =
    record (receiving (
      datagram server_address (0x02 ∷ 0x02 ∷ 0x00 ∷ 0x00 ∷ 0x11 ∷ 0x22 ∷ 0x33 ∷ 0x44 ∷ [])
      ∷ datagram server_address welcome
      ∷ timeout
      ∷ datagram server_address (0x02 ∷ 0x03 ∷ 0x00 ∷ 0x00 ∷ 0x55 ∷ 0x66 ∷ 0x77 ∷ 0x88 ∷ [])
      ∷ datagram server_address (0x04 ∷ [])
      ∷ [])) { stops = false ∷ false ∷ true ∷ []; randoms = [] }

dogcom-Obeys_example :
    Obeys flat_digests campus server_address false visit
      (dogcom flat_digests garbage server_address 3 3 ready (codes "dhcp") false campus 5 visit)
dogcom-Obeys_example =
    dogcom-Obeys flat_digests garbage server_address 3 3 ready false campus 5 false visit refl
      (inr refl)

-- The same server, with a stray datagram in front of each reply.
abbrev pub challenge_reply : Bytes
challenge_reply = 0x02 ∷ 0x02 ∷ 0x07 ∷ 0x2c ∷ 0x11 ∷ 0x22 ∷ 0x33 ∷ 0x44 ∷ []

abbrev between : List Incoming
between = datagram server_address (0x4d ∷ []) ∷ datagram server_address welcome ∷ []

abbrev crowded : List Incoming
crowded = datagram stranger challenge_reply ∷ datagram server_address challenge_reply ∷ between

challenge_delivered :
    Delivery server_address (challenge_expected 2 7 44) crowded challenge_reply between
unfolding receive_from accepts packet_source_matches packet_matches_expected
challenge_delivered =
    (receive_from-iff-Delivery server_address (challenge_expected 2 7 44) crowded challenge_reply
        between).0
      refl

welcome_delivered : Delivery server_address login_expected between welcome []
unfolding receive_from accepts packet_source_matches packet_matches_expected
welcome_delivered =
    (receive_from-iff-Delivery server_address login_expected between welcome []).0 refl

pub first_login_built :
    (packet : Bytes) × (build_login_packet flat_digests campus
        (0x11 ∷ 0x22 ∷ 0x33 ∷ 0x44 ∷ [])
        (is_jlu (login_template_for_attempt false (pos 0)))
      ≡ built packet)
    × (length packet
        ≡ dhcp_login_packet_size 6 true (is_jlu (login_template_for_attempt false (pos 0))))
first_login_built =
    build_login_packet-built flat_digests campus (0x11 ∷ 0x22 ∷ 0x33 ∷ 0x44 ∷ [])
      (is_jlu (login_template_for_attempt false (pos 0))) campus-Fits host_read dns_read server_read
      (λ ror. omega arith)

attempt-session_example :
    attempt flat_digests campus server_address 3 (record {
      login_failed_attempts = 0;
      retry_delay = pos 60;
      outside = working crowded [] (7 ∷ 300 ∷ []) (false ∷ []) [];
    })
    ≡ session flat_digests campus server_address 3
        (0x11 ∷ 0x22 ∷ 0x33 ∷ 0x44 ∷ [])
        (slice 23 16 welcome)
        (working [] (first_login_built.0 ∷ challenge_packet campus 2 7 44 ∷ []) [] [] [])
attempt-session_example =
    attempt-session flat_digests campus server_address 3 7 300 0 [] [] [] [] (pos 60)
      challenge_reply welcome first_login_built.0 first_login_built.1 challenge_delivered
      welcome_delivered refl (omega arith)
