-- ===== src/Tests/Exchanges.antt =====
-- Runs of Udp and of the exchanges of Keepalive.
use jlu_drcom.Base.{ℕ, ◌≤◌, ◌≡◌, ◌↔◌, refl, Bytes, [], ◌∷◌, ◌++◌, none, some, replicate}
use jlu_drcom.Keepalive.First.{keepalive_1_loop}
use jlu_drcom.Keepalive.First.Laws.{keepalive_1_loop_rounds}
use jlu_drcom.Udp.{
  Address, World, Incoming, timeout, datagram, Expected, expect_any, accepts, receive_from,
  udp_send_recv_expected_with_retries,
}
use jlu_drcom.Udp.Laws.{Delivery, receive_from-iff-Delivery}
use jlu_drcom.Udp.Retry.{
  udp_send_recv_expected_with_retries_copies, udp_send_recv_expected_with_retries_silent,
}
use jlu_drcom.Tests.Data.{server_address, stranger, still, receiving}

-- A reply to a challenge, and the same bytes from elsewhere.
abbrev reply : Bytes
reply = 0x02 ∷ 0x02 ∷ 0x07 ∷ 0x2c ∷ 0x11 ∷ 0x22 ∷ 0x33 ∷ 0x44 ∷ []

abbrev awaited : Expected
awaited = record expect_any { first = some 0x02; minimum_length = 8 }

receive_from-iff-Delivery_example :
    (receive_from server_address awaited
        (datagram stranger reply ∷ datagram server_address reply ∷ timeout ∷ [])
      ≡ (some reply, timeout ∷ []))
    ↔ Delivery server_address awaited
        (datagram stranger reply ∷ datagram server_address reply ∷ timeout ∷ [])
        reply
        (timeout ∷ [])
receive_from-iff-Delivery_example =
    receive_from-iff-Delivery server_address awaited
      (datagram stranger reply ∷ datagram server_address reply ∷ timeout ∷ []) reply (timeout ∷ [])

received :
    receive_from server_address awaited
      (datagram stranger reply ∷ datagram server_address reply ∷ timeout ∷ [])
    ≡ (some reply, timeout ∷ [])
unfolding receive_from accepts jlu_drcom.Udp.packet_source_matches
    jlu_drcom.Udp.packet_matches_expected
received = refl

udp_send_recv_expected_with_retries_copies_example :
    (k : ℕ) × (k ≤ 4)
    × ((udp_send_recv_expected_with_retries server_address
          (1 ∷ [])
          awaited
          (receiving (timeout ∷ datagram server_address reply ∷ []))).1.sent
        ≡ replicate k (1 ∷ []) ++ [])
udp_send_recv_expected_with_retries_copies_example =
    udp_send_recv_expected_with_retries_copies server_address (1 ∷ []) awaited
      (receiving (timeout ∷ datagram server_address reply ∷ []))

replied :
    (udp_send_recv_expected_with_retries server_address
      (1 ∷ [])
      awaited
      (receiving (timeout ∷ datagram server_address reply ∷ []))).0
    ≡ some reply
unfolding udp_send_recv_expected_with_retries jlu_drcom.Udp.send_recv_attempts jlu_drcom.Udp.send
    jlu_drcom.Udp.udp_recv_expected_packet accepts jlu_drcom.Udp.packet_source_matches
    jlu_drcom.Udp.packet_matches_expected
replied = refl

udp_send_recv_expected_with_retries_silent_example :
    ((udp_send_recv_expected_with_retries server_address (1 ∷ []) awaited still).0 ≡ none)
    × ((udp_send_recv_expected_with_retries server_address (1 ∷ []) awaited still).1.sent
        ≡ replicate 4 (1 ∷ []) ++ [])
udp_send_recv_expected_with_retries_silent_example =
    udp_send_recv_expected_with_retries_silent server_address (1 ∷ []) awaited still refl refl

keepalive_1_loop_rounds_example :
    keepalive_1_loop 9 server_address
      (1 ∷ [])
      1
      (receiving (datagram server_address (0x4d ∷ []) ∷ []))
    ≡ keepalive_1_loop 1 server_address
        (1 ∷ [])
        1
        (receiving (datagram server_address (0x4d ∷ []) ∷ []))
keepalive_1_loop_rounds_example =
    keepalive_1_loop_rounds 8 server_address (1 ∷ []) 1
      (receiving (datagram server_address (0x4d ∷ []) ∷ []))
