-- ===== src/Udp.antt =====
-- drcom/src/keepalive.c: sending a packet and waiting for the reply that belongs to it.
--
-- The world outside is a state. `inbox` holds what the next calls of `recvfrom` give, in order; when
-- it is used up the network is silent and each call times out. `send_results` says whether the next
-- calls of `sendto` succeed (they do when it is used up), and `sent` collects the packets that were
-- sent, the newest first. `randoms` are the next values of `rand`, and `stops` says at which of the
-- next polls a signal has arrived. `slept` collects the seconds of the calls of `sleep`, the newest
-- first.
pub mod Laws
pub mod Retry
pub mod Served
pub mod Silence
pub mod Stop
use jlu_drcom.Base.{
  ℕ, zero, suc, ◌+◌, ◌-◌, ◌%◌, Bool, true, false, not, ◌&&◌, ◌||◌, Bytes, List, [], ◌∷◌, Option,
  none, some, length, take, get_or, ltb, leb, ◌==◌, if◌then◌else◌,
}

-- `sin_addr.s_addr` and `sin_port`.
pub record Address : Type 0 where
  pub host : ℕ
  pub port : ℕ

-- One call of `recvfrom`: it fails (a timeout or an error), or it gives a datagram.
pub data Incoming : Type 0 where
  timeout : Incoming
  datagram : Address → Bytes → Incoming

pub record World : Type 0 where
  pub inbox : List Incoming
  pub send_results : List Bool
  pub sent : List Bytes
  pub randoms : List ℕ
  pub stops : List Bool
  pub stop_requested : Bool
  pub slept : List ℕ

-- The size of every receive buffer; `recvfrom` drops what does not fit.
abbrev pub receive_size : ℕ
receive_size = 1024

-- `sendto`
unfoldable pub send : Bytes → World → Bool × World
send packet w = elim w.send_results [
  | [] ↦ (true, record w { sent = packet ∷ w.sent })
  | false ∷ more ↦ (false, record w { send_results = more })
  | true ∷ more ↦ (true, record w { send_results = more; sent = packet ∷ w.sent })
]

-- The expectations of a reply. `none` is `DRCOM_UDP_EXPECT_ANY`.
pub record Expected : Type 0 where
  pub first : Option ℕ
  pub alternate : Option ℕ
  pub second : Option ℕ
  pub third : Option ℕ
  pub fourth : Option ℕ
  pub sixth : Option ℕ
  pub minimum_length : ℕ

-- `value == (unsigned char)expected_byte`
abbrev byte_is : ℕ → ℕ → Bool
byte_is value expected = value == expected % 256

unfoldable pub expected_byte_matches : ℕ → Option ℕ → Option ℕ → Bool
expected_byte_matches value none alternate = true
expected_byte_matches value (some expected) none = byte_is value expected
expected_byte_matches value (some expected) (some other) =
    byte_is value expected || byte_is value other

-- The tests of one byte, at an index that the packet must have.
abbrev byte_expected : Bytes → ℕ → Option ℕ → Bool
byte_expected packet index none = true
byte_expected packet index (some expected) =
    ltb index (length packet) && byte_is (get_or packet index 0) expected

abbrev first_expected : Bytes → Option ℕ → Option ℕ → Bool
first_expected packet none alternate = true
first_expected packet (some expected) alternate =
    ltb 0 (length packet) && expected_byte_matches (get_or packet 0 0) (some expected) alternate

-- `packet` holds the bytes that were received. A minimum length of 0 asks for nothing.
unfoldable pub packet_matches_expected : Bytes → Expected → Bool
unfolding expected_byte_matches
packet_matches_expected packet e =
    leb e.minimum_length (length packet)
    && first_expected packet e.first e.alternate
    && byte_expected packet 1 e.second
    && byte_expected packet 2 e.third
    && byte_expected packet 3 e.fourth
    && byte_expected packet 5 e.sixth

unfoldable pub packet_source_matches : Address → Address → Bool
packet_source_matches expected from = expected.host == from.host && expected.port == from.port

-- The test on a datagram that was received.
unfoldable pub accepts : Address → Expected → Address → Bytes → Bool
accepts addr e from bytes = packet_source_matches addr from && packet_matches_expected bytes e

-- The loop of `drcom_udp_recv_expected_packet` over what arrives: the accepted datagram, if there is
-- one before the next failure, and what is left to arrive.
unfoldable pub receive_from : Address → Expected → List Incoming → Option Bytes × List Incoming
receive_from addr e [] = (none, [])
receive_from addr e (timeout ∷ more) = (none, more)
receive_from addr e (datagram from bytes ∷ more) =
    let later = receive_from addr e more in
    if accepts addr e from (take receive_size bytes)
    then (some (take receive_size bytes), more)
    else later

-- `none` is the result -1; `some` holds the bytes received, whose number is the result.
unfoldable pub udp_recv_expected_packet : Address → Expected → World → Option Bytes × World
unfolding receive_from
udp_recv_expected_packet addr e w =
    let (reply, more) = receive_from addr e w.inbox in (reply, record w { inbox = more })

abbrev pub udp_packet_retry_count : ℕ
udp_packet_retry_count = 3

-- The attempts that are left: each sends the packet and waits for the reply.
unfoldable pub send_recv_attempts : ℕ → Address → Bytes → Expected → World → Option Bytes × World
send_recv_attempts zero addr packet e w = (none, w)
send_recv_attempts (suc left) addr packet e w =
    let (delivered, w1) = send packet w in
    let (reply, w2) = udp_recv_expected_packet addr e w1 in
    let again = send_recv_attempts left addr packet e w2 in
    if not delivered
    then (none, w1)
    else elim reply [ some bytes ↦ (some bytes, w2) | none ↦ again ]

-- The expectations of `drcom_udp_send_recv_expected_with_retries`, which has no alternate byte.
unfoldable pub udp_send_recv_expected_with_retries :
    Address → Bytes → Expected → World → Option Bytes × World
udp_send_recv_expected_with_retries addr packet e w =
    send_recv_attempts (udp_packet_retry_count + 1) addr packet (record e { alternate = none }) w

abbrev pub expect_any : Expected
expect_any = record {
  first = none;
  alternate = none;
  second = none;
  third = none;
  fourth = none;
  sixth = none;
  minimum_length = 0;
}

-- Any reply from the right address.
unfoldable pub udp_send_recv_with_retries : Address → Bytes → World → Option Bytes × World
unfolding udp_send_recv_expected_with_retries
udp_send_recv_with_retries addr packet w =
    udp_send_recv_expected_with_retries addr packet expect_any w

-- `rand() & 0xff`
unfoldable pub random_byte : World → ℕ × World
random_byte w = elim w.randoms [ [] ↦ (0, w) | r ∷ more ↦ (r % 256, record w { randoms = more }) ]

-- `drcom_stop_requested`, after the signals that arrived since the last poll.
unfoldable pub poll_stop : World → Bool × World
poll_stop w = elim w.stops [
  | [] ↦ (w.stop_requested, w)
  | now ∷ more ↦
      (w.stop_requested || now, record w { stops = more; stop_requested = w.stop_requested || now })
]

-- `recvfrom` with no test of what arrives, as behind a login.
unfoldable pub recv_any : World → Option Bytes × World
recv_any w = elim w.inbox [
  | [] ↦ (none, w)
  | timeout ∷ more ↦ (none, record w { inbox = more })
  | datagram from bytes ∷ more ↦ (some (take receive_size bytes), record w { inbox = more })
]
