-- ===== src/Auth/Pppoe/Protocol.antt =====
-- What drcom/src/auth.c does in mode `pppoe`, as a protocol: in each round a challenge and a login, which
-- share one count, and the packets that keep the session alive.
pub mod Exchanges
pub mod Runs
pub mod Program
use jlu_drcom.Base.{ℕ, ◌+◌, ◌≡◌, Bool, true, Bytes, List, [], ◌∷◌, some, get_or, take, codes}
use jlu_drcom.Auth.Pppoe.{
  Challenge, challenge_of, filled, pppoe_challenge_packet, pppoe_login_packet, login_encrypt_type,
}
use jlu_drcom.Config.{Config}
use jlu_drcom.Keepalive.Second.{keepalive_2_packet}
use jlu_drcom.Packet.{Digests}
use jlu_drcom.RetryPolicy.{ExtraKind}
use jlu_drcom.Auth.Protocol.{Rest}
use jlu_drcom.Udp.{Address, Incoming, datagram, receive_size, World}

-- Each stage holds the number of the next packet that is counted, and the challenge that was read.
pub data Stage : Type 0 where
  between asked : ℕ → Stage
  challenged greeted logged : ℕ → Challenge → Stage

-- The configuration with the version that a challenge gives.
abbrev pub versioned : Config → Challenge → Config
versioned config c = record config { keep_alive_version = c.keep_alive_version }

abbrev pub type_of : Challenge → ℕ
type_of c = login_encrypt_type c.seed c.encrypt_mode

-- The first datagram of `inbox`, cut to the size of the buffer, with `rest` behind it.
pub record Received (inbox : List Incoming) (bytes : Bytes) (rest : List Incoming) : Type 0 where
  pub from : Address
  pub raw : Bytes
  pub order : inbox ≡ datagram from raw ∷ rest
  pub cut : bytes ≡ take receive_size raw

module _ (digests : Digests) (config : Config) (stack : World → Bytes) where
  -- The stage that a client can be in behind the packets that it has sent (the newest first), with what
  -- is still to arrive, from the world `start` on. `lossy` says that `sendto` may fail: the packet is
  -- counted then, and not sent. A reply is the next datagram, from whichever address, in the front of an
  -- array whose old contents `stack` gives.
  pub data Talk (lossy : Bool) (start : World) : Stage → List Bytes → List Incoming → Type 0 where
    begin : Talk lossy start (between 0) [] start.inbox
    ignore :
        {sent : List Bytes} {inbox rest : List Incoming} {p : Stage}
        → Talk lossy start p sent inbox
        → Rest inbox rest
        → Talk lossy start p sent rest
    ask :
        {sent : List Bytes} {inbox : List Incoming} {n : ℕ}
        → Talk lossy start (between n) sent inbox
        → Talk lossy start (asked (n + 1)) (pppoe_challenge_packet n ∷ sent) inbox
    ask_in_vain :
        {sent : List Bytes} {inbox : List Incoming} {n : ℕ}
        → Talk lossy start (between n) sent inbox
        → lossy ≡ true
        → Talk lossy start (asked (n + 1)) sent inbox
    get_nothing :
        {sent : List Bytes} {inbox : List Incoming} {n : ℕ}
        → Talk lossy start (asked n) sent inbox
        → Talk lossy start (between n) sent inbox
    be_challenged :
        {sent : List Bytes} {inbox rest : List Incoming} {n : ℕ} {c : Challenge} (v : World)
        (bytes : Bytes)
        → Talk lossy start (asked n) sent inbox
        → Received inbox bytes rest
        → challenge_of (filled (stack v) bytes) ≡ some c
        → Talk lossy start (challenged n c) sent rest
    greet :
        {sent : List Bytes} {inbox : List Incoming} {n : ℕ} {c : Challenge} (login_first : Bool)
        → Talk lossy start (challenged n c) sent inbox
        → Talk lossy start
            (greeted (n + 1) c)
            (pppoe_login_packet digests (versioned config c) n c.seed c.sip login_first (type_of c)
              ∷ sent)
            inbox
    greet_in_vain :
        {sent : List Bytes} {inbox : List Incoming} {n : ℕ} {c : Challenge}
        → Talk lossy start (challenged n c) sent inbox
        → lossy ≡ true
        → Talk lossy start (greeted (n + 1) c) sent inbox
    be_refused :
        {sent : List Bytes} {inbox : List Incoming} {n : ℕ} {c : Challenge}
        → Talk lossy start (greeted n c) sent inbox
        → Talk lossy start (between n) sent inbox
    be_accepted :
        {sent : List Bytes} {inbox rest : List Incoming} {n : ℕ} {c : Challenge} (v : World)
        (bytes : Bytes)
        → Talk lossy start (greeted n c) sent inbox
        → Received inbox bytes rest
        → get_or (filled (stack v) bytes) 0 0 ≡ 0x07
        → Talk lossy start (logged n c) sent rest
    keep_alive :
        {sent : List Bytes} {inbox : List Incoming} {n : ℕ} {c : Challenge} (m : ℕ)
        (kind : ExtraKind) (type : ℕ) (tail : List (ℕ × Bytes))
        → Talk lossy start (logged n c) sent inbox
        → Talk lossy start
            (logged n c)
            (keepalive_2_packet digests
                (codes "pppoe")
                (versioned config c)
                m
                kind
                type
                (type_of c)
                tail
              ∷ sent)
            inbox
    leave :
        {sent : List Bytes} {inbox : List Incoming} {n : ℕ} {c : Challenge}
        → Talk lossy start (logged n c) sent inbox
        → Talk lossy start (between n) sent inbox
