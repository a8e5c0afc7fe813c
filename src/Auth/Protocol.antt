-- ===== src/Auth/Protocol.antt =====
-- What drcom/src/auth.c and keepalive.c do in mode `dhcp`, as a protocol: the phases of a client and
-- the packets that it may send in each, with the replies that lead from one to the next.
pub mod Sending
pub mod Counting
pub mod Online
pub mod Sessions
pub mod Runs
pub mod Program
use jlu_drcom.Base.{
  ℕ, ◌≤◌, ◌<◌, ◌≡◌, ◌⊎◌, Bool, true, Bytes, List, [], ◌∷◌, ◌++◌, Option, none, some, length, get_or,
  slice,
}
use jlu_drcom.Config.{Config}
use jlu_drcom.Packet.{Digests, built}
use jlu_drcom.Packet.Login.{build_login_packet}
use jlu_drcom.Packet.Logout.{build_dhcp_logout_packet}
use jlu_drcom.RetryPolicy.{ExtraKind}
use jlu_drcom.Auth.Exchange.{challenge_packet, challenge_expected, login_expected}
use jlu_drcom.Keepalive.First.{keepalive_1_response, keepalive_1_packet}
use jlu_drcom.Keepalive.Second.{keepalive_2_packet}
use jlu_drcom.Udp.{Address, Incoming, World, receive_from}
use jlu_drcom.Udp.Laws.{Delivery}

-- `asking` and `leaving` hold the numbers of the challenge; `challenged`, `greeting` and `online` the
-- seed of the session; `online` and what follows it the authentication data of its login; `dismissed`
-- the seed of the logout; `gone` the logout packet.
pub data Phase : Type 0 where
  idle : Phase
  asking : ℕ → ℕ → Phase
  challenged greeting : Bytes → Phase
  online : Bytes → Bytes → Phase
  closing : Bytes → Phase
  leaving : Bytes → ℕ → ℕ → Phase
  dismissed : Bytes → Bytes → Phase
  gone : Bytes → Phase

-- The phases behind which the client may begin anew at once: no login has been sent.
abbrev pub MayGiveUp : Phase → Type 0
MayGiveUp (asking r1 r2) = Unit
MayGiveUp (challenged seed) = Unit
MayGiveUp _ = ⊥

-- The phases in which the client may end: idle, or behind the start of a logout.
abbrev pub MayEnd : Phase → Type 0
MayEnd (asking r1 r2) = ⊥
MayEnd (challenged seed) = ⊥
MayEnd (greeting seed) = ⊥
MayEnd (online seed i) = ⊥
MayEnd _ = Unit

-- The phases in which datagrams may be left unread: all but the one that waits for the reply to a login.
abbrev pub MayIgnore : Phase → Type 0
MayIgnore (greeting seed) = ⊥
MayIgnore _ = Unit

-- `rest` is what is left of `inbox`.
pub record Rest (inbox rest : List Incoming) : Type 0 where
  pub taken : List Incoming
  pub order : inbox ≡ taken ++ rest

-- A reply, or none, that does not accept a login.
abbrev pub Refuses : Option Bytes → Type 0
Refuses none = Unit
Refuses (some reply) = get_or reply 0 0 ≡ 0x04 → length reply < 39

module _ (digests : Digests) (config : Config) (addr : Address) where
  -- The packets that keep a session with this seed and these authentication data alive.
  pub data KeepsAlive (seed information : Bytes) (packet : Bytes) : Type 0 where
    asks :
        packet ≡ 0x07 ∷ 0x01 ∷ 0x08 ∷ 0x00 ∷ 0x01 ∷ 0x00 ∷ 0x00 ∷ 0x00 ∷ []
        → KeepsAlive seed information packet
    responds :
        (seed1 : Bytes) (r1 r2 : ℕ)
        → packet ≡ keepalive_1_response digests config seed1 information r1 r2
        → KeepsAlive seed information packet
    tells :
        (r1 r2 : ℕ)
        → packet ≡ keepalive_1_packet digests config seed information r1 r2
        → KeepsAlive seed information packet
    counts :
        (mode : Bytes) (n : ℕ) (kind : ExtraKind) (type encrypt_type : ℕ) (tail : List (ℕ × Bytes))
        → packet ≡ keepalive_2_packet digests mode config n kind type encrypt_type tail
        → KeepsAlive seed information packet

  -- The phase that a client can be in behind the packets that it has sent (the newest first), with
  -- what is still to arrive, and the seconds that it has slept (the newest first), from the world `start` on. `lossy` says that
  -- `sendto` may fail: the client goes on behind a login packet that it could not send, and may end where
  -- the first packet of the logout cannot be sent. A reply is the first datagram left that passes the
  -- tests. An open session is left by a logout, or given up with a pause of a minute.
  pub data Dialogue (lossy : Bool) (start : World)
      : Phase → List Bytes → List Incoming → List ℕ → Type 0 where
    begin : Dialogue lossy start idle [] start.inbox start.slept
    ignore :
        {sent : List Bytes} {inbox rest : List Incoming} {slept : List ℕ} {p : Phase}
        → Dialogue lossy start p sent inbox slept
        → MayIgnore p
        → Rest inbox rest
        → Dialogue lossy start p sent rest slept
    pause :
        {sent : List Bytes} {inbox : List Incoming} {slept : List ℕ} (seconds : ℕ)
        → Dialogue lossy start idle sent inbox slept
        → Dialogue lossy start idle sent inbox (seconds ∷ slept)
    ask :
        {sent : List Bytes} {inbox : List Incoming} {slept : List ℕ} (r1 r2 : ℕ)
        → Dialogue lossy start idle sent inbox slept
        → Dialogue lossy start (asking r1 r2) (challenge_packet config 2 r1 r2 ∷ sent) inbox slept
    ask_again :
        {sent : List Bytes} {inbox : List Incoming} {slept : List ℕ} {r1 r2 : ℕ}
        → Dialogue lossy start (asking r1 r2) sent inbox slept
        → Dialogue lossy start (asking r1 r2) (challenge_packet config 2 r1 r2 ∷ sent) inbox slept
    be_challenged :
        {sent : List Bytes} {inbox rest : List Incoming} {slept : List ℕ} {r1 r2 : ℕ}
        (reply : Bytes)
        → Dialogue lossy start (asking r1 r2) sent inbox slept
        → Delivery addr (challenge_expected 2 r1 r2) inbox reply rest
        → Dialogue lossy start (challenged (slice 4 4 reply)) sent rest slept
    greet :
        {sent : List Bytes} {inbox : List Incoming} {slept : List ℕ} {seed : Bytes} (jlu : Bool)
        (packet : Bytes)
        → Dialogue lossy start (challenged seed) sent inbox slept
        → build_login_packet digests config seed jlu ≡ built packet
        → Dialogue lossy start (greeting seed) (packet ∷ sent) inbox slept
    greet_in_vain :
        {sent : List Bytes} {inbox : List Incoming} {slept : List ℕ} {seed : Bytes}
        → Dialogue lossy start (challenged seed) sent inbox slept
        → lossy ≡ true
        → Dialogue lossy start (greeting seed) sent inbox slept
    be_refused :
        {sent : List Bytes} {inbox rest : List Incoming} {slept : List ℕ} {seed : Bytes}
        (reply : Option Bytes)
        → Dialogue lossy start (greeting seed) sent inbox slept
        → receive_from addr login_expected inbox ≡ (reply, rest)
        → Refuses reply
        → Dialogue lossy start idle sent rest slept
    be_accepted :
        {sent : List Bytes} {inbox rest : List Incoming} {slept : List ℕ} {seed : Bytes}
        (reply : Bytes)
        → Dialogue lossy start (greeting seed) sent inbox slept
        → Delivery addr login_expected inbox reply rest
        → get_or reply 0 0 ≡ 0x04
        → 39 ≤ length reply
        → Dialogue lossy start (online seed (slice 23 16 reply)) sent rest slept
    keep_alive :
        {sent : List Bytes} {inbox : List Incoming} {slept : List ℕ}
        {seed information packet : Bytes}
        → Dialogue lossy start (online seed information) sent inbox slept
        → KeepsAlive seed information packet
        → Dialogue lossy start (online seed information) (packet ∷ sent) inbox slept
    nap :
        {sent : List Bytes} {inbox : List Incoming} {slept : List ℕ} {seed information : Bytes}
        → Dialogue lossy start (online seed information) sent inbox slept
        → Dialogue lossy start (online seed information) sent inbox (20 ∷ slept)
    lose :
        {sent : List Bytes} {inbox : List Incoming} {slept : List ℕ} {seed information : Bytes}
        → Dialogue lossy start (online seed information) sent inbox slept
        → Dialogue lossy start idle sent inbox (60 ∷ slept)
    give_up :
        {sent : List Bytes} {inbox : List Incoming} {slept : List ℕ} {p : Phase}
        → Dialogue lossy start p sent inbox slept
        → MayGiveUp p
        → Dialogue lossy start idle sent inbox slept
    close :
        {sent : List Bytes} {inbox : List Incoming} {slept : List ℕ} {seed information : Bytes}
        → Dialogue lossy start (online seed information) sent inbox slept
        → lossy ≡ true
        → Dialogue lossy start (closing information) sent inbox slept
    leave :
        {sent : List Bytes} {inbox : List Incoming} {slept : List ℕ} {seed information : Bytes}
        (r1 r2 : ℕ)
        → Dialogue lossy start (online seed information) sent inbox slept
        → Dialogue lossy start
            (leaving information r1 r2)
            (challenge_packet config 3 r1 r2 ∷ sent)
            inbox
            slept
    leave_again :
        {sent : List Bytes} {inbox : List Incoming} {slept : List ℕ} {information : Bytes}
        {r1 r2 : ℕ}
        → Dialogue lossy start (leaving information r1 r2) sent inbox slept
        → Dialogue lossy start
            (leaving information r1 r2)
            (challenge_packet config 3 r1 r2 ∷ sent)
            inbox
            slept
    be_dismissed :
        {sent : List Bytes} {inbox rest : List Incoming} {slept : List ℕ} {information : Bytes}
        {r1 r2 : ℕ} (reply : Bytes)
        → Dialogue lossy start (leaving information r1 r2) sent inbox slept
        → Delivery addr (challenge_expected 3 r1 r2) inbox reply rest
        → Dialogue lossy start (dismissed information (slice 4 4 reply)) sent rest slept
    say_goodbye :
        {sent : List Bytes} {inbox : List Incoming} {slept : List ℕ}
        {information seed packet : Bytes}
        → Dialogue lossy start (dismissed information seed) sent inbox slept
        → build_dhcp_logout_packet digests config seed information ≡ some packet
        → Dialogue lossy start (gone packet) (packet ∷ sent) inbox slept
    repeat :
        {sent : List Bytes} {inbox : List Incoming} {slept : List ℕ} {packet : Bytes}
        → Dialogue lossy start (gone packet) sent inbox slept
        → Dialogue lossy start (gone packet) (packet ∷ sent) inbox slept

-- Either `sendto` may fail, or it never does.
abbrev pub Sends : Bool → World → Type 0
Sends lossy w = (lossy ≡ true) ⊎ (w.send_results ≡ [])
