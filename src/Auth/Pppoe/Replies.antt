-- ===== src/Auth/Pppoe/Replies.antt =====
-- drcom/src/auth.c: what `pppoe_challenge` takes from a reply, and what it does not.
use jlu_drcom.Base.{
  ℕ, ◌≤◌, ◌≡◌, ◌∙◌, refl, ap, inr, Bytes, List, [], ◌∷◌, some, arith, length, get_or, take_all,
  slice, put, slice-put_apart, not, ◌==◌,
}
use jlu_drcom.Auth.Pppoe.{Challenge, challenge_of, filled, pppoe_challenge, pppoe_challenge_packet}
use jlu_drcom.Udp.{Address, World, Incoming, datagram, send, recv_any}

first-filled :
    (stack bytes : Bytes)
    → 1 ≤ length bytes
    → length bytes ≤ length stack
    → get_or (filled stack bytes) 0 0 ≡ get_or bytes 0 0
unfolding filled put
first-filled stack [] some_byte fits = absurd (omega arith)
first-filled [] (x ∷ bytes) some_byte fits = absurd (omega arith)
first-filled (y ∷ stack) (x ∷ bytes) some_byte fits = refl

send-inbox : (packet : Bytes) (w : World) → (send packet w).1.inbox ≡ w.inbox
unfolding send
send-inbox packet w = ground arith

recv_any-datagram :
    (w : World) (from : Address) (bytes : Bytes) (more : List Incoming)
    → w.inbox ≡ datagram from bytes ∷ more
    → length bytes ≤ 1024
    → (recv_any w).0 ≡ some bytes
unfolding recv_any
recv_any-datagram w from bytes more next short =
    rw (recv_any, next) (ap some (take_all 1024 bytes short))

-- A reply that is accepted, by the array that it was stored in.
challenge_of-accepted :
    (recv_packet : Bytes)
    → get_or recv_packet 0 0 ≡ 0x07
    → challenge_of recv_packet
      ≡ some (record {
        seed = slice 8 4 recv_packet;
        sip = slice 12 4 recv_packet;
        encrypt_mode = not (get_or recv_packet 5 0 == 0x00);
        keep_alive_version = slice 28 2 recv_packet;
      })
unfolding challenge_of
challenge_of-accepted recv_packet e = rw (challenge_of, e)

module _ (stack : World → Bytes) (counter : ℕ) (w : World) (from : Address) (bytes : Bytes)
    (more : List Incoming) where
  array : Bytes
  array = stack (send (pppoe_challenge_packet counter) w).1

  -- The challenge is what the array says that the reply was stored in.
  challenge-filled :
      w.inbox ≡ datagram from bytes ∷ more
      → length bytes ≤ 1024
      → (pppoe_challenge stack counter w).0 ≡ challenge_of (filled array bytes)
  unfolding pppoe_challenge array
  challenge-filled next short =
      let sent = send-inbox (pppoe_challenge_packet counter) w in
      let w1 = (send (pppoe_challenge_packet counter) w).1 in
      let reply = recv_any-datagram w1 from bytes more (sent ∙ next) short in
      rw (pppoe_challenge, reply)

  challenge-accepted :
      w.inbox ≡ datagram from bytes ∷ more
      → length bytes ≤ 1024
      → 1 ≤ length bytes
      → length bytes ≤ length array
      → get_or bytes 0 0 ≡ 0x07
      → (c : Challenge) × ((pppoe_challenge stack counter w).0 ≡ some c)
        × (c.seed ≡ slice 8 4 (filled array bytes))
        × (c.sip ≡ slice 12 4 (filled array bytes))
        × (c.keep_alive_version ≡ slice 28 2 (filled array bytes))
  challenge-accepted next short some_byte fits code =
      let same = first-filled array bytes some_byte fits ∙ code in
      (
        _,
        challenge-filled next short ∙ challenge_of-accepted (filled array bytes) same,
        refl,
        refl,
        refl,
      )

  -- A reply of at most 8 bytes that begins with 0x07 is accepted, from whichever address: the
  -- seed, the address and the version are then what stood in the array before, which the program has
  -- never written.
  pub pppoe_challenge-stale :
      w.inbox ≡ datagram from bytes ∷ more
      → 1 ≤ length bytes
      → length bytes ≤ 8
      → length (stack (send (pppoe_challenge_packet counter) w).1) ≡ 1024
      → get_or bytes 0 0 ≡ 0x07
      → (c : Challenge) × ((pppoe_challenge stack counter w).0 ≡ some c)
        × (c.seed ≡ slice 8 4 (stack (send (pppoe_challenge_packet counter) w).1))
        × (c.sip ≡ slice 12 4 (stack (send (pppoe_challenge_packet counter) w).1))
        × (c.keep_alive_version ≡ slice 28 2 (stack (send (pppoe_challenge_packet counter) w).1))
  unfolding array filled
  pppoe_challenge-stale next some_byte few size code =
      let (c, e, seed, sip, version) =
        challenge-accepted next (omega arith) some_byte (omega arith) code in
      (
        c,
        e,
        seed ∙ slice-put_apart 8 4 0 bytes array (inr (omega arith)),
        sip ∙ slice-put_apart 12 4 0 bytes array (inr (omega arith)),
        version ∙ slice-put_apart 28 2 0 bytes array (inr (omega arith)),
      )
