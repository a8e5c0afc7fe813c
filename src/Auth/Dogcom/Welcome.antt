-- ===== src/Auth/Dogcom/Welcome.antt =====
-- drcom/src/auth.c: an attempt of `dogcom` in mode `dhcp` that a server answers.
use jlu_drcom.Base.{
  ℕ, ◌%◌, ◌≤◌, ◌≡◌, ◌∙◌, refl, ap, Bool, true, false, ltb, Bytes, List, [], ◌∷◌, ◌==◌, none, some,
  pos, ℤ, slice, get_or, length, drop, arith,
}
use jlu_drcom.Auth.Dogcom.{session, attempt, is_jlu}
use jlu_drcom.Auth.Exchange.{
  accepted, challenge, challenge_packet, challenge_expected, dhcp_challenge, dhcp_login,
  login_reply, login_expected,
}
use jlu_drcom.Config.{Config}
use jlu_drcom.Packet.{Digests, built}
use jlu_drcom.Packet.Login.{build_login_packet}
use jlu_drcom.RetryPolicy.{login_template_for_attempt, default_login_retry_delay_seconds}
use jlu_drcom.Udp.{
  Address, Expected, World, Incoming, timeout, datagram, accepts, packet_matches_expected,
  expected_byte_matches, send, udp_recv_expected_packet, udp_send_recv_expected_with_retries,
  random_byte, poll_stop, recv_any,
}
use jlu_drcom.Udp.Laws.{Delivery, receive_from-iff-Delivery}
use jlu_drcom.Udp.Retry.{attempts_answered}

-- A world in which `sendto` works.
abbrev pub working : List Incoming → List Bytes → List ℕ → List Bool → List ℕ → World
working inbox sent randoms stops slept = record {
  inbox = inbox;
  send_results = [];
  sent = sent;
  randoms = randoms;
  stops = stops;
  stop_requested = false;
  slept = slept;
}

module _ (addr : Address) (e : Expected) {inbox rest : List Incoming} {bytes : Bytes}
    (sent : List Bytes) (randoms : List ℕ) (stops : List Bool) (slept : List ℕ) where
  recv-Delivery :
      Delivery addr e inbox bytes rest
      → udp_recv_expected_packet addr e (working inbox sent randoms stops slept)
        ≡ (some bytes, working rest sent randoms stops slept)
  unfolding udp_recv_expected_packet
  recv-Delivery d = let given = (receive_from-iff-Delivery addr e inbox bytes rest).1 d in rw given

-- The first copy is answered, whatever else arrives in front of the answer.
retries-Delivery :
    (addr : Address) (packet : Bytes) (e : Expected) {inbox rest : List Incoming} {bytes : Bytes}
    (sent : List Bytes) (randoms : List ℕ) (stops : List Bool) (slept : List ℕ)
    → Delivery addr (record e { alternate = none }) inbox bytes rest
    → udp_send_recv_expected_with_retries addr packet e (working inbox sent randoms stops slept)
      ≡ (some bytes, working rest (packet ∷ sent) randoms stops slept)
unfolding udp_send_recv_expected_with_retries send
retries-Delivery addr packet e {inbox} {rest} {bytes} sent randoms stops slept d =
    let e1 : Expected = record e { alternate = none } in
    let answer = recv-Delivery addr e1 (packet ∷ sent) randoms stops slept d in
    attempts_answered 3 addr packet e1 (working inbox sent randoms stops slept) bytes refl
      (ap (λ r. r.0) answer)
    ∙ ap (λ r. (some bytes, r.1)) answer

code_of_challenge :
    (addr from : Address) (r1 r2 : ℕ) (bytes : Bytes)
    → accepts addr (challenge_expected 2 r1 r2) from bytes ≡ true
    → (get_or bytes 0 0 == 0x02) ≡ true
unfolding accepts packet_matches_expected expected_byte_matches
code_of_challenge addr from r1 r2 bytes h = ground (arith, h)

recv_any_one :
    (rest : List Incoming) (before : List Bytes) (randoms : List ℕ) (stops : List Bool)
    (slept : List ℕ)
    → (recv_any (working rest before randoms stops slept)).1
      ≡ working (drop 1 rest) before randoms stops slept
unfolding recv_any
recv_any_one [] before randoms stops slept = refl
recv_any_one (timeout ∷ more) before randoms stops slept = refl
recv_any_one (datagram from bytes ∷ more) before randoms stops slept = refl

module _ (digests : Digests) (config : Config) (addr : Address) (rounds : ℕ) (n1 n2 failed : ℕ)
    (sent : List Bytes) (randoms : List ℕ) (stops : List Bool) (slept : List ℕ) where
  challenge_of : Bytes
  challenge_of = challenge_packet config 2 (n1 % 256) (n2 % 256)

  asked :
      {inbox rest : List Incoming} (c : Bytes)
      → Delivery addr (challenge_expected 2 (n1 % 256) (n2 % 256)) inbox c rest
      → challenge config addr 2 (working inbox sent (n1 ∷ n2 ∷ randoms) stops slept)
        ≡ (some (slice 4 4 c), working rest (challenge_of ∷ sent) randoms stops slept)
  unfolding challenge random_byte challenge_of
  asked c d =
      let code = code_of_challenge addr d.from (n1 % 256) (n2 % 256) c d.accepted in
      let got =
        retries-Delivery addr (challenge_packet config 2 (n1 % 256) (n2 % 256))
          (challenge_expected 2 (n1 % 256) (n2 % 256)) sent randoms stops slept d in
      rw (challenge, ap (λ r. r.0) got, ap (λ r. r.1) got, code)

  -- One datagram more is taken off the network behind the reply.
  accepted_reply :
      (delay : ℤ) (l : Bytes) (rest : List Incoming) (before : List Bytes)
      → get_or l 0 0 ≡ 0x04
      → 39 ≤ length l
      → login_reply l delay (working rest before randoms stops slept)
        ≡ (accepted (slice 23 16 l), delay, working (drop 1 rest) before randoms stops slept)
  unfolding login_reply recv_any
  accepted_reply delay l rest before code long =
      let is4 : (get_or l 0 0 == 0x04) ≡ true = ground (arith, code) in
      let whole : ltb (length l) 39 ≡ false = ground (arith, long) in
      rw (login_reply, is4, whole)
        (ap (λ (w : World). (accepted (slice 23 16 l), delay, w))
          (recv_any_one rest before randoms stops slept))

  answered :
      {inbox rest : List Incoming} (seed : Bytes) (jlu : Bool) (delay : ℤ) (packet l : Bytes)
      (before : List Bytes)
      → build_login_packet digests config seed jlu ≡ built packet
      → Delivery addr login_expected inbox l rest
      → get_or l 0 0 ≡ 0x04
      → 39 ≤ length l
      → dhcp_login digests config addr seed jlu delay (working inbox before randoms stops slept) ≡ (
        accepted (slice 23 16 l),
        delay,
        working (drop 1 rest) (packet ∷ before) randoms stops slept,
      )
  unfolding dhcp_login send
  answered {inbox} {rest} seed jlu delay packet l before packed d code long =
      let got = recv-Delivery addr login_expected (packet ∷ before) randoms stops slept d in
      rw (dhcp_login, packed, ap (λ r. r.0) got, ap (λ r. r.1) got)
        (accepted_reply delay l rest (packet ∷ before) code long)

  -- Where no stop is requested, `sendto` works and the server answers the challenge and accepts the
  -- login, an attempt reaches the keepalive loop, whatever other datagrams arrive in between: with the
  -- seed and the authentication data of these replies, behind two packets sent.
  pub attempt-session :
      {inbox between rest : List Incoming} (delay : ℤ) (c l packet : Bytes)
      → build_login_packet digests config
          (slice 4 4 c)
          (is_jlu (login_template_for_attempt config.jlu_mode (pos failed)))
        ≡ built packet
      → Delivery addr (challenge_expected 2 (n1 % 256) (n2 % 256)) inbox c between
      → Delivery addr login_expected between l rest
      → get_or l 0 0 ≡ 0x04
      → 39 ≤ length l
      → attempt digests config addr rounds (record {
        login_failed_attempts = failed;
        retry_delay = delay;
        outside = working inbox sent (n1 ∷ n2 ∷ randoms) (false ∷ stops) slept;
      })
        ≡ session digests config addr rounds (slice 4 4 c) (slice 23 16 l) (
            working
              (drop 1 rest)
              (packet ∷ challenge_packet config 2 (n1 % 256) (n2 % 256) ∷ sent)
              randoms
              stops
              slept)
  unfolding attempt dhcp_challenge poll_stop challenge_of
  attempt-session {inbox} {between} {rest} delay c l packet packed challenged welcomed code long =
      let got = asked c challenged in
      let start = pos default_login_retry_delay_seconds in
      let login =
        answered (slice 4 4 c) (is_jlu (login_template_for_attempt config.jlu_mode (pos failed)))
          start packet l (challenge_packet config 2 (n1 % 256) (n2 % 256) ∷ sent) packed welcomed
          code long in
      rw (
        attempt,
        ap (λ r. r.0) got,
        ap (λ r. r.1) got,
        ap (λ r. r.0) login,
        ap (λ r. r.1) got,
        ap (λ r. r.2) login,
      )
