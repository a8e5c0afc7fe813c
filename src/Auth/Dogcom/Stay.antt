-- ===== src/Auth/Dogcom/Stay.antt =====
-- drcom/src/auth.c: a session with a server that goes on to answer.
use jlu_drcom.Base.{
  ℕ, ◌%◌, ◌≤◌, ◌≡◌, ◌∙◌, refl, Bytes, List, [], ◌∷◌, ◌++◌, replicate, false, pos, ℤ, slice, drop,
  length, get_or,
}
use jlu_drcom.Auth.Dogcom.{unfinished, session, attempt, is_jlu}
use jlu_drcom.Auth.Dogcom.Welcome.{working, attempt-session}
use jlu_drcom.Auth.Exchange.{challenge_packet, challenge_expected, login_expected}
use jlu_drcom.Auth.Session.Served.{Served, keepalive_loop-Serving}
use jlu_drcom.Config.{Config}
use jlu_drcom.Packet.{Digests, built}
use jlu_drcom.Packet.Login.{build_login_packet}
use jlu_drcom.RetryPolicy.{login_template_for_attempt, default_login_retry_delay_seconds}
use jlu_drcom.Udp.{Address, Incoming, World}
use jlu_drcom.Udp.Laws.{Delivery}
use jlu_drcom.Udp.Served.{Serving}

module _ (digests : Digests) (config : Config) (addr : Address) (rounds : ℕ) where
  session-Serving :
      {inbox rest : List Incoming} {last : ℕ} {slept : List ℕ} (seed info : Bytes) (w : World)
      → Serving inbox slept w
      → Served config addr rounds 0 0 inbox last rest
      → (w1 : World) × (session digests config addr rounds seed info w ≡ unfinished w1)
        × Serving rest (replicate rounds 20 ++ slept) w1
  unfolding session
  session-Serving seed info w h served =
      let (w1, goes, h1) =
        keepalive_loop-Serving digests config addr seed info (pos default_login_retry_delay_seconds)
          w h served in
      (w1, rw (session, goes) refl, h1)

  -- Where no stop is requested, `sendto` works and the server answers the challenge, accepts the login
  -- and answers each packet of a number of keepalive rounds, an attempt is still in the keepalive loop
  -- behind these rounds, whatever other datagrams arrive in between, in both variants of `keepalive_1`:
  -- the session was neither given up nor ended, the replies up to there are read, and 20 seconds were
  -- slept in each round.
  pub attempt-unfinished :
      (n1 n2 failed : ℕ) (sent : List Bytes) (randoms : List ℕ) (slept : List ℕ)
      {inbox between later rest : List Incoming} {last : ℕ} (delay : ℤ) (c l packet : Bytes)
      → build_login_packet digests config
          (slice 4 4 c)
          (is_jlu (login_template_for_attempt config.jlu_mode (pos failed)))
        ≡ built packet
      → Delivery addr (challenge_expected 2 (n1 % 256) (n2 % 256)) inbox c between
      → Delivery addr login_expected between l later
      → get_or l 0 0 ≡ 0x04
      → 39 ≤ length l
      → Served config addr rounds 0 0 (drop 1 later) last rest
      → (w : World) × (attempt digests config addr rounds (record {
        login_failed_attempts = failed;
        retry_delay = delay;
        outside = working inbox sent (n1 ∷ n2 ∷ randoms) (false ∷ []) slept;
      })
          ≡ unfinished w)
        × Serving rest (replicate rounds 20 ++ slept) w
  attempt-unfinished n1 n2 failed sent randoms slept {later = later} delay c l packet packed d1 d2
        code long served =
      let begins =
        attempt-session digests config addr rounds n1 n2 failed sent randoms [] slept delay c l
          packet packed d1 d2 code long in
      let open_world =
        working (drop 1 later) (packet ∷ challenge_packet config 2 (n1 % 256) (n2 % 256) ∷ sent)
          randoms [] slept in
      let (w, stays, h) =
        session-Serving (slice 4 4 c) (slice 23 16 l) open_world
          (record {
            arrives = refl;
            rested = refl;
            works = refl;
            no_signal = refl;
            not_stopped = refl;
          })
          served in
      (w, begins ∙ stays, h)
