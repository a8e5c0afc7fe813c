-- ===== src/Auth/Session/Served.antt =====
-- drcom/src/auth.c: the keepalive loop with a server that answers.
use mathlib.Core.Path.{subst}
use jlu_drcom.Base.{
  ℕ, suc, ◌+◌, ◌≡◌, ◌∙◌, refl, ap, Bytes, List, ◌∷◌, ◌++◌, replicate, replicate-snoc, ℤ, pos, arith,
  codes,
}
use jlu_drcom.Auth.Session.{
  Session, go_on, extra_kind, keepalive_exchanges, keepalive_round, keepalive_loop,
}
use jlu_drcom.Config.{Config}
use jlu_drcom.Keepalive.First.Served.{First, keepalive_1-Serving}
use jlu_drcom.Keepalive.Second.Served.{Extra, Pair, keepalive_2-Serving}
use jlu_drcom.Keepalive.First.{keepalive_1}
use jlu_drcom.Keepalive.Second.{keepalive_2}
use jlu_drcom.Packet.{Digests}
use jlu_drcom.RetryPolicy.{next_keepalive_failure_count}
use jlu_drcom.Udp.{Address, Incoming, World, poll_stop}
use jlu_drcom.Udp.Served.{Serving, poll_stop-Serving}

-- The replies to a number of rounds, from the round `r` and the packet `n` on, with the number and
-- the arrivals that are left behind them.
pub data Served (config : Config) (addr : Address)
    : ℕ → ℕ → ℕ → List Incoming → ℕ → List Incoming → Type 0 where
  all_served : {r n : ℕ} {inbox : List Incoming} → Served config addr 0 r n inbox n inbox
  round_served :
      {left r n m last : ℕ} {inbox i1 i2 i3 rest : List Incoming}
      → First addr inbox i1 config.keepalive1_mod
      → Extra addr n (extra_kind config r) m i1 i2
      → Pair addr m i2 i3
      → Served config addr left (r + 1) (m + 2) i3 last rest
      → Served config addr (suc left) r n inbox last rest

-- A session with no failure in its last round.
abbrev pub well : ℕ → ℕ → ℤ → World → Session
well r n delay w = record {
  keepalive_counter = n;
  keepalive_try_counter = pos 0;
  keepalive_rounds = r;
  delay = delay;
  world = w;
}

module _ (digests : Digests) (config : Config) (addr : Address) (seed info : Bytes)
    (delay : ℤ) where
  exchanges-Serving :
      {m : ℕ} {inbox i1 i2 i3 : List Incoming} {slept : List ℕ} (r n : ℕ) (w : World)
      → Serving inbox slept w
      → First addr inbox i1 config.keepalive1_mod
      → Extra addr n (extra_kind config r) m i1 i2
      → Pair addr m i2 i3
      → (w1 : World) × (keepalive_exchanges digests config addr seed info (well r n delay w)
          ≡ go_on (well (r + 1) (m + 2) delay w1))
        × Serving i3 (20 ∷ slept) w1
  unfolding keepalive_exchanges next_keepalive_failure_count
  exchanges-Serving {m} r n w h f x p =
      let (fine, h1) =
        keepalive_1-Serving digests config addr seed info w config.keepalive1_mod refl h f in
      let w1 = (keepalive_1 digests config addr seed info w).1 in
      let second = keepalive_2 digests (codes "dhcp") config addr n (extra_kind config r) 0 w1 in
      let (fine2, counted, h2) =
        keepalive_2-Serving digests (codes "dhcp") config addr n (extra_kind config r) m 0 w1 h1 x
          p in
      let rested = h2.rested in
      (
        record (second.2) { slept = 20 ∷ (second.2).slept },
        rw (keepalive_exchanges, fine, fine2)
            (ap
              (λ k.
                go_on (well (r + 1) k delay (record (second.2) { slept = 20 ∷ (second.2).slept })))
              counted),
        record {
          arrives = h2.arrives;
          rested = rw rested;
          works = h2.works;
          no_signal = h2.no_signal;
          not_stopped = h2.not_stopped;
        },
      )

  round-Serving :
      {m : ℕ} {inbox i1 i2 i3 : List Incoming} {slept : List ℕ} (r n : ℕ) (w : World)
      → Serving inbox slept w
      → First addr inbox i1 config.keepalive1_mod
      → Extra addr n (extra_kind config r) m i1 i2
      → Pair addr m i2 i3
      → (w1 : World) × (keepalive_round digests config addr seed info (well r n delay w)
          ≡ go_on (well (r + 1) (m + 2) delay w1))
        × Serving i3 (20 ∷ slept) w1
  unfolding keepalive_round
  round-Serving r n w h f x p =
      let (running, h1) = poll_stop-Serving w h in
      let (w1, goes, h2) = exchanges-Serving r n (poll_stop w).1 h1 f x p in
      (w1, rw (keepalive_round, running) goes, h2)

  pub keepalive_loop-Serving :
      {left r n last : ℕ} {inbox rest : List Incoming} {slept : List ℕ} (w : World)
      → Serving inbox slept w
      → Served config addr left r n inbox last rest
      → (w1 : World) × (keepalive_loop digests config addr left seed info (well r n delay w)
          ≡ go_on (well (r + left) last delay w1))
        × Serving rest (replicate left 20 ++ slept) w1
  unfolding keepalive_loop
  keepalive_loop-Serving {r = r} {n = n} w h Served.all_served =
      (w, ap (λ k. go_on (well k n delay w)) (omega arith), h)
  keepalive_loop-Serving {left = suc left} {r = r} {n = n} {last = last} {rest = rest}
        {slept = slept} w h (Served.round_served f x p later) =
      let (w1, goes, h1) = round-Serving r n w h f x p in
      let (w2, ends, h2) = keepalive_loop-Serving w1 h1 later in
      let sum : r + 1 + left ≡ r + suc left = omega arith in
      (
        w2,
        rw (keepalive_loop, goes) (ends ∙ ap (λ k. go_on (well k last delay w2)) sum),
        subst (λ l. Serving rest l w2) (replicate-snoc left 20 slept) h2,
      )
