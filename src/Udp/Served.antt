-- ===== src/Udp/Served.antt =====
-- drcom/src/keepalive.c: the exchange of packets with a server that answers.
use jlu_drcom.Base.{◌≡◌, refl, false, ℕ, Bytes, List, [], some, none, arith}
use jlu_drcom.Udp.{
  Address, Expected, Incoming, World, send, udp_recv_expected_packet,
  udp_send_recv_expected_with_retries, random_byte, poll_stop,
}
use jlu_drcom.Udp.Laws.{Delivery, receive_from-iff-Delivery}
use jlu_drcom.Udp.Retry.{attempts_answered, send_works}

-- What is still to arrive and what was slept, where `sendto` works and no stop is requested.
pub record Serving (inbox : List Incoming) (slept : List ℕ) (w : World) : Type 0 where
  pub arrives : w.inbox ≡ inbox
  pub rested : w.slept ≡ slept
  pub works : w.send_results ≡ []
  pub no_signal : w.stops ≡ []
  pub not_stopped : w.stop_requested ≡ false

module _ {inbox : List Incoming} {slept : List ℕ} where
  pub random_byte-Serving :
      (w : World) → Serving inbox slept w → Serving inbox slept (random_byte w).1
  unfolding random_byte
  random_byte-Serving w h = record {
    arrives = ground (arith, h.arrives);
    rested = ground (arith, h.rested);
    works = ground (arith, h.works);
    no_signal = ground (arith, h.no_signal);
    not_stopped = ground (arith, h.not_stopped);
  }

  pub poll_stop-Serving :
      (w : World)
      → Serving inbox slept w
      → ((poll_stop w).0 ≡ false) × Serving inbox slept (poll_stop w).1
  unfolding poll_stop
  poll_stop-Serving w h = (
    ground (arith, h.no_signal, h.not_stopped),
    record {
      arrives = ground (arith, h.arrives, h.no_signal);
      rested = ground (arith, h.rested, h.no_signal);
      works = ground (arith, h.works, h.no_signal);
      no_signal = ground (arith, h.no_signal);
      not_stopped = ground (arith, h.no_signal, h.not_stopped);
    },
  )

  send-Serving :
      (packet : Bytes) (w : World) → Serving inbox slept w → Serving inbox slept (send packet w).1
  unfolding send
  send-Serving packet w h = record {
    arrives = ground (arith, h.arrives, h.works);
    rested = ground (arith, h.rested, h.works);
    works = ground (arith, h.works);
    no_signal = ground (arith, h.no_signal, h.works);
    not_stopped = ground (arith, h.not_stopped, h.works);
  }

  recv-Serving :
      {rest : List Incoming} {bytes : Bytes} (addr : Address) (e : Expected) (w : World)
      → Serving inbox slept w
      → Delivery addr e inbox bytes rest
      → let r = udp_recv_expected_packet addr e w in (r.0 ≡ some bytes) × Serving rest slept r.1
  unfolding udp_recv_expected_packet
  recv-Serving {rest} {bytes} addr e w h d =
      let given = (receive_from-iff-Delivery addr e inbox bytes rest).1 d in
      let here = h.arrives in
      (
        rw (here, given),
        record {
          arrives = rw (here, given);
          rested = h.rested;
          works = h.works;
          no_signal = h.no_signal;
          not_stopped = h.not_stopped;
        },
      )

  -- The first copy is answered, whatever else arrives in front of the answer.
  pub retries-Serving :
      {rest : List Incoming} {bytes : Bytes} (addr : Address) (packet : Bytes) (e : Expected)
      (w : World)
      → Serving inbox slept w
      → Delivery addr (record e { alternate = none }) inbox bytes rest
      → let r = udp_send_recv_expected_with_retries addr packet e w in
        (r.0 ≡ some bytes) × Serving rest slept r.1
  unfolding udp_send_recv_expected_with_retries
  retries-Serving {rest} {bytes} addr packet e w h d =
      let e1 : Expected = record e { alternate = none } in
      let (reply, served) = recv-Serving addr e1 (send packet w).1 (send-Serving packet w h) d in
      let went = (send_works packet w h.works).0 in
      rw (attempts_answered 3 addr packet e1 w bytes went reply) (refl, served)
