-- ===== src/Udp/Silence.antt =====
-- A world in which nothing arrives, sending works, and nobody stops the program.
use jlu_drcom.Base.{◌∙◌, ℕ, zero, suc, ◌≡◌, refl, false, Bytes, [], none, arith}
use jlu_drcom.Udp.{
  Address, Expected, World, send, udp_recv_expected_packet, send_recv_attempts,
  udp_send_recv_expected_with_retries, random_byte, poll_stop,
}
use jlu_drcom.Udp.Retry.{attempts_again, send_works, recv_silent}

pub record Quiet (w : World) : Type 0 where
  pub nothing_arrives : w.inbox ≡ []
  pub sending_works : w.send_results ≡ []
  pub no_signal : w.stops ≡ []
  pub not_stopped : w.stop_requested ≡ false

pub send-Quiet : (packet : Bytes) (w : World) → Quiet w → Quiet (send packet w).1
unfolding send
send-Quiet packet w q = record {
  nothing_arrives = ground (arith, q.nothing_arrives, q.sending_works);
  sending_works = ground (arith, q.sending_works);
  no_signal = ground (arith, q.sending_works, q.no_signal);
  not_stopped = ground (arith, q.not_stopped, q.sending_works);
}

recv-Quiet :
    (addr : Address) (e : Expected) (w : World)
    → Quiet w
    → Quiet (udp_recv_expected_packet addr e w).1
unfolding udp_recv_expected_packet
recv-Quiet addr e w q = record {
  nothing_arrives = (recv_silent addr e w q.nothing_arrives).1;
  sending_works = q.sending_works;
  no_signal = q.no_signal;
  not_stopped = q.not_stopped;
}

pub random_byte-Quiet : (w : World) → Quiet w → Quiet (random_byte w).1
unfolding random_byte
random_byte-Quiet w q = record {
  nothing_arrives = ground (arith, q.nothing_arrives);
  sending_works = ground (arith, q.sending_works);
  no_signal = ground (arith, q.no_signal);
  not_stopped = ground (arith, q.not_stopped);
}

attempts-Quiet :
    (left : ℕ) (addr : Address) (packet : Bytes) (e : Expected) (w : World)
    → Quiet w
    → ((send_recv_attempts left addr packet e w).0 ≡ none)
      × Quiet (send_recv_attempts left addr packet e w).1
attempts-Quiet zero addr packet e w q = unfold send_recv_attempts in (refl, q)
attempts-Quiet (suc left) addr packet e w q =
    let q1 = send-Quiet packet w q in
    let silent = (recv_silent addr e (send packet w).1 q1.nothing_arrives).0 in
    rw (attempts_again left addr packet e w (send_works packet w q.sending_works).0 silent)
      (attempts-Quiet left addr packet e _ (recv-Quiet addr e (send packet w).1 q1))

-- An exchange finds no reply and leaves silence.
pub udp_send_recv-Quiet :
    (addr : Address) (packet : Bytes) (e : Expected) (w : World)
    → Quiet w
    → ((udp_send_recv_expected_with_retries addr packet e w).0 ≡ none)
      × Quiet (udp_send_recv_expected_with_retries addr packet e w).1
unfolding udp_send_recv_expected_with_retries
udp_send_recv-Quiet addr packet e w q = attempts-Quiet 4 addr packet _ w q

pub poll_stop-Quiet : (w : World) → Quiet w → ((poll_stop w).0 ≡ false) × Quiet (poll_stop w).1
unfolding poll_stop
poll_stop-Quiet w q = (
  ground (arith, q.no_signal, q.not_stopped),
  record {
    nothing_arrives = ground (arith, q.nothing_arrives, q.no_signal);
    sending_works = ground (arith, q.sending_works, q.no_signal);
    no_signal = ground (arith, q.no_signal);
    not_stopped = ground (arith, q.not_stopped, q.no_signal);
  },
)

pub send-inbox : (packet : Bytes) (w : World) → (send packet w).1.inbox ≡ w.inbox
unfolding send
send-inbox packet w = ground arith

pub send-slept : (packet : Bytes) (w : World) → (send packet w).1.slept ≡ w.slept
unfolding send
send-slept packet w = ground arith

recv-slept :
    (addr : Address) (e : Expected) (w : World)
    → (udp_recv_expected_packet addr e w).1.slept ≡ w.slept
unfolding udp_recv_expected_packet
recv-slept addr e w = refl

attempts-slept :
    (left : ℕ) (addr : Address) (packet : Bytes) (e : Expected) (w : World)
    → Quiet w
    → (send_recv_attempts left addr packet e w).1.slept ≡ w.slept
attempts-slept zero addr packet e w q = unfold send_recv_attempts in refl
attempts-slept (suc left) addr packet e w q =
    let q1 = send-Quiet packet w q in
    let silent = (recv_silent addr e (send packet w).1 q1.nothing_arrives).0 in
    rw (attempts_again left addr packet e w (send_works packet w q.sending_works).0 silent) (
      attempts-slept left addr packet e _ (recv-Quiet addr e (send packet w).1 q1)
      ∙ recv-slept addr e (send packet w).1
      ∙ send-slept packet w)

-- An exchange does not sleep.
pub udp_send_recv-slept :
    (addr : Address) (packet : Bytes) (e : Expected) (w : World)
    → Quiet w
    → (udp_send_recv_expected_with_retries addr packet e w).1.slept ≡ w.slept
unfolding udp_send_recv_expected_with_retries
udp_send_recv-slept addr packet e w q = attempts-slept 4 addr packet _ w q

pub random_byte-slept : (w : World) → (random_byte w).1.slept ≡ w.slept
unfolding random_byte
random_byte-slept w = ground arith

pub poll_stop-slept : (w : World) → (poll_stop w).1.slept ≡ w.slept
unfolding poll_stop
poll_stop-slept w = ground arith

pub poll_stop-sent : (w : World) → (poll_stop w).1.sent ≡ w.sent
unfolding poll_stop
poll_stop-sent w = ground arith
