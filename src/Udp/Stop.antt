-- ===== src/Udp/Stop.antt =====
-- The stop flag: what raises it, and that sending and receiving leave it.
use jlu_drcom.Base.{
  ℕ, zero, suc, ◌≡◌, ◌∙◌, refl, true, Bytes, arith, Bool-cases, Option-cases, inl, inr,
}
use jlu_drcom.Udp.{
  Address, Expected, World, send, udp_recv_expected_packet, send_recv_attempts,
  udp_send_recv_expected_with_retries, random_byte, poll_stop,
}
use jlu_drcom.Udp.Retry.{attempts_undelivered, attempts_answered, attempts_again}

-- The flag is up behind a poll that finds it up.
pub poll_stop-stop_requested :
    (w : World) → (poll_stop w).0 ≡ true → (poll_stop w).1.stop_requested ≡ true
unfolding poll_stop
poll_stop-stop_requested w h = ground (arith, h)

send-stop_requested :
    (packet : Bytes) (w : World) → (send packet w).1.stop_requested ≡ w.stop_requested
unfolding send
send-stop_requested packet w = ground arith

recv-stop_requested :
    (addr : Address) (e : Expected) (w : World)
    → (udp_recv_expected_packet addr e w).1.stop_requested ≡ w.stop_requested
unfolding udp_recv_expected_packet
recv-stop_requested addr e w = refl

attempts-stop_requested :
    (left : ℕ) (addr : Address) (packet : Bytes) (e : Expected) (w : World)
    → (send_recv_attempts left addr packet e w).1.stop_requested ≡ w.stop_requested
attempts-stop_requested zero addr packet e w = unfold send_recv_attempts in refl
attempts-stop_requested (suc left) addr packet e w =
    let w1 = (send packet w).1 in
    let sent = send-stop_requested packet w in
    let received = recv-stop_requested addr e w1 in
    elim (Bool-cases (send packet w).0) [
      | inr lost ↦ rw (attempts_undelivered left addr packet e w lost) sent
      | inl delivered ↦ elim (Option-cases (udp_recv_expected_packet addr e w1).0) [
        | inr (bytes, answer) ↦
            rw (attempts_answered left addr packet e w bytes delivered answer) (received ∙ sent)
        | inl silent ↦
            rw (attempts_again left addr packet e w delivered silent)
              (attempts-stop_requested left addr packet e _ ∙ received ∙ sent)
      ]
    ]

pub udp_send_recv-stop_requested :
    (addr : Address) (packet : Bytes) (e : Expected) (w : World)
    → (udp_send_recv_expected_with_retries addr packet e w).1.stop_requested ≡ w.stop_requested
unfolding udp_send_recv_expected_with_retries
udp_send_recv-stop_requested addr packet e w = attempts-stop_requested 4 addr packet _ w

pub random_byte-stop_requested : (w : World) → (random_byte w).1.stop_requested ≡ w.stop_requested
unfolding random_byte
random_byte-stop_requested w = ground arith
