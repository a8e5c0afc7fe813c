-- ===== src/Keepalive/First/Laws.antt =====
-- drcom/src/keepalive.c: the rounds of the loops of `keepalive_1`.
use jlu_drcom.Base.{
  ℕ, suc, ◌≤◌, ◌≡◌, ◌∙◌, ◌⊎◌, sym, inl, inr, true, Bytes, none, some, arith, length, get_or,
  Option-cases,
}
use jlu_drcom.Udp.{
  Address, World, accepts, packet_matches_expected, expected_byte_matches,
  udp_send_recv_expected_with_retries,
}
use jlu_drcom.Udp.Retry.{udp_send_recv_expected_with_retries-accepts}
use jlu_drcom.Keepalive.First.{
  answered, failed, keepalive_1_round, keepalive_1_loop, keepalive_1_expected,
}

keepalive_1_accepts :
    (minimum_length : ℕ) (addr from : Address) (bytes : Bytes)
    → accepts addr (record (keepalive_1_expected minimum_length) { alternate = none }) from bytes
      ≡ true
    → (get_or bytes 0 0 ≡ 7) × (minimum_length ≤ length bytes) × (1 ≤ length bytes)
unfolding accepts packet_matches_expected expected_byte_matches
keepalive_1_accepts m addr from bytes h = ground arith

module _ (addr : Address) (packet : Bytes) (m : ℕ) (w : World) where
  pub round_silent :
      (udp_send_recv_expected_with_retries addr packet (keepalive_1_expected m) w).0 ≡ none
      → (keepalive_1_round addr packet m w).0 ≡ failed
  unfolding keepalive_1_round
  round_silent h = rw (keepalive_1_round, h)

  round_answered :
      (bytes : Bytes)
      → (udp_send_recv_expected_with_retries addr packet (keepalive_1_expected m) w).0 ≡ some bytes
      → get_or bytes 0 0 ≡ 7
      → (keepalive_1_round addr packet m w).0 ≡ answered bytes
  unfolding keepalive_1_round
  round_answered bytes h seven = rw (keepalive_1_round, h, seven)

  -- A round answers or fails; it never asks for another.
  round_ends :
      ((bytes : Bytes) × ((keepalive_1_round addr packet m w).0 ≡ answered bytes))
      ⊎ ((keepalive_1_round addr packet m w).0 ≡ failed)
  round_ends =
      elim (Option-cases
        (udp_send_recv_expected_with_retries addr packet (keepalive_1_expected m) w).0) [
          | inl silent ↦ inr (round_silent silent)
          | inr (bytes, reply) ↦
              let (from, ok) =
                udp_send_recv_expected_with_retries-accepts addr packet (keepalive_1_expected m) w
                  reply in
              inl (bytes, round_answered bytes reply (keepalive_1_accepts m addr from bytes ok).0)
        ]

  loop_answered :
      (rounds : ℕ) (bytes : Bytes)
      → (keepalive_1_round addr packet m w).0 ≡ answered bytes
      → keepalive_1_loop (suc rounds) addr packet m w
        ≡ (some bytes, (keepalive_1_round addr packet m w).1)
  unfolding keepalive_1_loop
  loop_answered rounds bytes h = rw (keepalive_1_loop, h)

  pub loop_failed :
      (rounds : ℕ)
      → (keepalive_1_round addr packet m w).0 ≡ failed
      → keepalive_1_loop (suc rounds) addr packet m w
        ≡ (none, (keepalive_1_round addr packet m w).1)
  unfolding keepalive_1_loop
  loop_failed rounds h = rw (keepalive_1_loop, h)

-- A notice (first byte 0x4d) never reaches the test that would repeat a loop of `keepalive_1`: the
-- expectations on the reply drop it before. Each loop therefore ends in its first round, and any
-- larger number of rounds gives the same result.
pub keepalive_1_loop_rounds :
    (rounds : ℕ) (addr : Address) (packet : Bytes) (minimum_length : ℕ) (w : World)
    → keepalive_1_loop (suc rounds) addr packet minimum_length w
      ≡ keepalive_1_loop 1 addr packet minimum_length w
keepalive_1_loop_rounds rounds addr packet m w = elim (round_ends addr packet m w) [
  | inl (bytes, h) ↦
      loop_answered addr packet m w rounds bytes h ∙ sym (loop_answered addr packet m w 0 bytes h)
  | inr h ↦ loop_failed addr packet m w rounds h ∙ sym (loop_failed addr packet m w 0 h)
]
