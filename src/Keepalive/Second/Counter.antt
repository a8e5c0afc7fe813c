-- ===== src/Keepalive/Second/Counter.antt =====
-- drcom/src/keepalive.c: how far a call of `keepalive_2` advances the counter of the packets.
use jlu_drcom.Base.{
  ℕ, ◌+◌, ◌≤◌, ◌≡◌, ◌∙◌, refl, ◌⊎◌, inl, inr, Bytes, List, [], ◌∷◌, Option, none, some, arith,
  Option-cases, slice, Status, success, failure, Status-cases,
}
use jlu_drcom.Config.{Config}
use jlu_drcom.Packet.{Digests}
use jlu_drcom.RetryPolicy.{ExtraKind, extra_none, extra_first, extra_periodic}
use jlu_drcom.Udp.{Address, World}
use jlu_drcom.Keepalive.Second.{
  keepalive_2_extra, keepalive_2_exchange, keepalive_2_pair, keepalive_2,
}

-- The exchanges that a kind of extra packet makes of one call.
pub exchanges : ExtraKind → ℕ
exchanges extra_none = 2
exchanges _ = 3

exchanges_two : (kind : ExtraKind) → 2 ≤ exchanges kind
unfolding exchanges
exchanges_two kind = ground arith

module _ (digests : Digests) (mode : Bytes) (config : Config) (addr : Address)
    (encrypt_type : ℕ) where
  exchange_counter :
      (c type : ℕ) (tail : List (ℕ × Bytes)) (sixth m : ℕ) (w : World)
      → (keepalive_2_exchange digests mode config addr c type encrypt_type tail sixth m w).1 ≡ c + 1
  unfolding keepalive_2_exchange
  exchange_counter c type tail sixth m w = ground arith

  extra_counter :
      (c : ℕ) (kind : ExtraKind) (w : World)
      → (keepalive_2_extra digests mode config addr c kind encrypt_type w).1 + 2
        ≡ c + exchanges kind
  unfolding keepalive_2_extra exchanges
  extra_counter c extra_none w = refl
  extra_counter c extra_first w = ground arith
  extra_counter c extra_periodic w = ground arith

  module _ (c : ℕ) (w : World) where
    first_exchange : Option Bytes × ℕ × World
    first_exchange = keepalive_2_exchange digests mode config addr c 1 encrypt_type [] 0x02 20 w

    -- The second exchange, behind an answer to the first.
    second_exchange : Bytes → Option Bytes × ℕ × World
    unfolding first_exchange
    second_exchange recv_packet =
        keepalive_2_exchange digests mode config addr first_exchange.1 3 encrypt_type
          ((16, slice 16 4 recv_packet) ∷ []) 0x04 6 first_exchange.2

    pair_failed :
        first_exchange.0 ≡ none
        → keepalive_2_pair digests mode config addr c encrypt_type w
          ≡ (failure, first_exchange.1, first_exchange.2)
    unfolding keepalive_2_pair first_exchange
    pair_failed h = rw (keepalive_2_pair, h)

    pair_halfway :
        (recv_packet : Bytes)
        → first_exchange.0 ≡ some recv_packet
        → (second_exchange recv_packet).0 ≡ none
        → keepalive_2_pair digests mode config addr c encrypt_type w
          ≡ (failure, (second_exchange recv_packet).1, (second_exchange recv_packet).2)
    unfolding keepalive_2_pair first_exchange second_exchange
    pair_halfway recv_packet h k = rw (keepalive_2_pair, h, k)

    pair_done :
        (recv_packet answer : Bytes)
        → first_exchange.0 ≡ some recv_packet
        → (second_exchange recv_packet).0 ≡ some answer
        → keepalive_2_pair digests mode config addr c encrypt_type w
          ≡ (success, (second_exchange recv_packet).1, (second_exchange recv_packet).2)
    unfolding keepalive_2_pair first_exchange second_exchange
    pair_done recv_packet answer h k = rw (keepalive_2_pair, h, k)

    first_counter : first_exchange.1 ≡ c + 1
    unfolding first_exchange
    first_counter = exchange_counter c 1 [] 0x02 20 w

    second_counter : (recv_packet : Bytes) → (second_exchange recv_packet).1 ≡ c + 2
    unfolding second_exchange
    second_counter recv_packet =
        exchange_counter first_exchange.1 3 ((16, slice 16 4 recv_packet) ∷ []) 0x04 6
          first_exchange.2
        ∙ omega (arith, first_counter)

    pair_counter :
        (((keepalive_2_pair digests mode config addr c encrypt_type w).1 ≡ c + 2))
        ⊎ (((keepalive_2_pair digests mode config addr c encrypt_type w).0 ≡ failure)
            × ((keepalive_2_pair digests mode config addr c encrypt_type w).1 ≡ c + 1))
    pair_counter = elim (Option-cases first_exchange.0) [
      | inl silent ↦ inr (rw (pair_failed silent) (refl, first_counter))
      | inr (recv_packet, reply) ↦ inl (elim (Option-cases (second_exchange recv_packet).0) [
        | inl silent ↦ rw (pair_halfway recv_packet reply silent) (second_counter recv_packet)
        | inr (answer, done) ↦
            rw (pair_done recv_packet answer reply done) (second_counter recv_packet)
      ])
    ]

  module _ (c : ℕ) (kind : ExtraKind) (w : World) where
    extra_step : Status × ℕ × World
    extra_step = keepalive_2_extra digests mode config addr c kind encrypt_type w

    extra_failed :
        extra_step.0 ≡ failure
        → keepalive_2 digests mode config addr c kind encrypt_type w
          ≡ (failure, extra_step.1, extra_step.2)
    unfolding keepalive_2 extra_step
    extra_failed h = rw (keepalive_2, h)

    extra_passed :
        extra_step.0 ≡ success
        → keepalive_2 digests mode config addr c kind encrypt_type w
          ≡ keepalive_2_pair digests mode config addr extra_step.1 encrypt_type extra_step.2
    unfolding keepalive_2 extra_step
    extra_passed h = rw (keepalive_2, h)

    extra_step_counter : extra_step.1 + 2 ≡ c + exchanges kind
    unfolding extra_step
    extra_step_counter = extra_counter c kind w

    -- A call of `keepalive_2` that succeeds advances the counter by one for each exchange it makes, which
    -- are two, and three with an extra packet; one that fails advances it by no more than that.
    pub keepalive_2_counter :
        (((keepalive_2 digests mode config addr c kind encrypt_type w).0 ≡ failure)
          ⊎ ((keepalive_2 digests mode config addr c kind encrypt_type w).1 ≡ c + exchanges kind))
        × (c ≤ (keepalive_2 digests mode config addr c kind encrypt_type w).1)
        × ((keepalive_2 digests mode config addr c kind encrypt_type w).1 ≤ c + exchanges kind)
    keepalive_2_counter =
        let n = extra_step_counter in
        let two = exchanges_two kind in
        elim (Status-cases extra_step.0) [
          | inr bad ↦ rw (extra_failed bad) (inl refl, omega arith, omega arith)
          | inl good ↦ elim (pair_counter extra_step.1 extra_step.2) [
            | inl advanced ↦ rw (extra_passed good) (inr (omega arith), omega arith, omega arith)
            | inr (stopped, advanced) ↦
                rw (extra_passed good) (inl stopped, omega arith, omega arith)
          ]
        ]
