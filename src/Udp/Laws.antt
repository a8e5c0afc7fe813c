-- ===== src/Udp/Laws.antt =====
-- drcom/src/keepalive.c: which datagram the receive loop returns, and what it skips.
use jlu_drcom.Base.{
  ◌≡◌, ◌↔◌, ◌∙◌, refl, sym, ap, inl, inr, true, false, Bytes, List, [], ◌∷◌, ◌++◌, some, take,
  Bool-cases,
}
use jlu_drcom.Udp.{
  Address, Expected, Incoming, timeout, datagram, receive_size, accepts, receive_from, World,
  udp_recv_expected_packet,
}

-- Datagrams that were received and not accepted.
unfoldable pub Skipped : Address → Expected → List Incoming → Type 0
Skipped addr e [] = Unit
Skipped addr e (timeout ∷ more) = ⊥
Skipped addr e (datagram from raw ∷ more) =
    (accepts addr e from (take receive_size raw) ≡ false) × Skipped addr e more

-- The accepted datagram, with what stands in front of it and behind it.
pub record Delivery (addr : Address) (e : Expected) (inbox : List Incoming) (bytes : Bytes)
    (rest : List Incoming) : Type 0 where
  pub skipped : List Incoming
  pub from : Address
  pub raw : Bytes
  pub order : inbox ≡ skipped ++ (datagram from raw ∷ rest)
  pub rejected : Skipped addr e skipped
  pub accepted : accepts addr e from bytes ≡ true
  pub cut : bytes ≡ take receive_size raw

pub pair_of : {A B : Type 0} (r : A × B) {a : A} → r.0 ≡ a → r ≡ (a, r.1)
pair_of (x, y) h = ap (λ a. (a, y)) h

module _ (addr : Address) (e : Expected) where
  receive_from-accept :
      (from : Address) (raw : Bytes) (more : List Incoming)
      → accepts addr e from (take receive_size raw) ≡ true
      → receive_from addr e (datagram from raw ∷ more) ≡ (some (take receive_size raw), more)
  unfolding receive_from
  receive_from-accept from raw more h = rw h

  receive_from-skip :
      (from : Address) (raw : Bytes) (more : List Incoming)
      → accepts addr e from (take receive_size raw) ≡ false
      → receive_from addr e (datagram from raw ∷ more) ≡ receive_from addr e more
  unfolding receive_from
  receive_from-skip from raw more h = rw h

  pub receive_from-Delivery :
      (inbox : List Incoming) {bytes : Bytes} {rest : List Incoming}
      → receive_from addr e inbox ≡ (some bytes, rest)
      → Delivery addr e inbox bytes rest
  unfolding Skipped
  receive_from-Delivery [] h = unfold receive_from in absurd cc
  receive_from-Delivery (timeout ∷ more) h = unfold receive_from in absurd cc
  receive_from-Delivery (datagram from raw ∷ more) {bytes} {rest} h =
      elim (Bool-cases (accepts addr e from (take receive_size raw))) [
        | inl passes ↦
            let same = sym (receive_from-accept from raw more passes) ∙ h in
            let eq_bytes : take receive_size raw ≡ bytes = cc same in
            let eq_rest : more ≡ rest = cc same in
            record {
              skipped = [];
              from = from;
              raw = raw;
              order = rw eq_rest;
              rejected = tt;
              accepted = rw (← eq_bytes) passes;
              cut = sym eq_bytes;
            }
        | inr fails ↦
            let d = receive_from-Delivery more (sym (receive_from-skip from raw more fails) ∙ h) in
            let tail = d.order in
            record {
              skipped = datagram from raw ∷ d.skipped;
              from = d.from;
              raw = d.raw;
              order = rw tail;
              rejected = (fails, d.rejected);
              accepted = d.accepted;
              cut = d.cut;
            }
      ]

  receive_from-Skipped :
      (skipped : List Incoming) (more : List Incoming)
      → Skipped addr e skipped
      → receive_from addr e (skipped ++ more) ≡ receive_from addr e more
  receive_from-Skipped [] more h = refl
  receive_from-Skipped (timeout ∷ skipped) more h = unfold Skipped in absurd h
  receive_from-Skipped (datagram from raw ∷ skipped) more h =
      let k : (accepts addr e from (take receive_size raw) ≡ false) × Skipped addr e skipped =
        unfold Skipped in h in
      receive_from-skip from raw _ k.0 ∙ receive_from-Skipped skipped more k.1

  -- The receive loop gives a datagram and leaves `rest` exactly when that datagram passes the tests
  -- on source and contents, and what came before it were datagrams that fail them: it is the first
  -- that passes, with no timeout in front of it, cut to the size of the buffer.
  pub receive_from-iff-Delivery :
      (inbox : List Incoming) (bytes : Bytes) (rest : List Incoming)
      → (receive_from addr e inbox ≡ (some bytes, rest)) ↔ Delivery addr e inbox bytes rest
  receive_from-iff-Delivery inbox bytes rest = (
    receive_from-Delivery inbox,
    λ d.
        let ok = d.accepted in
        let cut = d.cut in
        let given : accepts addr e d.from (take receive_size d.raw) ≡ true = rw (← cut) ok in
        rw (
          d.order,
          receive_from-Skipped d.skipped _ d.rejected,
          receive_from-accept d.from d.raw rest given,
          ← cut,
        ),
  )

-- The same on a world.
pub recv-eq-some :
    (addr : Address) (e : Expected) (w : World) {bytes : Bytes}
    → (udp_recv_expected_packet addr e w).0 ≡ some bytes
    → Delivery addr e w.inbox bytes (udp_recv_expected_packet addr e w).1.inbox
unfolding udp_recv_expected_packet
recv-eq-some addr e w reply = receive_from-Delivery addr e w.inbox (pair_of _ reply)
