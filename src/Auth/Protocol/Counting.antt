-- ===== src/Auth/Protocol/Counting.antt =====
-- drcom/src/keepalive.c: the packets that `keepalive_2` sends, in either mode.
use jlu_drcom.Base.{
  ℕ, ◌%◌, ◌≡◌, ◌≢◌, arith, refl, inl, inr, Bytes, List, [], ◌∷◌, none, some, get_or, slice, ◌==◌,
  Option-cases, Bool, Bool-cases, Status-cases,
}
use jlu_drcom.Auth.Protocol.Sending.{
  View, Hears, Leads, Holds, Holds-Heard, Retried, udp_send_recv-Retried,
}
use jlu_drcom.Config.{Config}
use jlu_drcom.Keepalive.Second.{
  keepalive_2_packet, keepalive_2_extra, keepalive_2_exchange, keepalive_2_pair, keepalive_2,
  reply_to,
}
use jlu_drcom.Packet.{Digests}
use jlu_drcom.RetryPolicy.{ExtraKind, extra_none, extra_first, extra_periodic}
use jlu_drcom.Udp.{Address, Expected, World, udp_send_recv_expected_with_retries}

-- A predicate on the packets sent that every packet of `keepalive_2` keeps.
module _ (digests : Digests) (mode : Bytes) (config : Config) (addr : Address) (lossy : Bool)
    (encrypt_type : ℕ) (P : View) (hears : Hears P)
    (keeps : (n : ℕ) (kind : ExtraKind) (type : ℕ) (tail : List (ℕ × Bytes))
      → Leads (keepalive_2_packet digests mode config n kind type encrypt_type tail) P P) where
  abbrev Kept : World → Type 0
  Kept w = Holds lossy P w

  retries-Holds :
      (n : ℕ) (kind : ExtraKind) (type : ℕ) (tail : List (ℕ × Bytes)) (e : Expected) (w : World)
      → Kept w
      → Kept
          (udp_send_recv_expected_with_retries addr
            (keepalive_2_packet digests mode config n kind type encrypt_type tail)
            e
            w).1
  retries-Holds n kind type tail e w h =
      elim (udp_send_recv-Retried addr
        (keepalive_2_packet digests mode config n kind type encrypt_type tail) e w hears
        (keeps n kind type tail) (keeps n kind type tail) h) [
          | Retried.unsent silent may h1 ↦ h1
          | Retried.unanswered silent h1 ↦ h1
          | Retried.replied heard ↦ Holds-Heard hears heard
        ]

  -- One packet of `keepalive_2` and the tests on its reply.
  exchange-Holds :
      (n type : ℕ) (tail : List (ℕ × Bytes)) (sixth minimum_length : ℕ) (w : World)
      → Kept w
      → Kept
          (keepalive_2_exchange digests mode config addr n type encrypt_type tail sixth
            minimum_length w).2
  unfolding keepalive_2_exchange
  exchange-Holds n type tail sixth minimum_length w h =
      let packet = keepalive_2_packet digests mode config n extra_none type encrypt_type tail in
      let e = reply_to (n % 0xff) (some 0x28) (some sixth) minimum_length in
      let h1 = retries-Holds n extra_none type tail e w h in
      elim (Option-cases (udp_send_recv_expected_with_retries addr packet e w).0) [
        | inl silent ↦ rw (keepalive_2_exchange, silent) h1
        | inr (bytes, answer) ↦ elim (Bool-cases (get_or bytes 0 0 == 0x07)) [
          | inr other ↦ rw (keepalive_2_exchange, answer, other) h1
          | inl code ↦ elim (Bool-cases (get_or bytes 2 0 == 0x28)) [
            | inl kind ↦ rw (keepalive_2_exchange, answer, code, kind) h1
            | inr unknown ↦ rw (keepalive_2_exchange, answer, code, unknown) h1
          ]
        ]
      ]

  -- The extra packet is the only thing that is sent where one is due.
  due_sends :
      (n : ℕ) (kind : ExtraKind) (w : World)
      → kind ≢ extra_none
      → (keepalive_2_extra digests mode config addr n kind encrypt_type w).2
        ≡ (udp_send_recv_expected_with_retries addr
            (keepalive_2_packet digests mode config n kind 1 encrypt_type [])
            (reply_to (n % 0xff) none none 3)
            w).1
  unfolding keepalive_2_extra
  due_sends n extra_none w due = absurd (due refl)
  due_sends n extra_first w due = ground arith
  due_sends n extra_periodic w due = ground arith

  due-Holds :
      (n : ℕ) (kind : ExtraKind) (w : World)
      → Kept w
      → Kept (keepalive_2_extra digests mode config addr n kind encrypt_type w).2
  due-Holds n extra_none w h = unfold keepalive_2_extra in h
  due-Holds n extra_first w h =
      rw (due_sends n extra_first w (λ e. cc))
        (retries-Holds n extra_first 1 [] (reply_to (n % 0xff) none none 3) w h)
  due-Holds n extra_periodic w h =
      rw (due_sends n extra_periodic w (λ e. cc))
        (retries-Holds n extra_periodic 1 [] (reply_to (n % 0xff) none none 3) w h)

  pair-Holds :
      (n : ℕ) (w : World)
      → Kept w
      → Kept (keepalive_2_pair digests mode config addr n encrypt_type w).2
  unfolding keepalive_2_pair
  pair-Holds n w h =
      let one = keepalive_2_exchange digests mode config addr n 1 encrypt_type [] 0x02 20 w in
      let h1 = exchange-Holds n 1 [] 0x02 20 w h in
      elim (Option-cases one.0) [
        | inl silent ↦ rw (keepalive_2_pair, silent) h1
        | inr (bytes, answer) ↦
            let tail : List (ℕ × Bytes) = (16, slice 16 4 bytes) ∷ [] in
            let h2 = exchange-Holds one.1 3 tail 0x04 6 one.2 h1 in
            elim (Option-cases
              (keepalive_2_exchange digests mode config addr one.1 3 encrypt_type tail 0x04 6
                one.2).0) [
                  | inl silent ↦ rw (keepalive_2_pair, answer, silent) h2
                  | inr (reply, e) ↦ rw (keepalive_2_pair, answer, e) h2
                ]
      ]

  pub keepalive_2-Holds :
      (n : ℕ) (kind : ExtraKind) (w : World)
      → Kept w
      → Kept (keepalive_2 digests mode config addr n kind encrypt_type w).2
  unfolding keepalive_2
  keepalive_2-Holds n kind w h =
      let one = keepalive_2_extra digests mode config addr n kind encrypt_type w in
      let h1 = due-Holds n kind w h in
      elim (Status-cases one.0) [
        | inr lost ↦ rw (keepalive_2, lost) h1
        | inl done ↦ rw (keepalive_2, done) (pair-Holds one.1 one.2 h1)
      ]
