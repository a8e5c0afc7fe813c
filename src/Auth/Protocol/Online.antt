-- ===== src/Auth/Protocol/Online.antt =====
-- drcom/src/keepalive.c and auth.c: the packets of the keepalive loop, in the protocol.
use jlu_drcom.Base.{
  ℕ, zero, suc, ◌≡◌, refl, ◌⊎◌, inl, inr, Bool, true, false, Bytes, [], ◌∷◌, get_or, slice, codes,
  ◌==◌, if◌then◌else◌, Option-cases, Bool-cases, Status,
}
use jlu_drcom.Config.{Config}
use jlu_drcom.Packet.{Digests}
use jlu_drcom.RetryPolicy.{ExtraKind}
use jlu_drcom.Auth.Protocol.{
  online, Dialogue, KeepsAlive, asks, responds, tells, counts, keep_alive, ignore,
}
use jlu_drcom.Auth.Protocol.Counting.{keepalive_2-Holds}
use jlu_drcom.Auth.Protocol.Sending.{
  View, Hears, Leads, Holds, Holds-Heard, Holds-SameSent, Retried, udp_send_recv-Retried,
  random_byte-SameSent,
}
use jlu_drcom.Keepalive.First.{
  Round, answered, again, failed, keepalive_1_expected, keepalive_1_round, keepalive_1_loop,
  keepalive_1_response, keepalive_1_packet, keepalive_1_challenged, keepalive_1_direct, keepalive_1,
  keepalive_1_rounds,
}
use jlu_drcom.Keepalive.Second.{keepalive_2}
use jlu_drcom.Udp.{Address, Expected, World, udp_send_recv_expected_with_retries, random_byte}

Round-cases : (r : Round) → ((b : Bytes) × (r ≡ answered b)) ⊎ (r ≡ again) ⊎ (r ≡ failed)
Round-cases (answered b) = inl (b, refl)
Round-cases again = inr (inl refl)
Round-cases failed = inr (inr refl)

if-both : {A : Type 0} (P : A → Type 0) (b : Bool) (x y : A) → P x → P y → P (if b then x else y)
if-both P true x y p q = p
if-both P false x y p q = q

module _ (digests : Digests) (config : Config) (addr : Address) (lossy : Bool) (start : World)
    (seed information : Bytes) where
  -- The client is online with this seed and these authentication data.
  abbrev At : View
  At = Dialogue digests config addr lossy start (online seed information)

  abbrev pub Online : World → Type 0
  Online w = Holds lossy At w

  hears : Hears At
  hears sent inbox rest slept left d = ignore d tt left

  abbrev Keeps : Bytes → Type 0
  Keeps packet = KeepsAlive digests config addr seed information packet

  retries-Online :
      (packet : Bytes) (e : Expected) (w : World)
      → Keeps packet
      → Online w
      → Online (udp_send_recv_expected_with_retries addr packet e w).1
  retries-Online packet e w keeps h =
      let next : Leads packet At At = λ sent inbox slept d. keep_alive d keeps in
      elim (udp_send_recv-Retried addr packet e w hears next next h) [
        | Retried.unsent silent may h1 ↦ h1
        | Retried.unanswered silent h1 ↦ h1
        | Retried.replied heard ↦ Holds-Heard hears heard
      ]

  round-Online :
      (packet : Bytes) (n : ℕ) (w : World)
      → Keeps packet
      → Online w
      → Online (keepalive_1_round addr packet n w).1
  unfolding keepalive_1_round
  round-Online packet n w keeps h =
      let r = udp_send_recv_expected_with_retries addr packet (keepalive_1_expected n) w in
      let h1 = retries-Online packet (keepalive_1_expected n) w keeps h in
      elim (Option-cases r.0) [
        | inl silent ↦ rw (keepalive_1_round, silent) h1
        | inr (bytes, answer) ↦ elim (Bool-cases (get_or bytes 0 0 == 0x07)) [
          | inl code ↦ rw (keepalive_1_round, answer, code) h1
          | inr other ↦ elim (Bool-cases (get_or bytes 0 0 == 0x4d)) [
            | inl notice ↦ rw (keepalive_1_round, answer, other, notice) h1
            | inr neither ↦ rw (keepalive_1_round, answer, other, neither) h1
          ]
        ]
      ]

  loop-Online :
      (rounds : ℕ) (packet : Bytes) (n : ℕ) (w : World)
      → Keeps packet
      → Online w
      → Online (keepalive_1_loop rounds addr packet n w).1
  unfolding keepalive_1_loop
  loop-Online zero packet n w keeps h = h
  loop-Online (suc rounds) packet n w keeps h =
      let h1 = round-Online packet n w keeps h in
      let w1 = (keepalive_1_round addr packet n w).1 in
      elim (Round-cases (keepalive_1_round addr packet n w).0) [
        | inl (bytes, e) ↦ rw (keepalive_1_loop, e) h1
        | inr (inl e) ↦ rw (keepalive_1_loop, e) (loop-Online rounds packet n w1 keeps h1)
        | inr (inr e) ↦ rw (keepalive_1_loop, e) h1
      ]

  challenged-Online :
      (w : World) → Online w → Online (keepalive_1_challenged digests config addr information w).1
  unfolding keepalive_1_challenged
  challenged-Online w h =
      let packet : Bytes = 0x07 ∷ 0x01 ∷ 0x08 ∷ 0x00 ∷ 0x01 ∷ 0x00 ∷ 0x00 ∷ 0x00 ∷ [] in
      let one = keepalive_1_loop keepalive_1_rounds addr packet 12 w in
      let h1 = loop-Online keepalive_1_rounds packet 12 w (asks refl) h in
      let r1 = (random_byte one.1).0 in
      let w2 = (random_byte one.1).1 in
      let r2 = (random_byte w2).0 in
      let w3 = (random_byte w2).1 in
      let h3 =
        Holds-SameSent (random_byte-SameSent w2) (Holds-SameSent (random_byte-SameSent one.1) h1) in
      elim (Option-cases one.0) [
        | inl silent ↦ rw (keepalive_1_challenged, silent) h1
        | inr (bytes, answer) ↦
            let response =
              keepalive_1_response digests config (slice 8 4 bytes) information r1 r2 in
            let h4 =
              retries-Online response (keepalive_1_expected 1) w3
                (responds (slice 8 4 bytes) r1 r2 refl) h3 in
            elim (Option-cases
              (udp_send_recv_expected_with_retries addr response (keepalive_1_expected 1) w3).0) [
                | inl silent ↦ rw (keepalive_1_challenged, answer, silent) h4
                | inr (reply, e) ↦ rw (keepalive_1_challenged, answer, e) h4
              ]
      ]

  direct-Online :
      (w : World) → Online w → Online (keepalive_1_direct digests config addr seed information w).1
  unfolding keepalive_1_direct
  direct-Online w h =
      let r1 = (random_byte w).0 in
      let w1 = (random_byte w).1 in
      let r2 = (random_byte w1).0 in
      let w2 = (random_byte w1).1 in
      let h2 =
        Holds-SameSent (random_byte-SameSent w1) (Holds-SameSent (random_byte-SameSent w) h) in
      let packet = keepalive_1_packet digests config seed information r1 r2 in
      let h3 = loop-Online keepalive_1_rounds packet 1 w2 (tells r1 r2 refl) h2 in
      elim (Option-cases (keepalive_1_loop keepalive_1_rounds addr packet 1 w2).0) [
        | inl silent ↦ rw (keepalive_1_direct, silent) h3
        | inr (bytes, answer) ↦ rw (keepalive_1_direct, answer) h3
      ]

  pub keepalive_1-Online :
      (w : World) → Online w → Online (keepalive_1 digests config addr seed information w).1
  unfolding keepalive_1
  keepalive_1-Online w h =
      if-both (λ (r : Status × World). Online r.1) config.keepalive1_mod _ _ (challenged-Online w h)
        (direct-Online w h)

  pub keepalive_2-Online :
      (n : ℕ) (kind : ExtraKind) (encrypt_type : ℕ) (w : World)
      → Online w
      → Online (keepalive_2 digests (codes "dhcp") config addr n kind encrypt_type w).2
  keepalive_2-Online n kind encrypt_type w h =
      keepalive_2-Holds digests (codes "dhcp") config addr lossy encrypt_type At hears
        (λ n kind type tail sent inbox slept d.
          keep_alive d (counts (codes "dhcp") n kind type encrypt_type tail refl))
        n kind w h
