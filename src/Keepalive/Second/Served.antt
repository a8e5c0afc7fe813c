-- ===== src/Keepalive/Second/Served.antt =====
-- drcom/src/keepalive.c: `keepalive_2` with a server that answers, whatever else arrives in between.
use mathlib.Core.Path.{subst}
use jlu_drcom.Base.{
  ℕ, ◌+◌, ◌%◌, ◌≡◌, ◌≢◌, ◌⊎◌, Option, refl, sym, inl, inr, true, Bytes, List, [], ◌∷◌, ◌==◌, some,
  none, get_or, slice, success, arith,
}
use jlu_drcom.Config.{Config}
use jlu_drcom.Keepalive.Second.{
  keepalive_2, keepalive_2_extra, keepalive_2_exchange, keepalive_2_pair, keepalive_2_packet,
  reply_to,
}
use jlu_drcom.Packet.{Digests}
use jlu_drcom.RetryPolicy.{ExtraKind, extra_none, extra_first, extra_periodic}
use jlu_drcom.Udp.{
  Address, Incoming, World, accepts, packet_matches_expected, expected_byte_matches,
}
use jlu_drcom.Udp.Laws.{Delivery}
use jlu_drcom.Udp.Served.{Serving, retries-Serving}

-- The replies to the extra packet of `keepalive_2`, where one is due, and the number behind it.
pub data Extra (addr : Address) (n : ℕ)
    : ExtraKind → ℕ → List Incoming → List Incoming → Type 0 where
  not_due : {inbox : List Incoming} → Extra addr n extra_none n inbox inbox
  due :
      {inbox rest : List Incoming} {kind : ExtraKind} {bytes : Bytes}
      → kind ≢ extra_none
      → Delivery addr (reply_to (n % 0xff) none none 3) inbox bytes rest
      → (get_or bytes 2 0 ≡ 0x10) ⊎ (get_or bytes 2 0 ≡ 0x28)
      → Extra addr n kind (n + 1) inbox rest

-- The replies to the two packets behind it.
pub record Pair (addr : Address) (n : ℕ) (inbox rest : List Incoming) : Type 0 where
  pub between : List Incoming
  pub first_reply : Bytes
  pub third_reply : Bytes
  pub first :
      Delivery addr (reply_to (n % 0xff) (some 0x28) (some 0x02) 20) inbox first_reply between
  pub third :
      Delivery addr (reply_to ((n + 1) % 0xff) (some 0x28) (some 0x04) 6) between third_reply rest

code_of_second :
    (addr from : Address) (n minimum_length : ℕ) (third sixth : Option ℕ) (bytes : Bytes)
    → accepts addr (reply_to n third sixth minimum_length) from bytes ≡ true
    → (get_or bytes 0 0 == 0x07) ≡ true
unfolding accepts packet_matches_expected expected_byte_matches
code_of_second addr from n minimum_length third sixth bytes h = ground (arith, h)

length_of_second :
    (addr from : Address) (n sixth minimum_length : ℕ) (bytes : Bytes)
    → accepts addr (reply_to n (some 0x28) (some sixth) minimum_length) from bytes ≡ true
    → (get_or bytes 2 0 == 0x28) ≡ true
unfolding accepts packet_matches_expected expected_byte_matches
length_of_second addr from n sixth minimum_length bytes h = ground (arith, h)

module _ (digests : Digests) (mode : Bytes) (config : Config) (addr : Address) {slept : List ℕ}
    {inbox rest : List Incoming} where
  keepalive_2_exchange-Serving :
      {bytes : Bytes} (n type encrypt_type : ℕ) (tail : List (ℕ × Bytes)) (sixth minimum_length : ℕ)
      (w : World)
      → Serving inbox slept w
      → Delivery addr (reply_to (n % 0xff) (some 0x28) (some sixth) minimum_length) inbox bytes rest
      → let r =
          keepalive_2_exchange digests mode config addr n type encrypt_type tail sixth
            minimum_length w in
        (r.0 ≡ some bytes) × (r.1 ≡ n + 1) × Serving rest slept r.2
  unfolding keepalive_2_exchange
  keepalive_2_exchange-Serving {bytes} n type encrypt_type tail sixth minimum_length w h d =
      let (reply, served) =
        retries-Serving addr
          (keepalive_2_packet digests mode config n extra_none type encrypt_type tail)
          (reply_to (n % 0xff) (some 0x28) (some sixth) minimum_length) w h d in
      let code =
        code_of_second addr d.from (n % 0xff) minimum_length (some 0x28) (some sixth) bytes
          d.accepted in
      let is28 = length_of_second addr d.from (n % 0xff) sixth minimum_length bytes d.accepted in
      rw (keepalive_2_exchange, reply, code, is28) (refl, refl, served)

  extra_due :
      {bytes : Bytes} (n : ℕ) (kind : ExtraKind) (encrypt_type : ℕ) (w : World)
      → Serving inbox slept w
      → kind ≢ extra_none
      → Delivery addr (reply_to (n % 0xff) none none 3) inbox bytes rest
      → (get_or bytes 2 0 ≡ 0x10) ⊎ (get_or bytes 2 0 ≡ 0x28)
      → let r = keepalive_2_extra digests mode config addr n kind encrypt_type w in
        (r.0 ≡ success) × (r.1 ≡ n + 1) × Serving rest slept r.2
  unfolding keepalive_2_extra
  extra_due n extra_none encrypt_type w h must d third = absurd (must refl)
  extra_due {bytes} n extra_first encrypt_type w h must d third =
      let (reply, served) =
        retries-Serving addr
          (keepalive_2_packet digests mode config n extra_first 1 encrypt_type [])
          (reply_to (n % 0xff) none none 3) w h d in
      let code = code_of_second addr d.from (n % 0xff) 3 none none bytes d.accepted in
      elim third [
        | inl is10 ↦ rw (keepalive_2_extra, reply, code, is10) (refl, refl, served)
        | inr is28 ↦ rw (keepalive_2_extra, reply, code, is28) (refl, refl, served)
      ]
  extra_due {bytes} n extra_periodic encrypt_type w h must d third =
      let (reply, served) =
        retries-Serving addr
          (keepalive_2_packet digests mode config n extra_periodic 1 encrypt_type [])
          (reply_to (n % 0xff) none none 3) w h d in
      let code = code_of_second addr d.from (n % 0xff) 3 none none bytes d.accepted in
      elim third [
        | inl is10 ↦ rw (keepalive_2_extra, reply, code, is10) (refl, refl, served)
        | inr is28 ↦ rw (keepalive_2_extra, reply, code, is28) (refl, refl, served)
      ]

module _ (digests : Digests) (mode : Bytes) (config : Config) (addr : Address)
    {slept : List ℕ} where
  keepalive_2_extra-Serving :
      {inbox rest : List Incoming} (n : ℕ) (kind : ExtraKind) (m encrypt_type : ℕ) (w : World)
      → Serving inbox slept w
      → Extra addr n kind m inbox rest
      → let r = keepalive_2_extra digests mode config addr n kind encrypt_type w in
        (r.0 ≡ success) × (r.1 ≡ m) × Serving rest slept r.2
  keepalive_2_extra-Serving n extra_none m encrypt_type w h Extra.not_due =
      unfold keepalive_2_extra in (refl, refl, h)
  keepalive_2_extra-Serving n extra_none m encrypt_type w h (Extra.due must d third) =
      absurd (must refl)
  keepalive_2_extra-Serving n extra_first m encrypt_type w h (Extra.due must d third) =
      extra_due digests mode config addr n extra_first encrypt_type w h must d third
  keepalive_2_extra-Serving n extra_periodic m encrypt_type w h (Extra.due must d third) =
      extra_due digests mode config addr n extra_periodic encrypt_type w h must d third

  keepalive_2_pair-Serving :
      {inbox rest : List Incoming} (n encrypt_type : ℕ) (w : World)
      → Serving inbox slept w
      → Pair addr n inbox rest
      → let r = keepalive_2_pair digests mode config addr n encrypt_type w in
        (r.0 ≡ success) × (r.1 ≡ n + 2) × Serving rest slept r.2
  unfolding keepalive_2_pair
  keepalive_2_pair-Serving {rest = rest} n encrypt_type w h p =
      let one = keepalive_2_exchange digests mode config addr n 1 encrypt_type [] 0x02 20 w in
      let (reply, counted, h1) =
        keepalive_2_exchange-Serving digests mode config addr n 1 encrypt_type [] 0x02 20 w h
          p.first in
      let tail : List (ℕ × Bytes) = (16, slice 16 4 p.first_reply) ∷ [] in
      let due =
        subst
          (λ k.
            Delivery addr (reply_to (k % 0xff) (some 0x28) (some 0x04) 6) p.between p.third_reply
              rest)
          (sym counted) p.third in
      let (reply2, counted2, h2) =
        keepalive_2_exchange-Serving digests mode config addr (one.1) 3 encrypt_type tail 0x04 6
          (one.2) h1 due in
      rw (keepalive_2_pair, reply, reply2) (refl, ground (arith, counted, counted2), h2)

  pub keepalive_2-Serving :
      {inbox between rest : List Incoming} (n : ℕ) (kind : ExtraKind) (m encrypt_type : ℕ)
      (w : World)
      → Serving inbox slept w
      → Extra addr n kind m inbox between
      → Pair addr m between rest
      → let r = keepalive_2 digests mode config addr n kind encrypt_type w in
        (r.0 ≡ success) × (r.1 ≡ m + 2) × Serving rest slept r.2
  unfolding keepalive_2
  keepalive_2-Serving n kind m encrypt_type w h x p =
      let (fine, counted, h1) = keepalive_2_extra-Serving n kind m encrypt_type w h x in
      let (fine2, counted2, h2) = keepalive_2_pair-Serving m encrypt_type _ h1 p in
      rw (keepalive_2, fine, counted) (fine2, counted2, h2)
