-- ===== src/Tests/Stay.antt =====
-- A session of one round, with a server that answers each packet.
use jlu_drcom.Auth.Dogcom.{attempt, unfinished}
use jlu_drcom.Auth.Dogcom.Stay.{attempt-unfinished}
use jlu_drcom.Auth.Dogcom.Welcome.{working}
use jlu_drcom.Auth.Exchange.{challenge_expected, login_expected}
use jlu_drcom.Auth.Session.Served.{Served}
use jlu_drcom.Base.{ℕ, ◌≡◌, refl, inl, false, Bytes, List, [], ◌∷◌, some, none, pos, zeros, arith}
use jlu_drcom.Keepalive.First.{keepalive_1_expected}
use jlu_drcom.Keepalive.Second.{reply_to}
use jlu_drcom.Keepalive.First.Served.{First}
use jlu_drcom.Keepalive.Second.Served.{Extra}
use jlu_drcom.Tests.Data.{stranger, flat_digests, campus, server_address}
use jlu_drcom.Tests.Protocol.{challenge_reply, first_login_built}
use jlu_drcom.Tests.Sessions.{welcome}
use jlu_drcom.Udp.{
  receive_from, accepts, packet_source_matches, packet_matches_expected, Expected, Incoming, World,
  datagram, timeout,
}
use jlu_drcom.Udp.Laws.{Delivery, receive_from-iff-Delivery}
use jlu_drcom.Udp.Served.{Serving}

-- A keepalive reply with a number, a length, a type, and zeros behind.
abbrev kept : ℕ → ℕ → ℕ → Bytes
kept number size type = 0x07 ∷ number ∷ size ∷ 0x00 ∷ 0x0b ∷ type ∷ zeros 34

-- What arrives, from its end: the replies to the three packets of `keepalive_2`, to `keepalive_1`, to
-- the login and to the challenge, with stray datagrams in between.
abbrev after_first : List Incoming
after_first = datagram server_address (kept 2 0x28 4) ∷ []

abbrev after_extra : List Incoming
after_extra =
    datagram stranger (kept 1 0x28 2) ∷ datagram server_address (kept 1 0x28 2) ∷ after_first

abbrev after_one : List Incoming
after_one =
    datagram server_address (0x4d ∷ []) ∷ datagram server_address (kept 0 0x10 6) ∷ after_extra

abbrev after_login : List Incoming
after_login = timeout ∷ datagram server_address (0x07 ∷ []) ∷ after_one

abbrev after_challenge : List Incoming
after_challenge = datagram server_address welcome ∷ after_login

abbrev all_replies : List Incoming
all_replies =
    datagram stranger challenge_reply ∷ datagram server_address challenge_reply ∷ after_challenge

delivery :
    (e : Expected) (inbox : List Incoming) (bytes : Bytes) (rest : List Incoming)
    → receive_from server_address e inbox ≡ (some bytes, rest)
    → Delivery server_address e inbox bytes rest
delivery e inbox bytes rest given =
    (receive_from-iff-Delivery server_address e inbox bytes rest).0 given

one_round :
    Served campus server_address 1 0 0 (datagram server_address (0x07 ∷ []) ∷ after_one) 3 []
unfolding receive_from accepts packet_source_matches packet_matches_expected
one_round =
    Served.round_served
      (First.direct (delivery (keepalive_1_expected 1) _ (0x07 ∷ []) after_one refl))
      (Extra.due (λ e. cc)
        (delivery (reply_to 0 none none 3) after_one (kept 0 0x10 6) after_extra refl) (inl refl))
      (record {
        between = after_first;
        first_reply = kept 1 0x28 2;
        third_reply = kept 2 0x28 4;
        first =
            delivery (reply_to 1 (some 0x28) (some 0x02) 20) after_extra (kept 1 0x28 2) after_first
              refl;
        third = delivery (reply_to 2 (some 0x28) (some 0x04) 6) after_first (kept 2 0x28 4) [] refl;
      })
      Served.all_served

challenge_delivered :
    Delivery server_address (challenge_expected 2 7 44) all_replies challenge_reply after_challenge
unfolding receive_from accepts packet_source_matches packet_matches_expected
challenge_delivered =
    delivery (challenge_expected 2 7 44) all_replies challenge_reply after_challenge refl

login_delivered : Delivery server_address login_expected after_challenge welcome after_login
unfolding receive_from accepts packet_source_matches packet_matches_expected
login_delivered = delivery login_expected after_challenge welcome after_login refl

attempt-unfinished_example :
    (w : World) × (attempt flat_digests campus server_address 1 (record {
      login_failed_attempts = 0;
      retry_delay = pos 60;
      outside = working all_replies [] (7 ∷ 300 ∷ []) (false ∷ []) [];
    })
      ≡ unfinished w)
    × Serving [] (20 ∷ []) w
attempt-unfinished_example =
    attempt-unfinished flat_digests campus server_address 1 7 300 0 [] [] [] (pos 60)
      challenge_reply welcome first_login_built.0 first_login_built.1 challenge_delivered
      login_delivered refl (omega arith) one_round
