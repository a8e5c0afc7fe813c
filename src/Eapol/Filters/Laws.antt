-- ===== src/Eapol/Filters/Laws.antt =====
-- drcom/src/eapol.c: what the loops that wait for a frame keep, and when they end.
use jlu_drcom.Base.{
  ℕ, ◌-◌, ◌<◌, ◌≤◌, ◌≡◌, ◌∙◌, ◌⊎◌, refl, Bytes, List, [], ◌∷◌, Option, none, some, arith, length,
  take, length-put, leb, Bool-cases, inl, inr,
}
use jlu_drcom.Eapol.{Eapol, Arrival, arrived, buff_len}
use jlu_drcom.Eapol.Filters.{
  Waiting, found, timed_out, refused, faulted, blocked, Verdict, accept, refuse, ignore,
  timeout_seconds, received, receive, receive_until,
}

-- What waiting does not touch.
pub record Kept (s t : Eapol) : Type 0 where
  pub same_sendbuff : t.sendbuff ≡ s.sendbuff
  pub same_mac : t.client_mac ≡ s.client_mac
  pub same_uname : t.uname ≡ s.uname
  pub same_pwd : t.pwd ≡ s.pwd
  pub same_pwdlen : t.pwdlen ≡ s.pwdlen
  pub same_sent : t.sent ≡ s.sent
  pub same_size : length t.recvbuff ≡ length s.recvbuff
  pub later : s.clock ≤ t.clock

pub Kept-refl : (s : Eapol) → Kept s s
Kept-refl s = record {
  same_sendbuff = refl;
  same_mac = refl;
  same_uname = refl;
  same_pwd = refl;
  same_pwdlen = refl;
  same_sent = refl;
  same_size = refl;
  later = omega arith;
}

Kept-trans : {s t u : Eapol} → Kept s t → Kept t u → Kept s u
Kept-trans a b = record {
  same_sendbuff = b.same_sendbuff ∙ a.same_sendbuff;
  same_mac = b.same_mac ∙ a.same_mac;
  same_uname = b.same_uname ∙ a.same_uname;
  same_pwd = b.same_pwd ∙ a.same_pwd;
  same_pwdlen = b.same_pwdlen ∙ a.same_pwdlen;
  same_sent = b.same_sent ∙ a.same_sent;
  same_size = b.same_size ∙ a.same_size;
  later = omega (arith, a.later, b.later);
}

length-received :
    (frame : Option Bytes) (recvbuff : Bytes) → length (received frame recvbuff) ≡ length recvbuff
length-received none recvbuff = refl
length-received (some frame) recvbuff = length-put 0 (take buff_len frame) recvbuff

receive-Kept :
    (seconds : ℕ) (frame : Option Bytes) (more : List Arrival) (s : Eapol)
    → Kept s (receive seconds frame more s)
receive-Kept seconds frame more s = record {
  same_sendbuff = refl;
  same_mac = refl;
  same_uname = refl;
  same_pwd = refl;
  same_pwdlen = refl;
  same_sent = refl;
  same_size = length-received frame s.recvbuff;
  later = omega arith;
}

Verdict-cases : (v : Verdict) → (v ≡ accept) ⊎ (v ≡ refuse) ⊎ (v ≡ ignore)
Verdict-cases accept = inl refl
Verdict-cases refuse = inr (inl refl)
Verdict-cases ignore = inr (inr refl)

-- What is known of a state where a loop ends.
unfoldable pub Ends : (Eapol → Verdict) → ℕ → Eapol → Waiting → Type 0
Ends verdict stime s (found t) = (verdict t ≡ accept) × Kept s t
Ends verdict stime s (timed_out t) = (timeout_seconds < t.clock - stime) × Kept s t
Ends verdict stime s (refused t) = (verdict t ≡ refuse) × Kept s t
Ends verdict stime s (faulted t) = Kept s t × ⊥
Ends verdict stime s (blocked t) = (t.arrivals ≡ []) × Kept s t

Ends-Kept :
    (verdict : Eapol → Verdict) (stime : ℕ) (s t : Eapol) (w : Waiting)
    → Kept s t
    → Ends verdict stime t w
    → Ends verdict stime s w
unfolding Ends
Ends-Kept verdict stime s t (found u) k e = (e.0, Kept-trans k e.1)
Ends-Kept verdict stime s t (timed_out u) k e = (e.0, Kept-trans k e.1)
Ends-Kept verdict stime s t (refused u) k e = (e.0, Kept-trans k e.1)
Ends-Kept verdict stime s t (faulted u) k e = (Kept-trans k e.0, e.1)
Ends-Kept verdict stime s t (blocked u) k e = (e.0, Kept-trans k e.1)

-- The loop ends with a frame that its test accepts or refuses, or when more than three seconds have
-- passed, or it waits and nothing is left to arrive; it touches only what it receives into.
pub receive_until-Ends :
    (verdict : Eapol → Verdict) (stime : ℕ) (arrivals : List Arrival) (s : Eapol)
    → s.arrivals ≡ arrivals
    → Ends verdict stime s (receive_until verdict stime arrivals s)
unfolding receive_until Ends
receive_until-Ends verdict stime [] s h =
    elim (Bool-cases (leb (s.clock - stime) timeout_seconds)) [
      | inl waiting ↦ rw (receive_until, waiting) (h, Kept-refl s)
      | inr late ↦ rw (receive_until, late) (ground arith, Kept-refl s)
    ]
receive_until-Ends verdict stime (arrived seconds frame ∷ more) s h =
    let t = receive seconds frame more s in
    let k = receive-Kept seconds frame more s in
    let later =
      Ends-Kept verdict stime s t (receive_until verdict stime more t) k
        (receive_until-Ends verdict stime more t refl) in
    elim (Bool-cases (leb (s.clock - stime) timeout_seconds)) [
      | inr late ↦ rw (receive_until, late) (ground arith, Kept-refl s)
      | inl waiting ↦ elim (Verdict-cases (verdict t)) [
        | inl taken ↦ rw (receive_until, waiting, taken) (taken, k)
        | inr (inl bad) ↦ rw (receive_until, waiting, bad) (bad, k)
        | inr (inr other) ↦ rw (receive_until, waiting, other) later
      ]
    ]
