-- ===== src/Eapol/Login/KeepAlive.antt =====
-- drcom/src/eapol.c: how often `eap_keep_alive` answers.
use jlu_drcom.Base.{
  ℕ, zero, suc, ◌+◌, ◌-◌, ◌*◌, ◌≤◌, ◌≡◌, refl, ap, length, arith, leb, Bool-cases, inl, inr,
}
use jlu_drcom.Eapol.{Eapol, eap_res_identity}
use jlu_drcom.Eapol.Filters.{
  Waiting, found, timed_out, refused, faulted, blocked, req_identity, filte_req_identity,
}
use jlu_drcom.Eapol.Filters.Laws.{Ends, receive_until-Ends}
use jlu_drcom.Eapol.Login.{eap_keep_alive}

filter-Ends : (s : Eapol) → Ends req_identity s.clock s (filte_req_identity s)
unfolding filte_req_identity
filter-Ends s = receive_until-Ends req_identity s.clock s.arrivals s refl

res_identity-sent :
    (s : Eapol)
    → (length (eap_res_identity s).sent ≡ suc (length s.sent))
      × ((eap_res_identity s).clock ≡ s.clock)
unfolding eap_res_identity jlu_drcom.Eapol.transmit
res_identity-sent s = (refl, refl)

-- Answers from `stime` on take eleven seconds each.
abbrev Spaced : ℕ → Eapol → Eapol → Type 0
Spaced stime s t = 11 * length t.sent + stime ≤ 11 * length s.sent + t.clock

-- One turn of the loop, and the turns behind it.
keep_alive_turn :
    (rounds stime : ℕ) (s : Eapol) (w : Waiting)
    → filte_req_identity s ≡ w
    → Ends req_identity s.clock s w
    → stime ≤ s.clock
    → ((stime' : ℕ) (u : Eapol)
        → stime' ≤ u.clock
        → Spaced stime' u (eap_keep_alive rounds stime' u))
    → Spaced stime s (eap_keep_alive (suc rounds) stime s)
unfolding Ends eap_keep_alive
keep_alive_turn rounds stime s (found t) e (good, k) past more =
    let sent : length t.sent ≡ length s.sent = ap length k.same_sent in
    let later = k.later in
    let (answered, clock) = res_identity-sent t in
    elim (Bool-cases (leb (t.clock - stime) 10)) [
      | inl soon ↦
          let rest = more t.clock t (omega arith) in
          rw (eap_keep_alive, e, soon) (omega (arith, rest, sent))
      | inr due ↦
          let apart : 11 + stime ≤ t.clock = ground arith in
          let rest = more t.clock (eap_res_identity t) (omega (arith, clock)) in
          rw (eap_keep_alive, e, due) (omega (arith, rest, sent, answered, clock, apart))
    ]
keep_alive_turn rounds stime s (timed_out t) e (late, k) past more =
    let rest = more stime t (omega (arith, k.later)) in
    let sent : length t.sent ≡ length s.sent = ap length k.same_sent in
    rw (eap_keep_alive, e) (omega (arith, rest, sent))
keep_alive_turn rounds stime s (refused t) e (bad, k) past more =
    let rest = more stime t (omega (arith, k.later)) in
    let sent : length t.sent ≡ length s.sent = ap length k.same_sent in
    rw (eap_keep_alive, e) (omega (arith, rest, sent))
keep_alive_turn rounds stime s (faulted t) e h past more = absurd h.1
keep_alive_turn rounds stime s (blocked t) e (none_left, k) past more =
    let sent : length t.sent ≡ length s.sent = ap length k.same_sent in
    rw (eap_keep_alive, e) (omega (arith, sent, k.later))

-- However often the loop turns from `stime` on, eleven times the number of its answers is at most the
-- number of seconds that have passed.
pub eap_keep_alive-Spaced :
    (rounds stime : ℕ) (s : Eapol)
    → stime ≤ s.clock
    → 11 * length (eap_keep_alive rounds stime s).sent + stime
      ≤ 11 * length s.sent + (eap_keep_alive rounds stime s).clock
unfolding eap_keep_alive
eap_keep_alive-Spaced zero stime s past = omega arith
eap_keep_alive-Spaced (suc rounds) stime s past =
    keep_alive_turn rounds stime s (filte_req_identity s) refl (filter-Ends s) past
      (eap_keep_alive-Spaced rounds)
