-- ===== src/RetryPolicy/Laws.antt =====
-- drcom/src/retry_policy.c, over whole histories of exchanges and attempts.
use jlu_drcom.Base.{ℕ, ◌+◌, ◌%◌, ◌≤◌, ◌≡◌, ◌↔◌, refl, Bool, true, false, List, [], ◌∷◌, arith}
use jlu_drcom.Base.{◌≢◌}
use jlu_drcom.Base.{ℤ, pos}
use jlu_drcom.RetryPolicy.{
  standard, jlu, extra_first, extra_periodic, next_keepalive_failure_count,
  should_reconnect_after_keepalive_failure, login_template_for_attempt, keepalive_extra_packet_kind,
}

-- The counter after a history of exchanges, the newest first, from 0.
pub failure_count : List Bool → ℤ
failure_count [] = pos 0
failure_count (succeeded ∷ before) = next_keepalive_failure_count (failure_count before) succeeded

-- The failures since the last success, by their own recursion.
pub trailing_failures : List Bool → ℕ
trailing_failures [] = 0
trailing_failures (true ∷ before) = 0
trailing_failures (false ∷ before) = trailing_failures before + 1

failure_count-trailing :
    (history : List Bool) → failure_count history ≡ pos (trailing_failures history)
unfolding failure_count trailing_failures next_keepalive_failure_count
failure_count-trailing [] = refl
failure_count-trailing (true ∷ before) = refl
failure_count-trailing (false ∷ before) = rw (failure_count-trailing before)

-- After any history of keepalive exchanges, newest first, the client gives the session up exactly
-- when the newest six or more exchanges all failed.
pub reconnect-iff-trailing :
    (history : List Bool)
    → (should_reconnect_after_keepalive_failure (failure_count history) ≡ true)
      ↔ (6 ≤ trailing_failures history)
unfolding should_reconnect_after_keepalive_failure
reconnect-iff-trailing history = rw (failure_count-trailing history) (ground arith)

-- In JLU mode every attempt uses the JLU template. Outside it the attempts behind 0, 1 and 2 failures
-- use the standard one, and from the third failure on two attempts in a row never use the same.
pub login_template_for_attempt_alternates :
    (n : ℕ)
    → 3 ≤ n
    → (login_template_for_attempt true (pos n) ≡ jlu)
      × (login_template_for_attempt false (pos (n % 3)) ≡ standard)
      × (login_template_for_attempt false (pos n) ≢ login_template_for_attempt false (pos (n + 1)))
unfolding login_template_for_attempt
login_template_for_attempt_alternates n h = (refl, ground arith, λ e. ground arith)

-- In JLU mode the extra packet is the first one exactly in round 0, and a periodic one exactly in
-- the later rounds whose number is a multiple of ten.
pub keepalive_extra_packet_kind_schedule :
    (rounds : ℕ)
    → ((keepalive_extra_packet_kind (pos rounds) ≡ extra_first) ↔ (rounds ≡ 0))
      × ((keepalive_extra_packet_kind (pos rounds) ≡ extra_periodic)
          ↔ ((1 ≤ rounds) × (rounds % 10 ≡ 0)))
unfolding keepalive_extra_packet_kind
keepalive_extra_packet_kind_schedule rounds = ground arith
