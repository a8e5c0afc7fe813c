-- ===== src/Eapol/Login/Tries.antt =====
-- drcom/src/eapol.c: the three loops of `eaplogin`, turn by turn.
use jlu_drcom.Base.{
  ℕ, zero, suc, ◌+◌, ◌*◌, ◌≤◌, ◌≡◌, refl, ◌∙◌, Bytes, List, [], ◌∷◌, arith, length, slice, take,
  put_all, slice-put_all_nth,
}
use jlu_drcom.Eapol.{Eapol, eap_res_identity}
use jlu_drcom.Eapol.Filters.{
  Waiting, found, timed_out, refused, faulted, blocked, Verdict, accept, refuse,
}
use jlu_drcom.Eapol.Filters.Laws.{Kept, Ends}
use jlu_drcom.Eapol.Frames.{Sound, Headed, Responding, front}
use jlu_drcom.Eapol.Frames.Responses.{challenge_answer, challenge_stores, eap_res_identity-type}
use jlu_drcom.Packet.{Digests}
use jlu_drcom.Eapol.Login.{tries}
use jlu_drcom.Eapol.Md5.{Safe}

-- From `s` to `t` at most `frames` frames are sent, and at least `seconds` seconds pass.
pub record Progress (frames seconds : ℕ) (s t : Eapol) : Type 0 where
  pub few : length t.sent ≤ length s.sent + frames
  pub late : s.clock + seconds ≤ t.clock

-- How turns end that begin in `P`: with a frame that is accepted, in `Q`; with the time used up, in
-- `P`; with a refusal, in `Q`; or waiting for ever.
unfoldable pub Tried :
    (Eapol → Verdict) → (Eapol → Type 0) → (Eapol → Type 0) → ℕ → Eapol → Waiting → Type 0
Tried verdict P Q turns s (found t) = (verdict t ≡ accept) × Q t × Progress turns 0 s t
Tried verdict P Q turns s (timed_out t) = P t × Progress turns (4 * turns) s t
Tried verdict P Q turns s (refused t) = (verdict t ≡ refuse) × Q t × Progress turns 0 s t
Tried verdict P Q turns s (faulted t) = ⊥
Tried verdict P Q turns s (blocked t) = (t.arrivals ≡ []) × P t × Progress turns 0 s t

module _ (verdict : Eapol → Verdict) (P Q : Eapol → Type 0) where
  -- A turn that goes on, and the turns behind it.
  Tried-again :
      (turns : ℕ) (s t : Eapol) (w : Waiting)
      → Progress 1 (4 * 1) s t
      → Tried verdict P Q turns t w
      → Tried verdict P Q (suc turns) s w
  unfolding Tried
  Tried-again turns s t (found u) p e = (
    e.0,
    e.1,
    record { few = omega (arith, p.few, e.2.few); late = omega (arith, p.late, e.2.late) },
  )
  Tried-again turns s t (timed_out u) p e =
      (e.0, record { few = omega (arith, p.few, e.1.few); late = omega (arith, p.late, e.1.late) })
  Tried-again turns s t (refused u) p e = (
    e.0,
    e.1,
    record { few = omega (arith, p.few, e.2.few); late = omega (arith, p.late, e.2.late) },
  )
  Tried-again turns s t (faulted u) p e = e
  Tried-again turns s t (blocked u) p e = (
    e.0,
    e.1,
    record { few = omega (arith, p.few, e.2.few); late = omega (arith, p.late, e.2.late) },
  )

  weaker : (left : ℕ) (s t : Eapol) → Progress 1 0 s t → Progress (suc left) 0 s t
  weaker left s t p = record { few = omega (arith, p.few); late = p.late }

  module _ (turn : Eapol → Waiting)
      (each : (s : Eapol) → P s → Tried verdict P Q 1 s (turn s)) where
    -- One turn more, for the ways in which a turn ends.
    turn_more :
        (left : ℕ) (s : Eapol) (w : Waiting)
        → turn s ≡ w
        → Tried verdict P Q 1 s w
        → ((t : Eapol) → P t → Tried verdict P Q left t (tries turn left t))
        → Tried verdict P Q (suc left) s (tries turn (suc left) s)
    unfolding Tried tries
    turn_more left s (found t) e h again =
        let p = h.2 in rw (tries, e) (h.0, h.1, weaker left s t p)
    turn_more left s (timed_out t) e h again =
        rw (tries, e) (Tried-again left s t (tries turn left t) h.1 (again t h.0))
    turn_more left s (refused t) e h again =
        let p = h.2 in rw (tries, e) (h.0, h.1, weaker left s t p)
    turn_more left s (faulted t) e h again = absurd h
    turn_more left s (blocked t) e h again =
        let p = h.2 in rw (tries, e) (h.0, h.1, weaker left s t p)

    -- What holds of each turn holds of the loop.
    pub tries-Tried : (left : ℕ) (s : Eapol) → P s → Tried verdict P Q left s (tries turn left s)
    unfolding Tried tries
    tries-Tried zero s h = (h, record { few = omega arith; late = omega arith })
    tries-Tried (suc left) s h = turn_more left s (turn s) refl (each s h) (tries-Tried left)

-- The states in which the loops begin.
pub record Beginning (mac : Bytes) (s : Eapol) : Type 0 where
  pub sound : Sound mac s
  pub safe : Safe s

pub record AfterStart (mac : Bytes) (s : Eapol) : Type 0 where
  pub headed : Headed mac s
  pub safe : Safe s

pub record AfterIdentity (mac : Bytes) (s : Eapol) : Type 0 where
  pub responding : Responding mac s
  pub safe : Safe s

-- The frame that was sent last is a response of this type: 1 carries the name, 4 the answer to a
-- challenge.
pub record LastSent (type : ℕ) (s : Eapol) : Type 0 where
  pub frame : Bytes
  pub before : List Bytes
  pub newest : s.sent ≡ frame ∷ before
  pub type_is : slice 22 1 frame ≡ type ∷ []

pub Kept-LastSent : {type : ℕ} {s t : Eapol} → Kept s t → LastSent type s → LastSent type t
Kept-LastSent k h = record {
  frame = h.frame;
  before = h.before;
  newest = k.same_sent ∙ h.newest;
  type_is = h.type_is;
}

-- Behind a turn of the second loop, and of the third.
pub record Identified (mac : Bytes) (s : Eapol) : Type 0 where
  pub after : AfterIdentity mac s
  pub last : LastSent 0x01 s

pub record Answered (mac : Bytes) (s : Eapol) : Type 0 where
  pub after : AfterIdentity mac s
  pub last : LastSent 0x04 s

-- A turn that sends one frame and waits.
pub waited :
    (verdict : Eapol → Verdict) (P Q : Eapol → Type 0) (s u : Eapol) (w : Waiting)
    → ((t : Eapol) → Kept u t → Q t)
    → ((t : Eapol) → Kept u t → P t)
    → length u.sent ≤ length s.sent + 1
    → u.clock ≡ s.clock
    → Ends verdict u.clock u w
    → Tried verdict P Q 1 s w
unfolding Tried Ends
waited verdict P Q s u (found t) q p sends clock e =
    (e.0, q t e.1, record { few = rw e.1.same_sent sends; late = omega (arith, e.1.later) })
waited verdict P Q s u (timed_out t) q p sends clock e =
    (p t e.1, record { few = rw e.1.same_sent sends; late = omega arith })
waited verdict P Q s u (refused t) q p sends clock e =
    (e.0, q t e.1, record { few = rw e.1.same_sent sends; late = omega (arith, e.1.later) })
waited verdict P Q s u (faulted t) q p sends clock e = e.1
waited verdict P Q s u (blocked t) q p sends clock e =
    (e.0, p t e.1, record { few = rw e.1.same_sent sends; late = omega (arith, e.1.later) })

-- The two responses are sent last.
pub eap_res_identity-LastSent :
    (mac : Bytes) (s : Eapol) → Headed mac s → LastSent 0x01 (eap_res_identity s)
unfolding eap_res_identity jlu_drcom.Eapol.transmit
eap_res_identity-LastSent mac s h =
    let u = eap_res_identity s in
    let room = h.sound.send_size in
    record {
      frame = take 104 u.sendbuff;
      before = s.sent;
      newest = refl;
      type_is = front 22 1 104 u.sendbuff (omega arith) (eap_res_identity-type mac s h);
    }

pub challenge_answer-LastSent :
    (s : Eapol) (digests : Digests) (text : Bytes) (n : ℕ)
    → length s.sendbuff ≡ 512
    → LastSent 0x04 (challenge_answer s digests text n)
unfolding challenge_answer challenge_stores
challenge_answer-LastSent s digests text n room =
    let stores = challenge_stores s digests text n in
    record {
      frame = take 104 (put_all stores s.sendbuff);
      before = s.sent;
      newest = refl;
      type_is =
          front 22 1 104 (put_all stores s.sendbuff) (omega arith)
            (slice-put_all_nth 2 stores s.sendbuff 22 1 _ refl refl (omega arith) (omega arith));
    }
