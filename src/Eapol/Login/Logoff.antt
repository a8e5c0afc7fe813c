-- ===== src/Eapol/Login/Logoff.antt =====
-- drcom/src/eapol.c: `eaplogoff`.
use jlu_drcom.Base.{
  ℕ, zero, suc, ◌+◌, ◌≤◌, ◌≡◌, ◌∙◌, refl, ap, Bytes, List, [], ◌∷◌, arith, length, slice, get_or,
  pos, negsuc, slice-put_all_nth, put_all,
}
use jlu_drcom.Eapol.{Eapol, eapol_logoff, transmit, broadcast_mac, ethii_8021x}
use jlu_drcom.Eapol.Filters.{
  Waiting, found, timed_out, refused, faulted, blocked, success_frame, filte_success,
}
use jlu_drcom.Eapol.Filters.Answers.{IsAnswer, success_frame-refuse}
use jlu_drcom.Eapol.Filters.Laws.{Kept, Ends, receive_until-Ends}
use jlu_drcom.Eapol.Frames.{Sound, AllFrames, Kept-Sound}
use jlu_drcom.Eapol.Frames.Start.{eapol_logoff-Headed}
use jlu_drcom.Eapol.Login.{
  Interface, Result, returned, overrun, waits, tries, logoff_turn, after_logoff, eaplogoff,
}
use jlu_drcom.Eapol.Login.Outcome.{usable, eapol_init-usable}

-- From `s` to `t` so many frames have been sent, in order; the buffers are as they have to be.
pub record SentBehind (mac : Bytes) (before : List Bytes) (frames : ℕ) (t : Eapol) : Type 0 where
  pub sound : Sound mac t
  pub count : length t.sent ≡ length before + frames

abbrev pub SentOff : Bytes → ℕ → Eapol → Eapol → Type 0
SentOff mac frames s t = SentBehind mac s.sent frames t

-- The frame is a refusal that carries the id of a logoff.
pub record IsLogoffAnswer (t : Eapol) : Type 0 where
  pub refusal : IsAnswer 0x04 t
  pub id : get_or t.recvbuff 19 0 ≡ 255

get_or-slice : (i : ℕ) (buf : Bytes) (x : ℕ) → slice i 1 buf ≡ x ∷ [] → get_or buf i 0 ≡ x
get_or-slice zero [] x e = cc
get_or-slice (suc i) [] x e = cc
get_or-slice zero (c ∷ buf) x e = cc
get_or-slice (suc i) (c ∷ buf) x e = get_or-slice i buf x e

logoff_stores : Eapol → List (ℕ × Bytes)
logoff_stores s =
    (0, broadcast_mac)
    ∷ (6, s.client_mac)
    ∷ (12, ethii_8021x)
    ∷ (14, 0x01 ∷ [])
    ∷ (15, 0x02 ∷ [])
    ∷ (16, 0 ∷ 0 ∷ [])
    ∷ (19, 255 ∷ [])
    ∷ []

logoff_id : (s : Eapol) → length s.sendbuff ≡ 512 → get_or (eapol_logoff s).sendbuff 19 0 ≡ 255
unfolding eapol_logoff transmit logoff_stores
logoff_id s room =
    get_or-slice 19 (put_all (logoff_stores s) s.sendbuff) 255
      (slice-put_all_nth 6 (logoff_stores s) s.sendbuff 19 1 (255 ∷ []) refl refl (omega arith) tt)

-- How turns of the loop end.
unfoldable pub TriedOff : Bytes → ℕ → Eapol → Waiting → Type 0
TriedOff mac left s (found t) = ⊥
TriedOff mac left s (timed_out t) = SentOff mac left s t
TriedOff mac left s (refused t) =
    IsLogoffAnswer t × ((k : ℕ) × (1 ≤ k) × (k ≤ left) × SentOff mac k s t)
TriedOff mac left s (faulted t) = ⊥
TriedOff mac left s (blocked t) =
    (t.arrivals ≡ []) × ((k : ℕ) × (1 ≤ k) × (k ≤ left) × SentOff mac k s t)

module _ (mac : Bytes) where
  one_sent : (s t : Eapol) → Sound mac s → Kept (eapol_logoff s) t → SentOff mac 1 s t
  one_sent s t sound k = record {
    sound = Kept-Sound k (eapol_logoff-Headed mac s sound).sound;
    count =
        ap (λ (frames : List Bytes). length frames) k.same_sent
        ∙ unfold eapol_logoff transmit in omega arith;
  }

  turn-TriedOff :
      (s : Eapol) (w : Waiting)
      → Sound mac s
      → filte_success (eapol_logoff s) ≡ w
      → Ends success_frame (eapol_logoff s).clock (eapol_logoff s) w
      → TriedOff mac 1 s (logoff_turn s)
  unfolding TriedOff Ends logoff_turn
  turn-TriedOff s (found t) sound e ends = rw (logoff_turn, e) (one_sent s t sound ends.1)
  turn-TriedOff s (timed_out t) sound e ends = rw (logoff_turn, e) (one_sent s t sound ends.1)
  turn-TriedOff s (refused t) sound e ends =
      let answer = success_frame-refuse t ends.0 in
      let marked : get_or t.sendbuff 19 0 ≡ 255 =
        ap (λ (buf : Bytes). get_or buf 19 0) ends.1.same_sendbuff ∙ logoff_id s sound.send_size in
      rw (logoff_turn, e)
        (
          record { refusal = answer; id = answer.same_id ∙ marked },
          (1, omega arith, omega arith, one_sent s t sound ends.1),
        )
  turn-TriedOff s (faulted t) sound e ends = absurd ends.1
  turn-TriedOff s (blocked t) sound e ends =
      rw (logoff_turn, e) (ends.0, (1, omega arith, omega arith, one_sent s t sound ends.1))

  SentOff-trans :
      (m n : ℕ) (s t u : Eapol) → SentOff mac m s t → SentOff mac n t u → SentOff mac (m + n) s u
  SentOff-trans m n s t u p q = record { sound = q.sound; count = omega (arith, p.count, q.count) }

  more-TriedOff :
      (left : ℕ) (s t : Eapol) (w : Waiting)
      → SentOff mac 1 s t
      → TriedOff mac left t w
      → TriedOff mac (suc left) s w
  unfolding TriedOff
  more-TriedOff left s t (found u) p e = e
  more-TriedOff left s t (timed_out u) p e = record {
    sound = e.sound;
    count = omega (arith, p.count, e.count);
  }
  more-TriedOff left s t (refused u) p (answer, (k, positive, few, sent)) =
      (answer, (1 + k, omega arith, omega arith, SentOff-trans 1 k s t u p sent))
  more-TriedOff left s t (faulted u) p e = e
  more-TriedOff left s t (blocked u) p (nothing, (k, positive, few, sent)) =
      (nothing, (1 + k, omega arith, omega arith, SentOff-trans 1 k s t u p sent))

  first-TriedOff :
      (left : ℕ) (s : Eapol) (w : Waiting)
      → logoff_turn s ≡ w
      → TriedOff mac 1 s w
      → ((t : Eapol) → Sound mac t → TriedOff mac left t (tries logoff_turn left t))
      → TriedOff mac (suc left) s (tries logoff_turn (suc left) s)
  unfolding TriedOff tries
  first-TriedOff left s (found t) e one again = absurd one
  first-TriedOff left s (timed_out t) e one again =
      rw (tries, e) (more-TriedOff left s t (tries logoff_turn left t) one (again t one.sound))
  first-TriedOff left s (refused t) e (answer, (k, positive, few, sent)) again =
      rw (tries, e) (answer, (k, positive, omega arith, sent))
  first-TriedOff left s (faulted t) e one again = absurd one
  first-TriedOff left s (blocked t) e (nothing, (k, positive, few, sent)) again =
      rw (tries, e) (nothing, (k, positive, omega arith, sent))

  tries-TriedOff :
      (left : ℕ) (s : Eapol) → Sound mac s → TriedOff mac left s (tries logoff_turn left s)
  unfolding TriedOff tries filte_success
  tries-TriedOff zero s sound = record { sound = sound; count = omega arith }
  tries-TriedOff (suc left) s sound =
      let u = eapol_logoff s in
      let ends = receive_until-Ends success_frame u.clock u.arrivals u refl in
      first-TriedOff left s (logoff_turn s) refl (turn-TriedOff s (filte_success u) sound refl ends)
        (tries-TriedOff left)

-- What the results of `eaplogoff` say, for a call in `s` on an interface with the address `mac`.
unfoldable pub SignedOff : Bytes → Eapol → Result → Type 0
SignedOff mac s (returned (pos zero) t) =
    IsLogoffAnswer t × ((k : ℕ) × (1 ≤ k) × (k ≤ 3) × SentOff mac k s t)
SignedOff mac s (returned (pos (suc n)) t) = ⊥
SignedOff mac s (returned (negsuc zero) t) = SentOff mac 3 s t
SignedOff mac s (returned (negsuc (suc n)) t) = ⊥
SignedOff mac s (overrun t) = ⊥
SignedOff mac s (waits t) = (t.arrivals ≡ []) × ((k : ℕ) × (1 ≤ k) × (k ≤ 3) × SentOff mac k s t)

after_logoff-SignedOff :
    (mac : Bytes) (s : Eapol) (w : Waiting) → TriedOff mac 3 s w → SignedOff mac s (after_logoff w)
unfolding after_logoff TriedOff SignedOff
after_logoff-SignedOff mac s (found t) h = absurd h
after_logoff-SignedOff mac s (timed_out t) h = h
after_logoff-SignedOff mac s (refused t) h = h
after_logoff-SignedOff mac s (faulted t) h = absurd h
after_logoff-SignedOff mac s (blocked t) h = h

-- Only the frames sent before count.
retold :
    (mac : Bytes) (s t : Eapol)
    → t.sent ≡ s.sent
    → (w : Waiting) → TriedOff mac 3 t w
    → TriedOff mac 3 s w
unfolding TriedOff
retold mac s t same (found u) h = h
retold mac s t same (timed_out u) h = rw (← same) h
retold mac s t same (refused u) h = rw (← same) h
retold mac s t same (faulted u) h = h
retold mac s t same (blocked u) h = rw (← same) h

-- On an interface that the system can use, from a buffer of 512 bytes and with all frames before in
-- order, `eaplogoff` returns only 0 or -1, or waits for a frame for ever: 0 behind a refusal that is
-- sent to this client and carries the id 255 of a logoff, -1 behind exactly three frames. It sends
-- one to three frames, each well formed.
pub eaplogoff-SignedOff :
    (interfaces : Bytes → Interface) (mac : Bytes) (s : Eapol)
    → interfaces s.ifname ≡ usable mac
    → length mac ≡ 6
    → length s.sendbuff ≡ 512
    → AllFrames mac s.sent
    → SignedOff mac s (eaplogoff interfaces s)
unfolding eaplogoff
eaplogoff-SignedOff interfaces mac s ready mac_size room frames =
    let begun : Eapol = record s { client_mac = mac } in
    let (set_up, same) = eapol_init-usable interfaces mac s ready in
    let sound : Sound mac begun = record {
      send_size = room;
      mac_size = mac_size;
      own_mac = refl;
      frames = frames;
    } in
    let tried = tries-TriedOff mac 3 begun sound in
    rw (eaplogoff, set_up, same)
      (after_logoff-SignedOff mac s (tries logoff_turn 3 begun)
        (retold mac s begun refl (tries logoff_turn 3 begun) tried))
