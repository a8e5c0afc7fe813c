-- ===== src/Eapol/Login/Laws.antt =====
-- drcom/src/eapol.c: what the results of `eaplogin` mean.
use jlu_drcom.Base.{ℕ, zero, suc, ◌+◌, ◌≤◌, ◌≡◌, Bytes, [], arith, ℤ, pos, negsuc}
use jlu_drcom.Eapol.{Eapol}
use jlu_drcom.Eapol.Filters.{
  Waiting, found, timed_out, refused, faulted, blocked, req_identity, req_md5clg, success_frame,
}
use jlu_drcom.Eapol.Filters.Answers.{
  IsAnswer, success_frame-accept, success_frame-refuse, req_md5clg-refuse,
}
use jlu_drcom.Eapol.Frames.{Sound, AllFrames}
use jlu_drcom.Eapol.Login.{
  Result, returned, overrun, waits, tries, identity_turn, md5clg_turn, after_start, after_identity,
  after_md5clg,
}
use jlu_drcom.Eapol.Login.Tries.{
  Progress, Tried, Beginning, AfterStart, AfterIdentity, Identified, Answered, LastSent,
  tries-Tried,
}
use jlu_drcom.Eapol.Login.Turns.{req_identity-never_refuse, identity_turn-Tried, md5clg_turn-Tried}
use jlu_drcom.Packet.{Digests}

-- What holds where a login ends that began in `s` with an address `mac`: the frames in order, at most
-- `frames` more of them, and at least `seconds` later.
pub record Done (mac : Bytes) (frames seconds : ℕ) (s t : Eapol) : Type 0 where
  pub own_mac : t.client_mac ≡ mac
  pub in_order : AllFrames mac t.sent
  pub progress : Progress frames seconds s t

-- What each number says that `eaplogin` returns: 0, 1, 4 and -2, and no other.
unfoldable pub Meaning : Bytes → Eapol → ℤ → Eapol → Type 0
Meaning mac s (pos zero) t = IsAnswer 0x03 t × LastSent 0x04 t × Done mac 10 0 s t
Meaning mac s (pos (suc zero)) t = IsAnswer 0x04 t × LastSent 0x01 t × Done mac 10 0 s t
Meaning mac s (pos (suc (suc zero))) t = ⊥
Meaning mac s (pos (suc (suc (suc zero)))) t = ⊥
Meaning mac s (pos (suc (suc (suc (suc zero))))) t =
    IsAnswer 0x04 t × LastSent 0x04 t × Done mac 10 0 s t
Meaning mac s (pos (suc (suc (suc (suc (suc n)))))) t = ⊥
Meaning mac s (negsuc zero) t = ⊥
Meaning mac s (negsuc (suc zero)) t = Done mac 10 12 s t
Meaning mac s (negsuc (suc (suc n))) t = ⊥

unfoldable pub Ended : Bytes → Eapol → Result → Type 0
unfolding Meaning
Ended mac s (returned status t) = Meaning mac s status t
Ended mac s (waits t) = (t.arrivals ≡ []) × Done mac 10 0 s t
Ended mac s (overrun t) = ⊥

Progress-trans :
    (a b m n : ℕ) (s t u : Eapol)
    → Progress a m s t
    → Progress b n t u
    → Progress (a + b) (m + n) s u
Progress-trans a b m n s t u p q = record {
  few = omega (arith, p.few, q.few);
  late = omega (arith, p.late, q.late);
}

Progress-wider : (a b m : ℕ) (s t : Eapol) → a ≤ b → Progress a m s t → Progress b 0 s t
Progress-wider a b m s t h p = record { few = omega (arith, p.few); late = omega (arith, p.late) }

module _ (mac : Bytes) (digests : Digests) (s : Eapol) where
  -- The end of a loop that sends at most `b` frames, behind at most `a` others.
  done :
      (a b seconds : ℕ) (t u : Eapol)
      → a + b ≤ 10
      → Progress a 0 s t
      → Sound mac u
      → Progress b seconds t u
      → Done mac 10 seconds s u
  done a b seconds t u fits p sound q = record {
    own_mac = sound.own_mac;
    in_order = sound.frames;
    progress = record { few = omega (arith, p.few, q.few); late = omega (arith, p.late, q.late) };
  }

  after_md5clg-Ended :
      (t : Eapol) (w : Waiting)
      → Progress 7 0 s t
      → Tried success_frame (AfterIdentity mac) (Answered mac) 3 t w
      → Ended mac s (after_md5clg w)
  unfolding Ended Tried after_md5clg
  after_md5clg-Ended t (found u) p h = (
    success_frame-accept u h.0,
    h.1.last,
    done 7 3 0 t u (omega arith) p h.1.after.responding.headed.sound h.2,
  )
  after_md5clg-Ended t (timed_out u) p h =
      done 7 3 12 t u (omega arith) p h.0.responding.headed.sound h.1
  after_md5clg-Ended t (refused u) p h = (
    success_frame-refuse u h.0,
    h.1.last,
    done 7 3 0 t u (omega arith) p h.1.after.responding.headed.sound h.2,
  )
  after_md5clg-Ended t (faulted u) p h = h
  after_md5clg-Ended t (blocked u) p h =
      (h.0, done 7 3 0 t u (omega arith) p h.1.responding.headed.sound h.2)

  after_identity-Ended :
      (t : Eapol) (w : Waiting)
      → Progress 4 0 s t
      → Tried req_md5clg (AfterStart mac) (Identified mac) 3 t w
      → Ended mac s (after_identity digests w)
  unfolding Ended Tried after_identity
  after_identity-Ended t (found u) p h =
      after_md5clg-Ended u (tries (md5clg_turn digests) 3 u) (Progress-trans 4 3 0 0 s t u p h.2) (
        tries-Tried success_frame (AfterIdentity mac) (Answered mac) (md5clg_turn digests)
          (λ v. md5clg_turn-Tried mac v digests) 3 u h.1.after)
  after_identity-Ended t (timed_out u) p h = done 4 3 12 t u (omega arith) p h.0.headed.sound h.1
  after_identity-Ended t (refused u) p h = (
    req_md5clg-refuse u h.0,
    h.1.last,
    done 4 3 0 t u (omega arith) p h.1.after.responding.headed.sound h.2,
  )
  after_identity-Ended t (faulted u) p h = h
  after_identity-Ended t (blocked u) p h =
      (h.0, done 4 3 0 t u (omega arith) p h.1.headed.sound h.2)

  pub after_start-Ended :
      (t : Eapol) (w : Waiting)
      → Progress 1 0 s t
      → Tried req_identity (Beginning mac) (AfterStart mac) 3 t w
      → Ended mac s (after_start digests w)
  unfolding Ended Tried after_start
  after_start-Ended t (found u) p h =
      after_identity-Ended u (tries identity_turn 3 u) (Progress-trans 1 3 0 0 s t u p h.2) (
        tries-Tried req_md5clg (AfterStart mac) (Identified mac) identity_turn
          (identity_turn-Tried mac) 3 u h.1)
  after_start-Ended t (timed_out u) p h = done 1 3 12 t u (omega arith) p h.0.sound h.1
  after_start-Ended t (refused u) p h = absurd (req_identity-never_refuse u h.0)
  after_start-Ended t (faulted u) p h = h
  after_start-Ended t (blocked u) p h = (h.0, done 1 3 0 t u (omega arith) p h.1.sound h.2)
