-- ===== src/Ipv4/Steps.antt =====
-- One round of the loop in `drcom_parse_ipv4_address`, forwards and backwards.
use jlu_drcom.Base.{ℕ, suc, ◌≡◌, refl, [], ◌∷◌, Bytes, some, arith, >>=-eq-some}
use jlu_drcom.Ipv4.{octet, octets, after_dot, at_end, parse_ipv4_address}

pub octets-last : (s : Bytes) {v : ℕ} → octet s ≡ some (v, []) → octets 0 s ≡ some (v ∷ [])
unfolding octets at_end
octets-last s h = rw h

pub octets-next :
    (left : ℕ) (s : Bytes) {r vs : Bytes} {v : ℕ}
    → octet s ≡ some (v, b'.' ∷ r)
    → octets left r ≡ some vs
    → octets (suc left) s ≡ some (v ∷ vs)
unfolding octets after_dot
octets-next left s h k = rw h (rw k)

pub parse_ipv4_address-octets : (s : Bytes) → parse_ipv4_address s ≡ octets 3 s
unfolding parse_ipv4_address octets octet
parse_ipv4_address-octets [] = refl
parse_ipv4_address-octets (c ∷ cs) = refl

at_end_inv : (v : ℕ) (e : Bytes) {vs : Bytes} → at_end v e ≡ some vs → (e ≡ []) × (vs ≡ v ∷ [])
unfolding at_end
at_end_inv v [] h = (refl, cc)
at_end_inv v (c ∷ cs) h = cc

pub octets-last_inv :
    (s : Bytes) {vs : Bytes}
    → octets 0 s ≡ some vs
    → (v : ℕ) × (octet s ≡ some (v, [])) × (vs ≡ v ∷ [])
unfolding octets
octets-last_inv s h =
    let ((v, e), read, ended) = >>=-eq-some (octet s) _ h in
    let (no_rest, values) = at_end_inv v e ended in (v, rw (← no_rest) read, values)

pub after_dot_inv : (s : Bytes) {r : Bytes} → after_dot s ≡ some r → s ≡ b'.' ∷ r
unfolding after_dot
after_dot_inv [] h = cc
after_dot_inv (c ∷ cs) h = ground arith

pub octets-next_inv :
    (left : ℕ) (s : Bytes) {vs : Bytes}
    → octets (suc left) s ≡ some vs
    → (v : ℕ) × (r : Bytes) × (us : Bytes) × (octet s ≡ some (v, b'.' ∷ r))
      × (octets left r ≡ some us)
      × (vs ≡ v ∷ us)
unfolding octets
octets-next_inv left s h =
    let (read, first, rest) = >>=-eq-some (octet s) _ h in
    let (r, dot, more) = >>=-eq-some (after_dot read.1) _ rest in
    let (us, others, values) = >>=-eq-some (octets left r) _ more in
    (read.0, r, us, rw (← after_dot_inv read.1 dot) first, others, cc values)
