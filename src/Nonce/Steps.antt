-- ===== src/Nonce/Steps.antt =====
-- A sequence of calls of `Nonce::increment`, taken apart at its first and at its last call
-- (ekiden_crypto/src/mrae/nonce.rs).
use oasis_chain.Prelude.{ℕ, zero, suc, ◌≡◌, refl, ap, sym, ◌∙◌, Result, ok, err, panic}
use oasis_chain.Nonce.{Nonce, NonceError, Counter32, increment}
use oasis_chain.Nonce.Sequence.{resume, increments}

module _ (order : Counter32) where
  resume-ok :
      (next : Nonce → Result NonceError (Unit {0}) × Nonce)
      (p : Result NonceError (Unit {0}) × Nonce)
      → (resume order next p).0 ≡ ok tt
      → (m : Nonce) × (p ≡ (ok tt, m)) × (resume order next p ≡ next m)
  resume-ok next (ok _, m) h = (m, refl, refl)
  resume-ok next (err e, m) h = cc
  resume-ok next (panic, m) h = cc

  -- A sequence of calls that all succeed begins with one that succeeds.
  pub increments-suc :
      (k : ℕ) (n : Nonce)
      → (increments order (suc k) n).0 ≡ ok tt
      → (m : Nonce) × (increment order n ≡ (ok tt, m))
        × (increments order (suc k) n ≡ increments order k m)
  unfolding increments
  increments-suc k n h = resume-ok (increments order k) (increment order n) h

  resume-ends : (p : Result NonceError (Unit {0}) × Nonce) → resume order (λ n. (ok tt, n)) p ≡ p
  resume-ends (ok _, m) = refl
  resume-ends (err e, m) = refl
  resume-ends (panic, m) = refl

  -- One call more.
  pub increments-then :
      (k : ℕ) (n : Nonce)
      → (increments order k n).0 ≡ ok tt
      → increments order (suc k) n ≡ increment order (increments order k n).1
  unfolding increments
  increments-then zero n h = resume-ends (increment order n)
  increments-then (suc k) n h =
      let (m, first, rest) = increments-suc k n h in
      ap (resume order (increments order (suc k))) first
      ∙ increments-then k m (sym (ap (λ (r : _ × Nonce). r.0) rest) ∙ h)
      ∙ ap (λ (r : _ × Nonce). increment order r.1) (sym rest)
