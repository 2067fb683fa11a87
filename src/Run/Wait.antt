-- ===== src/Run/Wait.antt =====
-- The wait at shutdown ends (src/run.rs).
use native.Mathlib.Decide.{dec_le}
use oasis_chain.Prelude.{
  ℕ, zero, suc, ◌+◌, ◌*◌, ◌≤◌, ◌<◌, ◌≡◌, refl, subst, ◌⊎◌, inl, inr, Bool, true, false, Bool-cases,
  not, ◌&&◌, ◌||◌, ltb, ltb→lt, Option, some, List, [], ◌∷◌, ◌++◌, arith,
}
use oasis_chain.Run.{
  Reading, Warning, taking_longer, timeout_reached, sleep_duration, max_timeout, warn_timeout,
  with_warning, wait_loop, wait_for_drop,
}

module _ (readings : ℕ → Reading) where
  -- The clock is at least the sleep further in each round than in the one before.
  abbrev pub Sleeps : Type 0
  Sleeps = (i : ℕ) → (readings i).elapsed + sleep_duration ≤ (readings (suc i)).elapsed

  -- The loop is in a round, since the time is not up, and the target is still there.
  abbrev pub IsWaiting : ℕ → Type 0
  IsWaiting i = ((readings i).elapsed < max_timeout) × ((readings i).is_dropped ≡ false)

  -- The wait from a round on ended in a round up to 300, the first in which the target was gone or the
  -- time was up; and what was logged.
  pub record Finished (i : ℕ) (warned : Bool) (log : List Warning) : Type 0 where
    pub last : ℕ
    pub reached : i ≤ last
    pub bound : last ≤ 300
    pub waited : (k : ℕ) → i ≤ k → k < last → IsWaiting k
    pub slow : List Warning
    -- The warning that it takes longer comes once, and not again.
    pub slow_once : (slow ≡ []) ⊎ ((warned ≡ false) × (slow ≡ taking_longer ∷ []))
    pub ended :
        (((readings last).is_dropped ≡ true) × (log ≡ slow))
        ⊎ ((max_timeout ≤ (readings last).elapsed) × (log ≡ slow ++ timeout_reached ∷ []))

  abbrev pub Finishes : ℕ → Bool → Option (List Warning) → Type 0
  Finishes i warned answer = (log : List Warning) × (answer ≡ some log) × Finished i warned log

  waited_from :
      (i last : ℕ)
      → IsWaiting i
      → ((k : ℕ) → suc i ≤ k → k < last → IsWaiting k)
      → (k : ℕ) → i ≤ k
      → k < last
      → IsWaiting k
  waited_from i last here later k le lt = elim (dec_le (suc i) k) [
    | yes above ↦ later k above lt
    | no not_above ↦ let same : i ≡ k = omega arith in subst IsWaiting same here
  ]

  -- A round in which the loop waits on without a warning, or with the one that it takes longer.
  waits_on :
      (i : ℕ) (warned : Bool) (log : List Warning)
      → IsWaiting i
      → Finished (suc i) warned log
      → Finished i warned log
  waits_on i warned log here f =
      let up = f.reached in
      record {
        last = f.last;
        reached = omega arith;
        bound = f.bound;
        waited = waited_from i f.last here f.waited;
        slow = f.slow;
        slow_once = f.slow_once;
        ended = f.ended;
      }

  slow_is_nil :
      (slow : List Warning)
      → (slow ≡ []) ⊎ ((true ≡ false) × (slow ≡ taking_longer ∷ []))
      → slow ≡ []
  slow_is_nil slow (inl e) = e
  slow_is_nil slow (inr (e, _)) = cc

  warns_on :
      (i : ℕ) (log : List Warning)
      → IsWaiting i
      → Finished (suc i) true log
      → Finished i false (taking_longer ∷ log)
  warns_on i log here f =
      let up = f.reached in
      let quiet = slow_is_nil f.slow f.slow_once in
      record {
        last = f.last;
        reached = omega arith;
        bound = f.bound;
        waited = waited_from i f.last here f.waited;
        slow = taking_longer ∷ [];
        slow_once = inr (refl, refl);
        ended = elim f.ended [
          | inl (gone, e) ↦ inl (gone, rw (e, quiet) refl)
          | inr (late, e) ↦ inr (late, rw (e, quiet) refl)
        ];
      }

  with_warning-Finishes :
      (i : ℕ) (warned late : Bool) (rest : Option (List Warning))
      → IsWaiting i
      → Finishes (suc i) (warned || (not warned && late)) rest
      → Finishes i warned (with_warning readings (not warned && late) rest)
  unfolding with_warning
  with_warning-Finishes i true late rest here (log, e, f) = (log, e, waits_on i true log here f)
  with_warning-Finishes i false false rest here (log, e, f) = (log, e, waits_on i false log here f)
  with_warning-Finishes i false true rest here (log, e, f) =
      (taking_longer ∷ log, rw e refl, warns_on i log here f)

  module _ (clock : Sleeps) where
    elapsed_after : (i : ℕ) → i * sleep_duration ≤ (readings i).elapsed
    elapsed_after zero = omega arith
    elapsed_after (suc i) = omega (arith, elapsed_after i, clock i)

    wait_loop-Finishes :
        (fuel i : ℕ) (warned : Bool)
        → i ≤ 300
        → 300 < i + fuel
        → Finishes i warned (wait_loop readings fuel i warned)
    unfolding wait_loop
    wait_loop-Finishes zero i warned le enough = absurd (omega arith)
    wait_loop-Finishes (suc fuel) i warned le enough =
        elim (Bool-cases (ltb (readings i).elapsed max_timeout)) [
          | inr over ↦
              let late : max_timeout ≤ (readings i).elapsed = ground arith in
              rw over (
                timeout_reached ∷ [],
                refl,
                record {
                  last = i;
                  reached = omega arith;
                  bound = le;
                  waited = λ k le' lt. absurd (omega arith);
                  slow = [];
                  slow_once = inl refl;
                  ended = inr (late, refl);
                },
              )
          | inl early ↦ elim (Bool-cases (readings i).is_dropped) [
            | inl gone ↦
                rw (early, gone)
                  (
                    [],
                    refl,
                    record {
                      last = i;
                      reached = omega arith;
                      bound = le;
                      waited = λ k le' lt. absurd (omega arith);
                      slow = [];
                      slow_once = inl refl;
                      ended = inl (gone, refl);
                    },
                  )
            | inr there ↦
                let soon : (readings i).elapsed < max_timeout = ltb→lt _ _ early in
                let below : i < 300 = omega (arith, elapsed_after i) in
                rw (early, there)
                  (with_warning-Finishes i warned (ltb warn_timeout (readings i).elapsed_later) _
                    (soon, there) (wait_loop-Finishes fuel (suc i) _ (omega arith) (omega arith)))
          ]
        ]

-- Where each round finds the clock at least a second further, the wait at shutdown ends, in a round
-- up to 300: the first in which the blockchain was dropped or 300 seconds were over. It warns that
-- it takes longer at most once, and that the time is up exactly in the second case.
pub wait_for_drop-Finishes :
    (readings : ℕ → Reading)
    → Sleeps readings
    → (fuel : ℕ) → 300 < fuel
    → Finishes readings 0 false (wait_for_drop readings fuel)
unfolding wait_for_drop
wait_for_drop-Finishes readings clock fuel enough =
    wait_loop-Finishes readings clock fuel 0 false (omega arith) (omega arith)
