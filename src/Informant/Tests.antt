-- ===== src/Informant/Tests.antt =====
-- The theorems on request counts at concrete times.
use oasis_chain.Prelude.{ℕ, ◌*◌, ◌^◌, ◌≡◌, ◌≢◌, refl, [], ◌∷◌, arith}
use oasis_chain.Informant.{RateCalculator, count_at, default, sample, tick, rate}
use oasis_chain.Informant.Windows.{tick-count, tick-stale}

-- Seven requests at second 5 of an era that starts at 0.
abbrev busy : RateCalculator
busy = record { era = 0; samples = 0 ∷ 0 ∷ 0 ∷ 0 ∷ 0 ∷ 7 ∷ 0 ∷ 0 ∷ 0 ∷ 0 ∷ [] }

abbrev seconds : ℕ → ℕ
seconds n = n * 10 ^ 9

tick-count_example :
    let (count, calc') = tick (seconds 5) (seconds 5) (seconds 5) busy in
    (count ≡ 8)
    × (calc'.era ≡ 0)
    × (sample calc'.samples 5 ≡ count)
    × (sample calc'.samples 6 ≡ 0)
    × ((i : ℕ) → i ≢ 5 → i ≢ 6 → sample calc'.samples i ≡ sample busy.samples i)
unfolding sample
tick-count_example =
    tick-count busy (seconds 5) (seconds 5) (seconds 5) (omega arith) (omega arith) refl

-- The era starts again at second 20, and the request at second 25 is the first in its second.
tick-stale_example :
    let (_, calc') = tick (seconds 20) (seconds 20) (seconds 20) busy in
    (tick (seconds 25) (seconds 25) (seconds 25) calc').0 ≡ 8
unfolding sample
tick-stale_example =
    tick-stale busy (seconds 20) (seconds 20) (seconds 20) (seconds 25) (seconds 25) (seconds 25)
      (omega arith) refl (omega arith) (omega arith) (omega arith)

-- The rate that the three requests of the repository's test leave.
three_requests :
    let (_, one) = tick 0 0 0 (default 0) in
    let (_, two) = tick 0 0 0 one in rate 0 0 (tick 0 0 0 two).1 ≡ 3
unfolding tick default rate sample count_at
three_requests = refl
