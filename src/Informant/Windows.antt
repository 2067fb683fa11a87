-- ===== src/Informant/Windows.antt =====
-- What the counts of src/informant.rs count.
use oasis_chain.Prelude.{
  ℕ, ◌-◌, ◌/◌, ◌%◌, ◌^◌, ◌≤◌, ◌<◌, ◌≡◌, ◌≢◌, suc, zero, refl, ap, sym, ◌∙◌, List, [], ◌∷◌, length,
  set, length-set, le→leb, lt→leb, arith,
}
use oasis_chain.Informant.{
  RateCalculator, rate_seconds, elapsed, sample, saturating_suc, count_at, tick,
}

sample-set_ne : (xs : List ℕ) (i j x : ℕ) → i ≢ j → sample (set xs j x) i ≡ sample xs i
unfolding sample
sample-set_ne [] i j x h = refl
sample-set_ne (y ∷ ys) zero zero x h = absurd (h refl)
sample-set_ne (y ∷ ys) zero (suc j) x h = refl
sample-set_ne (y ∷ ys) (suc i) zero x h = refl
sample-set_ne (y ∷ ys) (suc i) (suc j) x h = sample-set_ne ys i j x (λ e. h (ap suc e))

sample-set_self : (xs : List ℕ) (i x : ℕ) → i < length xs → sample (set xs i x) i ≡ x
unfolding sample
sample-set_self [] i x h = absurd (omega arith)
sample-set_self (y ∷ ys) zero x h = refl
sample-set_self (y ∷ ys) (suc i) x h = sample-set_self ys i x (omega arith)

-- A tick in the first ten seconds of an era adds one to the count of its second, as far as 16 bits
-- reach, and answers with it; it clears the count of the second after, leaves the other counts as
-- they are, and keeps the era; where there are ten counts.
pub tick-count :
    (calc : RateCalculator) (first second third : ℕ)
    → elapsed first calc < rate_seconds
    → elapsed third calc < rate_seconds
    → length calc.samples ≡ rate_seconds
    → let pos = elapsed third calc in
      let (count, calc') = tick first second third calc in
      (count ≡ saturating_suc (sample calc.samples pos))
      × (calc'.era ≡ calc.era)
      × (sample calc'.samples pos ≡ count)
      × (sample calc'.samples (suc pos % rate_seconds) ≡ 0)
      × ((i : ℕ)
          → i ≢ pos
          → i ≢ suc pos % rate_seconds
          → sample calc'.samples i ≡ sample calc.samples i)
unfolding tick count_at
tick-count calc first second third h1 h3 len =
    let pos = elapsed third calc in
    let next = suc pos % rate_seconds in
    let here : pos % rate_seconds ≡ pos = omega arith in
    let apart : pos ≢ next = omega arith in
    let cleared = set calc.samples next 0 in
    let long : length cleared ≡ rate_seconds = length-set calc.samples next 0 ∙ len in
    let kept = sample-set_ne calc.samples pos next 0 apart in
    let count = saturating_suc (sample cleared pos) in
    rw (lt→leb h1, here)
      (
        ap saturating_suc kept,
        refl,
        sample-set_self cleared pos count (omega arith),
        sample-set_ne cleared next pos count (λ e. apart (sym e))
            ∙ sample-set_self calc.samples next 0 (omega arith),
        λ i h h'. sample-set_ne cleared i pos count h ∙ sample-set_ne calc.samples i next 0 h',
      )

-- After a tick that starts a new era, a tick at a second from 2 to 9 of that era, with none in
-- between, answers one more than the count that this second of an earlier era had left, as far as
-- 16 bits reach.
pub tick-stale :
    (calc : RateCalculator) (first second third first' second' third' : ℕ)
    → rate_seconds ≤ elapsed first calc
    → (third - second) / 10 ^ 9 ≡ 0
    → (first' - second) / 10 ^ 9 < rate_seconds
    → let pos = (third' - second) / 10 ^ 9 in
      1 < pos
      → pos < rate_seconds
      → let (_, calc') = tick first second third calc in
        (tick first' second' third' calc').0 ≡ saturating_suc (sample calc.samples pos)
unfolding tick count_at
tick-stale calc first second third first' second' third' old h3 h1' lo hi =
    let pos = (third' - second) / 10 ^ 9 in
    let here : pos % rate_seconds ≡ pos = omega arith in
    let apart : pos ≢ suc pos % rate_seconds = omega arith in
    rw (le→leb old, h3, lt→leb h1', here)
      (ap saturating_suc (
        sample-set_ne _ pos (suc pos % rate_seconds) 0 apart
        ∙ sample-set_ne _ pos 0 _ (omega arith)
        ∙ sample-set_ne _ pos 1 0 (omega arith)
        ∙ sample-set_ne calc.samples pos 0 0 (omega arith)))

pub length-tick :
    (calc : RateCalculator) (first second third : ℕ)
    → elapsed first calc < rate_seconds
    → length calc.samples ≡ rate_seconds
    → length (tick first second third calc).1.samples ≡ rate_seconds
unfolding tick count_at
length-tick calc first second third h len =
    rw (lt→leb h) (length-set _ _ _ ∙ length-set _ _ _ ∙ len)
