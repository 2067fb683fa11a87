-- ===== src/Informant.antt =====
-- src/informant.rs: the counts of requests per session. The clock is an argument, in nanoseconds: one
-- instant for each time that the code reads it.
pub mod Windows
mod Tests
use oasis_chain.Prelude.{
  ℕ, ◌+◌, ◌-◌, ◌/◌, ◌%◌, ◌^◌, suc, zero, Option, none, some, List, [], ◌∷◌, Dict, Bool, ltb, leb,
  if◌then◌else◌, get_elem?, set, take, replicate, lookup, insert, erase, nat_eq,
}

-- `RATE_SECONDS`
abbrev pub rate_seconds : ℕ
rate_seconds = 10

pub record RateCalculator : Type 0 where
  pub era : ℕ
  pub samples : List ℕ

-- `RateCalculator::default`
unfoldable pub default : ℕ → RateCalculator
default now = record { era = now; samples = replicate 10 0 }

-- `RateCalculator::elapsed`
abbrev pub elapsed : ℕ → RateCalculator → ℕ
elapsed now calc = (now - calc.era) / 10 ^ 9

-- `samples[i]`, where `i` is below the length.
unfoldable pub sample : List ℕ → ℕ → ℕ
sample [] i = 0
sample (x ∷ xs) zero = x
sample (x ∷ xs) (suc i) = sample xs i

-- `u16::saturating_add(1)`
abbrev pub saturating_suc : ℕ → ℕ
saturating_suc n = if leb (2 ^ 16 - 1) n then 2 ^ 16 - 1 else suc n

-- The count of the second `pos` goes up, and the second after it is cleared.
unfoldable pub count_at : ℕ → RateCalculator → ℕ × RateCalculator
count_at pos calc =
    let next = suc pos % rate_seconds in
    let cleared = set calc.samples next 0 in
    let count = saturating_suc (sample cleared pos) in
    (count, record calc { samples = set cleared pos count })

-- `RateCalculator::tick`, by the clock at its three readings.
unfoldable pub tick : ℕ → ℕ → ℕ → RateCalculator → ℕ × RateCalculator
tick first second third calc =
    let fresh : RateCalculator = record { era = second; samples = set calc.samples 0 0 } in
    let current = if leb rate_seconds (elapsed first calc) then fresh else calc in
    count_at (elapsed third current % rate_seconds) current

sum : List ℕ → ℕ
sum [] = 0
sum (x ∷ xs) = x + sum xs

-- `RateCalculator::current_rate`
current_rate : ℕ → RateCalculator → ℕ
unfolding sum
current_rate clock calc =
    let seconds = elapsed clock calc in
    let now = if leb rate_seconds seconds then rate_seconds else suc seconds in
    sum (take now calc.samples) / now

-- `RateCalculator::rate`, by the clock at its two readings.
unfoldable pub rate : ℕ → ℕ → RateCalculator → ℕ
unfolding current_rate
rate first second calc =
    if ltb rate_seconds (elapsed first calc) then 0 else current_rate second calc

-- `RpcStats::sessions`
abbrev pub RpcStats : Type 0
RpcStats = Dict ℕ RateCalculator

-- `RpcStats::open_session`
unfoldable pub open_session : ℕ → ℕ → RpcStats → RpcStats
open_session now id stats = insert id (default now) stats

-- `RpcStats::close_session`
unfoldable pub close_session : ℕ → RpcStats → RpcStats
close_session id stats = erase id stats

-- `RpcStats::count_request`, by the clock at the readings of `tick`.
unfoldable pub count_request : ℕ → ℕ → ℕ → ℕ → RpcStats → ℕ × RpcStats
count_request first second third id stats = elim (lookup id stats) [
  | some calc ↦ let (count, calc') = tick first second third calc in (count, insert id calc' stats)
  | none ↦ (0, stats)
]
