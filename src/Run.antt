-- ===== src/Run.antt =====
-- src/run.rs: waiting for the blockchain to be dropped when the gateway shuts down. What the clock and
-- the weak reference say in each round is an argument; times are in nanoseconds since the start.
pub mod Wait
pub mod Gateway
pub mod Start
pub mod Samples
mod Tests
use oasis_chain.Prelude.{
  ℕ, zero, suc, ◌*◌, Bool, true, false, not, ◌&&◌, ◌||◌, if◌then◌else◌, ltb, Option, none, some,
  List, [], ◌∷◌,
}
use mathlib.Core.Option

-- What is read in a round of the loop: the clock at the loop's test, whether the reference's target is
-- gone, and the clock at the test for the warning.
pub record Reading : Type 0 where
  pub elapsed : ℕ
  pub is_dropped : Bool
  pub elapsed_later : ℕ

-- The warnings that are logged.
pub data Warning : Type 0 where
  taking_longer timeout_reached : Warning

abbrev pub second : ℕ
second = 1000000000

abbrev pub sleep_duration : ℕ
sleep_duration = second

abbrev pub warn_timeout : ℕ
warn_timeout = 60 * second

abbrev pub max_timeout : ℕ
max_timeout = 300 * second

module _ (readings : ℕ → Reading) where
  -- A round that waits on, with the warnings of the rounds after it.
  unfoldable pub with_warning : Bool → Option (List Warning) → Option (List Warning)
  with_warning warns rest =
      if warns then Option.map (λ (ws : List Warning). taking_longer ∷ ws) rest else rest

  -- The loop of `wait_for_drop` from a round on: the warnings that are logged until it ends.
  unfoldable pub wait_loop : (fuel : ℕ) → ℕ → Bool → Option (List Warning)
  unfolding with_warning
  wait_loop zero i warned = none
  wait_loop (suc fuel) i warned =
      let r = readings i in
      let warns = not warned && ltb warn_timeout r.elapsed_later in
      let rest = wait_loop fuel (suc i) (warned || warns) in
      if ltb r.elapsed max_timeout
      then (if r.is_dropped then some [] else with_warning warns rest)
      else some (timeout_reached ∷ [])

  -- `wait_for_drop`
  unfoldable pub wait_for_drop : ℕ → Option (List Warning)
  unfolding wait_loop
  wait_for_drop fuel = wait_loop fuel 0 false
