-- ===== src/EthFilter/Rounds/Coverage.antt =====
-- The logs that any number of polls report (src/impls/eth_filter.rs, src/blockchain.rs).
use oasis_chain.Prelude.{ℕ, suc, ◌-◌, ◌≤◌, ◌≡◌, Option, List, [], ◌∷◌, Bytes, Result, ok}
use oasis_chain.Blockchain.{Blockchain, EthereumBlock, Ethcore, Filter, LocalizedLogEntry}
use oasis_chain.Blockchain.Mine.Chain.{CollisionFree}
use oasis_chain.Blockchain.Queries.{get_blocks, count_from}
use oasis_chain.Blockchain.Queries.Ranges.{matching}
use oasis_chain.EthFilter.{FilterChanges, FilterError, PollManager, IsPollManager}
use oasis_chain.EthFilter.Rounds.{Reported}

module _ (core : Ethcore)
    (limit_logs : List LocalizedLogEntry → Option ℕ → List LocalizedLogEntry) where
  -- After any poll the next block is the one after the best.
  abbrev Ends : List (List (ℕ × Bytes)) → ℕ → Blockchain → ℕ → Type 0
  Ends [] next end next' = next' ≡ next
  Ends (txns ∷ rounds) next end next' = next' ≡ suc end.chain_state.block_number

  module _ (free : CollisionFree core) {M : Type 0} (manager : PollManager M)
      (laws : IsPollManager manager) (index : ℕ) (filter : Filter) where
    -- What is left of the rounds: the answers are as they should be, and the logs in them are those
    -- of a range of blocks.
    abbrev Covers : Blockchain → ℕ → ℕ → List ℕ → List (Result FilterError FilterChanges) → Type 0
    Covers end next next' tops answers =
        (all : List LocalizedLogEntry) × (blocks : List EthereumBlock) × Reported core limit_logs
          end filter next tops answers all
        × (next ≤ next')
        × (get_blocks end (count_from next (next' - next)) ≡ ok blocks)
        × (all ≡ matching core filter blocks)
