-- ===== src/EthFilter/Rounds.antt =====
-- Any number of polls of one log filter, with submissions to the chain between them
-- (src/impls/eth_filter.rs, src/blockchain.rs).
pub mod Steps
pub mod Coverage
use native.Mathlib.Decide.{dec_le}
use oasis_chain.Prelude.{
  ℕ, suc, ◌+◌, ◌-◌, ◌^◌, ◌≤◌, ◌<◌, ◌≡◌, refl, ap, sym, ◌∙◌, Option, some, List, [], ◌∷◌, ◌++◌,
  Bytes, length, Result, ok, err, ok-injective, map_err, ◌>>=◌, arith,
}
use mathlib.Core.Option
use oasis_chain.Words.{u64_add}
use oasis_chain.Blockchain.{
  Blockchain, BlockchainError, get_block_by_number, block_not_found, EthereumBlock, Ethcore, Filter,
  LocalizedLogEntry,
}
use oasis_chain.Blockchain.Mine.Chain.{CollisionFree, IsChain, block-found}
use oasis_chain.Blockchain.Mine.History.{submissions, submissions-Follows, submissions-le, Follows}
use oasis_chain.Blockchain.Queries.{
  get_latest_block, get_blocks, count_from, range_inclusive, filter_logs, flat_map_logs,
}
use oasis_chain.Blockchain.Queries.Ranges.{
  get_blocks-append, get_blocks-same, matching, matching-append,
}
use oasis_chain.EthFilter.{
  PollFilter, log, FilterChanges, found_logs, FilterError, chain_error, PollManager, IsPollManager,
  new_filter, filter_changes, changes_of, with_latest, changes, logs_from,
}
use oasis_chain.EthFilter.Polls.{logs_from-ok, latest-number, logs_from-beyond}

-- How many submissions there are in some rounds.
abbrev pub submitted : List (List (ℕ × Bytes)) → ℕ
submitted [] = 0
submitted (txns ∷ rounds) = length txns + submitted rounds

module _ (core : Ethcore) where
  -- The best block's number at each poll.
  unfoldable pub heights : Blockchain → List (List (ℕ × Bytes)) → List ℕ
  heights b [] = []
  heights b (txns ∷ rounds) =
      let next = submissions core b txns in next.chain_state.block_number ∷ heights next rounds

  module _ (limit_logs : List LocalizedLogEntry → Option ℕ → List LocalizedLogEntry) where
    -- Rounds of submissions, each with a poll after it: the answers, the chain and the polls.
    unfoldable pub poll_rounds :
        {M : Type 0}
        → PollManager M
        → ℕ
        → List (List (ℕ × Bytes))
        → Blockchain
        → M
        → List (Result FilterError FilterChanges) × Blockchain × M
    poll_rounds manager index [] b polls = ([], b, polls)
    poll_rounds manager index (txns ∷ rounds) b polls =
        let next = submissions core b txns in
        let (answer, polls') = filter_changes core limit_logs manager next polls index in
        let (more, end, last) = poll_rounds manager index rounds next polls' in
        (answer ∷ more, end, last)

    -- The answers to polls at some heights, and the logs in them before the limit: those of the
    -- blocks from the next one on, or the error where that one is not there yet.
    pub data Reported (end : Blockchain) (filter : Filter)
        : ℕ
          → List ℕ
          → List (Result FilterError FilterChanges)
          → List LocalizedLogEntry
          → Type 0 where
      over : (next : ℕ) → Reported end filter next [] [] []
      some_new :
          {next height : ℕ} {later : List ℕ} {answers : List (Result FilterError FilterChanges)}
          {more : List LocalizedLogEntry} (blocks : List EthereumBlock)
          → next ≤ height
          → get_blocks end (count_from next (suc height - next)) ≡ ok blocks
          → Reported end filter (suc height) later answers more
          → Reported end filter next
              (height ∷ later)
              (ok (found_logs (limit_logs (matching core filter blocks) filter.limit)) ∷ answers)
              (matching core filter blocks ++ more)
      nothing_new :
          {next height : ℕ} {later : List ℕ} {answers : List (Result FilterError FilterChanges)}
          {more : List LocalizedLogEntry}
          → height < next
          → Reported end filter next later answers more
          → Reported end filter next
              (height ∷ later)
              (err (chain_error block_not_found) ∷ answers)
              more
