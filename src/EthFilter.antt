-- ===== src/EthFilter.antt =====
-- src/impls/eth_filter.rs: filters that a client installs and polls. The poll manager and the limit on
-- the number of logs are of `parity_rpc`; a filter of the RPC stands for the one it converts to.
pub mod Polls
pub mod Rounds
mod Tests
use oasis_chain.Prelude.{
  ℕ, ◌≡◌, Option, none, some, List, [], ◌∷◌, Result, ok, err, panic, ◌>>=◌, or_err, Bool, map_err,
}
use oasis_chain.Words.{u64_add}
use oasis_chain.Blockchain.{
  Blockchain, get_block_by_number, BlockchainError, block_not_found, EthereumBlock, Ethcore, Filter,
  LocalizedLogEntry, latest, number as at_number,
}
use oasis_chain.Blockchain.Queries.{get_latest_block, range_inclusive, logs}

pub data PollFilter : Type 0 where
  block : ℕ → PollFilter
  pending_transaction : PollFilter
  log : ℕ → Filter → PollFilter

pub data FilterChanges : Type 0 where
  hashes : List ℕ → FilterChanges
  found_logs : List LocalizedLogEntry → FilterChanges

pub data FilterError : Type 0 where
  filter_not_found : FilterError
  chain_error : BlockchainError → FilterError

-- `PollManager<PollFilter>`; `put` is a write through the reference that `poll_mut` hands out.
pub record PollManager (M : Type 0) : Type 0 where
  pub create_poll : M → PollFilter → ℕ × M
  pub poll : M → ℕ → Option PollFilter
  pub put : M → ℕ → PollFilter → M
  pub remove_poll : M → ℕ → Bool × M

-- What is stored under an identifier is found there.
pub record IsPollManager {M : Type 0} (manager : PollManager M) : Type 0 where
  pub created :
      (polls : M) (f : PollFilter)
      → let (id, polls') = manager.create_poll polls f in manager.poll polls' id ≡ some f
  pub kept :
      (polls : M) (id : ℕ) (f : PollFilter) → manager.poll (manager.put polls id f) id ≡ some f

-- The hashes of the blocks of a list of numbers.
unfoldable pub block_hashes : Blockchain → List ℕ → Result BlockchainError (List ℕ)
block_hashes b [] = ok []
block_hashes b (n ∷ ns) =
    let rest = block_hashes b ns in
    or_err (get_block_by_number b.chain_state n) block_not_found >>= λ blk.
    rest >>= λ more. ok (blk.hash ∷ more)

module _ (core : Ethcore)
    (limit_logs : List LocalizedLogEntry → Option ℕ → List LocalizedLogEntry) where
  -- The query of a log filter, from a block on.
  unfoldable pub logs_from :
      Blockchain → ℕ → Filter → Result BlockchainError (List LocalizedLogEntry)
  logs_from b from filter =
      logs core b (record filter { from_block = at_number from; to_block = latest })

  -- `filter_changes` on the poll that it found, with the latest block: the answer, and the poll.
  unfoldable pub changes :
      Blockchain → EthereumBlock → PollFilter → Result FilterError FilterChanges × PollFilter
  changes b blk (block first) = (
    map_err chain_error (block_hashes b (range_inclusive first blk.number)) >>= λ found.
        ok (hashes found),
    block blk.number,
  )
  changes b blk pending_transaction = (ok (hashes []), pending_transaction)
  changes b blk (log block_number filter) = (
    map_err chain_error (logs_from b block_number filter) >>= λ found.
        ok (found_logs (limit_logs found filter.limit)),
    log (u64_add blk.number 1) filter,
  )

  module _ {M : Type 0} (manager : PollManager M) where
    open manager use {create_poll, poll, put, remove_poll}

    -- A poll is made with the latest block.
    unfoldable pub with_latest : Blockchain → M → (EthereumBlock → ℕ × M) → Result FilterError ℕ × M
    with_latest b polls make = elim (get_latest_block b) [
      | ok blk ↦ let (id, polls') = make blk in (ok id, polls')
      | err e ↦ (err (chain_error e), polls)
      | panic ↦ (panic, polls)
    ]

    unfoldable pub new_filter : Blockchain → M → Filter → Result FilterError ℕ × M
    unfolding with_latest
    new_filter b polls filter =
        with_latest b polls (λ blk. create_poll polls (log blk.number filter))

    new_block_filter : Blockchain → M → Result FilterError ℕ × M
    unfolding with_latest
    new_block_filter b polls =
        with_latest b polls (λ blk. create_poll polls (block (u64_add blk.number 1)))

    new_pending_transaction_filter : M → Result FilterError ℕ × M
    new_pending_transaction_filter polls =
        let (id, polls') = create_poll polls pending_transaction in (ok id, polls')

    unfoldable pub changes_of :
        Blockchain
        → M
        → ℕ
        → EthereumBlock
        → Option PollFilter
        → Result FilterError FilterChanges × M
    changes_of b polls index blk none = (err filter_not_found, polls)
    changes_of b polls index blk (some filter) =
        let (answer, filter') = changes b blk filter in (answer, put polls index filter')

    unfoldable pub filter_changes : Blockchain → M → ℕ → Result FilterError FilterChanges × M
    unfolding changes_of
    filter_changes b polls index = elim (get_latest_block b) [
      | ok blk ↦ changes_of b polls index blk (poll polls index)
      | err e ↦ (err (chain_error e), polls)
      | panic ↦ (panic, polls)
    ]

    filter_logs : Blockchain → M → ℕ → Result FilterError (List LocalizedLogEntry)
    filter_logs b polls index = elim (poll polls index) [
      | some (log _ filter) ↦
          map_err chain_error (logs core b filter) >>= λ found. ok (limit_logs found filter.limit)
      | some _ ↦ ok []
      | none ↦ err filter_not_found
    ]

    uninstall_filter : M → ℕ → Bool × M
    uninstall_filter polls index = remove_poll polls index
