-- ===== src/EthFilter/Polls.antt =====
-- What successive polls of a filter report (src/impls/eth_filter.rs).
use oasis_chain.Prelude.{
  ℕ, suc, ◌+◌, ◌-◌, ◌^◌, ◌≤◌, ◌<◌, ◌≡◌, refl, ap, sym, ◌∙◌, Option, List, [], ◌∷◌, ◌++◌, ok, err,
  ok-injective, arith,
}
use oasis_chain.Words.{u64_add}
use mathlib.Core.Option
use oasis_chain.Blockchain.{
  Blockchain, get_block_by_number, block_hash, block_not_found, EthereumBlock, Ethcore, Filter,
  LocalizedLogEntry, latest, number as at_number,
}
use oasis_chain.Blockchain.Mine.Chain.{IsChain, block-found}
use oasis_chain.Blockchain.Queries.{
  get_block, get_latest_block, get_blocks, count_from, range_inclusive, logs,
}
use oasis_chain.Blockchain.Queries.Laws.{logs-ok}
use oasis_chain.EthFilter.{
  block, log, hashes, found_logs, chain_error, block_hashes, logs_from, changes,
}
use oasis_chain.Blockchain.Queries.Ranges.{
  get_blocks-append, get_blocks-same, matching, matching-append,
}

module _ (core : Ethcore) where
  pub logs_from-ok :
      (limit_logs : List LocalizedLogEntry → Option ℕ → List LocalizedLogEntry) (b : Blockchain)
      → IsChain core b.chain_state
      → (n : ℕ) (filter : Filter) → n ≤ b.chain_state.block_number
      → (blocks : List EthereumBlock) × (get_blocks b (range_inclusive n b.chain_state.block_number)
          ≡ ok blocks)
        × (logs_from core limit_logs b n filter ≡ ok (matching core filter blocks))
  unfolding logs_from matching get_block get_latest_block
  logs_from-ok limit_logs b valid n filter le =
      let (first, at_first, is_first) = block-found core b.chain_state n valid le in
      let (last, at_last, is_last) =
        block-found core b.chain_state b.chain_state.block_number valid (omega arith) in
      let query = record filter { from_block = at_number n; to_block = latest } in
      let (blocks, found, answer) =
        logs-ok core b valid query first last (ap ok at_first) (rw at_last refl) in
      let found' : get_blocks b (range_inclusive n b.chain_state.block_number) ≡ ok blocks =
        rw (is_first.same_number, is_last.same_number) at found in
      (blocks, found', answer)

  pub latest-number :
      (b : Blockchain) (blk : EthereumBlock)
      → IsChain core b.chain_state
      → get_latest_block b ≡ ok blk
      → (blk.number ≡ b.chain_state.block_number)
        × (blk.hash ≡ block_hash core b.chain_state.block_number)
  unfolding get_latest_block
  latest-number b blk valid e =
      let (best, found, good) =
        block-found core b.chain_state b.chain_state.block_number valid (omega arith) in
      let same : best ≡ blk = ok-injective (rw found at e) in
      (
        ap (λ (k : EthereumBlock). k.number) (sym same) ∙ good.same_number,
        ap (λ (k : EthereumBlock). k.hash) (sym same) ∙ good.same_hash,
      )

  module _ (limit_logs : List LocalizedLogEntry → Option ℕ → List LocalizedLogEntry) where
    -- There are no logs from the block after the best one on.
    pub logs_from-beyond :
        (b : Blockchain) (filter : Filter)
        → IsChain core b.chain_state
        → logs_from core limit_logs b (suc b.chain_state.block_number) filter ≡ err block_not_found
    unfolding logs_from logs get_block get_latest_block get_block_by_number Option.bind
    logs_from-beyond b filter valid =
        let top = b.chain_state.block_number in
        let (best, at_best, _) = block-found core b.chain_state top valid (omega arith) in
        rw (valid.beyond (suc top) (omega arith), at_best) refl

    -- Two polls of a log filter, the second on a chain with the same blocks and more of them, both
    -- answer, and together they have the logs that one query from the filter's first block on gives
    -- at the end, each once and in order, before the limit on each. Both chains are as they should
    -- be, below the last block number, and the filter's first block is there at the first poll.
    pub polls-cover :
        (b b' : Blockchain) (blk blk' : EthereumBlock) (n : ℕ) (filter : Filter)
        → IsChain core b.chain_state
        → IsChain core b'.chain_state
        → ((i : ℕ)
            → i ≤ b.chain_state.block_number
            → get_block_by_number b'.chain_state i ≡ get_block_by_number b.chain_state i)
        → b.chain_state.block_number < b'.chain_state.block_number
        → b'.chain_state.block_number < 2 ^ 64
        → n ≤ b.chain_state.block_number
        → get_latest_block b ≡ ok blk
        → get_latest_block b' ≡ ok blk'
        → let (answer, poll) = changes core limit_logs b blk (log n filter) in
          let (answer', _) = changes core limit_logs b' blk' poll in
          (xs ys : List LocalizedLogEntry) × (answer ≡ ok (found_logs (limit_logs xs filter.limit)))
          × (answer' ≡ ok (found_logs (limit_logs ys filter.limit)))
          × (logs_from core limit_logs b' n filter ≡ ok (xs ++ ys))
    unfolding changes range_inclusive
    polls-cover b b' blk blk' n filter valid valid' same further small le e e' =
        let top = b.chain_state.block_number in
        let top' = b'.chain_state.block_number in
        let (at_top, _) = latest-number b blk valid e in
        let (us, found, answer) = logs_from-ok limit_logs b valid n filter le in
        let (vs, found', answer') =
          logs_from-ok limit_logs b' valid' (suc top) filter (omega arith) in
        let (ws, found'', answer'') = logs_from-ok limit_logs b' valid' n filter (omega arith) in
        let next : u64_add blk.number 1 ≡ suc top = omega arith in
        let start : n + (suc top - n) ≡ suc top = omega arith in
        let whole : (suc top - n) + (suc top' - suc top) ≡ suc top' - n = omega arith in
        let before : get_blocks b' (count_from n (suc top - n)) ≡ ok us =
          get_blocks-same b b' top n (suc top - n) same (omega arith) ∙ found in
        let after : get_blocks b' (count_from (n + (suc top - n)) (suc top' - suc top)) ≡ ok vs =
          rw start found' in
        let all = get_blocks-append b' n (suc top - n) (suc top' - suc top) us vs before after in
        let all' : get_blocks b' (count_from n (suc top' - n)) ≡ ok (us ++ vs) = rw whole at all in
        let joined : ws ≡ us ++ vs = ok-injective (sym found'' ∙ all') in
        (
          matching core filter us,
          matching core filter vs,
          rw answer refl,
          rw (next, answer') refl,
          answer'' ∙ ap ok (ap (matching core filter) joined ∙ matching-append core filter us vs),
        )

    -- A second poll of a log filter with no new block in between ends in the error that a block is
    -- not found, on a chain that is as it should be and below the last block number.
    pub log_poll-fails :
        (b : Blockchain) (blk : EthereumBlock) (n : ℕ) (filter : Filter)
        → IsChain core b.chain_state
        → suc b.chain_state.block_number < 2 ^ 64
        → get_latest_block b ≡ ok blk
        → let (_, poll) = changes core limit_logs b blk (log n filter) in
          (changes core limit_logs b blk poll).0 ≡ err (chain_error block_not_found)
    unfolding changes
    log_poll-fails b blk n filter valid small e =
        let (at_top, _) = latest-number b blk valid e in
        let next : u64_add blk.number 1 ≡ suc b.chain_state.block_number = omega arith in
        rw (next, logs_from-beyond b filter valid) refl

    -- A second poll of a block filter with no new block in between answers with the hash of the
    -- best block, on a chain that is as it should be, whatever block the filter started with.
    pub block_poll-repeats :
        (b : Blockchain) (blk : EthereumBlock) (n : ℕ)
        → IsChain core b.chain_state
        → get_latest_block b ≡ ok blk
        → let (_, poll) = changes core limit_logs b blk (block n) in
          (changes core limit_logs b blk poll).0
          ≡ ok (hashes (block_hash core b.chain_state.block_number ∷ []))
    unfolding changes block_hashes range_inclusive count_from
    block_poll-repeats b blk n valid e =
        let (at_top, at_hash) = latest-number b blk valid e in
        let (best, found, good) =
          block-found core b.chain_state b.chain_state.block_number valid (omega arith) in
        let one : suc b.chain_state.block_number - b.chain_state.block_number ≡ 1 = omega arith in
        rw (at_top, one, found, good.same_hash) refl
