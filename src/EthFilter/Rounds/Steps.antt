-- ===== src/EthFilter/Rounds/Steps.antt =====
-- One poll of a log filter, and the filter's making (src/impls/eth_filter.rs).
use oasis_chain.Prelude.{
  ℕ, suc, ◌^◌, ◌<◌, ◌≡◌, refl, ap, sym, ◌∙◌, Option, some, List, Result, ok, ok-injective, map_err,
  ◌>>=◌, arith,
}
use oasis_chain.Words.{u64_add}
use oasis_chain.Blockchain.{
  Blockchain, get_block_by_number, EthereumBlock, Ethcore, Filter, LocalizedLogEntry,
}
use oasis_chain.Blockchain.Mine.Chain.{IsChain, block-found}
use oasis_chain.Blockchain.Queries.{get_latest_block}
use oasis_chain.EthFilter.{
  log, found_logs, FilterError, chain_error, PollManager, IsPollManager, new_filter, filter_changes,
  changes_of, with_latest, changes, logs_from,
}

module _ (core : Ethcore)
    (limit_logs : List LocalizedLogEntry → Option ℕ → List LocalizedLogEntry) where
  module _ {M : Type 0} (manager : PollManager M) (laws : IsPollManager manager) (index : ℕ)
      (filter : Filter) where
    get_latest_block-found :
        (b : Blockchain) (blk : EthereumBlock)
        → get_block_by_number b.chain_state b.chain_state.block_number ≡ some blk
        → get_latest_block b ≡ ok blk
    unfolding get_latest_block
    get_latest_block-found b blk there = rw there refl

    filter_changes-at :
        (b : Blockchain) (polls : M) (blk : EthereumBlock)
        → get_latest_block b ≡ ok blk
        → filter_changes core limit_logs manager b polls index
          ≡ changes_of core limit_logs manager b polls index blk (manager.poll polls index)
    unfolding filter_changes
    filter_changes-at b polls blk e = rw (e, filter_changes) refl

    pub filter_changes-log :
        (b : Blockchain) (polls : M) (next : ℕ)
        → IsChain core b.chain_state
        → suc b.chain_state.block_number < 2 ^ 64
        → manager.poll polls index ≡ some (log next filter)
        → filter_changes core limit_logs manager b polls index ≡ (
          map_err chain_error (logs_from core limit_logs b next filter) >>= λ ls.
              ok (found_logs (limit_logs ls filter.limit)),
          manager.put polls index (log (suc b.chain_state.block_number) filter),
        )
    unfolding changes_of changes
    filter_changes-log b polls next valid small there =
        let (best, at_best, is_best) =
          block-found core b.chain_state b.chain_state.block_number valid (omega arith) in
        let after : u64_add best.number 1 ≡ suc b.chain_state.block_number =
          omega (arith, is_best.same_number) in
        filter_changes-at b polls best (get_latest_block-found b best at_best)
        ∙ rw (there, after) refl

    new_filter-at :
        (b : Blockchain) (polls : M) (blk : EthereumBlock)
        → get_latest_block b ≡ ok blk
        → new_filter core limit_logs manager b polls filter ≡ (
            let (id, polls') = manager.create_poll polls (log blk.number filter) in (ok id, polls'))
    unfolding new_filter with_latest
    new_filter-at b polls blk e = rw (e, with_latest) refl

    pub new_filter-log :
        (b : Blockchain) (polls polls' : M)
        → IsChain core b.chain_state
        → new_filter core limit_logs manager b polls filter ≡ (ok index, polls')
        → manager.poll polls' index ≡ some (log b.chain_state.block_number filter)
    new_filter-log b polls polls' valid made =
        let top = b.chain_state.block_number in
        let (best, at_best, is_best) = block-found core b.chain_state top valid (omega arith) in
        let (id, polls'') = manager.create_poll polls (log best.number filter) in
        let made' =
          sym (new_filter-at b polls best (get_latest_block-found b best at_best)) ∙ made in
        let same_id : id ≡ index =
          ok-injective (ap (λ (p : Result FilterError ℕ × M). p.0) made') in
        let same_polls : polls'' ≡ polls' = ap (λ (p : Result FilterError ℕ × M). p.1) made' in
        cc (laws.created polls (log best.number filter), is_best.same_number)
