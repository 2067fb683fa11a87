-- ===== src/Blockchain/Mine/Accepted.antt =====
-- Which submissions succeed (src/blockchain.rs).
use oasis_chain.Prelude.{ℕ, suc, ◌^◌, ◌≤◌, ◌<◌, ◌≡◌, refl, some, Bytes, ok, le→ltb, arith}
use oasis_chain.Words.{u64_add}
use oasis_chain.Blockchain.Types.{
  Ethcore, EthereumBlock, SignedTransaction, UnverifiedTransaction, ApplyOutcome, Mkvs,
  ExecutionResult, status_code,
}
use oasis_chain.Blockchain.State.{Blockchain, get_block_by_number}
use oasis_chain.Blockchain.Mine.{
  execute, execution_result, after_apply, mine_on, mine_block, send_verified, send_decoded,
  send_raw_transaction,
}

module _ (core : Ethcore) (b : Blockchain) (timestamp : ℕ) where
  -- The execution of a transaction on the best block succeeds, in the environment of the next one.
  abbrev pub Succeeds : EthereumBlock → SignedTransaction → ApplyOutcome → Mkvs → Type 0
  Succeeds best txn outcome mkvs =
      (execute core b best (suc b.chain_state.block_number) timestamp txn).outcome
      ≡ ok (outcome, mkvs)

  module _ (small : suc b.chain_state.block_number < 2 ^ 64) where
    mine_block-ok :
        (txn : SignedTransaction) (best : EthereumBlock) (outcome : ApplyOutcome) (mkvs : Mkvs)
        (code : ℕ)
        → get_block_by_number b.chain_state b.chain_state.block_number ≡ some best
        → Succeeds best txn outcome mkvs
        → outcome.receipt.outcome ≡ status_code code
        → (r : ExecutionResult) × ((mine_block core b timestamp txn).0 ≡ ok (txn.hash, r))
    unfolding mine_block mine_on after_apply execution_result
    mine_block-ok txn best outcome mkvs code found executed status =
        let next : u64_add b.chain_state.block_number 1 ≡ suc b.chain_state.block_number =
          omega arith in
        let receipt = outcome.receipt in
        let result : ExecutionResult = record {
          cumulative_gas_used = receipt.gas_used;
          gas_used = receipt.gas_used;
          log_bloom = receipt.log_bloom;
          logs = receipt.logs;
          status_code = code;
          output = outcome.output;
        } in
        (result, rw (found, next, executed, status) refl)

    -- A transaction that is decoded, verified, within the gas limit and paid for, and that executes
    -- with a status code, is answered with its hash.
    pub send_raw_transaction-ok :
        (raw : Bytes) (decoded : UnverifiedTransaction) (txn : SignedTransaction)
        (best : EthereumBlock) (outcome : ApplyOutcome) (mkvs : Mkvs) (code : ℕ)
        → core.decode raw ≡ some decoded
        → decoded.gas ≤ b.block_gas_limit
        → core.verify decoded ≡ some txn
        → b.gas_price ≤ txn.gas_price
        → get_block_by_number b.chain_state b.chain_state.block_number ≡ some best
        → Succeeds best txn outcome mkvs
        → outcome.receipt.outcome ≡ status_code code
        → (r : ExecutionResult) × ((send_raw_transaction core b timestamp raw).0 ≡ ok (txn.hash, r))
    unfolding send_raw_transaction send_decoded send_verified
    send_raw_transaction-ok raw decoded txn best outcome mkvs code d gas v price found executed
          status =
        let (r, mined) = mine_block-ok txn best outcome mkvs code found executed status in
        (
          r,
          rw
              (
                d,
                le→ltb b.block_gas_limit decoded.gas gas,
                v,
                le→ltb txn.gas_price b.gas_price price,
              )
              mined,
        )
