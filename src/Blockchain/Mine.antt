-- ===== src/Blockchain/Mine.antt =====
-- src/blockchain.rs: `send_raw_transaction` and `mine_block`.
pub mod Chain
pub mod Extension
pub mod Submit
pub mod History
pub mod Accepted
use oasis_chain.Prelude.{
  ℕ, ◌+◌, suc, [], ◌∷◌, List, Option, none, some, Bytes, Result, ok, err, panic, ltb, if◌then◌else◌,
  insert, nat_eq,
}
use oasis_chain.Words.{u64_add}
use oasis_chain.ConfidentialCtx
use oasis_chain.KeyManager.{MockClient}
use oasis_chain.Blockchain.Types.{
  Action, create, call, UnverifiedTransaction, SignedTransaction, LogEntry, LocalizedLogEntry,
  LocalizedTransaction, LocalizedReceipt, EthereumBlock, ExecutionResult, ChainState, EnvInfo,
  ApplyOutcome, Applied, TransactionOutcome, status_code, BlockchainError, could_not_decode,
  gas_above_block_limit, invalid_signature, insufficient_gas_price, execution, Ethcore, Mkvs,
}
use oasis_chain.Blockchain.State.{Blockchain, get_block_by_number, new_block, block_hash}

-- The logs of a transaction, numbered from `i` on, with the block and transaction they are from.
unfoldable pub localize_logs : ℕ → ℕ → ℕ → ℕ → List LogEntry → List LocalizedLogEntry
localize_logs block_hash number txn_hash i [] = []
localize_logs block_hash number txn_hash i (log ∷ logs) =
    record {
      entry = log;
      block_hash = block_hash;
      block_number = number;
      transaction_hash = txn_hash;
      transaction_index = 0;
      transaction_log_index = i;
      log_index = i;
    }
    ∷ localize_logs block_hash number txn_hash (suc i) logs

module _ (core : Ethcore) where
  open core use {decode, verify, apply, contract_address, hash_bytes}

  pub localize_txn : ℕ → SignedTransaction → LocalizedTransaction
  localize_txn number txn = record {
    signed = txn;
    block_number = number;
    block_hash = block_hash core number;
    transaction_index = 0;
    cached_sender = none;
  }

  created_address : ℕ → SignedTransaction → Action → Option ℕ
  created_address number txn (call _) = none
  created_address number txn create =
      some (contract_address number txn.sender txn.nonce txn.payload)

  pub make_receipt : ℕ → SignedTransaction → ApplyOutcome → LocalizedReceipt
  unfolding created_address
  make_receipt number txn outcome =
      let receipt = outcome.receipt in
      record {
        transaction_hash = txn.hash;
        transaction_index = 0;
        block_hash = block_hash core number;
        block_number = number;
        cumulative_gas_used = receipt.gas_used;
        gas_used = receipt.gas_used;
        contract_address = created_address number txn txn.action;
        logs = localize_logs (block_hash core number) number txn.hash 0 receipt.logs;
        log_bloom = receipt.log_bloom;
        outcome = receipt.outcome;
      }

  -- The block of an executed transaction, with the transaction and its logs.
  pub make_block :
      Blockchain → EthereumBlock → ℕ → ℕ → SignedTransaction → ApplyOutcome → EthereumBlock
  unfolding localize_txn
  make_block b best_block number timestamp txn outcome =
      let receipt = outcome.receipt in
      record (new_block core number best_block.hash timestamp receipt.gas_used b.block_gas_limit
        receipt.log_bloom) {
          transactions = localize_txn number txn ∷ [];
          logs = localize_logs (block_hash core number) number txn.hash 0 receipt.logs;
        }

  -- The chain state with the block, its transaction and its receipt stored.
  pub store_block :
      Blockchain → Mkvs → EthereumBlock → ℕ → ℕ → SignedTransaction → ApplyOutcome → ChainState
  unfolding make_block make_receipt localize_txn
  store_block b mkvs best_block number timestamp txn outcome =
      let c = b.chain_state in
      let hash = block_hash core number in
      record {
        mkvs = mkvs;
        block_number = number;
        transactions = insert txn.hash (localize_txn number txn) c.transactions;
        receipts = insert txn.hash (make_receipt number txn outcome) c.receipts;
        blocks = insert hash (make_block b best_block number timestamp txn outcome) c.blocks;
        block_number_to_hash = insert number hash c.block_number_to_hash;
      }

  -- The `ExecutionResult`; only outcomes with a status code are expected.
  pub execution_result :
      ℕ → ApplyOutcome → TransactionOutcome → Result BlockchainError (ℕ × ExecutionResult)
  execution_result txn_hash outcome (status_code code) =
      let receipt = outcome.receipt in
      ok (
        txn_hash,
        record {
          cumulative_gas_used = receipt.gas_used;
          gas_used = receipt.gas_used;
          log_bloom = receipt.log_bloom;
          logs = receipt.logs;
          status_code = code;
          output = outcome.output;
        },
      )
  execution_result txn_hash outcome _ = panic

  -- What follows the execution of the transaction on the best block's state.
  after_apply :
      Blockchain
      → EthereumBlock
      → ℕ
      → ℕ
      → SignedTransaction
      → MockClient
      → Result Bytes (ApplyOutcome × Mkvs)
      → Result BlockchainError (ℕ × ExecutionResult) × Blockchain
  unfolding store_block execution_result
  after_apply b best_block number timestamp txn keys (ok (outcome, mkvs)) = (
    execution_result txn.hash outcome outcome.receipt.outcome,
    record b {
      keys = keys;
      chain_state = store_block b mkvs best_block number timestamp txn outcome;
    },
  )
  after_apply b best_block number timestamp txn keys (err message) =
      (err (execution message), record b { keys = keys })
  after_apply b best_block number timestamp txn keys panic = (panic, record b { keys = keys })

  -- The execution of the transaction on the best block's state, in the environment of a block.
  unfoldable pub execute : Blockchain → EthereumBlock → ℕ → ℕ → SignedTransaction → Applied
  execute b best_block number timestamp txn =
      let env_info : EnvInfo = record {
        number = number;
        timestamp = timestamp;
        gas_limit = b.block_gas_limit;
        last_hashes = best_block.hash ∷ [];
      } in
      apply b.chain_state.mkvs (ConfidentialCtx.new (hash_bytes best_block.hash)) b.keys env_info
        txn

  -- What mining does on the best block, which is expected to be there.
  mine_on :
      Blockchain
      → ℕ
      → SignedTransaction
      → Option EthereumBlock
      → Result BlockchainError (ℕ × ExecutionResult) × Blockchain
  unfolding after_apply execute
  mine_on b timestamp txn none = (panic, b)
  mine_on b timestamp txn (some best_block) =
      let number = u64_add b.chain_state.block_number 1 in
      let applied = execute b best_block number timestamp txn in
      after_apply b best_block number timestamp txn applied.keys applied.outcome

  -- `Blockchain::mine_block`
  unfoldable pub mine_block :
      Blockchain → ℕ → SignedTransaction → Result BlockchainError (ℕ × ExecutionResult) × Blockchain
  unfolding mine_on
  mine_block b timestamp txn =
      let c = b.chain_state in mine_on b timestamp txn (get_block_by_number c c.block_number)

  -- A submission, once its signature has been checked.
  send_verified :
      Blockchain
      → ℕ
      → Option SignedTransaction
      → Result BlockchainError (ℕ × ExecutionResult) × Blockchain
  send_verified b timestamp none = (err invalid_signature, b)
  send_verified b timestamp (some txn) =
      if ltb txn.gas_price b.gas_price
      then (err insufficient_gas_price, b)
      else mine_block b timestamp txn

  -- A submission, once it has been decoded.
  send_decoded :
      Blockchain
      → ℕ
      → Option UnverifiedTransaction
      → Result BlockchainError (ℕ × ExecutionResult) × Blockchain
  unfolding send_verified
  send_decoded b timestamp none = (err could_not_decode, b)
  send_decoded b timestamp (some decoded) =
      if ltb b.block_gas_limit decoded.gas
      then (err gas_above_block_limit, b)
      else send_verified b timestamp (verify decoded)

  -- `Blockchain::send_raw_transaction`
  unfoldable pub send_raw_transaction :
      Blockchain → ℕ → Bytes → Result BlockchainError (ℕ × ExecutionResult) × Blockchain
  unfolding send_decoded
  send_raw_transaction b timestamp raw = send_decoded b timestamp (decode raw)
