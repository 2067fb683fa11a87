-- ===== src/Eth.antt =====
-- src/impls/eth.rs: the `eth_` handlers of the RPC. A future that is ready at once is its result. The
-- types and conversions of the crate `parity-rpc` and the reader of `ethcore`'s state are interfaces.
pub mod Accounts
pub mod Unsupported
pub mod Found
pub mod Accepted
mod Tests
use oasis_chain.Prelude.{
  ℕ, zero, suc, ◌+◌, ◌%◌, ◌^◌, Option, none, some, List, [], ◌∷◌, map, length, Bool, true, false,
  Bytes, codes, Result, ok, err, panic, ◌>>=◌, map_err,
}
use mathlib.Core.Option
use oasis_chain.Util.{
  BlockNumber, num, latest_block, earliest_block, pending, RpcError, block_number_to_id,
  jsonrpc_error, execution_error,
}
use oasis_chain.Blockchain.{
  Blockchain, Ethcore, BlockchainError, could_not_decode, gas_above_block_limit, invalid_signature,
  insufficient_gas_price, execution, block_not_found, EthereumBlock, LocalizedTransaction,
  LocalizedReceipt, LocalizedLogEntry, SignedTransaction, Filter, ExecutionResult,
}
use oasis_chain.Blockchain.Mine
use oasis_chain.Blockchain.Queries
use oasis_chain.Blockchain.Simulate.{VmError, Executed, Executive, simulate_transaction}
use oasis_chain.Blockchain.Simulate
use oasis_chain.Blockchain.Rendering.{HeaderCrates, RichBlock, rich_block}

-- What `parity-rpc` answers with, and its conversions from `ethcore`'s types.
pub record ParityRpc : Type 1 where
  pub Transaction : Type 0
  pub Receipt : Type 0
  pub Log : Type 0
  pub CallRequest : Type 0
  pub RpcFilter : Type 0
  pub from_localized : LocalizedTransaction → Transaction
  pub receipt_from : LocalizedReceipt → Receipt
  pub log_from : LocalizedLogEntry → Log
  pub filter_from : RpcFilter → Filter
  -- `BlockNumber::default`
  pub default_number : BlockNumber
  -- `fake_sign::sign_call`, for a request that a dapp made or not.
  pub sign_call : CallRequest → Bool → Result RpcError SignedTransaction
  pub errors_call : Bytes → RpcError
  pub errors_vm : VmError → Bytes → RpcError
  pub errors_deprecated : Bytes → RpcError
  pub errors_unimplemented : RpcError
  -- The hash of an empty list, in a header.
  pub header_crates : HeaderCrates

-- The message of an error.
pub error_text : BlockchainError → Bytes
error_text could_not_decode = codes "Could not decode transaction"
error_text gas_above_block_limit = codes "Requested gas greater than block gas limit"
error_text invalid_signature = codes "Invalid signature"
error_text insufficient_gas_price = codes "Insufficient gas price"
error_text (execution message) = message
error_text block_not_found = codes "block not found"

-- `map_err(jsonrpc_error)`
unfoldable pub answer : {A : Type 0} → Result BlockchainError A → Result RpcError A
answer = map_err (λ e. jsonrpc_error (error_text e))

-- Constant answers.
pub protocol_version : Bytes
protocol_version = codes "63"

pub syncing : Bool
syncing = false

pub author : ℕ
author = 0

pub is_mining : Bool
is_mining = true

pub hashrate : ℕ
hashrate = 0

-- `EthClient::gas_price`
pub gas_price : Blockchain → ℕ
gas_price b = b.gas_price

pub accounts : List ℕ
accounts = []

-- `EthClient::block_number`
unfoldable pub block_number : Blockchain → ℕ
block_number b = Queries.best_block_number b

-- The number of a block's transactions, if there is a block.
unfoldable pub transactions_len : Option EthereumBlock → Option ℕ
transactions_len = Option.map (λ blk. length blk.transactions)

unfoldable pub block_transaction_count_by_hash : Blockchain → ℕ → Result RpcError (Option ℕ)
unfolding transactions_len
block_transaction_count_by_hash b hash = ok (transactions_len (Queries.get_block_by_hash b hash))

unfoldable pub block_transaction_count_by_number :
    Blockchain → BlockNumber → Result RpcError (Option ℕ)
unfolding answer transactions_len
block_transaction_count_by_number b pending = ok (some 0)
block_transaction_count_by_number b number =
    answer (Queries.get_block b (block_number_to_id number) >>= λ blk. ok (transactions_len blk))

-- `index.value() as u32`
unfoldable pub as_u32 : ℕ → ℕ
as_u32 n = n % 2 ^ 32

module _ (rpc : ParityRpc) where
  open rpc use {
    from_localized, receipt_from, log_from, filter_from, default_number, sign_call, errors_call,
    errors_vm, errors_deprecated, errors_unimplemented, header_crates,
  }

  -- A found block as it is answered.
  unfoldable pub rich : Bool → Option EthereumBlock → Option (RichBlock rpc.Transaction)
  rich include_txs = Option.map (λ blk. rich_block header_crates from_localized blk include_txs)

  unfoldable pub block_by_hash :
      Blockchain → ℕ → Bool → Result RpcError (Option (RichBlock rpc.Transaction))
  unfolding rich
  block_by_hash b hash include_txs = ok (rich include_txs (Queries.get_block_by_hash b hash))

  unfoldable pub block_by_number :
      Blockchain → BlockNumber → Bool → Result RpcError (Option (RichBlock rpc.Transaction))
  unfolding answer rich
  block_by_number b number include_txs =
      answer (Queries.get_block b (block_number_to_id number) >>= λ blk. ok (rich include_txs blk))

  unfoldable pub transaction_by_hash : Blockchain → ℕ → Result RpcError (Option rpc.Transaction)
  transaction_by_hash b hash = ok (Option.map from_localized (Queries.get_txn_by_hash b hash))

  unfoldable pub transaction_by_block_hash_and_index :
      Blockchain → ℕ → ℕ → Result RpcError (Option rpc.Transaction)
  unfolding as_u32
  transaction_by_block_hash_and_index b hash index =
      ok (Option.map from_localized (Queries.get_txn_by_block_hash_and_index b hash (as_u32 index)))

  unfoldable pub transaction_by_block_number_and_index :
      Blockchain → BlockNumber → ℕ → Result RpcError (Option rpc.Transaction)
  unfolding as_u32
  transaction_by_block_number_and_index b pending index = ok none
  transaction_by_block_number_and_index b number index =
      ok (Option.map from_localized (Queries.get_txn b (block_number_to_id number) (as_u32 index)))

  unfoldable pub transaction_receipt : Blockchain → ℕ → Result RpcError (Option rpc.Receipt)
  transaction_receipt b hash = ok (Option.map receipt_from (Queries.get_txn_receipt_by_hash b hash))

  -- `EthClient::logs`
  unfoldable pub logs : Ethcore → Blockchain → rpc.RpcFilter → Result RpcError (List rpc.Log)
  unfolding answer
  logs core b filter =
      answer (Queries.logs core b (filter_from filter)) >>= λ found. ok (map log_from found)

  module _ (transact_virtual : Executive) where
    -- An exception of the virtual machine is an error.
    unfoldable pub output_of : Executed → Option VmError → Result RpcError Bytes
    output_of executed (some exception) = err (errors_vm exception executed.output)
    output_of executed none = ok executed.output

    -- `EthClient::call`, at a time; whether a dapp asks is the metadata that is read.
    unfoldable pub call :
        Blockchain → ℕ → Bool → rpc.CallRequest → Option BlockNumber → Result RpcError Bytes
    unfolding output_of
    call b timestamp is_dapp request number = do
      let id = block_number_to_id (Option.get_or number default_number)
      signed ← sign_call request is_dapp
      executed ← map_err errors_call (simulate_transaction transact_virtual b timestamp signed id)
      output_of executed executed.exception

    -- `EthClient::estimate_gas`
    unfoldable pub estimate_gas :
        Blockchain → ℕ → Bool → rpc.CallRequest → Option BlockNumber → Result RpcError ℕ
    estimate_gas b timestamp is_dapp request number = do
      let id = block_number_to_id (Option.get_or number default_number)
      signed ← sign_call request is_dapp
      map_err execution_error (Simulate.estimate_gas transact_virtual b timestamp signed id)

-- What a submission answers: the hash of the transaction.
unfoldable pub sent : Result BlockchainError (ℕ × ExecutionResult) → Result RpcError ℕ
sent (ok (hash, _)) = ok hash
sent (err e) = err (execution_error (error_text e))
sent panic = panic

-- `EthClient::send_raw_transaction`, at a time.
unfoldable pub send_raw_transaction :
    Ethcore → Blockchain → ℕ → Bytes → Result RpcError ℕ × Blockchain
unfolding sent
send_raw_transaction core b timestamp raw =
    let (result, next) = Mine.send_raw_transaction core b timestamp raw in (sent result, next)

-- `EthClient::submit_transaction`
unfoldable pub submit_transaction :
    Ethcore → Blockchain → ℕ → Bytes → Result RpcError ℕ × Blockchain
unfolding send_raw_transaction
submit_transaction = send_raw_transaction
