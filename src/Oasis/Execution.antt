-- ===== src/Oasis/Execution.antt =====
-- src/impls/oasis.rs: the submission of a transaction and the expiry of a contract's storage.
use oasis_chain.Prelude.{ℕ, Option, Bytes, Result, ok, err, panic, ◌>>=◌, map_err}
use oasis_chain.Util.{BlockNumber, RpcError, jsonrpc_error, execution_error}
use oasis_chain.Blockchain.{Blockchain, Ethcore, BlockchainError, ExecutionResult}
use oasis_chain.Blockchain.Mine
use oasis_chain.Eth.{ParityRpc, error_text}
use oasis_chain.Eth.Accounts.{StateReader, state_at}

pub record RpcExecutionPayload : Type 0 where
  pub transaction_hash : ℕ
  pub status_code : ℕ
  pub output : Bytes

-- The answer to a submission.
unfoldable pub payload_of :
    Result BlockchainError (ℕ × ExecutionResult) → Result RpcError RpcExecutionPayload
payload_of (ok (hash, result)) =
    ok
      (record { transaction_hash = hash; status_code = result.status_code; output = result.output })
payload_of (err e) = err (execution_error (error_text e))
payload_of panic = panic

-- `OasisClient::invoke`, at a time.
unfoldable pub invoke :
    Ethcore → Blockchain → ℕ → Bytes → Result RpcError RpcExecutionPayload × Blockchain
unfolding payload_of
invoke core b timestamp raw =
    let (result, next) = Mine.send_raw_transaction core b timestamp raw in (payload_of result, next)

-- `OasisClient::get_expiry`
unfoldable pub get_expiry :
    StateReader → ParityRpc → Blockchain → ℕ → Option BlockNumber → Result RpcError ℕ
get_expiry reader rpc b address number =
    state_at reader rpc b number >>= λ s. map_err jsonrpc_error (reader.storage_expiry s address)
