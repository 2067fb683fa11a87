-- ===== src/Util.antt =====
-- src/util.rs: conversions for the RPC handlers, and their errors. The current time is an argument of
-- what uses it.
mod Tests
use Prim.Native.Nat.{min}
use oasis_chain.Prelude.{ℕ, ◌-◌, ◌*◌, ◌^◌, Bytes, Option, none, some, ◌++◌, codes}
use oasis_chain.Blockchain.{BlockId, number, latest, earliest}

-- `parity_rpc::v1::types::BlockNumber`
pub data BlockNumber : Type 0 where
  num : ℕ → BlockNumber
  latest_block earliest_block pending : BlockNumber

-- `jsonrpc_core::ErrorCode`, as far as it is used here; `server_error n` has the code `-n`.
pub data ErrorCode : Type 0 where
  internal_error invalid_params : ErrorCode
  server_error : ℕ → ErrorCode

-- `jsonrpc_core::Error`, whose data is a text.
pub record RpcError : Type 0 where
  pub code : ErrorCode
  pub message : Bytes
  pub data_text : Option Bytes

-- `gwei_to_wei`; the product saturates at `U256::max_value()`.
unfoldable pub gwei_to_wei : ℕ → ℕ
gwei_to_wei gwei = min (gwei * 1000000000) (2 ^ 256 - 1)

-- `block_number_to_id`
unfoldable pub block_number_to_id : BlockNumber → BlockId
block_number_to_id (num n) = number n
block_number_to_id earliest_block = earliest
block_number_to_id latest_block = latest
block_number_to_id pending = latest

-- `jsonrpc_error`, on the text of the error.
pub jsonrpc_error : Bytes → RpcError
jsonrpc_error text = record { code = internal_error; message = text; data_text = none }

-- `execution_error`, on the text of the data.
pub execution_error : Bytes → RpcError
execution_error text = record {
  code = server_error 32015;
  message = codes "Transaction execution error with cause: " ++ text;
  data_text = some text;
}
