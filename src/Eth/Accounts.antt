-- ===== src/Eth/Accounts.antt =====
-- src/impls/eth.rs: the handlers that read the state of an account; and `Blockchain::state`. The state
-- of `ethcore` over a store is an interface.
use oasis_chain.Prelude.{ℕ, Option, none, some, [], Bytes, Result, ok, ◌>>=◌, map_err}
use mathlib.Core.Option
use oasis_chain.Util.{BlockNumber, RpcError, block_number_to_id, jsonrpc_error}
use oasis_chain.Blockchain.{Blockchain, BlockId, Mkvs}
use oasis_chain.Eth.{ParityRpc}

-- `State::from_existing` and what is read from a state; an error is its text.
pub record StateReader : Type 1 where
  pub State : Type 0
  pub from_existing : Mkvs → Result Bytes State
  pub balance : State → ℕ → Result Bytes ℕ
  pub storage_at : State → ℕ → ℕ → Result Bytes ℕ
  pub nonce : State → ℕ → Result Bytes ℕ
  pub code : State → ℕ → Result Bytes (Option Bytes)
  pub storage_expiry : State → ℕ → Result Bytes ℕ

module _ (reader : StateReader) where
  -- `Blockchain::state`: the identifier of a block is not used.
  unfoldable pub state : Blockchain → BlockId → Result Bytes reader.State
  state b _ = reader.from_existing b.chain_state.mkvs

  -- The code of an account without any is empty.
  pub code_bytes : Option Bytes → Bytes
  code_bytes none = []
  code_bytes (some bytes) = bytes

  module _ (rpc : ParityRpc) where
    -- The state that a handler reads, at a block number or the default one.
    unfoldable pub state_at : Blockchain → Option BlockNumber → Result RpcError reader.State
    unfolding state
    state_at b number =
        map_err jsonrpc_error
          (state b (block_number_to_id (Option.get_or number rpc.default_number)))

    unfoldable pub balance : Blockchain → ℕ → Option BlockNumber → Result RpcError ℕ
    balance b address number =
        state_at b number >>= λ s. map_err jsonrpc_error (reader.balance s address)

    unfoldable pub storage_at : Blockchain → ℕ → ℕ → Option BlockNumber → Result RpcError ℕ
    storage_at b address pos number =
        state_at b number >>= λ s. map_err jsonrpc_error (reader.storage_at s address pos)

    unfoldable pub transaction_count : Blockchain → ℕ → Option BlockNumber → Result RpcError ℕ
    transaction_count b address number =
        state_at b number >>= λ s. map_err jsonrpc_error (reader.nonce s address)

    unfoldable pub code_at : Blockchain → ℕ → Option BlockNumber → Result RpcError Bytes
    code_at b address number = state_at b number >>= λ s.
        map_err jsonrpc_error (reader.code s address) >>= λ code. ok (code_bytes code)
