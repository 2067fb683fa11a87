-- ===== src/Blockchain/Simulate.antt =====
-- src/blockchain.rs: `simulate_transaction` and `estimate_gas`. The thread pool only runs the
-- closure; the executive of `ethcore` is an interface, and the result of a virtual transaction is all
-- that it has.
use oasis_chain.Prelude.{
  ℕ, ◌+◌, ◌-◌, ◌^◌, Option, [], ◌∷◌, Bytes, Result, ok, ◌>>=◌, unwrap, ltb, assert, ◌>>◌,
}
use oasis_chain.Words.{u64_add}
use oasis_chain.Blockchain.Types.{BlockId, SignedTransaction, EnvInfo, Mkvs}
use oasis_chain.Blockchain.State.{Blockchain, get_block_by_number}

-- `VmError`, as far as it is told apart.
pub data VmError : Type 0 where
  reverted out_of_gas : VmError
  other : Bytes → VmError

-- The part of `Executed` that is read.
pub record Executed : Type 0 where
  pub exception : Option VmError
  pub gas_used : ℕ
  pub refunded : ℕ
  pub output : Bytes

-- `Executive::transact_virtual`, with no tracing and with no check of the nonce; an error is a text.
abbrev pub Executive : Type 0
Executive = Mkvs → EnvInfo → SignedTransaction → Result Bytes Executed

module _ (transact_virtual : Executive) where
  -- `Blockchain::simulate_transaction`, at a time. The identifier of a block is not used.
  unfoldable pub simulate_transaction :
      Blockchain → ℕ → SignedTransaction → BlockId → Result Bytes Executed
  simulate_transaction b timestamp txn _ = do
    best_block ← unwrap (get_block_by_number b.chain_state b.chain_state.block_number)
    let env_info : EnvInfo = record {
      number = u64_add b.chain_state.block_number 1;
      timestamp = timestamp;
      gas_limit = 2 ^ 256 - 1;
      last_hashes = best_block.hash ∷ [];
    }
    transact_virtual b.chain_state.mkvs env_info txn

  -- `Blockchain::estimate_gas`; the addition of two `U256` panics where it overflows.
  unfoldable pub estimate_gas : Blockchain → ℕ → SignedTransaction → BlockId → Result Bytes ℕ
  unfolding simulate_transaction
  estimate_gas b timestamp txn id = do
    executed ← simulate_transaction b timestamp txn id
    assert (ltb (executed.gas_used + executed.refunded) (2 ^ 256))
    ok (executed.gas_used + executed.refunded)
