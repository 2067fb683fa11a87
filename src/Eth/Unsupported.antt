-- ===== src/Eth/Unsupported.antt =====
-- src/impls/eth.rs: the handlers that answer nothing: there are no uncles, no work to be mined and no
-- compilers.
use oasis_chain.Prelude.{ℕ, Bool, Option, none, List, Bytes, codes, Result, err}
use oasis_chain.Util.{BlockNumber, RpcError}
use oasis_chain.Eth.{ParityRpc}

-- There are no uncles.
pub block_uncles_count_by_hash : ℕ → Option ℕ
block_uncles_count_by_hash hash = none

pub block_uncles_count_by_number : BlockNumber → Option ℕ
block_uncles_count_by_number number = none

pub uncle_by_block_hash_and_index : {Block : Type 0} → ℕ → ℕ → Option Block
uncle_by_block_hash_and_index hash index = none

pub uncle_by_block_number_and_index : {Block : Type 0} → BlockNumber → ℕ → Option Block
uncle_by_block_number_and_index number index = none

module _ (rpc : ParityRpc) where
  open rpc use {errors_deprecated, errors_unimplemented}

  -- The handlers that are not supported.
  pub compilers : Result RpcError (List Bytes)
  compilers = err (errors_deprecated (codes "Compilation functionality is deprecated."))

  pub work : {Work : Type 0} → Option ℕ → Result RpcError Work
  work no_new_work_timeout = err errors_unimplemented

  pub submit_work : ℕ → ℕ → ℕ → Result RpcError Bool
  submit_work nonce pow_hash mix_hash = err errors_unimplemented

  pub submit_hashrate : ℕ → ℕ → Result RpcError Bool
  submit_hashrate rate id = err errors_unimplemented

  pub compile_lll : Bytes → Result RpcError Bytes
  compile_lll text = err (errors_deprecated (codes "Compilation of LLL via RPC is deprecated"))

  pub compile_serpent : Bytes → Result RpcError Bytes
  compile_serpent text =
      err (errors_deprecated (codes "Compilation of Serpent via RPC is deprecated"))

  pub compile_solidity : Bytes → Result RpcError Bytes
  compile_solidity text =
      err (errors_deprecated (codes "Compilation of Solidity via RPC is deprecated"))
