-- ===== src/Blockchain/Types.antt =====
-- The data of src/blockchain.rs, and the interface to the crates that it builds on.
use oasis_chain.Prelude.{ℕ, Bool, Option, List, Bytes, Dict, Result}
use oasis_chain.ConfidentialCtx.{ConfidentialCtx}
use oasis_chain.KeyManager.{MockClient}

-- `BLOCK_GAS_LIMIT` and `MIN_GAS_PRICE_GWEI`
abbrev pub block_gas_limit : ℕ
block_gas_limit = 16000000

abbrev pub min_gas_price_gwei : ℕ
min_gas_price_gwei = 1

-- `ethcore::types::ids::BlockId`
pub data BlockId : Type 0 where
  hash : ℕ → BlockId
  number : ℕ → BlockId
  latest earliest : BlockId

-- `ethcore::transaction::Action`
pub data Action : Type 0 where
  create : Action
  call : ℕ → Action

-- The part of `UnverifiedTransaction` that the chain reads, and the bytes that it was decoded from.
pub record UnverifiedTransaction : Type 0 where
  pub raw : Bytes
  pub gas : ℕ

-- The part of `SignedTransaction` that the chain reads.
pub record SignedTransaction : Type 0 where
  pub unverified : UnverifiedTransaction
  pub hash : ℕ
  pub sender : ℕ
  pub nonce : ℕ
  pub gas_price : ℕ
  pub action : Action
  pub payload : Bytes

pub record LogEntry : Type 0 where
  pub address : ℕ
  pub topics : List ℕ
  pub payload : Bytes

pub record LocalizedLogEntry : Type 0 where
  pub entry : LogEntry
  pub block_hash : ℕ
  pub block_number : ℕ
  pub transaction_hash : ℕ
  pub transaction_index : ℕ
  pub transaction_log_index : ℕ
  pub log_index : ℕ

pub record LocalizedTransaction : Type 0 where
  pub signed : SignedTransaction
  pub block_number : ℕ
  pub block_hash : ℕ
  pub transaction_index : ℕ
  pub cached_sender : Option ℕ

-- `ethcore::receipt::TransactionOutcome`
pub data TransactionOutcome : Type 0 where
  unknown : TransactionOutcome
  state_root : ℕ → TransactionOutcome
  status_code : ℕ → TransactionOutcome

pub record LocalizedReceipt : Type 0 where
  pub transaction_hash : ℕ
  pub transaction_index : ℕ
  pub block_hash : ℕ
  pub block_number : ℕ
  pub cumulative_gas_used : ℕ
  pub gas_used : ℕ
  pub contract_address : Option ℕ
  pub logs : List LocalizedLogEntry
  pub log_bloom : ℕ
  pub outcome : TransactionOutcome

pub record EthereumBlock : Type 0 where
  pub number : ℕ
  pub timestamp : ℕ
  pub hash : ℕ
  pub parent_hash : ℕ
  pub gas_used : ℕ
  pub gas_limit : ℕ
  pub log_bloom : ℕ
  pub logs : List LocalizedLogEntry
  pub transactions : List LocalizedTransaction

pub record ExecutionResult : Type 0 where
  pub cumulative_gas_used : ℕ
  pub gas_used : ℕ
  pub log_bloom : ℕ
  pub logs : List LogEntry
  pub status_code : ℕ
  pub output : Bytes

-- `MemoryMKVS`, the store of the accounts.
abbrev pub Mkvs : Type 0
Mkvs = Dict Bytes Bytes

pub record ChainState : Type 0 where
  pub mkvs : Mkvs
  pub block_number : ℕ
  pub blocks : Dict ℕ EthereumBlock
  pub block_number_to_hash : Dict ℕ ℕ
  pub transactions : Dict ℕ LocalizedTransaction
  pub receipts : Dict ℕ LocalizedReceipt

-- The fields of `EnvInfo` that are not defaults.
pub record EnvInfo : Type 0 where
  pub number : ℕ
  pub timestamp : ℕ
  pub gas_limit : ℕ
  pub last_hashes : List ℕ

pub record Receipt : Type 0 where
  pub gas_used : ℕ
  pub log_bloom : ℕ
  pub logs : List LogEntry
  pub outcome : TransactionOutcome

-- `ApplyOutcome`
pub record ApplyOutcome : Type 0 where
  pub receipt : Receipt
  pub output : Bytes

pub data BlockchainError : Type 0 where
  could_not_decode gas_above_block_limit invalid_signature insufficient_gas_price : BlockchainError
  execution : Bytes → BlockchainError
  block_not_found : BlockchainError

-- The filter of a log query.
pub record Filter : Type 0 where
  pub from_block : BlockId
  pub to_block : BlockId
  pub limit : Option ℕ
  pub addresses : List ℕ
  pub topics : List (List ℕ)

-- `State::apply` on the store: an error's message, or the outcome with the store as `State::commit`
-- leaves it; and the key manager's keys, which the confidential context may have added to.
pub record Applied : Type 0 where
  pub outcome : Result Bytes (ApplyOutcome × Mkvs)
  pub keys : MockClient

pub record Ethcore : Type 0 where
  -- `rlp::decode`
  pub decode : Bytes → Option UnverifiedTransaction
  -- `SignedTransaction::new`
  pub verify : UnverifiedTransaction → Option SignedTransaction
  pub apply : Mkvs → ConfidentialCtx → MockClient → EnvInfo → SignedTransaction → Applied
  -- `contract_address` with the scheme of the block's number, for a sender, a nonce and the code.
  pub contract_address : ℕ → ℕ → ℕ → Bytes → ℕ
  -- `Filter::matches`, which reads the filter's addresses and topics.
  pub filter_matches : List ℕ → List (List ℕ) → LocalizedLogEntry → Bool
  pub keccak : Bytes → ℕ
  -- `H256::to_vec`
  pub hash_bytes : ℕ → Bytes
