-- ===== src/Blockchain/Rendering.antt =====
-- src/blockchain.rs: `rich_header` and `rich_block`, what the RPC answers for a block.
use oasis_chain.Prelude.{
  ℕ, Option, none, some, List, [], ◌∷◌, ◌++◌, Bool, true, false, Bytes, codes, Dict, map,
}
use oasis_chain.Blockchain.Types.{EthereumBlock, LocalizedTransaction}

-- What other crates have for a header: the Keccak hash of an empty list's RLP,
-- `KECCAK_EMPTY_LIST_RLP`, and the texts of `H256::default()` and `H64::default()` under `{:x}`.
pub record HeaderCrates : Type 0 where
  pub empty_list_hash : ℕ
  pub h256_zero_hex : Bytes
  pub h64_zero_hex : Bytes

-- `BLOCK_EXTRA_INFO`, in the order of its keys.
unfoldable pub block_extra_info : HeaderCrates → Dict Bytes Bytes
block_extra_info crates =
    (codes "mixHash", codes "0x" ++ crates.h256_zero_hex)
    ∷ (codes "nonce", codes "0x" ++ crates.h64_zero_hex)
    ∷ []

-- `RichHeader` and `RichBlock` are those of `parity_rpc`, with the fields of `inner` beside the extra
-- information.
pub record RichHeader : Type 0 where
  pub hash : Option ℕ
  pub size : Option ℕ
  pub parent_hash : ℕ
  pub uncles_hash : ℕ
  pub author : ℕ
  pub miner : ℕ
  pub state_root : ℕ
  pub transactions_root : ℕ
  pub receipts_root : ℕ
  pub number : Option ℕ
  pub gas_used : ℕ
  pub gas_limit : ℕ
  pub logs_bloom : ℕ
  pub timestamp : ℕ
  pub difficulty : ℕ
  pub seal_fields : List Bytes
  pub extra_data : Bytes
  pub extra_info : Dict Bytes Bytes

-- `parity_rpc`'s transaction is `T`.
pub data BlockTransactions (T : Type 0) : Type 0 where
  full : List T → BlockTransactions T
  hashes : List ℕ → BlockTransactions T

pub record RichBlock (T : Type 0) : Type 0 where
  pub hash : Option ℕ
  pub size : Option ℕ
  pub parent_hash : ℕ
  pub uncles_hash : ℕ
  pub author : ℕ
  pub miner : ℕ
  pub state_root : ℕ
  pub transactions_root : ℕ
  pub receipts_root : ℕ
  pub number : Option ℕ
  pub gas_used : ℕ
  pub gas_limit : ℕ
  pub logs_bloom : Option ℕ
  pub timestamp : ℕ
  pub difficulty : ℕ
  pub total_difficulty : Option ℕ
  pub seal_fields : List Bytes
  pub uncles : List ℕ
  pub transactions : BlockTransactions T
  pub extra_data : Bytes
  pub extra_info : Dict Bytes Bytes

module _ (crates : HeaderCrates) where
  -- `EthereumBlock::rich_header`
  unfoldable pub rich_header : EthereumBlock → RichHeader
  rich_header blk = record {
    hash = some blk.hash;
    size = none;
    parent_hash = blk.parent_hash;
    uncles_hash = crates.empty_list_hash;
    author = 0;
    miner = 0;
    state_root = 0;
    transactions_root = 0;
    receipts_root = 0;
    number = some blk.number;
    gas_used = blk.gas_used;
    gas_limit = blk.gas_limit;
    logs_bloom = blk.log_bloom;
    timestamp = blk.timestamp;
    difficulty = 0;
    seal_fields = [];
    extra_data = [];
    extra_info = block_extra_info crates;
  }

  module _ {T : Type 0} (from_localized : LocalizedTransaction → T) where
    -- The transactions, whole or by their hashes.
    unfoldable pub block_transactions : Bool → List LocalizedTransaction → BlockTransactions T
    block_transactions true transactions = full (map from_localized transactions)
    block_transactions false transactions = hashes (map (λ txn. txn.signed.hash) transactions)

    -- `EthereumBlock::rich_block`
    unfoldable pub rich_block : EthereumBlock → Bool → RichBlock T
    unfolding rich_header block_transactions
    rich_block blk include_txs =
        let header = rich_header blk in
        record {
          hash = header.hash;
          size = header.size;
          parent_hash = header.parent_hash;
          uncles_hash = header.uncles_hash;
          author = header.author;
          miner = header.miner;
          state_root = header.state_root;
          transactions_root = header.transactions_root;
          receipts_root = header.receipts_root;
          number = header.number;
          gas_used = header.gas_used;
          gas_limit = header.gas_limit;
          logs_bloom = some header.logs_bloom;
          timestamp = header.timestamp;
          difficulty = header.difficulty;
          total_difficulty = none;
          seal_fields = header.seal_fields;
          uncles = [];
          transactions = block_transactions include_txs blk.transactions;
          extra_data = [];
          extra_info = header.extra_info;
        }
