-- ===== src/Blockchain/State.antt =====
-- src/blockchain.rs: `EthereumBlock::new`, `ChainState` and `Blockchain` with their constructors.
use oasis_chain.Prelude.{ℕ, [], Option, insert, lookup, nat_eq}
use mathlib.Core.Option
use oasis_chain.Decimal.{to_string}
use oasis_chain.KeyManager.{MockClient}
use oasis_chain.Blockchain.Types.{ChainState, EthereumBlock, Ethcore, Mkvs, block_gas_limit}

-- `Blockchain`, with the key manager that it shares.
pub record Blockchain : Type 0 where
  pub gas_price : ℕ
  pub block_gas_limit : ℕ
  pub keys : MockClient
  pub chain_state : ChainState

-- `ChainState::get_block_by_number`
unfoldable pub get_block_by_number : ChainState → ℕ → Option EthereumBlock
get_block_by_number c number =
    Option.bind (lookup number c.block_number_to_hash) (λ hash. lookup hash c.blocks)

module _ (core : Ethcore) where
  open core use {keccak}

  -- The hash of the block with a number.
  unfoldable pub block_hash : ℕ → ℕ
  block_hash number = keccak (to_string number)

  -- `EthereumBlock::new`
  unfoldable pub new_block : ℕ → ℕ → ℕ → ℕ → ℕ → ℕ → EthereumBlock
  new_block number parent_hash timestamp gas_used gas_limit log_bloom = record {
    number = number;
    timestamp = timestamp;
    hash = block_hash number;
    parent_hash = parent_hash;
    gas_used = gas_used;
    gas_limit = gas_limit;
    log_bloom = log_bloom;
    logs = [];
    transactions = [];
  }

  -- `ChainState::new`, on the store that the genesis specification sets up.
  unfoldable pub new_chain_state : Mkvs → ChainState
  unfolding new_block
  new_chain_state genesis =
      let genesis_block = new_block 0 0 0 0 block_gas_limit 0 in
      record {
        mkvs = genesis;
        block_number = 0;
        blocks = insert genesis_block.hash genesis_block [];
        block_number_to_hash = insert 0 genesis_block.hash [];
        transactions = [];
        receipts = [];
      }

  -- `Blockchain::new`
  unfoldable pub new_blockchain : ℕ → ℕ → MockClient → Mkvs → Blockchain
  unfolding new_chain_state
  new_blockchain gas_price gas_limit km_client genesis = record {
    gas_price = gas_price;
    block_gas_limit = gas_limit;
    keys = km_client;
    chain_state = new_chain_state genesis;
  }
