-- ===== src/Blockchain/Tests.antt =====
-- The theorems on the chain at a concrete history.
use oasis_chain.Prelude.{
  ℕ, ◌≡◌, refl, Option, none, some, List, [], ◌∷◌, Bytes, ok, arith, insert, lookup, nat_eq,
}
use mathlib.Core.Option
use oasis_chain.Decimal.{to_string, parse}
use oasis_chain.KeyManager.{MockClient}
use oasis_chain.Blockchain.Samples.{toy_core, toy_log, toy-CollisionFree}
use oasis_chain.Blockchain.Types.{
  SignedTransaction, LocalizedReceipt, call, number, hash, latest, earliest, ExecutionResult,
  EthereumBlock, LocalizedTransaction, Filter,
}
use oasis_chain.Blockchain.State.{
  Blockchain, get_block_by_number, new_blockchain, new_chain_state, new_block, block_hash,
}
use oasis_chain.Blockchain.Mine.{send_raw_transaction, mine_block}
use oasis_chain.Blockchain.Mine.Chain.{IsChain}
use oasis_chain.Blockchain.Mine.History.{submissions, submissions-IsChain, submissions-keep}
use oasis_chain.Blockchain.Queries.{
  get_txn_receipt_by_hash, get_latest_block, get_txn, get_block, get_blocks, flat_map_logs,
  filter_logs, range_inclusive, logs, get_txn_by_hash,
}
use oasis_chain.Blockchain.Queries.Laws.{IsLookedUp, logs-ok, txn-IsFound, get_block-ok}

abbrev keys : MockClient
keys = []

abbrev start : Blockchain
start = new_blockchain toy_core 1 100 keys []

-- Two that succeed; between them, one with too much gas and one with a price that is too low.
abbrev txns : List (ℕ × Bytes)
txns =
    (1000, 50 ∷ 1 ∷ 77 ∷ [])
    ∷ (1001, 101 ∷ 1 ∷ 78 ∷ [])
    ∷ (1002, 50 ∷ 0 ∷ 79 ∷ [])
    ∷ (1003, 50 ∷ 2 ∷ 80 ∷ [])
    ∷ []

abbrev after : Blockchain
after = submissions toy_core start txns

number-after : after.chain_state.block_number ≡ 2
unfolding submissions send_raw_transaction new_blockchain mine_block get_block_by_number Option.bind
    lookup insert block_hash parse to_string
number-after = refl

submissions-IsChain_example : IsChain toy_core after.chain_state
submissions-IsChain_example =
    submissions-IsChain toy_core toy-CollisionFree 1 100 keys [] txns (omega arith)

submissions-keep_example :
    get_block_by_number (submissions toy_core after txns).chain_state 1
    ≡ get_block_by_number after.chain_state 1
submissions-keep_example =
    submissions-keep toy_core toy-CollisionFree after txns (omega (arith, number-after))
      submissions-IsChain_example 1 (omega (arith, number-after))

abbrev genesis_block : EthereumBlock
genesis_block = new_block toy_core 0 0 0 0 16000000 0

abbrev block_or : Option EthereumBlock → EthereumBlock
block_or none = genesis_block
block_or (some block) = block

abbrev best : EthereumBlock
best = block_or (get_block_by_number after.chain_state 2)

abbrev everything : Filter
everything = record {
  from_block = earliest;
  to_block = latest;
  limit = none;
  addresses = [];
  topics = [];
}

from_found : get_block after earliest ≡ ok (some genesis_block)
unfolding submissions send_raw_transaction new_blockchain mine_block get_block_by_number Option.bind
    lookup insert block_hash parse to_string new_chain_state new_block get_block
from_found = refl

to_found : get_block after latest ≡ ok (some best)
unfolding submissions send_raw_transaction new_blockchain mine_block get_block_by_number Option.bind
    lookup insert block_hash parse to_string get_block get_latest_block
to_found = refl

get_block-ok_example : IsLookedUp toy_core after latest (get_block after latest)
get_block-ok_example = get_block-ok toy_core after submissions-IsChain_example latest

logs-ok_example :
    (blocks : List EthereumBlock) × (get_blocks after
        (range_inclusive genesis_block.number best.number)
      ≡ ok blocks)
    × (logs toy_core after everything
        ≡ ok (filter_logs (toy_core.filter_matches [] []) (flat_map_logs blocks)))
logs-ok_example =
    logs-ok toy_core after submissions-IsChain_example everything genesis_block best from_found
      to_found

abbrev txn : SignedTransaction
txn = record {
  unverified = record { raw = 50 ∷ 2 ∷ 80 ∷ []; gas = 50 };
  hash = 80;
  sender = 7;
  nonce = 0;
  gas_price = 2;
  action = call 8;
  payload = [];
}

abbrev stored : LocalizedTransaction
stored = record {
  signed = txn;
  block_number = 2;
  block_hash = 2;
  transaction_index = 0;
  cached_sender = none;
}

stored_found : get_txn_by_hash after 80 ≡ some stored
unfolding submissions send_raw_transaction new_blockchain mine_block get_block_by_number Option.bind
    lookup insert block_hash parse to_string
stored_found = refl

txn-IsFound_example :
    (get_txn after (number 2) 0 ≡ some stored)
    × (get_txn after (hash 2) 0 ≡ some stored)
    × (receipt : LocalizedReceipt) × (get_txn_receipt_by_hash after 80 ≡ some receipt)
    × (receipt.transaction_hash ≡ 80)
    × (receipt.block_number ≡ 2)
txn-IsFound_example = txn-IsFound toy_core after submissions-IsChain_example 80 stored stored_found

abbrev result : ExecutionResult
result = record {
  cumulative_gas_used = 3;
  gas_used = 3;
  log_bloom = 0;
  logs = toy_log ∷ [];
  status_code = 1;
  output = [];
}

abbrev raw : Bytes
raw = 50 ∷ 1 ∷ 90 ∷ []

sent : (send_raw_transaction toy_core after 1004 raw).0 ≡ ok (90, result)
unfolding submissions send_raw_transaction new_blockchain mine_block get_block_by_number Option.bind
    lookup insert block_hash parse to_string
sent = refl
