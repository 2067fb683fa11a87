-- ===== src/Eth/Tests.antt =====
-- The `eth_` handlers on a new chain.
use oasis_chain.Prelude.{
  ℕ, ◌≡◌, refl, none, [], ◌∷◌, Bytes, ok, err, arith, suc, insert, lookup, nat_eq, replicate,
}
use mathlib.Core.Option
use oasis_chain.Decimal.{to_string, parse}
use oasis_chain.Util.{latest_block, internal_error, jsonrpc_error}
use oasis_chain.Blockchain.Samples.{toy_core, toy_log, toy-CollisionFree}
use oasis_chain.Blockchain.{
  latest, Blockchain, call, new_blockchain, new_chain_state, new_block, block_hash,
  get_block_by_number, EthereumBlock, SignedTransaction, UnverifiedTransaction, ApplyOutcome,
  status_code,
}
use oasis_chain.Blockchain.Mine
use oasis_chain.Blockchain.Mine.Chain.{IsChain, new_chain_state-IsChain}
use oasis_chain.Eth.{ParityRpc, block_number, send_raw_transaction, sent}
use oasis_chain.Eth.Found.{IsFound, eth_send-IsFound}

abbrev toy_rpc : ParityRpc
toy_rpc = record {
  Transaction = ℕ;
  Receipt = ℕ;
  Log = ℕ;
  CallRequest = Unit;
  RpcFilter = Unit;
  from_localized = λ txn. txn.signed.hash;
  receipt_from = λ receipt. receipt.gas_used;
  log_from = λ log. log.log_index;
  filter_from = λ nothing. record {
    from_block = latest;
    to_block = latest;
    limit = none;
    addresses = [];
    topics = [];
  };
  default_number = latest_block;
  sign_call =
      λ request dapp. err (record { code = internal_error; message = []; data_text = none });
  errors_call = λ text. jsonrpc_error text;
  errors_vm = λ e text. jsonrpc_error text;
  errors_deprecated = λ text. jsonrpc_error text;
  errors_unimplemented = jsonrpc_error [];
  header_crates = record {
    empty_list_hash = 5;
    h256_zero_hex = replicate 64 b'0';
    h64_zero_hex = replicate 16 b'0';
  };
}

abbrev b : Blockchain
b = new_blockchain toy_core 1 100 [] []

valid : IsChain toy_core b.chain_state
unfolding new_blockchain
valid = new_chain_state-IsChain toy_core []

abbrev raw : Bytes
raw = 50 ∷ 1 ∷ 90 ∷ []

abbrev decoded : UnverifiedTransaction
decoded = record { raw = raw; gas = 50 }

abbrev txn : SignedTransaction
txn = record {
  unverified = decoded;
  hash = 90;
  sender = 7;
  nonce = 0;
  gas_price = 1;
  action = call 8;
  payload = [];
}

abbrev outcome : ApplyOutcome
outcome = record {
  receipt = record { gas_used = 3; log_bloom = 0; logs = toy_log ∷ []; outcome = status_code 1 };
  output = [];
}

abbrev best : EthereumBlock
best = new_block toy_core 0 0 0 0 16000000 0

number-b : b.chain_state.block_number ≡ 0
unfolding new_blockchain new_chain_state
number-b = refl

answered : (send_raw_transaction toy_core b 1000 raw).0 ≡ ok 90
unfolding send_raw_transaction Mine.send_raw_transaction Mine.mine_block new_blockchain
    new_chain_state new_block get_block_by_number Option.bind lookup insert block_hash parse
    to_string sent
answered = refl

eth_send-IsFound_example :
    let next = (send_raw_transaction toy_core b 1000 raw).1 in
    (block_number next ≡ suc (block_number b)) × IsFound toy_rpc next 90
unfolding block_number
eth_send-IsFound_example =
    eth_send-IsFound toy_rpc toy_core b 1000 (omega (arith, number-b)) toy-CollisionFree valid raw
      90 answered
