-- ===== src/EthPubSub/Samples.antt =====
-- The crates of src/impls/eth_pubsub.rs with tables that are lists, and a filter that takes all logs.
use oasis_chain.Prelude.{
  ℕ, ◌≡◌, refl, Bool, true, false, Option, none, some, List, [], ◌∷◌, replicate,
}
use oasis_chain.Util.{jsonrpc_error}
use oasis_chain.Blockchain.{Filter, latest}
use oasis_chain.EthPubSub.{Subscribers, PubSubCrates}

-- A table as a list, the newest first; a removal takes the newest.
unfoldable pub is_nil : {V : Type 0} → List V → Bool
is_nil [] = true
is_nil (v ∷ vs) = false

unfoldable pub pop : {V : Type 0} → List V → Option V × List V
pop [] = (none, [])
pop (v ∷ vs) = (some v, vs)

pub is_nil_sound : {V : Type 0} (t : List V) → is_nil t ≡ true → t ≡ []
unfolding is_nil
is_nil_sound [] e = refl
is_nil_sound (v ∷ vs) e = cc

abbrev pub toy_table : {V : Type 0} → Subscribers V
toy_table {V} = record {
  Table = List V;
  default = [];
  is_empty = is_nil;
  values = λ t. t;
  push = λ v t. v ∷ t;
  remove = λ id t. pop t;
  is_empty_sound = is_nil_sound;
}

abbrev pub toy_crates : PubSubCrates
toy_crates = record {
  TxFilter = Unit;
  TxEntry = ℕ;
  tx_matches = λ filter entry. true;
  transaction_hash = λ entry. entry;
  Log = ℕ;
  log_from = λ log. log.log_index;
  heads_table = toy_table;
  logs_table = toy_table;
  txs_table = toy_table;
  header_crates = record {
    empty_list_hash = 5;
    h256_zero_hex = replicate 64 b'0';
    h64_zero_hex = replicate 16 b'0';
  };
  errors_invalid_params = λ name text. jsonrpc_error text;
  errors_unimplemented = jsonrpc_error [];
}

abbrev pub everything : Filter
everything = record {
  from_block = latest;
  to_block = latest;
  limit = none;
  addresses = [];
  topics = [];
}
