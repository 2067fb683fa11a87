-- ===== src/Blockchain/Samples.antt =====
-- A concrete instance of the interface to the node's crates, for the tests.
use oasis_chain.Prelude.{ap, sym, ◌∙◌, Option, some, none, [], ◌∷◌, Bytes, true, ok}
use oasis_chain.Decimal.{to_string, parse, parse-to_string}
use oasis_chain.ConfidentialCtx.{ConfidentialCtx}
use oasis_chain.KeyManager.{MockClient}
use oasis_chain.Blockchain.Mine.Chain.{CollisionFree}
use oasis_chain.Blockchain.Types.{
  call, UnverifiedTransaction, SignedTransaction, LogEntry, EnvInfo, Applied, Ethcore, Mkvs,
  status_code,
}

-- A transaction is its gas limit, its gas price and its hash; it leaves one log.
abbrev pub toy_decode : Bytes → Option UnverifiedTransaction
toy_decode [] = none
toy_decode (gas ∷ rest) = some (record { raw = gas ∷ rest; gas = gas })

abbrev pub toy_verify : UnverifiedTransaction → Option SignedTransaction
toy_verify decoded = elim decoded.raw [
  | gas ∷ price ∷ hash ∷ [] ↦ some (record {
    unverified = decoded;
    hash = hash;
    sender = 7;
    nonce = 0;
    gas_price = price;
    action = call 8;
    payload = [];
  })
  | _ ↦ none
]

abbrev pub toy_log : LogEntry
toy_log = record { address = 8; topics = 5 ∷ []; payload = [] }

abbrev pub toy_apply : Mkvs → ConfidentialCtx → MockClient → EnvInfo → SignedTransaction → Applied
toy_apply mkvs ctx keys env txn = record {
  outcome = ok (
    record {
      receipt = record {
        gas_used = 3;
        log_bloom = 0;
        logs = toy_log ∷ [];
        outcome = status_code 1;
      };
      output = [];
    },
    mkvs,
  );
  keys = keys;
}

-- The hash of digits is the number that they write.
abbrev pub toy_core : Ethcore
toy_core = record {
  decode = toy_decode;
  verify = toy_verify;
  apply = toy_apply;
  contract_address = λ number sender nonce code. sender;
  filter_matches = λ addresses topics log. true;
  keccak = parse;
  hash_bytes = λ h. h ∷ [];
}

pub toy-CollisionFree : CollisionFree toy_core
toy-CollisionFree m n hm hn e = ap to_string (sym (parse-to_string m) ∙ e ∙ parse-to_string n)
