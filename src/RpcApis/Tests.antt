-- ===== src/RpcApis/Tests.antt =====
-- Texts that name sets of APIs, as in the tests of src/rpc_apis.rs, and what serves them.
use oasis_chain.Prelude.{
  ◌≡◌, ◌↔◌, refl, true, false, List, [], ◌∷◌, ◌++◌, replicate, Bytes, ok, err, codes,
}
use oasis_chain.Broker.{Broker}
use oasis_chain.RpcApis.{
  Api, ApiSet, fixed, web3, net, eth, eth_pubsub, oasis, Delegate, parse_api, parse_set, all,
  set_eq, default_set, extend_with_set, contains, api_eq, apply_part, insert_api, remove_api,
  extend, split, list_apis,
}
use oasis_chain.RpcApis.Equality.{said, parsed-set_eq}
use oasis_chain.RpcApis.Sets.{count, bit}
use oasis_chain.RpcApis.Spec.{Outcome, after_parts}
use oasis_chain.RpcApis.Parsing.{listed, parse_set-Outcome}
use oasis_chain.RpcApis.Endpoints.{times, api_of, extend_with_set-served}

parsed_pubsub : parse_api (codes "pubsub") ≡ ok eth_pubsub
unfolding parse_api
parsed_pubsub = refl

not_parsed : parse_api (codes "rp") ≡ err (codes "Unknown api: rp")
unfolding parse_api
not_parsed = refl

default_is_all : set_eq default_set all ≡ true
unfolding set_eq default_set contains api_eq
default_is_all = refl

abbrev text : Bytes
text = codes "safe,-eth,net"

parsed : listed (parse_set text) ≡ ok (oasis ∷ eth_pubsub ∷ net ∷ web3 ∷ [])
unfolding listed parse_set parse_api apply_part list_apis insert_api contains remove_api extend
    api_eq
parsed = refl

parse_set-Outcome_example : Outcome (split b',' text) (λ (a : Api). false) (listed (parse_set text))
parse_set-Outcome_example = parse_set-Outcome text

abbrev broker : Broker
broker = record { last_notified_block = 0; listeners = 3 ∷ [] }

-- Another order of the same set.
abbrev order : List Api
order = net ∷ web3 ∷ oasis ∷ eth_pubsub ∷ []

same_count : (a : Api) → count a order ≡ count a (oasis ∷ eth_pubsub ∷ net ∷ web3 ∷ [])
unfolding count api_eq
same_count web3 = refl
same_count net = refl
same_count eth = refl
same_count eth_pubsub = refl
same_count oasis = refl

extend_with_set-served_example :
    let (delegates, broker') = extend_with_set 9 broker order in
    let said = after_parts (split b',' text) (λ (a : Api). false) in
    ((d : Delegate) → times d delegates ≡ bit (said (api_of d)))
    × (broker'.listeners ≡ (3 ∷ []) ++ replicate (bit (said eth_pubsub)) 9)
extend_with_set-served_example =
    extend_with_set-served text (oasis ∷ eth_pubsub ∷ net ∷ web3 ∷ []) parsed order same_count 9
      broker

-- One set, in two orders and with a repetition.
abbrev one_order : ApiSet
one_order = fixed (eth ∷ net ∷ [])

abbrev other_order : ApiSet
other_order = fixed (net ∷ eth ∷ net ∷ [])

orders_are_eq : set_eq one_order other_order ≡ true
unfolding set_eq contains api_eq
orders_are_eq = refl

-- Two texts that name one set.
abbrev short : Bytes
short = codes "web3,pubsub,oasis"

parsed_short : listed (parse_set short) ≡ ok (oasis ∷ eth_pubsub ∷ web3 ∷ [])
unfolding listed parse_set parse_api apply_part list_apis insert_api contains remove_api extend
    api_eq
parsed_short = refl

abbrev long : Bytes
long = codes "all,-net,-eth"

parsed_long : listed (parse_set long) ≡ ok (oasis ∷ eth_pubsub ∷ web3 ∷ [])
unfolding listed parse_set parse_api apply_part list_apis insert_api contains remove_api extend
    api_eq
parsed_long = refl

parsed-set_eq_example :
    ((set_eq (fixed (oasis ∷ eth_pubsub ∷ web3 ∷ [])) (fixed (oasis ∷ eth_pubsub ∷ web3 ∷ []))
        ≡ true)
      ↔ ((a : Api) → said short a ≡ said long a))
    × ((set_eq (fixed (oasis ∷ eth_pubsub ∷ web3 ∷ [])) default_set ≡ true)
        ↔ ((a : Api) → said short a ≡ true))
parsed-set_eq_example =
    parsed-set_eq short (oasis ∷ eth_pubsub ∷ web3 ∷ []) parsed_short long
      (oasis ∷ eth_pubsub ∷ web3 ∷ []) parsed_long
