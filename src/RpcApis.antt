-- ===== src/RpcApis.antt =====
-- src/rpc_apis.rs: the names of the RPC's APIs, the sets of them that a text stands for, and the
-- endpoints that a set is served by. A `HashSet` is a list of its elements in the order of iteration.
pub mod Names
pub mod Sets
pub mod Equality
pub mod Spec
pub mod Parsing
pub mod Endpoints
mod Tests
use oasis_chain.Prelude.{
  ℕ, Bool, true, false, if◌then◌else◌, ◌==◌, ◌&&◌, ◌||◌, not, List, [], ◌∷◌, ◌++◌, map, Option,
  none, some, Bytes, bytes_eq, codes, Result, ok, err, panic, ◌>>=◌,
}
use oasis_chain.Broker.{Broker, add_listener}

-- `Api`
pub data Api : Type 0 where
  web3 net eth eth_pubsub oasis : Api

discriminant : Api → ℕ
discriminant web3 = 0
discriminant net = 1
discriminant eth = 2
discriminant eth_pubsub = 3
discriminant oasis = 4

-- `==`, which is derived: it compares the discriminants.
unfoldable pub api_eq : Api → Api → Bool
unfolding discriminant
api_eq a b = discriminant a == discriminant b

-- `Api::from_str`
unfoldable pub parse_api : Bytes → Result Bytes Api
parse_api s =
    if bytes_eq s (codes "web3")
    then ok web3
    else if bytes_eq s (codes "net")
    then ok net
    else if bytes_eq s (codes "eth")
    then ok eth
    else if bytes_eq s (codes "pubsub")
    then ok eth_pubsub
    else if bytes_eq s (codes "oasis")
    then ok oasis
    else err (codes "Unknown api: " ++ s)

-- `ApiSet`, less the variant that only the tests have.
pub data ApiSet : Type 0 where
  unsafe_context all : ApiSet
  fixed : List Api → ApiSet

-- `ApiSet::default`
unfoldable pub default_set : ApiSet
default_set = unsafe_context

unfoldable pub contains : Api → List Api → Bool
contains a [] = false
contains a (b ∷ s) = api_eq a b || contains a s

-- `HashSet::insert`
unfoldable pub insert_api : Api → List Api → List Api
insert_api a s = if contains a s then s else a ∷ s

-- `HashSet::remove`
unfoldable pub remove_api : Api → List Api → List Api
remove_api a [] = []
remove_api a (b ∷ s) = let rest = remove_api a s in if api_eq a b then rest else b ∷ rest

-- `HashSet::extend`
unfoldable pub extend : List Api → List Api → List Api
extend s [] = s
extend s (a ∷ more) = extend (insert_api a s) more

abbrev pub public_list : List Api
public_list = web3 ∷ net ∷ eth ∷ eth_pubsub ∷ oasis ∷ []

-- `ApiSet::list_apis`
unfoldable pub list_apis : ApiSet → List Api
list_apis (fixed apis) = apis
list_apis unsafe_context = public_list
list_apis all = public_list

-- Is every element of the one set in the other?
unfoldable pub is_subset : List Api → List Api → Bool
is_subset [] t = true
is_subset (a ∷ s) t = contains a t && is_subset s t

-- `ApiSet::eq`
unfoldable pub set_eq : ApiSet → ApiSet → Bool
unfolding is_subset list_apis
set_eq s t = is_subset (list_apis s) (list_apis t) && is_subset (list_apis t) (list_apis s)

-- `str::split` at a character.
unfoldable pub split_rest : ℕ → Bytes → Bytes × List Bytes
split_rest at [] = ([], [])
split_rest at (c ∷ s) =
    let (first, others) = split_rest at s in
    if c == at then ([], first ∷ others) else (c ∷ first, others)

unfoldable pub split : ℕ → Bytes → List Bytes
unfolding split_rest
split at s = let (first, others) = split_rest at s in first ∷ others

-- What stands after a leading `-`.
unfoldable pub after_minus : Bytes → Option Bytes
after_minus [] = none
after_minus (c ∷ s) = if c == b'-' then some s else none

-- A part that is not a name of several APIs: it removes one or adds one.
unfoldable pub apply_one : List Api → Bytes → Option Bytes → Result Bytes (List Api)
apply_one apis part (some name) = parse_api name >>= λ api. ok (remove_api api apis)
apply_one apis part none = parse_api part >>= λ api. ok (insert_api api apis)

-- The body of the loop of `ApiSet::from_str`.
unfoldable pub apply_part : List Api → Bytes → Result Bytes (List Api)
unfolding apply_one after_minus
apply_part apis part =
    if bytes_eq part (codes "all")
    then ok (extend apis (list_apis all))
    else if bytes_eq part (codes "safe")
    then ok (extend apis (list_apis unsafe_context))
    else apply_one apis part (after_minus part)

unfoldable pub apply_parts : List Api → List Bytes → Result Bytes (List Api)
apply_parts apis [] = ok apis
apply_parts apis (part ∷ parts) = apply_part apis part >>= λ next. apply_parts next parts

-- `ApiSet::from_str`
unfoldable pub parse_set : Bytes → Result Bytes ApiSet
unfolding apply_parts split
parse_set s = apply_parts [] (split b',' s) >>= λ apis. ok (fixed apis)

-- The delegates that a handler can be extended with.
pub data Delegate : Type 0 where
  web3_client net_client eth_client signing_client filter_client pubsub_client oasis_client :
      Delegate

-- The body of the loop of `FullDependencies::extend_api`: the delegates that the handler is extended
-- with, and the broker. The number is the one of a new pub/sub client's handler.
unfoldable pub extend_one : Bool → ℕ → Broker → Api → List Delegate × Broker
extend_one for_generic_pubsub listener broker web3 = (web3_client ∷ [], broker)
extend_one for_generic_pubsub listener broker net = (net_client ∷ [], broker)
extend_one true listener broker eth = (eth_client ∷ signing_client ∷ [], broker)
extend_one false listener broker eth = (eth_client ∷ signing_client ∷ filter_client ∷ [], broker)
extend_one true listener broker eth_pubsub = ([], broker)
extend_one false listener broker eth_pubsub = (pubsub_client ∷ [], add_listener listener broker)
extend_one for_generic_pubsub listener broker oasis = (oasis_client ∷ [], broker)

-- `FullDependencies::extend_api`
unfoldable pub extend_api : Bool → ℕ → Broker → List Api → List Delegate × Broker
unfolding extend_one
extend_api for_generic_pubsub listener broker [] = ([], broker)
extend_api for_generic_pubsub listener broker (api ∷ apis) =
    let (here, next) = extend_one for_generic_pubsub listener broker api in
    let (rest, last) = extend_api for_generic_pubsub listener next apis in (here ++ rest, last)

-- `FullDependencies::extend_with_set`
unfoldable pub extend_with_set : ℕ → Broker → List Api → List Delegate × Broker
unfolding extend_api
extend_with_set = extend_api false
