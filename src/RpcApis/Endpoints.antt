-- ===== src/RpcApis/Endpoints.antt =====
-- Which endpoints serve a set of APIs, in whatever order it is iterated (src/rpc_apis.rs).
use oasis_chain.Prelude.{
  ℕ, suc, ◌+◌, ◌≡◌, refl, ap, sym, subst, ◌∙◌, inl, inr, Bool, true, false, Bool-cases,
  if◌then◌else◌, ◌&&◌, ◌==◌, List, [], ◌∷◌, ◌++◌, append_assoc, append-nil, replicate, Bytes, ok,
  ok-injective, arith,
}
use oasis_chain.Broker.{Broker, add_listener}
use oasis_chain.RpcApis.{
  Api, web3, net, eth, eth_pubsub, oasis, api_eq, Delegate, web3_client, net_client, eth_client,
  signing_client, filter_client, pubsub_client, oasis_client, extend_one, extend_api,
  extend_with_set, parse_set, split,
}
use oasis_chain.RpcApis.Sets.{count, bit, Represents}
use oasis_chain.RpcApis.Spec.{after_parts}
use oasis_chain.RpcApis.Parsing.{listed, parse_set-Outcome}

-- The API that an endpoint belongs to.
abbrev pub api_of : Delegate → Api
api_of web3_client = web3
api_of net_client = net
api_of eth_client = eth
api_of signing_client = eth
api_of filter_client = eth
api_of pubsub_client = eth_pubsub
api_of oasis_client = oasis

-- An endpoint that a generic pub/sub handler does not get.
abbrev pub is_withheld : Delegate → Bool
is_withheld filter_client = true
is_withheld pubsub_client = true
is_withheld _ = false

index : Delegate → ℕ
index web3_client = 0
index net_client = 1
index eth_client = 2
index signing_client = 3
index filter_client = 4
index pubsub_client = 5
index oasis_client = 6

-- How often a handler is extended with an endpoint.
unfoldable pub times : Delegate → List Delegate → ℕ
unfolding index
times d [] = 0
times d (e ∷ ds) = let rest = times d ds in if index d == index e then suc rest else rest

times-append : (d : Delegate) (xs ys : List Delegate) → times d (xs ++ ys) ≡ times d xs + times d ys
unfolding times
times-append d [] ys = omega arith
times-append d (x ∷ xs) ys = elim (Bool-cases (index d == index x)) [
  | inl it ↦ rw it (omega (arith, times-append d xs ys))
  | inr other ↦ rw other (times-append d xs ys)
]

-- How often an API that is iterated once asks for an endpoint.
abbrev asked : Bool → Delegate → Api → ℕ
asked generic d api = if generic && is_withheld d then 0 else bit (api_eq (api_of d) api)

every_api {ℓ} :
    (P : Api → Type ℓ) → P web3 → P net → P eth → P eth_pubsub → P oasis → (api : Api) → P api
every_api P a b c d e web3 = a
every_api P a b c d e net = b
every_api P a b c d e eth = c
every_api P a b c d e eth_pubsub = d
every_api P a b c d e oasis = e

module _ (listener : ℕ) where
  abbrev IsAsked : Bool → Delegate → Broker → Api → Type 0
  IsAsked generic d broker api =
      times d (extend_one generic listener broker api).0 ≡ asked generic d api

  extend_one-IsAsked :
      (generic : Bool) (d : Delegate) (broker : Broker) (api : Api) → IsAsked generic d broker api
  unfolding times extend_one api_eq
  extend_one-IsAsked true web3_client b =
      every_api (IsAsked true web3_client b) refl refl refl refl refl
  extend_one-IsAsked true net_client b =
      every_api (IsAsked true net_client b) refl refl refl refl refl
  extend_one-IsAsked true eth_client b =
      every_api (IsAsked true eth_client b) refl refl refl refl refl
  extend_one-IsAsked true signing_client b =
      every_api (IsAsked true signing_client b) refl refl refl refl refl
  extend_one-IsAsked true filter_client b =
      every_api (IsAsked true filter_client b) refl refl refl refl refl
  extend_one-IsAsked true pubsub_client b =
      every_api (IsAsked true pubsub_client b) refl refl refl refl refl
  extend_one-IsAsked true oasis_client b =
      every_api (IsAsked true oasis_client b) refl refl refl refl refl
  extend_one-IsAsked false web3_client b =
      every_api (IsAsked false web3_client b) refl refl refl refl refl
  extend_one-IsAsked false net_client b =
      every_api (IsAsked false net_client b) refl refl refl refl refl
  extend_one-IsAsked false eth_client b =
      every_api (IsAsked false eth_client b) refl refl refl refl refl
  extend_one-IsAsked false signing_client b =
      every_api (IsAsked false signing_client b) refl refl refl refl refl
  extend_one-IsAsked false filter_client b =
      every_api (IsAsked false filter_client b) refl refl refl refl refl
  extend_one-IsAsked false pubsub_client b =
      every_api (IsAsked false pubsub_client b) refl refl refl refl refl
  extend_one-IsAsked false oasis_client b =
      every_api (IsAsked false oasis_client b) refl refl refl refl refl

  asked-count :
      (generic : Bool) (d : Delegate) (api : Api) (apis : List Api)
      → asked generic d api + (if generic && is_withheld d then 0 else count (api_of d) apis)
        ≡ (if generic && is_withheld d then 0 else count (api_of d) (api ∷ apis))
  unfolding count
  asked-count generic d api apis = elim (Bool-cases (generic && is_withheld d)) [
    | inl withheld ↦ rw withheld refl
    | inr given ↦ rw given (elim (Bool-cases (api_eq (api_of d) api)) [
      | inl it ↦ rw it (omega arith)
      | inr other ↦ rw other (omega arith)
    ])
  ]

  extend_api-times :
      (generic : Bool) (d : Delegate) (broker : Broker) (apis : List Api)
      → times d (extend_api generic listener broker apis).0
        ≡ (if generic && is_withheld d then 0 else count (api_of d) apis)
  unfolding extend_api times count
  extend_api-times generic d broker [] = elim (Bool-cases (generic && is_withheld d)) [
    | inl withheld ↦ rw withheld refl
    | inr given ↦ rw given refl
  ]
  extend_api-times generic d broker (api ∷ apis) =
      let (here, next) = extend_one generic listener broker api in
      times-append d here (extend_api generic listener next apis).0
      ∙ ap (λ (k : ℕ). k + times d (extend_api generic listener next apis).0)
          (extend_one-IsAsked generic d broker api)
      ∙ ap (λ (k : ℕ). asked generic d api + k) (extend_api-times generic d next apis)
      ∙ asked-count generic d api apis

  abbrev pub Listens : Broker → List Api → Type 0
  Listens broker apis =
      (extend_with_set listener broker apis).1.listeners
      ≡ broker.listeners ++ replicate (count eth_pubsub apis) listener

  pub extend_with_set-listeners : (broker : Broker) (apis : List Api) → Listens broker apis
  unfolding extend_with_set extend_api extend_one count add_listener api_eq
  extend_with_set-listeners broker [] = sym (append-nil broker.listeners)
  extend_with_set-listeners broker (web3 ∷ apis) = extend_with_set-listeners broker apis
  extend_with_set-listeners broker (net ∷ apis) = extend_with_set-listeners broker apis
  extend_with_set-listeners broker (eth ∷ apis) = extend_with_set-listeners broker apis
  extend_with_set-listeners broker (eth_pubsub ∷ apis) =
      extend_with_set-listeners (add_listener listener broker) apis
      ∙ append_assoc broker.listeners (listener ∷ []) (replicate (count eth_pubsub apis) listener)
  extend_with_set-listeners broker (oasis ∷ apis) = extend_with_set-listeners broker apis

  -- What was notified stays.
  pub extend_with_set-last_notified :
      (broker : Broker) (apis : List Api)
      → (extend_with_set listener broker apis).1.last_notified_block ≡ broker.last_notified_block
  unfolding extend_with_set extend_api extend_one add_listener
  extend_with_set-last_notified broker [] = refl
  extend_with_set-last_notified broker (web3 ∷ apis) = extend_with_set-last_notified broker apis
  extend_with_set-last_notified broker (net ∷ apis) = extend_with_set-last_notified broker apis
  extend_with_set-last_notified broker (eth ∷ apis) = extend_with_set-last_notified broker apis
  extend_with_set-last_notified broker (eth_pubsub ∷ apis) =
      extend_with_set-last_notified (add_listener listener broker) apis
  extend_with_set-last_notified broker (oasis ∷ apis) = extend_with_set-last_notified broker apis

pub parsed-Represents :
    (s : Bytes) (apis : List Api)
    → listed (parse_set s) ≡ ok apis
    → Represents apis (after_parts (split b',' s) (λ a. false))
parsed-Represents s apis e = elim (parse_set-Outcome s) [
  | inl (apis', e', represents, _) ↦
      subst (λ (k : List Api). Represents k (after_parts (split b',' s) (λ a. false)))
        (ok-injective (sym e' ∙ e)) represents
  | inr (message, failed, _, _, _, _, _, _) ↦ let conflict = sym e ∙ failed in cc
]

-- When a text was parsed as a set of APIs, then in whatever order the set is iterated each endpoint
-- is registered once if the last part of the text that speaks of its API adds it, and not at all
-- otherwise; and one new listener is added at the broker, after the others, where the pub/sub API
-- is in the set, and none otherwise.
pub extend_with_set-served :
    (s : Bytes) (apis : List Api)
    → listed (parse_set s) ≡ ok apis
    → (order : List Api) → ((a : Api) → count a order ≡ count a apis)
    → (listener : ℕ) (broker : Broker)
    → let (delegates, broker') = extend_with_set listener broker order in
      let said = after_parts (split b',' s) (λ (a : Api). false) in
      ((d : Delegate) → times d delegates ≡ bit (said (api_of d)))
      × (broker'.listeners ≡ broker.listeners ++ replicate (bit (said eth_pubsub)) listener)
unfolding extend_with_set
extend_with_set-served s apis e order same listener broker =
    let represents = parsed-Represents s apis e in
    (
      λ d. extend_api-times listener false d broker order ∙ same (api_of d) ∙ represents (api_of d),
      extend_with_set-listeners listener broker order
          ∙ ap (λ (k : ℕ). broker.listeners ++ replicate k listener)
              (same eth_pubsub ∙ represents eth_pubsub),
    )
