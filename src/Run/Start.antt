-- ===== src/Run/Start.antt =====
-- What a gateway is like when it has started (src/run.rs, src/rpc.rs).
use oasis_chain.Prelude.{
  ℕ, ◌≡◌, refl, ap, sym, subst, ◌∙◌, Option, none, some, List, [], ◌∷◌, ◌++◌, replicate, Bytes,
  codes, Result, ok, >>=-eq-ok, unwrap-eq-ok, ok-injective,
}
use oasis_chain.KeyManager.{no_keys}
use oasis_chain.Blockchain.{Ethcore, Mkvs, new_blockchain, new_chain_state}
use oasis_chain.Blockchain.Mine.Chain.{IsChain, new_chain_state-IsChain}
use oasis_chain.Blockchain.Queries.{best_block_number}
use oasis_chain.Broker
use oasis_chain.Broker.{Broker}
use oasis_chain.RpcApis.{
  Api, ApiSet, api_eq, eth_pubsub, unsafe_context, list_apis, extend_with_set,
}
use oasis_chain.RpcApis.Sets.{count}
use oasis_chain.RpcApis.Endpoints.{extend_with_set-listeners, extend_with_set-last_notified}
use oasis_chain.Servers.{ServerCrates, Started, started, address_in_use, failed}
use oasis_chain.Rpc.{
  HttpConfiguration, WsConfiguration, new_ws, new_http, start_ws_at, start_http_at, start_answer,
  url_of, default_ws, default_http, setup_apis,
}
use oasis_chain.Run.Gateway.{RunningGateway, execute, start, start_broker, ws_conf, http_conf}

-- A set is iterated with each API once.
abbrev pub IsOrder : ServerCrates → Type 0
IsOrder crates = (apis : List Api) (a : Api) → count a (crates.iterate apis) ≡ count a apis

start_answer-ok :
    (crates : ServerCrates) {S : Type 0} (kind url options : Bytes) (result : Started S)
    (r : Option S)
    → start_answer crates kind url options result ≡ ok r
    → (s : S) × (r ≡ some s)
unfolding start_answer
start_answer-ok crates kind url options (started s) r e = (s, sym (ok-injective e))
start_answer-ok crates kind url options address_in_use r e = cc
start_answer-ok crates kind url options (failed text) r e = cc

-- The broker with one more listener.
abbrev extended : ℕ → Broker → Broker
extended listener broker = record broker { listeners = broker.listeners ++ listener ∷ [] }

module _ (crates : ServerCrates) (order : IsOrder crates) (listener : ℕ) (broker : Broker) where
  open crates use {WsServer, HttpServer, iterate, parse_addr}

  all_apis-extended :
      (extend_with_set listener broker (iterate (list_apis unsafe_context))).1
      ≡ extended listener broker
  unfolding list_apis count api_eq
  all_apis-extended =
      let apis = iterate (list_apis unsafe_context) in
      let once : count eth_pubsub apis ≡ 1 = order (list_apis unsafe_context) eth_pubsub in
      let notified = extend_with_set-last_notified listener broker apis in
      let listeners : (extend_with_set listener broker apis).1.listeners
          ≡ broker.listeners ++ listener ∷ [] =
        extend_with_set-listeners listener broker apis
        ∙ ap (λ (k : ℕ). broker.listeners ++ replicate k listener) once in
      λ i. record { last_notified_block = notified i; listeners = listeners i }

  -- A server that is enabled and starts is there, and its listener is registered.
  abbrev Starts : {S : Type 0} → Result Bytes (Option S) × Broker → Type 0
  Starts {S} call =
      (r : Option S)
      → call.0 ≡ ok r
      → ((s : S) × (r ≡ some s)) × (call.1 ≡ extended listener broker)

  start_ws_at-Starts :
      (conf : WsConfiguration crates) (url : Bytes) (addr : Option crates.SocketAddr)
      → conf.apis ≡ unsafe_context
      → Starts (start_ws_at crates conf listener broker url addr)
  unfolding start_ws_at
  start_ws_at-Starts conf url none apis r e = cc
  start_ws_at-Starts conf url (some addr) apis r e = (
    start_answer-ok crates (codes "WebSockets") url (codes "ws") _ r e,
    ap (λ (k : ApiSet). (extend_with_set listener broker (iterate (list_apis k))).1) apis
        ∙ all_apis-extended,
  )

  start_http_at-Starts :
      (id options : Bytes) (conf : HttpConfiguration) (url : Bytes)
      (addr : Option crates.SocketAddr)
      → conf.apis ≡ unsafe_context
      → Starts (start_http_at crates id options conf listener broker url addr)
  unfolding start_http_at setup_apis
  start_http_at-Starts id options conf url none apis r e = cc
  start_http_at-Starts id options conf url (some addr) apis r e = (
    start_answer-ok crates id url options _ r e,
    ap (λ (k : ApiSet). (extend_with_set listener broker (iterate (list_apis k))).1) apis
        ∙ all_apis-extended,
  )

-- The chain has the genesis block only, the two handlers listen, and both servers are there.
abbrev pub IsReady :
    (crates : ServerCrates)
    → Ethcore
    → (ws_listener http_listener : ℕ) → RunningGateway crates
    → Type 0
IsReady crates core ws_listener http_listener gateway =
    IsChain core gateway.blockchain.chain_state
    × (best_block_number gateway.blockchain ≡ 0)
    × (gateway.broker
        ≡ record { last_notified_block = 0; listeners = ws_listener ∷ http_listener ∷ [] })
    × ((s : crates.WsServer) × (gateway.ws_server ≡ some s))
    × ((s : crates.HttpServer) × (gateway.http_server ≡ some s))

-- A gateway that has started has a chain that is as it should be, with the genesis block only; its
-- broker has notified no block after that one, and has two listeners, first the pub/sub handler of
-- the server for WebSockets and then that of the server for HTTP; both servers are there; and the
-- broker's process has an interval of the seconds that were asked for. A set of APIs is iterated with each API once.
pub start-IsReady :
    (crates : ServerCrates)
    → IsOrder crates
    → (core : Ethcore) (genesis : Mkvs) (failure : Option Bytes)
      (ws_listener http_listener pubsub_interval_secs : ℕ) (interface : Bytes)
      (http_port num_threads ws_port ws_max_connections gas_price block_gas_limit : ℕ)
      (gateway : RunningGateway crates)
    → start crates core genesis failure ws_listener http_listener pubsub_interval_secs interface
        http_port num_threads ws_port ws_max_connections gas_price block_gas_limit
      ≡ ok gateway
    → IsReady crates core ws_listener http_listener gateway
      × (crates.new_interval pubsub_interval_secs ≡ some gateway.interval)
unfolding start execute start_broker new_ws new_http ws_conf http_conf default_ws default_http
    new_blockchain new_chain_state
start-IsReady crates order core genesis (some failed_with) ws_listener http_listener
      pubsub_interval_secs interface http_port num_threads ws_port ws_max_connections gas_price
      block_gas_limit gateway e =
    cc
start-IsReady crates order core genesis none ws_listener http_listener pubsub_interval_secs
      interface http_port num_threads ws_port ws_max_connections gas_price block_gas_limit gateway
      e =
    let blockchain = new_blockchain core gas_price block_gas_limit no_keys genesis in
    let (interval, made, e0) = >>=-eq-ok _ _ e in
    let (ws, ws_ok, e') = >>=-eq-ok _ _ e0 in
    let (http, http_ok, e'') = >>=-eq-ok _ _ e' in
    let (ws_there, with_ws) =
      start_ws_at-Starts crates order ws_listener Broker.new
        (ws_conf crates interface ws_port ws_max_connections) (url_of interface ws_port)
        (crates.parse_addr (url_of interface ws_port)) refl ws ws_ok in
    let listening = extended ws_listener Broker.new in
    let broker =
      (new_ws crates (ws_conf crates interface ws_port ws_max_connections) ws_listener
        Broker.new).1 in
    let (http_there, with_http) =
      start_http_at-Starts crates order http_listener broker (codes "HTTP JSON-RPC")
        (codes "jsonrpc") (http_conf crates interface http_port num_threads)
        (url_of interface http_port) (crates.parse_addr (url_of interface http_port)) refl http
        http_ok in
    subst
      (λ (g : RunningGateway crates).
        IsReady crates core ws_listener http_listener g
        × (crates.new_interval pubsub_interval_secs ≡ some g.interval))
      (ok-injective e'')
      (
        (
          new_chain_state-IsChain core genesis,
          refl,
          with_http ∙ ap (extended http_listener) with_ws,
          ws_there,
          http_there,
        ),
        unwrap-eq-ok (crates.new_interval pubsub_interval_secs) made,
      )
