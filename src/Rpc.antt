-- ===== src/Rpc.antt =====
-- src/rpc.rs: the configurations of the two servers and how each is started. The crates that it calls
-- are module Servers' interface.
mod Hosts
mod Tests
unfoldable pub use Hosts.*
use oasis_chain.Prelude.{
  ℕ, zero, suc, ◌-◌, Bool, true, false, not, ◌||◌, if◌then◌else◌, ◌==◌, Option, none, some, List,
  [], ◌∷◌, ◌++◌, map, length, Bytes, bytes_eq, codes, Result, ok, err,
}
use mathlib.Core.Option
use oasis_chain.Decimal.{to_string}
use oasis_chain.Broker.{Broker}
use oasis_chain.Servers.{
  ServerCrates, Started, started, address_in_use, failed, DomainsValidation, domains_from,
  MetaIoHandler, start_ws, start_http,
}
use oasis_chain.RpcApis.{Api, ApiSet, unsafe_context, list_apis, Delegate, extend_with_set}

pub record HttpConfiguration : Type 0 where
  pub enabled : Bool
  pub interface : Bytes
  pub port : ℕ
  pub apis : ApiSet
  pub cors : Option (List Bytes)
  pub hosts : Option (List Bytes)
  pub server_threads : ℕ
  pub max_batch_size : ℕ

-- `HttpConfiguration::default`
unfoldable pub default_http : HttpConfiguration
default_http = record {
  enabled = true;
  interface = codes "127.0.0.1";
  port = 8545;
  apis = unsafe_context;
  cors = some [];
  hosts = some [];
  server_threads = 1;
  max_batch_size = 10;
}

-- `into_domains`
unfoldable pub into_domains : {T : Type 0} → (Bytes → T) → Option (List Bytes) → DomainsValidation T
into_domains from items = domains_from (Option.map (map from) items)

module _ (crates : ServerCrates) where
  open crates use {
    Host, host_from, host_text, allowed_host_from, SocketAddr, parse_addr, WsServer, HttpServer,
    iterate, iterate_texts,
  }

  pub record WsConfiguration : Type 0 where
    pub enabled : Bool
    pub interface : Bytes
    pub port : ℕ
    pub apis : ApiSet
    pub max_connections : ℕ
    pub origins : Option (List Bytes)
    pub hosts : Option (List Bytes)
    pub support_token_api : Bool
    pub dapps_address : Option Host
    pub max_batch_size : ℕ
    pub max_req_per_sec : ℕ

  -- `WsConfiguration::default`
  unfoldable pub default_ws : WsConfiguration
  default_ws = record {
    enabled = true;
    interface = codes "127.0.0.1";
    port = 8546;
    apis = unsafe_context;
    max_connections = 100;
    origins =
        some (codes "parity://*" ∷ codes "chrome-extension://*" ∷ codes "moz-extension://*" ∷ []);
    hosts = some [];
    support_token_api = true;
    dapps_address = some (host_from (codes "127.0.0.1:8545"));
    max_batch_size = 10;
    max_req_per_sec = 50;
  }

  -- The function `address`.
  unfoldable pub address : Bool → Bytes → ℕ → Option (List Bytes) → Option Host
  unfolding url_of
  address false bind_iface bind_port hosts = none
  address true bind_iface bind_port (some (host ∷ hosts)) = some (host_from host)
  address true bind_iface bind_port _ = some (host_from (url_of bind_iface bind_port))

  -- `WsConfiguration::address`
  unfoldable pub ws_address : WsConfiguration → Option Host
  unfolding address
  ws_address conf = address conf.enabled conf.interface conf.port conf.hosts

  -- The closure `add_hosts` of `with_domain`.
  unfoldable pub add_hosts : Option Host → List Bytes → List Bytes
  unfolding insert_text replace
  add_hosts none items = items
  add_hosts (some host) items =
      insert_text (replace (codes "127.0.0.1") (codes "localhost") (host_text host))
        (insert_text (host_text host) items)

  -- `with_domain`
  unfoldable pub with_domain : Option (List Bytes) → Option Host → Option (List Bytes)
  unfolding add_hosts text_set
  with_domain items dapps_address =
      Option.map (λ (ts : List Bytes). iterate_texts (add_hosts dapps_address (text_set [] ts)))
        items

  -- How an answer is made of the start of a server, of a kind and with options of a name.
  unfoldable pub start_answer :
      {S : Type 0} → Bytes → Bytes → Bytes → Started S → Result Bytes (Option S)
  start_answer kind url options (started server) = ok (some server)
  start_answer kind url options address_in_use = err (
      kind
      ++ (codes " address "
          ++ (url
              ++ (codes
                    " is already in use, make sure that another instance of an Ethereum client is not running or change the address using the --"
                  ++ (options
                      ++ (codes "-port and --" ++ (options ++ codes "-interface options.")))))))
  start_answer kind url options (failed text) = err (kind ++ (codes " error: " ++ text))

  -- `new_ws` from the parsed address on.
  unfoldable pub start_ws_at :
      WsConfiguration
      → ℕ
      → Broker
      → Bytes
      → Option SocketAddr
      → Result Bytes (Option WsServer) × Broker
  unfolding with_domain into_domains start_answer start_ws
  start_ws_at conf listener broker url none =
      (err (codes "Invalid WebSockets listen host/port given: " ++ url), broker)
  start_ws_at conf listener broker url (some addr) =
      let (delegates, next) = extend_with_set listener broker (iterate (list_apis conf.apis)) in
      let handler : MetaIoHandler = record {
        delegates = delegates;
        max_req_per_sec = some conf.max_req_per_sec;
        max_batch_size = conf.max_batch_size;
      } in
      let allowed_origins =
        into_domains (λ origin. origin) (with_domain conf.origins conf.dapps_address) in
      let allowed_hosts =
        into_domains allowed_host_from (with_domain conf.hosts (some (host_from url))) in
      (
        start_answer (codes "WebSockets") url (codes "ws")
            (start_ws crates addr handler allowed_origins allowed_hosts conf.max_connections),
        next,
      )

  -- `new_ws`, with the number of the handler of a new pub/sub client.
  unfoldable pub new_ws : WsConfiguration → ℕ → Broker → Result Bytes (Option WsServer) × Broker
  unfolding start_ws_at url_of
  new_ws conf listener broker =
      let url = url_of conf.interface conf.port in
      if not conf.enabled
      then (ok none, broker)
      else start_ws_at conf listener broker url (parse_addr url)

  -- `setup_apis`: the handler, and the broker.
  unfoldable pub setup_apis : ApiSet → ℕ → ℕ → Broker → MetaIoHandler × Broker
  setup_apis apis max_batch_size listener broker =
      let (delegates, next) = extend_with_set listener broker (iterate (list_apis apis)) in
      (
        record { delegates = delegates; max_req_per_sec = none; max_batch_size = max_batch_size },
        next,
      )

  -- `new_http` from the parsed address on.
  unfoldable pub start_http_at :
      Bytes
      → Bytes
      → HttpConfiguration
      → ℕ
      → Broker
      → Bytes
      → Option SocketAddr
      → Result Bytes (Option HttpServer) × Broker
  unfolding with_domain into_domains start_answer setup_apis start_http
  start_http_at id options conf listener broker url none =
      (err (codes "Invalid " ++ (id ++ (codes " listen host/port given: " ++ url))), broker)
  start_http_at id options conf listener broker url (some addr) =
      let (handler, next) = setup_apis conf.apis conf.max_batch_size listener broker in
      let cors_domains = into_domains (λ domain. domain) conf.cors in
      let allowed_hosts =
        into_domains allowed_host_from (with_domain conf.hosts (some (host_from url))) in
      (
        start_answer id url options
            (start_http crates addr cors_domains allowed_hosts handler conf.server_threads),
        next,
      )

  -- `new_http`, with the number of the handler of a new pub/sub client.
  unfoldable pub new_http :
      Bytes → Bytes → HttpConfiguration → ℕ → Broker → Result Bytes (Option HttpServer) × Broker
  unfolding start_http_at url_of
  new_http id options conf listener broker =
      let url = url_of conf.interface conf.port in
      if not conf.enabled
      then (ok none, broker)
      else start_http_at id options conf listener broker url (parse_addr url)
