-- ===== src/Run/Gateway.antt =====
-- src/run.rs and src/lib.rs: the start of the gateway. Of the runtime there is whether it starts, and
-- the interval of the broker's process that is spawned on it; what that process does at each tick is
-- `tick` of module Broker.
use oasis_chain.Prelude.{
  ℕ, Option, none, some, List, [], ◌∷◌, Bytes, codes, Result, ok, err, unwrap, ◌>>=◌,
}
use oasis_chain.KeyManager.{MockClient, no_keys}
use oasis_chain.Blockchain.{Blockchain, Ethcore, Mkvs, new_blockchain}
use oasis_chain.Broker
use oasis_chain.Broker.{Broker}
use oasis_chain.Run.{Reading, Warning, wait_for_drop}
use oasis_chain.Servers.{ServerCrates}
use oasis_chain.Rpc.{HttpConfiguration, WsConfiguration, default_http, default_ws, new_ws, new_http}

module _ (crates : ServerCrates) where
  -- `RunningGateway`, with the broker; the runtime is known by the interval of the broker's process.
  pub record RunningGateway : Type 0 where
    pub interval : crates.Interval
    pub blockchain : Blockchain
    pub broker : Broker
    pub http_server : Option crates.HttpServer
    pub ws_server : Option crates.WsServer

  -- The configurations of the servers.
  unfoldable pub ws_conf : Bytes → ℕ → ℕ → WsConfiguration crates
  ws_conf interface ws_port ws_max_connections = record (default_ws crates) {
    origins = none;
    hosts = none;
    interface = interface;
    port = ws_port;
    max_connections = ws_max_connections;
  }

  unfoldable pub http_conf : Bytes → ℕ → ℕ → HttpConfiguration
  http_conf interface http_port num_threads = record default_http {
    cors = none;
    hosts = none;
    interface = interface;
    port = http_port;
    server_threads = num_threads;
  }

  -- `Broker::start`, which makes the interval before there is a future to spawn.
  unfoldable pub start_broker : ℕ → Result Bytes crates.Interval
  start_broker pubsub_interval_secs = unwrap (crates.new_interval pubsub_interval_secs)

  -- `execute`, with what the runtime's start fails with, the numbers of the handlers of the two new
  -- pub/sub clients, and the store that the genesis specification sets up.
  unfoldable pub execute :
      Ethcore
      → Mkvs
      → Option Bytes
      → (ws_listener http_listener : ℕ) → MockClient
      → (pubsub_interval_secs : ℕ) → Bytes
      → (http_port num_threads ws_port ws_max_connections gas_price block_gas_limit : ℕ)
      → Result Bytes RunningGateway
  unfolding ws_conf http_conf start_broker
  execute core genesis (some failure) ws_listener http_listener km_client pubsub_interval_secs
        interface http_port num_threads ws_port ws_max_connections gas_price block_gas_limit =
      err failure
  execute core genesis none ws_listener http_listener km_client pubsub_interval_secs interface
        http_port num_threads ws_port ws_max_connections gas_price block_gas_limit =
      let blockchain = new_blockchain core gas_price block_gas_limit km_client genesis in
      start_broker pubsub_interval_secs >>= λ interval.
      let (ws_server, with_ws) =
        new_ws crates (ws_conf interface ws_port ws_max_connections) ws_listener Broker.new in
      let (http_server, with_http) =
        new_http crates (codes "HTTP JSON-RPC") (codes "jsonrpc")
          (http_conf interface http_port num_threads) http_listener with_ws in
      ws_server >>= λ ws. http_server >>= λ http. ok (record {
        interval = interval;
        blockchain = blockchain;
        broker = with_http;
        http_server = http;
        ws_server = ws;
      })

  -- `start` of src/lib.rs: the gateway with a key manager that has no keys yet.
  unfoldable pub start :
      Ethcore
      → Mkvs
      → Option Bytes
      → (ws_listener http_listener pubsub_interval_secs : ℕ) → Bytes
      → (http_port num_threads ws_port ws_max_connections gas_price block_gas_limit : ℕ)
      → Result Bytes RunningGateway
  unfolding execute
  start core genesis failure ws_listener http_listener =
      execute core genesis failure ws_listener http_listener no_keys

-- What `shutdown` drops, in order.
pub data Resource : Type 0 where
  runtime http_server_handle ws_server_handle blockchain_handle km_client_handle : Resource

-- `RunningGateway::shutdown`: what is dropped, and the warnings of the wait that follows.
unfoldable pub shutdown : (ℕ → Reading) → (fuel : ℕ) → List Resource × Option (List Warning)
shutdown readings fuel = (
  runtime ∷ http_server_handle ∷ ws_server_handle ∷ blockchain_handle ∷ km_client_handle ∷ [],
  wait_for_drop readings fuel,
)
