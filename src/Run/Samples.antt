-- ===== src/Run/Samples.antt =====
-- A gateway that has started with the default options (src/run.rs, bin/main.rs).
use oasis_chain.Prelude.{◌≡◌, refl, none, some, List, [], ◌∷◌, codes, ok}
use oasis_chain.KeyManager.{no_keys}
use oasis_chain.Util.{gwei_to_wei}
use oasis_chain.Broker.{add_listener}
use oasis_chain.Blockchain.{new_blockchain, block_gas_limit}
use oasis_chain.Blockchain.Samples.{toy_core}
use oasis_chain.RpcApis.{
  extend_with_set, list_apis, web3_client, net_client, eth_client, signing_client, filter_client,
  pubsub_client, oasis_client, Delegate,
}
use oasis_chain.Servers.Samples.{toy_servers}
use oasis_chain.Rpc.{new_ws, new_http, with_domain, default_http, default_ws}
use oasis_chain.Run.Gateway
use oasis_chain.Run.Gateway.{RunningGateway, start}
use oasis_chain.Run.Start.{IsOrder}

abbrev endpoints : List Delegate
endpoints =
    web3_client ∷ net_client ∷ eth_client ∷ signing_client ∷ filter_client ∷ pubsub_client
    ∷ oasis_client ∷ []

abbrev pub toy_gateway : RunningGateway toy_servers
toy_gateway = record {
  interval = 1;
  blockchain = new_blockchain toy_core (gwei_to_wei 1) block_gas_limit no_keys [];
  broker = record { last_notified_block = 0; listeners = 1 ∷ 2 ∷ [] };
  http_server = some endpoints;
  ws_server = some endpoints;
}

pub toy_gateway-started :
    start toy_servers toy_core [] none 1 2 1
      (codes "127.0.0.1")
      8545
      1
      8546
      10000
      (gwei_to_wei 1)
      block_gas_limit
    ≡ ok toy_gateway
unfolding start Gateway.execute Gateway.start_broker new_ws new_http extend_with_set add_listener
    list_apis with_domain default_http default_ws
toy_gateway-started = refl

pub toy-IsOrder : IsOrder toy_servers
toy-IsOrder apis a = refl
