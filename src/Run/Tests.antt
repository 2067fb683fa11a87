-- ===== src/Run/Tests.antt =====
-- The wait at shutdown where the blockchain is dropped after a while, and where it never is; and a
-- gateway that starts.
use oasis_chain.Prelude.{
  ℕ, ◌+◌, ◌*◌, ◌≡◌, refl, leb, some, [], ◌∷◌, false, arith, codes, none, ok, ◌>>=◌,
}
use oasis_chain.Broker.{add_listener}
use oasis_chain.Blockchain.Samples.{toy_core}
use oasis_chain.RpcApis.{extend_with_set, list_apis}
use oasis_chain.Servers.Samples.{toy_servers}
use oasis_chain.Rpc.{new_ws, new_http, with_domain, default_http, default_ws}
use oasis_chain.Util.{gwei_to_wei}
use oasis_chain.Blockchain.{block_gas_limit}
use oasis_chain.Run.Samples.{toy_gateway, toy_gateway-started, toy-IsOrder}
use oasis_chain.Run.Start.{IsReady, start-IsReady}
use oasis_chain.Run.Gateway
use oasis_chain.Run.Gateway.{start}
use oasis_chain.Run.{Reading, second, wait_for_drop, taking_longer, timeout_reached}
use oasis_chain.Run.Wait.{Sleeps, Finishes, wait_for_drop-Finishes}

-- The clock advances by 50 seconds in each round; the blockchain is dropped in the third.
abbrev soon : ℕ → Reading
soon i = record {
  elapsed = i * (50 * second);
  is_dropped = leb 3 i;
  elapsed_later = i * (50 * second) + second;
}

abbrev never : ℕ → Reading
never i = record {
  elapsed = i * (50 * second);
  is_dropped = false;
  elapsed_later = i * (50 * second) + second;
}

waited_soon : wait_for_drop soon 9 ≡ some (taking_longer ∷ [])
unfolding wait_for_drop
waited_soon = refl

waited_never : wait_for_drop never 9 ≡ some (taking_longer ∷ timeout_reached ∷ [])
unfolding wait_for_drop
waited_never = refl

never-Sleeps : Sleeps never
never-Sleeps i = omega arith

wait_for_drop-Finishes_example : Finishes never 0 false (wait_for_drop never 301)
wait_for_drop-Finishes_example = wait_for_drop-Finishes never never-Sleeps 301 (omega arith)

-- Both servers have a pub/sub handler, and both handlers listen to the broker.
both_listen :
    (start toy_servers toy_core [] none 1 2 1 (codes "127.0.0.1") 8545 1 8546 10000 1 16000000
      >>= λ gateway. ok gateway.broker.listeners)
    ≡ ok (1 ∷ 2 ∷ [])
unfolding start Gateway.execute Gateway.start_broker new_ws new_http extend_with_set add_listener
    list_apis with_domain default_http default_ws
both_listen = refl

start-IsReady_example :
    IsReady toy_servers toy_core 1 2 toy_gateway
    × (toy_servers.new_interval 1 ≡ some toy_gateway.interval)
start-IsReady_example =
    start-IsReady toy_servers toy-IsOrder toy_core [] none 1 2 1 (codes "127.0.0.1") 8545 1 8546
      10000 (gwei_to_wei 1) block_gas_limit toy_gateway toy_gateway-started
