-- ===== src/System/Tests.antt =====
-- A gateway with one subscriber: a submission, a tick, and a tick after the handler is dropped.
use oasis_chain.Prelude.{true, false, none, some, [], ◌∷◌}
use oasis_chain.Blockchain.Mine.{send_raw_transaction}
use oasis_chain.Blockchain.Samples.{toy_core}
use oasis_chain.EthPubSub.{EthPubSubClient, new, subscribe, logs_kind, logs_params, new_heads}
use oasis_chain.EthPubSub.Samples.{toy_crates, everything}
use oasis_chain.Run.Samples.{toy_gateway}
use oasis_chain.System.{System, initial, ticked}

abbrev client : EthPubSubClient toy_crates
client =
    (subscribe toy_crates (subscribe toy_crates (new toy_crates) 4 new_heads none).1 4 logs_kind
      (some (logs_params everything))).1

abbrev at_first : System toy_crates
at_first = initial toy_crates toy_core toy_gateway.blockchain toy_gateway.broker client

abbrev with_block : System toy_crates
with_block = record at_first {
  chain = (send_raw_transaction toy_core at_first.chain 1000 (50 ∷ 1 ∷ 90 ∷ [])).1;
}

abbrev after_tick : System toy_crates
after_tick = ticked toy_crates toy_core 1 (λ l. true) with_block

-- The handler is dropped, and the broker ticks once more.
abbrev at_last : System toy_crates
at_last = ticked toy_crates toy_core 1 (λ l. false) (record after_tick { is_alive = false })
