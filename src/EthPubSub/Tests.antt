-- ===== src/EthPubSub/Tests.antt =====
-- src/impls/eth_pubsub.rs: `subscribe` and `unsubscribe`, and the logs and headers of a range.
use oasis_chain.Prelude.{◌≡◌, refl, true, none, some, [], ◌∷◌, nat_eq}
use oasis_chain.Broker.Coverage.{times}
use oasis_chain.EthPubSub.{
  EthPubSubClient, new, subscribe, unsubscribe, logs_kind, new_heads, logs_params,
}
use oasis_chain.EthPubSub.Samples.{toy_crates, everything, pop}
use oasis_chain.EthPubSub.Delivery.{filters_of}

abbrev client : EthPubSubClient toy_crates
client =
    (subscribe toy_crates
      (subscribe toy_crates (new toy_crates) 4 logs_kind (some (logs_params everything))).1 6
      new_heads none).1

subscribed_to_logs : filters_of 4 client.logs_subscribers ≡ everything ∷ []
unfolding filters_of subscribe new
subscribed_to_logs = refl

subscribed_to_heads : times 6 client.heads_subscribers ≡ 1
unfolding times subscribe new
subscribed_to_heads = refl

rejected : (subscribe toy_crates client 6 new_heads (some (logs_params everything))).1 ≡ client
unfolding subscribe
rejected = refl

unsubscribed : (unsubscribe toy_crates client 0).0 ≡ true
unfolding unsubscribe subscribe new pop
unsubscribed = refl
