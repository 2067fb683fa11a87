-- ===== src/System.antt =====
-- The running gateway, as far as one pub/sub handler and the chain go: transactions are submitted, the
-- broker ticks, and clients subscribe, in any order (src/blockchain.rs, src/pubsub.rs,
-- src/impls/eth_pubsub.rs).
pub mod Steps
pub mod Holds
pub mod Delivery
mod Tests
use oasis_chain.Prelude.{ℕ, suc, ◌^◌, ◌<◌, ◌≡◌, Bool, true, false, List, [], ◌∷◌, ◌++◌, Bytes}
use oasis_chain.Blockchain.{Blockchain, Ethcore, Filter}
use oasis_chain.Blockchain.Mine.{send_raw_transaction}
use oasis_chain.Blockchain.Queries.{best_block_number}
use oasis_chain.Broker
use oasis_chain.Broker.{Broker}
use oasis_chain.Broker.Coverage.{times}
use oasis_chain.Broker.Notices.{ranges_of}
use oasis_chain.EthPubSub.{PubSubCrates, Sent, EthPubSubClient}
use oasis_chain.EthPubSub.Delivery.{filters_of}
use oasis_chain.EthPubSub.Relay.{deliver}

-- The chain, the broker, the handler's subscribers, what was sent to them, and whether the handler is
-- there: the broker has a weak reference to it only.
pub record System (crates : PubSubCrates) : Type 0 where
  pub chain : Blockchain
  pub broker : Broker
  pub client : EthPubSubClient crates
  pub sent : List (ℕ × Sent crates)
  pub is_alive : Bool

module _ (crates : PubSubCrates) (core : Ethcore) where
  -- A sink has one subscription to new heads and one to logs.
  pub record IsSubscribed (sink : ℕ) (filter : Filter) (client : EthPubSubClient crates)
      : Type 0 where
    pub heads : times sink (crates.heads_table.values client.heads_subscribers) ≡ 1
    pub logs : filters_of sink (crates.logs_table.values client.logs_subscribers) ≡ filter ∷ []

  -- With nothing sent yet.
  abbrev pub initial : Blockchain → Broker → EthPubSubClient crates → System crates
  initial chain broker client = record {
    chain = chain;
    broker = broker;
    client = client;
    sent = [];
    is_alive = true;
  }

  -- After a tick at which some listeners are alive.
  abbrev pub ticked : ℕ → (ℕ → Bool) → System crates → System crates
  ticked listener alive s =
      let (notices, broker) = Broker.tick alive (best_block_number s.chain) s.broker in
      record s {
        broker = broker;
        sent = s.sent ++ deliver crates core s.chain s.client (ranges_of listener notices);
      }

  -- What can happen while a sink stays subscribed: also that the handler is dropped, with ticks and
  -- submissions after that. There are block numbers left for a submission.
  pub data Step (listener sink : ℕ) (filter : Filter) : System crates → System crates → Type 0 where
    submit :
        (s : System crates) (timestamp : ℕ) (raw : Bytes)
        → suc (best_block_number s.chain) < 2 ^ 64
        → Step listener sink filter s
            (record s { chain = (send_raw_transaction core s.chain timestamp raw).1 })
    tick :
        (s : System crates) (alive : ℕ → Bool)
        → alive listener ≡ s.is_alive
        → Step listener sink filter s (ticked listener alive s)
    drop_handler : (s : System crates) → Step listener sink filter s (record s { is_alive = false })
    subscribe :
        (s : System crates) (client : EthPubSubClient crates)
        → IsSubscribed sink filter client
        → Step listener sink filter s (record s { client = client })

  pub data Reach (listener sink : ℕ) (filter : Filter) (s : System crates)
      : System crates → Type 0 where
    here : Reach listener sink filter s s
    next :
        {t u : System crates}
        → Reach listener sink filter s t
        → Step listener sink filter t u
        → Reach listener sink filter s u
