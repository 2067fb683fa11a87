-- ===== src/System/Delivery.antt =====
-- What a subscriber has been sent, whatever happened (src/blockchain.rs, src/pubsub.rs,
-- src/impls/eth_pubsub.rs).
use oasis_chain.Prelude.{ℕ, ◌≤◌, ◌≡◌, Bool, true, false}
use oasis_chain.Blockchain.{Ethcore, Filter}
use oasis_chain.Blockchain.Queries.{best_block_number}
use oasis_chain.Broker.{Broker}
use oasis_chain.EthPubSub.{PubSubCrates}
use oasis_chain.System.{System, ticked}
use oasis_chain.System.Holds.{IsSentUpTo}

module _ (crates : PubSubCrates) (core : Ethcore) (sink : ℕ) (filter : Filter) (listener : ℕ)
    (s : System crates) where
  -- What was sent goes up to some block; while the handler is there that is the last one notified, and a
  -- tick catches up with the chain; a tick that it is not alive at sends nothing.
  abbrev pub IsDelivered : Type 0
  IsDelivered =
      ((last : ℕ) × (last ≤ s.broker.last_notified_block)
        × (s.is_alive ≡ true → last ≡ s.broker.last_notified_block)
        × IsSentUpTo crates core sink filter last s)
      × (s.broker.last_notified_block ≤ best_block_number s.chain)
      × (s.is_alive ≡ true
          → (alive : ℕ → Bool) → alive listener ≡ true
          → IsSentUpTo crates core sink filter (best_block_number s.chain)
              (ticked crates core listener alive s))
      × ((alive : ℕ → Bool)
          → alive listener ≡ false
          → (ticked crates core listener alive s).sent ≡ s.sent)
