-- ===== src/System/Steps.antt =====
-- What submissions and ticks leave true of what was sent (src/blockchain.rs, src/pubsub.rs,
-- src/impls/eth_pubsub.rs).
use oasis_chain.Prelude.{
  ℕ, suc, ◌-◌, ◌^◌, ◌≤◌, ◌<◌, ◌≡◌, refl, ap, ◌∙◌, Bool, true, false, List, append-nil, ok, arith,
}
use oasis_chain.Blockchain.{Ethcore, EthereumBlock}
use oasis_chain.Blockchain.Mine.{send_raw_transaction}
use oasis_chain.Blockchain.Mine.Chain.{CollisionFree, IsChain}
use oasis_chain.Blockchain.Mine.Submit.{
  send_raw_transaction-IsChain, send_raw_transaction-keeps, send_raw_transaction-grows,
}
use oasis_chain.Blockchain.Queries.{best_block_number, get_blocks, count_from}
use oasis_chain.Blockchain.Queries.Ranges.{get_blocks-same}
use oasis_chain.Broker
use oasis_chain.Broker.{Broker}
use oasis_chain.Broker.Coverage.{times}
use oasis_chain.EthPubSub.{PubSubCrates, Sent}
use oasis_chain.Broker.Notices.{ranges_of-dead, tick-listeners}
use oasis_chain.EthPubSub.Relay.{deliver, IsTold, Covers-append, Covers-tick}
use oasis_chain.System.{System, ticked}

-- A tick notifies up to the height that it is given.
pub tick-reaches :
    (alive : ℕ → Bool) (to : ℕ) (broker : Broker)
    → broker.last_notified_block ≤ to
    → (Broker.tick alive to broker).1.last_notified_block ≡ to
unfolding Broker.tick
tick-reaches alive to broker le = ground arith

module _ (crates : PubSubCrates) (core : Ethcore) where
  -- What was read off the messages is what is expected of the blocks from 1 up to some number.
  abbrev pub HasTold :
      {V : Type 0}
      → (List (ℕ × Sent crates) → List V)
      → (List EthereumBlock → List V)
      → ℕ
      → System crates
      → Type 0
  HasTold read expected last s =
      (blocks : List EthereumBlock) × (get_blocks s.chain (count_from 1 (last - 0)) ≡ ok blocks)
      × (read s.sent ≡ expected blocks)

  pub record IsSound (listener : ℕ) (s : System crates) : Type 0 where
    pub valid : IsChain core s.chain.chain_state
    pub small : best_block_number s.chain < 2 ^ 64
    pub notified : s.broker.last_notified_block ≤ best_block_number s.chain
    pub once : times listener s.broker.listeners ≡ 1

  module _ (free : CollisionFree core) (listener : ℕ) where
    pub submit-IsSound :
        (s : System crates) (timestamp : ℕ) (raw : List ℕ)
        → suc (best_block_number s.chain) < 2 ^ 64
        → IsSound listener s
        → IsSound listener
            (record s { chain = (send_raw_transaction core s.chain timestamp raw).1 })
    submit-IsSound s timestamp raw room sound =
        let grows = send_raw_transaction-grows core s.chain timestamp room free sound.valid raw in
        record {
          valid = send_raw_transaction-IsChain core s.chain timestamp room free sound.valid raw;
          small = omega arith;
          notified = omega (arith, sound.notified);
          once = sound.once;
        }

    pub submit-HasTold :
        {V : Type 0} (read : List (ℕ × Sent crates) → List V)
        (expected : List EthereumBlock → List V) (s : System crates) (timestamp : ℕ) (raw : List ℕ)
        (last : ℕ)
        → suc (best_block_number s.chain) < 2 ^ 64
        → IsSound listener s
        → last ≤ best_block_number s.chain
        → HasTold read expected last s
        → HasTold read expected last
            (record s { chain = (send_raw_transaction core s.chain timestamp raw).1 })
    submit-HasTold read expected s timestamp raw last room sound top (blocks, there, told) = (
      blocks,
      get_blocks-same s.chain (send_raw_transaction core s.chain timestamp raw).1
            (best_block_number s.chain) 1 (last - 0)
            (send_raw_transaction-keeps core s.chain timestamp room free sound.valid raw)
            (omega arith)
          ∙ there,
      told,
    )

    pub tick-IsSound :
        (s : System crates) (alive : ℕ → Bool)
        → IsSound listener s
        → IsSound listener (ticked crates core listener alive s)
    tick-IsSound s alive sound = record {
      valid = sound.valid;
      small = sound.small;
      notified =
          omega (arith, tick-reaches alive (best_block_number s.chain) s.broker sound.notified);
      once =
          ap (times listener) (tick-listeners alive (best_block_number s.chain) s.broker)
          ∙ sound.once;
    }

    -- A handler that is dropped sends nothing.
    pub tick-sent_dead :
        (s : System crates) (alive : ℕ → Bool)
        → alive listener ≡ false
        → (ticked crates core listener alive s).sent ≡ s.sent
    unfolding deliver
    tick-sent_dead s alive dead =
        rw (ranges_of-dead listener alive (best_block_number s.chain) s.broker dead)
          (append-nil s.sent)

    module _ {V : Type 0} (read : List (ℕ × Sent crates) → List V)
        (expected : List EthereumBlock → List V) (s : System crates) (alive : ℕ → Bool) where
      -- A handler that is alive catches up with the broker.
      pub tick-HasTold :
          IsTold crates core s.client read expected
          → IsSound listener s
          → alive listener ≡ true
          → HasTold read expected s.broker.last_notified_block s
          → HasTold read expected
              (ticked crates core listener alive s).broker.last_notified_block
              (ticked crates core listener alive s)
      tick-HasTold is_told sound up before =
          let b = s.chain in
          let (now, later, reached, same) =
            Covers-tick crates core s.client listener read expected is_told b sound.small alive b
              s.broker sound.once (up, sound.valid, omega arith, λ i le. refl) in
          Covers-append crates core s.client listener read expected is_told b sound.small 0
            s.broker.last_notified_block
            (Broker.tick alive (best_block_number b) s.broker).1.last_notified_block _ _
            (omega arith) later before now

      pub tick-HasTold_dead :
          (last : ℕ)
          → alive listener ≡ false
          → HasTold read expected last s
          → HasTold read expected last (ticked crates core listener alive s)
      tick-HasTold_dead last dead (blocks, there, told) =
          (blocks, there, ap read (tick-sent_dead s alive dead) ∙ told)
