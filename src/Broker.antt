-- ===== src/Broker.antt =====
-- src/pubsub.rs: the broker that tells listeners of new blocks at every tick of its interval. A
-- listener is a number; which ones are still alive is known at the tick.
pub mod Coverage
pub mod Notices
mod Tests
use oasis_chain.Prelude.{ℕ, List, [], ◌∷◌, ◌++◌, Bool, leb, if◌then◌else◌}
use oasis_chain.Words.{u64_add}

-- `Inner`, less the blockchain.
pub record Broker : Type 0 where
  pub last_notified_block : ℕ
  pub listeners : List ℕ

-- `Broker::new`
abbrev pub new : Broker
new = record { last_notified_block = 0; listeners = [] }

-- `Broker::add_listener`
unfoldable pub add_listener : ℕ → Broker → Broker
add_listener listener broker = record broker { listeners = broker.listeners ++ listener ∷ [] }

-- A call of `notify_blocks`.
pub record Notice : Type 0 where
  pub listener : ℕ
  pub from_block : ℕ
  pub to_block : ℕ

-- The calls of the loop over the listeners.
notify : (ℕ → Bool) → List ℕ → ℕ → ℕ → List Notice
notify alive [] from to = []
notify alive (listener ∷ listeners) from to =
    let rest = notify alive listeners from to in
    if alive listener
    then record { listener = listener; from_block = from; to_block = to } ∷ rest
    else rest

-- The body of `for_each`, with the number of the latest block.
unfoldable pub tick : (ℕ → Bool) → ℕ → Broker → List Notice × Broker
unfolding notify
tick alive to broker = if leb to broker.last_notified_block then ([], broker) else (
  notify alive broker.listeners (u64_add broker.last_notified_block 1) to,
  record broker { last_notified_block = to },
)

-- The calls of some ticks, in order.
unfoldable pub ticks : List ((ℕ → Bool) × ℕ) → Broker → List Notice × Broker
ticks [] broker = ([], broker)
ticks ((alive, to) ∷ rest) broker =
    let (notices, broker') = tick alive to broker in
    let (more, last) = ticks rest broker' in (notices ++ more, last)
