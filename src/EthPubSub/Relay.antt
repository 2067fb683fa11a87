-- ===== src/EthPubSub/Relay.antt =====
-- The broker's ticks, passed on to a log subscriber (src/pubsub.rs, src/impls/eth_pubsub.rs).
use native.Mathlib.Decide.{dec_le}
use oasis_chain.Prelude.{
  ℕ, suc, ◌+◌, ◌-◌, ◌^◌, ◌≤◌, ◌<◌, ◌≡◌, refl, ap, sym, ◌∙◌, Bool, true, List, [], ◌∷◌, ◌++◌,
  append-nil, map, ok, All, arith,
}
use oasis_chain.Blockchain.{Blockchain, Ethcore, Filter, EthereumBlock, get_block_by_number}
use oasis_chain.Blockchain.Mine.Chain.{IsChain}
use oasis_chain.Blockchain.Queries.{
  best_block_number, get_blocks, count_from, range_inclusive, filter_logs, flat_map_logs,
}
use oasis_chain.Blockchain.Queries.Ranges.{
  get_blocks-append, get_blocks-same, matching, matching-append,
}
use oasis_chain.Broker.{Broker, tick}
use oasis_chain.Broker.Coverage.{times}
use oasis_chain.Broker.Notices.{ranges_of, ranges_of-tick, tick-idle}
use oasis_chain.EthPubSub.{PubSubCrates, Sent, EthPubSubClient, notify_blocks}
use oasis_chain.EthPubSub.Delivery.{filters_of, logs_to, logs_to-append, logs_to-notify_blocks}

pub map-append :
    {A B : Type 0} (f : A → B) (xs ys : List A) → map f (xs ++ ys) ≡ map f xs ++ map f ys
map-append f [] ys = refl
map-append f (x ∷ xs) ys = ap (λ (k : List _). f x ∷ k) (map-append f xs ys)

module _ (crates : PubSubCrates) (core : Ethcore) where
  -- The handler is called for some ranges.
  unfoldable pub deliver :
      Blockchain → EthPubSubClient crates → List (ℕ × ℕ) → List (ℕ × Sent crates)
  deliver b client [] = []
  deliver b client ((from, to) ∷ ranges) =
      notify_blocks crates core b from to client ++ deliver b client ranges

  -- What the handler that is a listener of the broker sends over some ticks, each with the chain at
  -- that time.
  unfoldable pub relay :
      EthPubSubClient crates
      → ℕ
      → List ((ℕ → Bool) × Blockchain)
      → Broker
      → List (ℕ × Sent crates) × Broker
  relay client l [] broker = ([], broker)
  relay client l ((alive, b) ∷ rest) broker =
      let (notices, broker') = tick alive (best_block_number b) broker in
      let (more, last) = relay client l rest broker' in
      (deliver b client (ranges_of l notices) ++ more, last)

  -- The listener is alive at a tick, and the chain then is as it should be and a beginning of a later
  -- one.
  abbrev pub IsSeen : ℕ → Blockchain → (ℕ → Bool) × Blockchain → Type 0
  IsSeen l end (alive, b) =
      (alive l ≡ true)
      × IsChain core b.chain_state
      × (best_block_number b ≤ best_block_number end)
      × ((i : ℕ)
          → i ≤ best_block_number b
          → get_block_by_number end.chain_state i ≡ get_block_by_number b.chain_state i)

  -- What is read off the messages of a client is what is expected of the blocks that they are about.
  pub record IsTold {V : Type 0} (client : EthPubSubClient crates)
      (read : List (ℕ × Sent crates) → List V) (expected : List EthereumBlock → List V)
      : Type 0 where
    pub read-nil : read [] ≡ []
    pub read-append : (xs ys : List (ℕ × Sent crates)) → read (xs ++ ys) ≡ read xs ++ read ys
    pub expected-nil : expected [] ≡ []
    pub expected-append :
        (us vs : List EthereumBlock) → expected (us ++ vs) ≡ expected us ++ expected vs
    pub told :
        (b : Blockchain)
        → IsChain core b.chain_state
        → (from to : ℕ) → from ≤ to
        → to ≤ b.chain_state.block_number
        → (blocks : List EthereumBlock) × (get_blocks b (range_inclusive from to) ≡ ok blocks)
          × (read (notify_blocks crates core b from to client) ≡ expected blocks)

  module _ {V : Type 0} (client : EthPubSubClient crates) (l : ℕ)
      (read : List (ℕ × Sent crates) → List V) (expected : List EthereumBlock → List V)
      (is_told : IsTold client read expected) (end : Blockchain)
      (small : best_block_number end < 2 ^ 64) where
    -- What is expected of the blocks from one number on up to another was sent, and nothing else.
    abbrev pub Covers : ℕ → ℕ → List (ℕ × Sent crates) → Type 0
    Covers last last' sent =
        (blocks : List EthereumBlock) × (get_blocks end (count_from (suc last) (last' - last))
          ≡ ok blocks)
        × (read sent ≡ expected blocks)

    pub Covers-nil : (last : ℕ) → Covers last last []
    unfolding get_blocks count_from
    Covers-nil last =
        let nothing : last - last ≡ 0 = omega arith in
        ([], rw nothing refl, is_told.read-nil ∙ sym is_told.expected-nil)

    pub Covers-append :
        (last mid last' : ℕ) (xs ys : List (ℕ × Sent crates))
        → last ≤ mid
        → mid ≤ last'
        → Covers last mid xs
        → Covers mid last' ys
        → Covers last last' (xs ++ ys)
    Covers-append last mid last' xs ys up up' (us, eu, read_u) (vs, ev, read_v) =
        let whole : (mid - last) + (last' - mid) ≡ last' - last = omega arith in
        let joint : suc last + (mid - last) ≡ suc mid = omega arith in
        let later : get_blocks end (count_from (suc last + (mid - last)) (last' - mid)) ≡ ok vs =
          rw joint ev in
        let all = get_blocks-append end (suc last) (mid - last) (last' - mid) us vs eu later in
        (
          us ++ vs,
          rw whole at all,
          is_told.read-append xs ys ∙ rw (read_u, read_v) (sym (is_told.expected-append us vs)),
        )

    pub Covers-tick :
        (alive : ℕ → Bool) (b : Blockchain) (broker : Broker)
        → times l broker.listeners ≡ 1
        → IsSeen l end (alive, b)
        → let (notices, broker') = tick alive (best_block_number b) broker in
          Covers broker.last_notified_block broker'.last_notified_block
            (deliver b client (ranges_of l notices))
          × (broker.last_notified_block ≤ broker'.last_notified_block)
          × (best_block_number b ≤ broker'.last_notified_block)
          × (broker'.listeners ≡ broker.listeners)
    unfolding deliver ranges_of range_inclusive
    Covers-tick alive b broker once (a, valid, up, same) =
        let last = broker.last_notified_block in
        elim (dec_le (best_block_number b) last) [
          | yes old ↦
              rw (tick-idle alive (best_block_number b) broker old)
                (Covers-nil last, omega arith, old, refl)
          | no new ↦
              let (ranges, next, listeners) =
                ranges_of-tick l alive (best_block_number b) broker once a (omega arith)
                  (omega arith) in
              let (blocks, found, told) =
                is_told.told b valid (suc last) (best_block_number b) (omega arith) (omega arith) in
              let count : suc (best_block_number b) - suc last ≡ best_block_number b - last =
                omega arith in
              let found' : get_blocks end (count_from (suc last) (best_block_number b - last))
                  ≡ ok blocks =
                get_blocks-same b end (best_block_number b) (suc last) (best_block_number b - last)
                  same (omega arith)
                ∙ rw count at found in
              rw (ranges, next)
                (
                  (blocks, found', ap read (append-nil _) ∙ told),
                  omega arith,
                  omega arith,
                  listeners,
                )
        ]

    -- Over any ticks of the broker.
    pub relay-told :
        (hs : List ((ℕ → Bool) × Blockchain)) (broker : Broker)
        → times l broker.listeners ≡ 1
        → All (IsSeen l end) hs
        → let (sent, broker') = relay client l hs broker in
          Covers broker.last_notified_block broker'.last_notified_block sent
          × (broker.last_notified_block ≤ broker'.last_notified_block)
          × All
              (λ (h : (ℕ → Bool) × Blockchain). best_block_number h.1 ≤ broker'.last_notified_block)
              hs
    unfolding relay
    relay-told [] broker once good = (Covers-nil broker.last_notified_block, omega arith, tt)
    relay-told ((alive, b) ∷ hs) broker once (seen, good) =
        let next = (tick alive (best_block_number b) broker).1 in
        let (now, up, reached, same) = Covers-tick alive b broker once seen in
        let (later, up', all) = relay-told hs next (ap (times l) same ∙ once) good in
        (
          Covers-append broker.last_notified_block next.last_notified_block _ _ _ up up' now later,
          omega arith,
          (omega arith, all),
        )

  pub logs-IsTold :
      (client : EthPubSubClient crates) (s : ℕ) (filter : Filter)
      → filters_of s (crates.logs_table.values client.logs_subscribers) ≡ filter ∷ []
      → IsTold client
          (logs_to crates s)
          (λ blocks. map crates.log_from (matching core filter blocks))
  unfolding logs_to matching filter_logs flat_map_logs
  logs-IsTold client s filter own = record {
    read-nil = refl;
    read-append = logs_to-append crates s;
    expected-nil = refl;
    expected-append =
        λ us vs. rw (matching-append core filter us vs) (map-append crates.log_from _ _);
    told = λ b valid from to le top.
        logs_to-notify_blocks crates core b valid client s filter from to own le top;
  }

  -- Over any ticks of the broker, with the chain growing between them, a sink that subscribed to
  -- logs with one filter is sent the matching logs of all blocks after the last one notified
  -- before, up to the last one notified now, each once and in order, and no others; and that last
  -- block is as high as the best block of any of the ticks. The handler is registered once and
  -- alive at all ticks, the subscriptions stay, and each tick's chain is as it should be and a
  -- beginning of the last one, which is below 2 ^ 64.
  pub relay-covers :
      (client : EthPubSubClient crates) (l s : ℕ) (filter : Filter)
      → filters_of s (crates.logs_table.values client.logs_subscribers) ≡ filter ∷ []
      → (end : Blockchain) → best_block_number end < 2 ^ 64
      → (hs : List ((ℕ → Bool) × Blockchain)) (broker : Broker) → times l broker.listeners ≡ 1
      → All (IsSeen l end) hs
      → let (sent, broker') = relay client l hs broker in
        ((blocks : List EthereumBlock) × (get_blocks end (
              count_from
                (suc broker.last_notified_block)
                (broker'.last_notified_block - broker.last_notified_block))
            ≡ ok blocks)
          × (logs_to crates s sent ≡ map crates.log_from (matching core filter blocks)))
        × (broker.last_notified_block ≤ broker'.last_notified_block)
        × All
            (λ (h : (ℕ → Bool) × Blockchain). best_block_number h.1 ≤ broker'.last_notified_block)
            hs
  relay-covers client l s filter own end small hs broker once good =
      relay-told client l (logs_to crates s)
        (λ blocks. map crates.log_from (matching core filter blocks))
        (logs-IsTold client s filter own) end small hs broker once good
