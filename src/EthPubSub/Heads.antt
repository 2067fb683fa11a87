-- ===== src/EthPubSub/Heads.antt =====
-- Which headers reach a subscriber to new heads (src/impls/eth_pubsub.rs, src/pubsub.rs).
use oasis_chain.Prelude.{
  ℕ, suc, ◌-◌, ◌^◌, ◌≤◌, ◌<◌, ◌≡◌, refl, ap, ◌∙◌, inl, inr, Bool, Bool-cases, some, List, [], ◌∷◌,
  ◌++◌, append-nil, map, ok, >>=-eq-ok, ok-injective, unwrap, unwrap-eq-ok, Result, err, panic, All,
  ◌==◌, if◌then◌else◌, arith,
}
use mathlib.Core.Option
use oasis_chain.Blockchain.{
  Blockchain, BlockchainError, Ethcore, Filter, EthereumBlock, LocalizedLogEntry,
  get_block_by_number,
}
use oasis_chain.Blockchain.Queries
use oasis_chain.Blockchain.Queries.{
  best_block_number, get_block, get_blocks, count_from, range_inclusive,
}
use oasis_chain.Blockchain.Queries.Laws.{range-found}
use oasis_chain.Blockchain.Rendering.{RichHeader, rich_header}
use oasis_chain.Broker.{Broker}
use oasis_chain.Broker.Coverage.{times}
use oasis_chain.EthPubSub.{
  PubSubCrates, Sent, header, log_sent, transaction_outcome, EthPubSubClient, send_header,
  send_headers, send_collected, collect_headers, notify_heads, send_logs, limited, notify_each,
  notify_logs, notify_blocks,
}
use oasis_chain.EthPubSub.Relay.{relay, relay-told, IsSeen, IsTold, map-append}

module _ (crates : PubSubCrates) where
  open crates use {header_crates, heads_table}

  -- The headers among what is sent to a sink, in order.
  unfoldable pub headers_to : ℕ → List (ℕ × Sent crates) → List RichHeader
  headers_to s [] = []
  headers_to s ((sink, header h) ∷ sent) =
      let rest = headers_to s sent in if sink == s then h ∷ rest else rest
  headers_to s ((sink, log_sent l) ∷ sent) = headers_to s sent
  headers_to s ((sink, transaction_outcome hash output) ∷ sent) = headers_to s sent

  headers_to-append :
      (s : ℕ) (xs ys : List (ℕ × Sent crates))
      → headers_to s (xs ++ ys) ≡ headers_to s xs ++ headers_to s ys
  unfolding headers_to
  headers_to-append s [] ys = refl
  headers_to-append s ((sink, header h) ∷ xs) ys = elim (Bool-cases (sink == s)) [
    | inl it ↦ rw (it, headers_to-append s xs ys) refl
    | inr other ↦ rw (other, headers_to-append s xs ys) refl
  ]
  headers_to-append s ((sink, log_sent l) ∷ xs) ys = headers_to-append s xs ys
  headers_to-append s ((sink, transaction_outcome hash output) ∷ xs) ys = headers_to-append s xs ys

  headers_to-send_header_none :
      (s : ℕ) (h : RichHeader) (sinks : List ℕ)
      → times s sinks ≡ 0
      → headers_to s (send_header crates h sinks) ≡ []
  unfolding headers_to send_header times
  headers_to-send_header_none s h [] e = refl
  headers_to-send_header_none s h (sink ∷ sinks) e = elim (Bool-cases (sink == s)) [
    | inl it ↦ absurd (omega (arith, rw it at e))
    | inr other ↦ rw other (headers_to-send_header_none s h sinks (rw other at e))
  ]

  -- A sink that is in the table once gets a header once.
  headers_to-send_header :
      (s : ℕ) (h : RichHeader) (sinks : List ℕ)
      → times s sinks ≡ 1
      → headers_to s (send_header crates h sinks) ≡ h ∷ []
  unfolding headers_to send_header times
  headers_to-send_header s h [] e = absurd (omega arith)
  headers_to-send_header s h (sink ∷ sinks) e = elim (Bool-cases (sink == s)) [
    | inl it ↦
        let others : times s sinks ≡ 0 = omega (arith, rw it at e) in
        rw it (ap (λ (k : List RichHeader). h ∷ k) (headers_to-send_header_none s h sinks others))
    | inr other ↦ rw other (headers_to-send_header s h sinks (rw other at e))
  ]

  headers_to-send_headers :
      (s : ℕ) (hs : List RichHeader) (sinks : List ℕ)
      → times s sinks ≡ 1
      → headers_to s (send_headers crates hs sinks) ≡ hs
  unfolding send_headers headers_to
  headers_to-send_headers s [] sinks once = refl
  headers_to-send_headers s (h ∷ hs) sinks once =
      headers_to-append s (send_header crates h sinks) (send_headers crates hs sinks)
      ∙ rw (headers_to-send_header s h sinks once, headers_to-send_headers s hs sinks once) refl

  -- The headers are collected where the blocks are there.
  collect_headers-ok :
      (b : Blockchain) (ns : List ℕ) (blocks : List EthereumBlock)
      → get_blocks b ns ≡ ok blocks
      → collect_headers crates b ns ≡ some (map (rich_header header_crates) blocks)
  unfolding get_blocks collect_headers Option.bind
  collect_headers-ok b [] blocks e = rw (← ok-injective e) refl
  collect_headers-ok b (n ∷ ns) blocks e =
      let (blk, at_n, e') = >>=-eq-ok (unwrap (get_block_by_number b.chain_state n)) _ e in
      let (rest, there, joined) = >>=-eq-ok (get_blocks b ns) _ e' in
      rw (unwrap-eq-ok _ at_n, collect_headers-ok b ns rest there, ← ok-injective joined) refl

  headers_to-send_logs :
      (s sink : ℕ) (answer : Result BlockchainError (List LocalizedLogEntry))
      → headers_to s (send_logs crates sink answer) ≡ []
  unfolding headers_to send_logs
  headers_to-send_logs s sink (ok []) = refl
  headers_to-send_logs s sink (ok (l ∷ ls)) = headers_to-send_logs s sink (ok ls)
  headers_to-send_logs s sink (err reason) = refl
  headers_to-send_logs s sink panic = refl

  headers_to-notify_each :
      (core : Ethcore) (s : ℕ) (b : Blockchain) (from to : ℕ) (subscribers : List (ℕ × Filter))
      → headers_to s (notify_each crates core b from to subscribers) ≡ []
  unfolding notify_each headers_to
  headers_to-notify_each core s b from to [] = refl
  headers_to-notify_each core s b from to ((sink, filter) ∷ subscribers) =
      headers_to-append s
        (send_logs crates sink (Queries.logs core b (limited crates from to filter)))
        (notify_each crates core b from to subscribers)
      ∙ rw (headers_to-send_logs s sink (Queries.logs core b (limited crates from to filter)))
          (headers_to-notify_each core s b from to subscribers)

  headers_to-notify_heads :
      (s : ℕ) (b : Blockchain) (client : EthPubSubClient crates) (from to : ℕ)
      (blocks : List EthereumBlock)
      → times s (heads_table.values client.heads_subscribers) ≡ 1
      → get_blocks b (range_inclusive from to) ≡ ok blocks
      → headers_to s (notify_heads crates b client from to) ≡ map (rich_header header_crates) blocks
  unfolding notify_heads send_collected times
  headers_to-notify_heads s b client from to blocks once there =
      elim (Bool-cases (heads_table.is_empty client.heads_subscribers)) [
        | inl empty ↦
            absurd (
              omega (arith, rw (heads_table.is_empty_sound client.heads_subscribers empty) at once))
        | inr some_there ↦
            rw (some_there, collect_headers-ok b (range_inclusive from to) blocks there)
              (headers_to-send_headers s (map (rich_header header_crates) blocks)
                (heads_table.values client.heads_subscribers) once)
      ]

  module _ (core : Ethcore) (client : EthPubSubClient crates) (s : ℕ)
      (once : times s (heads_table.values client.heads_subscribers) ≡ 1) where
    pub heads-IsTold :
        IsTold crates core client (headers_to s) (λ blocks. map (rich_header header_crates) blocks)
    unfolding headers_to notify_blocks notify_logs
    heads-IsTold = record {
      read-nil = refl;
      read-append = headers_to-append s;
      expected-nil = refl;
      expected-append = map-append (rich_header header_crates);
      told = λ b valid from to le top.
          let (blocks, there) = range-found core b valid from to le top in
          (
            blocks,
            there,
            headers_to-append s (notify_heads crates b client from to) (
                  notify_each crates core b from to
                    (crates.logs_table.values client.logs_subscribers))
                ∙ rw
                    (
                      headers_to-notify_heads s b client from to blocks once there,
                      headers_to-notify_each core s b from to
                          (crates.logs_table.values client.logs_subscribers),
                    )
                    (append-nil _),
          );
    }

    -- Over any ticks of the broker, with the chain growing between them, a sink that subscribed to
    -- new heads once is sent the headers of all blocks after the last one notified before, up to the
    -- last one notified now, each once and in order, and no others; and that last block is as high
    -- as the best block of any of the ticks. The handler is registered once and alive at all ticks,
    -- the subscriptions stay, and each tick's chain is as it should be and a beginning of the last
    -- one, which is below 2 ^ 64.
    pub relay-heads :
        (l : ℕ) (end : Blockchain)
        → best_block_number end < 2 ^ 64
        → (hs : List ((ℕ → Bool) × Blockchain)) (broker : Broker) → times l broker.listeners ≡ 1
        → All (IsSeen crates core l end) hs
        → let (sent, broker') = relay crates core client l hs broker in
          ((blocks : List EthereumBlock) × (get_blocks end (
                count_from
                  (suc broker.last_notified_block)
                  (broker'.last_notified_block - broker.last_notified_block))
              ≡ ok blocks)
            × (headers_to s sent ≡ map (rich_header header_crates) blocks))
          × (broker.last_notified_block ≤ broker'.last_notified_block)
          × All
              (λ (h : (ℕ → Bool) × Blockchain). best_block_number h.1 ≤ broker'.last_notified_block)
              hs
    relay-heads l end small hs broker registered good =
        relay-told crates core client l (headers_to s)
          (λ blocks. map (rich_header header_crates) blocks) heads-IsTold end small hs broker
          registered good
