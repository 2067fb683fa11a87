-- ===== src/EthPubSub/Delivery.antt =====
-- Which logs reach a subscriber when a range of blocks is notified (src/impls/eth_pubsub.rs).
use oasis_chain.Prelude.{
  ℕ, ◌≤◌, ◌≡◌, refl, ap, subst, ◌∙◌, inl, inr, true, false, Bool-cases, Option, none, some, List,
  [], ◌∷◌, ◌++◌, append-nil, map, Result, ok, err, panic, ◌==◌, if◌then◌else◌, arith,
}
use oasis_chain.Blockchain.{
  Blockchain, BlockchainError, Ethcore, Filter, EthereumBlock, LocalizedLogEntry,
}
use oasis_chain.Blockchain.Mine.Chain.{IsChain, block-found}
use oasis_chain.Blockchain.Queries
use oasis_chain.Blockchain.Queries.{get_block, get_blocks, range_inclusive}
use oasis_chain.Blockchain.Queries.Laws.{logs-ok}
use oasis_chain.Blockchain.Queries.Ranges.{matching}
use oasis_chain.Blockchain.Rendering.{RichHeader}
use oasis_chain.EthPubSub.{
  PubSubCrates, Sent, header, log_sent, transaction_outcome, EthPubSubClient, send_header,
  send_headers, send_collected, collect_headers, notify_heads, send_logs, limited, notify_each,
  notify_logs, notify_blocks,
}

-- The filters that a sink subscribed to logs with.
unfoldable pub filters_of : ℕ → List (ℕ × Filter) → List Filter
filters_of s [] = []
filters_of s ((sink, filter) ∷ subscribers) =
    let rest = filters_of s subscribers in if sink == s then filter ∷ rest else rest

module _ (crates : PubSubCrates) where
  open crates use {log_from}

  -- The logs among what is sent to a sink, in order.
  unfoldable pub logs_to : ℕ → List (ℕ × Sent crates) → List crates.Log
  logs_to s [] = []
  logs_to s ((sink, log_sent l) ∷ sent) =
      let rest = logs_to s sent in if sink == s then l ∷ rest else rest
  logs_to s ((sink, header h) ∷ sent) = logs_to s sent
  logs_to s ((sink, transaction_outcome hash output) ∷ sent) = logs_to s sent

  pub logs_to-append :
      (s : ℕ) (xs ys : List (ℕ × Sent crates)) → logs_to s (xs ++ ys) ≡ logs_to s xs ++ logs_to s ys
  unfolding logs_to
  logs_to-append s [] ys = refl
  logs_to-append s ((sink, log_sent l) ∷ xs) ys = elim (Bool-cases (sink == s)) [
    | inl it ↦ rw (it, logs_to-append s xs ys) refl
    | inr other ↦ rw (other, logs_to-append s xs ys) refl
  ]
  logs_to-append s ((sink, header h) ∷ xs) ys = logs_to-append s xs ys
  logs_to-append s ((sink, transaction_outcome hash output) ∷ xs) ys = logs_to-append s xs ys

  logs_to-send_header :
      (s : ℕ) (h : RichHeader) (sinks : List ℕ) → logs_to s (send_header crates h sinks) ≡ []
  unfolding logs_to send_header
  logs_to-send_header s h [] = refl
  logs_to-send_header s h (sink ∷ sinks) = logs_to-send_header s h sinks

  logs_to-send_collected :
      (s : ℕ) (hs : Option (List RichHeader)) (sinks : List ℕ)
      → logs_to s (send_collected crates hs sinks) ≡ []
  unfolding logs_to send_collected send_headers
  logs_to-send_collected s none sinks = refl
  logs_to-send_collected s (some []) sinks = refl
  logs_to-send_collected s (some (h ∷ hs)) sinks =
      logs_to-append s (send_header crates h sinks) (send_headers crates hs sinks)
      ∙ rw (logs_to-send_header s h sinks) (logs_to-send_collected s (some hs) sinks)

  logs_to-notify_heads :
      (s : ℕ) (b : Blockchain) (client : EthPubSubClient crates) (from to : ℕ)
      → logs_to s (notify_heads crates b client from to) ≡ []
  unfolding logs_to notify_heads
  logs_to-notify_heads s b client from to =
      elim (Bool-cases (crates.heads_table.is_empty client.heads_subscribers)) [
        | inl none_there ↦ rw none_there refl
        | inr there ↦ rw there (
            logs_to-send_collected s (collect_headers crates b (range_inclusive from to))
              (crates.heads_table.values client.heads_subscribers))
      ]

  logs_to-send_logs :
      (s sink : ℕ) (ls : List LocalizedLogEntry)
      → (sink == s) ≡ true
      → logs_to s (send_logs crates sink (ok ls)) ≡ map log_from ls
  unfolding logs_to send_logs
  logs_to-send_logs s sink [] e = refl
  logs_to-send_logs s sink (l ∷ ls) e =
      rw e (ap (λ (k : List crates.Log). log_from l ∷ k) (logs_to-send_logs s sink ls e))

  logs_to-send_logs_other :
      (s sink : ℕ) (answer : Result BlockchainError (List LocalizedLogEntry))
      → (sink == s) ≡ false
      → logs_to s (send_logs crates sink answer) ≡ []
  unfolding logs_to send_logs
  logs_to-send_logs_other s sink (ok []) e = refl
  logs_to-send_logs_other s sink (ok (l ∷ ls)) e = rw e (logs_to-send_logs_other s sink (ok ls) e)
  logs_to-send_logs_other s sink (err reason) e = refl
  logs_to-send_logs_other s sink panic e = refl

  module _ (core : Ethcore) (b : Blockchain) (from to : ℕ) where
    -- What a filter finds in the range, as it is sent.
    abbrev Finds : List LocalizedLogEntry → Filter → Type 0
    Finds ls filter = Queries.logs core b (limited crates from to filter) ≡ ok ls

    logs_to-notify_none :
        (s : ℕ) (subscribers : List (ℕ × Filter))
        → filters_of s subscribers ≡ []
        → logs_to s (notify_each crates core b from to subscribers) ≡ []
    unfolding logs_to notify_each filters_of
    logs_to-notify_none s [] e = refl
    logs_to-notify_none s ((sink, filter) ∷ subscribers) e = elim (Bool-cases (sink == s)) [
      | inl it ↦ let e' = rw it at e in cc
      | inr other ↦
          logs_to-append s (send_logs crates sink _) (notify_each crates core b from to subscribers)
          ∙ rw
              (logs_to-send_logs_other s sink (Queries.logs core b (limited crates from to filter))
                other)
              (logs_to-notify_none s subscribers (rw other at e))
    ]

    logs_to-notify_each :
        (s : ℕ) (subscribers : List (ℕ × Filter)) (filter : Filter) (ls : List LocalizedLogEntry)
        → filters_of s subscribers ≡ filter ∷ []
        → Finds ls filter
        → logs_to s (notify_each crates core b from to subscribers) ≡ map log_from ls
    unfolding logs_to notify_each filters_of
    logs_to-notify_each s [] filter ls e answer = cc
    logs_to-notify_each s ((sink, own) ∷ subscribers) filter ls e answer =
        logs_to-append s (send_logs crates sink _) (notify_each crates core b from to subscribers)
        ∙ elim (Bool-cases (sink == s)) [
          | inl it ↦
              let e' : (own ∷ filters_of s subscribers) ≡ (filter ∷ []) = rw it at e in
              let same : filter ≡ own = cc in
              let others : filters_of s subscribers ≡ [] = cc in
              let answer' : Finds ls own = subst (Finds ls) same answer in
              rw (answer', logs_to-notify_none s subscribers others)
                (append-nil _ ∙ logs_to-send_logs s sink ls it)
          | inr other ↦
              rw
                (logs_to-send_logs_other s sink (Queries.logs core b (limited crates from to own))
                  other)
                (logs_to-notify_each s subscribers filter ls (rw other at e) answer)
        ]

  -- When a range of blocks of a chain is notified, a sink that subscribed to logs with one filter
  -- gets the matching logs of these blocks, in order.
  pub logs_to-notify_blocks :
      (core : Ethcore) (b : Blockchain)
      → IsChain core b.chain_state
      → (client : EthPubSubClient crates) (s : ℕ) (filter : Filter) (from to : ℕ)
      → filters_of s (crates.logs_table.values client.logs_subscribers) ≡ filter ∷ []
      → from ≤ to
      → to ≤ b.chain_state.block_number
      → (blocks : List EthereumBlock) × (get_blocks b (range_inclusive from to) ≡ ok blocks)
        × (logs_to s (notify_blocks crates core b from to client)
            ≡ map log_from (matching core filter blocks))
  unfolding notify_blocks notify_logs matching limited get_block
  logs_to-notify_blocks core b valid client s filter from to own le top =
      let (first, at_first, is_first) = block-found core b.chain_state from valid (omega arith) in
      let (last, at_last, is_last) = block-found core b.chain_state to valid top in
      let query = limited crates from to filter in
      let (blocks, found, answer) =
        logs-ok core b valid query first last (ap ok at_first) (ap ok at_last) in
      let found' : get_blocks b (range_inclusive from to) ≡ ok blocks =
        rw (is_first.same_number, is_last.same_number) at found in
      let subscribers = crates.logs_table.values client.logs_subscribers in
      (
        blocks,
        found',
        logs_to-append s (notify_heads crates b client from to)
              (notify_each crates core b from to subscribers)
            ∙ rw (logs_to-notify_heads s b client from to)
                (logs_to-notify_each core b from to s subscribers filter _ own answer),
      )
