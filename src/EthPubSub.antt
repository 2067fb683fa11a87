-- ===== src/EthPubSub.antt =====
-- src/impls/eth_pubsub.rs: the subscriptions to heads, logs and completed transactions. The tasks that
-- the handlers spawn are taken to run where they are spawned. The subscriber tables and the types of
-- `parity-rpc` and `ethcore` are an interface; a sink is a number.
pub mod Delivery
pub mod Relay
pub mod Heads
pub mod Samples
mod Tests
use oasis_chain.Prelude.{
  ℕ, ◌≡◌, Bool, true, false, ◌||◌, if◌then◌else◌, Option, none, some, List, [], ◌∷◌, ◌++◌, map,
  Bytes, codes, Result, ok, err, panic,
}
use mathlib.Core.Option
use oasis_chain.Util.{RpcError}
use oasis_chain.Blockchain.{
  Blockchain, Ethcore, BlockchainError, Filter, number, LocalizedLogEntry, EthereumBlock,
  get_block_by_number,
}
use oasis_chain.Blockchain.Queries
use oasis_chain.Blockchain.Queries.{range_inclusive}
use oasis_chain.Blockchain.Rendering.{HeaderCrates, RichHeader, rich_header}

-- `parity_rpc::v1::helpers::Subscribers`, a table of what subscribers are kept with.
pub record Subscribers (V : Type 0) : Type 1 where
  pub Table : Type 0
  pub default : Table
  pub is_empty : Table → Bool
  pub values : Table → List V
  pub push : V → Table → Table
  -- By a subscription's identifier.
  pub remove : ℕ → Table → Option V × Table
  pub is_empty_sound : (t : Table) → is_empty t ≡ true → values t ≡ []

pub record PubSubCrates : Type 1 where
  pub TxFilter : Type 0
  pub TxEntry : Type 0
  -- `EthTxFilter::matches`
  pub tx_matches : TxFilter → TxEntry → Bool
  pub transaction_hash : TxEntry → ℕ
  pub Log : Type 0
  pub log_from : LocalizedLogEntry → Log
  pub heads_table : Subscribers ℕ
  pub logs_table : Subscribers (ℕ × Filter)
  pub txs_table : Subscribers (ℕ × TxFilter)
  pub header_crates : HeaderCrates
  pub errors_invalid_params : Bytes → Bytes → RpcError
  pub errors_unimplemented : RpcError

-- `pubsub::Kind`
pub data Kind : Type 0 where
  new_heads logs_kind new_pending_transactions completed_transaction syncing : Kind

-- `Option::is_some`
abbrev pub is_some : {A : Type 0} → Option A → Bool
is_some none = false
is_some (some a) = true

module _ (crates : PubSubCrates) where
  open crates use {
    TxFilter, TxEntry, tx_matches, transaction_hash, Log, log_from, heads_table, logs_table,
    txs_table, header_crates, errors_invalid_params, errors_unimplemented,
  }

  -- `pubsub::Params`, of which two variants are told apart.
  pub data Params : Type 0 where
    logs_params : Filter → Params
    transaction_params : TxFilter → Params
    other_params : Params

  -- `pubsub::Result`, as far as it is sent.
  pub data Sent : Type 0 where
    header : RichHeader → Sent
    log_sent : Log → Sent
    transaction_outcome : ℕ → Bytes → Sent

  -- The tables of an `EthPubSubClient`, which its `ChainNotificationHandler` shares.
  pub record EthPubSubClient : Type 0 where
    pub heads_subscribers : heads_table.Table
    pub logs_subscribers : logs_table.Table
    pub tx_subscribers : txs_table.Table

  -- `EthPubSubClient::new`
  unfoldable pub new : EthPubSubClient
  new = record {
    heads_subscribers = heads_table.default;
    logs_subscribers = logs_table.default;
    tx_subscribers = txs_table.default;
  }

  -- One header to each of the sinks.
  unfoldable pub send_header : RichHeader → List ℕ → List (ℕ × Sent)
  send_header h = map (λ (sink : ℕ). (sink, header h))

  -- Each of the headers to each of the sinks.
  unfoldable pub send_headers : List RichHeader → List ℕ → List (ℕ × Sent)
  unfolding send_header
  send_headers [] sinks = []
  send_headers (h ∷ hs) sinks = send_header h sinks ++ send_headers hs sinks

  -- The headers of the numbered blocks, unless one is not found.
  unfoldable pub collect_headers : Blockchain → List ℕ → Option (List RichHeader)
  collect_headers b [] = some []
  collect_headers b (n ∷ ns) =
      let rest = collect_headers b ns in
      Option.bind (get_block_by_number b.chain_state n)
        λ blk. Option.map (λ (hs : List RichHeader). rich_header header_crates blk ∷ hs) rest

  -- A failure to fetch is reported in the log only.
  unfoldable pub send_collected : Option (List RichHeader) → List ℕ → List (ℕ × Sent)
  unfolding send_headers
  send_collected none sinks = []
  send_collected (some headers) sinks = send_headers headers sinks

  -- `ChainNotificationHandler::notify_heads`
  unfoldable pub notify_heads : Blockchain → EthPubSubClient → ℕ → ℕ → List (ℕ × Sent)
  unfolding send_collected collect_headers
  notify_heads b client from_block to_block =
      if heads_table.is_empty client.heads_subscribers
      then []
      else send_collected (collect_headers b (range_inclusive from_block to_block))
          (heads_table.values client.heads_subscribers)

  -- The logs to one sink; a failure to fetch is reported in the log only.
  unfoldable pub send_logs : ℕ → Result BlockchainError (List LocalizedLogEntry) → List (ℕ × Sent)
  send_logs sink (ok logs) = map (λ log. (sink, log_sent (log_from log))) logs
  send_logs sink (err reason) = []
  send_logs sink panic = []

  -- A subscriber's filter, limited to a range.
  unfoldable pub limited : ℕ → ℕ → Filter → Filter
  limited from_block to_block filter = record filter {
    from_block = number from_block;
    to_block = number to_block;
  }

  module _ (core : Ethcore) (b : Blockchain) (from_block to_block : ℕ) where
    -- The loop of `notify_logs` over the subscribers.
    unfoldable pub notify_each : List (ℕ × Filter) → List (ℕ × Sent)
    unfolding send_logs limited
    notify_each [] = []
    notify_each ((sink, filter) ∷ subscribers) =
        send_logs sink (Queries.logs core b (limited from_block to_block filter))
        ++ notify_each subscribers

    -- `ChainNotificationHandler::notify_logs`
    unfoldable pub notify_logs : EthPubSubClient → List (ℕ × Sent)
    unfolding notify_each
    notify_logs client = notify_each (logs_table.values client.logs_subscribers)

    -- `ChainNotificationHandler::notify_blocks`
    unfoldable pub notify_blocks : EthPubSubClient → List (ℕ × Sent)
    unfolding notify_heads notify_logs
    notify_blocks client = notify_heads b client from_block to_block ++ notify_logs client

  -- The loop of `notify_completed_transaction` over the subscribers.
  unfoldable pub notify_matching : TxEntry → Bytes → List (ℕ × TxFilter) → List (ℕ × Sent)
  notify_matching entry output [] = []
  notify_matching entry output ((sink, filter) ∷ subscribers) =
      let rest = notify_matching entry output subscribers in
      if tx_matches filter entry
      then (sink, transaction_outcome (transaction_hash entry) output) ∷ rest
      else rest

  -- `ChainNotificationHandler::notify_completed_transaction`
  unfoldable pub notify_completed_transaction : EthPubSubClient → TxEntry → Bytes → List (ℕ × Sent)
  unfolding notify_matching
  notify_completed_transaction client entry output =
      notify_matching entry output (txs_table.values client.tx_subscribers)

  -- `EthPubSub::subscribe` for a sink: the error that the subscriber is rejected with, if any.
  unfoldable pub subscribe :
      EthPubSubClient → ℕ → Kind → Option Params → Option RpcError × EthPubSubClient
  subscribe client sink new_heads none =
      (none, record client { heads_subscribers = heads_table.push sink client.heads_subscribers })
  subscribe client sink new_heads (some _) =
      (some (errors_invalid_params (codes "newHeads") (codes "Expected no parameters.")), client)
  subscribe client sink logs_kind (some (logs_params filter)) = (
    none,
    record client { logs_subscribers = logs_table.push (sink, filter) client.logs_subscribers },
  )
  subscribe client sink logs_kind _ =
      (some (errors_invalid_params (codes "logs") (codes "Expected a filter object.")), client)
  subscribe client sink completed_transaction (some (transaction_params filter)) =
      (none, record client { tx_subscribers = txs_table.push (sink, filter) client.tx_subscribers })
  subscribe client sink new_pending_transactions _ = (some errors_unimplemented, client)
  subscribe client sink completed_transaction _ = (some errors_unimplemented, client)
  subscribe client sink syncing _ = (some errors_unimplemented, client)

  -- `EthPubSub::unsubscribe`
  unfoldable pub unsubscribe : EthPubSubClient → ℕ → Bool × EthPubSubClient
  unsubscribe client id =
      let (res, heads) = heads_table.remove id client.heads_subscribers in
      let (res2, logs) = logs_table.remove id client.logs_subscribers in
      let (res3, txs) = txs_table.remove id client.tx_subscribers in
      (
        is_some res || is_some res2 || is_some res3,
        record { heads_subscribers = heads; logs_subscribers = logs; tx_subscribers = txs },
      )
