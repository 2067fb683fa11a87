-- ===== src/System/Holds.antt =====
-- What holds of a handler and its subscribers after every step (src/blockchain.rs, src/pubsub.rs,
-- src/impls/eth_pubsub.rs).
use oasis_chain.Prelude.{
  ℕ, ◌-◌, ◌≤◌, ◌≡◌, refl, ap, sym, subst, ◌∙◌, Bool, true, false, Bool-cases, inl, inr, List, [],
  map, ok, ok-injective, arith,
}
use oasis_chain.Blockchain.{Blockchain, Ethcore, Filter, EthereumBlock}
use oasis_chain.Blockchain.Mine.Chain.{CollisionFree}
use oasis_chain.Blockchain.Queries.{
  best_block_number, get_blocks, count_from, filter_logs, flat_map_logs,
}
use oasis_chain.Blockchain.Queries.Ranges.{matching}
use oasis_chain.Blockchain.Rendering.{RichHeader, rich_header}
use oasis_chain.Broker.{Broker}
use oasis_chain.EthPubSub.{PubSubCrates, EthPubSubClient}
use oasis_chain.EthPubSub.Delivery.{logs_to}
use oasis_chain.EthPubSub.Heads.{headers_to, heads-IsTold}
use oasis_chain.EthPubSub.Relay.{logs-IsTold}
use oasis_chain.System.{
  System, initial, IsSubscribed, ticked, Step, submit, tick, drop_handler, subscribe, Reach, here,
  next,
}
use oasis_chain.System.Steps.{
  HasTold, IsSound, submit-IsSound, submit-HasTold, tick-HasTold, tick-HasTold_dead, tick-IsSound,
  tick-reaches,
}

module _ (crates : PubSubCrates) (core : Ethcore) where
  module _ (sink : ℕ) (filter : Filter) where
    abbrev pub logs_of : List EthereumBlock → List crates.Log
    logs_of blocks = map crates.log_from (matching core filter blocks)

    abbrev pub heads_of : List EthereumBlock → List RichHeader
    heads_of blocks = map (rich_header crates.header_crates) blocks

    -- The sink was sent the headers and the matching logs of the blocks from 1 to some number.
    abbrev pub IsSentUpTo : ℕ → System crates → Type 0
    IsSentUpTo last s =
        (blocks : List EthereumBlock) × (get_blocks s.chain (count_from 1 last) ≡ ok blocks)
        × (headers_to crates sink s.sent ≡ heads_of blocks)
        × (logs_to crates sink s.sent ≡ logs_of blocks)

  module _ (free : CollisionFree core) (listener : ℕ) where
    module _ (sink : ℕ) (filter : Filter) where
      -- What was sent goes up to some block, which is the last one notified while the handler is there.
      pub record Holds (s : System crates) : Type 0 where
        pub sound : IsSound crates core listener s
        pub subscribed : IsSubscribed crates core sink filter s.client
        pub last : ℕ
        pub within : last ≤ s.broker.last_notified_block
        pub current : s.is_alive ≡ true → last ≡ s.broker.last_notified_block
        pub heads : HasTold crates core (headers_to crates sink) (heads_of sink filter) last s
        pub logs : HasTold crates core (logs_to crates sink) (logs_of sink filter) last s

      -- A tick that the handler is alive at: it catches up.
      pub alive-Holds :
          (s : System crates) (alive : ℕ → Bool)
          → alive listener ≡ true
          → s.is_alive ≡ true
          → Holds s
          → Holds (ticked crates core listener alive s)
      alive-Holds s alive up is_there h =
          let notified = s.broker.last_notified_block in
          let now = h.current is_there in
          record {
            sound = tick-IsSound crates core free listener s alive h.sound;
            subscribed = h.subscribed;
            last = (ticked crates core listener alive s).broker.last_notified_block;
            within = omega arith;
            current = λ e. refl;
            heads =
                tick-HasTold crates core free listener (headers_to crates sink)
                  (heads_of sink filter) s alive
                  (heads-IsTold crates core s.client sink h.subscribed.heads) h.sound up
                  (subst
                    (λ (k : ℕ).
                      HasTold crates core (headers_to crates sink) (heads_of sink filter) k s)
                    now h.heads);
            logs =
                tick-HasTold crates core free listener (logs_to crates sink) (logs_of sink filter) s
                  alive (logs-IsTold crates core s.client sink filter h.subscribed.logs) h.sound up
                  (subst
                    (λ (k : ℕ). HasTold crates core (logs_to crates sink) (logs_of sink filter) k s)
                    now h.logs);
          }

      -- A tick after the handler was dropped: nothing is sent.
      dead-Holds :
          (s : System crates) (alive : ℕ → Bool)
          → alive listener ≡ false
          → s.is_alive ≡ false
          → Holds s
          → Holds (ticked crates core listener alive s)
      dead-Holds s alive dead gone h =
          let reached = tick-reaches alive (best_block_number s.chain) s.broker h.sound.notified in
          record {
            sound = tick-IsSound crates core free listener s alive h.sound;
            subscribed = h.subscribed;
            last = h.last;
            within = omega (arith, h.within, h.sound.notified, reached);
            current = λ e. let conflict = sym gone ∙ e in absurd (cc);
            heads =
                tick-HasTold_dead crates core free listener (headers_to crates sink)
                  (heads_of sink filter) s alive h.last dead h.heads;
            logs =
                tick-HasTold_dead crates core free listener (logs_to crates sink)
                  (logs_of sink filter) s alive h.last dead h.logs;
          }

      Step-Holds :
          {s t : System crates} → Step crates core listener sink filter s t → Holds s → Holds t
      Step-Holds (submit s timestamp raw room) h =
          let top : h.last ≤ best_block_number s.chain =
            omega (arith, h.within, h.sound.notified) in
          record {
            sound = submit-IsSound crates core free listener s timestamp raw room h.sound;
            subscribed = h.subscribed;
            last = h.last;
            within = h.within;
            current = h.current;
            heads =
                submit-HasTold crates core free listener (headers_to crates sink)
                  (heads_of sink filter) s timestamp raw h.last room h.sound top h.heads;
            logs =
                submit-HasTold crates core free listener (logs_to crates sink) (logs_of sink filter)
                  s timestamp raw h.last room h.sound top h.logs;
          }
      Step-Holds (tick s alive same) h = elim (Bool-cases s.is_alive) [
        | inl is_there ↦ alive-Holds s alive (same ∙ is_there) is_there h
        | inr gone ↦ dead-Holds s alive (same ∙ gone) gone h
      ]
      Step-Holds (drop_handler s) h = record {
        sound = record {
          valid = h.sound.valid;
          small = h.sound.small;
          notified = h.sound.notified;
          once = h.sound.once;
        };
        subscribed = h.subscribed;
        last = h.last;
        within = h.within;
        current = λ e. absurd (cc);
        heads = h.heads;
        logs = h.logs;
      }
      Step-Holds (subscribe s client subscribed) h = record {
        sound = record {
          valid = h.sound.valid;
          small = h.sound.small;
          notified = h.sound.notified;
          once = h.sound.once;
        };
        subscribed = subscribed;
        last = h.last;
        within = h.within;
        current = h.current;
        heads = h.heads;
        logs = h.logs;
      }

      pub Reach-Holds :
          {s t : System crates} → Holds s → Reach crates core listener sink filter s t → Holds t
      Reach-Holds h here = h
      Reach-Holds h (next r step) = Step-Holds step (Reach-Holds h r)

      pub initial-Holds :
          (chain : Blockchain) (broker : Broker) (client : EthPubSubClient crates)
          → IsSound crates core listener (initial crates core chain broker client)
          → broker.last_notified_block ≡ 0
          → IsSubscribed crates core sink filter client
          → Holds (initial crates core chain broker client)
      unfolding count_from get_blocks headers_to logs_to matching filter_logs flat_map_logs
      initial-Holds chain broker client sound nothing subscribed = record {
        sound = sound;
        subscribed = subscribed;
        last = 0;
        within = omega arith;
        current = λ e. sym nothing;
        heads = ([], refl, refl);
        logs = ([], refl, refl);
      }

      pub Holds-IsSent : (s : System crates) (h : Holds s) → IsSentUpTo sink filter h.last s
      Holds-IsSent s h =
          let (blocks, there, heads) = h.heads in
          let (blocks', there', logs) = h.logs in
          let same : blocks' ≡ blocks = ok-injective (sym there' ∙ there) in
          let whole : h.last - 0 ≡ h.last = omega arith in
          (
            blocks,
            ap (λ (k : ℕ). get_blocks s.chain (count_from 1 k)) (sym whole) ∙ there,
            heads,
            logs ∙ ap (logs_of sink filter) same,
          )
