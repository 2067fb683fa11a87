-- ===== src/Broker/Tests.antt =====
-- The theorem on the broker at some ticks.
use oasis_chain.Prelude.{ℕ, ◌≡◌, refl, List, [], ◌∷◌, Bool, true, ◌==◌, not}
use oasis_chain.Blockchain.Queries.{count_from, range_inclusive}
use oasis_chain.Broker.{Broker, new, add_listener, tick, ticks}
use oasis_chain.Broker.Coverage.{heard}

abbrev broker : Broker
broker = record { last_notified_block = 1; listeners = 7 ∷ 8 ∷ [] }

-- Listener 8 is gone at the second tick; the third finds no new block.
abbrev heights : List ((ℕ → Bool) × ℕ)
heights = (λ l. true, 3) ∷ (λ l. not (l == 8), 4) ∷ (λ l. true, 4) ∷ []

after_two : (add_listener 8 (add_listener 7 new)).listeners ≡ broker.listeners
unfolding add_listener
after_two = refl

heard_by_8 : heard 8 (ticks heights broker).0 ≡ 2 ∷ 3 ∷ []
unfolding heard ticks tick range_inclusive count_from
heard_by_8 = refl
