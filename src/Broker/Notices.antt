-- ===== src/Broker/Notices.antt =====
-- The calls of `notify_blocks` that one listener gets (src/pubsub.rs).
use oasis_chain.Prelude.{
  ℕ, suc, ◌^◌, ◌≤◌, ◌<◌, ◌≡◌, refl, ap, sym, ◌∙◌, inl, inr, List, [], ◌∷◌, Bool, true, false,
  Bool-cases, leb, if◌then◌else◌, ◌==◌, ==_iff, arith,
}
use oasis_chain.Words.{u64_add}
use oasis_chain.Broker.{Broker, Notice, notify, tick}
use oasis_chain.Broker.Coverage.{times}

-- The ranges that a listener is told of, in order.
unfoldable pub ranges_of : ℕ → List Notice → List (ℕ × ℕ)
ranges_of l [] = []
ranges_of l (n ∷ ns) =
    let rest = ranges_of l ns in if n.listener == l then (n.from_block, n.to_block) ∷ rest else rest

ranges_of-notify_none :
    (alive : ℕ → Bool) (l : ℕ) (ls : List ℕ) (from to : ℕ)
    → times l ls ≡ 0
    → ranges_of l (notify alive ls from to) ≡ []
unfolding ranges_of notify times
ranges_of-notify_none alive l [] from to e = refl
ranges_of-notify_none alive l (k ∷ ls) from to e =
    ground (arith, ranges_of-notify_none alive l ls from to)

ranges_of-notify :
    (alive : ℕ → Bool) (l : ℕ) (ls : List ℕ) (from to : ℕ)
    → alive l ≡ true
    → times l ls ≡ 1
    → ranges_of l (notify alive ls from to) ≡ (from, to) ∷ []
unfolding ranges_of notify times
ranges_of-notify alive l [] from to a e = absurd (omega arith)
ranges_of-notify alive l (k ∷ ls) from to a e = elim (Bool-cases (k == l)) [
  | inl it ↦
      let up : alive k ≡ true = ap alive ((==_iff k l).0 it) ∙ a in
      let others : times l ls ≡ 0 = omega (arith, rw it at e) in
      rw (up, it, ranges_of-notify_none alive l ls from to others) refl
  | inr other ↦ elim (Bool-cases (alive k)) [
    | inl up ↦ rw (up, other) (ranges_of-notify alive l ls from to a (rw other at e))
    | inr down ↦ rw down (ranges_of-notify alive l ls from to a (rw other at e))
  ]
]

-- A live listener that is registered once gets one call at a tick that finds new blocks.
pub ranges_of-tick :
    (l : ℕ) (alive : ℕ → Bool) (to : ℕ) (broker : Broker)
    → times l broker.listeners ≡ 1
    → alive l ≡ true
    → broker.last_notified_block < to
    → to < 2 ^ 64
    → let (notices, broker') = tick alive to broker in
      (ranges_of l notices ≡ (suc broker.last_notified_block, to) ∷ [])
      × (broker'.last_notified_block ≡ to)
      × (broker'.listeners ≡ broker.listeners)
unfolding tick
ranges_of-tick l alive to broker once a new small =
    let first : u64_add broker.last_notified_block 1 ≡ suc broker.last_notified_block =
      omega arith in
    let later : leb to broker.last_notified_block ≡ false = ground arith in
    rw later (
      rw first
          (ranges_of-notify alive l broker.listeners (suc broker.last_notified_block) to a once),
      refl,
      refl,
    )

-- A tick that finds no new block does nothing.
pub tick-idle :
    (alive : ℕ → Bool) (to : ℕ) (broker : Broker)
    → to ≤ broker.last_notified_block
    → tick alive to broker ≡ ([], broker)
unfolding tick
tick-idle alive to broker old =
    let none : leb to broker.last_notified_block ≡ true = ground arith in rw none refl

ranges_of-notify_dead :
    (alive : ℕ → Bool) (l : ℕ) (ls : List ℕ) (from to : ℕ)
    → alive l ≡ false
    → ranges_of l (notify alive ls from to) ≡ []
unfolding ranges_of notify
ranges_of-notify_dead alive l [] from to dead = refl
ranges_of-notify_dead alive l (k ∷ ls) from to dead = elim (Bool-cases (alive k)) [
  | inl up ↦ elim (Bool-cases (k == l)) [
    | inl it ↦
        let down : alive k ≡ false = ap alive ((==_iff k l).0 it) ∙ dead in
        let conflict = sym up ∙ down in cc
    | inr other ↦ rw (up, other) (ranges_of-notify_dead alive l ls from to dead)
  ]
  | inr down ↦ rw down (ranges_of-notify_dead alive l ls from to dead)
]

-- A listener that is dropped is told of nothing.
pub ranges_of-dead :
    (l : ℕ) (alive : ℕ → Bool) (to : ℕ) (broker : Broker)
    → alive l ≡ false
    → ranges_of l (tick alive to broker).0 ≡ []
unfolding tick ranges_of
ranges_of-dead l alive to broker dead = elim (Bool-cases (leb to broker.last_notified_block)) [
  | inl old ↦ rw old refl
  | inr new ↦ rw new (ranges_of-notify_dead alive l broker.listeners _ to dead)
]

-- A tick registers no listener and drops none.
pub tick-listeners :
    (alive : ℕ → Bool) (to : ℕ) (broker : Broker)
    → (tick alive to broker).1.listeners ≡ broker.listeners
unfolding tick
tick-listeners alive to broker = elim (Bool-cases (leb to broker.last_notified_block)) [
  | inl old ↦ rw old refl
  | inr new ↦ rw new refl
]
