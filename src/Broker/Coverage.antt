-- ===== src/Broker/Coverage.antt =====
-- Which blocks a listener of the broker hears of (src/pubsub.rs).
use oasis_chain.Prelude.{
  ℕ, zero, suc, ◌+◌, ◌-◌, ◌^◌, ◌≤◌, ◌<◌, ◌≡◌, refl, ap, sym, ◌∙◌, inl, inr, List, [], ◌∷◌, ◌++◌,
  append_assoc, append-nil, All, Bool, true, Bool-cases, leb, if◌then◌else◌, ◌==◌, ==_iff, arith,
}
use oasis_chain.Words.{u64_add}
use oasis_chain.Blockchain.Queries.{range_inclusive, count_from}
use oasis_chain.Broker.{Broker, Notice, notify, tick, ticks}

-- The numbers of the blocks that a listener is told of, in order.
unfoldable pub heard : ℕ → List Notice → List ℕ
heard l [] = []
heard l (n ∷ ns) =
    let rest = heard l ns in
    if n.listener == l then range_inclusive n.from_block n.to_block ++ rest else rest

-- How often a listener is registered.
unfoldable pub times : ℕ → List ℕ → ℕ
times l [] = 0
times l (k ∷ ks) = let rest = times l ks in if k == l then suc rest else rest

heard-append : (l : ℕ) (xs ys : List Notice) → heard l (xs ++ ys) ≡ heard l xs ++ heard l ys
unfolding heard
heard-append l [] ys = refl
heard-append l (x ∷ xs) ys = elim (Bool-cases (x.listener == l)) [
  | inl it ↦
      rw (it, heard-append l xs ys)
        (sym (append_assoc (range_inclusive x.from_block x.to_block) (heard l xs) (heard l ys)))
  | inr other ↦ rw other (heard-append l xs ys)
]

heard-notify_none :
    (alive : ℕ → Bool) (l : ℕ) (ls : List ℕ) (from to : ℕ)
    → times l ls ≡ 0
    → heard l (notify alive ls from to) ≡ []
unfolding heard notify times
heard-notify_none alive l [] from to e = refl
heard-notify_none alive l (k ∷ ls) from to e = elim (Bool-cases (k == l)) [
  | inl it ↦ absurd (omega (arith, rw it at e))
  | inr other ↦ elim (Bool-cases (alive k)) [
    | inl up ↦ rw (up, other) (heard-notify_none alive l ls from to (rw other at e))
    | inr down ↦ rw down (heard-notify_none alive l ls from to (rw other at e))
  ]
]

heard-notify :
    (alive : ℕ → Bool) (l : ℕ) (ls : List ℕ) (from to : ℕ)
    → alive l ≡ true
    → times l ls ≡ 1
    → heard l (notify alive ls from to) ≡ range_inclusive from to
unfolding heard notify times
heard-notify alive l [] from to a e = absurd (omega arith)
heard-notify alive l (k ∷ ls) from to a e = elim (Bool-cases (k == l)) [
  | inl it ↦
      let same : k ≡ l = (==_iff k l).0 it in
      let up : alive k ≡ true = ap alive same ∙ a in
      let others : times l ls ≡ 0 = omega (arith, rw it at e) in
      rw (up, it, heard-notify_none alive l ls from to others)
        (append-nil (range_inclusive from to))
  | inr other ↦ elim (Bool-cases (alive k)) [
    | inl up ↦ rw (up, other) (heard-notify alive l ls from to a (rw other at e))
    | inr down ↦ rw down (heard-notify alive l ls from to a (rw other at e))
  ]
]

count_from-append : (n k m : ℕ) → count_from n (k + m) ≡ count_from n k ++ count_from (n + k) m
unfolding count_from
count_from-append n zero m =
    let nothing : 0 + m ≡ m = omega arith in
    let here : n + 0 ≡ n = omega arith in rw (nothing, here) refl
count_from-append n (suc k) m =
    let one : suc k + m ≡ suc (k + m) = omega arith in
    let next : n + suc k ≡ suc n + k = omega arith in
    rw (one, next) (ap (λ (ns : List ℕ). n ∷ ns) (count_from-append (suc n) k m))

-- A tick has a height that is a block number, and finds the listener alive.
abbrev pub IsHeard : ℕ → (ℕ → Bool) × ℕ → Type 0
IsHeard l (alive, to) = (alive l ≡ true) × (to < 2 ^ 64)

tick-heard :
    (l : ℕ) (alive : ℕ → Bool) (to : ℕ) (broker : Broker)
    → times l broker.listeners ≡ 1
    → alive l ≡ true
    → to < 2 ^ 64
    → let (notices, broker') = tick alive to broker in
      (heard l notices
        ≡ count_from
            (suc broker.last_notified_block)
            (broker'.last_notified_block - broker.last_notified_block))
      × (broker.last_notified_block ≤ broker'.last_notified_block)
      × (to ≤ broker'.last_notified_block)
      × (broker'.listeners ≡ broker.listeners)
unfolding tick heard range_inclusive count_from
tick-heard l alive to broker once a small = elim (Bool-cases (leb to broker.last_notified_block)) [
  | inl old ↦
      let nothing : broker.last_notified_block - broker.last_notified_block ≡ 0 = omega arith in
      rw old (rw nothing refl, omega arith, ground arith, refl)
  | inr new ↦
      let above : broker.last_notified_block < to = ground arith in
      let first : u64_add broker.last_notified_block 1 ≡ suc broker.last_notified_block =
        omega arith in
      let count : suc to - suc broker.last_notified_block ≡ to - broker.last_notified_block =
        omega arith in
      rw new (
        rw first (heard-notify alive l broker.listeners _ to a once)
            ∙ ap (count_from (suc broker.last_notified_block)) count,
        omega arith,
        omega arith,
        refl,
      )
]

-- After any ticks, a listener that is registered once and is alive at all of them has been told of
-- every block after the last one notified before, up to the last one notified now, each once and in
-- order; and that is as high as any of the ticks' latest blocks, which are below 2 ^ 64.
pub heard-ticks :
    (l : ℕ) (hs : List ((ℕ → Bool) × ℕ)) (broker : Broker)
    → times l broker.listeners ≡ 1
    → All (IsHeard l) hs
    → let (notices, broker') = ticks hs broker in
      (heard l notices
        ≡ count_from
            (suc broker.last_notified_block)
            (broker'.last_notified_block - broker.last_notified_block))
      × (broker.last_notified_block ≤ broker'.last_notified_block)
      × All (λ (h : (ℕ → Bool) × ℕ). h.1 ≤ broker'.last_notified_block) hs
unfolding ticks tick heard count_from
heard-ticks l [] broker once good =
    let nothing : broker.last_notified_block - broker.last_notified_block ≡ 0 = omega arith in
    (rw nothing refl, omega arith, tt)
heard-ticks l ((alive, to) ∷ hs) broker once ((a, small), good) =
    let next = (tick alive to broker).1 in
    let (now, up, reached, same) = tick-heard l alive to broker once a small in
    let (later, up', all) = heard-ticks l hs next (ap (times l) same ∙ once) good in
    let last = (ticks hs next).1 in
    let whole : (next.last_notified_block - broker.last_notified_block)
          + (last.last_notified_block - next.last_notified_block)
        ≡ last.last_notified_block - broker.last_notified_block =
      omega arith in
    let joint : suc broker.last_notified_block
          + (next.last_notified_block - broker.last_notified_block)
        ≡ suc next.last_notified_block =
      omega arith in
    let split =
      count_from-append (suc broker.last_notified_block)
        (next.last_notified_block - broker.last_notified_block)
        (last.last_notified_block - next.last_notified_block) in
    (
      heard-append l (tick alive to broker).0 (ticks hs next).0
          ∙ rw (now, later) (sym (rw (whole, joint) at split)),
      omega arith,
      (omega arith, all),
    )
