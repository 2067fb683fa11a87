-- ===== src/Blockchain/Queries/Laws.antt =====
-- What the queries of src/blockchain.rs answer on a chain that is as it should be.
use oasis_chain.Prelude.{
  ℕ, zero, suc, ◌+◌, ◌-◌, ◌≤◌, ◌≡◌, inl, inr, refl, ap, sym, subst, ◌∙◌, Option, none, some,
  some-injective, List, [], ◌∷◌, ok, Result, ◌⊎◌, ok-injective, lookup, nat_eq, arith,
}
use mathlib.Core.Option
use mathlib.Core.Option.{none-ne-some}
use native.Mathlib.Decide.{dec_le}
use oasis_chain.Blockchain.Types.{
  BlockId, hash, number, latest, earliest, BlockchainError, LocalizedTransaction, LocalizedReceipt,
  EthereumBlock, Filter, Ethcore,
}
use oasis_chain.Blockchain.State.{Blockchain, get_block_by_number, block_hash}
use oasis_chain.Blockchain.Mine.Chain.{IsBlock, IsChain, block-found}
use oasis_chain.Blockchain.Queries.Sorted.{
  Ascends, Ascends-le, sort_by_number-Ascends, filter_logs-Ascends, append-Ascends,
}
use oasis_chain.Blockchain.Queries.{
  best_block_number, get_block_by_hash, get_txn_by_hash, get_txn_receipt_by_hash, get_latest_block,
  get_block, get_txn_by_number_and_index, get_txn_by_block_hash_and_index, get_txn, count_from,
  range_inclusive, get_blocks, flat_map_logs, filter_logs, logs,
}

-- A block of the chain.
pub IsOnChain : Ethcore → Blockchain → EthereumBlock → Type 0
IsOnChain core b block =
    (block.number ≤ b.chain_state.block_number) × IsBlock core block.number block

-- The identifier names the block with a number.
pub IsNamed : Ethcore → Blockchain → BlockId → ℕ → Type 0
IsNamed core b (hash h) n = h ≡ block_hash core n
IsNamed core b (number m) n = n ≡ m
IsNamed core b latest n = n ≡ b.chain_state.block_number
IsNamed core b earliest n = n ≡ 0

-- The block of the chain that the identifier names is found, and none where it names none.
abbrev pub IsLookedUp :
    Ethcore → Blockchain → BlockId → Result BlockchainError (Option EthereumBlock) → Type 0
IsLookedUp core b id answer =
    ((n : ℕ) × (n ≤ b.chain_state.block_number)
      × IsNamed core b id n
      × (block : EthereumBlock) × (answer ≡ ok (some block))
      × IsBlock core n block)
    ⊎ ((answer ≡ ok none) × ((n : ℕ) → n ≤ b.chain_state.block_number → ¬ IsNamed core b id n))

module _ (core : Ethcore) (b : Blockchain) (valid : IsChain core b.chain_state) where
  -- The best block is there.
  pub get_latest_block-IsBlock :
      (block : EthereumBlock) × (get_latest_block b ≡ ok block)
      × IsBlock core (best_block_number b) block
  unfolding get_latest_block
  get_latest_block-IsBlock =
      let (block, found, good) =
        block-found core b.chain_state b.chain_state.block_number valid (omega arith) in
      (block, rw found refl, good)

  -- The blocks of a range that the chain reaches are there, with logs in the order of the range.
  get_blocks-ok :
      (from count : ℕ)
      → from + count ≤ suc b.chain_state.block_number
      → (blocks : List EthereumBlock) × (get_blocks b (count_from from count) ≡ ok blocks)
        × Ascends from (flat_map_logs blocks)
  unfolding get_blocks count_from flat_map_logs Ascends
  get_blocks-ok from zero reach = ([], refl, tt)
  get_blocks-ok from (suc count) reach =
      let (block, found, good) = block-found core b.chain_state from valid (omega arith) in
      let (blocks, rest, ordered) = get_blocks-ok (suc from) count (omega arith) in
      (
        block ∷ blocks,
        rw (found, rest) refl,
        append-Ascends from (block_hash core from) block.logs (flat_map_logs blocks) good.own_logs
            (Ascends-le from (suc from) (flat_map_logs blocks) (omega arith) ordered),
      )

  pub range-found :
      (from to : ℕ)
      → from ≤ to
      → to ≤ b.chain_state.block_number
      → (blocks : List EthereumBlock) × (get_blocks b (range_inclusive from to) ≡ ok blocks)
  unfolding range_inclusive
  range-found from to le top =
      let (blocks, there, _) = get_blocks-ok from (suc to - from) (omega arith) in (blocks, there)

  found-IsOnChain :
      (n : ℕ) (block : EthereumBlock)
      → get_block_by_number b.chain_state n ≡ some block
      → IsOnChain core b block
  unfolding IsOnChain get_block_by_number Option.bind
  found-IsOnChain n block e = elim (dec_le n b.chain_state.block_number) [
    | yes le ↦
        let (known, found, good) = block-found core b.chain_state n valid le in
        let same = some-injective known block (sym found ∙ e) in
        let here : IsBlock core n block = subst (IsBlock core n) same good in
        subst (λ (k : ℕ). (k ≤ b.chain_state.block_number) × IsBlock core k block)
          (sym here.same_number) (le, here)
    | no far ↦
        let gone = valid.beyond n (omega arith) in
        let e' = rw gone at e in absurd (none-ne-some block e')
  ]

  hash-IsOnChain :
      (h : ℕ) (block : EthereumBlock) → get_block_by_hash b h ≡ some block → IsOnChain core b block
  unfolding get_block_by_number Option.bind
  hash-IsOnChain h block e =
      let (n, le, is) = valid.known h block e in
      found-IsOnChain n block
        (rw (valid.numbered n le) (ap (λ (k : ℕ). lookup k b.chain_state.blocks) (sym is) ∙ e))

  -- On a chain that is as it should be, a block that any identifier finds has a number up to the
  -- best one and is the well-formed block of that number.
  pub get_block-IsOnChain :
      (id : BlockId) (block : EthereumBlock)
      → get_block b id ≡ ok (some block)
      → IsOnChain core b block
  unfolding get_block get_latest_block
  get_block-IsOnChain (hash h) block e = hash-IsOnChain h block (ok-injective e)
  get_block-IsOnChain (number n) block e = found-IsOnChain n block (ok-injective e)
  get_block-IsOnChain latest block e =
      let (best, found, good) =
        block-found core b.chain_state b.chain_state.block_number valid (omega arith) in
      let e' = rw found at e in
      found-IsOnChain b.chain_state.block_number block (found ∙ ok-injective e')
  get_block-IsOnChain earliest block e = found-IsOnChain 0 block (ok-injective e)

  hash_is_named :
      (h : ℕ) (found : Option EthereumBlock)
      → get_block_by_hash b h ≡ found
      → IsLookedUp core b (hash h) (ok found)
  unfolding IsNamed
  hash_is_named h none gone = inr (
    refl,
    λ n le is.
        let (block, found, _) = valid.stored n le in
        none-ne-some block (sym gone ∙ ap (λ (k : ℕ). get_block_by_hash b k) is ∙ found),
  )
  hash_is_named h (some block) e =
      let (n, le, is) = valid.known h block e in
      let (stored, found, good) = valid.stored n le in
      let same : stored ≡ block =
        some-injective stored block
          (sym found ∙ ap (λ (k : ℕ). get_block_by_hash b k) (sym is) ∙ e) in
      inl (n, le, is, block, refl, subst (IsBlock core n) same good)

  number_is_named :
      (m : ℕ) → IsLookedUp core b (number m) (ok (get_block_by_number b.chain_state m))
  unfolding get_block_by_number Option.bind IsNamed
  number_is_named m = elim (dec_le m b.chain_state.block_number) [
    | yes le ↦
        let (block, found, good) = block-found core b.chain_state m valid le in
        inl (m, le, refl, block, ap ok found, good)
    | no far ↦ inr (rw (valid.beyond m (omega arith)) refl, λ n le same. far (omega arith))
  ]

  -- On a chain that is as it should be, looking up a block by any identifier neither fails nor
  -- panics: it finds a well-formed block of the chain exactly where the identifier is the latest,
  -- the earliest, a number up to the best one, or the hash of the block with such a number;
  -- otherwise it finds none.
  pub get_block-ok : (id : BlockId) → IsLookedUp core b id (get_block b id)
  unfolding get_block IsNamed
  get_block-ok (hash h) = hash_is_named h (get_block_by_hash b h) refl
  get_block-ok (number n) = number_is_named n
  get_block-ok latest =
      let (block, found, good) = get_latest_block-IsBlock in
      inl (b.chain_state.block_number, omega arith, refl, block, rw found refl, good)
  get_block-ok earliest =
      let (block, found, good) = block-found core b.chain_state 0 valid (omega arith) in
      inl (0, omega arith, refl, block, ap ok found, good)

  -- On a chain that is as it should be, when both ends of a filter find a block, the query answers:
  -- with the logs that match, of the blocks from the one number to the other, in the order of the
  -- blocks and of the logs in them. Those blocks are all there, and the sort changes nothing.
  pub logs-ok :
      (filter : Filter) (from to : EthereumBlock)
      → get_block b filter.from_block ≡ ok (some from)
      → get_block b filter.to_block ≡ ok (some to)
      → (blocks : List EthereumBlock) × (get_blocks b (range_inclusive from.number to.number)
          ≡ ok blocks)
        × (logs core b filter
            ≡ ok (
                filter_logs
                  (core.filter_matches filter.addresses filter.topics)
                  (flat_map_logs blocks)))
  unfolding logs range_inclusive IsOnChain
  logs-ok filter from to at_from at_to =
      let (le, _) = get_block-IsOnChain filter.from_block from at_from in
      let (le', _) = get_block-IsOnChain filter.to_block to at_to in
      let (blocks, found, ordered) =
        get_blocks-ok from.number (suc to.number - from.number) (omega arith) in
      (
        blocks,
        found,
        rw (at_from, at_to, found)
            (ap ok (
              sort_by_number-Ascends from.number _ (
                filter_logs-Ascends (core.filter_matches filter.addresses filter.topics) from.number
                  _ ordered))),
      )

  -- On a chain that is as it should be, a transaction that is found by its hash is also found at
  -- index 0 of its block, by the block's number and by the block's hash, and it has a receipt with
  -- its hash and block number.
  pub txn-IsFound :
      (h : ℕ) (txn : LocalizedTransaction)
      → get_txn_by_hash b h ≡ some txn
      → (get_txn b (number txn.block_number) 0 ≡ some txn)
        × (get_txn b (hash txn.block_hash) 0 ≡ some txn)
        × (receipt : LocalizedReceipt) × (get_txn_receipt_by_hash b h ≡ some receipt)
        × (receipt.transaction_hash ≡ h)
        × (receipt.block_number ≡ txn.block_number)
  unfolding get_txn get_txn_by_number_and_index get_txn_by_block_hash_and_index Option.bind
      get_block_by_number
  txn-IsFound h txn e =
      let (_, le, hashed, block, found, only, receipt, r, rh, rn, _) = valid.indexed h txn e in
      let (n_block, n_found, _) = valid.stored txn.block_number le in
      let n_hash = valid.numbered txn.block_number le in
      let only' : n_block.transactions ≡ txn ∷ [] =
        ap (λ (k : EthereumBlock). k.transactions)
          (some-injective n_block block (rw (n_hash, n_found) at found))
        ∙ only in
      (rw (n_hash, n_found, only') refl, simp (hashed, n_found, only'), receipt, r, rh, rn)
