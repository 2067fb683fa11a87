-- ===== src/Blockchain/Mine/Extension.antt =====
-- Mining a block keeps what every state of the chain satisfies (src/blockchain.rs).
use native.Mathlib.Decide.{ℕ_discrete}
use mathlib.Core.Option
use mathlib.Core.Option.{none-ne-some}
use oasis_chain.Prelude.{
  ℕ, suc, ◌^◌, ◌≤◌, ◌<◌, ◌≡◌, ◌≢◌, refl, ap, sym, subst, ◌∙◌, some, lookup, nat_eq,
  lookup-insert_self, lookup-insert_ne, arith,
}
use oasis_chain.Decimal.{to_string-injective}
use oasis_chain.Blockchain.Types.{
  SignedTransaction, LocalizedTransaction, EthereumBlock, ChainState, ApplyOutcome, Ethcore, Mkvs,
}
use oasis_chain.Blockchain.State.{Blockchain, get_block_by_number, block_hash, new_block}
use oasis_chain.Blockchain.Mine.{localize_txn, make_receipt, make_block, store_block}
use oasis_chain.Blockchain.Mine.Chain.{
  CollisionFree, IsBlock, IsIndexed, IsChain, localize_logs-own,
}

module _ (core : Ethcore) where
  block_hash-ne :
      (m n : ℕ)
      → CollisionFree core
      → m < 2 ^ 64
      → n < 2 ^ 64
      → m ≢ n
      → block_hash core m ≢ block_hash core n
  unfolding block_hash
  block_hash-ne m n free hm hn apart e = apart (to_string-injective m n (free m n hm hn e))

  module _ (free : CollisionFree core) (b : Blockchain) (valid : IsChain core b.chain_state)
      (small : suc b.chain_state.block_number < 2 ^ 64) (best : EthereumBlock)
      (is_best : IsBlock core b.chain_state.block_number best) (mkvs : Mkvs) (timestamp : ℕ)
      (txn : SignedTransaction) (outcome : ApplyOutcome) where
    abbrev c : ChainState
    c = b.chain_state

    abbrev number : ℕ
    number = suc c.block_number

    abbrev mined : EthereumBlock
    mined = make_block core b best number timestamp txn outcome

    abbrev next : ChainState
    next = store_block core b mkvs best number timestamp txn outcome

    mined-IsBlock : IsBlock core number mined
    unfolding make_block new_block
    mined-IsBlock = record {
      same_number = refl;
      same_hash = refl;
      linked = λ before e. is_best.same_hash ∙ ap (block_hash core) (omega arith);
      own_logs =
          localize_logs-own core number (block_hash core number) txn.hash 0 outcome.receipt.logs;
    }

    hash-old : (n : ℕ) → n ≤ c.block_number → block_hash core n ≢ block_hash core number
    hash-old n h = block_hash-ne n number free (omega arith) small (omega arith)

    number-old :
        (n : ℕ) → n ≢ number → lookup n next.block_number_to_hash ≡ lookup n c.block_number_to_hash
    unfolding store_block
    number-old n h = lookup-insert_ne n number (block_hash core number) c.block_number_to_hash h

    number-new : lookup number next.block_number_to_hash ≡ some (block_hash core number)
    unfolding store_block
    number-new = lookup-insert_self number (block_hash core number) c.block_number_to_hash

    block-old :
        (n : ℕ)
        → n ≤ c.block_number
        → lookup (block_hash core n) next.blocks ≡ lookup (block_hash core n) c.blocks
    unfolding store_block
    block-old n h =
        lookup-insert_ne (block_hash core n) (block_hash core number) mined c.blocks (hash-old n h)

    block-new : lookup (block_hash core number) next.blocks ≡ some mined
    unfolding store_block
    block-new = lookup-insert_self (block_hash core number) mined c.blocks

    -- Mining leaves every block before in its place.
    pub get_block-old :
        (n : ℕ) → n ≤ c.block_number → get_block_by_number next n ≡ get_block_by_number c n
    unfolding get_block_by_number Option.bind
    get_block-old n h = rw (number-old n (omega arith), valid.numbered n h) (block-old n h)

    pub get_block-new : get_block_by_number next number ≡ some mined
    unfolding get_block_by_number Option.bind
    get_block-new = rw number-new block-new

    pub new_entry : IsIndexed core next txn.hash (localize_txn core number txn)
    unfolding store_block localize_txn make_receipt make_block
    new_entry = (
      refl,
      omega arith,
      refl,
      mined,
      get_block-new,
      refl,
      make_receipt core number txn outcome,
      lookup-insert_self txn.hash (make_receipt core number txn outcome) c.receipts,
      refl,
      refl,
      refl,
    )

    old_entry :
        (hash : ℕ) (t : LocalizedTransaction)
        → hash ≢ txn.hash
        → IsIndexed core c hash t
        → IsIndexed core next hash t
    unfolding store_block
    old_entry hash t other (same, le, hashed, block, found, only, receipt, r, rh, rn, rl) = (
      same,
      omega arith,
      hashed,
      block,
      get_block-old t.block_number le ∙ found,
      only,
      receipt,
      lookup-insert_ne hash txn.hash _ c.receipts other ∙ r,
      rh,
      rn,
      rl,
    )

    same_transaction :
        {hash : ℕ} (t : LocalizedTransaction)
        → hash ≡ txn.hash
        → lookup hash next.transactions ≡ some t
        → t ≡ localize_txn core number txn
    unfolding store_block
    same_transaction {hash} t same e =
        let new : lookup txn.hash next.transactions ≡ some (localize_txn core number txn) =
          lookup-insert_self txn.hash (localize_txn core number txn) c.transactions in
        cc

    same_entry :
        (hash : ℕ) (t : LocalizedTransaction)
        → hash ≡ txn.hash
        → lookup hash next.transactions ≡ some t
        → IsIndexed core next hash t
    unfolding store_block
    same_entry hash t same e =
        let t_is : t ≡ localize_txn core number txn = same_transaction t same e in
        subst (λ (k : ℕ × LocalizedTransaction). IsIndexed core next k.0 k.1)
          (λ i. (sym same i, sym t_is i)) new_entry

    -- The state after a block has been stored.
    pub store_block-IsChain : IsChain core next
    unfolding store_block
    store_block-IsChain = record {
      numbered = λ n h. elim (ℕ_discrete n number) [
        | yes e ↦ rw e number-new
        | no old ↦ number-old n old ∙ valid.numbered n (omega arith)
      ];
      stored = λ n h. elim (ℕ_discrete n number) [
        | yes e ↦ rw e (mined, block-new, mined-IsBlock)
        | no old ↦
            let (block, found, good) = valid.stored n (omega arith) in
            (block, block-old n (omega arith) ∙ found, good)
      ];
      beyond = λ n h. number-old n (omega arith) ∙ valid.beyond n (omega arith);
      known = λ hash block e. elim (ℕ_discrete hash (block_hash core number)) [
        | yes same ↦ (number, omega arith, same)
        | no other ↦
            let (n, le, is) =
              valid.known hash block
                (sym (lookup-insert_ne hash (block_hash core number) mined c.blocks other) ∙ e) in
            (n, omega arith, is)
      ];
      indexed = λ hash t e. elim (ℕ_discrete hash txn.hash) [
        | yes same ↦ same_entry hash t same e
        | no other ↦ old_entry hash t other (
            valid.indexed hash t (
              sym
                (lookup-insert_ne hash txn.hash (localize_txn core number txn) c.transactions other)
              ∙ e))
      ];
    }
