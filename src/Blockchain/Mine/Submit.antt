-- ===== src/Blockchain/Mine/Submit.antt =====
-- What a submitted transaction does to the chain (src/blockchain.rs).
use oasis_chain.Prelude.{
  ℕ, suc, ◌^◌, ◌≤◌, ◌<◌, ◌≡◌, ◌≢◌, ◌⊎◌, refl, ap, sym, subst, ◌∙◌, inl, inr, Option, none, some,
  some-injective, Bytes, Result, ok, err, panic, ok-injective, lookup, nat_eq, lookup-insert_self,
  ltb, if-IsBoth, arith,
}
use oasis_chain.Words.{u64_add}
use oasis_chain.KeyManager.{MockClient}
use oasis_chain.Blockchain.Types.{
  TransactionOutcome, unknown, state_root, status_code, LocalizedTransaction, LocalizedReceipt,
  SignedTransaction, UnverifiedTransaction, EthereumBlock, ChainState, ApplyOutcome, Ethcore, Mkvs,
  BlockchainError, ExecutionResult,
}
use oasis_chain.Blockchain.State.{Blockchain, get_block_by_number}
use oasis_chain.Blockchain.Mine.{
  store_block, execute, execution_result, localize_txn, make_receipt, after_apply, mine_on,
  mine_block, send_verified, send_decoded, send_raw_transaction,
}
use oasis_chain.Blockchain.Mine.Chain.{CollisionFree, IsBlock, IsChain, block-found, IsIndexed}
use oasis_chain.Blockchain.Mine.Extension.{store_block-IsChain, new_entry, get_block-old}

abbrev pub Answer : Type 0
Answer = Result BlockchainError (ℕ × ExecutionResult) × Blockchain

module _ (core : Ethcore) (b : Blockchain) (timestamp : ℕ) where
  -- A block was mined for the transaction, on top of the best block.
  pub record Mined (answer : Answer) : Type 0 where
    pub best : EthereumBlock
    pub found : get_block_by_number b.chain_state b.chain_state.block_number ≡ some best
    pub txn : SignedTransaction
    pub outcome : ApplyOutcome
    pub mkvs : Mkvs
    pub result_is : answer.0 ≡ execution_result core txn.hash outcome outcome.receipt.outcome
    pub next_is :
        answer.1.chain_state
        ≡ store_block core b mkvs best (suc b.chain_state.block_number) timestamp txn outcome

  -- The chain's state is as it was, and the answer is an error.
  abbrev pub Unchanged : Answer → Type 0
  Unchanged answer =
      (answer.1.chain_state ≡ b.chain_state) × ((r : ℕ × ExecutionResult) → answer.0 ≢ ok r)

  abbrev pub Outcome : Answer → Type 0
  Outcome answer = Unchanged answer ⊎ Mined answer

  -- An answer's transaction is found in the new block, which is the best one, and so is the
  -- receipt, which says what the answer says.
  abbrev pub IsAnswered : ChainState → ℕ → ExecutionResult → Type 0
  IsAnswered next hash result =
      (next.block_number ≡ suc b.chain_state.block_number)
      × (txn : LocalizedTransaction) × (lookup hash next.transactions ≡ some txn)
      × (txn.block_number ≡ suc b.chain_state.block_number)
      × IsIndexed core next hash txn
      × (receipt : LocalizedReceipt) × (lookup hash next.receipts ≡ some receipt)
      × (receipt.gas_used ≡ result.gas_used)
      × (receipt.outcome ≡ status_code result.status_code)

  after_apply-Outcome :
      (best : EthereumBlock) (txn : SignedTransaction) (keys : MockClient)
      (outcome : Result Bytes (ApplyOutcome × Mkvs))
      → get_block_by_number b.chain_state b.chain_state.block_number ≡ some best
      → Outcome
          (after_apply core b best (suc b.chain_state.block_number) timestamp txn keys outcome)
  unfolding after_apply
  after_apply-Outcome best txn keys (ok (outcome, mkvs)) found = inr (record {
    best = best;
    found = found;
    txn = txn;
    outcome = outcome;
    mkvs = mkvs;
    result_is = refl;
    next_is = refl;
  })
  after_apply-Outcome best txn keys (err message) found = inl (refl, λ r e. cc)
  after_apply-Outcome best txn keys panic found = inl (refl, λ r e. cc)

  u64_add-suc : (n : ℕ) → suc n < 2 ^ 64 → u64_add n 1 ≡ suc n
  u64_add-suc n h = omega arith

  module _ (small : suc b.chain_state.block_number < 2 ^ 64) where
    mine_on-Outcome :
        (txn : SignedTransaction) (best : Option EthereumBlock)
        → get_block_by_number b.chain_state b.chain_state.block_number ≡ best
        → Outcome (mine_on core b timestamp txn best)
    unfolding mine_on
    mine_on-Outcome txn none found = inl (refl, λ r e. cc)
    mine_on-Outcome txn (some best) found =
        let applied = execute core b best (suc b.chain_state.block_number) timestamp txn in
        rw (u64_add-suc b.chain_state.block_number small)
          (after_apply-Outcome best txn applied.keys applied.outcome found)

    send_verified-Outcome :
        (txn : Option SignedTransaction) → Outcome (send_verified core b timestamp txn)
    unfolding send_verified mine_block
    send_verified-Outcome none = inl (refl, λ r e. cc)
    send_verified-Outcome (some txn) =
        if-IsBoth Outcome (ltb txn.gas_price b.gas_price) (inl (refl, λ r e. cc))
          (mine_on-Outcome txn _ refl)

    send_decoded-Outcome :
        (decoded : Option UnverifiedTransaction) → Outcome (send_decoded core b timestamp decoded)
    unfolding send_decoded
    send_decoded-Outcome none = inl (refl, λ r e. cc)
    send_decoded-Outcome (some decoded) =
        if-IsBoth Outcome (ltb b.block_gas_limit decoded.gas) (inl (refl, λ r e. cc))
          (send_verified-Outcome (core.verify decoded))

    -- A submission mines a block or leaves the chain's state as it was.
    pub send_raw_transaction-Outcome :
        (raw : Bytes) → Outcome (send_raw_transaction core b timestamp raw)
    unfolding send_raw_transaction
    send_raw_transaction-Outcome raw = send_decoded-Outcome (core.decode raw)

    module _ (free : CollisionFree core) (valid : IsChain core b.chain_state) where
      best-IsBlock :
          (best : EthereumBlock)
          → get_block_by_number b.chain_state b.chain_state.block_number ≡ some best
          → IsBlock core b.chain_state.block_number best
      best-IsBlock best found =
          let (block, same, good) =
            block-found core b.chain_state b.chain_state.block_number valid (omega arith) in
          subst (IsBlock core b.chain_state.block_number)
            (some-injective block best (sym same ∙ found)) good

      -- Whatever comes out of a submission, the chain is as it should be.
      pub send_raw_transaction-IsChain :
          (raw : Bytes) → IsChain core (send_raw_transaction core b timestamp raw).1.chain_state
      send_raw_transaction-IsChain raw = elim (send_raw_transaction-Outcome raw) [
        | inl (same, _) ↦ subst (IsChain core) (sym same) valid
        | inr mined ↦ subst (IsChain core) (sym mined.next_is) (
            store_block-IsChain core free b valid small mined.best
              (best-IsBlock mined.best mined.found) mined.mkvs timestamp mined.txn mined.outcome)
      ]

      -- A submission leaves every block that there is in its place.
      pub send_raw_transaction-keeps :
          (raw : Bytes) (n : ℕ)
          → n ≤ b.chain_state.block_number
          → get_block_by_number (send_raw_transaction core b timestamp raw).1.chain_state n
            ≡ get_block_by_number b.chain_state n
      send_raw_transaction-keeps raw n le = elim (send_raw_transaction-Outcome raw) [
        | inl (same, _) ↦ ap (λ (k : ChainState). get_block_by_number k n) same
        | inr mined ↦
            ap (λ (k : ChainState). get_block_by_number k n) mined.next_is
            ∙ get_block-old core free b valid small mined.best (best-IsBlock mined.best mined.found)
                mined.mkvs timestamp mined.txn mined.outcome n le
      ]

      -- A submission adds one block or none.
      pub send_raw_transaction-grows :
          (raw : Bytes)
          → let c = b.chain_state in
            let next = (send_raw_transaction core b timestamp raw).1.chain_state in
            (c.block_number ≤ next.block_number) × (next.block_number ≤ suc c.block_number)
      unfolding store_block
      send_raw_transaction-grows raw = elim (send_raw_transaction-Outcome raw) [
        | inl (same, _) ↦ rw same (omega arith, omega arith)
        | inr mined ↦ rw mined.next_is (omega arith, omega arith)
      ]

      execution_result-ok :
          (hash : ℕ) (outcome : ApplyOutcome) (status : TransactionOutcome)
          (r : ℕ × ExecutionResult)
          → execution_result core hash outcome status ≡ ok r
          → (r.0 ≡ hash)
            × (r.1.gas_used ≡ outcome.receipt.gas_used)
            × (status ≡ status_code r.1.status_code)
      unfolding execution_result
      execution_result-ok hash outcome (status_code code) r e =
          let q = ok-injective e in
          (
            ap (λ (k : ℕ × ExecutionResult). k.0) (sym q),
            ap (λ (k : ℕ × ExecutionResult). k.1.gas_used) (sym q),
            ap (λ (k : ℕ × ExecutionResult). status_code k.1.status_code) q,
          )
      execution_result-ok hash outcome unknown r e = cc
      execution_result-ok hash outcome (state_root _) r e = cc

      next-IsAnswered :
          (best : EthereumBlock) (mkvs : Mkvs) (txn : SignedTransaction) (outcome : ApplyOutcome)
          (result : ExecutionResult)
          → IsBlock core b.chain_state.block_number best
          → result.gas_used ≡ outcome.receipt.gas_used
          → outcome.receipt.outcome ≡ status_code result.status_code
          → IsAnswered
              (store_block core b mkvs best (suc b.chain_state.block_number) timestamp txn outcome)
              txn.hash
              result
      unfolding store_block make_receipt
      next-IsAnswered best mkvs txn outcome result good gas status =
          let number = suc b.chain_state.block_number in
          (
            refl,
            localize_txn core number txn,
            lookup-insert_self txn.hash (localize_txn core number txn) b.chain_state.transactions,
            refl,
            new_entry core free b valid small best good mkvs timestamp txn outcome,
            make_receipt core number txn outcome,
            lookup-insert_self txn.hash (make_receipt core number txn outcome)
                b.chain_state.receipts,
            sym gas,
            status,
          )

      answer-IsAnswered :
          (answer : Answer) (hash : ℕ) (result : ExecutionResult)
          → Mined answer
          → answer.0 ≡ ok (hash, result)
          → IsAnswered answer.1.chain_state hash result
      answer-IsAnswered answer hash result mined e =
          let (h, g, s) =
            execution_result-ok mined.txn.hash mined.outcome mined.outcome.receipt.outcome
              (hash, result) (sym mined.result_is ∙ e) in
          rw (mined.next_is, h)
            (next-IsAnswered mined.best mined.mkvs mined.txn mined.outcome result
              (best-IsBlock mined.best mined.found) g s)

      -- On a chain that is as it should be, below the last block number, with a hash without
      -- collisions on numbers: a submission that succeeds makes the chain one block longer, and
      -- under the hash that it answers with are found a transaction, which is the one of the new
      -- block, and a receipt that has the answer's gas and status code.
      pub send_raw_transaction-found :
          (raw : Bytes) (hash : ℕ) (result : ExecutionResult)
          → (send_raw_transaction core b timestamp raw).0 ≡ ok (hash, result)
          → IsAnswered (send_raw_transaction core b timestamp raw).1.chain_state hash result
      send_raw_transaction-found raw hash result e = elim (send_raw_transaction-Outcome raw) [
        | inl (_, failed) ↦ absurd (failed (hash, result) e)
        | inr mined ↦
            answer-IsAnswered (send_raw_transaction core b timestamp raw) hash result mined e
      ]
