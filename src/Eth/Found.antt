-- ===== src/Eth/Found.antt =====
-- What the `eth_` handlers answer after a submission (src/impls/eth.rs, src/blockchain.rs).
use oasis_chain.Prelude.{
  ℕ, suc, ◌^◌, ◌<◌, ◌≡◌, refl, ap, sym, subst, ◌∙◌, some, [], ◌∷◌, Bytes, false, Result, ok, err,
  panic, ok-injective,
}
use oasis_chain.Util.{latest_block, block_number_to_id}
use oasis_chain.Blockchain.{
  Blockchain, Ethcore, BlockchainError, LocalizedTransaction, LocalizedReceipt, number,
  ExecutionResult, get_block_by_number,
}
use oasis_chain.Blockchain.Mine
use oasis_chain.Blockchain.Mine.Chain.{CollisionFree, IsChain}
use oasis_chain.Blockchain.Mine.Submit.{send_raw_transaction-found, send_raw_transaction-IsChain}
use oasis_chain.Blockchain.Queries.{get_txn, get_txn_by_hash, get_block, get_latest_block}
use oasis_chain.Blockchain.Queries.Laws.{txn-IsFound}
use oasis_chain.Blockchain.Rendering.{
  RichBlock, rich_header, rich_block, hashes, block_transactions,
}
use oasis_chain.Eth.{
  ParityRpc, block_number, transaction_by_hash, transaction_by_block_hash_and_index,
  transaction_by_block_number_and_index, transaction_receipt, block_transaction_count_by_number,
  block_by_number, send_raw_transaction, sent, answer, rich, transactions_len, as_u32,
}

module _ (rpc : ParityRpc) where
  -- What the handlers answer on a chain whose best block is the one of a transaction.
  pub record IsFound (next : Blockchain) (hash : ℕ) : Type 0 where
    pub txn : LocalizedTransaction
    pub its_hash : txn.signed.hash ≡ hash
    pub its_block : txn.block_number ≡ block_number next
    pub by_hash : transaction_by_hash rpc next hash ≡ ok (some (rpc.from_localized txn))
    pub by_number :
        transaction_by_block_number_and_index rpc next latest_block 0
        ≡ ok (some (rpc.from_localized txn))
    pub by_block_hash :
        transaction_by_block_hash_and_index rpc next txn.block_hash 0
        ≡ ok (some (rpc.from_localized txn))
    pub count : block_transaction_count_by_number next latest_block ≡ ok (some 1)
    pub block : RichBlock rpc.Transaction
    pub answered : block_by_number rpc next latest_block false ≡ ok (some block)
    pub its_transactions : block.transactions ≡ hashes (hash ∷ [])
    pub receipt : LocalizedReceipt
    pub receipt_found : transaction_receipt rpc next hash ≡ ok (some (rpc.receipt_from receipt))
    pub receipt_hash : receipt.transaction_hash ≡ hash
    pub receipt_block : receipt.block_number ≡ block_number next

  sent-ok :
      (result : Result BlockchainError (ℕ × ExecutionResult)) (hash : ℕ)
      → sent result ≡ ok hash
      → (r : ExecutionResult) × (result ≡ ok (hash, r))
  unfolding sent
  sent-ok (ok (h, r)) hash e = (r, ap (λ (k : ℕ). ok (k, r)) (ok-injective e))
  sent-ok (err reason) hash e = cc
  sent-ok panic hash e = cc

  module _ (core : Ethcore) (next : Blockchain) (valid : IsChain core next.chain_state) where
    indexed-IsFound :
        (hash : ℕ) (txn : LocalizedTransaction)
        → get_txn_by_hash next hash ≡ some txn
        → txn.block_number ≡ block_number next
        → IsFound next hash
    unfolding transaction_by_hash transaction_by_block_number_and_index
        transaction_by_block_hash_and_index transaction_receipt block_transaction_count_by_number
        block_by_number block_number answer rich transactions_len as_u32 block_number_to_id get_txn
        get_block get_latest_block rich_block rich_header block_transactions
    indexed-IsFound hash txn e last =
        let (same, _, _, block, found, only, _, _, _, _, _) = valid.indexed hash txn e in
        let (at_number, at_hash, receipt, r, rh, rn) = txn-IsFound core next valid hash txn e in
        let found' : get_block_by_number next.chain_state (block_number next) ≡ some block =
          subst (λ (k : ℕ). get_block_by_number next.chain_state k ≡ some block) last found in
        let at_number' : get_txn next (number (block_number next)) 0 ≡ some txn =
          subst (λ (k : ℕ). get_txn next (number k) 0 ≡ some txn) last at_number in
        record {
          txn = txn;
          its_hash = same;
          its_block = last;
          by_hash = rw e refl;
          by_number = rw at_number' refl;
          by_block_hash = rw at_hash refl;
          count = rw (found', only) refl;
          block = rich_block rpc.header_crates rpc.from_localized block false;
          answered = rw found' refl;
          its_transactions = rw (only, same) refl;
          receipt = receipt;
          receipt_found = rw r refl;
          receipt_hash = rh;
          receipt_block = rn ∙ last;
        }

  -- After a submission through the RPC that answers with a hash, the chain is one block longer,
  -- and: the transaction is answered by its hash, and at index 0 by its block's hash and of the
  -- latest block; the latest block has one transaction, which is that hash; and the receipt under
  -- the hash is of that transaction and block. The chain is as it should be and below the last
  -- block number, and the hash is without collisions on the digits of numbers.
  pub eth_send-IsFound :
      (core : Ethcore) (b : Blockchain) (timestamp : ℕ)
      → suc (block_number b) < 2 ^ 64
      → CollisionFree core
      → IsChain core b.chain_state
      → (raw : Bytes) (hash : ℕ) → (send_raw_transaction core b timestamp raw).0 ≡ ok hash
      → let next = (send_raw_transaction core b timestamp raw).1 in
        (block_number next ≡ suc (block_number b)) × IsFound next hash
  unfolding send_raw_transaction block_number
  eth_send-IsFound core b timestamp small free valid raw hash e =
      let answered = Mine.send_raw_transaction core b timestamp raw in
      let (result, success) = sent-ok answered.0 hash e in
      let (grown, txn, t, tn, _, _, _, _, _) =
        send_raw_transaction-found core b timestamp small free valid raw hash result success in
      (
        grown,
        indexed-IsFound core answered.1
            (send_raw_transaction-IsChain core b timestamp small free valid raw) hash txn t
            (tn ∙ sym grown),
      )
