-- ===== src/Blockchain/Mine/Chain.antt =====
-- What every state of the chain satisfies, and that mining keeps it (src/blockchain.rs).
use native.Mathlib.Decide.{ℕ_discrete}
use mathlib.Core.Option
use mathlib.Core.Option.{none-ne-some}
use oasis_chain.Prelude.{
  ℕ, suc, ◌^◌, ◌≤◌, ◌<◌, ◌≡◌, refl, ap, sym, subst, ◌∙◌, none, some, List, [], ◌∷◌, All, lookup,
  insert, nat_eq, lookup-insert_self, lookup-insert_ne, lookup-nil, arith,
}
use oasis_chain.Decimal.{to_string}
use oasis_chain.Blockchain.Types.{
  LogEntry, LocalizedLogEntry, LocalizedTransaction, LocalizedReceipt, EthereumBlock, ChainState,
  Ethcore, Mkvs, block_gas_limit,
}
use oasis_chain.Blockchain.State.{get_block_by_number, block_hash, new_block, new_chain_state}
use oasis_chain.Blockchain.Mine.{localize_logs}

-- The digits of different numbers do not collide under the hash.
abbrev pub CollisionFree : Ethcore → Type 0
CollisionFree core =
    (m n : ℕ)
    → m < 2 ^ 64
    → n < 2 ^ 64
    → core.keccak (to_string m) ≡ core.keccak (to_string n)
    → to_string m ≡ to_string n

-- A log is from a block.
abbrev pub IsFrom : ℕ → ℕ → LocalizedLogEntry → Type 0
IsFrom number hash log = (log.block_number ≡ number) × (log.block_hash ≡ hash)

module _ (core : Ethcore) where
  -- A block has its number, the hash of that, the hash of the block before, and logs of its own.
  pub record IsBlock (number : ℕ) (block : EthereumBlock) : Type 0 where
    pub same_number : block.number ≡ number
    pub same_hash : block.hash ≡ block_hash core number
    pub linked : (before : ℕ) → number ≡ suc before → block.parent_hash ≡ block_hash core before
    pub own_logs : All (IsFrom number (block_hash core number)) block.logs

  -- A stored transaction is the one transaction of a block that is stored, with a receipt of the
  -- same block that has the block's logs.
  abbrev pub IsIndexed : ChainState → ℕ → LocalizedTransaction → Type 0
  IsIndexed c hash txn =
      (txn.signed.hash ≡ hash)
      × (txn.block_number ≤ c.block_number)
      × (txn.block_hash ≡ block_hash core txn.block_number)
      × (block : EthereumBlock) × (get_block_by_number c txn.block_number ≡ some block)
      × (block.transactions ≡ txn ∷ [])
      × (receipt : LocalizedReceipt) × (lookup hash c.receipts ≡ some receipt)
      × (receipt.transaction_hash ≡ hash)
      × (receipt.block_number ≡ txn.block_number)
      × (receipt.logs ≡ block.logs)

  -- The blocks from 0 to the best one are stored, each under its hash; no other number has one.
  pub record IsChain (c : ChainState) : Type 0 where
    pub numbered :
        (n : ℕ) → n ≤ c.block_number → lookup n c.block_number_to_hash ≡ some (block_hash core n)
    pub stored :
        (n : ℕ)
        → n ≤ c.block_number
        → (block : EthereumBlock) × (lookup (block_hash core n) c.blocks ≡ some block)
          × IsBlock n block
    pub beyond : (n : ℕ) → c.block_number < n → lookup n c.block_number_to_hash ≡ none
    pub known :
        (hash : ℕ) (block : EthereumBlock)
        → lookup hash c.blocks ≡ some block
        → (n : ℕ) × (n ≤ c.block_number) × (hash ≡ block_hash core n)
    pub indexed :
        (hash : ℕ) (txn : LocalizedTransaction)
        → lookup hash c.transactions ≡ some txn
        → IsIndexed c hash txn

  pub localize_logs-own :
      (number hash txn_hash i : ℕ) (logs : List LogEntry)
      → All (IsFrom number hash) (localize_logs hash number txn_hash i logs)
  unfolding localize_logs
  localize_logs-own number hash txn_hash i [] = tt
  localize_logs-own number hash txn_hash i (log ∷ logs) =
      ((refl, refl), localize_logs-own number hash txn_hash (suc i) logs)

  zero_of_le : (n : ℕ) → n ≤ 0 → n ≡ 0
  zero_of_le n h = omega arith

  genesis_block : IsBlock 0 (new_block core 0 0 0 0 block_gas_limit 0)
  unfolding new_block
  genesis_block = record {
    same_number = refl;
    same_hash = refl;
    linked = λ before e. absurd (omega arith);
    own_logs = tt;
  }

  genesis_found :
      (genesis : Mkvs) (n : ℕ)
      → n ≡ 0
      → lookup (block_hash core n) (new_chain_state core genesis).blocks
        ≡ some (new_block core 0 0 0 0 block_gas_limit 0)
  unfolding new_chain_state new_block
  genesis_found genesis n e =
      ap (λ (k : ℕ). lookup (block_hash core k) (new_chain_state core genesis).blocks) e
      ∙ lookup-insert_self (block_hash core 0) (new_block core 0 0 0 0 block_gas_limit 0) []

  genesis_known :
      (genesis : Mkvs) (hash : ℕ) (block : EthereumBlock)
      → lookup hash (new_chain_state core genesis).blocks ≡ some block
      → (n : ℕ) × (n ≤ 0) × (hash ≡ block_hash core n)
  unfolding new_chain_state new_block
  genesis_known genesis hash block e = elim (ℕ_discrete hash (block_hash core 0)) [
    | yes same ↦ (0, omega arith, same)
    | no other ↦
        let e' =
          lookup-insert_ne hash (block_hash core 0) (new_block core 0 0 0 0 block_gas_limit 0) []
            other in
        absurd (none-ne-some block (sym (lookup-nil hash) ∙ sym e' ∙ e))
  ]

  -- The genesis state.
  pub new_chain_state-IsChain : (genesis : Mkvs) → IsChain (new_chain_state core genesis)
  unfolding new_chain_state new_block lookup insert
  new_chain_state-IsChain genesis = record {
    numbered = λ n h. ground (arith, zero_of_le n h);
    stored = λ n h. (
      new_block core 0 0 0 0 block_gas_limit 0,
      genesis_found genesis n (zero_of_le n h),
      subst (λ (k : ℕ). IsBlock k (new_block core 0 0 0 0 block_gas_limit 0)) (sym (zero_of_le n h))
          genesis_block,
    );
    beyond = λ n h. ground arith;
    known = genesis_known genesis;
    indexed = λ hash txn e. cc;
  }

  -- A block that is found by its number.
  pub block-found :
      (c : ChainState) (n : ℕ)
      → IsChain c
      → n ≤ c.block_number
      → (block : EthereumBlock) × (get_block_by_number c n ≡ some block) × IsBlock n block
  unfolding get_block_by_number Option.bind
  block-found c n h le =
      let (block, found, good) = h.stored n le in (block, rw (h.numbered n le) found, good)
