-- ===== src/Blockchain/Mine/History.antt =====
-- The chain over any number of submissions (src/blockchain.rs).
use oasis_chain.Prelude.{
  ℕ, suc, ◌+◌, ◌^◌, ◌≤◌, ◌<◌, ◌≡◌, refl, ◌∙◌, List, [], ◌∷◌, Bytes, length, arith,
}
use oasis_chain.KeyManager.{MockClient}
use oasis_chain.Blockchain.Types.{Ethcore, Mkvs}
use oasis_chain.Blockchain.State.{Blockchain, get_block_by_number, new_chain_state, new_blockchain}
use oasis_chain.Blockchain.Mine.{send_raw_transaction}
use oasis_chain.Blockchain.Mine.Chain.{CollisionFree, IsChain, new_chain_state-IsChain}
use oasis_chain.Blockchain.Mine.Submit.{
  send_raw_transaction-IsChain, send_raw_transaction-keeps, send_raw_transaction-grows,
}

module _ (core : Ethcore) where
  -- The blockchain after some submissions, each with its time.
  unfoldable pub submissions : Blockchain → List (ℕ × Bytes) → Blockchain
  submissions b [] = b
  submissions b ((timestamp, raw) ∷ rest) =
      submissions (send_raw_transaction core b timestamp raw).1 rest

  -- The chain after one blockchain follows that of the other: it is as it should be, it is not
  -- shorter, and it has the same blocks up to the height of the other.
  abbrev pub Follows : Blockchain → Blockchain → Type 0
  Follows b next =
      IsChain core next.chain_state
      × (b.chain_state.block_number ≤ next.chain_state.block_number)
      × ((n : ℕ)
          → n ≤ b.chain_state.block_number
          → get_block_by_number next.chain_state n ≡ get_block_by_number b.chain_state n)

  module _ (free : CollisionFree core) where
    pub submissions-Follows :
        (b : Blockchain) (txns : List (ℕ × Bytes))
        → b.chain_state.block_number + length txns < 2 ^ 64
        → IsChain core b.chain_state
        → Follows b (submissions b txns)
    unfolding submissions
    submissions-Follows b [] room valid = (valid, omega arith, λ n h. refl)
    submissions-Follows b ((timestamp, raw) ∷ rest) room valid =
        let small : suc b.chain_state.block_number < 2 ^ 64 = omega arith in
        let grows = send_raw_transaction-grows core b timestamp small free valid raw in
        let next = (send_raw_transaction core b timestamp raw).1 in
        let (end, longer, same) =
          submissions-Follows next rest (omega arith)
            (send_raw_transaction-IsChain core b timestamp small free valid raw) in
        (
          end,
          omega arith,
          λ n h.
              same n (omega arith)
              ∙ send_raw_transaction-keeps core b timestamp small free valid raw n h,
        )

-- Each submission adds one block at most.
pub submissions-le :
    (core : Ethcore)
    → CollisionFree core
    → (b : Blockchain) (txns : List (ℕ × Bytes)) → b.chain_state.block_number + length txns < 2 ^ 64
    → IsChain core b.chain_state
    → (submissions core b txns).chain_state.block_number ≤ b.chain_state.block_number + length txns
unfolding submissions
submissions-le core free b [] room valid = omega arith
submissions-le core free b ((timestamp, raw) ∷ rest) room valid =
    let small : suc b.chain_state.block_number < 2 ^ 64 = omega arith in
    let grows = send_raw_transaction-grows core b timestamp small free valid raw in
    let next = (send_raw_transaction core b timestamp raw).1 in
    omega (
      arith,
      submissions-le core free next rest (omega arith)
          (send_raw_transaction-IsChain core b timestamp small free valid raw),
    )

-- Whatever is submitted to a new blockchain, its chain is as it should be: the blocks from 0 to the
-- best one are stored, each under its hash and linked to the one before, and a transaction that is
-- stored is found in its block, with a receipt that has the block's logs. The hash is taken to be
-- without collisions on the digits of `u64` numbers, and the submissions to be fewer than 2 ^ 64.
pub submissions-IsChain :
    (core : Ethcore)
    → CollisionFree core
    → (gas_price gas_limit : ℕ) (keys : MockClient) (genesis : Mkvs) (txns : List (ℕ × Bytes))
    → length txns < 2 ^ 64
    → IsChain core
        (submissions core (new_blockchain core gas_price gas_limit keys genesis) txns).chain_state
unfolding new_blockchain new_chain_state
submissions-IsChain core free gas_price gas_limit keys genesis txns room =
    (submissions-Follows core free (new_blockchain core gas_price gas_limit keys genesis) txns
      (omega arith) (new_chain_state-IsChain core genesis)).0

-- Submissions to a chain that is as it should be leave every block that it has in its place, as
-- long as the block numbers stay below 2 ^ 64, with a hash without collisions on their digits.
pub submissions-keep :
    (core : Ethcore)
    → CollisionFree core
    → (b : Blockchain) (txns : List (ℕ × Bytes)) → b.chain_state.block_number + length txns < 2 ^ 64
    → IsChain core b.chain_state
    → (n : ℕ) → n ≤ b.chain_state.block_number
    → get_block_by_number (submissions core b txns).chain_state n
      ≡ get_block_by_number b.chain_state n
submissions-keep core free b txns room valid = (submissions-Follows core free b txns room valid).2
