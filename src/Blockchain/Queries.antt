-- ===== src/Blockchain/Queries.antt =====
-- The reading half of src/blockchain.rs: blocks, transactions and receipts by their identifiers, and
-- the logs of a range of blocks. A future that is ready at once is its result.
mod Sorted
pub mod Laws
pub mod Ranges
use oasis_chain.Prelude.{
  ℕ, zero, suc, ◌+◌, ◌-◌, Option, none, some, List, [], ◌∷◌, ◌++◌, Result, ok, err, panic, ◌>>=◌,
  Bool, ltb, leb, if◌then◌else◌, get_elem?, lookup, nat_eq, or_err, unwrap,
}
use mathlib.Core.Option
use oasis_chain.Blockchain.Types.{
  BlockId, hash, number, latest, earliest, LocalizedLogEntry, LocalizedTransaction,
  LocalizedReceipt, EthereumBlock, ChainState, BlockchainError, block_not_found, Filter, Ethcore,
}
use oasis_chain.Blockchain.State.{Blockchain, get_block_by_number}

-- `Blockchain::best_block_number`
abbrev pub best_block_number : Blockchain → ℕ
best_block_number b = b.chain_state.block_number

-- `Blockchain::get_block_by_hash`
abbrev pub get_block_by_hash : Blockchain → ℕ → Option EthereumBlock
get_block_by_hash b h = lookup h b.chain_state.blocks

-- `Blockchain::get_txn_by_hash`
abbrev pub get_txn_by_hash : Blockchain → ℕ → Option LocalizedTransaction
get_txn_by_hash b h = lookup h b.chain_state.transactions

-- `Blockchain::get_txn_receipt_by_hash`
abbrev pub get_txn_receipt_by_hash : Blockchain → ℕ → Option LocalizedReceipt
get_txn_receipt_by_hash b h = lookup h b.chain_state.receipts

-- `Blockchain::get_latest_block`
unfoldable pub get_latest_block : Blockchain → Result BlockchainError EthereumBlock
get_latest_block b = unwrap (get_block_by_number b.chain_state (best_block_number b))

-- `Blockchain::get_block`
unfoldable pub get_block : Blockchain → BlockId → Result BlockchainError (Option EthereumBlock)
get_block b (hash h) = ok (get_block_by_hash b h)
get_block b (number n) = ok (get_block_by_number b.chain_state n)
get_block b latest = get_latest_block b >>= λ blk. ok (some blk)
get_block b earliest = ok (get_block_by_number b.chain_state 0)

-- `Blockchain::get_block_unwrap`
unfoldable pub get_block_unwrap : Blockchain → BlockId → Result BlockchainError EthereumBlock
get_block_unwrap b id = get_block b id >>= λ blk. or_err blk block_not_found

-- `Blockchain::get_txn_by_number_and_index`
unfoldable pub get_txn_by_number_and_index : Blockchain → ℕ → ℕ → Option LocalizedTransaction
get_txn_by_number_and_index b n index =
    Option.bind (lookup n b.chain_state.block_number_to_hash)
      λ h. Option.bind (lookup h b.chain_state.blocks) λ blk. get_elem? blk.transactions index

-- `Blockchain::get_txn_by_block_hash_and_index`
unfoldable pub get_txn_by_block_hash_and_index : Blockchain → ℕ → ℕ → Option LocalizedTransaction
get_txn_by_block_hash_and_index b h index =
    Option.bind (lookup h b.chain_state.blocks) λ blk. get_elem? blk.transactions index

-- `Blockchain::get_txn`
unfoldable pub get_txn : Blockchain → BlockId → ℕ → Option LocalizedTransaction
get_txn b (hash h) index = get_txn_by_block_hash_and_index b h index
get_txn b (number n) index = get_txn_by_number_and_index b n index
get_txn b latest index = get_txn_by_number_and_index b (best_block_number b) index
get_txn b earliest index = get_txn_by_number_and_index b 0 index

-- The numbers of `from..=from + count - 1`.
unfoldable pub count_from : ℕ → ℕ → List ℕ
count_from from zero = []
count_from from (suc count) = from ∷ count_from (suc from) count

-- `from..=to`, which is empty where `to` is smaller.
unfoldable pub range_inclusive : ℕ → ℕ → List ℕ
range_inclusive from to = count_from from (suc to - from)

-- The blocks of a list of numbers, each of which should exist.
unfoldable pub get_blocks : Blockchain → List ℕ → Result BlockchainError (List EthereumBlock)
get_blocks b [] = ok []
get_blocks b (n ∷ ns) =
    let rest = get_blocks b ns in
    unwrap (get_block_by_number b.chain_state n) >>= λ blk. rest >>= λ blks. ok (blk ∷ blks)

-- `flat_map` over the logs of the blocks
unfoldable pub flat_map_logs : List EthereumBlock → List LocalizedLogEntry
flat_map_logs [] = []
flat_map_logs (blk ∷ blks) = blk.logs ++ flat_map_logs blks

unfoldable pub filter_logs :
    (LocalizedLogEntry → Bool) → List LocalizedLogEntry → List LocalizedLogEntry
filter_logs matches [] = []
filter_logs matches (log ∷ logs) =
    let rest = filter_logs matches logs in if matches log then log ∷ rest else rest

-- A stable sort by the block's number: a log goes before the later ones with its number.
pub insert_log : LocalizedLogEntry → List LocalizedLogEntry → List LocalizedLogEntry
insert_log log [] = log ∷ []
insert_log log (next ∷ logs) =
    let rest = insert_log log logs in
    if leb log.block_number next.block_number then log ∷ next ∷ logs else next ∷ rest

unfoldable pub sort_by_number : List LocalizedLogEntry → List LocalizedLogEntry
sort_by_number [] = []
sort_by_number (log ∷ logs) = insert_log log (sort_by_number logs)

-- `Blockchain::logs`; both ends are looked up before either is missed.
unfoldable pub logs :
    Ethcore → Blockchain → Filter → Result BlockchainError (List LocalizedLogEntry)
logs core b filter = get_block b filter.from_block >>= λ from_blk.
    get_block b filter.to_block >>= λ to_blk. or_err from_blk block_not_found >>= λ from_block.
    or_err to_blk block_not_found >>= λ to_block.
    get_blocks b (range_inclusive from_block.number to_block.number) >>= λ blocks. ok (
      sort_by_number
        (filter_logs (core.filter_matches filter.addresses filter.topics) (flat_map_logs blocks)))
