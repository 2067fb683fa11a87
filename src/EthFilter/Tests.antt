-- ===== src/EthFilter/Tests.antt =====
-- The theorems on polls at a concrete history.
use oasis_chain.Prelude.{
  ℕ, suc, ◌≡◌, refl, Dict, nat_eq, is_some, erase, Option, none, some, List, [], ◌∷◌, Bytes, ok,
  arith, insert, lookup,
}
use mathlib.Core.Option
use oasis_chain.Decimal.{to_string, parse}
use oasis_chain.Blockchain.Samples.{toy_core, toy-CollisionFree}
use oasis_chain.Blockchain.{
  Blockchain, get_block_by_number, block_hash, EthereumBlock, Filter, LocalizedLogEntry, latest,
  earliest, new_blockchain, new_block,
}
use oasis_chain.Blockchain.Mine.{send_raw_transaction, mine_block}
use oasis_chain.Blockchain.Mine.Chain.{IsChain}
use oasis_chain.Blockchain.Mine.History.{submissions, submissions-IsChain}
use oasis_chain.Blockchain.Queries.{get_latest_block}
use oasis_chain.EthFilter.{PollManager, PollFilter, block, log, hashes, changes}
use oasis_chain.EthFilter.Polls.{block_poll-repeats}

abbrev start : Blockchain
start = new_blockchain toy_core 1 100 [] []

abbrev one_block : List (ℕ × Bytes)
one_block = (1000, 50 ∷ 1 ∷ 77 ∷ []) ∷ []

abbrev two_blocks : List (ℕ × Bytes)
two_blocks = (1001, 50 ∷ 1 ∷ 78 ∷ []) ∷ (1002, 50 ∷ 1 ∷ 79 ∷ []) ∷ []

abbrev earlier : Blockchain
earlier = submissions toy_core start one_block

earlier-IsChain : IsChain toy_core earlier.chain_state
earlier-IsChain = submissions-IsChain toy_core toy-CollisionFree 1 100 [] [] one_block (omega arith)

abbrev block_or : Option EthereumBlock → EthereumBlock
block_or none = new_block toy_core 0 0 0 0 0 0
block_or (some blk) = blk

abbrev best_earlier : EthereumBlock
best_earlier = block_or (get_block_by_number earlier.chain_state 1)

latest-earlier : get_latest_block earlier ≡ ok best_earlier
unfolding submissions send_raw_transaction new_blockchain mine_block get_block_by_number Option.bind
    lookup insert block_hash parse to_string get_latest_block
latest-earlier = refl

abbrev everything : Filter
everything = record {
  from_block = earliest;
  to_block = latest;
  limit = none;
  addresses = [];
  topics = [];
}

abbrev no_limit : List LocalizedLogEntry → Option ℕ → List LocalizedLogEntry
no_limit ls limit = ls

block_poll-repeats_example :
    let (_, poll) = changes toy_core no_limit earlier best_earlier (block 2) in
    (changes toy_core no_limit earlier best_earlier poll).0
    ≡ ok (hashes (block_hash toy_core earlier.chain_state.block_number ∷ []))
block_poll-repeats_example =
    block_poll-repeats toy_core no_limit earlier best_earlier 2 earlier-IsChain latest-earlier

-- Polls are kept in a map, under the numbers from 0 on.
abbrev toy : PollManager (ℕ × Dict ℕ PollFilter)
toy = record {
  create_poll = λ m f. (m.0, (suc m.0, insert m.0 f m.1));
  poll = λ m id. lookup id m.1;
  put = λ m id f. (m.0, insert id f m.1);
  remove_poll = λ m id. (is_some (lookup id m.1), (m.0, erase id m.1));
}

abbrev with_filter : ℕ × Dict ℕ PollFilter
with_filter = (1, (0, log 1 everything) ∷ [])

-- The second poll comes with no new block.
abbrev schedule : List (List (ℕ × Bytes))
schedule = two_blocks ∷ [] ∷ one_block ∷ []
