-- ===== src/Blockchain/Queries/Ranges.antt =====
-- Ranges of blocks: one after another, and on a chain that has grown.
use oasis_chain.Prelude.{
  ℕ, zero, suc, ◌+◌, ◌≤◌, ◌≡◌, refl, ap, sym, ◌∙◌, Bool, inl, inr, Bool-cases, List, [], ◌∷◌, ◌++◌,
  append_assoc, ok, >>=-eq-ok, ok-injective, unwrap, arith,
}
use oasis_chain.Blockchain.Types.{EthereumBlock, LocalizedLogEntry, Filter, Ethcore}
use oasis_chain.Blockchain.State.{Blockchain, get_block_by_number}
use oasis_chain.Blockchain.Queries.{count_from, get_blocks, flat_map_logs, filter_logs}

zero_add : (m : ℕ) → 0 + m ≡ m
zero_add m = omega arith

suc_add : (k m : ℕ) → suc k + m ≡ suc (k + m)
suc_add k m = omega arith

pub get_blocks-append :
    (b : Blockchain) (n k m : ℕ) (us vs : List EthereumBlock)
    → get_blocks b (count_from n k) ≡ ok us
    → get_blocks b (count_from (n + k) m) ≡ ok vs
    → get_blocks b (count_from n (k + m)) ≡ ok (us ++ vs)
unfolding get_blocks count_from
get_blocks-append b n zero m us vs eu ev =
    let start : n + 0 ≡ n = omega arith in
    let none_before = ok-injective eu in rw (zero_add m, ← none_before) (rw start at ev)
get_blocks-append b n (suc k) m us vs eu ev =
    let (blk, found, eu') = >>=-eq-ok (unwrap (get_block_by_number b.chain_state n)) _ eu in
    let (rest, er, es) = >>=-eq-ok (get_blocks b (count_from (suc n) k)) _ eu' in
    let next : n + suc k ≡ suc n + k = omega arith in
    let more = get_blocks-append b (suc n) k m rest vs er (rw next at ev) in
    rw (suc_add k m, found, more, ← ok-injective es) refl

-- On blocks that are the same.
pub get_blocks-same :
    (b b' : Blockchain) (top n k : ℕ)
    → ((i : ℕ)
        → i ≤ top
        → get_block_by_number b'.chain_state i ≡ get_block_by_number b.chain_state i)
    → n + k ≤ suc top
    → get_blocks b' (count_from n k) ≡ get_blocks b (count_from n k)
unfolding get_blocks count_from
get_blocks-same b b' top n zero same reach = refl
get_blocks-same b b' top n (suc k) same reach =
    rw (same n (omega arith), get_blocks-same b b' top (suc n) k same (omega arith)) refl

flat_map_logs-append :
    (us vs : List EthereumBlock) → flat_map_logs (us ++ vs) ≡ flat_map_logs us ++ flat_map_logs vs
unfolding flat_map_logs
flat_map_logs-append [] vs = refl
flat_map_logs-append (u ∷ us) vs =
    ap (λ (ls : List LocalizedLogEntry). u.logs ++ ls) (flat_map_logs-append us vs)
    ∙ sym (append_assoc u.logs (flat_map_logs us) (flat_map_logs vs))

filter_logs-append :
    (matches : LocalizedLogEntry → Bool) (xs ys : List LocalizedLogEntry)
    → filter_logs matches (xs ++ ys) ≡ filter_logs matches xs ++ filter_logs matches ys
unfolding filter_logs
filter_logs-append matches [] ys = refl
filter_logs-append matches (x ∷ xs) ys = elim (Bool-cases (matches x)) [
  | inl kept ↦ rw (kept, filter_logs-append matches xs ys) refl
  | inr dropped ↦ rw dropped (filter_logs-append matches xs ys)
]

module _ (core : Ethcore) where
  -- The logs of some blocks that a filter's addresses and topics match.
  unfoldable pub matching : Filter → List EthereumBlock → List LocalizedLogEntry
  matching filter blocks =
      filter_logs (core.filter_matches filter.addresses filter.topics) (flat_map_logs blocks)

  pub matching-append :
      (filter : Filter) (us vs : List EthereumBlock)
      → matching filter (us ++ vs) ≡ matching filter us ++ matching filter vs
  unfolding matching
  matching-append filter us vs = rw (flat_map_logs-append us vs) (
      filter_logs-append (core.filter_matches filter.addresses filter.topics) (flat_map_logs us)
        (flat_map_logs vs))
