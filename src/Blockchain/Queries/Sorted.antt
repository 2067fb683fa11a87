-- ===== src/Blockchain/Queries/Sorted.antt =====
-- Logs in the order of their blocks: sorting leaves them as they are (src/blockchain.rs).
use oasis_chain.Prelude.{
  ℕ, ◌≤◌, ◌≡◌, inl, inr, refl, sym, subst, Bool, List, [], ◌∷◌, ◌++◌, All, Bool-cases, le→leb,
  nat_eq, arith,
}
use oasis_chain.Blockchain.Types.{LocalizedLogEntry}
use oasis_chain.Blockchain.Mine.Chain.{IsFrom}
use oasis_chain.Blockchain.Queries.{filter_logs, insert_log, sort_by_number, logs}

-- The logs are of blocks from `from` on, in the order of those.
unfoldable pub Ascends : ℕ → List LocalizedLogEntry → Type 0
Ascends from [] = Unit {0}
Ascends from (log ∷ logs) = (from ≤ log.block_number) × Ascends log.block_number logs

pub Ascends-le : (m n : ℕ) (ls : List LocalizedLogEntry) → m ≤ n → Ascends n ls → Ascends m ls
unfolding Ascends
Ascends-le m n [] le h = tt
Ascends-le m n (log ∷ ls) le (here, rest) = (omega arith, rest)

insert_log-Ascends :
    (log : LocalizedLogEntry) (ls : List LocalizedLogEntry)
    → Ascends log.block_number ls
    → insert_log log ls ≡ log ∷ ls
unfolding Ascends insert_log
insert_log-Ascends log [] h = refl
insert_log-Ascends log (next ∷ ls) (le, _) = rw (le→leb le) refl

pub sort_by_number-Ascends :
    (from : ℕ) (ls : List LocalizedLogEntry) → Ascends from ls → sort_by_number ls ≡ ls
unfolding Ascends sort_by_number
sort_by_number-Ascends from [] h = refl
sort_by_number-Ascends from (log ∷ ls) (_, h) =
    rw (sort_by_number-Ascends log.block_number ls h) (insert_log-Ascends log ls h)

pub filter_logs-Ascends :
    (matches : LocalizedLogEntry → Bool) (from : ℕ) (ls : List LocalizedLogEntry)
    → Ascends from ls
    → Ascends from (filter_logs matches ls)
unfolding Ascends filter_logs
filter_logs-Ascends matches from [] h = tt
filter_logs-Ascends matches from (log ∷ ls) (le, h) = elim (Bool-cases (matches log)) [
  | inl kept ↦ rw kept (le, filter_logs-Ascends matches log.block_number ls h)
  | inr dropped ↦ rw dropped (
      Ascends-le from log.block_number (filter_logs matches ls) le
        (filter_logs-Ascends matches log.block_number ls h))
]

pub append-Ascends :
    (n h : ℕ) (xs ys : List LocalizedLogEntry)
    → All (IsFrom n h) xs
    → Ascends n ys
    → Ascends n (xs ++ ys)
unfolding Ascends
append-Ascends n h [] ys own rest = rest
append-Ascends n h (x ∷ xs) ys ((same, _), own) rest = (
  omega arith,
  subst (λ (k : ℕ). Ascends k (xs ++ ys)) (sym same) (append-Ascends n h xs ys own rest),
)
