-- ===== src/Storage/History.antt =====
-- src/storage.rs: a program that creates stores, clones them, and reads and writes through them; and
-- what it is answered when the memory is the list of the changes instead of a heap.
use oasis_chain.Prelude.{
  ℕ, suc, if◌then◌else◌, ◌==◌, ◌&&◌, List, [], ◌∷◌, ◌++◌, Option, none, some, Bytes, bytes_eq,
  get_elem?, nat_eq, bytes_key,
}
use oasis_chain.Storage.{Heap, new_store, get, insert_value, remove, boxed_clone}

-- A use of one store.
pub data Access : Type 0 where
  reading removing : Bytes → Access
  writing : Bytes → Bytes → Access

-- The stores of a program are numbered in the order in which it got them.
pub data Use : Type 0 where
  creating : Use
  cloning : ℕ → Use
  accessing : ℕ → Access → Use

-- What a program needs of the memory: a new map under a number, another reference to a map, and an
-- access to one, which is answered.
pub record Memory (M : Type 0) : Type 0 where
  pub create : M → ℕ → M
  pub clone : ℕ → ℕ
  pub access : M → ℕ → Access → Option Bytes × M

module _ {M : Type 0} (memory : Memory M) where
  -- A store that the program does not have is not cloned and not accessed.
  unfoldable pub cloned : List ℕ → Option ℕ → List ℕ
  cloned stores none = stores
  cloned stores (some r) = stores ++ (memory.clone r ∷ [])

  unfoldable pub accessed : M → Option ℕ → Access → List (Option Bytes) × M
  accessed m none a = ([], m)
  accessed m (some r) a = let (answer, next) = memory.access m r a in (answer ∷ [], next)

  -- The answers to a program's accesses. The number `fresh` and those above it are not in use.
  unfoldable pub answers : M → List ℕ → ℕ → List Use → List (Option Bytes)
  unfolding cloned accessed
  answers m stores fresh [] = []
  answers m stores fresh (creating ∷ uses) =
      answers (memory.create m fresh) (stores ++ (fresh ∷ [])) (suc fresh) uses
  answers m stores fresh (cloning i ∷ uses) =
      answers m (cloned stores (get_elem? stores i)) fresh uses
  answers m stores fresh (accessing i a ∷ uses) =
      let (answer, next) = accessed m (get_elem? stores i) a in
      answer ++ answers next stores fresh uses

unfoldable pub access_heap : Heap → ℕ → Access → Option Bytes × Heap
access_heap heap r (reading key) = (get heap r key, heap)
access_heap heap r (removing key) = remove heap r key
access_heap heap r (writing key value) = insert_value heap r key value

-- The memory of src/storage.rs.
abbrev pub heap_memory : Memory Heap
heap_memory = record { create = new_store; clone = boxed_clone; access = access_heap }

-- The changes, the last one first: the map, the key, and the value or its removal.
abbrev pub Changes : Type 0
Changes = List (ℕ × Bytes × Option Bytes)

-- The last change of a key of a map.
unfoldable pub last_change : Changes → ℕ → Bytes → Option Bytes
last_change [] r key = none
last_change ((s, k, value) ∷ changes) r key =
    if (r == s) && bytes_eq key k then value else last_change changes r key

unfoldable pub access_changes : Changes → ℕ → Access → Option Bytes × Changes
unfolding last_change
access_changes changes r (reading key) = (last_change changes r key, changes)
access_changes changes r (removing key) = (last_change changes r key, (r, key, none) ∷ changes)
access_changes changes r (writing key value) =
    (last_change changes r key, (r, key, some value) ∷ changes)

-- The memory that keeps the changes only: nothing is created and a clone is the store itself.
abbrev pub change_memory : Memory Changes
change_memory = record { create = λ changes r. changes; clone = λ r. r; access = access_changes }
