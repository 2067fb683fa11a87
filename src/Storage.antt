-- ===== src/Storage.antt =====
-- src/storage.rs: `MemoryMKVS`, a reference to a map that its clones share. A reference is the number
-- under which the heap keeps the map; a reference that is in use has one.
pub mod History
pub mod Refinement
mod Tests
use oasis_chain.Prelude.{
  ℕ, Option, none, some, List, [], Bytes, Dict, lookup, insert, erase, nat_eq, bytes_key,
}
use oasis_chain.Blockchain.{Mkvs}

-- The maps that there are.
abbrev pub Heap : Type 0
Heap = Dict ℕ Mkvs

abbrev pub map_or_empty : Option Mkvs → Mkvs
map_or_empty (some m) = m
map_or_empty none = []

unfoldable pub content : Heap → ℕ → Mkvs
content heap r = map_or_empty (lookup r heap)

-- `MemoryMKVS::new`, under a reference that is not in use.
unfoldable pub new_store : Heap → ℕ → Heap
new_store heap r = insert r [] heap

-- `get`
unfoldable pub get : Heap → ℕ → Bytes → Option Bytes
unfolding content
get heap r key = lookup key (content heap r)

-- `insert`: the value before, and the heap.
unfoldable pub insert_value : Heap → ℕ → Bytes → Bytes → Option Bytes × Heap
unfolding content
insert_value heap r key value =
    let m = content heap r in (lookup key m, insert r (insert key value m) heap)

-- `remove`: the value before, and the heap.
unfoldable pub remove : Heap → ℕ → Bytes → Option Bytes × Heap
unfolding content
remove heap r key = let m = content heap r in (lookup key m, insert r (erase key m) heap)

-- `boxed_clone`: the same map.
unfoldable pub boxed_clone : ℕ → ℕ
boxed_clone r = r
