-- ===== src/Storage/Tests.antt =====
-- What is written through a store is read through its clones, and through no other store.
use oasis_chain.Prelude.{
  ℕ, ◌≡◌, ◌≢◌, ap, ◌∙◌, Option, none, some, Bytes, if◌then◌else◌, lookup, insert, nat_eq, bytes_key,
  bytes_eq, List, [], ◌∷◌, refl, erase, lookup-insert, lookup-insert_self, lookup-insert_ne,
  lookup-erase,
}
use oasis_chain.Blockchain.{Mkvs}
use oasis_chain.Storage.{
  Heap, map_or_empty, content, get, insert_value, remove, boxed_clone, new_store,
}
use oasis_chain.Storage.History.{
  reading, removing, writing, Use, creating, cloning, accessing, cloned, accessed, answers,
  access_heap, heap_memory, change_memory,
}
use oasis_chain.Storage.Refinement.{answers-heap_memory}

content-insert : (heap : Heap) (r : ℕ) (m : Mkvs) → content (insert r m heap) r ≡ m
unfolding content
content-insert heap r m = ap map_or_empty (lookup-insert_self r m heap)

-- A clone is no snapshot: a write through the store shows in it.
clone_reads :
    (heap : Heap) (r : ℕ) (j key value : Bytes)
    → get (insert_value heap r key value).1 (boxed_clone r) j
      ≡ (if bytes_eq j key then some value else get heap (boxed_clone r) j)
unfolding get insert_value boxed_clone
clone_reads heap r j key value =
    ap (lookup j) (content-insert heap r _) ∙ lookup-insert j key value (content heap r)

removed_is_gone :
    (heap : Heap) (r : ℕ) (j key : Bytes)
    → get (remove heap r key).1 (boxed_clone r) j
      ≡ (if bytes_eq j key then none else get heap (boxed_clone r) j)
unfolding get remove boxed_clone
removed_is_gone heap r j key =
    ap (lookup j) (content-insert heap r _) ∙ lookup-erase j key (content heap r)

others_keep :
    (heap : Heap) (r s : ℕ) (j key value : Bytes)
    → s ≢ r
    → get (insert_value heap r key value).1 s j ≡ get heap s j
unfolding get insert_value content
others_keep heap r s j key value apart =
    ap (λ (m : Option Mkvs). lookup j (map_or_empty m)) (lookup-insert_ne s r _ heap apart)

-- Two stores, a clone of the first, and what is told of a key through each of them.
abbrev uses : List Use
uses =
    creating
    ∷ creating
    ∷ accessing 0 (writing (1 ∷ []) (7 ∷ []))
    ∷ cloning 0
    ∷ accessing 2 (reading (1 ∷ []))
    ∷ accessing 1 (reading (1 ∷ []))
    ∷ accessing 2 (removing (1 ∷ []))
    ∷ accessing 0 (reading (1 ∷ []))
    ∷ []

uses_answered :
    answers heap_memory [] [] 0 uses ≡ none ∷ some (7 ∷ []) ∷ none ∷ some (7 ∷ []) ∷ none ∷ []
unfolding answers accessed cloned access_heap get insert_value remove new_store boxed_clone content
    lookup insert erase
uses_answered = refl

answers-heap_memory_example : answers heap_memory [] [] 0 uses ≡ answers change_memory [] [] 0 uses
answers-heap_memory_example = answers-heap_memory uses
