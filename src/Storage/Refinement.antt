-- ===== src/Storage/Refinement.antt =====
-- The heap of src/storage.rs answers as the list of the changes does.
use oasis_chain.Prelude.{
  ℕ, zero, suc, erase, ◌<◌, ◌≤◌, ◌≡◌, refl, ap, ◌∙◌, if◌then◌else◌, ◌==◌, List, [], ◌∷◌, ◌++◌,
  Option, none, some, Bytes, All, All-append, get_elem?, lookup, insert, nat_eq, bytes_key,
  lookup-insert, lookup-erase, lookup-nil, arith,
}
use oasis_chain.Blockchain.{Mkvs}
use oasis_chain.Storage.{
  Heap, map_or_empty, content, new_store, get, insert_value, remove, boxed_clone,
}
use oasis_chain.Storage.History.{
  Access, reading, removing, writing, Use, creating, cloning, accessing, cloned, accessed, answers,
  access_heap, heap_memory, Changes, last_change, access_changes, change_memory,
}

content-insert :
    (heap : Heap) (r s : ℕ) (m : Mkvs)
    → content (insert r m heap) s ≡ (if s == r then m else content heap s)
unfolding content
content-insert heap r s m = ground (arith, lookup-insert s r m heap)

-- What is read through a store after a map was stored under a reference.
get-insert :
    (heap : Heap) (r s : ℕ) (m : Mkvs) (j : Bytes)
    → get (insert r m heap) s j ≡ (if s == r then lookup j m else get heap s j)
unfolding get
get-insert heap r s m j = ground (arith, content-insert heap r s m)

abbrev IsUnder : ℕ → ℕ → Type 0
IsUnder fresh r = r < fresh

record Agrees (heap : Heap) (changes : Changes) (fresh : ℕ) : Type 0 where
  same : (r : ℕ) (j : Bytes) → get heap r j ≡ last_change changes r j
  unused : (r : ℕ) (j : Bytes) → fresh ≤ r → last_change changes r j ≡ none

new_store-Agrees :
    (heap : Heap) (changes : Changes) (fresh : ℕ)
    → Agrees heap changes fresh
    → Agrees (new_store heap fresh) changes (suc fresh)
unfolding new_store get
new_store-Agrees heap changes fresh agrees = record {
  same = λ r j. ground (
    arith,
    get-insert heap fresh r [] j,
    lookup-nil {V = Bytes} j,
    agrees.same r j,
    agrees.unused r j,
  );
  unused = λ r j le. agrees.unused r j (omega (arith, le));
}

access-answer :
    (heap : Heap) (changes : Changes) (fresh r : ℕ) (a : Access)
    → Agrees heap changes fresh
    → (access_heap heap r a).0 ≡ (access_changes changes r a).0
unfolding access_heap access_changes get insert_value remove
access-answer heap changes fresh r (reading key) agrees = agrees.same r key
access-answer heap changes fresh r (removing key) agrees = agrees.same r key
access-answer heap changes fresh r (writing key value) agrees = agrees.same r key

access-Agrees :
    (heap : Heap) (changes : Changes) (fresh r : ℕ) (a : Access)
    → r < fresh
    → Agrees heap changes fresh
    → Agrees (access_heap heap r a).1 (access_changes changes r a).1 fresh
unfolding access_heap access_changes get insert_value remove last_change
access-Agrees heap changes fresh r (reading key) below agrees = agrees
access-Agrees heap changes fresh r (removing key) below agrees = record {
  same = λ s j. ground (
    arith,
    get-insert heap r s (erase key (content heap r)) j,
    lookup-erase j key (content heap r),
    agrees.same s j,
    agrees.same r j,
  );
  unused = λ s j le. ground (arith, below, le, agrees.unused s j le);
}
access-Agrees heap changes fresh r (writing key value) below agrees = record {
  same = λ s j. ground (
    arith,
    get-insert heap r s (insert key value (content heap r)) j,
    lookup-insert j key value (content heap r),
    agrees.same s j,
    agrees.same r j,
  );
  unused = λ s j le. ground (arith, below, le, agrees.unused s j le);
}

-- The store that a use is of, if the program has it, is one of those in use.
abbrev IsInUse : ℕ → Option ℕ → Type 0
IsInUse fresh none = Unit
IsInUse fresh (some r) = r < fresh

get_elem?-IsInUse :
    (fresh : ℕ) (stores : List ℕ) (i : ℕ)
    → All (IsUnder fresh) stores
    → IsInUse fresh (get_elem? stores i)
get_elem?-IsInUse fresh [] i under = tt
get_elem?-IsInUse fresh (r ∷ stores) zero under = under.0
get_elem?-IsInUse fresh (r ∷ stores) (suc i) under = get_elem?-IsInUse fresh stores i under.1

All-suc :
    (fresh : ℕ) (stores : List ℕ) → All (IsUnder fresh) stores → All (IsUnder (suc fresh)) stores
All-suc fresh [] under = tt
All-suc fresh (r ∷ stores) under = (omega (arith, under.0), All-suc fresh stores under.1)

cloned-IsUnder :
    (fresh : ℕ) (stores : List ℕ) (store : Option ℕ)
    → IsInUse fresh store
    → All (IsUnder fresh) stores
    → All (IsUnder fresh) (cloned heap_memory stores store)
unfolding cloned boxed_clone
cloned-IsUnder fresh stores none used under = under
cloned-IsUnder fresh stores (some r) used under =
    All-append (IsUnder fresh) stores (r ∷ []) under (used, tt)

cloned-same :
    (stores : List ℕ) (store : Option ℕ)
    → cloned heap_memory stores store ≡ cloned change_memory stores store
unfolding cloned boxed_clone
cloned-same stores none = refl
cloned-same stores (some r) = refl

accessed-same :
    (heap : Heap) (changes : Changes) (fresh : ℕ) (store : Option ℕ) (a : Access)
    → Agrees heap changes fresh
    → (accessed heap_memory heap store a).0 ≡ (accessed change_memory changes store a).0
unfolding accessed
accessed-same heap changes fresh none a agrees = refl
accessed-same heap changes fresh (some r) a agrees =
    ap (λ answer. answer ∷ []) (access-answer heap changes fresh r a agrees)

accessed-Agrees :
    (heap : Heap) (changes : Changes) (fresh : ℕ) (store : Option ℕ) (a : Access)
    → IsInUse fresh store
    → Agrees heap changes fresh
    → Agrees (accessed heap_memory heap store a).1 (accessed change_memory changes store a).1 fresh
unfolding accessed
accessed-Agrees heap changes fresh none a used agrees = agrees
accessed-Agrees heap changes fresh (some r) a used agrees =
    access-Agrees heap changes fresh r a used agrees

answers-Agrees :
    (heap : Heap) (changes : Changes) (stores : List ℕ) (fresh : ℕ) (uses : List Use)
    → All (IsUnder fresh) stores
    → Agrees heap changes fresh
    → answers heap_memory heap stores fresh uses ≡ answers change_memory changes stores fresh uses
unfolding answers
answers-Agrees heap changes stores fresh [] under agrees = refl
answers-Agrees heap changes stores fresh (creating ∷ uses) under agrees =
    answers-Agrees (new_store heap fresh) changes (stores ++ (fresh ∷ [])) (suc fresh) uses
      (All-append (IsUnder (suc fresh)) stores (fresh ∷ []) (All-suc fresh stores under)
        (omega arith, tt))
      (new_store-Agrees heap changes fresh agrees)
answers-Agrees heap changes stores fresh (cloning i ∷ uses) under agrees =
    let store = get_elem? stores i in
    answers-Agrees heap changes (cloned heap_memory stores store) fresh uses
      (cloned-IsUnder fresh stores store (get_elem?-IsInUse fresh stores i under) under) agrees
    ∙ ap (λ held. answers change_memory changes held fresh uses) (cloned-same stores store)
answers-Agrees heap changes stores fresh (accessing i a ∷ uses) under agrees =
    let store = get_elem? stores i in
    let used = get_elem?-IsInUse fresh stores i under in
    let later =
      answers-Agrees (accessed heap_memory heap store a).1
        (accessed change_memory changes store a).1 stores fresh uses under
        (accessed-Agrees heap changes fresh store a used agrees) in
    ap
      (λ answer.
        answer ++ answers heap_memory (accessed heap_memory heap store a).1 stores fresh uses)
      (accessed-same heap changes fresh store a agrees)
    ∙ ap (λ rest. (accessed change_memory changes store a).0 ++ rest) later

nothing-Agrees : Agrees [] [] 0
unfolding get content last_change
nothing-Agrees = record {
  same = λ r j. ap (λ m. lookup j (map_or_empty m)) (lookup-nil r) ∙ lookup-nil j;
  unused = λ r j le. refl;
}

-- From no store at all, a program that creates stores, clones any of those that it has, and gets,
-- inserts and removes through any of them, is given the answers that the list of the changes gives:
-- an access is answered with the value of the last insertion of the key through the same store, one
-- that it is a clone of or one of their clones, or with none when the key was not inserted through
-- them or was removed last.
pub answers-heap_memory :
    (uses : List Use) → answers heap_memory [] [] 0 uses ≡ answers change_memory [] [] 0 uses
answers-heap_memory uses = answers-Agrees [] [] [] 0 uses tt nothing-Agrees
