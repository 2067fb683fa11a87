-- ===== src/RpcApis/Sets.antt =====
-- Sets of APIs as lists without repetitions (src/rpc_apis.rs).
use oasis_chain.Prelude.{
  ℕ, suc, ◌≡◌, refl, inl, inr, ◌∙◌, ap, sym, Bool, true, false, Bool-cases, if◌then◌else◌, ◌==◌,
  List, [], ◌∷◌, arith,
}
use oasis_chain.RpcApis.{
  Api, web3, net, eth, eth_pubsub, oasis, discriminant, api_eq, contains, insert_api, remove_api,
  extend, public_list,
}

-- How often an API is in a list.
unfoldable pub count : Api → List Api → ℕ
count a [] = 0
count a (b ∷ s) = let rest = count a s in if api_eq a b then suc rest else rest

abbrev pub bit : Bool → ℕ
bit true = 1
bit false = 0

-- The list has each API of a set once, and no other.
abbrev pub Represents : List Api → (Api → Bool) → Type 0
Represents s set = (a : Api) → count a s ≡ bit (set a)

pub api_eq_refl : (a : Api) → api_eq a a ≡ true
unfolding api_eq
api_eq_refl a = ground arith

-- An API is known by its discriminant.
of_discriminant : ℕ → Api
of_discriminant n =
    if n == 0
    then web3
    else if n == 1
    then net
    else if n == 2
    then eth
    else if n == 3
    then eth_pubsub
    else oasis

of_discriminant-discriminant : (a : Api) → of_discriminant (discriminant a) ≡ a
unfolding of_discriminant discriminant
of_discriminant-discriminant web3 = refl
of_discriminant-discriminant net = refl
of_discriminant-discriminant eth = refl
of_discriminant-discriminant eth_pubsub = refl
of_discriminant-discriminant oasis = refl

pub api_eq_sound : (a b : Api) → api_eq a b ≡ true → a ≡ b
unfolding api_eq
api_eq_sound a b e =
    let same : discriminant a ≡ discriminant b = ground arith in
    sym (of_discriminant-discriminant a) ∙ ap of_discriminant same ∙ of_discriminant-discriminant b

contains-count : (a : Api) (s : List Api) → count a s ≡ 0 → contains a s ≡ false
unfolding count contains
contains-count a [] e = refl
contains-count a (b ∷ s) e = elim (Bool-cases (api_eq a b)) [
  | inl it ↦ absurd (omega (arith, rw it at e))
  | inr other ↦ rw other (contains-count a s (rw other at e))
]

count-contains : (a : Api) (s : List Api) (n : ℕ) → count a s ≡ suc n → contains a s ≡ true
unfolding count contains
count-contains a [] n e = absurd (omega arith)
count-contains a (b ∷ s) n e = elim (Bool-cases (api_eq a b)) [
  | inl it ↦ rw it refl
  | inr other ↦ rw other (count-contains a s n (rw other at e))
]

pub contains-Represents :
    (a : Api) (s : List Api) (set : Api → Bool) → Represents s set → contains a s ≡ set a
contains-Represents a s set h = elim (Bool-cases (set a)) [
  | inl there ↦ count-contains a s 0 (h a ∙ ap bit there) ∙ sym there
  | inr gone ↦ contains-count a s (h a ∙ ap bit gone) ∙ sym gone
]

pub insert_api-Represents :
    (b : Api) (s : List Api) (set : Api → Bool)
    → Represents s set
    → Represents (insert_api b s) (λ a. if api_eq a b then true else set a)
unfolding insert_api count
insert_api-Represents b s set h a = elim (Bool-cases (set b)) [
  | inl there ↦
      rw (contains-Represents b s set h, there)
        (elim (Bool-cases (api_eq a b)) [
          | inl it ↦ rw it (h a ∙ ap bit (ap set (api_eq_sound a b it) ∙ there))
          | inr other ↦ rw other (h a)
        ])
  | inr gone ↦
      rw (contains-Represents b s set h, gone)
        (elim (Bool-cases (api_eq a b)) [
          | inl it ↦ rw it (ap suc (h a ∙ ap bit (ap set (api_eq_sound a b it) ∙ gone)))
          | inr other ↦ rw other (h a)
        ])
]

api_eq_comm : (a b : Api) → api_eq a b ≡ api_eq b a
unfolding api_eq
api_eq_comm a b = ground arith

count-remove_api :
    (a b : Api) (s : List Api) → count a (remove_api b s) ≡ (if api_eq a b then 0 else count a s)
unfolding remove_api count
count-remove_api a b [] = elim (Bool-cases (api_eq a b)) [
  | inl it ↦ rw it refl
  | inr other ↦ rw other refl
]
count-remove_api a b (c ∷ s) = elim (Bool-cases (api_eq b c)) [
  | inl it ↦
      rw (it, count-remove_api a b s, ← api_eq_sound b c it)
        (elim (Bool-cases (api_eq a b)) [ inl here ↦ rw here refl | inr other ↦ rw other refl ])
  | inr kept ↦
      rw (kept, count-remove_api a b s)
        (elim (Bool-cases (api_eq a c)) [
          | inl here ↦
              let apart : api_eq a b ≡ false =
                ap (λ (k : Api). api_eq k b) (api_eq_sound a c here) ∙ api_eq_comm c b ∙ kept in
              rw (here, apart) refl
          | inr other ↦ rw other refl
        ])
]

pub remove_api-Represents :
    (b : Api) (s : List Api) (set : Api → Bool)
    → Represents s set
    → Represents (remove_api b s) (λ a. if api_eq a b then false else set a)
remove_api-Represents b s set h a =
    count-remove_api a b s
    ∙ elim (Bool-cases (api_eq a b)) [ inl it ↦ rw it refl | inr other ↦ rw other (h a) ]

-- What a set becomes when the APIs of the public list are added one by one.
abbrev with_public : (Api → Bool) → Api → Bool
with_public set a =
    if api_eq a oasis
    then true
    else if api_eq a eth_pubsub
    then true
    else if api_eq a eth
    then true
    else if api_eq a net
    then true
    else if api_eq a web3
    then true
    else set a

with_public-eq-true : (set : Api → Bool) (a : Api) → with_public set a ≡ true
unfolding api_eq
with_public-eq-true set web3 = refl
with_public-eq-true set net = refl
with_public-eq-true set eth = refl
with_public-eq-true set eth_pubsub = refl
with_public-eq-true set oasis = refl

-- With the APIs of the public list added, the set has all of them.
pub extend-Represents :
    (s : List Api) (set : Api → Bool)
    → Represents s set
    → Represents (extend s public_list) (λ a. true)
unfolding extend
extend-Represents s set h a =
    let h1 = insert_api-Represents web3 s set h in
    let h2 = insert_api-Represents net _ _ h1 in
    let h3 = insert_api-Represents eth _ _ h2 in
    let h4 = insert_api-Represents eth_pubsub _ _ h3 in
    insert_api-Represents oasis _ _ h4 a ∙ ap bit (with_public-eq-true set a)
