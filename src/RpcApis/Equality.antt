-- ===== src/RpcApis/Equality.antt =====
-- src/rpc_apis.rs: which sets of APIs `ApiSet::eq` makes equal: as a quotient of the lists by their
-- members, and for sets that are parsed from texts.
use mathlib.Core.Bool.{Bool-set}
use mathlib.Core.Quot
use mathlib.Core.Quot.{Quot, Quot-set}
use oasis_chain.Prelude.{
  Bytes, ok, ◌≡◌, refl, inl, inr, ◌∙◌, ap, sym, Bool, true, false, Bool-cases, List, [], ◌∷◌, ◌↔◌,
  arith,
}
use oasis_chain.RpcApis.{
  Api, ApiSet, api_eq, contains, list_apis, is_subset, set_eq, fixed, default_set, parse_set, split,
  web3, net, eth, eth_pubsub, oasis,
}
use oasis_chain.RpcApis.Spec.{after_parts}
use oasis_chain.RpcApis.Parsing.{listed}
use oasis_chain.RpcApis.Endpoints.{parsed-Represents}
use oasis_chain.RpcApis.Sets.{contains-Represents, api_eq_refl, api_eq_sound}

abbrev SameMembers : List Api → List Api → Type 0
SameMembers s t = (a : Api) → contains a s ≡ contains a t

-- The sets of APIs.
abbrev Apis : Type 0
Apis = Quot SameMembers

-- The set that an `ApiSet` stands for.
abbrev apis_of : ApiSet → Apis
apis_of s = Quot.mk (list_apis s)

unfoldable is_member : Api → Apis → Bool
is_member a = Quot.lift Bool-set (contains a) (λ s t same. same a)

is_subset-contains :
    (s t : List Api) (a : Api) → is_subset s t ≡ true → contains a s ≡ true → contains a t ≡ true
unfolding is_subset contains
is_subset-contains [] t a sub there = ground arith
is_subset-contains (b ∷ s) t a sub there =
    let here : contains b t ≡ true = ground arith in
    let later : is_subset s t ≡ true = ground arith in
    elim (Bool-cases (api_eq a b)) [
      | inl it ↦ ap (λ (k : Api). contains k t) (api_eq_sound a b it) ∙ here
      | inr other ↦ is_subset-contains s t a later (rw other at there)
    ]

contains-is_subset :
    (s t : List Api)
    → ((a : Api) → contains a s ≡ true → contains a t ≡ true)
    → is_subset s t ≡ true
unfolding is_subset contains
contains-is_subset [] t within = refl
contains-is_subset (b ∷ s) t within = ground (
  arith,
  within b (rw (api_eq_refl b) refl),
  contains-is_subset s t (λ a there. within a (ground (arith, there))),
)

set_eq-SameMembers : (s t : ApiSet) → set_eq s t ≡ true → SameMembers (list_apis s) (list_apis t)
unfolding set_eq
set_eq-SameMembers s t e a =
    let into = is_subset-contains (list_apis s) (list_apis t) a in
    let back = is_subset-contains (list_apis t) (list_apis s) a in ground (arith, into, back)

SameMembers-set_eq : (s t : ApiSet) → SameMembers (list_apis s) (list_apis t) → set_eq s t ≡ true
unfolding set_eq
SameMembers-set_eq s t same = ground (
  arith,
  contains-is_subset (list_apis s) (list_apis t) (λ a there. sym (same a) ∙ there),
  contains-is_subset (list_apis t) (list_apis s) (λ a there. same a ∙ there),
)

-- `ApiSet::eq` is the equality of the quotient.
set_eq_iff : (s t : ApiSet) → (set_eq s t ≡ true) ↔ (apis_of s ≡ apis_of t)
unfolding is_member
set_eq_iff s t = (
  λ e. Quot.sound (set_eq-SameMembers s t e),
  λ same. SameMembers-set_eq s t (λ a. ap (is_member a) same),
)

-- What a text says of an API: whether the last of its parts that speaks of it adds it.
abbrev pub said : Bytes → Api → Bool
said text = after_parts (split b',' text) (λ a. false)

parsed-contains :
    (s : Bytes) (apis : List Api)
    → listed (parse_set s) ≡ ok apis
    → (a : Api) → contains a apis ≡ said s a
parsed-contains s apis e a = contains-Represents a apis (said s) (parsed-Represents s apis e)

-- The set of a new configuration has every API.
default_set-contains : (a : Api) → contains a (list_apis default_set) ≡ true
unfolding list_apis default_set contains api_eq
default_set-contains web3 = refl
default_set-contains net = refl
default_set-contains eth = refl
default_set-contains eth_pubsub = refl
default_set-contains oasis = refl

-- Two texts that parse stand for the same set of APIs, by `ApiSet::eq`, exactly when for each API the
-- last part that speaks of it adds it in both or in neither; and a text that parses stands for the
-- set of a new configuration exactly when for each of the five APIs the last part that speaks of it
-- adds it.
pub parsed-set_eq :
    (s : Bytes) (apis : List Api)
    → listed (parse_set s) ≡ ok apis
    → (t : Bytes) (others : List Api) → listed (parse_set t) ≡ ok others
    → ((set_eq (fixed apis) (fixed others) ≡ true) ↔ ((a : Api) → said s a ≡ said t a))
      × ((set_eq (fixed apis) default_set ≡ true) ↔ ((a : Api) → said s a ≡ true))
unfolding list_apis
parsed-set_eq s apis e t others e' =
    let in_s = parsed-contains s apis e in
    let in_t = parsed-contains t others e' in
    (
      (
        λ same a. sym (in_s a) ∙ set_eq-SameMembers (fixed apis) (fixed others) same a ∙ in_t a,
        λ same.
            SameMembers-set_eq (fixed apis) (fixed others) (λ a. in_s a ∙ same a ∙ sym (in_t a)),
      ),
      (
        λ same a.
            sym (in_s a)
            ∙ set_eq-SameMembers (fixed apis) default_set same a
            ∙ default_set-contains a,
        λ every.
            SameMembers-set_eq (fixed apis) default_set
              (λ a. in_s a ∙ every a ∙ sym (default_set-contains a)),
      ),
    )
