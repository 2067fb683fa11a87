-- ===== src/RpcApis/Names.antt =====
-- The names of the APIs (src/rpc_apis.rs).
use oasis_chain.Prelude.{
  ◌≡◌, ◌⊎◌, ◌==◌, ==_iff, refl, ap, sym, ◌∙◌, inl, inr, Bool, true, false, Bool-cases,
  if◌then◌else◌, [], ◌∷◌, ◌++◌, Option, none, some, Bytes, bytes_eq, bytes_eq_iff, codes, Result,
  ok, err, ok-injective,
}
use oasis_chain.RpcApis.{Api, web3, net, eth, eth_pubsub, oasis, api_eq, parse_api, after_minus}
use oasis_chain.RpcApis.Sets.{api_eq_refl, api_eq_sound}

abbrev pub name : Api → Bytes
name web3 = codes "web3"
name net = codes "net"
name eth = codes "eth"
name eth_pubsub = codes "pubsub"
name oasis = codes "oasis"

parse_api-name : (a : Api) → parse_api (name a) ≡ ok a
unfolding parse_api
parse_api-name web3 = refl
parse_api-name net = refl
parse_api-name eth = refl
parse_api-name eth_pubsub = refl
parse_api-name oasis = refl

-- One test of `parse_api`.
name-if :
    (s : Bytes) (b a : Api) (rest : Result Bytes Api)
    → (rest ≡ ok a → s ≡ name a)
    → (if bytes_eq s (name b) then ok b else rest) ≡ ok a
    → s ≡ name a
name-if s b a rest otherwise e = elim (Bool-cases (bytes_eq s (name b))) [
  | inl it ↦ (bytes_eq_iff s (name b)).0 it ∙ ap name (ok-injective (rw it at e))
  | inr other ↦ otherwise (rw other at e)
]

name-parse_api : (s : Bytes) (a : Api) → parse_api s ≡ ok a → s ≡ name a
unfolding parse_api
name-parse_api s a =
    name-if s web3 a _ (
      name-if s net a _
        (name-if s eth a _ (name-if s eth_pubsub a _ (name-if s oasis a _ λ e. cc))))

-- A text is parsed as an API, or it is not known.
abbrev pub Answered : Bytes → Result Bytes Api → Type 0
Answered s answer = ((a : Api) × (answer ≡ ok a)) ⊎ (answer ≡ err (codes "Unknown api: " ++ s))

Answered-if :
    (s : Bytes) (b : Api) (rest : Result Bytes Api)
    → Answered s rest
    → Answered s (if bytes_eq s (name b) then ok b else rest)
Answered-if s b rest otherwise = elim (Bool-cases (bytes_eq s (name b))) [
  | inl it ↦ rw it (inl (b, refl))
  | inr other ↦ rw other otherwise
]

pub parse_api-Answered : (s : Bytes) → Answered s (parse_api s)
unfolding parse_api
parse_api-Answered s = Answered-if s web3 _ (
    Answered-if s net _
      (Answered-if s eth _ (Answered-if s eth_pubsub _ (Answered-if s oasis _ (inr refl)))))

bool_iff : (x y : Bool) → (x ≡ true → y ≡ true) → (y ≡ true → x ≡ true) → x ≡ y
bool_iff true y f g = sym (f refl)
bool_iff false true f g = g refl
bool_iff false false f g = refl

-- A name that is parsed is the one of that API.
pub named :
    (s : Bytes) (b : Api) → parse_api s ≡ ok b → (a : Api) → bytes_eq s (name a) ≡ api_eq a b
named s b e a =
    bool_iff (bytes_eq s (name a)) (api_eq a b)
      (λ same.
        let s_is : s ≡ name a = (bytes_eq_iff s (name a)).0 same in
        let a_is : a ≡ b = ok-injective (sym (parse_api-name a) ∙ ap parse_api (sym s_is) ∙ e) in
        ap (api_eq a) (sym a_is) ∙ api_eq_refl a)
      λ same.
        (bytes_eq_iff s (name a)).1 (name-parse_api s b e ∙ ap name (sym (api_eq_sound a b same)))

-- A text that is not parsed is no name.
pub not_named :
    (s : Bytes)
    → parse_api s ≡ err (codes "Unknown api: " ++ s)
    → (a : Api) → bytes_eq s (name a) ≡ false
not_named s e a = elim (Bool-cases (bytes_eq s (name a))) [
  | inl same ↦
      let parsed = ap parse_api ((bytes_eq_iff s (name a)).0 same) ∙ parse_api-name a in
      let conflict : ◌≡◌ {A = Result Bytes Api} (err _) (ok a) = sym e ∙ parsed in cc
  | inr other ↦ other
]

after_minus-name : (a : Api) → after_minus (name a) ≡ none
unfolding after_minus
after_minus-name web3 = refl
after_minus-name net = refl
after_minus-name eth = refl
after_minus-name eth_pubsub = refl
after_minus-name oasis = refl

pub after_minus-some : (part rest : Bytes) → after_minus part ≡ some rest → part ≡ codes "-" ++ rest
unfolding after_minus
after_minus-some [] rest e = cc
after_minus-some (c ∷ s) rest e = elim (Bool-cases (c == b'-')) [
  | inl it ↦
      let e' = rw it at e in
      let c_is : c ≡ b'-' = (==_iff c b'-').0 it in let s_is : s ≡ rest = cc in cc
  | inr other ↦ let e' = rw other at e in cc
]

-- A part with a leading `-` is no name, and one without is no name after it.
pub minus_no_name :
    (part rest : Bytes) → after_minus part ≡ some rest → (a : Api) → bytes_eq part (name a) ≡ false
minus_no_name part rest e a = elim (Bool-cases (bytes_eq part (name a))) [
  | inl same ↦
      let conflict : ◌≡◌ {A = Option Bytes} (some rest) none =
        sym e ∙ ap after_minus ((bytes_eq_iff part (name a)).0 same) ∙ after_minus-name a in
      cc
  | inr other ↦ other
]

pub no_minus :
    (part : Bytes)
    → after_minus part ≡ none
    → (a : Api) → bytes_eq part (codes "-" ++ name a) ≡ false
unfolding after_minus
no_minus part e a = elim (Bool-cases (bytes_eq part (codes "-" ++ name a))) [
  | inl same ↦
      let e' = ap after_minus (sym ((bytes_eq_iff part (codes "-" ++ name a)).0 same)) ∙ e in cc
  | inr other ↦ other
]
