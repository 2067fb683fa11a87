-- ===== src/RpcApis/Parsing.antt =====
-- What set of APIs a text stands for (src/rpc_apis.rs).
use oasis_chain.Prelude.{
  ◌≡◌, ◌⊎◌, refl, ap, sym, ◌∙◌, subst, inl, inr, Bool, true, false, Bool-cases, if◌then◌else◌, List,
  [], ◌∷◌, ◌++◌, Option, none, some, Bytes, bytes_eq, codes, Result, ok, err, panic, ◌>>=◌,
}
use mathlib.Core.Option
use oasis_chain.RpcApis.{
  Api, web3, api_eq, ApiSet, fixed, all, unsafe_context, insert_api, remove_api, extend, list_apis,
  after_minus, apply_one, apply_part, apply_parts, parse_set, split,
}
use oasis_chain.RpcApis.Names.{
  name, parse_api-Answered, named, not_named, after_minus-some, minus_no_name, no_minus,
}
use oasis_chain.RpcApis.Spec.{says, last_said, IsKnown, IsUnknown, Outcome}
use oasis_chain.RpcApis.Sets.{
  bit, count, Represents, api_eq_refl, insert_api-Represents, remove_api-Represents,
  extend-Represents,
}

-- What comes of a part: the set that it says, or an error if it says nothing of any API.
abbrev Step : Bytes → (Api → Bool) → Result Bytes (List Api) → Type 0
Step part set answer =
    ((next : List Api) × (answer ≡ ok next)
      × Represents next (λ a. Option.get_or (says a part) (set a))
      × IsKnown part)
    ⊎ ((message : Bytes) × (answer ≡ err message) × IsUnknown part message)

-- A part that says one thing of one API.
says_one-bit :
    (part : Bytes) (set : Api → Bool) (v : Bool) (b : Api)
    → ((a : Api) → says a part ≡ (if api_eq a b then some v else none))
    → (a : Api) → bit (if api_eq a b then v else set a) ≡ bit (Option.get_or (says a part) (set a))
says_one-bit part set v b said a =
    rw (said a) (elim (Bool-cases (api_eq a b)) [ inl it ↦ rw it refl | inr other ↦ rw other refl ])

says_one-IsKnown :
    (part : Bytes) (v : Bool) (b : Api)
    → ((a : Api) → says a part ≡ (if api_eq a b then some v else none))
    → IsKnown part
says_one-IsKnown part v b said = (
  b,
  λ nothing. let conflict = sym nothing ∙ said b in let e = rw (api_eq_refl b) at conflict in cc,
)

module _ (apis : List Api) (set : Api → Bool) (h : Represents apis set) (part : Bytes) where
  module _ (not_all : bytes_eq part (codes "all") ≡ false)
      (not_safe : bytes_eq part (codes "safe") ≡ false) where
    removed-Step :
        (rest : Bytes)
        → after_minus part ≡ some rest
        → Step part set (apply_one apis part (some rest))
    unfolding apply_one says
    removed-Step rest e =
        let part_is = after_minus-some part rest e in
        let same : (a : Api) → bytes_eq part (codes "-" ++ name a) ≡ bytes_eq rest (name a) =
          λ a. ap (λ (k : Bytes). bytes_eq k (codes "-" ++ name a)) part_is in
        elim (parse_api-Answered rest) [
          | inl (b, ok_b) ↦
              let said : (a : Api) → says a part ≡ (if api_eq a b then some false else none) = λ a.
                rw (not_all, not_safe, minus_no_name part rest e a, same a, named rest b ok_b a)
                  refl in
              rw ok_b (
                inl (
                  remove_api b apis,
                  refl,
                  λ a. remove_api-Represents b apis set h a ∙ says_one-bit part set false b said a,
                  says_one-IsKnown part false b said,
                ))
          | inr wrong ↦ rw wrong (
              inr (
                codes "Unknown api: " ++ rest,
                refl,
                (
                  λ a.
                      rw
                        (
                          not_all,
                          not_safe,
                          minus_no_name part rest e a,
                          same a,
                          not_named rest wrong a,
                        )
                        refl,
                  (rest, refl, inr part_is),
                ),
              ))
        ]

    added-Step : after_minus part ≡ none → Step part set (apply_one apis part none)
    unfolding apply_one says
    added-Step e = elim (parse_api-Answered part) [
      | inl (b, ok_b) ↦
          let said : (a : Api) → says a part ≡ (if api_eq a b then some true else none) =
            λ a. rw (not_all, not_safe, no_minus part e a, named part b ok_b a) refl in
          rw ok_b (
            inl (
              insert_api b apis,
              refl,
              λ a. insert_api-Represents b apis set h a ∙ says_one-bit part set true b said a,
              says_one-IsKnown part true b said,
            ))
      | inr wrong ↦ rw wrong (
          inr (
            codes "Unknown api: " ++ part,
            refl,
            (
              λ a. rw (not_all, not_safe, no_minus part e a, not_named part wrong a) refl,
              (part, refl, inl refl),
            ),
          ))
    ]

    one-Step :
        (minus : Option Bytes)
        → after_minus part ≡ minus
        → Step part set (apply_one apis part minus)
    one-Step none e = added-Step e
    one-Step (some rest) e = removed-Step rest e

  apply_part-Step : Step part set (apply_part apis part)
  unfolding apply_part says list_apis
  apply_part-Step = elim (Bool-cases (bytes_eq part (codes "all"))) [
    | inl is_all ↦ rw is_all (
        inl
          (extend apis (list_apis all), refl, extend-Represents apis set h, (web3, λ nothing. cc)))
    | inr not_all ↦ elim (Bool-cases (bytes_eq part (codes "safe"))) [
      | inl is_safe ↦
          rw (not_all, is_safe)
            (inl (
              extend apis (list_apis unsafe_context),
              refl,
              extend-Represents apis set h,
              (web3, λ nothing. cc),
            ))
      | inr not_safe ↦
          let same : apply_part apis part ≡ apply_one apis part (after_minus part) =
            rw (not_all, not_safe) refl in
          subst (Step part set) (sym same) (one-Step not_all not_safe (after_minus part) refl)
    ]
  ]

get_or-later :
    (x y : Option Bool) (d : Bool)
    → Option.get_or x (Option.get_or y d) ≡ Option.get_or (elim x [ some b ↦ some b | none ↦ y ]) d
get_or-later none y d = refl
get_or-later (some b) y d = refl

apply_parts-Outcome :
    (apis : List Api) (set : Api → Bool) (parts : List Bytes)
    → Represents apis set
    → Outcome parts set (apply_parts apis parts)
unfolding apply_parts last_said
apply_parts-Outcome apis set [] h = inl (apis, refl, h, tt)
apply_parts-Outcome apis set (part ∷ parts) h = elim (apply_part-Step apis set h part) [
  | inl (next, done, h', known) ↦
      rw done (elim (apply_parts-Outcome next (λ a. Option.get_or (says a part) (set a)) parts h') [
        | inl (last, ended, h'', all_known) ↦ inl (
          last,
          ended,
          λ a. h'' a ∙ ap bit (get_or-later (last_said a parts) (says a part) (set a)),
          (known, all_known),
        )
        | inr (message, failed, before, bad, after, split_at, known', unknown) ↦ inr (
          message,
          failed,
          part ∷ before,
          bad,
          after,
          ap (λ (k : List Bytes). part ∷ k) split_at,
          (known, known'),
          unknown,
        )
      ])
  | inr (message, failed, unknown) ↦
      rw failed (inr (message, refl, [], part, parts, refl, tt, unknown))
]

-- The list of a set that was parsed.
unfoldable pub listed : Result Bytes ApiSet → Result Bytes (List Api)
listed answer = answer >>= λ set. ok (list_apis set)

listed-fixed :
    (answer : Result Bytes (List Api)) → answer ≡ listed (answer >>= λ apis. ok (fixed apis))
unfolding listed list_apis
listed-fixed (ok apis) = refl
listed-fixed (err message) = refl
listed-fixed panic = refl

Represents-nil : Represents [] (λ a. false)
unfolding count
Represents-nil a = refl

-- A text that names a set of APIs either has only parts that say something of some API, and then
-- the set has each API once for which the last part that speaks of it adds it, and no other; or the
-- answer is the error for the first part that says nothing of any API, with its name. It never
-- panics.
pub parse_set-Outcome : (s : Bytes) → Outcome (split b',' s) (λ a. false) (listed (parse_set s))
unfolding parse_set
parse_set-Outcome s =
    let parts = split b',' s in
    subst (Outcome parts (λ a. false)) (listed-fixed (apply_parts [] parts))
      (apply_parts-Outcome [] (λ a. false) parts Represents-nil)
