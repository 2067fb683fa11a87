-- ===== src/RpcApis/Spec.antt =====
-- What a text that names APIs is meant to say (src/rpc_apis.rs): the last part that speaks of an API
-- decides whether the set has it.
use oasis_chain.Prelude.{
  ◌≡◌, ◌≢◌, ◌⊎◌, Bool, true, false, if◌then◌else◌, List, [], ◌∷◌, ◌++◌, Option, none, some, Bytes,
  bytes_eq, codes, Result, ok, err, All,
}
use mathlib.Core.Option
use oasis_chain.RpcApis.{Api}
use oasis_chain.RpcApis.Names.{name}
use oasis_chain.RpcApis.Sets.{Represents}

-- What a part says of an API: that it is added, that it is removed, or nothing.
unfoldable pub says : Api → Bytes → Option Bool
says a part =
    if bytes_eq part (codes "all")
    then some true
    else if bytes_eq part (codes "safe")
    then some true
    else if bytes_eq part (name a)
    then some true
    else if bytes_eq part (codes "-" ++ name a)
    then some false
    else none

-- The last part that says something of an API decides.
unfoldable pub last_said : Api → List Bytes → Option Bool
last_said a [] = none
last_said a (part ∷ parts) = elim (last_said a parts) [ some b ↦ some b | none ↦ says a part ]

-- A part says something of some API.
abbrev pub IsKnown : Bytes → Type 0
IsKnown part = (a : Api) × (says a part ≢ none)

-- A set after a part that says something.
abbrev pub after_parts : List Bytes → (Api → Bool) → Api → Bool
after_parts parts set a = Option.get_or (last_said a parts) (set a)

-- The error of a part that says nothing of any API names it, less a leading `-`.
abbrev pub IsUnknown : Bytes → Bytes → Type 0
IsUnknown part message =
    ((a : Api) → says a part ≡ none)
    × ((name : Bytes) × (message ≡ codes "Unknown api: " ++ name)
        × ((part ≡ name) ⊎ (part ≡ codes "-" ++ name)))

-- What comes of some parts: the set that they say, or the error of the first that says nothing.
abbrev pub Outcome : List Bytes → (Api → Bool) → Result Bytes (List Api) → Type 0
Outcome parts set answer =
    ((apis : List Api) × (answer ≡ ok apis)
      × Represents apis (after_parts parts set)
      × All IsKnown parts)
    ⊎ ((message : Bytes) × (answer ≡ err message)
        × (before : List Bytes) × (part : Bytes) × (after : List Bytes) × (parts
            ≡ before ++ part ∷ after)
        × All IsKnown before
        × IsUnknown part message)
