-- ===== src/Rpc/Hosts.antt =====
-- The texts of src/rpc.rs: sets of them, the replacement of a part, and the text of an address.
use oasis_chain.Prelude.{
  ℕ, zero, suc, ◌-◌, Bool, true, false, ◌||◌, if◌then◌else◌, ◌==◌, List, [], ◌∷◌, ◌++◌, length,
  Bytes, bytes_eq, codes,
}
use oasis_chain.Decimal.{to_string}

-- Whether a list has a text.
unfoldable pub has_text : Bytes → List Bytes → Bool
has_text t [] = false
has_text t (u ∷ us) = bytes_eq t u || has_text t us

-- `HashSet::insert` on texts, and the set of a list.
unfoldable pub insert_text : Bytes → List Bytes → List Bytes
unfolding has_text
insert_text t us = if has_text t us then us else us ++ t ∷ []

unfoldable pub text_set : List Bytes → List Bytes → List Bytes
unfolding insert_text
text_set us [] = us
text_set us (t ∷ ts) = text_set (insert_text t us) ts

unfoldable pub starts_with : Bytes → Bytes → Bool
starts_with [] s = true
starts_with (p ∷ ps) [] = false
starts_with (p ∷ ps) (c ∷ s) = let rest = starts_with ps s in if p == c then rest else false

-- `str::replace`, from a place on; of a match that has been replaced some characters are left to skip.
unfoldable pub replace_from : Bytes → Bytes → ℕ → Bytes → Bytes
unfolding starts_with
replace_from from to skip [] = []
replace_from from to (suc skip) (c ∷ s) = replace_from from to skip s
replace_from from to zero (c ∷ s) =
    let matched = replace_from from to (length from - 1) s in
    let unmatched = replace_from from to zero s in
    if starts_with from (c ∷ s) then to ++ matched else c ∷ unmatched

unfoldable pub replace : Bytes → Bytes → Bytes → Bytes
unfolding replace_from
replace from to s = replace_from from to zero s

-- The text of an interface and a port.
unfoldable pub url_of : Bytes → ℕ → Bytes
url_of interface port = interface ++ (codes ":" ++ to_string port)
