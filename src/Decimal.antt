-- ===== src/Decimal.antt =====
-- `to_string` on an unsigned number: its decimal digits as ASCII bytes.
pub mod Parsing
use oasis_chain.Prelude.{
  ℕ, zero, suc, ◌+◌, ◌-◌, ◌*◌, ◌/◌, ◌%◌, ◌≤◌, ◌≡◌, refl, ap, sym, ◌∙◌, inl, inr, [], ◌∷◌, ◌++◌,
  Bytes, ltb, if◌then◌else◌, arith, Bool-cases,
}

-- The number itself is enough fuel, since a division by ten makes it smaller.
digits : ℕ → ℕ → Bytes
digits zero n = (48 + n % 10) ∷ []
digits (suc fuel) n =
    let more = digits fuel (n / 10) ++ (48 + n % 10) ∷ [] in
    if ltb n 10 then (48 + n) ∷ [] else more

unfoldable pub to_string : ℕ → Bytes
unfolding digits
to_string n = digits n n

value_from : ℕ → Bytes → ℕ
value_from acc [] = acc
value_from acc (d ∷ ds) = value_from (acc * 10 + (d - 48)) ds

value_from-append :
    (acc : ℕ) (xs ys : Bytes) → value_from acc (xs ++ ys) ≡ value_from (value_from acc xs) ys
unfolding value_from
value_from-append acc [] ys = refl
value_from-append acc (x ∷ xs) ys = value_from-append (acc * 10 + (x - 48)) xs ys

value-digits : (fuel n : ℕ) → n ≤ fuel → value_from 0 (digits fuel n) ≡ n
unfolding value_from digits
value-digits zero n h = omega arith
value-digits (suc fuel) n h = elim (Bool-cases (ltb n 10)) [
  | inl small ↦ rw small (ground arith)
  | inr large ↦
      rw (large, value_from-append 0 (digits fuel (n / 10)) ((48 + n % 10) ∷ []))
        (rw (value-digits fuel (n / 10) (ground arith)) (omega arith))
]

-- The number that digits are read as.
unfoldable pub parse : Bytes → ℕ
unfolding value_from
parse bytes = value_from 0 bytes

pub parse-to_string : (n : ℕ) → parse (to_string n) ≡ n
unfolding to_string parse
parse-to_string n = value-digits n n (omega arith)

-- Different numbers have different digits.
pub to_string-injective : (m n : ℕ) → to_string m ≡ to_string n → m ≡ n
to_string-injective m n e = sym (parse-to_string m) ∙ ap parse e ∙ parse-to_string n
