-- ===== src/Decimal/Parsing.antt =====
-- `str::parse` on unsigned integers: decimal digits after an optional plus sign, below a limit.
use oasis_chain.Prelude.{
  ℕ, zero, suc, ◌+◌, ◌-◌, ◌*◌, ◌/◌, ◌%◌, ◌≤◌, ◌<◌, ◌≡◌, refl, ap, ◌∙◌, ltb→lt, inl, inr, Bool,
  false, Bool-cases, ◌&&◌, leb, ltb, ◌==◌, if◌then◌else◌, Option, none, some, [], ◌∷◌, ◌++◌, Bytes,
  arith,
}
use oasis_chain.Decimal.{digits, to_string}

is_digit : ℕ → Bool
is_digit c = leb 48 c && leb c 57

-- `checked_mul` by ten and `checked_add` of the digit, for each digit.
parse_digits : ℕ → ℕ → Bytes → Option ℕ
unfolding is_digit
parse_digits limit acc [] = some acc
parse_digits limit acc (c ∷ cs) =
    let rest = parse_digits limit (acc * 10 + (c - 48)) cs in
    if is_digit c && (ltb (acc * 10) limit && ltb (acc * 10 + (c - 48)) limit) then rest else none

-- At least one digit.
parse_some_digits : ℕ → Bytes → Option ℕ
unfolding parse_digits
parse_some_digits limit [] = none
parse_some_digits limit (c ∷ cs) = parse_digits limit 0 (c ∷ cs)

-- The error of a text that is no number, or one that is not below the limit, is left out.
unfoldable pub parse_unsigned : ℕ → Bytes → Option ℕ
unfolding parse_some_digits
parse_unsigned limit [] = none
parse_unsigned limit (c ∷ cs) =
    if c == b'+' then parse_some_digits limit cs else parse_some_digits limit (c ∷ cs)

parse_digits-append :
    (limit acc : ℕ) (xs ys : Bytes) (n : ℕ)
    → parse_digits limit acc xs ≡ some n
    → parse_digits limit acc (xs ++ ys) ≡ parse_digits limit n ys
unfolding parse_digits
parse_digits-append limit acc [] ys n e = ground arith
parse_digits-append limit acc (x ∷ xs) ys n e =
    ground (arith, parse_digits-append limit (acc * 10 + (x - 48)) xs ys n)

parse_digits-last :
    (limit m d : ℕ)
    → d < 10
    → m * 10 + d < limit
    → parse_digits limit m ((48 + d) ∷ []) ≡ some (m * 10 + d)
unfolding parse_digits
parse_digits-last limit m d small below = ground arith

parse_digits-digits :
    (limit fuel n : ℕ) → n ≤ fuel → n < limit → parse_digits limit 0 (digits fuel n) ≡ some n
unfolding digits
parse_digits-digits limit zero n le below =
    parse_digits-last limit 0 (n % 10) (omega arith) (omega arith) ∙ ap some (omega arith)
parse_digits-digits limit (suc fuel) n le below = elim (Bool-cases (ltb n 10)) [
  | inl small ↦
      rw small
        (parse_digits-last limit 0 n (ltb→lt n 10 small) (omega arith) ∙ ap some (omega arith))
  | inr large ↦
      let up : 10 ≤ n = ground arith in
      rw large (
        parse_digits-append limit 0 (digits fuel (n / 10)) ((48 + n % 10) ∷ []) (n / 10)
          (parse_digits-digits limit fuel (n / 10) (omega arith) (omega arith))
        ∙ parse_digits-last limit (n / 10) (n % 10) (omega arith) (omega arith)
        ∙ ap some (omega arith))
]

-- There is a first digit, which is no plus sign.
StartsWithDigit : Bytes → Type 0
StartsWithDigit bytes = (c : ℕ) × (cs : Bytes) × (bytes ≡ c ∷ cs) × (48 ≤ c)

digits-StartsWithDigit : (fuel n : ℕ) → StartsWithDigit (digits fuel n)
unfolding digits StartsWithDigit
digits-StartsWithDigit zero n = (48 + n % 10, [], refl, omega arith)
digits-StartsWithDigit (suc fuel) n = elim (Bool-cases (ltb n 10)) [
  | inl small ↦ rw small (48 + n, [], refl, omega arith)
  | inr large ↦
      let (c, cs, e, digit) = digits-StartsWithDigit fuel (n / 10) in
      rw large (c, cs ++ (48 + n % 10) ∷ [], rw e refl, digit)
]

-- A number below the limit is read from its digits.
pub parse_unsigned-to_string :
    (limit n : ℕ) → n < limit → parse_unsigned limit (to_string n) ≡ some n
unfolding parse_unsigned to_string StartsWithDigit
parse_unsigned-to_string limit n below =
    let (c, cs, e, digit) = digits-StartsWithDigit n n in
    let whole = parse_digits-digits limit n n (omega arith) below in
    let plain : (c == b'+') ≡ false = ground arith in rw (e, plain) (rw e at whole)
