-- ===== src/Prelude/Results.antt =====
-- How a Rust function ends: with a value, with an error value, or by a panic.
use mathlib.Core.Path.{◌≡◌, refl}
use mathlib.Core.Logic.{◌⊎◌, inl, inr}
use mathlib.Core.Option.{Option, none, some}
use mathlib.Core.Bool.{Bool, true, false}

pub data Result {ℓ κ} (E : Type ℓ) (A : Type κ) : Type (ℓ ⊔ κ) where
  panic : Result E A
  err : E → Result E A
  ok : A → Result E A

-- The `?` of Rust: an error or a panic ends the chain.
infixl 5 ◌>>=◌ ◌>>◌
abbrev pub ◌>>=◌ {ℓ κ μ} :
    {E : Type ℓ} {A : Type κ} {B : Type μ} (call : Result E A) (rest : A → Result E B) → Result E B
panic >>= rest = panic
err reason >>= rest = err reason
ok value >>= rest = rest value

-- `if !test { return Err(reason) }`
abbrev pub guard {ℓ} : {E : Type ℓ} (test : Bool) (reason : E) → Result E (Unit {0})
guard false reason = err reason
guard true reason = ok tt

abbrev pub ◌>>◌ {ℓ μ} :
    {E : Type ℓ} {B : Type μ} (call : Result E (Unit {0})) (rest : Result E B) → Result E B
call >> rest = call >>= λ nothing. rest

abbrev pub map_err {ℓ κ μ} :
    {E : Type ℓ} {F : Type κ} {A : Type μ} → (E → F) → Result E A → Result F A
map_err f panic = panic
map_err f (err e) = err (f e)
map_err f (ok a) = ok a

-- `unwrap`, `expect` and `assert!`.
abbrev pub unwrap {ℓ κ} : {E : Type ℓ} {A : Type κ} → Option A → Result E A
unwrap none = panic
unwrap (some a) = ok a

abbrev pub assert {ℓ} : {E : Type ℓ} → Bool → Result E (Unit {0})
assert true = ok tt
assert false = panic

-- `ok_or`
abbrev pub or_err {ℓ κ} : {E : Type ℓ} {A : Type κ} → Option A → E → Result E A
or_err none e = err e
or_err (some a) e = ok a

-- A chain that succeeds has a first step that yields a value, from which the rest succeeds.
pub >>=-eq-ok {ℓ κ μ} :
    {E : Type ℓ} {A : Type κ} {B : Type μ} (call : Result E A) (rest : A → Result E B) {end : B}
    → (call >>= rest) ≡ ok end
    → (value : A) × (call ≡ ok value) × (rest value ≡ ok end)
>>=-eq-ok panic rest done = cc
>>=-eq-ok (err reason) rest done = cc
>>=-eq-ok (ok value) rest done = (value, refl, done)

pub or_err-eq-ok {ℓ κ} :
    {E : Type ℓ} {A : Type κ} (o : Option A) (e : E) {a : A} → or_err o e ≡ ok a → o ≡ some a
or_err-eq-ok none e h = cc
or_err-eq-ok (some a) e h = cc

pub unwrap-eq-ok {ℓ κ} :
    {E : Type ℓ} {A : Type κ} (o : Option A) {a : A} → unwrap {E = E} o ≡ ok a → o ≡ some a
unwrap-eq-ok none h = cc
unwrap-eq-ok (some a) h = cc

pub ok-injective {ℓ κ} :
    {E : Type ℓ} {A : Type κ} {a b : A} → ◌≡◌ {A = Result E A} (ok a) (ok b) → a ≡ b
ok-injective e = cc

-- To split on how a call ends and keep the equation.
pub Result-cases {ℓ κ} :
    {E : Type ℓ} {A : Type κ} (r : Result E A)
    → ((a : A) × (r ≡ ok a)) ⊎ (((e : E) × (r ≡ err e)) ⊎ (r ≡ panic))
Result-cases (ok a) = inl (a, refl)
Result-cases (err e) = inr (inl (e, refl))
Result-cases panic = inr (inr refl)
