-- ===== src/Prelude/Results.antt =====
-- What a Go function with an `error` result returns: a value, or the error in its place.
use mathlib.Core.Path.{◌≡◌, refl}
use mathlib.Core.Logic.{◌⊎◌, inl, inr}
use mathlib.Core.Bool.{Bool, true, false}

pub data Fallible {ℓ} (E : Type 0) (A : Type ℓ) : Type ℓ where
  err : E → Fallible E A
  ok : A → Fallible E A

infixl 5 ◌>>◌ ◌>>=◌
abbrev pub ◌>>=◌ {ℓ κ} :
    {E : Type 0} {A : Type ℓ} {B : Type κ} → Fallible E A → (A → Fallible E B) → Fallible E B
err failure >>= next = err failure
ok value >>= next = next value

abbrev pub ◌>>◌ {κ} :
    {E : Type 0} {B : Type κ} → Fallible E (Unit {0}) → Fallible E B → Fallible E B
check >> rest = check >>= λ _. rest

-- `if test { return failure }`.
abbrev pub fail_if : {E : Type 0} → Bool → E → Fallible E (Unit {0})
fail_if false failure = ok tt
fail_if true failure = err failure

-- `if err != nil { return failure }`, and the test `err != nil`.
abbrev pub or_else {ℓ} : {E : Type 0} {A : Type ℓ} → Fallible E A → E → Fallible E A
or_else (err _) failure = err failure
or_else (ok value) failure = ok value

abbrev pub is_err {ℓ} : {E : Type 0} {A : Type ℓ} → Fallible E A → Bool
is_err (err _) = true
is_err (ok _) = false

-- What a successful chain has passed through.
pub >>=-eq-ok {ℓ κ} :
    {E : Type 0} {A : Type ℓ} {B : Type κ} (first : Fallible E A) (next : A → Fallible E B) {b : B}
    → (first >>= next) ≡ ok b
    → (value : A) × (first ≡ ok value) × (next value ≡ ok b)
>>=-eq-ok (err failure) next passed = cc
>>=-eq-ok (ok value) next passed = (value, refl, passed)

pub ok_injective {ℓ} :
    {E : Type 0} {A : Type ℓ} {a b : A} → ◌≡◌ {A = Fallible E A} (ok a) (ok b) → a ≡ b
ok_injective same = cc

pub fail_if-eq-ok {κ} :
    {E : Type 0} {B : Type κ} (test : Bool) (failure : E) (rest : Fallible E B) {b : B}
    → (fail_if test failure >> rest) ≡ ok b
    → (test ≡ false) × (rest ≡ ok b)
fail_if-eq-ok false failure rest passed = (refl, passed)
fail_if-eq-ok true failure rest passed = cc

pub or_else-eq-ok {ℓ} :
    {E : Type 0} {A : Type ℓ} (tried : Fallible E A) (failure : E) {a : A}
    → or_else tried failure ≡ ok a
    → tried ≡ ok a
or_else-eq-ok (err _) failure passed = cc
or_else-eq-ok (ok value) failure passed = passed

pub Fallible-cases {ℓ} :
    {E : Type 0} {A : Type ℓ} (m : Fallible E A)
    → ((failure : E) × (m ≡ err failure)) ⊎ ((value : A) × (m ≡ ok value))
Fallible-cases (err failure) = inl (failure, refl)
Fallible-cases (ok value) = inr (value, refl)
