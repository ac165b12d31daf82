-- ===== src/Prelude/Options.antt =====
-- The chain of reads that may fail; a module that has `do` blocks over `Option` takes it by name.
use mathlib.Core.Option.{Option, none, some}

infixl 5 ◌>>=◌
abbrev pub ◌>>=◌ {ℓ κ} : {A : Type ℓ} {B : Type κ} → Option A → (A → Option B) → Option B
none >>= f = none
some a >>= f = f a

-- `if test { return errInvalidRecord }`.
infixl 5 ◌>>◌
abbrev pub ◌>>◌ {κ} : {B : Type κ} → Option (Unit {0}) → Option B → Option B
check >> rest = check >>= λ _. rest
