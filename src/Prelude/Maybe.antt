-- ===== src/Prelude/Maybe.antt =====
-- `Option` with its `?`, and functions that return early with `None`.
use mathlib.Core.Path.{◌≡◌, refl}
use mathlib.Core.Option.{Option, none, some}
use mathlib.Core.Bool.{Bool, true, false}

-- `if !test { return None }`
abbrev pub guard : Bool → Option (Unit {0})
guard true = some tt
guard false = none

infixl 5 ◌>>◌ ◌>>=◌
abbrev pub ◌>>=◌ {ℓ κ} : {A : Type ℓ} {B : Type κ} → Option A → (A → Option B) → Option B
some a >>= next = next a
none >>= next = none

abbrev pub ◌>>◌ {ℓ} : {B : Type ℓ} → Option (Unit {0}) → Option B → Option B
test >> rest = test >>= λ _. rest

-- What a successful chain went through, one step for each rule.
module _ {ℓ κ ν} {A : Type ℓ} {B : Type κ} {R : Type ν} where
  pub through :
      (o : Option A) (f : A → Option B) {b : B}
      → (o >>= f) ≡ some b
      → ((a : A) → o ≡ some a → f a ≡ some b → R)
      → R
  through none f h k = absurd (cc)
  through (some a) f h k = k a refl h

pub through_guard {ℓ ν} :
    {B : Type ℓ} {R : Type ν} (test : Bool) (rest : Option B) {b : B}
    → (guard test >> rest) ≡ some b
    → (test ≡ true → rest ≡ some b → R)
    → R
through_guard true rest h k = k refl h
through_guard false rest h k = absurd (cc)
