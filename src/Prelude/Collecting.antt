-- ===== src/Prelude/Collecting.antt =====
-- What holds of the results that `collect` returns.
use mathlib.Core.Path.{◌≡◌}
use mathlib.Core.Logic.{inl, inr}
use mathlib.Core.List.{List, [], ◌∷◌}
use native.Mathlib.Omega.{arith}
use ws2tcp_router.Prelude.Lists.{All, Any}
use ws2tcp_router.Prelude.Results.{Result, ok, ◌>>=◌, >>=-eq-ok, collect}

module _ {E A B : Type 0} (f : A → Result E B) where
  collect-cons :
      (x : A) (xs : List A) {out : List B}
      → collect f (x ∷ xs) ≡ ok out
      → (y : B) × (ys : List B) × (f x ≡ ok y) × (collect f xs ≡ ok ys) × (y ∷ ys ≡ out)
  collect-cons x xs {out} h =
      let (y, first, h1) = >>=-eq-ok (f x) (λ y. collect f xs >>= λ ys. ok (y ∷ ys)) h in
      let (ys, rest, h2) = >>=-eq-ok (collect f xs) (λ ys. ok (y ∷ ys)) h1 in
      (y, ys, first, rest, ground arith)

  pub collect-All :
      (Q : B → Type 0) (xs : List A) {out : List B}
      → ((x : A) (y : B) → f x ≡ ok y → Q y)
      → collect f xs ≡ ok out
      → All Q out
  collect-All Q [] {out} q h = let same : [] ≡ out = ground arith in rw (← same) tt
  collect-All Q (x ∷ xs) q h =
      let (y, ys, first, rest, same) = collect-cons x xs h in
      rw (← same) (q x y first, collect-All Q xs q rest)

  pub collect-Any :
      (P : A → Type 0) (Q : B → Type 0) (xs : List A) {out : List B}
      → ((x : A) (y : B) → P x → f x ≡ ok y → Q y)
      → collect f xs ≡ ok out
      → Any P xs
      → Any Q out
  collect-Any P Q [] q h found = elim found [ ]
  collect-Any P Q (x ∷ xs) q h found =
      let (y, ys, first, rest, same) = collect-cons x xs h in
      rw (← same) (elim found [
        | inl p ↦ inl (q x y p first)
        | inr later ↦ inr (collect-Any P Q xs q rest later)
      ])
