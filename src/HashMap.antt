-- ===== src/HashMap.antt =====
-- `std::collections::HashMap`: a finite map, as the list of its entries. The program never
-- iterates over a map in an order that it shows, so the order of entries is not modelled.
pub mod Laws
pub mod Values
use ws2tcp_router.Prelude.{
  ℕ, Bool, true, false, Option, none, some, List, [], ◌∷◌, Eq, if◌then◌else◌, length, is_some, ◌≡◌,
}

abbrev pub HashMap {ℓ} : Type ℓ → Type ℓ → Type ℓ
HashMap K V = List (K × V)

module _ {ℓ} {K V : Type ℓ} ⦃e : Eq K⦄ where
  unfoldable pub get : K → HashMap K V → Option V
  get k [] = none
  get k ((j, v) ∷ m) = if e.beq j k then some v else get k m

  unfoldable pub without : K → HashMap K V → HashMap K V
  without k [] = []
  without k ((j, v) ∷ m) = let rest = without k m in if e.beq j k then rest else (j, v) ∷ rest

  unfoldable pub insert : K → V → HashMap K V → HashMap K V
  insert k v m = (k, v) ∷ without k m

  unfoldable pub contains_key : K → HashMap K V → Bool
  contains_key k m = is_some (get k m)

  -- No key has two entries: what the implementation of a map ensures.
  abbrev pub IsMap : HashMap K V → Type ℓ
  IsMap [] = Unit
  IsMap ((k, v) ∷ m) = (get k m ≡ none) × IsMap m

-- The tests that the program hands to `retain` look at the value only.
unfoldable pub retain {ℓ} : {K V : Type ℓ} → (V → Bool) → HashMap K V → HashMap K V
retain keep [] = []
retain keep ((k, v) ∷ m) = let rest = retain keep m in if keep v then (k, v) ∷ rest else rest

abbrev pub keep_if {ℓ} : {V : Type ℓ} → (V → Bool) → Option V → Option V
keep_if keep none = none
keep_if keep (some v) = if keep v then some v else none
