-- ===== src/HashMap/Values.antt =====
-- A property of every value of a map, and the relation of a map to one that a sweep has thinned.
use mathlib.Core.Path.{subst}
use ws2tcp_router.Prelude.{Bool, true, some, [], ◌∷◌, Eq, ◌≡◌, arith, All, Bool-cases, inl, inr}
use ws2tcp_router.HashMap.{HashMap, get, without, insert, IsMap, retain}
use ws2tcp_router.HashMap.Laws.{get-retain}

module _ {ℓ} {K V : Type ℓ} (P : V → Type ℓ) where
  -- Every value has the property.
  abbrev pub Each : HashMap K V → Type ℓ
  Each = All (λ e. P e.1)

  pub retain-Each : (keep : V → Bool) (m : HashMap K V) → Each m → Each (retain keep m)
  unfolding retain
  retain-Each keep [] h = h
  retain-Each keep ((k, v) ∷ m) h = ground (arith, retain-Each keep m h.1)

  -- What survives a filter passes its test.
  pub retain-Each_test :
      (keep : V → Bool) (m : HashMap K V) → ((v : V) → keep v ≡ true → P v) → Each (retain keep m)
  unfolding retain
  retain-Each_test keep [] h = tt
  retain-Each_test keep ((k, v) ∷ m) h = ground (arith, retain-Each_test keep m h, h v)

module _ {ℓ} {K V : Type ℓ} ⦃e : Eq K⦄ (P : V → Type ℓ) where
  pub without-Each : (k : K) (m : HashMap K V) → Each P m → Each P (without k m)
  unfolding without
  without-Each k [] h = h
  without-Each k ((j, v) ∷ m) h = ground (arith, without-Each k m h.1)

  pub insert-Each : (k : K) (v : V) (m : HashMap K V) → P v → Each P m → Each P (insert k v m)
  unfolding insert
  insert-Each k v m p h = (p, without-Each k m h)

  pub get-Each : (k : K) (m : HashMap K V) {v : V} → Each P m → get k m ≡ some v → P v
  unfolding get
  get-Each k [] h found = cc
  get-Each k ((j, w) ∷ m) {v} h found = elim (Bool-cases (e.beq j k)) [
    | inl here ↦ subst P (ground arith) h.0
    | inr later ↦ get-Each k m {v = v} h.1 (ground arith)
  ]

-- The second map has only entries of the first, and all of those that pass the test.
pub record Shrinks {ℓ} {K V : Type ℓ} ⦃e : Eq K⦄ (keep : V → Bool) (m m' : HashMap K V)
    : Type ℓ where
  pub back : (k : K) (v : V) → get k m' ≡ some v → get k m ≡ some v
  pub kept : (k : K) (v : V) → get k m ≡ some v → keep v ≡ true → get k m' ≡ some v

module _ {ℓ} {K V : Type ℓ} ⦃e : Eq K⦄ (keep : V → Bool) where
  pub Shrinks-refl : (m : HashMap K V) → Shrinks keep m m
  Shrinks-refl m = record { back = λ k v h. h; kept = λ k v h _. h }

  pub Shrinks-trans :
      (m m' m'' : HashMap K V) → Shrinks keep m m' → Shrinks keep m' m'' → Shrinks keep m m''
  Shrinks-trans m m' m'' s t = record {
    back = λ k v h. s.back k v (t.back k v h);
    kept = λ k v h live. t.kept k v (s.kept k v h live) live;
  }

  pub Shrinks-retain : (m : HashMap K V) → IsMap m → Shrinks keep m (retain keep m)
  Shrinks-retain m w = record {
    back = λ k v h. ground (arith, get-retain keep k m w);
    kept = λ k v h live. ground (arith, get-retain keep k m w);
  }
