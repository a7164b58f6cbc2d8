-- ===== src/HashMap/Laws.antt =====
-- The laws of the map's operations: what each key is mapped to afterwards, and the size.
use ws2tcp_router.Prelude.{
  ◌+◌, ◌≤◌, Bool, true, none, some, [], ◌∷◌, Eq, if◌then◌else◌, length, ◌≡◌, arith, refl,
}
use ws2tcp_router.HashMap.{HashMap, get, without, insert, IsMap, retain, keep_if}

pub beq_refl {ℓ} : {K : Type ℓ} ⦃e : Eq K⦄ (k : K) → e.beq k k ≡ true
beq_refl ⦃e⦄ k = (e.beq_iff k k).1 refl

module _ {ℓ} {K V : Type ℓ} ⦃e : Eq K⦄ where
  pub get-without :
      (k j : K) (m : HashMap K V) → get j (without k m) ≡ (if e.beq k j then none else get j m)
  unfolding get without
  get-without k j [] = ground arith
  get-without k j ((i, v) ∷ m) =
      ground (arith, get-without k j m, e.beq_iff i k, e.beq_iff i j, e.beq_iff k j)

  pub get-insert :
      (k j : K) (v : V) (m : HashMap K V)
      → get j (insert k v m) ≡ (if e.beq k j then some v else get j m)
  unfolding get insert
  get-insert k j v m = ground (arith, get-without k j m)

  get-retain-none :
      (keep : V → Bool) (k : K) (m : HashMap K V) → get k m ≡ none → get k (retain keep m) ≡ none
  unfolding get retain
  get-retain-none keep k [] h = refl
  get-retain-none keep k ((i, v) ∷ m) h = ground (arith, get-retain-none keep k m)

  pub get-retain :
      (keep : V → Bool) (k : K) (m : HashMap K V)
      → IsMap m
      → get k (retain keep m) ≡ keep_if keep (get k m)
  unfolding get retain
  get-retain keep k [] h = refl
  get-retain keep k ((i, v) ∷ m) h =
      ground (arith, get-retain keep k m h.1, e.beq_iff i k, get-retain-none keep k m)

  pub without-IsMap : (k : K) (m : HashMap K V) → IsMap m → IsMap (without k m)
  unfolding without
  without-IsMap k [] h = tt
  without-IsMap k ((i, v) ∷ m) h = ground (arith, without-IsMap k m h.1, get-without k i m)

  pub insert-IsMap : (k : K) (v : V) (m : HashMap K V) → IsMap m → IsMap (insert k v m)
  unfolding insert
  insert-IsMap k v m h = (ground (arith, get-without k k m, beq_refl k), without-IsMap k m h)

  pub retain-IsMap : (keep : V → Bool) (m : HashMap K V) → IsMap m → IsMap (retain keep m)
  unfolding retain
  retain-IsMap keep [] h = tt
  retain-IsMap keep ((i, v) ∷ m) h =
      ground (arith, retain-IsMap keep m h.1, get-retain-none keep i m)

  pub length-without : (k : K) (m : HashMap K V) → length (without k m) ≤ length m
  unfolding without
  length-without k [] = omega arith
  length-without k ((i, v) ∷ m) = ground (arith, length-without k m)

  pub length-without-some :
      (k : K) (m : HashMap K V) {v : V} → get k m ≡ some v → length (without k m) + 1 ≤ length m
  unfolding get without
  length-without-some k [] h = cc
  length-without-some k ((i, w) ∷ m) {v} h =
      ground (arith, length-without k m, length-without-some k m {v = v})

  pub length-insert : (k : K) (v : V) (m : HashMap K V) → length (insert k v m) ≤ length m + 1
  unfolding insert
  length-insert k v m = omega (arith, length-without k m)

pub length-retain {ℓ} :
    {K V : Type ℓ} (keep : V → Bool) (m : HashMap K V) → length (retain keep m) ≤ length m
unfolding retain
length-retain keep [] = omega arith
length-retain keep ((i, v) ∷ m) = ground (arith, length-retain keep m)
