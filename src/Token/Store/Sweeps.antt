-- ===== src/Token/Store/Sweeps.antt =====
-- What a sweep forgets, and the bound on the store.
use ws2tcp_router.Prelude.{
  ℕ, ◌≤◌, ◌<◌, ◌≡◌, arith, ok, leb, ltb, Bool-cases, inl, inr, nat_eq, bytes_eq,
}
use ws2tcp_router.HashMap.{IsMap}
use ws2tcp_router.HashMap.Laws.{retain-IsMap, length-retain}
use ws2tcp_router.HashMap.Values.{
  Shrinks, Shrinks-refl, Shrinks-trans, Shrinks-retain, Each, retain-Each,
}
use ws2tcp_router.Token.{State, RefreshRecord, max_records}
use ws2tcp_router.Token.Store.{is_live, is_remembered, force_sweep, sweep, records, make_room}

-- No key of the three maps has two entries.
pub record IsKeyed (st : State) : Type 0 where
  pub refresh : IsMap st.refresh
  pub spent : IsMap st.spent
  pub revoked : IsMap st.revoked

-- The second state is the first after sweeps at `now`: entries are only forgotten, and none that
-- is still in force. The store has not grown.
pub record IsSwept (now : ℕ) (st st' : State) : Type 0 where
  pub refresh : Shrinks (is_live now) st.refresh st'.refresh
  pub spent : Shrinks (is_remembered now) st.spent st'.spent
  pub revoked : Shrinks (ltb now) st.revoked st'.revoked
  pub smaller : records st' ≤ records st
  pub keyed : IsKeyed st'

module _ (now : ℕ) where
  IsSwept-refl : (st : State) → IsKeyed st → IsSwept now st st
  IsSwept-refl st w = record {
    refresh = Shrinks-refl (is_live now) st.refresh;
    spent = Shrinks-refl (is_remembered now) st.spent;
    revoked = Shrinks-refl (ltb now) st.revoked;
    smaller = omega arith;
    keyed = w;
  }

  pub IsSwept-trans :
      {st st' st'' : State} → IsSwept now st st' → IsSwept now st' st'' → IsSwept now st st''
  IsSwept-trans s t = record {
    refresh = Shrinks-trans (is_live now) _ _ _ s.refresh t.refresh;
    spent = Shrinks-trans (is_remembered now) _ _ _ s.spent t.spent;
    revoked = Shrinks-trans (ltb now) _ _ _ s.revoked t.revoked;
    smaller = omega (arith, s.smaller, t.smaller);
    keyed = t.keyed;
  }

  force_sweep-IsSwept : (st : State) → IsKeyed st → IsSwept now st (force_sweep now st)
  unfolding force_sweep
  force_sweep-IsSwept st w = record {
    refresh = Shrinks-retain (is_live now) st.refresh w.refresh;
    spent = Shrinks-retain (is_remembered now) st.spent w.spent;
    revoked = Shrinks-retain (ltb now) st.revoked w.revoked;
    smaller =
        omega (
          arith,
          length-retain (is_live now) st.refresh,
          length-retain (is_remembered now) st.spent,
        );
    keyed = record {
      refresh = retain-IsMap (is_live now) st.refresh w.refresh;
      spent = retain-IsMap (is_remembered now) st.spent w.spent;
      revoked = retain-IsMap (ltb now) st.revoked w.revoked;
    };
  }

  pub sweep-IsSwept : (st : State) → IsKeyed st → IsSwept now st (sweep now st)
  unfolding sweep
  sweep-IsSwept st w = elim (Bool-cases (ltb now st.next_sweep)) [
    | inl early ↦ rw (early, sweep) (IsSwept-refl st w)
    | inr due ↦ rw (due, sweep) (force_sweep-IsSwept st w)
  ]

  pub make_room-IsSwept : (st : State) → IsKeyed st → IsSwept now st (make_room now st).1
  unfolding make_room
  make_room-IsSwept st w = elim (Bool-cases (leb max_records (records st))) [
    | inl crowded ↦ elim (Bool-cases (leb max_records (records (force_sweep now st)))) [
      | inl still ↦ rw (crowded, make_room, still) (force_sweep-IsSwept st w)
      | inr freed ↦ rw (crowded, make_room, freed) (force_sweep-IsSwept st w)
    ]
    | inr roomy ↦ rw (roomy, make_room) (IsSwept-refl st w)
  ]

  -- Room is granted only below the bound.
  pub make_room-lt :
      (st : State) → (make_room now st).0 ≡ ok tt → records (make_room now st).1 < max_records
  unfolding make_room
  make_room-lt st e = ground arith

  pub make_room_free : (st : State) → records st < max_records → make_room now st ≡ (ok tt, st)
  unfolding make_room
  make_room_free st h = ground arith

  module _ (P : RefreshRecord → Type 0) where
    pub sweep-Each : (st : State) → Each P st.refresh → Each P (sweep now st).refresh
    unfolding sweep force_sweep
    sweep-Each st h = ground (arith, retain-Each P (is_live now) st.refresh h)

    pub make_room-Each : (st : State) → Each P st.refresh → Each P (make_room now st).1.refresh
    unfolding make_room force_sweep
    make_room-Each st h = ground (arith, retain-Each P (is_live now) st.refresh h)
