-- ===== src/Token/Histories.antt =====
-- Histories of calls on a token service: what holds after any sequence of logins, refreshes and
-- logouts (src/token.rs). The lock makes each call one step; `verify_access` changes nothing.
use ws2tcp_router.Prelude.{
  ℕ, ◌+◌, ◌≤◌, ◌≡◌, ◌≢◌, refl, arith, Bool, ok, some, List, [], ◌∷◌, All, Option-cases, inl, inr,
  bytes_eq, nat_eq,
}
use ws2tcp_router.Text.{Str, Bytes}
use ws2tcp_router.HashMap.Values.{Each}
use ws2tcp_router.Crypto.{Crypto}
use ws2tcp_router.Token.{
  TokenService, State, World, RefreshRecord, max_records, max_family_lifetime,
}
use ws2tcp_router.Token.Store.{records, revoke_family}
use ws2tcp_router.Token.Store.Sweeps.{IsKeyed}
use ws2tcp_router.Token.Service.{
  new, hash_token, random_family, new_record, login, refresh, revoke, family_of,
}
use ws2tcp_router.Token.Service.Keeps.{
  revoke_family-IsKeyed, records-revoke_family, revoke_family-Each, refresh_body-IsKeyed,
  records-refresh_body, login_body-IsKeyed, records-login_body, refresh_body-Each, login_body-Each,
}

pub data Call : Type 0 where
  logs_in : Str → World → Call
  refreshes : Str → (Str → Bool) → World → Call
  revokes : Str → World → Call

-- The well-formed states: distinct keys, at most `max_records` records, and no refresh token
-- that outlives its login.
pub record IsStore (st : State) : Type 0 where
  pub keyed : IsKeyed st
  pub bounded : records st ≤ max_records
  pub capped : Each (λ r. r.expires ≤ r.family_deadline) st.refresh

module _ (c : Crypto) where
  unfoldable pub step : TokenService → Call → TokenService
  unfolding login refresh revoke
  step svc (logs_in user w) = (login c svc w user).1
  step svc (refreshes token user_exists w) = (refresh c svc w token user_exists).1
  step svc (revokes token w) = (revoke c svc w token).1

  unfoldable pub run : TokenService → List Call → TokenService
  unfolding step
  run svc [] = svc
  run svc (call ∷ calls) = run (step svc call) calls

  -- A logout leaves the state alone, or revokes one family.
  pub revoke_cases :
      (svc : TokenService) (w : World) (token : Str) (Q : State → Type 0)
      → Q svc.state
      → ((f : ℕ)
          → family_of c svc w (hash_token c token) svc.state ≡ some f
          → Q (revoke_family f w.now svc.access_ttl svc.state))
      → Q (revoke c svc w token).1.state
  unfolding revoke
  revoke_cases svc w token Q unknown known =
      elim (Option-cases (family_of c svc w (hash_token c token) svc.state)) [
        | inl missing ↦ rw (missing, revoke) unknown
        | inr (f, found) ↦ rw (found, revoke) (known f found)
      ]

  -- Every call keeps the state well formed.
  pub step-IsStore :
      (svc : TokenService) (call : Call) → IsStore svc.state → IsStore (step svc call).state
  unfolding step
  step-IsStore svc (logs_in user w) s = record {
    keyed = login_body-IsKeyed c svc w user svc.state s.keyed;
    bounded = records-login_body c svc w user svc.state s.keyed s.bounded;
    capped = login_body-Each c svc w _ user svc.state (λ f _. omega arith) s.capped;
  }
  step-IsStore svc (refreshes token user_exists w) s = record {
    keyed = refresh_body-IsKeyed c svc w token user_exists svc.state s.keyed;
    bounded = records-refresh_body c svc w token user_exists svc.state s.keyed s.bounded;
    capped = refresh_body-Each c svc w _ token user_exists svc.state (λ r _. omega arith) s.capped;
  }
  step-IsStore svc (revokes token w) s = revoke_cases svc w token IsStore s (λ f _. record {
    keyed = revoke_family-IsKeyed f w.now svc.access_ttl svc.state s.keyed;
    bounded = omega (arith, records-revoke_family f w.now svc.access_ttl svc.state, s.bounded);
    capped = revoke_family-Each _ f w.now svc.access_ttl svc.state s.capped;
  })

  pub run-IsStore :
      (svc : TokenService) (calls : List Call) → IsStore svc.state → IsStore (run svc calls).state
  unfolding run
  run-IsStore svc [] s = s
  run-IsStore svc (call ∷ calls) s = run-IsStore (step svc call) calls (step-IsStore svc call s)

  pub new-IsStore :
      (secret : Bytes) (access_ttl refresh_ttl now : ℕ)
      → IsStore (new secret access_ttl refresh_ttl now).state
  unfolding new
  new-IsStore secret access_ttl refresh_ttl now = record {
    keyed = record { refresh = tt; spent = tt; revoked = tt };
    bounded = omega arith;
    capped = tt;
  }

  -- From a new service on, after any calls with any results of the generator: each map has one
  -- entry for a key, at most 100,000 refresh tokens, current and spent, are remembered, and every
  -- current refresh token expires by the deadline of its login.
  pub run-new-IsStore :
      (secret : Bytes) (access_ttl refresh_ttl now : ℕ) (calls : List Call)
      → IsStore (run (new secret access_ttl refresh_ttl now) calls).state
  run-new-IsStore secret access_ttl refresh_ttl now calls =
      run-IsStore (new secret access_ttl refresh_ttl now) calls
        (new-IsStore secret access_ttl refresh_ttl now)

  -- The configuration of a service never changes.
  pub step_config :
      (svc : TokenService) (call : Call)
      → ((step svc call).key ≡ svc.key) × ((step svc call).access_ttl ≡ svc.access_ttl)
  unfolding step
  step_config svc (logs_in user w) = (refl, refl)
  step_config svc (refreshes token user_exists w) = (refl, refl)
  step_config svc (revokes token w) =
      elim (Option-cases (family_of c svc w (hash_token c token) svc.state)) [
        | inl missing ↦ rw (missing, step, revoke) (refl, refl)
        | inr (f, found) ↦ rw (found, step, revoke) (refl, refl)
      ]

  -- The calls start no login under the family `f`: the generator draws another number.
  abbrev pub AvoidsCall : ℕ → Call → Type 0
  AvoidsCall f (logs_in user w) = random_family c w ≢ ok f
  AvoidsCall f _ = Unit

  abbrev pub Avoids : ℕ → List Call → Type 0
  Avoids f = All (AvoidsCall f)

  module _ (P : RefreshRecord → Type 0)
      (rotates : (svc : TokenService) (w : World) (r : RefreshRecord)
        → P r
        → P (new_record c svc w r.family r.user r.family_deadline))
      (f : ℕ)
      (starts : (svc : TokenService) (w : World) (g : ℕ) (user : Str)
        → g ≢ f
        → P (new_record c svc w g user (w.now + max_family_lifetime))) where
    step-Each :
        (svc : TokenService) (call : Call)
        → AvoidsCall f call
        → Each P svc.state.refresh
        → Each P (step svc call).state.refresh
    unfolding step
    step-Each svc (logs_in user w) avoids h =
        login_body-Each c svc w P user svc.state
          (λ g drawn. starts svc w g user (λ e. avoids (rw e at drawn))) h
    step-Each svc (refreshes token user_exists w) avoids h =
        refresh_body-Each c svc w P token user_exists svc.state (rotates svc w) h
    step-Each svc (revokes token w) avoids h =
        revoke_cases svc w token (λ st. Each P st.refresh) h
          (λ g _. revoke_family-Each P g w.now svc.access_ttl svc.state h)

    run-Each :
        (svc : TokenService) (calls : List Call)
        → Avoids f calls
        → Each P svc.state.refresh
        → Each P (run svc calls).state.refresh
    unfolding run
    run-Each svc [] avoids h = h
    run-Each svc (call ∷ calls) avoids h =
        run-Each (step svc call) calls avoids.1 (step-Each svc call avoids.0 h)

  -- No current refresh token belongs to the family.
  abbrev pub IsDead : ℕ → State → Type 0
  IsDead f st = Each (λ r. r.family ≢ f) st.refresh

  -- A family without a current refresh token never has one again, whatever is called, as long as
  -- no login draws that family anew.
  pub run-IsDead :
      (svc : TokenService) (f : ℕ) (calls : List Call)
      → Avoids f calls
      → IsDead f svc.state
      → IsDead f (run svc calls).state
  run-IsDead svc f = run-Each (λ r. r.family ≢ f) (λ _ w r h. h) f (λ _ w g user h. h) svc

  -- The current refresh tokens of the family `f` end by the instant `deadline`.
  abbrev pub EndsBy : ℕ → ℕ → State → Type 0
  EndsBy f deadline st =
      Each (λ r. r.family ≡ f → (r.family_deadline ≤ deadline) × (r.expires ≤ deadline)) st.refresh

  -- Refreshing does not extend a login: if the current refresh tokens of the family `f` and the
  -- deadline in their records are no later than `deadline`, this stays so whatever is called, as
  -- long as no login draws that family anew.
  pub run-EndsBy :
      (svc : TokenService) (f deadline : ℕ) (calls : List Call)
      → Avoids f calls
      → EndsBy f deadline svc.state
      → EndsBy f deadline (run svc calls).state
  run-EndsBy svc f deadline =
      run-Each (λ r. r.family ≡ f → (r.family_deadline ≤ deadline) × (r.expires ≤ deadline))
        (λ _ w r h same. ((h same).0, omega (arith, (h same).0))) f
        (λ _ w g user h same. absurd (h same)) svc
