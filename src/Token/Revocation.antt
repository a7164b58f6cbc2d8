-- ===== src/Token/Revocation.antt =====
-- A revoked login stays revoked: its access tokens are refused until the last of them expires,
-- whatever is called in between (`revoke_family`, `force_sweep`, `verify_access` of src/token.rs).
use ws2tcp_router.Prelude.{
  ℕ, ◌+◌, ◌/◌, ◌^◌, ◌≤◌, ◌<◌, ◌≡◌, ◌⊎◌, refl, ◌∙◌, arith, Bool, some, none, List, [], ◌∷◌,
  Bool-cases, inl, inr, nat_eq, ltb, not, ◌&&◌, if◌then◌else◌, bytes_eq,
}
use ws2tcp_router.Text.{Str}
use ws2tcp_router.HashMap.{get, contains_key, HashMap, insert}
use ws2tcp_router.HashMap.Laws.{get-insert}
use ws2tcp_router.HashMap.Values.{Shrinks}
use ws2tcp_router.Encoding.RoundTrip.{IsStr}
use ws2tcp_router.Crypto.{Crypto, IsCrypto}
use ws2tcp_router.Token.{TokenService, State, World, from_secs, as_secs, nanos, max_family_lifetime}
use ws2tcp_router.Token.Store.{revoke_family}
use ws2tcp_router.Token.Store.Sweeps.{IsKeyed, make_room-IsSwept}
use ws2tcp_router.Token.Access.{mint_access, verify_access}
use ws2tcp_router.Token.Access.Laws.{verify_access-mint_access, mint_access_config}
use ws2tcp_router.Token.Service.{hash_token, redeem, login, refresh, revoke}
use ws2tcp_router.Token.Service.Cases.{
  issue_cases, redeem_cases, login_body_cases, refresh_body_cases,
}
use ws2tcp_router.Token.Service.Keeps.{prepared}
use ws2tcp_router.Token.Histories.{
  Call, logs_in, refreshes, revokes, step, run, revoke_cases, IsStore, step-IsStore, step_config,
}

module _ (f expiry : ℕ) where
  -- The family is on the list of the revoked ones until `expiry` at least, or that instant is past.
  abbrev pub Blocks : HashMap ℕ ℕ → ℕ → Type 0
  Blocks m now = ((until : ℕ) × (get f m ≡ some until) × (expiry ≤ until)) ⊎ (expiry ≤ now)

  Blocks-swept :
      (m m' : HashMap ℕ ℕ) (now : ℕ) → Shrinks (ltb now) m m' → Blocks m now → Blocks m' now
  Blocks-swept m m' now s (inr late) = inr late
  Blocks-swept m m' now s (inl (until, found, after)) = elim (Bool-cases (ltb now until)) [
    | inl early ↦ inl (until, s.kept f until found early, after)
    | inr late ↦ inr (ground arith)
  ]

  Blocks-insert :
      (m : HashMap ℕ ℕ) (g until now : ℕ)
      → expiry ≤ until
      → Blocks m now
      → Blocks (insert g until m) now
  Blocks-insert m g until now after (inr late) = inr late
  Blocks-insert m g until now after (inl (old, found, h)) = elim (Bool-cases (nat_eq.beq g f)) [
    | inl same ↦ inl (until, rw (get-insert g f until m, same) refl, after)
    | inr other ↦ inl (old, rw (get-insert g f until m, other) found, h)
  ]

  Blocks-later : (m : HashMap ℕ ℕ) (now later : ℕ) → now ≤ later → Blocks m now → Blocks m later
  Blocks-later m now later h (inl b) = inl b
  Blocks-later m now later h (inr late) = inr (omega arith)

  module _ (c : Crypto) (svc : TokenService) (w : World) where
    redeem-Blocks :
        (hash : List ℕ) (user_exists : Str → Bool) (st : State)
        → expiry ≤ w.now + svc.access_ttl
        → Blocks st.revoked w.now
        → Blocks (redeem c svc w hash user_exists st).1.revoked w.now
    unfolding revoke_family
    redeem-Blocks hash user_exists st h b =
        redeem_cases c svc w hash user_exists st (λ p. Blocks p.1.revoked w.now) (λ _. b)
          (λ r _ _ _. Blocks-insert st.revoked r.family (w.now + svc.access_ttl) w.now h b)
          (λ r _ _. b) (λ r _ _. b) (λ r t _ _ _. b)

    refresh-Blocks :
        (token : Str) (user_exists : Str → Bool)
        → IsKeyed svc.state
        → expiry ≤ w.now + svc.access_ttl
        → Blocks svc.state.revoked w.now
        → Blocks (refresh c svc w token user_exists).1.state.revoked w.now
    unfolding refresh
    refresh-Blocks token user_exists k h b =
        let swept = Blocks-swept _ _ w.now (prepared c svc w svc.state k).revoked b in
        refresh_body_cases c svc w token user_exists svc.state (λ p. Blocks p.1.revoked w.now)
          (λ _. swept) (λ _. redeem-Blocks (hash_token c token) user_exists _ h swept)

    login-Blocks :
        (user : Str)
        → IsKeyed svc.state
        → Blocks svc.state.revoked w.now
        → Blocks (login c svc w user).1.state.revoked w.now
    unfolding login
    login-Blocks user k b =
        let swept = Blocks-swept _ _ w.now (make_room-IsSwept w.now svc.state k).revoked b in
        login_body_cases c svc w user svc.state (λ p. Blocks p.1.revoked w.now) b (λ _. swept)
          (λ g _ _.
            issue_cases c svc w g user (w.now + max_family_lifetime) _
              (λ p. Blocks p.1.revoked w.now) swept (λ t _. swept))

    revoke-Blocks :
        (token : Str)
        → expiry ≤ w.now + svc.access_ttl
        → Blocks svc.state.revoked w.now
        → Blocks (revoke c svc w token).1.state.revoked w.now
    unfolding revoke_family
    revoke-Blocks token h b =
        revoke_cases c svc w token (λ st. Blocks st.revoked w.now) b
          (λ g _. Blocks-insert svc.state.revoked g (w.now + svc.access_ttl) w.now h b)

-- the instant of a call
abbrev pub instant : Call → ℕ
instant (logs_in user w) = w.now
instant (refreshes token user_exists w) = w.now
instant (revokes token w) = w.now

-- Calls made from the instant `since` on, in the order of their instants, up to `end`.
abbrev pub InOrder : ℕ → ℕ → List Call → Type 0
InOrder since end [] = since ≤ end
InOrder since end (call ∷ calls) = (since ≤ instant call) × InOrder (instant call) end calls

module _ (c : Crypto) (f expiry : ℕ) where
  step-Blocks :
      (svc : TokenService) (call : Call)
      → IsKeyed svc.state
      → expiry ≤ instant call + svc.access_ttl
      → Blocks f expiry svc.state.revoked (instant call)
      → Blocks f expiry (step c svc call).state.revoked (instant call)
  unfolding step
  step-Blocks svc (logs_in user w) k h b = login-Blocks f expiry c svc w user k b
  step-Blocks svc (refreshes token user_exists w) k h b =
      refresh-Blocks f expiry c svc w token user_exists k h b
  step-Blocks svc (revokes token w) k h b = revoke-Blocks f expiry c svc w token h b

  run-Blocks :
      (svc : TokenService) (since end : ℕ) (calls : List Call)
      → IsStore svc.state
      → InOrder since end calls
      → expiry ≤ since + svc.access_ttl
      → Blocks f expiry svc.state.revoked since
      → Blocks f expiry (run c svc calls).state.revoked end
  unfolding run
  run-Blocks svc since end [] s order h b =
      Blocks-later f expiry svc.state.revoked since end order b
  run-Blocks svc since end (call ∷ calls) s order h b =
      let now = instant call in
      let b' = Blocks-later f expiry svc.state.revoked since now order.0 b in
      run-Blocks (step c svc call) now end calls (step-IsStore c svc call s) order.1
        (omega (arith, order.0, (step_config c svc call).1))
        (step-Blocks svc call s.keyed (omega (arith, order.0)) b')

run_config :
    (c : Crypto) (svc : TokenService) (calls : List Call)
    → ((run c svc calls).key ≡ svc.key) × ((run c svc calls).access_ttl ≡ svc.access_ttl)
unfolding run
run_config c svc [] = (refl, refl)
run_config c svc (call ∷ calls) =
    let ih = run_config c (step c svc call) calls in
    let config = step_config c svc call in (ih.0 ∙ config.0, ih.1 ∙ config.1)

blocked_token :
    (c : Crypto) (svc : TokenService) (f minted_at unix_now end offset ttl since minted : ℕ)
    (user : Str)
    → IsCrypto c
    → IsStr user
    → f < 2 ^ 64
    → minted_at + ttl < 2 ^ 64
    → svc.access_ttl ≡ from_secs ttl
    → minted_at ≡ (minted + offset) / nanos
    → unix_now ≡ (end + offset) / nanos
    → minted ≤ since
    → Blocks f (since + svc.access_ttl) svc.state.revoked end
    → verify_access c svc unix_now (mint_access c svc minted_at f user) ≡ none
unfolding contains_key
blocked_token c svc f minted_at unix_now end offset ttl since minted user k hu hf he config u0 u1 h
      b =
    let seconds : as_secs svc.access_ttl ≡ ttl = omega (arith, config) in
    verify_access-mint_access c svc f minted_at unix_now user k hu hf (omega (arith, seconds, he))
    ∙ refused b
  where
    refused :
        Blocks f (since + svc.access_ttl) svc.state.revoked end
        → (if ltb unix_now (minted_at + as_secs svc.access_ttl)
              && not (contains_key f svc.state.revoked)
            then some user
            else none)
          ≡ none
    refused (inl (until, found, after)) = rw found (ground arith)
    refused (inr late) =
        let past : minted_at + as_secs svc.access_ttl ≤ unix_now =
          omega (arith, config, u0, u1, late, h) in
        ground (arith, past)

-- An access token that was minted no later than the instant `since` at which its family was
-- revoked is refused at every later instant `end`, after any calls made in between, from a
-- well-formed store. The wall clock runs in step with the monotonic one (`offset` apart), the
-- lifetime is a number of seconds, the user is a string, and the family and the expiry fit 64
-- bits; the base64, HMAC and comparison functions behave as documented.
pub verify_access-revoked :
    (c : Crypto) (svc : TokenService) (calls : List Call)
    (f minted_at unix_now end offset ttl since minted : ℕ) (user : Str)
    → IsCrypto c
    → IsStore svc.state
    → get f svc.state.revoked ≡ some (since + svc.access_ttl)
    → InOrder since end calls
    → IsStr user
    → f < 2 ^ 64
    → minted_at + ttl < 2 ^ 64
    → svc.access_ttl ≡ from_secs ttl
    → minted_at ≡ (minted + offset) / nanos
    → unix_now ≡ (end + offset) / nanos
    → minted ≤ since
    → verify_access c (run c svc calls) unix_now (mint_access c svc minted_at f user) ≡ none
verify_access-revoked c svc calls f minted_at unix_now end offset ttl since minted user k s found
      order hu hf he config u0 u1 h =
    let svc' = run c svc calls in
    let same = run_config c svc calls in
    let b : Blocks f (since + svc.access_ttl) svc'.state.revoked end =
      run-Blocks c f (since + svc.access_ttl) svc since end calls s order (omega arith)
        (inl (since + svc.access_ttl, found, omega arith)) in
    rw (← mint_access_config c svc svc' minted_at f user same.0 same.1) (
      blocked_token c svc' f minted_at unix_now end offset ttl since minted user k hu hf he
        (same.1 ∙ config) u0 u1 h (rw same.1 b))
