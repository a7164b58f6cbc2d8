-- ===== src/Token/Rotation.antt =====
-- The rotation of refresh tokens, and what happens to a token that is presented again
-- (`refresh` of src/token.rs).
use ws2tcp_router.Prelude.{
  ℕ, ◌+◌, ◌<◌, ◌≡◌, ◌≢◌, refl, arith, Bool, ok, err, some, none, bytes_eq, nat_eq, ltb_iff,
  Option-cases, inl, inr, Eq, List, ◌∙◌,
}
use ws2tcp_router.Text.{Str}
use ws2tcp_router.HashMap.{get, insert, without}
use ws2tcp_router.HashMap.Laws.{get-insert, get-without, beq_refl}
use ws2tcp_router.HashMap.Values.{retain-Each_test}
use ws2tcp_router.Crypto.{Crypto}
use ws2tcp_router.Token.{
  TokenService, State, World, RefreshRecord, SpentRecord, IssuedTokens, reused, full, Hash,
  max_records,
}
use ws2tcp_router.Token.Store.{records, is_other, sweep, revoke_family}
use ws2tcp_router.Token.Store.Sweeps.{IsKeyed, IsSwept, sweep-IsSwept, make_room_free}
use ws2tcp_router.Token.Service.{
  hash_token, new_record, issued_tokens, spent_record, refresh, refresh_body, redeem, refuse,
}
use ws2tcp_router.Token.Service.Cases.{IsRedeemable, redeem_cases, refresh_body_cases}
use ws2tcp_router.Token.Service.Keeps.{prepared, refresh_body-IsKeyed}
use ws2tcp_router.Token.Histories.{IsDead}

get-insert_self {ℓ} :
    {K V : Type ℓ} ⦃e : Eq K⦄ (k : K) (v : V) (m : List (K × V)) → get k (insert k v m) ≡ some v
get-insert_self k v m = rw (get-insert k k v m, beq_refl k)

get-insert_ne {ℓ} :
    {K V : Type ℓ} ⦃e : Eq K⦄ (k j : K) (v : V) (m : List (K × V))
    → k ≢ j
    → get j (insert k v m) ≡ get j m
get-insert_ne ⦃e⦄ k j v m ne = ground (arith, get-insert k j v m, e.beq_iff k j)

get-without_self {ℓ} :
    {K V : Type ℓ} ⦃e : Eq K⦄ (k : K) (m : List (K × V)) → get k (without k m) ≡ none
get-without_self k m = rw (get-without k k m, beq_refl k)

module _ (c : Crypto) (svc : TokenService) (w : World) where
  -- What a successful refresh of the token with the given hash has done to the state.
  pub record IsRotation (hash : Hash) (user_exists : Str → Bool) (user : Str)
      (issued : IssuedTokens) (st st' : State) : Type 0 where
    pub old : RefreshRecord
    pub current : get hash st.refresh ≡ some old
    pub redeemable : IsRedeemable c svc w user_exists old
    pub owner : user ≡ old.user
    pub spent : get hash st'.spent ≡ some (spent_record old)
    pub fresh :
        get (hash_token c issued.refresh_token) st'.refresh
        ≡ some (new_record c svc w old.family old.user old.family_deadline)
    pub gone : hash_token c issued.refresh_token ≢ hash → get hash st'.refresh ≡ none

  redeem-IsRotation :
      (hash : Hash) (user_exists : Str → Bool) (user : Str) (issued : IssuedTokens) (st : State)
      → (redeem c svc w hash user_exists st).0 ≡ ok (user, issued)
      → IsRotation hash user_exists user issued st (redeem c svc w hash user_exists st).1
  redeem-IsRotation hash user_exists user issued st =
      redeem_cases c svc w hash user_exists st
        (λ p. p.0 ≡ ok (user, issued) → IsRotation hash user_exists user issued st p.1) (λ _ e. cc)
        (λ r _ _ _ e. cc) (λ r _ _ e. cc) (λ r _ _ e. cc)
        (λ r token found good drawn e.
          let same : issued_tokens c svc w r.family r.user r.family_deadline token ≡ issued =
            ground arith in
          record {
            old = r;
            current = found;
            redeemable = good;
            owner = ground arith;
            spent = get-insert_self hash (spent_record r) st.spent;
            fresh = rw (← same) (get-insert_self (hash_token c token) _ (without hash st.refresh));
            gone = λ ne.
                get-insert_ne (hash_token c token) hash _ (without hash st.refresh)
                  (rw (← same) at ne)
                ∙ get-without_self hash st.refresh;
          })

  -- In a store whose maps have one entry for a key, a successful refresh takes a current token that has not expired, within its login's lifetime,
  -- of a user that exists, and returns that user. Afterwards the token is marked as spent; the new
  -- token has a record of the same family, user and family deadline; and the old token is no
  -- longer current, unless the new one has the same hash.
  pub refresh-IsRotation :
      (token : Str) (user_exists : Str → Bool) (user : Str) (issued : IssuedTokens)
      → IsKeyed svc.state
      → (refresh c svc w token user_exists).0 ≡ ok (user, issued)
      → IsRotation
          (hash_token c token)
          user_exists
          user
          issued
          svc.state
          (refresh c svc w token user_exists).1.state
  unfolding refresh
  refresh-IsRotation token user_exists user issued k =
      let swept = prepared c svc w svc.state k in
      refresh_body_cases c svc w token user_exists svc.state
        (λ p.
          p.0 ≡ ok (user, issued)
          → IsRotation (hash_token c token) user_exists user issued svc.state p.1)
        (λ _ e. cc)
        (λ _ e.
          let r = redeem-IsRotation (hash_token c token) user_exists user issued _ e in
          record {
            old = r.old;
            current = swept.refresh.back (hash_token c token) r.old r.current;
            redeemable = r.redeemable;
            owner = r.owner;
            spent = r.spent;
            fresh = r.fresh;
            gone = r.gone;
          })

  refuse-replayed :
      (hash : Hash) (r : SpentRecord) (st : State)
      → get hash st.refresh ≡ none
      → get hash st.spent ≡ some r
      → w.now < r.expires
      → (user_exists : Str → Bool)
      → redeem c svc w hash user_exists st
        ≡ (err (reused r.user), revoke_family r.family w.now svc.access_ttl st)
  unfolding redeem
  refuse-replayed hash r st missing found early user_exists =
      rw (missing, redeem) (rw (found, refuse) (rw ((ltb_iff w.now r.expires).1 early) refl))

  -- `revoke_family` leaves no current token of the family.
  pub revoke_family-IsDead : (f now ttl : ℕ) (st : State) → IsDead c f (revoke_family f now ttl st)
  unfolding revoke_family
  revoke_family-IsDead f now ttl st =
      retain-Each_test (λ r. r.family ≢ f) (is_other f) st.refresh (λ r e. ground arith)

  pub get-revoke_family :
      (f now ttl : ℕ) (st : State) → get f (revoke_family f now ttl st).revoked ≡ some (now + ttl)
  unfolding revoke_family
  get-revoke_family f now ttl st = get-insert_self f (now + ttl) st.revoked

  -- A spent token that is not a current one and is presented before it would have expired, to a
  -- store that is not full and has one entry for a key, is answered by `reused`. Afterwards its
  -- family has no current token, and is on the list of the revoked ones until the lifetime of an
  -- access token has passed.
  pub refresh-replayed :
      (token : Str) (user_exists : Str → Bool) (r : SpentRecord)
      → IsKeyed svc.state
      → records svc.state < max_records
      → get (hash_token c token) svc.state.refresh ≡ none
      → get (hash_token c token) svc.state.spent ≡ some r
      → w.now < r.expires
      → ((refresh c svc w token user_exists).0 ≡ err (reused r.user))
        × IsDead c r.family (refresh c svc w token user_exists).1.state
        × (get r.family (refresh c svc w token user_exists).1.state.revoked
            ≡ some (w.now + svc.access_ttl))
  unfolding refresh refresh_body
  refresh-replayed token user_exists r k room missing found early =
      let hash = hash_token c token in
      let swept = sweep-IsSwept w.now svc.state k in
      let st = sweep w.now svc.state in
      let still : get hash st.spent ≡ some r =
        swept.spent.kept hash r found ((ltb_iff w.now r.expires).1 early) in
      let absent : get hash st.refresh ≡ none = elim (Option-cases (get hash st.refresh)) [
        | inl e ↦ e
        | inr (v, e) ↦ absurd (ground (arith, swept.refresh.back hash v e))
      ] in
      rw (make_room_free w.now st (omega (arith, swept.smaller))) (
        rw (refuse-replayed hash r st absent still early user_exists) (
          refl,
          revoke_family-IsDead r.family w.now svc.access_ttl st,
          get-revoke_family r.family w.now svc.access_ttl st,
        ))

  -- When the store is full, a refresh only sweeps: every current token that is live keeps its
  -- record, and so does every spent token that would not have expired.
  pub refresh_full :
      (token : Str) (user_exists : Str → Bool)
      → IsKeyed svc.state
      → (refresh c svc w token user_exists).0 ≡ err full
      → IsSwept w.now svc.state (refresh c svc w token user_exists).1.state
  unfolding refresh
  refresh_full token user_exists k =
      let swept = prepared c svc w svc.state k in
      refresh_body_cases c svc w token user_exists svc.state
        (λ p. p.0 ≡ err full → IsSwept w.now svc.state p.1) (λ _ _. swept)
        (λ _ e. absurd (
          redeem_cases c svc w (hash_token c token) user_exists _ (λ p. p.0 ≢ err full) (λ _ x. cc)
            (λ r _ _ _ x. cc) (λ r _ _ x. cc) (λ r _ _ x. cc) (λ r t _ _ _ x. cc) e))

refresh-IsKeyed :
    (c : Crypto) (svc : TokenService) (w : World) (token : Str) (user_exists : Str → Bool)
    → IsKeyed svc.state
    → IsKeyed (refresh c svc w token user_exists).1.state
unfolding refresh
refresh-IsKeyed c svc w token user_exists k =
    refresh_body-IsKeyed c svc w token user_exists svc.state k

-- Presenting a token again after a successful refresh, before it would have expired, is answered
-- by `reused` if the new token has another hash and the store is not full, and it ends the login:
-- no current token of its family is left, and the family is on the list of the revoked ones until
-- the lifetime of an access token has passed. The store's maps have one entry for a key.
pub refresh_twice :
    (c : Crypto) (svc : TokenService) (w later : World) (token : Str)
    (user_exists exists_later : Str → Bool) (user : Str) (issued : IssuedTokens) (r : RefreshRecord)
    → IsKeyed svc.state
    → get (hash_token c token) svc.state.refresh ≡ some r
    → (refresh c svc w token user_exists).0 ≡ ok (user, issued)
    → hash_token c issued.refresh_token ≢ hash_token c token
    → records (refresh c svc w token user_exists).1.state < max_records
    → later.now < r.expires
    → let svc' = (refresh c svc w token user_exists).1 in
      ((refresh c svc' later token exists_later).0 ≡ err (reused user))
      × IsDead c r.family (refresh c svc' later token exists_later).1.state
      × (get r.family (refresh c svc' later token exists_later).1.state.revoked
          ≡ some (later.now + svc'.access_ttl))
refresh_twice c svc w later token user_exists exists_later user issued r k found e ne room early =
    let rot = refresh-IsRotation c svc w token user_exists user issued k e in
    let same : rot.old ≡ r = ground (arith, rot.current) in
    let svc' = (refresh c svc w token user_exists).1 in
    let owner : user ≡ r.user = ground (arith, rot.owner) in
    rw owner (
      refresh-replayed c svc' later token exists_later (spent_record r)
        (refresh-IsKeyed c svc w token user_exists k) room (rot.gone ne) (rw same at rot.spent)
        early)
