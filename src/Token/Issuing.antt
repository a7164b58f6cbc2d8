-- ===== src/Token/Issuing.antt =====
-- What a login hands out, and that it can be used (`login`, `refresh` of src/token.rs).
use ws2tcp_router.Prelude.{
  ℕ, ◌+◌, ◌<◌, ◌≡◌, refl, arith, Bool, true, false, ok, some, min, bytes_eq, leb, not, ◌||◌,
}
use ws2tcp_router.Text.{Str, Bytes}
use ws2tcp_router.HashMap.{get}
use ws2tcp_router.HashMap.Laws.{get-insert, beq_refl}
use ws2tcp_router.Crypto.{Crypto}
use ws2tcp_router.Token.{
  TokenService, State, World, RefreshRecord, IssuedTokens, max_records, max_family_lifetime,
  as_secs,
}
use ws2tcp_router.Token.Store.{records, is_live, sweep}
use ws2tcp_router.Token.Store.Sweeps.{IsKeyed, sweep-IsSwept, make_room_free}
use ws2tcp_router.Token.Access.{mint_access}
use ws2tcp_router.Token.Service.{
  hash_token, random_family, issued_tokens, issue, login, refresh, refresh_body, redeem, rotate,
}
use ws2tcp_router.Token.Service.Cases.{IsRedeemable, issue_cases, login_body_cases}

module _ (c : Crypto) (svc : TokenService) (w : World) where
  -- A successful login has drawn a family; the refresh token that it hands out has a record of
  -- this family and user, which ends with the refresh lifetime or 30 days after the login,
  -- whichever is first; the access token is the one of this family and user; and the lifetimes
  -- that it reports are those of the configuration and of the record.
  pub record IsLogin (user : Str) (issued : IssuedTokens) (st' : State) : Type 0 where
    pub family : ℕ
    pub drawn : random_family c w ≡ ok family
    pub stored :
        get (hash_token c issued.refresh_token) st'.refresh
        ≡ some (record {
          family = family;
          user = user;
          expires = min (w.now + svc.refresh_ttl) (w.now + max_family_lifetime);
          family_deadline = w.now + max_family_lifetime;
        })
    pub access : issued.access_token ≡ mint_access c svc w.unix_now family user
    pub access_lifetime : issued.access_expires_in ≡ as_secs svc.access_ttl
    pub refresh_lifetime :
        issued.refresh_expires_in ≡ as_secs (min svc.refresh_ttl max_family_lifetime)

  issue-IsLogin :
      (family : ℕ) (user : Str) (issued : IssuedTokens) (st : State)
      → random_family c w ≡ ok family
      → (issue c svc w family user (w.now + max_family_lifetime) st).0 ≡ ok issued
      → IsLogin user issued (issue c svc w family user (w.now + max_family_lifetime) st).1
  issue-IsLogin family user issued st drawn =
      issue_cases c svc w family user (w.now + max_family_lifetime) st
        (λ p. p.0 ≡ ok issued → IsLogin user issued p.1) (λ e. cc)
        (λ token _ e.
          let same : issued_tokens c svc w family user (w.now + max_family_lifetime) token
              ≡ issued =
            ground arith in
          rw (← same) (record {
            family = family;
            drawn = drawn;
            stored = rw (
              get-insert (hash_token c token) (hash_token c token) _ st.refresh,
              beq_refl (hash_token c token),
            );
            access = refl;
            access_lifetime = refl;
            refresh_lifetime = omega arith;
          }))

  -- A successful login has drawn a family. The refresh token that it hands out has a record of
  -- that family and user, which expires after the lifetime of refresh tokens and of a login at
  -- the latest; the access token is minted for the same family and user; and the lifetimes that
  -- it reports are those of the configuration and of the record.
  pub login-IsLogin :
      (user : Str) (issued : IssuedTokens)
      → (login c svc w user).0 ≡ ok issued
      → IsLogin user issued (login c svc w user).1.state
  unfolding login
  login-IsLogin user issued =
      login_body_cases c svc w user svc.state (λ p. p.0 ≡ ok issued → IsLogin user issued p.1)
        (λ e. cc) (λ _ e. cc) (λ family drawn _. issue-IsLogin family user issued _ drawn)

  rotate_lem :
      (hash : Bytes) (user_exists : Str → Bool) (r : RefreshRecord) (st : State) (bytes : Bytes)
      → IsRedeemable c svc w user_exists r
      → w.token_draw ≡ some bytes
      → (rotate c svc w hash user_exists r st).0
        ≡ ok (r.user, issued_tokens c svc w r.family r.user r.family_deadline (c.url_encode bytes))
  unfolding rotate
  rotate_lem hash user_exists r st bytes good drawn =
      let test : leb r.expires w.now || leb r.family_deadline w.now || not (user_exists r.user)
          ≡ false =
        ground (arith, good.live, good.in_family, good.known) in
      rw (test, drawn)

  -- A current token that is live, of a user that exists, is refreshed if the store is not full and
  -- has one entry for a key, and the generator works: the tokens that are handed out carry on the
  -- record's family, user and deadline.
  pub refresh-current :
      (token : Str) (user_exists : Str → Bool) (r : RefreshRecord) (bytes : Bytes)
      → IsKeyed svc.state
      → records svc.state < max_records
      → get (hash_token c token) svc.state.refresh ≡ some r
      → IsRedeemable c svc w user_exists r
      → w.token_draw ≡ some bytes
      → (refresh c svc w token user_exists).0
        ≡ ok (r.user, issued_tokens c svc w r.family r.user r.family_deadline (c.url_encode bytes))
  unfolding refresh refresh_body
  refresh-current token user_exists r bytes k room found good drawn =
      let hash = hash_token c token in
      let swept = sweep-IsSwept w.now svc.state k in
      let st = sweep w.now svc.state in
      let live : is_live w.now r ≡ true = ground (arith, good.live, good.in_family) in
      let still : get hash st.refresh ≡ some r = swept.refresh.kept hash r found live in
      rw (make_room_free w.now st (omega (arith, swept.smaller)))
        (rw (still, redeem) (rotate_lem hash user_exists r _ bytes good drawn))
