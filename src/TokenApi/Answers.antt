-- ===== src/TokenApi/Answers.antt =====
-- `handle_auth_request` of src/token_api.rs as a whole: who gets tokens, who can change the
-- service, and that a logout tells nothing about the token.
use ws2tcp_router.Prelude.{
  ◌≡◌, ◌⊎◌, ◌∙◌, refl, sym, ap, arith, Option, none, some, inl, inr, str_eq,
}
use ws2tcp_router.Http.{Request, Response}
use ws2tcp_router.Crypto.{Crypto}
use ws2tcp_router.Token.{TokenService, World, IssuedTokens}
use ws2tcp_router.Auth.{AuthConfig}
use ws2tcp_router.TokenApi.{
  Endpoint, revoke, endpoint_path, endpoint_of, tokens_response, answer, answer_revoke,
  checked_answer, with_tokens, answer_with, handle_auth_request,
}
use ws2tcp_router.TokenApi.Endpoints.{
  IsServed, HasCredential, Hands, with_tokens_cases, answer-200, answer-unproven,
}

-- What tokens are handed out for: a configuration with a token service, a POST without a body to
-- the login or refresh endpoint, and a credential that the service takes.
pub record HandsOut (c : Crypto) (w : World) (r : Request) (config : Option AuthConfig)
    (answered : Response) : Type 0 where
  pub auth : AuthConfig
  pub svc : TokenService
  pub endpoint : Endpoint
  pub issued : IssuedTokens
  pub configured : config ≡ some auth
  pub tokens : auth.tokens ≡ some svc
  pub served : IsServed c w auth svc r endpoint
  pub hands : Hands c w auth svc r endpoint issued
  pub response : answered ≡ tokens_response issued

module _ (c : Crypto) (w : World) (r : Request) where
  answer_with-200 :
      (auth : AuthConfig) (tokens : Option TokenService)
      → auth.tokens ≡ tokens
      → (answer_with c w r auth tokens).0.status ≡ 200
      → HandsOut c w r (some auth) (answer_with c w r auth tokens).0
  answer_with-200 auth none tokens h = absurd (omega arith)
  answer_with-200 auth (some svc) tokens h =
      with_tokens_cases c w auth svc r (λ p. p.0.status ≡ 200 → HandsOut c w r (some auth) p.0)
        (λ e. absurd (omega arith)) (λ e. absurd (omega arith)) (λ e. absurd (omega arith))
        (λ endpoint served e.
          let (issued, same, hands) = answer-200 c w auth svc r endpoint e in
          record {
            auth = auth;
            svc = svc;
            endpoint = endpoint;
            issued = issued;
            configured = refl;
            tokens = tokens;
            served = served;
            hands = hands;
            response = same;
          })
        h

  -- A 200 answer hands out tokens that the service has just issued, for a POST without a body: at
  -- the login endpoint for Basic credentials that match, at the refresh endpoint for the Bearer
  -- token. No other answer has the status 200.
  pub handle_auth_request-200 :
      (config : Option AuthConfig)
      → (handle_auth_request c w r config).0.status ≡ 200
      → HandsOut c w r config (handle_auth_request c w r config).0
  unfolding handle_auth_request
  handle_auth_request-200 none h = absurd (omega arith)
  handle_auth_request-200 (some auth) h = answer_with-200 auth auth.tokens refl h

  -- A token service, a POST without a body to an endpoint, and the endpoint's kind of credential.
  pub record IsProven (config : Option AuthConfig) : Type 0 where
    pub auth : AuthConfig
    pub svc : TokenService
    pub endpoint : Endpoint
    pub configured : config ≡ some auth
    pub tokens : auth.tokens ≡ some svc
    pub served : IsServed c w auth svc r endpoint
    pub credential : HasCredential c w auth svc r endpoint

  answer_with-unproven :
      (auth : AuthConfig) (tokens : Option TokenService)
      → auth.tokens ≡ tokens
      → ((answer_with c w r auth tokens).1 ≡ some auth) ⊎ IsProven (some auth)
  answer_with-unproven auth none tokens = inl refl
  answer_with-unproven auth (some svc) tokens =
      let kept : some (record auth { tokens = some svc }) ≡ some auth =
        ap (λ t. some (record auth { tokens = t })) (sym tokens) in
      with_tokens_cases c w auth svc r
        (λ p. (some (record auth { tokens = some p.1 }) ≡ some auth) ⊎ IsProven (some auth))
        (inl kept) (inl kept) (inl kept)
        (λ endpoint served. elim (answer-unproven c w auth svc r endpoint) [
          | inl same ↦ inl (ap (λ s. some (record auth { tokens = some s })) same ∙ kept)
          | inr credential ↦ inr (record {
            auth = auth;
            svc = svc;
            endpoint = endpoint;
            configured = refl;
            tokens = tokens;
            served = served;
            credential = credential;
          })
        ])

  -- A request leaves the configuration and the token service as they are, unless there is a token
  -- service and the request is a POST without a body to an endpoint, with the kind of credential
  -- that the endpoint asks for.
  pub handle_auth_request-unproven :
      (config : Option AuthConfig)
      → ((handle_auth_request c w r config).1 ≡ config) ⊎ IsProven config
  unfolding handle_auth_request
  handle_auth_request-unproven none = inl refl
  handle_auth_request-unproven (some auth) = answer_with-unproven auth auth.tokens refl

answer_with-revoke :
    (c : Crypto) (w w' : World) (r : Request) (auth auth' : AuthConfig) (svc svc' : TokenService)
    → r.path ≡ endpoint_path revoke
    → (answer_with c w r auth (some svc)).0 ≡ (answer_with c w' r auth' (some svc')).0
unfolding with_tokens checked_answer answer answer_revoke endpoint_of str_eq
answer_with-revoke c w w' r auth auth' svc svc' at_revoke =
    let endpoint : endpoint_of r.path ≡ some revoke = rw at_revoke in
    rw (with_tokens, endpoint) (ground arith)

-- A logout is no oracle: the answer to a request to the logout endpoint is the same for any two
-- configurations with token services, at any times, so it does not tell whether the token was
-- known.
pub handle_auth_request-revoke :
    (c : Crypto) (w w' : World) (r : Request) (auth auth' : AuthConfig) (svc svc' : TokenService)
    → r.path ≡ endpoint_path revoke
    → auth.tokens ≡ some svc
    → auth'.tokens ≡ some svc'
    → (handle_auth_request c w r (some auth)).0 ≡ (handle_auth_request c w' r (some auth')).0
unfolding handle_auth_request
handle_auth_request-revoke c w w' r auth auth' svc svc' at_revoke tokens tokens' =
    ap (λ t. (answer_with c w r auth t).0) tokens
    ∙ answer_with-revoke c w w' r auth auth' svc svc' at_revoke
    ∙ ap (λ t. (answer_with c w' r auth' t).0) (sym tokens')
