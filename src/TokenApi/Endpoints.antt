-- ===== src/TokenApi/Endpoints.antt =====
-- What the token endpoints of src/token_api.rs answer, and when they touch the token service.
use ws2tcp_router.Prelude.{
  ◌≡◌, ◌⊎◌, ◌∙◌, refl, ap, arith, Bool, true, false, Bool-cases, Option, none, some, Option-cases,
  [], ◌∷◌, ◌++◌, Result, ok, err, inl, inr, str_eq, str_eq_iff,
}
use ws2tcp_router.Prelude.Maybe.{◌>>=◌, through}
use ws2tcp_router.Text.{Str, codes}
use ws2tcp_router.Http.{Request, Response, inserted, header_str, authorization, allow}
use ws2tcp_router.Crypto.{Crypto}
use ws2tcp_router.Token.{
  TokenService, World, IssuedTokens, TokenError, invalid, reused, full, random,
}
use ws2tcp_router.Token.Service as Service
use ws2tcp_router.Auth.{AuthConfig, bearer_token, basic_user, has_user, unauthorized_response}
use ws2tcp_router.TokenApi.{
  Endpoint, login, refresh, revoke, endpoint_path, endpoint_of, is_post, has_body, tokens_response,
  text_response, login_answer, refresh_answer, answer_login, answer_refresh, answer_revoke, answer,
  checked_answer, with_tokens,
}

endpoint_of-eq-some :
    (path : Str) (e : Endpoint) → endpoint_of path ≡ some e → path ≡ endpoint_path e
unfolding endpoint_of
endpoint_of-eq-some path e h =
    let test = λ (p : Str). str_eq_iff path p in
    elim (Bool-cases (str_eq path (codes "/auth/token"))) [
      | inl t ↦
          let same : login ≡ e = ground arith in
          (test (codes "/auth/token")).0 t ∙ ap endpoint_path same
      | inr no_token ↦ elim (Bool-cases (str_eq path (codes "/auth/refresh"))) [
        | inl t ↦
            let same : refresh ≡ e = ground arith in
            (test (codes "/auth/refresh")).0 t ∙ ap endpoint_path same
        | inr no_refresh ↦ elim (Bool-cases (str_eq path (codes "/auth/revoke"))) [
          | inl t ↦
              let same : revoke ≡ e = ground arith in
              (test (codes "/auth/revoke")).0 t ∙ ap endpoint_path same
          | inr no_revoke ↦ absurd (ground arith)
        ]
      ]
    ]

module _ (c : Crypto) (w : World) (auth : AuthConfig) (svc : TokenService) (r : Request) where
  -- The request is a POST without a body to an endpoint.
  pub record IsServed (e : Endpoint) : Type 0 where
    pub path : r.path ≡ endpoint_path e
    pub method : is_post r.method ≡ true
    pub body : has_body r ≡ false

  -- The credential that an endpoint asks for.
  abbrev pub HasCredential : Endpoint → Type 0
  HasCredential login =
      (text : Str) × (header_str r authorization ≡ some text)
      × (user : Str) × (basic_user c auth text ≡ some user)
  HasCredential _ =
      (text : Str) × (header_str r authorization ≡ some text)
      × (token : Str) × (bearer_token text ≡ some token)

  -- The ways in which a request with a token service can be answered.
  pub with_tokens_cases :
      (Q : Response × TokenService → Type 0)
      → Q (text_response 404 (codes "not found"), svc)
      → Q (
        record (text_response 405 (codes "use POST")) {
          edits =
              (text_response 405 (codes "use POST")).edits ++ inserted allow (codes "POST") ∷ [];
        },
        svc,
      )
      → Q (text_response 400 (codes "request must not have a body"), svc)
      → ((e : Endpoint) → IsServed e → Q (answer c w auth svc r e))
      → Q (with_tokens c w auth svc r)
  unfolding with_tokens checked_answer
  with_tokens_cases Q unknown not_post with_body served = elim (Option-cases (endpoint_of r.path)) [
    | inl missing ↦ rw (with_tokens, missing) unknown
    | inr (e, found) ↦ elim (Bool-cases (is_post r.method)) [
      | inr other ↦ rw (with_tokens, found, checked_answer, other) not_post
      | inl posted ↦ elim (Bool-cases (has_body r)) [
        | inl full_body ↦ rw (with_tokens, found, checked_answer, posted, full_body) with_body
        | inr empty ↦
            rw (with_tokens, found, checked_answer, posted, empty)
              (served e (record {
                path = endpoint_of-eq-some r.path e found;
                method = posted;
                body = empty;
              }))
      ]
    ]
  ]

  -- The tokens of a login of the user whose Basic credentials the request has.
  pub record FromLogin (issued : IssuedTokens) : Type 0 where
    pub text : Str
    pub user : Str
    pub header : header_str r authorization ≡ some text
    pub matched : basic_user c auth text ≡ some user
    pub issuing : (Service.login c svc w user).0 ≡ ok issued

  -- The tokens of a refresh of the Bearer token that the request has.
  pub record FromRefresh (issued : IssuedTokens) : Type 0 where
    pub text : Str
    pub token : Str
    pub user : Str
    pub header : header_str r authorization ≡ some text
    pub bearer : bearer_token text ≡ some token
    pub issuing : (Service.refresh c svc w token (has_user c auth)).0 ≡ ok (user, issued)

  abbrev pub Hands : Endpoint → IssuedTokens → Type 0
  Hands login issued = FromLogin issued
  Hands refresh issued = FromRefresh issued
  Hands revoke issued = ⊥

  unauthorized_status :
      (basic : Bool) (bearer : Option Str) → (unauthorized_response basic bearer).status ≡ 401
  unfolding unauthorized_response
  unauthorized_status true none = refl
  unauthorized_status true (some s) = refl
  unauthorized_status false none = refl
  unauthorized_status false (some s) = refl

  refused_status :
      {A : Type 0} (basic : Bool) (bearer : Option Str)
      → (unauthorized_response basic bearer).status ≡ 200
      → A
  refused_status basic bearer h = absurd (omega (arith, h, unauthorized_status basic bearer))

  login_answer-200 :
      (result : Result TokenError IssuedTokens)
      → (login_answer c w auth svc r result).status ≡ 200
      → (issued : IssuedTokens) × (result ≡ ok issued)
        × (login_answer c w auth svc r result ≡ tokens_response issued)
  login_answer-200 (ok issued) h = (issued, refl, refl)
  login_answer-200 (err invalid) h = absurd (omega arith)
  login_answer-200 (err (reused u)) h = absurd (omega arith)
  login_answer-200 (err full) h = absurd (omega arith)
  login_answer-200 (err random) h = absurd (omega arith)

  refresh_answer-200 :
      (result : Result TokenError (Str × IssuedTokens))
      → (refresh_answer c w auth svc r result).status ≡ 200
      → (user : Str) × (issued : IssuedTokens) × (result ≡ ok (user, issued))
        × (refresh_answer c w auth svc r result ≡ tokens_response issued)
  refresh_answer-200 (ok (user, issued)) h = (user, issued, refl, refl)
  refresh_answer-200 (err invalid) h = refused_status false _ h
  refresh_answer-200 (err (reused u)) h = refused_status false _ h
  refresh_answer-200 (err full) h = absurd (omega arith)
  refresh_answer-200 (err random) h = absurd (omega arith)

  pub answer-200 :
      (e : Endpoint)
      → (answer c w auth svc r e).0.status ≡ 200
      → (issued : IssuedTokens) × ((answer c w auth svc r e).0 ≡ tokens_response issued)
        × Hands e issued
  unfolding answer answer_login answer_refresh answer_revoke
  answer-200 login h = elim (Option-cases (header_str r authorization >>= basic_user c auth)) [
    | inl none_given ↦ refused_status true none (rw (answer, answer_login, none_given) at h)
    | inr (user, given) ↦ through (header_str r authorization) _ given λ text header matched.
        let (issued, issuing, same) =
          login_answer-200 (Service.login c svc w user).0 (rw (answer, answer_login, given) at h) in
        (
          issued,
          rw (answer, answer_login, given) same,
          record {
            text = text;
            user = user;
            header = header;
            matched = matched;
            issuing = issuing;
          },
        )
  ]
  answer-200 refresh h = elim (Option-cases (header_str r authorization >>= bearer_token)) [
    | inl none_given ↦ refused_status false _ (rw (answer, answer_refresh, none_given) at h)
    | inr (token, given) ↦ through (header_str r authorization) _ given λ text header bearer.
        let (user, issued, issuing, same) =
          refresh_answer-200 (Service.refresh c svc w token (has_user c auth)).0
            (rw (answer, answer_refresh, given) at h) in
        (
          issued,
          rw (answer, answer_refresh, given) same,
          record {
            text = text;
            token = token;
            user = user;
            header = header;
            bearer = bearer;
            issuing = issuing;
          },
        )
  ]
  answer-200 revoke h = elim (Option-cases (header_str r authorization >>= bearer_token)) [
    | inl none_given ↦ refused_status false _ (rw (answer, answer_revoke, none_given) at h)
    | inr (token, given) ↦
        let no_content : 204 ≡ 200 = rw (answer, answer_revoke, given) at h in
        absurd (omega (arith, no_content))
  ]

  -- A token endpoint without a credential leaves the service alone.
  pub answer-unproven : (e : Endpoint) → ((answer c w auth svc r e).1 ≡ svc) ⊎ HasCredential e
  unfolding answer answer_login answer_refresh answer_revoke
  answer-unproven login = elim (Option-cases (header_str r authorization >>= basic_user c auth)) [
    | inl none_given ↦ inl (rw (answer, answer_login, none_given))
    | inr (user, given) ↦
        through (header_str r authorization) _ given
          λ text header matched. inr (text, header, user, matched)
  ]
  answer-unproven refresh = elim (Option-cases (header_str r authorization >>= bearer_token)) [
    | inl none_given ↦ inl (rw (answer, answer_refresh, none_given))
    | inr (token, given) ↦
        through (header_str r authorization) _ given
          λ text header bearer. inr (text, header, token, bearer)
  ]
  answer-unproven revoke = elim (Option-cases (header_str r authorization >>= bearer_token)) [
    | inl none_given ↦ inl (rw (answer, answer_revoke, none_given))
    | inr (token, given) ↦
        through (header_str r authorization) _ given
          λ text header bearer. inr (text, header, token, bearer)
  ]
