-- ===== src/Auth/Decision.antt =====
-- Who is let in: `authorize_request` of src/auth.rs, decided by the anonymous allowlist, then the
-- Bearer token, then the Basic credentials.
use ws2tcp_router.Prelude.{
  ℕ, ◌≡◌, ◌⊎◌, ◌↔◌, ◌∙◌, ap, refl, arith, Bool, true, false, Bool-cases, Option, none, some,
  Option-cases, List, [], ◌∷◌, ok, err, inl, inr, is_some, if◌then◌else◌,
}
use ws2tcp_router.Prelude.Maybe.{◌>>=◌, through}
use ws2tcp_router.Text.{Str}
use ws2tcp_router.Http.{
  Request, Response, HeaderEdit, appended, header_str, authorization, www_authenticate,
}
use ws2tcp_router.Crypto.{Crypto}
use ws2tcp_router.Token.{TokenService}
use ws2tcp_router.Token.Access.{verify_access}
use ws2tcp_router.Auth.{
  AuthConfig, anonymous_auth_user, basic_challenge, bearer_challenge, bearer_invalid_challenge,
  unauthorized_response, bearer_token, basic_auth_username, is_expected, basic_user, has_user,
  verify_access_token, allows_anonymous_target, authenticate, challenge, decide, authorize,
  authorize_request,
}

module _ (c : Crypto) (auth : AuthConfig) (now : ℕ) (request : Request) where
  -- The request has a Bearer token that is in force, of a user that is still configured.
  pub record ByBearer (user : Str) : Type 0 where
    pub text : Str
    pub token : Str
    pub svc : TokenService
    pub header : header_str request authorization ≡ some text
    pub bearer : bearer_token text ≡ some token
    pub tokens : auth.tokens ≡ some svc
    pub verified : verify_access c svc now token ≡ some user
    pub known : has_user c auth user ≡ true

  -- The request has no Bearer token, and one of the expected Basic headers.
  pub record ByBasic (user : Str) : Type 0 where
    pub text : Str
    pub header : header_str request authorization ≡ some text
    pub no_bearer : bearer_token text ≡ none
    pub expected : is_expected c text auth.expected_authorizations ≡ true
    pub named : basic_auth_username c text ≡ some user

  abbrev pub Presents : Str → Type 0
  Presents user = ByBearer user ⊎ ByBasic user

  -- Through the allowlist, or with credentials where the allowlist says nothing.
  abbrev pub IsGranted : Str → Type 0
  IsGranted user =
      ((allows_anonymous_target c auth request.path ≡ true) × (user ≡ anonymous_auth_user))
      ⊎ ((allows_anonymous_target c auth request.path ≡ false) × Presents user)

  verify_access_token-eq-some :
      (token user : Str)
      → verify_access_token c auth now token ≡ some user
      → (svc : TokenService) × (auth.tokens ≡ some svc)
        × (verify_access c svc now token ≡ some user)
        × (has_user c auth user ≡ true)
  unfolding verify_access_token
  verify_access_token-eq-some token user e = through auth.tokens _ e λ svc tokens e1.
      elim (Option-cases (verify_access c svc now token)) [
        | inl refused ↦ absurd (ground arith)
        | inr (name, verified) ↦ elim (Bool-cases (has_user c auth name)) [
          | inr gone ↦ absurd (ground arith)
          | inl known ↦
              let same : name ≡ user = ground arith in
              (svc, tokens, rw (← same) verified, rw (← same) known)
        ]
      ]

  authenticate-Presents :
      (user : Str) (presented : Bool)
      → authenticate c auth now (header_str request authorization) ≡ (some user, presented)
      → Presents user
  unfolding authenticate basic_user
  authenticate-Presents user presented e = elim (Option-cases (header_str request authorization)) [
    | inl missing ↦ absurd (ground arith)
    | inr (text, header) ↦ elim (Option-cases (bearer_token text)) [
      | inr (token, bearer) ↦
          let verified : verify_access_token c auth now token ≡ some user = ground arith in
          let (svc, tokens, accepted, known) = verify_access_token-eq-some token user verified in
          inl (record {
            text = text;
            token = token;
            svc = svc;
            header = header;
            bearer = bearer;
            tokens = tokens;
            verified = accepted;
            known = known;
          })
      | inl no_bearer ↦ elim (Bool-cases (is_expected c text auth.expected_authorizations)) [
        | inr other ↦ absurd (ground arith)
        | inl expected ↦ inr (record {
          text = text;
          header = header;
          no_bearer = no_bearer;
          expected = expected;
          named = ground arith;
        })
      ]
    ]
  ]

  Presents-authenticate :
      (user : Str)
      → Presents user
      → (authenticate c auth now (header_str request authorization)).0 ≡ some user
  unfolding authenticate basic_user verify_access_token
  Presents-authenticate user (inl p) =
      rw (p.header, authenticate, p.bearer, verify_access_token, p.tokens, p.verified, p.known)
  Presents-authenticate user (inr p) =
      rw (p.header, authenticate, p.no_bearer, basic_user, p.expected, p.named)

  authorize_iff : (user : Str) → (authorize c auth now request ≡ ok user) ↔ IsGranted user
  unfolding authorize decide
  authorize_iff user = elim (Bool-cases (allows_anonymous_target c auth request.path)) [
    | inl open_target ↦ (
      (λ e. inl (open_target, ground arith)),
      λ g. elim g [ inl (_, same) ↦ rw open_target (cc same) | inr (closed, _) ↦ absurd (cc) ],
    )
    | inr closed ↦ ground arith
  ]

  -- What a refusal offers: the Basic challenge, and with tokens the Bearer challenge, which says
  -- `invalid_token` if the request has a Bearer token.
  abbrev pub offers : Bool → List HeaderEdit
  offers presented = appended www_authenticate basic_challenge ∷ (elim auth.tokens [
    | none ↦ []
    | some svc ↦
        appended www_authenticate (if presented then bearer_invalid_challenge else bearer_challenge)
        ∷ []
  ])

  abbrev pub has_bearer : Bool
  has_bearer = is_some (header_str request authorization >>= bearer_token)

  authenticate-presented :
      (authenticate c auth now (header_str request authorization)).1 ≡ has_bearer
  unfolding authenticate
  authenticate-presented = elim (Option-cases (header_str request authorization)) [
    | inl missing ↦ rw missing
    | inr (text, header) ↦ elim (Option-cases (bearer_token text)) [
      | inl no_bearer ↦ rw (header, authenticate, no_bearer)
      | inr (token, bearer) ↦ rw (header, authenticate, bearer)
    ]
  ]

  edits_lem :
      (presented : Bool)
      → (unauthorized_response true (challenge c auth presented)).edits ≡ offers presented
  unfolding unauthorized_response
  edits_lem presented = elim (Option-cases auth.tokens) [
    | inl without ↦ rw without
    | inr (svc, tokens) ↦ rw tokens
  ]

  status_lem : (bearer : Option Str) → (unauthorized_response true bearer).status ≡ 401
  unfolding unauthorized_response
  status_lem none = refl
  status_lem (some s) = refl

  pub record IsRefused (r : Response) : Type 0 where
    pub closed : allows_anonymous_target c auth request.path ≡ false
    pub unproven : (user : Str) → ¬ Presents user
    pub status : r.status ≡ 401
    pub edits : r.edits ≡ offers has_bearer

  -- A request is refused only if its target is not on the allowlist and it presents no valid
  -- credentials, and by a 401 response with the Basic challenge and, if there are tokens, the
  -- Bearer challenge, which says `invalid_token` exactly if the request has a Bearer token.
  pub authorize_request-IsRefused :
      (r : Response) → authorize_request c now request (some auth) ≡ err r → IsRefused r
  unfolding authorize_request authorize decide
  authorize_request-IsRefused r e =
      elim (Bool-cases (allows_anonymous_target c auth request.path)) [
        | inl open_target ↦ absurd (ground arith)
        | inr closed ↦
            let answer = authenticate c auth now (header_str request authorization) in
            elim (Option-cases answer.0) [
              | inr (user, found) ↦ absurd (ground arith)
              | inl failed ↦
                  let same : unauthorized_response true (challenge c auth answer.1) ≡ r =
                    ground arith in
                  record {
                    closed = closed;
                    unproven = λ user p. ground (arith, failed, Presents-authenticate user p);
                    status = rw (← same) (status_lem (challenge c auth answer.1));
                    edits = rw (← same) (edits_lem answer.1 ∙ ap offers authenticate-presented);
                  }
            ]
      ]

-- A request is let in as `user` exactly if there is no authentication and the user is
-- `anonymous`; or its target is on the allowlist, and the user is `anonymous`; or its target is
-- not, and it presents a Bearer token in force, of a configured user, or an expected Basic header,
-- which names the user.
pub authorize_request_iff :
    (c : Crypto) (now : ℕ) (request : Request) (config : Option AuthConfig) (user : Str)
    → (authorize_request c now request config ≡ ok user) ↔ (elim config [
      | none ↦ user ≡ anonymous_auth_user
      | some auth ↦ IsGranted c auth now request user
    ])
unfolding authorize_request
authorize_request_iff c now request none user = ground arith
authorize_request_iff c now request (some auth) user = authorize_iff c auth now request user
