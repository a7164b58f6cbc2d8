-- ===== src/TokenApi.antt =====
-- src/token_api.rs: the token endpoints. What they log is left out.
pub mod Endpoints
pub mod Answers
mod Tests
use ws2tcp_router.Prelude.{
  ℕ, ◌+◌, Bool, true, false, not, ◌&&◌, ◌||◌, Option, none, some, List, [], ◌∷◌, ◌++◌, Result, ok,
  err, is_some, str_eq, if◌then◌else◌,
}
use ws2tcp_router.Prelude.Maybe.{◌>>=◌}
use ws2tcp_router.Text.{Str, codes, starts_with}
use ws2tcp_router.Number.{show_uint}
use ws2tcp_router.Http.{
  Request, Response, Method, get, head, post, other, HeaderName, HeaderValue, response, edit,
  inserted, header_str, authorization, transfer_encoding, content_length, content_type,
  cache_control, pragma, allow,
}
use ws2tcp_router.Crypto.{Crypto}
use ws2tcp_router.Token.{
  TokenService, World, IssuedTokens, TokenError, invalid, reused, full, random,
}
use ws2tcp_router.Token.Service as Service
use ws2tcp_router.Auth.{
  AuthConfig, bearer_challenge, bearer_invalid_challenge, bearer_token, basic_user, has_user,
  unauthorized_response,
}

pub data Endpoint : Type 0 where
  login refresh revoke : Endpoint

abbrev pub endpoint_path : Endpoint → Str
endpoint_path login = codes "/auth/token"
endpoint_path refresh = codes "/auth/refresh"
endpoint_path revoke = codes "/auth/revoke"

-- the match on the path
unfoldable pub endpoint_of : Str → Option Endpoint
endpoint_of path =
    if str_eq path (codes "/auth/token")
    then some login
    else if str_eq path (codes "/auth/refresh")
    then some refresh
    else if str_eq path (codes "/auth/revoke")
    then some revoke
    else none

abbrev pub is_post : Method → Bool
is_post post = true
is_post _ = false

abbrev pub text_response : ℕ → Str → Response
text_response status message =
    edit (inserted content_type (codes "text/plain; charset=utf-8")) (response status message)

-- `Cache-Control` and `Pragma`
abbrev pub no_store : Response → Response
no_store r =
    edit (inserted pragma (codes "no-cache")) (edit (inserted cache_control (codes "no-store")) r)

-- The JSON text, by its parts.
unfoldable pub tokens_body : IssuedTokens → Str
tokens_body t =
    codes "{\"token_type\":\"Bearer\",\"access_token\":\""
    ++ t.access_token
    ++ codes "\",\"expires_in\":"
    ++ show_uint t.access_expires_in
    ++ codes ",\"refresh_token\":\""
    ++ t.refresh_token
    ++ codes "\",\"refresh_expires_in\":"
    ++ show_uint t.refresh_expires_in
    ++ codes "}"

abbrev pub tokens_response : IssuedTokens → Response
tokens_response t =
    no_store
      (edit (inserted content_type (codes "application/json")) (response 200 (tokens_body t)))

abbrev pub token_error_response : TokenError → Response
token_error_response full = text_response 503 (codes "too many active logins")
token_error_response _ = text_response 500 (codes "failed to issue tokens")

-- a body is announced
abbrev is_zero : HeaderValue → Bool
is_zero v = str_eq v.as_bytes (codes "0")

abbrev nonzero : Option HeaderValue → Bool
nonzero none = false
nonzero (some v) = not (is_zero v)

abbrev pub has_body : Request → Bool
has_body r = is_some (r.header transfer_encoding) || nonzero (r.header content_length)

module _ (c : Crypto) (w : World) (auth : AuthConfig) (svc : TokenService) (r : Request) where
  -- the answer to a login
  abbrev login_answer : Result TokenError IssuedTokens → Response
  login_answer (ok issued) = tokens_response issued
  login_answer (err e) = token_error_response e

  unfoldable pub answer_login : Response × TokenService
  answer_login = elim (header_str r authorization >>= basic_user c auth) [
    | none ↦ (unauthorized_response true none, svc)
    | some user ↦ let (result, svc') = Service.login c svc w user in (login_answer result, svc')
  ]

  abbrev refresh_answer : Result TokenError (Str × IssuedTokens) → Response
  refresh_answer (ok (user, issued)) = tokens_response issued
  refresh_answer (err invalid) = unauthorized_response false (some bearer_invalid_challenge)
  refresh_answer (err (reused user)) = unauthorized_response false (some bearer_invalid_challenge)
  refresh_answer (err full) = token_error_response full
  refresh_answer (err random) = token_error_response random

  unfoldable pub answer_refresh : Response × TokenService
  answer_refresh = elim (header_str r authorization >>= bearer_token) [
    | none ↦ (unauthorized_response false (some bearer_challenge), svc)
    | some token ↦
        let (result, svc') = Service.refresh c svc w token (has_user c auth) in
        (refresh_answer result, svc')
  ]

  unfoldable pub answer_revoke : Response × TokenService
  answer_revoke = elim (header_str r authorization >>= bearer_token) [
    | none ↦ (unauthorized_response false (some bearer_challenge), svc)
    | some token ↦
        let (known, svc') = Service.revoke c svc w token in (no_store (text_response 204 []), svc')
  ]

  unfoldable pub answer : Endpoint → Response × TokenService
  unfolding answer_login answer_refresh answer_revoke
  answer login = answer_login
  answer refresh = answer_refresh
  answer revoke = answer_revoke

  -- the method, then the body, then the endpoint
  unfoldable pub checked_answer : Endpoint → Response × TokenService
  unfolding answer
  checked_answer e =
      if not (is_post r.method)
      then (edit (inserted allow (codes "POST")) (text_response 405 (codes "use POST")), svc)
      else if has_body r
      then (text_response 400 (codes "request must not have a body"), svc)
      else answer e

  unfoldable pub with_tokens : Response × TokenService
  unfolding checked_answer endpoint_of
  with_tokens = elim (endpoint_of r.path) [
    | none ↦ (text_response 404 (codes "not found"), svc)
    | some e ↦ checked_answer e
  ]

-- The answer with the token service, if there is one, and the configuration with its new state.
abbrev pub answer_with :
    Crypto → World → Request → AuthConfig → Option TokenService → Response × Option AuthConfig
answer_with c w r auth none = (text_response 404 (codes "not found"), some auth)
answer_with c w r auth (some svc) =
    let (answer, svc') = with_tokens c w auth svc r in
    (answer, some (record auth { tokens = some svc' }))

unfoldable pub handle_auth_request :
    Crypto → World → Request → Option AuthConfig → Response × Option AuthConfig
unfolding with_tokens
handle_auth_request c w r none = (text_response 404 (codes "not found"), none)
handle_auth_request c w r (some auth) = answer_with c w r auth auth.tokens
