-- ===== src/TokenApi/Tests.antt =====
-- Runs of src/token_api.rs over the concrete `toy` crypto, and the theorems there.
use ws2tcp_router.Prelude.{◌≡◌, ◌⊎◌, refl, Option, none, some, [], ◌∷◌, str_eq}
use ws2tcp_router.Text.{Str, codes, strip_prefix, split_once, trim, eq_ignore_ascii_case}
use ws2tcp_router.Number.{show_uint}
use ws2tcp_router.Encoding.{as_bytes, from_utf8, to_be_bytes}
use ws2tcp_router.Http.{
  Request, Method, post, get, HeaderName, HeaderValue, authorization, content_length,
}
use ws2tcp_router.HashMap.{get as lookup, without, insert, retain}
use ws2tcp_router.Crypto.Toy.{toy, hex, unhex}
use ws2tcp_router.Token.{TokenService, World, from_secs}
use ws2tcp_router.Token.Store.{make_room}
use ws2tcp_router.Token.Access.{mint_access}
use ws2tcp_router.Token.Service.{new, login, issue}
use ws2tcp_router.Auth.{
  AuthConfig, basic_header, bearer_token, basic_auth_username, is_expected, basic_user, has_user,
  unauthorized_response,
}
use ws2tcp_router.TokenApi.{
  endpoint_of, answer_login, answer, checked_answer, with_tokens, handle_auth_request,
}
use ws2tcp_router.TokenApi.Answers.{
  HandsOut, IsProven, handle_auth_request-200, handle_auth_request-unproven,
  handle_auth_request-revoke,
}

abbrev world : World
world = record { now = 0; unix_now = 1000; token_draw = some (7 ∷ []); family_draw = some (5 ∷ []) }

abbrev service : TokenService
service = new (codes "0123456789abcdef0123456789abcdef") (from_secs 600) (from_secs 3600) 0

abbrev auth : AuthConfig
auth = record {
  expected_authorizations = basic_header toy (codes "al:pw") ∷ [];
  fixed_authorizations = [];
  basic_auth_file = none;
  anonymous_targets = [];
  fixed_anonymous_targets = [];
  anonymous_target_file = none;
  tokens = some service;
}

abbrev header_of : Str → HeaderName → Option HeaderValue
header_of text authorization = some (record { as_bytes = text; to_str = some text })
header_of text content_length = some (record { as_bytes = codes "0"; to_str = some (codes "0") })
header_of text _ = none

abbrev asking : Method → Str → Str → Request
asking method path text = record { method = method; path = path; header = header_of text }

running : Unit {0}
unfolding str_eq unauthorized_response as_bytes from_utf8 to_be_bytes strip_prefix split_once trim
    eq_ignore_ascii_case hex unhex show_uint lookup without insert retain make_room mint_access new
    login issue bearer_token basic_auth_username is_expected basic_user has_user endpoint_of
    answer_login answer checked_answer with_tokens handle_auth_request
running = tt

abbrev logging_in : Request
logging_in = asking post (codes "/auth/token") (basic_header toy (codes "al:pw"))

statuses :
    ((handle_auth_request toy world logging_in (some auth)).0.status ≡ 200)
    × ((handle_auth_request toy world (asking get (codes "/auth/token") []) (some auth)).0.status
        ≡ 405)
    × ((handle_auth_request toy world
          (asking post (codes "/auth/token") (codes "x"))
          (some auth)).0.status
        ≡ 401)
    × ((handle_auth_request toy world (asking post (codes "/auth/x") []) (some auth)).0.status
        ≡ 404)
    × ((handle_auth_request toy world logging_in none).0.status ≡ 404)
unfolding running
statuses = (refl, refl, refl, refl, refl)

handle_auth_request-200_example :
    HandsOut toy world logging_in
      (some auth)
      (handle_auth_request toy world logging_in (some auth)).0
handle_auth_request-200_example =
    handle_auth_request-200 toy world logging_in (some auth) statuses.0

handle_auth_request-unproven_example :
    ((handle_auth_request toy world logging_in (some auth)).1 ≡ some auth)
    ⊎ IsProven toy world logging_in (some auth)
handle_auth_request-unproven_example = handle_auth_request-unproven toy world logging_in (some auth)

abbrev logging_out : Request
logging_out = asking post (codes "/auth/revoke") (codes "Bearer ah")

abbrev other_auth : AuthConfig
other_auth = record auth { tokens = some (login toy service world (codes "al")).1 }

handle_auth_request-revoke_example :
    (handle_auth_request toy world logging_out (some auth)).0
    ≡ (handle_auth_request toy world logging_out (some other_auth)).0
handle_auth_request-revoke_example =
    handle_auth_request-revoke toy world world logging_out auth other_auth service
      (login toy service world (codes "al")).1 refl refl refl
