-- ===== src/Server/Tests.antt =====
-- Runs of the program with the toy platform and configuration, and the theorems there.
mod Removed
use ws2tcp_router.Prelude.{
  ℕ, ◌+◌, ◌≡◌, refl, arith, ◌≢◌, true, false, ok, Option, none, some, List, [], ◌∷◌, ◌++◌, nat_eq,
  bytes_eq, str_eq,
}
use ws2tcp_router.Text.{
  Str, Bytes, codes, strip_prefix, split_once, rsplit_once, contains, trim, lines,
  eq_ignore_ascii_case,
}
use ws2tcp_router.Number.{parse_uint, show_uint}
use ws2tcp_router.Encoding.RoundTrip.{IsStr}
use ws2tcp_router.Encoding.{as_bytes, from_utf8, to_be_bytes, from_be_bytes}
use ws2tcp_router.HashMap.{get as lookup, without, insert, retain, contains_key}
use ws2tcp_router.Http.{Request, post, get, HeaderName, HeaderValue, header_str, authorization}
use ws2tcp_router.Target.{addr, parse_target, parse_target_addr, parse_host_port}
use ws2tcp_router.Crypto.Toy.{toy, toy-IsCrypto, hex, unhex}
use ws2tcp_router.Token.{TokenService, World, from_secs}
use ws2tcp_router.Token.Store.{force_sweep, sweep, make_room, revoke_family}
use ws2tcp_router.Token.Access.{mint_access, verify_access}
use ws2tcp_router.Token.Service.{
  new, issue, login_body, login, family_of, revoke, refuse, rotate, redeem, refresh_body, refresh,
}
use ws2tcp_router.Token.Histories.{logs_in, step, run, IsStore, step-IsStore, new-IsStore}
use ws2tcp_router.ClientAddr.{contains as in_range, client_addr}
use ws2tcp_router.Auth.{
  AuthConfig, bearer_token, basic_auth_username, is_expected, basic_user, has_user,
  verify_access_token, allows_anonymous_target, authenticate, decide, authorize, authorize_request,
  reload_auth_file, load_auth_file, entries, lists_eq, validate_basic_auth_credential,
  encode_credentials, basic_header, is_user, anonymous_auth_user, unauthorized_response,
}
use ws2tcp_router.Auth.Toy.{auth, args, texts, keys, build_run, secret}
use ws2tcp_router.Auth.Polling.{basic_auth, anonymous_target, spawn_auth_file_reloader, reload_with}
use ws2tcp_router.TokenApi.{
  endpoint_of, answer_login, answer_refresh, answer_revoke, answer, checked_answer, with_tokens,
  handle_auth_request,
}
use ws2tcp_router.HttpProbe.{
  has_end, read_loop, read_request_head, poll_read, path_of, parse_plain_request,
}
use ws2tcp_router.Proxy.{answer_plain}
use ws2tcp_router.Main.{Streams, handle_accepted_stream}
use ws2tcp_router.Connection.{Platform, callback, serve_target, handle_connection}
use ws2tcp_router.Connection.Toy.{platform, peer, nobody}
use ws2tcp_router.Server.{Event, connects, polls, poll_all, serve, serve_all}
use ws2tcp_router.Server.Calls.{Ran, serve_all-Ran}
use ws2tcp_router.Server.Running.{IsUp, serve_all-build_auth_config}
use ws2tcp_router.Server.Removal.{serve_all_removed}
use ws2tcp_router.Server.Logout.{IsLogout, serve_all_logout}

abbrev world : ℕ → World
world seconds = record {
  now = from_secs seconds;
  unix_now = 1000 + seconds;
  token_draw = some (7 ∷ []);
  family_draw = some (5 ∷ []);
}

abbrev header_of : Str → HeaderName → Option HeaderValue
header_of text authorization = some (record { as_bytes = text; to_str = some text })
header_of text _ = none

-- The platform where every request is a POST with the given Authorization header.
abbrev posting : Str → Platform Bytes
posting text = record platform {
  head_parser = record {
    parse = λ s. some (some (codes "POST"), some s, []);
    method_from = λ name. some post;
    build = λ m target headers.
        some (record { method = m; path = path_of target; header = header_of text });
  };
}

abbrev serving : TokenService
serving = step toy (new secret (from_secs 600) (from_secs 3600) 0) (logs_in (codes "al") (world 0))

abbrev logged_in : AuthConfig
logged_in = record auth { tokens = some serving }

abbrev logout_head : Bytes
logout_head = codes "/auth/revoke?\r\n\r\n"

-- Behind TLS, every stream is the one over it, and a handshake with an empty stream fails.
abbrev tls_of : Str → Bytes → Option Bytes
tls_of config [] = none
tls_of config stream = some stream

abbrev streams : Str → Streams Str Bytes Bytes
streams text = record { tls_accept = tls_of; plain = posting text; over_tls = posting text }

abbrev behind_tls : Option Str
behind_tls = some (codes "wss")

abbrev later_events : List (Event Str Bytes)
later_events =
    polls basic_auth texts
    ∷ connects none (codes "/auth/refresh?\r\n\r\n") peer (world 20)
    ∷ connects behind_tls [] peer (world 25)
    ∷ connects behind_tls (codes "/tcp:h:80?\r\n\r\n") peer (world 30)
    ∷ []

running : Unit {0}
unfolding str_eq contains strip_prefix split_once rsplit_once trim lines eq_ignore_ascii_case
    parse_uint show_uint as_bytes from_utf8 to_be_bytes from_be_bytes lookup without insert retain
    contains_key addr parse_target parse_target_addr parse_host_port hex unhex force_sweep sweep
    make_room revoke_family mint_access verify_access new issue login_body login family_of revoke
    refuse rotate redeem refresh_body refresh step run in_range client_addr bearer_token
    basic_auth_username is_expected basic_user has_user verify_access_token allows_anonymous_target
    authenticate decide authorize authorize_request reload_auth_file load_auth_file entries lists_eq
    validate_basic_auth_credential encode_credentials spawn_auth_file_reloader reload_with
    endpoint_of answer_login answer_refresh answer_revoke answer checked_answer with_tokens
    handle_auth_request has_end read_loop read_request_head poll_read path_of parse_plain_request
    answer_plain callback serve_target handle_connection handle_accepted_stream poll_all serve
    serve_all unauthorized_response
running = tt

serve_all-Ran_example :
    Ran toy
      (from_secs 10)
      (from_secs 60)
      later_events
      (some logged_in)
      (serve_all toy (streams (codes "Bearer ah")) nobody (some logged_in) later_events)
serve_all-Ran_example =
    serve_all-Ran toy (streams (codes "Bearer ah")) nobody (from_secs 10) (from_secs 60)
      (some logged_in) later_events (omega arith, (omega arith, (omega arith, omega arith)))

serve_all-build_auth_config_example :
    IsUp toy texts keys args
      (some auth)
      (serve_all toy (streams (codes "Bearer ah")) nobody (some auth) later_events)
serve_all-build_auth_config_example =
    serve_all-build_auth_config toy texts keys args (streams (codes "Bearer ah")) nobody none 0
      (some auth) later_events build_run

serving-IsStore : IsStore serving.state
serving-IsStore =
    step-IsStore toy (new secret (from_secs 600) (from_secs 3600) 0)
      (logs_in (codes "al") (world 0)) (new-IsStore toy secret (from_secs 600) (from_secs 3600) 0)

abbrev logout_request : Request
logout_request = record {
  method = post;
  path = codes "/auth/revoke";
  header = header_of (codes "Bearer ah");
}

logging_out : IsLogout toy (world 10) logged_in serving logout_request 5
unfolding running
logging_out = record {
  tokens = refl;
  served = record { path = refl; method = refl; body = refl };
  text = codes "Bearer ah";
  token = codes "ah";
  header = refl;
  bearer = refl;
  known = refl;
}

-- A request for a target on the allowlist, with the access token of the login.
abbrev bearing : Request
bearing = record {
  method = get;
  path = codes "/tcp:dns:53";
  header = header_of (codes "Bearer " ++ mint_access toy serving 1000 5 (codes "al"));
}

serve_all_logout_example :
    (auth' : AuthConfig) × (serve_all toy
        (streams (codes "Bearer ah"))
        nobody
        (some logged_in)
        (connects behind_tls logout_head peer (world 10) ∷ later_events)
      ≡ some auth')
    × (allows_anonymous_target toy auth' (codes "/tcp:dns:53") ≡ true)
unfolding running
serve_all_logout_example =
    serve_all_logout toy (streams (codes "Bearer ah")) nobody behind_tls logout_head peer (world 10)
      logged_in serving logout_request 5 later_events 1000 1060 (from_secs 60) (from_secs 1000) 600
      0 (codes "al") bearing (codes "Bearer " ++ mint_access toy serving 1000 5 (codes "al"))
      anonymous_auth_user toy-IsCrypto serving-IsStore
      (logout_head, refl, (logout_head, [], refl, refl)) logging_out
      (omega arith, (omega arith, (omega arith, omega arith))) (ground arith) (omega arith)
      (omega arith) refl (omega arith) (omega arith) (omega arith) refl refl refl
