-- ===== src/Auth/Tests.antt =====
-- Runs of src/auth.rs over the concrete `toy` crypto, and the theorems there.
use ws2tcp_router.Prelude.{
  ◌≡◌, ◌↔◌, refl, arith, Bool, true, false, Option, none, some, List, [], ◌∷◌, Result, ok, err, inl,
  Any, str_eq,
}
use ws2tcp_router.Text.{
  Str, codes, strip_prefix, split_once, rsplit_once, trim, lines, contains, eq_ignore_ascii_case,
}
use ws2tcp_router.Number.{parse_uint, show_uint}
use ws2tcp_router.Encoding.{as_bytes, from_utf8}
use ws2tcp_router.Encoding.RoundTrip.{IsStr}
use ws2tcp_router.Target.{Target, addr, parse_target, parse_target_addr, parse_host_port}
use ws2tcp_router.Crypto.Toy.{toy, toy-IsCrypto, hex, unhex}
use ws2tcp_router.Token.Access.{verify_access}
use ws2tcp_router.Token.Service.{new}
use ws2tcp_router.Auth.{
  basic_header, unauthorized_response, challenge, bearer_token, validate_basic_auth_credential,
  encode_credentials, load_auth_file, entries, lists_eq, basic_auth_username, is_expected,
  basic_user, has_user, verify_access_token, allows_anonymous_target, authenticate, decide,
  authorize, authorize_request, reload_auth_file, anonymous_auth_user, normalize_anonymous_targets,
  load_anonymous_target_file, bad_credential_line, not_user_pass,
}
use ws2tcp_router.Auth.Toy.{credential, auth, asking}
use ws2tcp_router.Auth.Decision.{
  IsGranted, authorize_request_iff, IsRefused, authorize_request-IsRefused,
}
use ws2tcp_router.Auth.Credentials.{basic_user-encode_credentials}
use ws2tcp_router.Auth.Anonymous.{allows_anonymous_target_iff}
use ws2tcp_router.Auth.Reloading.{reload_all}
use ws2tcp_router.Auth.Polling.{
  reloaded, failed_to_reload, poll_file_reload, due_all, poll_file_reload-due_all,
}
use ws2tcp_router.Auth.Building.{build_auth_config, from_args, load_secret, trim_ascii}

running : Unit {0}
unfolding str_eq as_bytes from_utf8 strip_prefix split_once rsplit_once trim lines contains
    eq_ignore_ascii_case parse_uint show_uint addr parse_target parse_target_addr parse_host_port
    hex unhex verify_access new bearer_token validate_basic_auth_credential encode_credentials
    load_auth_file entries lists_eq basic_auth_username is_expected basic_user has_user
    verify_access_token allows_anonymous_target authenticate decide authorize authorize_request
    reload_auth_file unauthorized_response build_auth_config from_args load_secret trim_ascii
    normalize_anonymous_targets load_anonymous_target_file reload_all
running = tt

abbrev upstream_path : Str
upstream_path = codes "/tcp:h:80"

admitted :
    (authorize_request toy 0 (asking upstream_path (basic_header toy credential)) (some auth)
      ≡ ok (codes "al"))
    × (authorize_request toy 0 (asking (codes "/udp:dns:053") []) (some auth)
        ≡ ok anonymous_auth_user)
unfolding running
admitted = (refl, refl)

refused :
    authorize_request toy 0 (asking upstream_path (codes "bearer x")) (some auth)
    ≡ err (unauthorized_response true (challenge toy auth true))
unfolding running
refused = refl

reload_runs :
    ((reload_auth_file toy auth (some (codes "# users\n bob:x \n\nal:pw\n"))).0 ≡ ok true)
    × ((reload_auth_file toy auth (some (codes "al:pw"))).0 ≡ ok false)
    × ((reload_auth_file toy auth (some (codes "\nal\n"))).0
        ≡ err (bad_credential_line 2 not_user_pass))
unfolding running
reload_runs = (refl, refl, refl)

authorize_request_iff_example :
    (authorize_request toy 0 (asking upstream_path (basic_header toy credential)) (some auth)
      ≡ ok (codes "al"))
    ↔ IsGranted toy auth 0 (asking upstream_path (basic_header toy credential)) (codes "al")
authorize_request_iff_example =
    authorize_request_iff toy 0 (asking upstream_path (basic_header toy credential)) (some auth)
      (codes "al")

authorize_request-IsRefused_example :
    IsRefused toy auth 0
      (asking upstream_path (codes "bearer x"))
      (unauthorized_response true (challenge toy auth true))
authorize_request-IsRefused_example =
    authorize_request-IsRefused toy auth 0 (asking upstream_path (codes "bearer x"))
      (unauthorized_response true (challenge toy auth true)) refused

credential-IsStr : IsStr credential
credential-IsStr = ground arith

header-IsStr : IsStr (basic_header toy credential)
unfolding running
header-IsStr = ground arith

basic_user-encode_credentials_example :
    (username : Str) × (password : Str) × (split_once b':' credential ≡ some (username, password))
    × (basic_user toy auth (basic_header toy credential) ≡ some username)
    × (has_user toy auth username ≡ true)
unfolding running
basic_user-encode_credentials_example =
    basic_user-encode_credentials toy auth (credential ∷ []) credential toy-IsCrypto
      credential-IsStr refl (inl refl)

allows_anonymous_target_iff_example :
    (allows_anonymous_target toy auth (codes "/udp:dns:053") ≡ true) ↔ (
      (t : Target) × (parse_target (codes "/udp:dns:053") ≡ ok t)
      × Any (λ entry. entry ≡ addr t) auth.anonymous_targets)
allows_anonymous_target_iff_example = allows_anonymous_target_iff toy auth (codes "/udp:dns:053")

abbrev file : Option Str
file = some (codes "# users\n bob:x \n\nal:pw\n")

abbrev results : List (Result Str Bool)
results =
    ok true ∷ err (codes "a") ∷ err (codes "a") ∷ err (codes "b") ∷ ok false ∷ err (codes "b") ∷ []

poll_run :
    poll_file_reload none results
    ≡ reloaded
      ∷ failed_to_reload (codes "a")
      ∷ failed_to_reload (codes "b")
      ∷ failed_to_reload (codes "b")
      ∷ []
unfolding str_eq poll_file_reload
poll_run = refl

poll_file_reload-due_all_example : poll_file_reload none results ≡ due_all none results
poll_file_reload-due_all_example = poll_file_reload-due_all results
