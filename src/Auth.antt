-- ===== src/Auth.antt =====
-- src/auth.rs: the credentials, the anonymous allowlist, and the decision on a request. The locks
-- are held for one read or write each, so each function is one step on the lists that it reads. A
-- file is what `fs::read_to_string` returns of its path, `none` for an error.
pub mod Decision
pub mod Credentials
pub mod Anonymous
pub mod Reloading
pub mod Building
pub mod Polling
pub mod Users
pub mod Toy
mod Tests
use mathlib.Core.List.{foldl}
use ws2tcp_router.Prelude.{
  ℕ, zero, suc, ◌+◌, Bool, true, false, not, ◌&&◌, ◌||◌, Option, none, some, List, [], ◌∷◌, ◌++◌,
  map, Result, ok, err, ◌>>=◌, ok_or, context, bail_if, unwrap_or, collect, is_some, any, str_eq,
  if◌then◌else◌,
}
use ws2tcp_router.Prelude.Maybe.{◌>>=◌ as ◌>>=?◌}
use ws2tcp_router.Text.{
  Str, Bytes, codes, is_empty, strip_prefix, starts_with, split_once, trim, lines,
  eq_ignore_ascii_case,
}
use ws2tcp_router.Encoding.{as_bytes, from_utf8}
use ws2tcp_router.Http.{
  Request, Response, response, edit, appended, header_str, authorization, www_authenticate,
}
use ws2tcp_router.Target.{Target, TargetError, addr, parse_target, parse_target_addr}
use ws2tcp_router.Crypto.{Crypto}
use ws2tcp_router.Token.{TokenService}
use ws2tcp_router.Token.Access.{verify_access}
use ws2tcp_router.Args.{FilePath}

pub record AuthConfig : Type 0 where
  pub expected_authorizations : List Str
  pub fixed_authorizations : List Str
  pub basic_auth_file : Option FilePath
  pub anonymous_targets : List Str
  pub fixed_anonymous_targets : List Str
  pub anonymous_target_file : Option FilePath
  pub tokens : Option TokenService

abbrev basic_challenge : Str
basic_challenge = codes "Basic realm=\"ws2tcp-router\", charset=\"UTF-8\""

abbrev pub bearer_challenge : Str
bearer_challenge = codes "Bearer realm=\"ws2tcp-router\""

abbrev pub bearer_invalid_challenge : Str
bearer_invalid_challenge = codes "Bearer realm=\"ws2tcp-router\", error=\"invalid_token\""

abbrev pub anonymous_auth_user : Str
anonymous_auth_user = codes "anonymous"

-- The messages of `bail!` and `with_context`; an error in a file has its line.
pub data AuthError : Type 0 where
  unreadable no_credentials not_user_pass empty_username empty_password : AuthError
  bad_target : Str → TargetError → AuthError
  bad_target_line : ℕ → TargetError → AuthError
  bad_credential_line : ℕ → AuthError → AuthError

-- `map_err` with the error itself
abbrev map_err : {E F A : Type 0} → (E → F) → Result E A → Result F A
map_err f (ok a) = ok a
map_err f (err e) = err (f e)

-- `parse_target_addr(…).map(|target| target.addr())`
abbrev normalize : Str → Result TargetError Str
normalize s = parse_target_addr s >>= λ t. ok (addr t)

unfoldable pub normalize_anonymous_targets : List Str → Result AuthError (List Str)
normalize_anonymous_targets = collect (λ s. map_err (bad_target s) (normalize s))

-- The trimmed lines of a file, without empty ones and comments, each with its index, from `i` on.
unfoldable pub entries : ℕ → List Str → List (ℕ × Str)
entries i [] = []
entries i (line ∷ rest) =
    let more = entries (suc i) rest in
    let text = trim line in
    if not (is_empty text) && not (starts_with (codes "#") text) then (i, text) ∷ more else more

unfoldable pub load_anonymous_target_file : Option Str → Result AuthError (List Str)
load_anonymous_target_file file = ok_or file unreadable >>= λ text.
    collect (λ (e : ℕ × Str). map_err (bad_target_line (e.0 + 1)) (normalize e.1))
      (entries 0 (lines text))

-- username and password
check_credential : Str × Str → Result AuthError (Unit {0})
check_credential (username, password) =
    bail_if (is_empty username) empty_username (bail_if (is_empty password) empty_password (ok tt))

unfoldable pub validate_basic_auth_credential : Str → Result AuthError (Unit {0})
unfolding check_credential
validate_basic_auth_credential credential =
    ok_or (split_once b':' credential) not_user_pass >>= check_credential

-- `==` of two lists of strings
unfoldable pub lists_eq : List Str → List Str → Bool
lists_eq [] [] = true
lists_eq (s ∷ ss) (t ∷ ts) = str_eq s t && lists_eq ss ts
lists_eq _ _ = false

-- A `401` with the Basic challenge, the given Bearer challenge, or both.
unfoldable pub unauthorized_response : Bool → Option Str → Response
unauthorized_response basic bearer =
    let r = response 401 (codes "authentication required") in
    let r' = if basic then edit (appended www_authenticate basic_challenge) r else r in
    elim bearer [ none ↦ r' | some challenge ↦ edit (appended www_authenticate challenge) r' ]

-- The token of a Bearer header.
unfoldable pub bearer_token : Str → Option Str
bearer_token text = split_once b' ' text >>=? λ parts.
    if eq_ignore_ascii_case parts.0 (codes "bearer") && not (is_empty (trim parts.1))
    then some (trim parts.1)
    else none

module _ (c : Crypto) where
  -- `format!("Basic {}", STANDARD.encode(credential))`
  abbrev pub basic_header : Str → Str
  basic_header credential = codes "Basic " ++ c.std_encode (as_bytes credential)

  unfoldable pub encode_credentials : List Str → Result AuthError (List Str)
  unfolding validate_basic_auth_credential
  encode_credentials = collect (λ credential.
      validate_basic_auth_credential credential >>= λ _. ok (basic_header credential))

  unfoldable pub load_auth_file : Option Str → Result AuthError (List Str)
  unfolding encode_credentials
  load_auth_file file = ok_or file unreadable >>= λ text.
      collect
        (λ (e : ℕ × Str).
          map_err (bad_credential_line (e.0 + 1)) (validate_basic_auth_credential e.1) >>= λ _.
          ok e.1)
        (entries 0 (lines text))
      >>= encode_credentials

  -- a username that is not empty
  abbrev nonempty : Str → Option Str
  nonempty username = if is_empty username then none else some username

  unfoldable pub basic_auth_username : Str → Option Str
  basic_auth_username text = strip_prefix (codes "Basic ") text >>=? λ encoded.
      c.std_decode encoded >>=? λ decoded.
      from_utf8 decoded >>=? λ credential. split_once b':' credential >>=? λ parts. nonempty parts.0

  -- Whether the header is one of the expected ones; every one is compared.
  unfoldable pub is_expected : Str → List Str → Bool
  is_expected text =
      foldl (λ matched expected. matched || c.ct_eq (as_bytes text) (as_bytes expected)) false

  abbrev pub is_user : Str → Option Str → Bool
  is_user user none = false
  is_user user (some name) = str_eq name user

  module _ (auth : AuthConfig) where
    unfoldable pub basic_user : Str → Option Str
    unfolding is_expected
    basic_user text =
        if is_expected text auth.expected_authorizations then basic_auth_username text else none

    unfoldable pub has_user : Str → Bool
    has_user user =
        any (λ expected. is_user user (basic_auth_username expected)) auth.expected_authorizations

    abbrev filter_user : Option Str → Option Str
    filter_user none = none
    filter_user (some user) = if has_user user then some user else none

    -- `now` is the wall clock in seconds.
    unfoldable pub verify_access_token : ℕ → Str → Option Str
    unfolding has_user
    verify_access_token now token =
        auth.tokens >>=? λ svc. filter_user (verify_access c svc now token)

    unfoldable pub allows_anonymous_target : Str → Bool
    allows_anonymous_target path = elim (parse_target path) [
      | err e ↦ false
      | ok target ↦ any (λ entry. str_eq entry (addr target)) auth.anonymous_targets
    ]

    -- the user, and whether a Bearer token was presented
    unfoldable pub authenticate : ℕ → Option Str → Option Str × Bool
    unfolding verify_access_token basic_user
    authenticate now none = (none, false)
    authenticate now (some text) = elim (bearer_token text) [
      | some token ↦ (verify_access_token now token, true)
      | none ↦ (basic_user text, false)
    ]

    -- the Bearer challenge of a refusal
    abbrev challenge : Bool → Option Str
    challenge bearer_presented = elim auth.tokens [
      | none ↦ none
      | some svc ↦ some (if bearer_presented then bearer_invalid_challenge else bearer_challenge)
    ]

    unfoldable pub decide : Option Str × Bool → Result Response Str
    decide (some user, presented) = ok user
    decide (none, presented) = err (unauthorized_response true (challenge presented))

    unfoldable pub authorize : ℕ → Request → Result Response Str
    unfolding allows_anonymous_target authenticate decide
    authorize now request =
        if allows_anonymous_target request.path
        then ok anonymous_auth_user
        else decide (authenticate now (header_str request authorization))

    -- What a reload returns: whether the list has changed. After an error it has not.
    unfoldable pub reload_auth_file : Option Str → Result AuthError Bool × AuthConfig
    unfolding load_auth_file
    reload_auth_file file = elim (load_auth_file file) [
      | err e ↦ (err e, auth)
      | ok loaded ↦
          let next = auth.fixed_authorizations ++ loaded in
          if is_empty next
          then (err no_credentials, auth)
          else if lists_eq auth.expected_authorizations next
          then (ok false, auth)
          else (ok true, record auth { expected_authorizations = next })
    ]

    unfoldable pub reload_anonymous_target_file : Option Str → Result AuthError Bool × AuthConfig
    unfolding load_anonymous_target_file
    reload_anonymous_target_file file = elim (load_anonymous_target_file file) [
      | err e ↦ (err e, auth)
      | ok loaded ↦
          let next = auth.fixed_anonymous_targets ++ loaded in
          if lists_eq auth.anonymous_targets next
          then (ok false, auth)
          else (ok true, record auth { anonymous_targets = next })
    ]

  unfoldable pub authorize_request : ℕ → Request → Option AuthConfig → Result Response Str
  unfolding authorize
  authorize_request now request none = ok anonymous_auth_user
  authorize_request now request (some auth) = authorize auth now request
