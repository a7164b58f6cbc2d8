-- ===== src/Auth/Building.antt =====
-- The start of src/auth.rs and of src/token.rs: `build_auth_config`, `TokenService::from_args`
-- and `load_secret`. What a file holds is given by `read_to_string` and `read`; the bytes that the
-- random number generator gives for a secret are an argument.
pub mod Laws
use mathlib.Core.List.{reverse}
use mathlib.Core.Option
use ws2tcp_router.Prelude.{
  ℕ, ◌+◌, ◌≤◌, ◌<◌, ◌≡◌, ◌≢◌, ◌⊎◌, refl, arith, Bool, true, false, not, ◌&&◌, ◌||◌, Bool-cases,
  Option, none, some, Option-cases, List, [], ◌∷◌, ◌++◌, Result, ok, err, ◌>>=◌, >>=-eq-ok, ok_or,
  bail_if, length, ltb, ltb_iff, ◌==◌, inl, inr, if◌then◌else◌, is_some, All, All-append,
}
use ws2tcp_router.Text.{Str, Bytes, is_empty}
use ws2tcp_router.Crypto.{Crypto}
use ws2tcp_router.Token.{TokenService, min_secret_bytes, from_secs}
use ws2tcp_router.Token.Service.{new}
use ws2tcp_router.Args.{Args, FilePath}
use ws2tcp_router.Auth.{
  AuthConfig, AuthError, no_credentials, unreadable, normalize_anonymous_targets,
  load_anonymous_target_file, encode_credentials, load_auth_file,
}
use ws2tcp_router.Auth.Anonymous.{
  IsNormal, normalize_anonymous_targets-IsNormal, load_anonymous_target_file-IsNormal,
}
use ws2tcp_router.Auth.Reloading.{IsConfig, Reload, reload_all, reload_all-IsConfig}

pub data StartError : Type 0 where
  auth_error : AuthError → StartError
  unreadable_secret : StartError
  short_secret : ℕ → StartError
  random_secret : StartError

-- `u8::is_ascii_whitespace`, and `trim_ascii`
is_ascii_whitespace : ℕ → Bool
is_ascii_whitespace b = b == 0x20 || b == 0x09 || b == 0x0a || b == 0x0c || b == 0x0d

trim_ascii_start : Bytes → Bytes
unfolding is_ascii_whitespace
trim_ascii_start [] = []
trim_ascii_start (b ∷ s) =
    let rest = trim_ascii_start s in if is_ascii_whitespace b then rest else b ∷ s

unfoldable pub trim_ascii : Bytes → Bytes
unfolding trim_ascii_start
trim_ascii s = reverse (trim_ascii_start (reverse (trim_ascii_start s)))

long_enough : Bytes → Result StartError Bytes
long_enough secret =
    bail_if (ltb (length secret) min_secret_bytes) (short_secret (length secret)) (ok secret)

unfoldable pub load_secret : Option Bytes → Result StartError Bytes
unfolding long_enough trim_ascii
load_secret file = ok_or file unreadable_secret >>= λ contents. long_enough (trim_ascii contents)

-- `map_err` into the errors of the start
abbrev lift : {A : Type 0} → Result AuthError A → Result StartError A
lift (ok a) = ok a
lift (err e) = err (auth_error e)

-- `map(load).transpose()?.unwrap_or_default()`
abbrev loaded_or_empty :
    (FilePath → Option Str)
    → (Option Str → Result AuthError (List Str))
    → Option FilePath
    → Result AuthError (List Str)
loaded_or_empty read load none = ok []
loaded_or_empty read load (some path) = load (read path)

module _ (c : Crypto) (read_to_string : FilePath → Option Str)
    (read : FilePath → Option Bytes) where
  abbrev pub secret_of : Args → Option Bytes → Result StartError Bytes
  secret_of args draw = elim args.token_secret_file [
    | some path ↦ load_secret (read path)
    | none ↦ ok_or draw random_secret
  ]

  unfoldable pub from_args : Args → Option Bytes → ℕ → Result StartError TokenService
  unfolding load_secret
  from_args args draw now = secret_of args draw >>= λ secret.
      ok (new secret (from_secs args.access_token_ttl) (from_secs args.refresh_token_ttl) now)

  -- the configuration of the fixed values and those of the files
  abbrev built : Args → List Str → List Str → List Str → List Str → TokenService → AuthConfig
  built args fixed from_file fixed_targets file_targets tokens = record {
    expected_authorizations = fixed ++ from_file;
    fixed_authorizations = fixed;
    basic_auth_file = args.basic_auth_file;
    anonymous_targets = fixed_targets ++ file_targets;
    fixed_anonymous_targets = fixed_targets;
    anonymous_target_file = args.anonymous_target_file;
    tokens = some tokens;
  }

  unfoldable pub build_auth_config : Args → Option Bytes → ℕ → Result StartError (Option AuthConfig)
  unfolding from_args
  build_auth_config args draw now =
      if not (not (is_empty args.basic_auth) || is_some args.basic_auth_file)
      then ok none
      else lift (encode_credentials c args.basic_auth) >>= λ fixed.
          lift (loaded_or_empty read_to_string (load_auth_file c) args.basic_auth_file)
          >>= λ from_file. bail_if (is_empty (fixed ++ from_file)) (auth_error no_credentials) (
              lift (normalize_anonymous_targets args.anonymous_target) >>= λ fixed_targets.
              lift (
                loaded_or_empty read_to_string load_anonymous_target_file
                  args.anonymous_target_file)
              >>= λ file_targets. from_args args draw now >>= λ tokens.
                  ok (some (built args fixed from_file fixed_targets file_targets tokens)))
