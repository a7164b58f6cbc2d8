-- ===== src/Auth/Toy.antt =====
-- A concrete configuration over the `toy` crypto, its settings and its files, which the runs
-- compute with.
use ws2tcp_router.Prelude.{◌≡◌, refl, false, Option, none, some, [], ◌∷◌, ◌++◌, ok, str_eq}
use ws2tcp_router.Text.{
  Str, Bytes, codes, strip_prefix, split_once, rsplit_once, trim, lines, contains,
}
use ws2tcp_router.Number.{parse_uint, show_uint}
use ws2tcp_router.Encoding.{as_bytes, from_utf8}
use ws2tcp_router.Http.{Request, HeaderName, HeaderValue, authorization, get}
use ws2tcp_router.Target.{addr, parse_target_addr, parse_host_port}
use ws2tcp_router.Crypto.Toy.{toy, hex}
use ws2tcp_router.Token.{TokenService, from_secs}
use ws2tcp_router.Token.Service.{new}
use ws2tcp_router.Args.{Args, FilePath, ws_only}
use ws2tcp_router.Auth.{
  AuthConfig, basic_header, validate_basic_auth_credential, encode_credentials, load_auth_file,
  entries, lists_eq, normalize_anonymous_targets, load_anonymous_target_file,
}
use ws2tcp_router.Auth.Building.{build_auth_config, from_args, load_secret, trim_ascii}

abbrev pub credential : Str
credential = codes "al:pw"

abbrev pub secret : Bytes
secret = codes "0123456789abcdef0123456789abcdef"

abbrev pub service : TokenService
service = new secret (from_secs 600) (from_secs 3600) 0

abbrev pub auth : AuthConfig
auth = record {
  expected_authorizations = basic_header toy credential ∷ [];
  fixed_authorizations = [];
  basic_auth_file = some (codes "users");
  anonymous_targets = codes "dns:53" ∷ [];
  fixed_anonymous_targets = codes "dns:53" ∷ [];
  anonymous_target_file = none;
  tokens = some service;
}

abbrev pub header_of : Str → HeaderName → Option HeaderValue
header_of text authorization = some (record { as_bytes = text; to_str = some text })
header_of text _ = none

abbrev pub asking : Str → Str → Request
asking path text = record { method = get; path = path; header = header_of text }

abbrev pub args : Args
args = record {
  bind = codes "::";
  service_mode = ws_only;
  port = 80;
  tls_port = 443;
  ipv6_only = false;
  buffer_size = 16384;
  udp_idle_timeout = 60;
  basic_auth = [];
  basic_auth_file = some (codes "users");
  anonymous_target = codes "dns:053" ∷ [];
  anonymous_target_file = none;
  trusted_proxy = [];
  token_secret_file = some (codes "key");
  access_token_ttl = 600;
  refresh_token_ttl = 3600;
  tls_cert = none;
  tls_key = none;
  auto_self_signed_cert = false;
  log_file = none;
  log_level = none;
}

abbrev pub texts : FilePath → Option Str
texts path = some credential

abbrev pub keys : FilePath → Option Bytes
keys path = some (0x0a ∷ secret ++ 0x0a ∷ [])

pub build_run : build_auth_config toy texts keys args none 0 ≡ ok (some auth)
unfolding str_eq as_bytes from_utf8 strip_prefix split_once rsplit_once trim lines contains
    parse_uint show_uint addr parse_target_addr parse_host_port hex new
    validate_basic_auth_credential encode_credentials load_auth_file entries lists_eq
    build_auth_config from_args load_secret trim_ascii normalize_anonymous_targets
    load_anonymous_target_file
build_run = refl
