-- ===== src/Args.antt =====
-- src/args.rs: the settings that the program runs with, from the command line (the crate `clap`)
-- and the configuration file (the crate `toml`), and their validation. What the two crates read is
-- an argument: the records CliArgs and ConfigArgs. A path is its text; what the file system holds
-- under a path is a parameter of the functions that read files.
pub mod Merging
pub mod Validation
pub mod Toy
mod Tests
use ws2tcp_router.Prelude.{
  ℕ, zero, ◌*◌, Bool, true, false, not, ◌&&◌, ◌||◌, Option, none, some, List, [], ◌∷◌, Result, ok,
  err, ◌>>=◌, context, bail_if, unwrap_or, or_else, is_some, ◌==◌, if◌then◌else◌,
}
use ws2tcp_router.Text.{Str, Bytes, codes, is_empty}
use ws2tcp_router.Target.{parse_target_addr}
use ws2tcp_router.ClientAddr.{IpRange, v4, v6}

-- `WsOnly` is the default.
pub data ServiceMode : Type 0 where
  ws_only wss_only both : ServiceMode

abbrev pub includes_ws : ServiceMode → Bool
includes_ws ws_only = true
includes_ws wss_only = false
includes_ws both = true

abbrev pub includes_wss : ServiceMode → Bool
includes_wss ws_only = false
includes_wss wss_only = true
includes_wss both = true

abbrev pub is_both : ServiceMode → Bool
is_both both = true
is_both _ = false

abbrev pub FilePath : Type 0
FilePath = Str

pub record Args : Type 0 where
  pub bind : Str
  pub service_mode : ServiceMode
  pub port : ℕ
  pub tls_port : ℕ
  pub ipv6_only : Bool
  pub buffer_size : ℕ
  pub udp_idle_timeout : ℕ
  pub basic_auth : List Str
  pub basic_auth_file : Option FilePath
  pub anonymous_target : List Str
  pub anonymous_target_file : Option FilePath
  pub trusted_proxy : List IpRange
  pub token_secret_file : Option FilePath
  pub access_token_ttl : ℕ
  pub refresh_token_ttl : ℕ
  pub tls_cert : Option FilePath
  pub tls_key : Option FilePath
  pub auto_self_signed_cert : Bool
  pub log_file : Option FilePath
  pub log_level : Option Str

pub record CliArgs : Type 0 where
  pub config : Option FilePath
  pub bind : Option Str
  pub service_mode : Option ServiceMode
  pub port : Option ℕ
  pub tls_port : Option ℕ
  pub ipv6_only : Bool
  pub no_ipv6_only : Bool
  pub buffer_size : Option ℕ
  pub udp_idle_timeout : Option ℕ
  pub basic_auth : List Str
  pub basic_auth_file : Option FilePath
  pub anonymous_target : List Str
  pub anonymous_target_file : Option FilePath
  pub trusted_proxy : List IpRange
  pub token_secret_file : Option FilePath
  pub access_token_ttl : Option ℕ
  pub refresh_token_ttl : Option ℕ
  pub tls_cert : Option FilePath
  pub tls_key : Option FilePath
  pub auto_self_signed_cert : Bool
  pub no_auto_self_signed_cert : Bool
  pub log_file : Option FilePath
  pub log_level : Option Str

pub record ConfigArgs : Type 0 where
  pub bind : Option Str
  pub service_mode : Option ServiceMode
  pub port : Option ℕ
  pub tls_port : Option ℕ
  pub ipv6_only : Option Bool
  pub buffer_size : Option ℕ
  pub udp_idle_timeout : Option ℕ
  pub basic_auth : Option (List Str)
  pub basic_auth_file : Option FilePath
  pub anonymous_target : Option (List Str)
  pub anonymous_target_file : Option FilePath
  pub trusted_proxy : Option (List IpRange)
  pub token_secret_file : Option FilePath
  pub access_token_ttl : Option ℕ
  pub refresh_token_ttl : Option ℕ
  pub tls_cert : Option FilePath
  pub tls_key : Option FilePath
  pub auto_self_signed_cert : Option Bool
  pub log_file : Option FilePath
  pub log_level : Option Str

-- The messages of `bail!`; of `with_context`, the context.
pub data ArgsError : Type 0 where
  bad_config zero_buffer_size zero_udp_idle_timeout zero_access_token_ttl zero_refresh_token_ttl :
      ArgsError
  bad_anonymous_target : Str → ArgsError
  half_of_tls_files two_certificates no_certificate same_ports : ArgsError

-- `!= ` of two Booleans
abbrev differs : Bool → Bool → Bool
differs true b = not b
differs false b = b

-- `IpRange::loopback`: what reading "127.0.0.0/8" and "::1/128" gives.
abbrev pub loopback : List IpRange
loopback = record { addr = v4 0x7f000000; prefix = 8 } ∷ record { addr = v6 1; prefix = 128 } ∷ []

abbrev pub has_tls_config : Args → Bool
has_tls_config a = a.auto_self_signed_cert || (is_some a.tls_cert && is_some a.tls_key)

-- the loop over the anonymous targets, then the rest
abbrev check_targets : List Str → Result ArgsError (Unit {0}) → Result ArgsError (Unit {0})
check_targets [] rest = rest
check_targets (target ∷ targets) rest =
    context (parse_target_addr target) (bad_anonymous_target target) >>= λ _.
    check_targets targets rest

unfoldable pub validate : Args → Result ArgsError (Unit {0})
validate a = bail_if (a.buffer_size == 0) zero_buffer_size (
    bail_if (a.udp_idle_timeout == 0) zero_udp_idle_timeout (
      check_targets a.anonymous_target (
        bail_if (a.access_token_ttl == 0) zero_access_token_ttl (
          bail_if (a.refresh_token_ttl == 0) zero_refresh_token_ttl (
            bail_if (differs (is_some a.tls_cert) (is_some a.tls_key)) half_of_tls_files (
              bail_if (a.auto_self_signed_cert && is_some a.tls_cert) two_certificates (
                bail_if (includes_wss a.service_mode && not (has_tls_config a)) no_certificate (
                  bail_if (is_both a.service_mode && a.port == a.tls_port) same_ports
                    (ok tt)))))))))

-- certificate, key, and whether a certificate is generated
unfoldable pub tls_settings : CliArgs → ConfigArgs → Option FilePath × Option FilePath × Bool
tls_settings cli config =
    if cli.auto_self_signed_cert
    then (none, none, true)
    else if cli.no_auto_self_signed_cert || (is_some cli.tls_cert || is_some cli.tls_key)
    then (or_else cli.tls_cert config.tls_cert, or_else cli.tls_key config.tls_key, false)
    else (config.tls_cert, config.tls_key, unwrap_or config.auto_self_signed_cert false)

-- the command line's value, else the file's, else the default
abbrev pub setting {ℓ} : {A : Type ℓ} → Option A → Option A → A → A
setting cli config default = unwrap_or (or_else cli config) default

-- a list of the command line, unless it is empty
abbrev pub list_setting {ℓ} : {A : Type ℓ} → List A → Option (List A) → List A → List A
list_setting cli config default = if is_empty cli then unwrap_or config default else cli

abbrev pub merge_ipv6_only : CliArgs → ConfigArgs → Bool
merge_ipv6_only cli config =
    if cli.ipv6_only
    then true
    else if cli.no_ipv6_only
    then false
    else unwrap_or config.ipv6_only false

unfoldable pub merge : CliArgs → ConfigArgs → Args
unfolding tls_settings
merge cli config = record {
  bind = setting cli.bind config.bind (codes "::");
  service_mode = setting cli.service_mode config.service_mode ws_only;
  port = setting cli.port config.port 80;
  tls_port = setting cli.tls_port config.tls_port 443;
  ipv6_only = merge_ipv6_only cli config;
  buffer_size = setting cli.buffer_size config.buffer_size (16 * 1024);
  udp_idle_timeout = setting cli.udp_idle_timeout config.udp_idle_timeout 60;
  basic_auth = list_setting cli.basic_auth config.basic_auth [];
  basic_auth_file = or_else cli.basic_auth_file config.basic_auth_file;
  anonymous_target = list_setting cli.anonymous_target config.anonymous_target [];
  anonymous_target_file = or_else cli.anonymous_target_file config.anonymous_target_file;
  trusted_proxy = list_setting cli.trusted_proxy config.trusted_proxy loopback;
  token_secret_file = or_else cli.token_secret_file config.token_secret_file;
  access_token_ttl = setting cli.access_token_ttl config.access_token_ttl (10 * 60);
  refresh_token_ttl = setting cli.refresh_token_ttl config.refresh_token_ttl (7 * 24 * 60 * 60);
  tls_cert = (tls_settings cli config).0;
  tls_key = (tls_settings cli config).1;
  auto_self_signed_cert = (tls_settings cli config).2;
  log_file = or_else cli.log_file config.log_file;
  log_level = or_else cli.log_level config.log_level;
}

-- `ConfigArgs::default`
abbrev pub no_config : ConfigArgs
no_config = record {
  bind = none;
  service_mode = none;
  port = none;
  tls_port = none;
  ipv6_only = none;
  buffer_size = none;
  udp_idle_timeout = none;
  basic_auth = none;
  basic_auth_file = none;
  anonymous_target = none;
  anonymous_target_file = none;
  trusted_proxy = none;
  token_secret_file = none;
  access_token_ttl = none;
  refresh_token_ttl = none;
  tls_cert = none;
  tls_key = none;
  auto_self_signed_cert = none;
  log_file = none;
  log_level = none;
}

abbrev config_of :
    (FilePath → Result ArgsError ConfigArgs) → Option FilePath → Result ArgsError ConfigArgs
config_of read none = ok no_config
config_of read (some path) = read path

-- `from_cli`, where `read` is `ConfigArgs::read`
unfoldable pub from_cli : (FilePath → Result ArgsError ConfigArgs) → CliArgs → Result ArgsError Args
unfolding merge validate
from_cli read cli = config_of read cli.config >>= λ config.
    let args = merge cli config in validate args >>= λ _. ok args
