-- ===== src/Args/Toy.antt =====
-- A concrete command line and configuration file, which the runs compute with.
use ws2tcp_router.Prelude.{true, false, none, some, [], ◌∷◌, ok, Result}
use ws2tcp_router.Text.{codes}
use ws2tcp_router.Args.{CliArgs, ConfigArgs, ArgsError, no_config, wss_only, FilePath}

abbrev pub cli : CliArgs
cli = record {
  config = some (codes "c.toml");
  bind = none;
  service_mode = some wss_only;
  port = none;
  tls_port = none;
  ipv6_only = false;
  no_ipv6_only = false;
  buffer_size = none;
  udp_idle_timeout = none;
  basic_auth = [];
  basic_auth_file = none;
  anonymous_target = codes "dns:53" ∷ [];
  anonymous_target_file = none;
  trusted_proxy = [];
  token_secret_file = none;
  access_token_ttl = none;
  refresh_token_ttl = none;
  tls_cert = some (codes "cert");
  tls_key = some (codes "key");
  auto_self_signed_cert = false;
  no_auto_self_signed_cert = false;
  log_file = none;
  log_level = none;
}

-- The file asks for a generated certificate, which the command line's files override.
abbrev pub config : ConfigArgs
config = record no_config { auto_self_signed_cert = some true }

abbrev pub read : FilePath → Result ArgsError ConfigArgs
read path = ok config
