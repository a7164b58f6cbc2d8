-- ===== src/Main/Tests.antt =====
-- Runs of the start and of the loops of src/main.rs, and the theorems there.
use ws2tcp_router.Prelude.{
  ◌≡◌, refl, Bool, true, Option, none, some, List, [], ◌∷◌, ok, err, Result, str_eq,
}
use ws2tcp_router.Text.{Str, Bytes, codes, contains, strip_prefix, rsplit_once}
use ws2tcp_router.Number.{parse_uint}
use ws2tcp_router.Target.{parse_target_addr, parse_host_port}
use ws2tcp_router.Crypto.Toy.{toy}
use ws2tcp_router.ClientAddr.{v4, v6, SocketAddr}
use ws2tcp_router.Args.{CliArgs, merge, validate, tls_settings, from_cli, both}
use ws2tcp_router.Args.Toy.{cli, read}
use ws2tcp_router.Auth.Building.{build_auth_config}
use ws2tcp_router.Logging.{init_logging}
use ws2tcp_router.Logging.Toy.{logs}
use ws2tcp_router.Tls.{load_certs, load_private_key, build_tls_config}
use ws2tcp_router.Tls.Toy.{crates}
use ws2tcp_router.Listener.{
  Sockets, ipv6_only_of_ipv4, no_address, resolve_bind_addr, bind_listener,
}
use ws2tcp_router.Connection.Toy.{peer}
use ws2tcp_router.Main.{
  MainError, Service, Started, Host, bad_listener, start, main, Accept, accepts, accept_failed,
  serve_listener,
}
use ws2tcp_router.Main.Start.{Good, IsMain, main-IsMain}

abbrev sockets : Sockets
sockets = record {
  to_socket_addrs = λ host port. some (record { ip = v6 0; port = port } ∷ []);
  bind_tcp = λ a. true;
  new_ipv6 = true;
  set_only_v6 = λ b. true;
  bind = λ a. true;
  listen = λ n. true;
  set_nonblocking = λ b. true;
  from_std = true;
}

abbrev host : Host Bytes Str
host = record {
  read_config = read;
  read_to_string = λ path. none;
  read = λ path. none;
  logs = logs;
  sockets = sockets;
  tls = crates;
  secret_draw = none;
  now = 0;
}

abbrev serving_both : CliArgs
serving_both = record cli { service_mode = some both; ipv6_only = true }

running : Unit {0}
unfolding str_eq validate tls_settings merge from_cli parse_target_addr parse_host_port parse_uint
    contains strip_prefix rsplit_once build_auth_config init_logging load_certs load_private_key
    build_tls_config resolve_bind_addr bind_listener start main
running = tt

-- Both services, at the default ports.
listeners : Result MainError (Started Bytes Str) → List (SocketAddr × Option Bool × Option Bytes)
listeners (err e) = []
listeners (ok s) = of_services s.services
  where
    of_services : List (Service Bytes) → List (SocketAddr × Option Bool × Option Bytes)
    of_services [] = []
    of_services (s ∷ rest) = (s.listener.addr, s.listener.only_v6, s.tls_config) ∷ of_services rest

both_run :
    listeners (main toy host serving_both)
    ≡ (record { ip = v6 0; port = 80 }, some true, none)
      ∷ (record { ip = v6 0; port = 443 }, some true, some (codes "key"))
      ∷ []
unfolding running listeners
both_run = refl

ipv4_run :
    (main toy
        (record host {
          sockets = record sockets {
            to_socket_addrs = λ h p. some (record { ip = v4 0; port = p } ∷ []);
          };
        })
        serving_both
      ≡ err (bad_listener ipv6_only_of_ipv4))
    × (main toy
          (record host { sockets = record sockets { to_socket_addrs = λ h p. some [] } })
          serving_both
        ≡ err (bad_listener no_address))
unfolding running
ipv4_run = (refl, refl)

main-IsMain_example : Good (IsMain toy host serving_both) (main toy host serving_both)
main-IsMain_example = main-IsMain toy host serving_both

abbrev accepting : List (Accept Bytes)
accepting = accepts (codes "a") peer ∷ accept_failed ∷ accepts (codes "b") peer ∷ []

-- The stream behind the failure is not served.
accepting_run : serve_listener accepting ≡ ((codes "a", peer) ∷ [], true)
unfolding serve_listener
accepting_run = refl
