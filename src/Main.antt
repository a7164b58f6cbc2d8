-- ===== src/Main.antt =====
-- src/main.rs: the start of the program (`main`), its loops that accept connections
-- (`serve_listener`), and what becomes of an accepted stream (`handle_accepted_stream`). Where the
-- program waits for ever, `main` returns what it has started.
pub mod Start
pub mod Accepting
mod Tests
use ws2tcp_router.Prelude.{
  ℕ, ◌*◌, Bool, true, false, not, Option, none, some, List, [], ◌∷◌, ◌++◌, Result, ok, err, ◌>>=◌,
  bail_if, if◌then◌else◌,
}
use ws2tcp_router.Text.{Str, Bytes, codes}
use ws2tcp_router.Crypto.{Crypto}
use ws2tcp_router.Token.{World, from_secs}
use ws2tcp_router.ClientAddr.{SocketAddr, TrustedProxies}
use ws2tcp_router.Args.{
  Args, CliArgs, ConfigArgs, ArgsError, FilePath, includes_ws, includes_wss, from_cli,
}
use ws2tcp_router.Auth.{AuthConfig}
use ws2tcp_router.Auth.Building.{StartError, build_auth_config}
use ws2tcp_router.Auth.Polling.{Reloader, spawn_auth_file_reloader}
use ws2tcp_router.Logging.{LogHost, LogError, Subscriber, init_logging}
use ws2tcp_router.Tls.{TlsCrates, TlsError, build_tls_config}
use ws2tcp_router.Listener.{Sockets, TcpListener, ListenError, resolve_bind_addr, bind_listener}
use ws2tcp_router.Connection.{Platform, Connection, handle_connection}

-- How `main` fails: by an error, or by the panic of `expect`.
pub data MainError : Type 0 where
  bad_args : ArgsError → MainError
  bad_logging : LogError → MainError
  bad_auth : StartError → MainError
  bad_tls : TlsError → MainError
  bad_listener : ListenError → MainError
  panicked : MainError

-- `?` on the error of a part
abbrev pub raise : {E A : Type 0} → (E → MainError) → Result E A → Result MainError A
raise f (ok a) = ok a
raise f (err e) = err (f e)

-- The arguments of a spawned `serve_listener`, and what was started.
pub record Service (C : Type 0) : Type 0 where
  pub scheme : Str
  pub listener : TcpListener
  pub buffer_size : ℕ
  pub udp_idle_timeout : ℕ
  pub auth : Option AuthConfig
  pub tls_config : Option C
  pub trusted_proxies : TrustedProxies

pub record Started (C F : Type 0) : Type 0 where
  pub logs : Subscriber F
  pub reloaders : List (Reloader × Str)
  pub services : List (Service C)

-- What the start takes from elsewhere: `toml`, the file system, the crates of logging, the sockets,
-- the crates of TLS, and what the random number generator and the clock give.
pub record Host (C F : Type 0) : Type 0 where
  pub read_config : FilePath → Result ArgsError ConfigArgs
  pub read_to_string : FilePath → Option Str
  pub read : FilePath → Option Bytes
  pub logs : LogHost F
  pub sockets : Sockets
  pub tls : TlsCrates C
  pub secret_draw : Option Bytes
  pub now : ℕ

abbrev pub reloaders_of : Option AuthConfig → List (Reloader × Str)
reloaders_of none = []
reloaders_of (some auth) = spawn_auth_file_reloader auth

module _ (c : Crypto) {C F : Type 0} (h : Host C F) (args : Args) where
  abbrev pub tls_of : Result MainError (Option C)
  tls_of =
      if includes_wss args.service_mode
      then raise bad_tls (build_tls_config h.tls args)
      else ok none

  -- the bound listener of a port
  abbrev pub listen_on : ℕ → Result MainError TcpListener
  listen_on port = raise bad_listener (resolve_bind_addr h.sockets args.bind port) >>= λ bind_addr.
      raise bad_listener (bind_listener h.sockets bind_addr args.ipv6_only)

  abbrev pub service : Str → TcpListener → Option AuthConfig → Option C → Service C
  service scheme listener auth tls = record {
    scheme = scheme;
    listener = listener;
    buffer_size = args.buffer_size;
    udp_idle_timeout = from_secs args.udp_idle_timeout;
    auth = auth;
    tls_config = tls;
    trusted_proxies = record { ranges = args.trusted_proxy };
  }

  abbrev pub start_ws : Option AuthConfig → Result MainError (List (Service C))
  start_ws auth =
      if includes_ws args.service_mode
      then (listen_on args.port >>= λ listener. ok (service (codes "ws") listener auth none ∷ []))
      else ok []

  -- `expect`
  abbrev pub expected : Option C → Result MainError C
  expected none = err panicked
  expected (some config) = ok config

  abbrev pub start_wss : Option AuthConfig → Option C → Result MainError (List (Service C))
  start_wss auth tls =
      if includes_wss args.service_mode
      then (listen_on args.tls_port >>= λ listener.
          expected tls >>= λ config. ok (service (codes "wss") listener auth (some config) ∷ []))
      else ok []

  -- `main`, behind the settings
  unfoldable pub start : Result MainError (Started C F)
  start = raise bad_logging (init_logging h.logs args) >>= λ logs.
      raise bad_auth (build_auth_config c h.read_to_string h.read args h.secret_draw h.now)
      >>= λ auth. tls_of >>= λ tls. start_ws auth >>= λ ws. start_wss auth tls >>= λ wss.
          ok (record { logs = logs; reloaders = reloaders_of auth; services = ws ++ wss })

unfoldable pub main : Crypto → {C F : Type 0} → Host C F → CliArgs → Result MainError (Started C F)
unfolding start
main c h cli = raise bad_args (from_cli h.read_config cli) >>= λ args. start c h args

-- What `accept` gives.
pub data Accept (T : Type 0) : Type 0 where
  accepts : T → SocketAddr → Accept T
  accept_failed : Accept T

-- The loop over what `accept` gives: the streams that are handed to tasks of their own, and
-- whether the loop has ended, which it does with the error.
unfoldable pub serve_listener : {T : Type 0} → List (Accept T) → List (T × SocketAddr) × Bool
serve_listener [] = ([], false)
serve_listener (accept_failed ∷ rest) = ([], true)
serve_listener (accepts stream peer ∷ rest) =
    let (spawned, ended) = serve_listener rest in ((stream, peer) ∷ spawned, ended)

-- The streams of the listeners: the handshake of TLS, which gives the stream over it unless it
-- fails, and what connections take from elsewhere, over a stream of TCP and over one of TLS.
pub record Streams (C T S : Type 0) : Type 0 where
  pub tls_accept : C → T → Option S
  pub plain : Platform T
  pub over_tls : Platform S

abbrev pub with_connection :
    Option (Connection × Option AuthConfig) → Option (Option Connection × Option AuthConfig)
with_connection none = none
with_connection (some (connection, config)) = some (some connection, config)

-- `none` for the connection is that the handshake of TLS fails.
module _ (c : Crypto) {C T S : Type 0} (x : Streams C T S) where
  unfoldable pub handle_accepted_stream :
      Option C
      → T
      → SocketAddr
      → TrustedProxies
      → World
      → Option AuthConfig
      → Option (Option Connection × Option AuthConfig)
  handle_accepted_stream none stream peer proxies w config =
      with_connection (handle_connection c (x.plain) stream peer proxies w config)
  handle_accepted_stream (some tls) stream peer proxies w config = elim (x.tls_accept tls stream) [
    | none ↦ some (none, config)
    | some s ↦ with_connection (handle_connection c (x.over_tls) s peer proxies w config)
  ]
