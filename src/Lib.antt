-- ===== src/Lib.antt =====
-- ws2tcp-router accepts WebSocket connections and forwards each to the TCP or UDP upstream that
-- its request path names, after an authentication with Basic credentials or access tokens. The
-- start, in Main, takes the settings from Args, sets up Logging, builds the authentication, takes a
-- certificate from Tls and binds the sockets of Listener. A connection goes through the parts in
-- the order of Connection: HttpProbe reads the request head and replays it to the handshake;
-- ClientAddr finds the address to report; a plain request is answered by Auth (the health check)
-- or TokenApi, which calls Token; for any other, the callback of the handshake in Proxy asks Auth,
-- which calls Token, and takes the upstream from Target. Server is the running program: all the
-- connections and the reloads of the files, one after the other, on one configuration. The files
-- model these parts of the repository:
--
-- - Target (src/target.rs): `parse_target`, `parse_target_addr`, `parse_host_port`, `Target::addr`;
--   Target/Laws and Target/Paths have the laws.
-- - Token (src/token.rs): the token service. Token has the data, Token/Store the operations on the
--   locked state (`sweep`, `force_sweep`, `revoke_family`, `make_room`), Token/Access the access
--   tokens (`mint_access`, `verify_access`), Token/Service the calls (`login`, `refresh`,
--   `revoke`). Token/Histories is about any sequence of calls, Token/Rotation about refresh tokens,
--   Token/Issuing about what is handed out, Token/Revocation about revoked access tokens.
-- - Auth (src/auth.rs): credentials, allowlist, reloads and `authorize_request`. Auth/Decision is
--   about who is let in, Auth/Credentials about Basic headers, Auth/Anonymous about the allowlist,
--   Auth/Reloading about the reloads, Auth/Users about configured users; Auth/Polling models the
--   tasks that reload, and Auth/Building `build_auth_config` and, of src/token.rs,
--   `TokenService::from_args` and `load_secret`.
-- - TokenApi (src/token_api.rs): `handle_auth_request`. TokenApi/Endpoints is about one endpoint,
--   TokenApi/Answers about the handler.
-- - ClientAddr (src/client_addr.rs): `IpRange`, `TrustedProxies::client_addr`; ClientAddr/Ranges,
--   ClientAddr/Reading and ClientAddr/Selection are about ranges and the forwarded address,
--   ClientAddr/Printing is about `Display`.
-- - HttpProbe (src/http_probe.rs): `read_request_head`, `parse_plain_request`, `ReplayStream`;
--   HttpProbe/Writing has `write_response`.
-- - Args (src/args.rs): `Args::from_cli` and `Args::validate`; Args/Merging is about where a setting
--   comes from, Args/Validation about which are accepted.
-- - Proxy (src/proxy.rs): `capture_requested_target`, the callback of the handshake, and the
--   answer to a plain request; Proxy/Forwarding has the loops `proxy_tcp` and `proxy_udp`, as steps
--   on the events that they take in turn.
-- - Connection (src/proxy.rs): `handle_connection`, `connect_udp`, `request_user_agent`;
--   Connection/Callback is about the callback of the handshake, Connection/Dialling about what goes
--   out to the network, Connection/Served about how a connection ends, Connection/Authorized about
--   who gets an upstream.
-- - Tls (src/tls.rs): `build_tls_config`; Tls/Addresses and Tls/Certificates are about what the
--   certificate is for and where it comes from.
-- - Listener (src/listener.rs): `resolve_bind_addr`, `bind_listener`.
-- - Logging (src/logging.rs): `init_logging`, `open_log_writer`, `format_event`; Logging/Setup and
--   Logging/Lines have the laws.
-- - Main (src/main.rs): `main`, `serve_listener`, `handle_accepted_stream`; Main/Start is about the
--   start, Main/Accepting about the loops.
-- - Server (src/main.rs, src/proxy.rs, src/auth.rs together): the running program, with connections
--   over TCP and over TLS. Server/Connections is about what one connection changes, Server/Calls
--   about the token service, Server/Running about the configuration, Server/Logout about logouts,
--   Server/Removal about users who are removed.
-- - Text, Number, Encoding, HashMap: what the sources use of the standard library's `str`,
--   integers, UTF-8 and `HashMap`.
-- - Crypto: what the sources call of the crates `base64`, `ring` and `subtle`, as a parameter;
--   `IsCrypto` is the documented behaviour that the theorems use, and Crypto/Toy an instance that
--   the runs compute with.
-- - Http: what the sources see of a request, and do to a response.
--
-- Conventions. A `str` is the list of its code points, a byte is a number below 256. An `Instant`
-- and a `Duration` are counts of nanoseconds; that the platform's clock type overflows, which
-- panics, is not modelled. `unix_now() + access_ttl.as_secs()` wraps around in 64 bits, as in a
-- release build. The clocks and the random numbers that an operation reads are an argument of it
-- (`World`); a generator that fails is `none`. The service's state is behind a mutex that each
-- call holds while it reads and writes, so a call is one step, and a history is a list of calls.
-- The two lists of `AuthConfig` behind locks are read or written once by each function. A header
-- map is kept as the edits that are made to it. The functions recurse on their input, but for the
-- loop that reads a head: its fuel is the largest number of bytes, and each round reads one at
-- least.
--
-- The runtime has one thread (`flavor = "current_thread"`), and no function waits while it uses the
-- configuration, so a connection uses it at one instant, and a run of the program is a sequence of
-- connections and reloads (Server). `Connection` takes the whole connection as one function: the
-- head that is read, the answer or the handshake, and the events of the loop that copies frames.
--
-- Parameters of the model: the parsing and printing of `IpAddr` and `SocketAddr` of the standard
-- library, `httparse` and `Request::builder`, the handshake of `tungstenite` (`IsHandshake` is what
-- the theorems use of it), the order of a header map, the network and the sockets, the crates of
-- TLS and of logging, the file system, and what `clap` and `toml` read. The toy instances of the
-- runs are in the modules named Toy.
--
-- Not modelled: the log lines of the other components, the writing side of `ReplayStream`, which
-- passes everything on, the constructors and parsers that only the unit tests use, and
-- cancellation. A write to the TCP upstream that fails may have written a part; a datagram, and a
-- message to the WebSocket, is sent or not. A path is a text.
pub mod Connection
mod Prelude
pub mod Text
pub mod Number
pub mod Target
pub mod HashMap
pub mod Encoding
pub mod Crypto
pub mod Http
pub mod ClientAddr
pub mod Args
pub mod Token
pub mod Auth
pub mod TokenApi
pub mod HttpProbe
pub mod Proxy
pub mod Server
pub mod Listener
pub mod Tls
pub mod Main
pub mod Logging
