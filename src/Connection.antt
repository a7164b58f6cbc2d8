-- ===== src/Connection.antt =====
-- src/proxy.rs: one connection, from its request head to its end (`handle_connection`,
-- `connect_udp`, `request_user_agent`). What the program takes from elsewhere is the record
-- Platform: the stream, the crates' parsers and handshake, the network, and the events of the
-- loops that copy frames.
pub mod Callback
pub mod Dialling
pub mod Served
pub mod Authorized
pub mod Toy
mod Tests
use ws2tcp_router.Prelude.{
  ℕ, Bool, true, false, not, Option, none, some, List, [], ◌∷◌, ◌++◌, Result, ok, err, ◌>>=◌, ok_or,
  bail_if, unwrap_or, if◌then◌else◌,
}
use ws2tcp_router.Prelude.Maybe.{◌>>=◌ as ◌>>=?◌}
use ws2tcp_router.Text.{Str, Bytes, codes}
use ws2tcp_router.Http.{Request, Response, header_str, user_agent}
use ws2tcp_router.Target.{Target, tcp, udp, addr}
use ws2tcp_router.Crypto.{Crypto}
use ws2tcp_router.Token.{World}
use ws2tcp_router.ClientAddr.{SocketAddr, is_ipv4, Parsers, TrustedProxies, ClientAddr, client_addr}
use ws2tcp_router.Auth.{AuthConfig, authorize_request}
use ws2tcp_router.HttpProbe.{
  Read, read_request_head, ReplayStream, replay, HeadParser, parse_plain_request,
}
use ws2tcp_router.Proxy.{
  Route, health_check, proxy, capture_requested_target, answer_plain, include_body,
}
use ws2tcp_router.Proxy.Forwarding.{
  Write, Event, Outcome, Written, Step, step_tcp, step_udp, forward,
}

-- What `TcpStream::connect`, `lookup_host`, `UdpSocket::bind` and `UdpSocket::connect` do: whether
-- they work, and the addresses of a name.
pub record Network : Type 0 where
  pub connect_tcp : Str → Bool
  pub lookup_host : Str → Option (List SocketAddr)
  pub bind_udp : Str → Bool
  pub connect : Str → SocketAddr → Bool

pub data UpstreamError : Type 0 where
  not_connected not_resolved no_address not_bound : UpstreamError

-- A socket by the address that it is bound to and the one that it is connected to.
pub record UdpSocket : Type 0 where
  pub local_bind : Str
  pub remote : SocketAddr

-- What goes out to the network: `TcpStream::connect`, `lookup_host`, and `connect` of a socket.
pub data Dial : Type 0 where
  connects_tcp looks_up : Str → Dial
  connects_udp : SocketAddr → Dial

abbrev pub connect_tcp : Network → Str → List Dial × Result UpstreamError (Unit {0})
connect_tcp net target_addr = (
  connects_tcp target_addr ∷ [],
  if net.connect_tcp target_addr then ok tt else err not_connected,
)

abbrev pub local_bind_of : SocketAddr → Str
local_bind_of a = if is_ipv4 a.ip then codes "0.0.0.0:0" else codes "[::]:0"

-- `addrs.next()`, and a socket that is connected to it
abbrev pub connect_first : Network → List SocketAddr → List Dial × Result UpstreamError UdpSocket
connect_first net [] = ([], err no_address)
connect_first net (a ∷ addrs) =
    let local = local_bind_of a in
    if net.bind_udp local
    then (
      connects_udp a ∷ [],
      if net.connect local a
          then ok (record { local_bind = local; remote = a })
          else err not_connected,
    )
    else ([], err not_bound)

abbrev pub resolved :
    Network → Option (List SocketAddr) → List Dial × Result UpstreamError UdpSocket
resolved net none = ([], err not_resolved)
resolved net (some addrs) = connect_first net addrs

unfoldable pub connect_udp : Network → Str → List Dial × Result UpstreamError UdpSocket
connect_udp net target_addr =
    let (dials, socket) = resolved net (net.lookup_host target_addr) in
    (looks_up target_addr ∷ dials, socket)

unfoldable pub request_user_agent : Request → Str
request_user_agent r = unwrap_or (header_str r user_agent) (codes "-")

-- The three slots that the callback of the handshake fills.
pub record Slots : Type 0 where
  pub user_agent : Option Str
  pub auth_user : Option Str
  pub target : Option Route

abbrev pub no_slots : Slots
no_slots = record { user_agent = none; auth_user = none; target = none }

-- The callback's result, with what it leaves in the slots.
abbrev pub Answered : Type 0
Answered = Result Response (Unit {0}) × Slots

abbrev captured : Slots → Result Response Route → Answered
captured slots (ok route) = (ok tt, record slots { target = some route })
captured slots (err answer) = (err answer, slots)

abbrev authorized : Request → Slots → Result Response Str → Answered
authorized r slots (ok user) =
    captured (record slots { auth_user = some user }) (capture_requested_target r)
authorized r slots (err answer) = (err answer, slots)

unfoldable pub callback : Crypto → ℕ → Option AuthConfig → Request → Slots → Answered
unfolding request_user_agent
callback c now config r slots =
    authorized r (record slots { user_agent = some (request_user_agent r) })
      (authorize_request c now r config)

-- How `accept_hdr_async` ends: with what the callback left in the slots, with the answer that the
-- callback refused the connection with, or with another error.
pub data HandshakeEnd : Type 0 where
  accepted : Slots → HandshakeEnd
  refused : Response → HandshakeEnd
  failed : HandshakeEnd

pub record Platform (S : Type 0) : Type 0 where
  pub version : Str
  pub parsers : Parsers
  pub head_parser : HeadParser
  pub network : Network
  pub read : Read S
  pub accept_hdr : ReplayStream S → (Request → Slots → Answered) → Slots → HandshakeEnd
  pub events : Target → List (Write × Event)

-- `HEALTH_CHECK_MESSAGE`, of the package's version
abbrev pub health_check_message : Str → Str
health_check_message version =
    codes "ok: ws2tcp-router "
    ++ version
    ++ codes " is available; health check only, no upstream connected"

abbrev pub health_check_close_reason : Str
health_check_close_reason = codes "health check"

-- Whom a WebSocket belongs to.
pub record Session : Type 0 where
  pub auth_user : Str
  pub user_agent : Str

-- How a connection ends: the head cannot be read; a plain request is answered, with the body or
-- without; the handshake fails, with the callback's answer if that is why; a slot is empty; the
-- WebSocket gets a message and the reason why it is closed; the upstream cannot be reached; or
-- the loop that copies frames ends. The last two have what went out to connect to the upstream.
pub data Ending : Type 0 where
  unreadable : Ending
  answered : Response → Bool → Ending
  handshake_failed : Option Response → Ending
  not_captured : Ending
  greeted : Session → Str → Str → Ending
  unreachable : Session → Target → List Dial → UpstreamError → Ending
  forwarded : Session → Target → List Dial → Outcome × Written → Ending

-- An ended connection, with the address that it is reported under once its head is read.
pub record Connection : Type 0 where
  pub peer_addr : Option ClientAddr
  pub ending : Ending

abbrev pub nothing_written : Written
nothing_written = record { upstream = []; websocket = []; shut = false }

module _ (c : Crypto) {S : Type 0} (x : Platform S) where
  -- the loop, if the upstream is connected
  abbrev pub serve_upstream :
      {A : Type 0} → Session → Target → Step → List Dial × Result UpstreamError A → Ending
  serve_upstream user t step (dials, err e) = unreachable user t dials e
  serve_upstream user t step (dials, ok socket) =
      forwarded user t dials (forward step (x.events t) nothing_written)

  -- the match on the protocol
  unfoldable pub serve_target : Session → Target → Ending
  unfolding connect_udp
  serve_target user t = elim t.protocol [
    | tcp ↦ serve_upstream user t step_tcp (connect_tcp x.network (addr t))
    | udp ↦ serve_upstream user t step_udp (connect_udp x.network (addr t))
  ]

  abbrev pub serve_route : Session → Route → Ending
  serve_route user health_check =
      greeted user (health_check_message x.version) health_check_close_reason
  serve_route user (proxy t) = serve_target user t

  -- what is taken from the slots
  abbrev pub serve_slots : Option Route → Option Str → Option Str → Ending
  serve_slots (some route) (some user) (some agent) =
      serve_route (record { auth_user = user; user_agent = agent }) route
  serve_slots _ _ _ = not_captured

  abbrev pub serve_handshake : HandshakeEnd → Ending
  serve_handshake (accepted slots) = serve_slots slots.target slots.auth_user slots.user_agent
  serve_handshake (refused answer) = handshake_failed (some answer)
  serve_handshake failed = handshake_failed none

  -- a plain request, or the handshake
  abbrev pub serve_request :
      Option Request → World → Option AuthConfig → ReplayStream S → Ending × Option AuthConfig
  serve_request (some r) w config stream =
      let (answer, config') = answer_plain c (health_check_message x.version) w r config in
      (answered answer (include_body r.method), config')
  serve_request none w config stream =
      (serve_handshake (x.accept_hdr stream (callback c w.unix_now config) no_slots), config)

  -- what comes after the head
  abbrev pub serve_head :
      TrustedProxies
      → SocketAddr
      → World
      → Option AuthConfig
      → Option Bytes × S
      → Connection × Option AuthConfig
  serve_head proxies peer w config (none, s) =
      (record { peer_addr = none; ending = unreadable }, config)
  serve_head proxies peer w config (some head, s) =
      let (ending, config') =
        serve_request (parse_plain_request x.head_parser head) w config (replay head s) in
      (
        record { peer_addr = some (client_addr x.parsers proxies peer head); ending = ending },
        config',
      )

  -- The connection and the configuration afterwards; `none` is for fuel that runs out.
  unfoldable pub handle_connection :
      S
      → SocketAddr
      → TrustedProxies
      → World
      → Option AuthConfig
      → Option (Connection × Option AuthConfig)
  unfolding serve_target callback
  handle_connection s peer proxies w config =
      read_request_head x.read s >>=? λ end. some (serve_head proxies peer w config end)
