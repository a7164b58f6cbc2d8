-- ===== src/Connection/Served.antt =====
-- How the connections of src/proxy.rs end (`handle_connection`): what an answer, a refusal or a
-- connected upstream says about the request, which is the one that the connection's bytes hold.
use mathlib.Core.Path.{subst}
use ws2tcp_router.Prelude.{◌≡◌, refl, sym, List, Option, none, some, ◌++◌, Result, ok, err}
use ws2tcp_router.Text.{Bytes}
use ws2tcp_router.Http.{Request}
use ws2tcp_router.Target.{Protocol, Target, tcp, udp, addr}
use ws2tcp_router.Crypto.{Crypto}
use ws2tcp_router.Token.{World}
use ws2tcp_router.ClientAddr.{SocketAddr, TrustedProxies, ClientAddr, client_addr}
use ws2tcp_router.Auth.{AuthConfig}
use ws2tcp_router.HttpProbe.{
  read_request_head, ReplayStream, replay, poll_read, parse_plain_request,
}
use ws2tcp_router.HttpProbe.Replay.{
  IsReader, IsBroken, IsHeadOrError, replayed, read_request_head-IsHeadOrError,
  replay-read_request_head,
}
use ws2tcp_router.Proxy.{Route, health_check, proxy, accept, answer_plain, include_body}
use ws2tcp_router.Proxy.Forwarding.{Step, step_tcp, step_udp, forward}
use ws2tcp_router.Proxy.Forwarding.Laws.{forward_tcp, forward_udp}
use ws2tcp_router.Connection.{
  no_slots, HandshakeEnd, accepted, refused, failed, Platform, Session, Ending, unreadable,
  answered, handshake_failed, not_captured, greeted, unreachable, forwarded, Connection, Dial,
  health_check_close_reason, serve_upstream, UpstreamError, nothing_written, health_check_message,
  request_user_agent, callback, serve_target, serve_route, serve_handshake, serve_request,
  handle_connection,
}
use ws2tcp_router.Connection.Callback.{IsHandshake, callback-ok, callback-err}
use ws2tcp_router.Connection.Dialling.{
  IsConnected, IsUnreachable, IsDialled, Forwards, connect_tcp-IsDialled, connect_udp-IsDialled,
}

module _ (c : Crypto) {S : Type 0} (x : Platform S) (content : S → Bytes)
    (requested : Bytes → Option Request) (peer : SocketAddr) (proxies : TrustedProxies) (w : World)
    (config : Option AuthConfig) where
  -- The handshake's request among the bytes `whole`, accepted for a user and a route.
  pub record IsAccepted (whole : Bytes) (user : Session) (route : Route) : Type 0 where
    pub request : Request
    pub held : requested whole ≡ some request
    pub agent : user.user_agent ≡ request_user_agent request
    pub taken : accept c w.unix_now request config ≡ ok (user.auth_user, route)

  -- What an ending says, for a connection with the bytes `whole`, of which `head` are its head;
  -- only the answer to a plain request can leave another configuration, and only a head that holds
  -- none leads to the handshake.
  abbrev pub IsEnding : Bytes → Bytes → Ending → Option AuthConfig → Type 0
  IsEnding whole head unreadable after = ⊥
  IsEnding whole head (answered answer body) after =
      (r : Request) × (parse_plain_request x.head_parser head ≡ some r)
      × (answer_plain c (health_check_message x.version) w r config ≡ (answer, after))
      × (body ≡ include_body r.method)
  IsEnding whole head (handshake_failed (some answer)) after =
      ((r : Request) × (requested whole ≡ some r) × (accept c w.unix_now r config ≡ err answer))
      × (parse_plain_request x.head_parser head ≡ none)
      × (after ≡ config)
  IsEnding whole head (handshake_failed none) after =
      ((stream : ReplayStream S) × (replayed content stream ≡ whole)
        × (x.accept_hdr stream (callback c w.unix_now config) no_slots ≡ failed))
      × (parse_plain_request x.head_parser head ≡ none)
      × (after ≡ config)
  IsEnding whole head not_captured after = ⊥
  IsEnding whole head (greeted user message reason) after =
      IsAccepted whole user health_check
      × (message ≡ health_check_message x.version)
      × (reason ≡ health_check_close_reason)
      × (parse_plain_request x.head_parser head ≡ none)
      × (after ≡ config)
  IsEnding whole head (unreachable user t dials e) after =
      IsAccepted whole user (proxy t)
      × IsUnreachable x.network (addr t) t.protocol dials e
      × (parse_plain_request x.head_parser head ≡ none)
      × (after ≡ config)
  IsEnding whole head (forwarded user t dials (o, written)) after =
      IsAccepted whole user (proxy t)
      × IsConnected x.network (addr t) t.protocol dials
      × Forwards t.protocol (x.events t) o written
      × (parse_plain_request x.head_parser head ≡ none)
      × (after ≡ config)

  abbrev pub IsReported : S → Option ClientAddr → Ending → Option AuthConfig → Type 0
  IsReported s none e after =
      ((s' : S) × IsBroken x.read content s s') × (e ≡ unreadable) × (after ≡ config)
  IsReported s (some a) e after =
      (head : Bytes) × (rest : Bytes) × (content s ≡ head ++ rest)
      × (a ≡ client_addr x.parsers proxies peer head)
      × IsEnding (content s) head e after

  -- The connection ended: its head could not be read, since a read failed, or it is reported under
  -- the address that its head gives.
  abbrev pub IsServed : S → Option (Connection × Option AuthConfig) → Type 0
  IsServed s none = ⊥
  IsServed s (some (connection, after)) = IsReported s connection.peer_addr connection.ending after

  module _ (whole head : Bytes) (other : parse_plain_request x.head_parser head ≡ none) where
    upstream-IsEnding :
        {A : Type 0} (user : Session) (t : Target) (step : Step) (p : Protocol) (dials : List Dial)
        (result : Result UpstreamError A)
        → t.protocol ≡ p
        → IsAccepted whole user (proxy t)
        → Forwards p
            (x.events t)
            (forward step (x.events t) nothing_written).0
            (forward step (x.events t) nothing_written).1
        → IsDialled x.network (addr t) p dials result
        → IsEnding whole head (serve_upstream c x user t step (dials, result)) config
    upstream-IsEnding user t step p dials (err e) same a copies h =
        (a, subst (λ q. IsUnreachable x.network (addr t) q dials e) (sym same) h, other, refl)
    upstream-IsEnding user t step p dials (ok socket) same a copies h = (
      a,
      subst (λ q. IsConnected x.network (addr t) q dials) (sym same) h,
      subst
          (λ q.
            Forwards q (x.events t) (forward step (x.events t) nothing_written).0
              (forward step (x.events t) nothing_written).1)
          (sym same) copies,
      other,
      refl,
    )

    target-IsEnding :
        (user : Session) (t : Target)
        → IsAccepted whole user (proxy t)
        → IsEnding whole head (serve_target c x user t) config
    unfolding serve_target
    target-IsEnding user t a = by_protocol t.protocol refl
      where
        by_protocol :
            (p : Protocol) → t.protocol ≡ p → IsEnding whole head (serve_target c x user t) config
        by_protocol tcp p =
            rw (serve_target, p)
              (upstream-IsEnding user t step_tcp tcp _ _ p a
                (forward_tcp (x.events t) nothing_written)
                (connect_tcp-IsDialled x.network (addr t)))
        by_protocol udp p =
            rw (serve_target, p)
              (upstream-IsEnding user t step_udp udp _ _ p a
                (forward_udp (x.events t) nothing_written)
                (connect_udp-IsDialled x.network (addr t)))

    route-IsEnding :
        (user : Session) (route : Route)
        → IsAccepted whole user route
        → IsEnding whole head (serve_route c x user route) config
    route-IsEnding user health_check a = (a, refl, refl, other, refl)
    route-IsEnding user (proxy t) a = target-IsEnding user t a

    handshake-IsEnding :
        (stream : ReplayStream S)
        → IsHandshake x content requested
        → IsReader (poll_read x.read) (replayed content)
        → replayed content stream ≡ whole
        → (end : HandshakeEnd) → x.accept_hdr stream (callback c w.unix_now config) no_slots ≡ end
        → IsEnding whole head (serve_handshake c x end) config
    handshake-IsEnding stream h k same failed e = ((stream, same, e), other, refl)
    handshake-IsEnding stream h k same (refused answer) e =
        let (r, held, refuses) = h.refuses stream _ no_slots answer k e in
        ((r, rw (← same) held, callback-err c w.unix_now config r answer refuses), other, refl)
    handshake-IsEnding stream h k same (accepted after) e =
        let (r, held, accepts) = h.accepts stream _ no_slots after k e in
        let (user, route, taken, slots) = callback-ok c w.unix_now config r after accepts in
        rw slots (
          route-IsEnding _ route
            (record { request = r; held = rw (← same) held; agent = refl; taken = taken }))

  request-IsEnding :
      (whole head : Bytes) (s : S)
      → IsHandshake x content requested
      → IsReader (poll_read x.read) (replayed content)
      → replayed content (replay head s) ≡ whole
      → (o : Option Request) → parse_plain_request x.head_parser head ≡ o
      → let end = serve_request c x o w config (replay head s) in IsEnding whole head end.0 end.1
  request-IsEnding whole head s h k same (some r) e = (r, e, refl, refl)
  request-IsEnding whole head s h k same none e =
      handshake-IsEnding whole head e (replay head s) h k same _ refl

  pub handle_connection-IsServed :
      (s : S)
      → IsReader x.read content
      → IsHandshake x content requested
      → IsServed s (handle_connection c x s peer proxies w config)
  unfolding handle_connection
  handle_connection-IsServed s k h =
      go (read_request_head x.read s) refl (read_request_head-IsHeadOrError x.read content s k)
    where
      go :
          (end : Option (Option Bytes × S))
          → read_request_head x.read s ≡ end
          → IsHeadOrError x.read content s end
          → IsServed s (handle_connection c x s peer proxies w config)
      go none e found = elim found [ ]
      go (some (none, s')) e found = rw (handle_connection, e) ((s', found), refl, refl)
      go (some (some head, s')) e found =
          let (reader, same) = replay-read_request_head x.read content s head s' k e in
          rw (handle_connection, e)
            (
              head,
              content s',
              found.1.split,
              refl,
              request-IsEnding (content s) head s' h reader same _ refl,
            )
