-- ===== src/Connection/Authorized.antt =====
-- Who gets an upstream from `handle_connection` of src/proxy.rs.
use mathlib.Core.Path.{subst}
use ws2tcp_router.Prelude.{◌≡◌, refl, All, Option, none, some, ok}
use ws2tcp_router.Text.{Bytes}
use ws2tcp_router.Http.{Request}
use ws2tcp_router.Target.{Target, parse_target}
use ws2tcp_router.Target.Paths.{IsTarget}
use ws2tcp_router.Crypto.{Crypto}
use ws2tcp_router.Token.{World}
use ws2tcp_router.ClientAddr.{SocketAddr, TrustedProxies, ClientAddr}
use ws2tcp_router.Auth.{AuthConfig, authorize_request}
use ws2tcp_router.HttpProbe.Replay.{IsReader}
use ws2tcp_router.Proxy.{proxy}
use ws2tcp_router.Proxy.Routing.{accept_iff}
use ws2tcp_router.Connection.{
  Platform, Session, Ending, unreadable, answered, handshake_failed, not_captured, greeted,
  unreachable, forwarded, Connection, authorized, handle_connection,
}
use ws2tcp_router.Connection.Callback.{IsHandshake}
use ws2tcp_router.Connection.Dialling.{dialled, IsDialOf, connected-IsDialOf, unreachable-IsDialOf}
use ws2tcp_router.Connection.Served.{
  IsAccepted, IsEnding, IsReported, IsServed, handle_connection-IsServed,
}

module _ (c : Crypto) {S : Type 0} (x : Platform S) (content : S → Bytes)
    (requested : Bytes → Option Request) (peer : SocketAddr) (proxies : TrustedProxies) (w : World)
    (config : Option AuthConfig) where
  -- Who got an upstream, or an attempt to connect to one.
  abbrev pub Reaches : Ending → Session → Target → Type 0
  Reaches (unreachable user t dials e) user' t' = (user ≡ user') × (t ≡ t')
  Reaches (forwarded user t dials written) user' t' = (user ≡ user') × (t ≡ t')
  Reaches _ user' t' = ⊥

  pub record IsAuthorized (whole : Bytes) (user : Session) (t : Target) : Type 0 where
    pub request : Request
    pub held : requested whole ≡ some request
    pub authorized : authorize_request c w.unix_now request config ≡ ok user.auth_user
    pub named : parse_target request.path ≡ ok t
    pub valid : IsTarget t

  accepted-IsAuthorized :
      (whole : Bytes) (user : Session) (t : Target)
      → IsAccepted c x content requested peer proxies w config whole user (proxy t)
      → IsAuthorized whole user t
  accepted-IsAuthorized whole user t a =
      let (authorized, (elsewhere, named, valid)) =
        (accept_iff c w.unix_now a.request config user.auth_user (proxy t)).0 a.taken in
      record {
        request = a.request;
        held = a.held;
        authorized = authorized;
        named = named;
        valid = valid;
      }

  -- The program connects to an upstream, or tries to, for a user only if the request among the
  -- bytes of the connection is authorised as that user and its path names the upstream, which has
  -- a well-formed host and a port of 16 bits; and then all that goes out to the network is a
  -- connection over TCP to this upstream's address, or, over UDP, the resolution of its address and
  -- a connection to the first address that this gives; provided that the stream is one with certain
  -- bytes, and that the crate's handshake behaves as documented.
  pub handle_connection-IsAuthorized :
      (s : S) (connection : Connection) (after : Option AuthConfig) (user : Session) (t : Target)
      → IsReader x.read content
      → IsHandshake x content requested
      → handle_connection c x s peer proxies w config ≡ some (connection, after)
      → Reaches connection.ending user t
      → IsAuthorized (content s) user t × All (IsDialOf x.network t) (dialled connection.ending)
  handle_connection-IsAuthorized s connection after user t k h e reaches =
      let served : IsReported c x content requested peer proxies w config s connection.peer_addr
          connection.ending after =
        subst (IsServed c x content requested peer proxies w config s) e
          (handle_connection-IsServed c x content requested peer proxies w config s k h) in
      reported connection.peer_addr served
    where
      ended :
          (head : Bytes) (ending : Ending)
          → Reaches ending user t
          → IsEnding c x content requested peer proxies w config (content s) head ending after
          → IsAuthorized (content s) user t × All (IsDialOf x.network t) (dialled ending)
      ended head (unreachable user' t' dials x') (same_user, same_target) (a, out, _, _) =
          rw (← same_user, ← same_target)
            (
              accepted-IsAuthorized (content s) user' t' a,
              unreachable-IsDialOf x.network t' t'.protocol dials x' refl out,
            )
      ended head (forwarded user' t' dials written) (same_user, same_target) (a, out, _, _, _) =
          rw (← same_user, ← same_target)
            (
              accepted-IsAuthorized (content s) user' t' a,
              connected-IsDialOf x.network t' t'.protocol dials refl out,
            )
      ended head unreadable r served = elim r [ ]
      ended head (answered _ _) r served = elim r [ ]
      ended head (handshake_failed _) r served = elim r [ ]
      ended head not_captured r served = elim r [ ]
      ended head (greeted _ _ _) r served = elim r [ ]

      reported :
          (a : Option ClientAddr)
          → IsReported c x content requested peer proxies w config s a connection.ending after
          → IsAuthorized (content s) user t × All (IsDialOf x.network t) (dialled connection.ending)
      reported none (_, e', _) = absurd (subst (λ z. Reaches z user t) e' reaches)
      reported (some a) (head, rest, split, same, ending) =
          ended head connection.ending reaches ending
