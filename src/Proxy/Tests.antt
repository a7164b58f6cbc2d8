-- ===== src/Proxy/Tests.antt =====
-- Runs of the routing of src/proxy.rs, and the theorems there.
use ws2tcp_router.Prelude.{some, [], List, ◌∷◌, false, ◌≡◌, ◌⊎◌, refl, none, ok, err, str_eq}
use ws2tcp_router.Text.{Str, codes, contains, strip_prefix, rsplit_once}
use ws2tcp_router.Number.{parse_uint}
use ws2tcp_router.Http.{Request, get, response}
use ws2tcp_router.Target.{Target, tcp, parse_host_port, parse_target}
use ws2tcp_router.Crypto.Toy.{toy}
use ws2tcp_router.Auth.{anonymous_auth_user, authorize_request}
use ws2tcp_router.Proxy.{Route, health_check, proxy, path_message, capture_requested_target, accept}
use ws2tcp_router.Encoding.{as_bytes}
use ws2tcp_router.Proxy.Forwarding.{
  binary, text, ping, pong, message, Event, from_websocket, from_upstream, broken, Write, works,
  fails_after, Written, step_tcp, step_udp, forward,
}
use ws2tcp_router.Proxy.Forwarding.Steps.{Cuts}
use ws2tcp_router.Proxy.Forwarding.Laws.{IsCopied, IsForwarded, forward_tcp, forward_udp}
use ws2tcp_router.Proxy.Routing.{IsRoute, accept-err}

abbrev asking : Str → Request
asking path = record { method = get; path = path; header = λ name. none }

abbrev upstream : Target
upstream = record { protocol = tcp; host = codes "h"; port = 80 }

running : Unit {0}
unfolding str_eq contains strip_prefix rsplit_once parse_uint parse_host_port parse_target
    authorize_request capture_requested_target accept
running = tt

routes :
    (accept toy 0 (asking (codes "/tcp:h:80")) none ≡ ok (anonymous_auth_user, proxy upstream))
    × (accept toy 0 (asking (codes "/")) none ≡ ok (anonymous_auth_user, health_check))
    × (accept toy 0 (asking (codes "/x")) none ≡ err (response 400 path_message))
unfolding running
routes = (refl, refl, refl)

accept-err_example :
    (authorize_request toy 0 (asking (codes "/x")) none ≡ err (response 400 path_message))
    ⊎ ((user : Str) × (authorize_request toy 0 (asking (codes "/x")) none ≡ ok user)
        × ((response 400 path_message).status ≡ 400)
        × ((route : Route) → IsRoute (codes "/x") route → ⊥))
accept-err_example =
    accept-err toy 0 (asking (codes "/x")) none (response 400 path_message) routes.2

-- A text, a ping, bytes of the upstream, a message whose write fails behind a byte, and one that comes too late.
abbrev events : List (Write × Event)
events =
    (works, from_websocket (message (text (codes "hi"))))
    ∷ (works, from_websocket (message (ping (codes "p"))))
    ∷ (works, from_upstream (some (codes "yo")))
    ∷ (fails_after 1, from_websocket (message (binary (codes "xz"))))
    ∷ (works, from_websocket (message (binary (codes "y"))))
    ∷ []

abbrev nothing : Written
nothing = record { upstream = []; websocket = []; shut = false }

forward_run : forward step_tcp events nothing ≡ (
  broken,
  record {
    upstream = codes "hi" ∷ codes "x" ∷ [];
    websocket = pong (codes "p") ∷ binary (codes "yo") ∷ [];
    shut = false;
  },
)
unfolding forward step_tcp as_bytes
forward_run = refl

forward_tcp_example :
    IsCopied Cuts events nothing
      (forward step_tcp events nothing).0
      (forward step_tcp events nothing).1
forward_tcp_example = forward_tcp events nothing

forward_udp_example :
    IsForwarded events nothing
      (forward step_udp events nothing).0
      (forward step_udp events nothing).1
forward_udp_example = forward_udp events nothing
