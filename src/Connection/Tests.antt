-- ===== src/Connection/Tests.antt =====
-- Runs of the connections of src/proxy.rs on the toy platform, and the theorems there.
use ws2tcp_router.Prelude.{All, true, ◌≡◌, refl, none, some, [], ◌∷◌, ok, err, str_eq}
use ws2tcp_router.Text.{Bytes, codes, contains, strip_prefix, rsplit_once, eq_ignore_ascii_case}
use ws2tcp_router.Number.{parse_uint, show_uint}
use ws2tcp_router.Target.{Target, tcp, addr, parse_host_port, parse_target}
use ws2tcp_router.Crypto.Toy.{toy}
use ws2tcp_router.Token.{World}
use ws2tcp_router.ClientAddr.{v4, contains as in_range, client_addr}
use ws2tcp_router.Auth.{anonymous_auth_user, authorize_request}
use ws2tcp_router.TokenApi.{handle_auth_request}
use ws2tcp_router.HttpProbe.{
  has_end, read_loop, read_request_head, poll_read, path_of, parse_plain_request,
  health_check_response,
}
use ws2tcp_router.HttpProbe.Toy.{bytes-IsReader}
use ws2tcp_router.Proxy.{capture_requested_target, accept, answer_plain}
use ws2tcp_router.Proxy.Forwarding.{finished, step_tcp, forward}
use ws2tcp_router.Connection.{
  Session, connects_tcp, looks_up, connects_udp, UdpSocket, answered, forwarded, not_resolved,
  no_address, connect_udp, request_user_agent, callback, serve_target, handle_connection,
  Connection, health_check_message,
}
use ws2tcp_router.Connection.Dialling.{IsDialOf, dialled}
use ws2tcp_router.Connection.Authorized.{IsAuthorized, handle_connection-IsAuthorized}
use ws2tcp_router.Connection.Toy.{network, requested, platform, platform-IsHandshake, peer, nobody}

abbrev world : World
world = record { now = 0; unix_now = 1000; token_draw = none; family_draw = none }

running : Unit {0}
unfolding str_eq contains strip_prefix rsplit_once eq_ignore_ascii_case parse_uint show_uint addr
    parse_host_port parse_target in_range client_addr authorize_request handle_auth_request has_end
    read_loop read_request_head poll_read path_of parse_plain_request health_check_response
    capture_requested_target accept answer_plain step_tcp forward connect_udp request_user_agent
    callback serve_target handle_connection
running = tt

abbrev upstream : Target
upstream = record { protocol = tcp; host = codes "h"; port = 80 }

abbrev visitor : Session
visitor = record { auth_user = anonymous_auth_user; user_agent = codes "-" }

abbrev proxied : Connection
proxied = record {
  peer_addr = some (record { peer = peer; forwarded = none });
  ending =
      forwarded visitor upstream (connects_tcp (codes "h:80") ∷ [])
        (finished, record { upstream = codes "x" ∷ []; websocket = []; shut = true });
}

abbrev connecting : Bytes
connecting = codes "/tcp:h:80?\r\n\r\n"

proxied_run :
    handle_connection toy platform connecting peer nobody world none ≡ some (proxied, none)
unfolding running
proxied_run = refl

-- A plain health check, and an endpoint of tokens without a token service.
plain_runs :
    (handle_connection toy platform (codes "/?\r\n\r\n") peer nobody world none
      ≡ some (
        record {
          peer_addr = some (record { peer = peer; forwarded = none });
          ending = answered (health_check_response (health_check_message (codes "1"))) true;
        },
        none,
      ))
unfolding running
plain_runs = refl

abbrev socket : UdpSocket
socket = record { local_bind = codes "0.0.0.0:0"; remote = record { ip = v4 1; port = 1 } }

udp_runs :
    (connect_udp network (codes "h:1")
      ≡ (looks_up (codes "h:1") ∷ connects_udp socket.remote ∷ [], ok socket))
    × (connect_udp (record network { lookup_host = λ s. some [] }) (codes "h:1")
        ≡ (looks_up (codes "h:1") ∷ [], err no_address))
    × (connect_udp (record network { lookup_host = λ s. none }) (codes "h:1")
        ≡ (looks_up (codes "h:1") ∷ [], err not_resolved))
unfolding running
udp_runs = (refl, refl, refl)

handle_connection-IsAuthorized_example :
    IsAuthorized toy platform (λ s. s) requested peer nobody world none connecting visitor upstream
    × All (IsDialOf network upstream) (dialled proxied.ending)
handle_connection-IsAuthorized_example =
    handle_connection-IsAuthorized toy platform (λ s. s) requested peer nobody world none connecting
      proxied none visitor upstream bytes-IsReader platform-IsHandshake proxied_run (refl, refl)
