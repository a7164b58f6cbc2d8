-- ===== src/Proxy.antt =====
-- src/proxy.rs: where a connection goes. `handle_connection` answers a plain request itself, and
-- hands any other to the WebSocket handshake of the crate `tungstenite`, whose callback decides
-- on the upstream. The loops that copy frames afterwards are in Proxy/Forwarding.
pub mod Routing
pub mod Forwarding
mod Tests
use ws2tcp_router.Prelude.{
  ℕ, ◌≡◌, Bool, true, false, not, Option, none, some, List, [], ◌∷◌, Result, ok, err, ◌>>=◌,
  context, str_eq, if◌then◌else◌,
}
use ws2tcp_router.Text.{Str, Bytes, codes}
use ws2tcp_router.Http.{Request, Response, Method, get, head, post, other, response}
use ws2tcp_router.Target.{Target, TargetError, parse_target}
use ws2tcp_router.Crypto.{Crypto}
use ws2tcp_router.Token.{World}
use ws2tcp_router.Auth.{AuthConfig, authorize_request}
use ws2tcp_router.TokenApi.{handle_auth_request}
use ws2tcp_router.HttpProbe.{health_check_response}

abbrev pub health_check_path : Str
health_check_path = codes "/"

pub data Route : Type 0 where
  health_check : Route
  proxy : Target → Route

abbrev pub path_message : Str
path_message =
    codes
      "path must be /tcp:<host>:<port> or /udp:<host>:<port>, with IPv6 hosts formatted as [host]:port"

-- `capture_requested_target`, with the route that it stores
unfoldable pub capture_requested_target : Request → Result Response Route
capture_requested_target r =
    if str_eq r.path health_check_path then ok health_check else elim (parse_target r.path) [
      | ok target ↦ ok (proxy target)
      | err e ↦ err (response 400 path_message)
    ]

abbrev with_user : Str → Route → Result Response (Str × Route)
with_user user route = ok (user, route)

module _ (c : Crypto) where
  -- the callback of the handshake: the user and the route, or the answer that refuses it
  unfoldable pub accept : ℕ → Request → Option AuthConfig → Result Response (Str × Route)
  unfolding capture_requested_target
  accept now r config =
      authorize_request c now r config >>= λ user. capture_requested_target r >>= with_user user

  abbrev health_answer : Str → Result Response Str → Response
  health_answer message (ok user) = health_check_response message
  health_answer message (err refusal) = refusal

  -- the answer to a plain request, and the configuration afterwards
  unfoldable pub answer_plain :
      Str → World → Request → Option AuthConfig → Response × Option AuthConfig
  answer_plain message w r config =
      if str_eq r.path health_check_path
      then (health_answer message (authorize_request c w.unix_now r config), config)
      else handle_auth_request c w r config

-- The body is left out for HEAD.
abbrev pub include_body : Method → Bool
include_body head = false
include_body _ = true
