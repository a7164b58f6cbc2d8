-- ===== src/HttpProbe.antt =====
-- src/http_probe.rs: reading a request head, deciding whether it is a plain request, and replaying
-- what was read to the handshake. A stream is any type `S` with a read: asked for at most `n`
-- bytes, it returns some and the stream behind them, no byte at the end, or `none` for an error.
-- The crates `httparse` and `http`, which parse the head and build the request, are parameters.
pub mod Replay
pub mod Plain
pub mod Writing
pub mod Toy
mod Tests
use ws2tcp_router.Prelude.{
  ℕ, zero, suc, ◌+◌, ◌-◌, ◌*◌, ◌≡◌, ◌≤◌, Bool, true, false, not, ◌&&◌, ◌||◌, Option, none, some,
  List, [], ◌∷◌, ◌++◌, length, take, drop, min, ltb, leb, ◌==◌, is_some, str_eq, if◌then◌else◌,
}
use ws2tcp_router.Prelude.Maybe.{◌>>=◌}
use ws2tcp_router.Text.{Str, Bytes, codes, strip_prefix, starts_with, eq_ignore_ascii_case}
use ws2tcp_router.Http.{
  Request, Response, Method, get, head, post, other, header_str, upgrade, response, edit, inserted,
  content_type,
}

abbrev pub max_request_head : ℕ
max_request_head = 16 * 1024

abbrev pub chunk_size : ℕ
chunk_size = 2048

-- `windows(4).any(|window| window == b"\r\n\r\n")`
unfoldable pub has_end : Bytes → Bool
has_end [] = false
has_end (b ∷ s) = starts_with (codes "\r\n\r\n") (b ∷ s) || has_end s

-- the loop's condition fails
abbrev pub is_complete : Bytes → Bool
is_complete taken = has_end taken || leb max_request_head (length taken)

abbrev pub Read : Type 0 → Type 0
Read S = S → ℕ → Option Bytes × S

module _ {S : Type 0} (read : Read S) where
  -- The loop, which ends with an error or the head and the stream behind it; each round reads a
  -- byte at least, so the fuel is the largest number of bytes. `none` is for fuel that runs out.
  unfoldable pub read_loop : ℕ → Bytes → S → Option (Option Bytes × S)
  unfolding has_end
  read_loop zero taken s = if is_complete taken then some (some taken, s) else none
  read_loop (suc fuel) taken s = elim (is_complete taken) [
    | true ↦ some (some taken, s)
    | false ↦
        let (out, s') = read s chunk_size in
        elim out [
          | none ↦ some (none, s')
          | some got ↦ elim got [
            | [] ↦ some (some taken, s')
            | b ∷ more ↦ read_loop fuel (taken ++ b ∷ more) s'
          ]
        ]
  ]

  unfoldable pub read_request_head : S → Option (Option Bytes × S)
  unfolding read_loop
  read_request_head s = read_loop max_request_head [] s

-- `ReplayStream`
pub record ReplayStream (S : Type 0) : Type 0 where
  pub prefix : Bytes
  pub position : ℕ
  pub inner : S

abbrev pub replay : {S : Type 0} → Bytes → S → ReplayStream S
replay prefix inner = record { prefix = prefix; position = 0; inner = inner }

-- `poll_read`, with room for `n` bytes
unfoldable pub poll_read : {S : Type 0} → Read S → Read (ReplayStream S)
poll_read read r n =
    if ltb r.position (length r.prefix)
    then (let k = min n (length r.prefix - r.position) in
        (some (take k (drop r.position r.prefix)), record r { position = r.position + k }))
    else (let (out, s') = read r.inner n in (out, record r { inner = s' }))

-- What the crates make of a request head: the method, the target and the headers of a complete
-- head (at most 64 headers), a method by its name, and the request that is built of them.
pub record HeadParser : Type 0 where
  pub parse : Bytes → Option (Option Str × Option Str × List (Str × Bytes))
  pub method_from : Str → Option Method
  pub build : Method → Str → List (Str × Bytes) → Option Request

-- `target.split(['?', '#']).next()`
unfoldable pub path_of : Str → Str
path_of [] = []
path_of (c ∷ s) = let rest = path_of s in if c == b'?' || c == b'#' then [] else c ∷ rest

abbrev pub is_get_or_head : Method → Bool
is_get_or_head get = true
is_get_or_head head = true
is_get_or_head _ = false

abbrev pub is_health_check : Method → Str → Bool
is_health_check method path = str_eq path (codes "/") && is_get_or_head method

abbrev pub auth_prefix : Str
auth_prefix = codes "/auth/"

abbrev is_websocket : Option Str → Bool
is_websocket none = false
is_websocket (some value) = eq_ignore_ascii_case value (codes "websocket")

abbrev pub is_upgrade : Request → Bool
is_upgrade r = is_websocket (header_str r upgrade)

unfoldable pub parse_plain_request : HeadParser → Bytes → Option Request
unfolding path_of
parse_plain_request p bytes = do
  (method_name, target_text, headers) ← p.parse bytes
  name ← method_name
  method ← p.method_from name
  target ← target_text
  request ←
      if is_health_check method (path_of target) || starts_with auth_prefix (path_of target)
      then p.build method target headers
      else none
  if is_upgrade request then none else some request

unfoldable pub health_check_response : Str → Response
health_check_response message =
    edit (inserted content_type (codes "text/plain; charset=utf-8")) (response 200 message)
