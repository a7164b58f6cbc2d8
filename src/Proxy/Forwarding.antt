-- ===== src/Proxy/Forwarding.antt =====
-- `proxy_tcp` and `proxy_udp` of src/proxy.rs: the loops that copy between a WebSocket and an
-- upstream, as steps on the events that `select!` takes in turn. Whether the write of a step
-- works is given with the event, as is what a read returns.
pub mod Steps
pub mod Laws
use ws2tcp_router.Prelude.{
  ◌≡◌, ◌∙◌, refl, sym, ap, arith, ℕ, take, Bool, true, false, Option, none, some, List, [], ◌∷◌,
  ◌++◌, flat_map, if◌then◌else◌, Bool-cases, inl, inr,
}
use mathlib.Core.List.{append_assoc}
use ws2tcp_router.Text.{Str, Bytes}
use ws2tcp_router.Encoding.{as_bytes}

-- A message of the WebSocket, read or sent.
pub data Message : Type 0 where
  binary ping pong : Bytes → Message
  text : Str → Message
  frame close : Message

-- What `ws_reader.next()` returns: a message, an error, or the end.
pub data Incoming : Type 0 where
  message : Message → Incoming
  failed ended : Incoming

-- One turn of the loop: the WebSocket, the upstream (`none` for an error), or the idle timeout,
-- which only UDP has.
pub data Event : Type 0 where
  from_websocket : Incoming → Event
  from_upstream : Option Bytes → Event
  idle : Event

-- How the write of a step ends: it works, or fails behind the first bytes that it has written.
pub data Write : Type 0 where
  works : Write
  fails_after : ℕ → Write

pub data Outcome : Type 0 where
  running finished broken : Outcome

-- What was written so far: to the upstream, one entry for a write, and to the WebSocket; and
-- whether the upstream's writer is shut down.
pub record Written : Type 0 where
  pub upstream : List Bytes
  pub websocket : List Message
  pub shut : Bool

abbrev pub to_upstream : Bytes → Written → Written
to_upstream b s = record s { upstream = s.upstream ++ b ∷ [] }

abbrev pub to_websocket : Message → Written → Written
to_websocket m s = record s { websocket = s.websocket ++ m ∷ [] }

abbrev pub shut_down : Written → Written
shut_down s = record s { shut = true }

-- `?` on a write that is done as a whole or not at all, and what comes after it
abbrev written : Write → Outcome → Written → Written → Outcome × Written
written works next s' s = (next, s')
written (fails_after n) next s' s = (broken, s)

-- `write_all` and `?`, on the stream to the upstream, which may get a part
abbrev write_all : Write → Bytes → Written → Outcome × Written
write_all works b s = (running, to_upstream b s)
write_all (fails_after n) b s = (broken, to_upstream (take n b) s)

-- `let _ = ws_writer.send(…)`: the loop ends whether it works or not.
abbrev farewell : Write → Written → Outcome × Written
farewell works s = (finished, to_websocket close s)
farewell (fails_after n) s = (finished, s)

unfoldable pub step_tcp : Write → Event → Written → Outcome × Written
step_tcp w (from_websocket (message (binary b))) s = write_all w b s
step_tcp w (from_websocket (message (text t))) s = write_all w (as_bytes t) s
step_tcp w (from_websocket (message (ping b))) s = written w running (to_websocket (pong b) s) s
step_tcp w (from_websocket (message (pong b))) s = (running, s)
step_tcp w (from_websocket (message frame)) s = (running, s)
step_tcp w (from_websocket (message close)) s = written w finished (shut_down s) s
step_tcp w (from_websocket failed) s = (broken, s)
step_tcp w (from_websocket ended) s = written w finished (shut_down s) s
step_tcp w (from_upstream none) s = (broken, s)
step_tcp w (from_upstream (some [])) s = farewell w s
step_tcp w (from_upstream (some (b ∷ bs))) s =
    written w running (to_websocket (binary (b ∷ bs)) s) s
step_tcp w idle s = (running, s)

-- A datagram may be empty, and nothing is shut down.
unfoldable pub step_udp : Write → Event → Written → Outcome × Written
step_udp w (from_websocket (message (binary b))) s = written w running (to_upstream b s) s
step_udp w (from_websocket (message (text t))) s = written w running (to_upstream (as_bytes t) s) s
step_udp w (from_websocket (message (ping b))) s = written w running (to_websocket (pong b) s) s
step_udp w (from_websocket (message (pong b))) s = (running, s)
step_udp w (from_websocket (message frame)) s = (running, s)
step_udp w (from_websocket (message close)) s = (finished, s)
step_udp w (from_websocket failed) s = (broken, s)
step_udp w (from_websocket ended) s = (finished, s)
step_udp w (from_upstream none) s = (broken, s)
step_udp w (from_upstream (some b)) s = written w running (to_websocket (binary b) s) s
step_udp w idle s = farewell w s

abbrev pub Step : Type 0
Step = Write → Event → Written → Outcome × Written

module _ (step : Step) where
  -- the loop, over the events that come
  unfoldable pub forward : List (Write × Event) → Written → Outcome × Written
  forward [] s = (running, s)
  forward ((w, e) ∷ events) s =
      let (o, s') = step w e s in
      elim o [ running ↦ forward events s' | finished ↦ (finished, s') | broken ↦ (broken, s') ]

-- What an event asks to be sent to the upstream, and to the WebSocket.
abbrev pub payload : Write × Event → List Bytes
payload (w, from_websocket (message (binary b))) = b ∷ []
payload (w, from_websocket (message (text t))) = as_bytes t ∷ []
payload _ = []

abbrev pub reply : Write × Event → List Message
reply (w, from_websocket (message (ping b))) = pong b ∷ []
reply (w, from_upstream (some b)) = binary b ∷ []
reply _ = []
