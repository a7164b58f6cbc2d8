-- ===== src/Connection/Toy.antt =====
-- A concrete platform over lists of bytes, which the runs compute with: a head is the target of a
-- GET, up to a question mark, and every connection to an upstream works.
use mathlib.Core.Path.{◌≡◌, refl}
use ws2tcp_router.Prelude.{true, Option, none, some, List, [], ◌∷◌, ok, err, arith}
use ws2tcp_router.Text.{Bytes, codes}
use ws2tcp_router.Http.{Request, get, Response}
use ws2tcp_router.Target.{Target}
use ws2tcp_router.ClientAddr.{Parsers, v4, SocketAddr, TrustedProxies}
use ws2tcp_router.HttpProbe.{path_of, ReplayStream}
use ws2tcp_router.HttpProbe.Replay.{replayed}
use ws2tcp_router.HttpProbe.Toy.{bytes, parser}
use ws2tcp_router.Proxy.Forwarding.{Event, Write, works, from_websocket, message, binary, close}
use ws2tcp_router.Connection.{Network, Slots, Answered, HandshakeEnd, accepted, refused, Platform}
use ws2tcp_router.Connection.Callback.{IsHandshake}

abbrev pub network : Network
network = record {
  connect_tcp = λ addr. true;
  lookup_host = λ addr. some (record { ip = v4 1; port = 1 } ∷ []);
  bind_udp = λ local. true;
  connect = λ local addr. true;
}

abbrev pub parsers : Parsers
parsers = record {
  parse_ip = λ s. none;
  parse_socket = λ s. none;
  parse_headers = λ most head. none;
}

abbrev pub requested : Bytes → Option Request
requested whole = some (record { method = get; path = path_of whole; header = λ name. none })

abbrev ended : Answered → HandshakeEnd
ended (ok done, slots) = accepted slots
ended (err answer, slots) = refused answer

abbrev shake : ReplayStream Bytes → (Request → Slots → Answered) → Slots → HandshakeEnd
shake stream answer slots = ended (
    answer
      (record { method = get; path = path_of (replayed (λ s. s) stream); header = λ name. none })
      slots)

abbrev pub events : Target → List (Write × Event)
events t =
    (works, from_websocket (message (binary (codes "x"))))
    ∷ (works, from_websocket (message close))
    ∷ []

abbrev pub platform : Platform Bytes
platform = record {
  version = codes "1";
  parsers = parsers;
  head_parser = parser;
  network = network;
  read = bytes;
  accept_hdr = shake;
  events = events;
}

ended-accepted : (a : Answered) (after : Slots) → ended a ≡ accepted after → a ≡ (ok tt, after)
ended-accepted (ok tt, slots) after e = ground arith
ended-accepted (err answer, slots) after e = absurd (cc)

ended-refused : (a : Answered) (reply : Response) → ended a ≡ refused reply → a.0 ≡ err reply
ended-refused (ok done, slots) reply e = absurd (cc)
ended-refused (err answer, slots) reply e = ground arith

pub platform-IsHandshake : IsHandshake platform (λ s. s) requested
platform-IsHandshake = record {
  accepts = λ stream answer before after k e. (_, refl, ended-accepted _ after e);
  refuses = λ stream answer before reply k e. (_, refl, ended-refused _ reply e);
}

abbrev pub peer : SocketAddr
peer = record { ip = v4 0x7f000001; port = 1 }

abbrev pub nobody : TrustedProxies
nobody = record { ranges = [] }
