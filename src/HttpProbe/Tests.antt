-- ===== src/HttpProbe/Tests.antt =====
-- Runs of src/http_probe.rs on a stream that is a list of bytes, and the theorems there.
use ws2tcp_router.Prelude.{arith, map, true, false, ◌≡◌, refl, none, some, [], str_eq}
use ws2tcp_router.Text.{Str, Bytes, codes, strip_prefix, eq_ignore_ascii_case}
use ws2tcp_router.Http.{HeaderName, HeaderEdit, inserted, appended, Response, Request, get}
use ws2tcp_router.HttpProbe.{
  health_check_response, has_end, read_loop, read_request_head, replay, poll_read, path_of,
  parse_plain_request,
}
use ws2tcp_router.HttpProbe.Replay.{
  IsReader, replayed, IsHeadOrError, read_request_head-IsHeadOrError, replay-read_request_head,
}
use ws2tcp_router.Encoding.{as_bytes}
use ws2tcp_router.Number.{show_uint}
use ws2tcp_router.HttpProbe.Writing.{
  HttpCrate, write_response, read_head, head_lines, read_head-write_response,
}
use ws2tcp_router.HttpProbe.Toy.{bytes, bytes-IsReader, parser, parser-IsBuilder}
use ws2tcp_router.HttpProbe.Plain.{IsPlain, parse_plain_request-IsPlain}

abbrev request_text : Bytes
request_text = codes "GET / HTTP/1.1\r\n\r\n"

running : Unit {0}
unfolding str_eq strip_prefix eq_ignore_ascii_case has_end read_loop read_request_head poll_read
    path_of parse_plain_request
running = tt

head_run : read_request_head bytes request_text ≡ some (some request_text, [])
unfolding running
head_run = refl

replay_run :
    poll_read bytes (replay (codes "ab") (codes "cd")) 1
    ≡ (some (codes "a"), record { prefix = codes "ab"; position = 1; inner = codes "cd" })
unfolding running
replay_run = refl

read_request_head-IsHeadOrError_example :
    IsHeadOrError bytes (λ s. s) request_text (read_request_head bytes request_text)
read_request_head-IsHeadOrError_example =
    read_request_head-IsHeadOrError bytes (λ s. s) request_text bytes-IsReader

replay-read_request_head_example :
    IsReader (poll_read bytes) (replayed (λ s. s))
    × (replayed (λ s. s) (replay request_text []) ≡ request_text)
replay-read_request_head_example =
    replay-read_request_head bytes (λ s. s) request_text request_text [] bytes-IsReader head_run

abbrev login_request : Request
login_request = record { method = get; path = codes "/auth/token"; header = λ name. none }

plain_runs :
    (parse_plain_request parser (codes "/auth/token?x") ≡ some login_request)
    × (parse_plain_request parser (codes "/tcp:h:80") ≡ none)
unfolding running
plain_runs = (refl, refl)

parse_plain_request-IsPlain_example : IsPlain login_request
parse_plain_request-IsPlain_example =
    parse_plain_request-IsPlain parser (codes "/auth/token?x") login_request parser-IsBuilder
      plain_runs.0

-- The headers in the order in which they were set.
abbrev set : HeaderEdit → HeaderName × Str
set (inserted name value) = (name, value)
set (appended name value) = (name, value)

abbrev http : HttpCrate
http = record { canonical_reason = λ status. some (codes "OK"); entries = map set }

abbrev healthy : Response
healthy = health_check_response (codes "é")

write_run :
    write_response http healthy true
    ≡ as_bytes (
        codes
          "HTTP/1.1 200 OK\r\ncontent-type: text/plain; charset=utf-8\r\ncontent-length: 2\r\nconnection: close\r\n\r\né")
unfolding write_response as_bytes show_uint health_check_response
write_run = refl

read_head-write_response_example :
    read_head [] (write_response http healthy false)
    ≡ some (map as_bytes (head_lines http healthy), as_bytes [])
unfolding health_check_response
read_head-write_response_example =
    read_head-write_response http healthy false
      (record { reason = ground arith; values = ground arith })
