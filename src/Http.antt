-- ===== src/Http.antt =====
-- What the sources see of an HTTP request and build of a response (the crates `http` and
-- `tungstenite`). A request is what its accessors return. Of a response, the sources set the
-- status, the body and headers; the header map is the crate's, so a response keeps what was done
-- to it, in order (src/auth.rs, src/token_api.rs, src/http_probe.rs, src/proxy.rs).
use ws2tcp_router.Prelude.{ℕ, Option, some, List, [], ◌∷◌, ◌++◌}
use ws2tcp_router.Prelude.Maybe.{◌>>=◌}
use ws2tcp_router.Text.{Str, Bytes}

-- The headers that the sources name.
pub data HeaderName : Type 0 where
  authorization www_authenticate user_agent upgrade transfer_encoding content_length : HeaderName
  content_type cache_control pragma allow : HeaderName

-- The methods that the sources compare with; `other` is any other.
pub data Method : Type 0 where
  get head post : Method
  other : Str → Method

-- A header's bytes, and what `to_str` returns of them.
pub record HeaderValue : Type 0 where
  pub as_bytes : Bytes
  pub to_str : Option Str

-- `method()`, `uri().path()`, and the first value of each header, `headers().get(name)`.
pub record Request : Type 0 where
  pub method : Method
  pub path : Str
  pub header : HeaderName → Option HeaderValue

-- `headers().get(name).and_then(|value| value.to_str().ok())`
abbrev pub header_str : Request → HeaderName → Option Str
header_str r name = r.header name >>= λ v. v.to_str

-- `headers_mut().insert(name, value)` and `headers_mut().append(name, value)`
pub data HeaderEdit : Type 0 where
  inserted appended : HeaderName → Str → HeaderEdit

pub record Response : Type 0 where
  pub status : ℕ
  pub body : Option Str
  pub edits : List HeaderEdit

-- `ErrorResponse::new(Some(body))` with its status set; a new response has no header.
abbrev pub response : ℕ → Str → Response
response status body = record { status = status; body = some body; edits = [] }

abbrev pub edit : HeaderEdit → Response → Response
edit e r = record r { edits = r.edits ++ e ∷ [] }
