-- ===== src/HttpProbe/Writing.antt =====
-- `write_response` of src/http_probe.rs, and what a client reads of it. The reasons of the statuses
-- and the order of a header map are the crate `http`'s. The values of the headers are set from
-- texts, so what `from_utf8_lossy` gives is the text.
use mathlib.Core.List.{append_assoc, append-nil}
use ws2tcp_router.Prelude.{
  ℕ, ◌≡◌, ◌≢◌, ◌∙◌, refl, sym, ap, arith, Bool, true, false, ◌&&◌, Bool-cases, Option, none, some,
  List, [], ◌∷◌, ◌++◌, map, length, unwrap_or, All, All-append, ◌==◌, inl, inr, if◌then◌else◌,
}
use ws2tcp_router.Text.{Str, Bytes, codes, is_empty}
use ws2tcp_router.Number.{show_uint}
use ws2tcp_router.Number.RoundTrip.{IsDigit, show_uint-All-IsDigit}
use ws2tcp_router.Encoding.{as_bytes}
use ws2tcp_router.Encoding.Texts.{as_bytes-append, as_bytes_avoids, as_bytes_nonempty}
use ws2tcp_router.Http.{
  HeaderName, authorization, www_authenticate, user_agent, upgrade, transfer_encoding,
  content_length, content_type, cache_control, pragma, allow, HeaderEdit, Response,
}

-- `as_str` of a header name
abbrev pub as_str : HeaderName → Str
as_str authorization = codes "authorization"
as_str www_authenticate = codes "www-authenticate"
as_str user_agent = codes "user-agent"
as_str upgrade = codes "upgrade"
as_str transfer_encoding = codes "transfer-encoding"
as_str content_length = codes "content-length"
as_str content_type = codes "content-type"
as_str cache_control = codes "cache-control"
as_str pragma = codes "pragma"
as_str allow = codes "allow"

-- `canonical_reason` of a status, and the entries of a header map that is edited.
pub record HttpCrate : Type 0 where
  pub canonical_reason : ℕ → Option Str
  pub entries : List HeaderEdit → List (HeaderName × Str)

abbrev pub no_content : ℕ
no_content = 204

abbrev pub crlf : Str
crlf = codes "\r\n"

module _ (x : HttpCrate) (r : Response) where
  abbrev pub body_of : Str
  body_of = unwrap_or r.body []

  -- the loop over the headers
  abbrev pub header_lines : List (HeaderName × Str) → Str
  header_lines [] = []
  header_lines ((name, value) ∷ rest) =
      as_str name ++ codes ": " ++ value ++ crlf ++ header_lines rest

  abbrev pub length_line : Str
  length_line =
      if r.status == no_content
      then []
      else codes "content-length: " ++ show_uint (length (as_bytes body_of)) ++ crlf

  unfoldable pub write_response : Bool → Bytes
  write_response include_body = as_bytes (
      codes "HTTP/1.1 "
      ++ show_uint r.status
      ++ codes " "
      ++ unwrap_or (x.canonical_reason r.status) []
      ++ crlf
      ++ header_lines (x.entries r.edits)
      ++ length_line
      ++ codes "connection: close\r\n\r\n"
      ++ (if include_body then body_of else []))

-- How a client reads a response: the lines up to an empty one, and what is behind it. `line` is
-- the line so far.
abbrev with_line : Bytes → Option (List Bytes × Bytes) → Option (List Bytes × Bytes)
with_line line none = none
with_line line (some (lines, rest)) = some (line ∷ lines, rest)

unfoldable pub read_head : Bytes → Bytes → Option (List Bytes × Bytes)
read_head line [] = none
read_head line (b ∷ []) = none
read_head line (b ∷ c ∷ s) = elim (b == b'\r' && c == b'\n') [
  | false ↦ read_head (line ++ b ∷ []) (c ∷ s)
  | true ↦ elim (is_empty line) [ true ↦ some ([], s) | false ↦ with_line line (read_head [] s) ]
]

-- No carriage return.
abbrev pub IsLine : Str → Type 0
IsLine = All (λ ch. ch ≢ 0x0d)

read_head-skip :
    (line : Bytes) (b ch : ℕ) (s : Bytes)
    → b ≢ 0x0d
    → read_head line (b ∷ ch ∷ s) ≡ read_head (line ++ b ∷ []) (ch ∷ s)
unfolding read_head
read_head-skip line b ch s h =
    let other : (b == 0x0d) ≡ false = ground arith in rw (read_head, other) refl

-- A line is read up to its end.
read_head-line :
    (line l s : Bytes)
    → IsLine l
    → is_empty (line ++ l) ≡ false
    → read_head line (l ++ 0x0d ∷ 0x0a ∷ s) ≡ with_line (line ++ l) (read_head [] s)
unfolding read_head
read_head-line line [] s h full =
    let same = append-nil line in
    let some_line : is_empty line ≡ false = rw same at full in rw (read_head, some_line, same) refl
read_head-line line (b ∷ []) s h full =
    read_head-skip line b 0x0d (0x0a ∷ s) h.0
    ∙ read_head-line (line ++ b ∷ []) [] s tt (rw (append-nil (line ++ b ∷ [])) full)
    ∙ ap (λ l. with_line l (read_head [] s)) (append-nil (line ++ b ∷ []))
read_head-line line (b ∷ ch ∷ l) s h full =
    let moved : (line ++ b ∷ []) ++ ch ∷ l ≡ line ++ b ∷ ch ∷ l =
      append_assoc line (b ∷ []) (ch ∷ l) in
    read_head-skip line b ch (l ++ 0x0d ∷ 0x0a ∷ s) h.0
    ∙ read_head-line (line ++ b ∷ []) (ch ∷ l) s h.1 (rw moved full)
    ∙ ap (λ k. with_line k (read_head [] s)) moved

-- Some lines, each with its end, then an empty line, then the rest.
abbrev pub on_lines : List Str → Str
on_lines [] = []
on_lines (l ∷ ls) = l ++ crlf ++ on_lines ls

-- A line with something on it.
abbrev IsFull : Str → Type 0
IsFull l = IsLine l × (l ≢ [])

read_head-on_lines :
    (ls : List Str) (rest : Str)
    → All IsFull ls
    → read_head [] (as_bytes (on_lines ls ++ (crlf ++ rest)))
      ≡ some (map as_bytes ls, as_bytes rest)
unfolding read_head as_bytes
read_head-on_lines [] rest h = refl
read_head-on_lines (l ∷ ls) rest ((line, full), h) =
    let nested : on_lines (l ∷ ls) ++ (crlf ++ rest)
        ≡ l ++ (crlf ++ (on_lines ls ++ (crlf ++ rest))) =
      append_assoc (l ++ crlf) (on_lines ls) (crlf ++ rest)
      ∙ append_assoc l crlf (on_lines ls ++ (crlf ++ rest)) in
    ap (λ t. read_head [] (as_bytes t)) nested
    ∙ ap (λ t. read_head [] t) (as_bytes-append l (crlf ++ (on_lines ls ++ (crlf ++ rest))))
    ∙ read_head-line [] (as_bytes l) (as_bytes (on_lines ls ++ (crlf ++ rest)))
        (as_bytes_avoids 0x0d l (omega arith) line) (as_bytes_nonempty l full)
    ∙ ap (with_line (as_bytes l)) (read_head-on_lines ls rest h)

on_lines-append : (ls ms : List Str) → on_lines (ls ++ ms) ≡ on_lines ls ++ on_lines ms
on_lines-append [] ms = refl
on_lines-append (l ∷ ls) ms =
    ap (λ t. l ++ crlf ++ t) (on_lines-append ls ms)
    ∙ sym (append_assoc (l ++ crlf) (on_lines ls) (on_lines ms))

layout :
    (a h l close b : Str) (hs ls : List Str)
    → h ≡ on_lines hs
    → l ≡ on_lines ls
    → a ++ crlf ++ h ++ l ++ (close ++ crlf ++ crlf) ++ b
      ≡ on_lines ((a ∷ hs) ++ (ls ++ close ∷ [])) ++ (crlf ++ b)
layout a h l close b hs ls e k =
    let split : on_lines (hs ++ (ls ++ close ∷ [])) ≡ h ++ (l ++ (close ++ crlf)) =
      on_lines-append hs (ls ++ close ∷ [])
      ∙ ap (λ t. on_lines hs ++ t) (on_lines-append ls (close ∷ []))
      ∙ rw (e, k) (ap (λ t. on_lines hs ++ (on_lines ls ++ t)) (append-nil (close ++ crlf))) in
    rw split (simp append_assoc)

-- Digits are no line ends.
digits-IsLine : (s : Str) → All IsDigit s → IsLine s
digits-IsLine [] h = tt
digits-IsLine (d ∷ s) h = ((λ e. omega (arith, h.0, e)), digits-IsLine s h.1)

module _ (x : HttpCrate) (r : Response) where
  -- The lines of the head of a response.
  abbrev pub status_line : Str
  status_line =
      codes "HTTP/1.1 "
      ++ show_uint r.status
      ++ codes " "
      ++ unwrap_or (x.canonical_reason r.status) []

  abbrev pub header_line : HeaderName × Str → Str
  header_line (name, value) = as_str name ++ codes ": " ++ value

  abbrev pub length_lines : List Str
  length_lines =
      if r.status == no_content
      then []
      else (codes "content-length: " ++ show_uint (length (as_bytes (body_of x r)))) ∷ []

  abbrev pub head_lines : List Str
  head_lines =
      (status_line ∷ map header_line (x.entries r.edits))
      ++ (length_lines ++ codes "connection: close" ∷ [])

  header_lines-on_lines :
      (entries : List (HeaderName × Str))
      → header_lines x r entries ≡ on_lines (map header_line entries)
  header_lines-on_lines [] = refl
  header_lines-on_lines ((name, value) ∷ rest) =
      ap (λ t. as_str name ++ codes ": " ++ value ++ crlf ++ t) (header_lines-on_lines rest)

  length_line-on_lines : length_line x r ≡ on_lines length_lines
  length_line-on_lines = elim (Bool-cases (r.status == no_content)) [
    | inl without ↦ rw without refl
    | inr with_length ↦ rw with_length (sym (append-nil _))
  ]

  abbrev written_body : Bool → Str
  written_body include_body = if include_body then body_of x r else []

  write_response_text :
      (include_body : Bool)
      → write_response x r include_body
        ≡ as_bytes (on_lines head_lines ++ (crlf ++ written_body include_body))
  unfolding write_response
  write_response_text include_body = ap as_bytes (
      layout status_line (header_lines x r (x.entries r.edits)) (length_line x r)
        (codes "connection: close") (written_body include_body)
        (map header_line (x.entries r.edits)) length_lines
        (header_lines-on_lines (x.entries r.edits)) length_line-on_lines)

  -- What a header of the response may be, and the reason of its status.
  pub record IsClean : Type 0 where
    pub reason : IsLine (unwrap_or (x.canonical_reason r.status) [])
    pub values : All (λ (entry : HeaderName × Str). IsLine entry.1) (x.entries r.edits)

  as_str-IsFull : (name : HeaderName) → IsFull (as_str name)
  as_str-IsFull authorization = ground arith
  as_str-IsFull www_authenticate = ground arith
  as_str-IsFull user_agent = ground arith
  as_str-IsFull upgrade = ground arith
  as_str-IsFull transfer_encoding = ground arith
  as_str-IsFull content_length = ground arith
  as_str-IsFull content_type = ground arith
  as_str-IsFull cache_control = ground arith
  as_str-IsFull pragma = ground arith
  as_str-IsFull allow = ground arith

  append-IsFull : (s t : Str) → IsFull s → IsLine t → IsFull (s ++ t)
  append-IsFull [] t (line, full) h = absurd (full refl)
  append-IsFull (ch ∷ s) t (line, full) h = (All-append _ (ch ∷ s) t line h, λ e. cc)

  header_lines-IsFull :
      (entries : List (HeaderName × Str))
      → All (λ (entry : HeaderName × Str). IsLine entry.1) entries
      → All IsFull (map header_line entries)
  header_lines-IsFull [] h = tt
  header_lines-IsFull ((name, value) ∷ rest) (clean, h) = (
    append-IsFull (as_str name ++ codes ": ") value
        (append-IsFull (as_str name) (codes ": ") (as_str-IsFull name) (ground arith)) clean,
    header_lines-IsFull rest h,
  )

  length_lines-IsFull : All IsFull length_lines
  length_lines-IsFull = elim (Bool-cases (r.status == no_content)) [
    | inl without ↦ rw without tt
    | inr with_length ↦ rw with_length (
      append-IsFull (codes "content-length: ") (show_uint (length (as_bytes (body_of x r))))
          (ground arith) (digits-IsLine _ (show_uint-All-IsDigit _)),
      tt,
    )
  ]

  status_line-IsFull : IsClean → IsFull status_line
  status_line-IsFull clean =
      append-IsFull (codes "HTTP/1.1 " ++ show_uint r.status ++ codes " ") _
        (append-IsFull (codes "HTTP/1.1 " ++ show_uint r.status) (codes " ")
          (append-IsFull (codes "HTTP/1.1 ") (show_uint r.status) (ground arith)
            (digits-IsLine _ (show_uint-All-IsDigit r.status)))
          (ground arith))
        clean.reason

  -- A client that reads a response line by line up to the empty line finds the status line, one
  -- line for each header, the length of the body in bytes, but for a 204 response, and that the
  -- connection is closed; and behind them the body, which is as long as that says, or nothing
  -- if it is to be left out; provided that there is no carriage return in the headers' values and
  -- the reason of the status, which the crate rules out.
  pub read_head-write_response :
      (include_body : Bool)
      → IsClean
      → read_head [] (write_response x r include_body)
        ≡ some (map as_bytes head_lines, as_bytes (if include_body then body_of x r else []))
  read_head-write_response include_body clean =
      ap (read_head []) (write_response_text include_body)
      ∙ read_head-on_lines head_lines (written_body include_body) (
          All-append IsFull (status_line ∷ map header_line (x.entries r.edits)) _
            (status_line-IsFull clean, header_lines-IsFull (x.entries r.edits) clean.values)
            (All-append IsFull length_lines _ length_lines-IsFull (ground arith, tt)))
