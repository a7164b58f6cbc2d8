-- ===== src/Target/Paths.antt =====
-- `parse_target` and `parse_target_addr` against the print of a target.
use ws2tcp_router.Prelude.{
  ℕ, ◌≤◌, ◌≡◌, refl, some, ◌++◌, arith, ok, err, Result, ◌>>=◌, Option-cases, inl, inr,
}
use ws2tcp_router.Text.{Str, codes, strip_prefix}
use ws2tcp_router.Text.Laws.{strip_prefix-eq-some}
use ws2tcp_router.Number.{u16_max}
use ws2tcp_router.Target.{
  Protocol, tcp, udp, Target, TargetError, addr, parse_host_port, parse_target, parse_target_addr,
  with_protocol,
}
use ws2tcp_router.Target.Laws.{IsHost, parse_host_port_sound, parse_host_port_complete}

-- The prefix of a request path for each protocol, and the path that names a target.
abbrev pub scheme : Protocol → Str
scheme tcp = codes "/tcp:"
scheme udp = codes "/udp:"

abbrev pub target_path : Target → Str
target_path t = scheme t.protocol ++ addr t

pub record IsTarget (t : Target) : Type 0 where
  pub host : IsHost t.host
  pub port : t.port ≤ u16_max

parse_addr : (t : Target) → IsTarget t → parse_host_port (addr t) ≡ ok (t.host, t.port)
unfolding addr
parse_addr t h = parse_host_port_complete t.host t.port h.host h.port

-- Both directions of the test on the path's prefix.
pub parse_target-scheme :
    (p : Protocol) (rest : Str)
    → parse_target (scheme p ++ rest) ≡ (parse_host_port rest >>= with_protocol p)
unfolding parse_target strip_prefix
parse_target-scheme tcp rest = refl
parse_target-scheme udp rest = refl

with_protocol-inv :
    (p : Protocol) (r : Result TargetError (Str × ℕ)) {t : Target}
    → (r >>= with_protocol p) ≡ ok t
    → (r ≡ ok (t.host, t.port)) × (t.protocol ≡ p)
with_protocol-inv p (ok (h, n)) e = ground arith
with_protocol-inv p (err x) e = ground arith

IsTarget-of_parse :
    (rest : Str) {t : Target} → parse_host_port rest ≡ ok (t.host, t.port) → IsTarget t
IsTarget-of_parse rest {t} e =
    let (host, port) = parse_host_port_sound rest t.host t.port e in
    record { host = host; port = port }

scheme_parts :
    (p : Protocol) (path rest : Str) {t : Target}
    → strip_prefix (scheme p) path ≡ some rest
    → (parse_host_port rest >>= with_protocol p) ≡ ok t
    → IsTarget t
      × (rest : Str) × (path ≡ scheme t.protocol ++ rest)
      × (parse_host_port rest ≡ ok (t.host, t.port))
scheme_parts p path rest {t} found e =
    let (parsed, same) = with_protocol-inv p (parse_host_port rest) {t = t} e in
    (
      IsTarget-of_parse rest {t = t} parsed,
      rest,
      rw same (strip_prefix-eq-some (scheme p) path found),
      parsed,
    )

-- An accepted path is the prefix of the target's protocol and a text that `parse_host_port` reads
-- as the target's host and port; the host is well formed and the port fits 16 bits.
pub parse_target_sound :
    (path : Str) (t : Target)
    → parse_target path ≡ ok t
    → IsTarget t
      × (rest : Str) × (path ≡ scheme t.protocol ++ rest)
      × (parse_host_port rest ≡ ok (t.host, t.port))
unfolding parse_target
parse_target_sound path t e = elim (Option-cases (strip_prefix (codes "/tcp:") path)) [
  | inl no_tcp ↦ elim (Option-cases (strip_prefix (codes "/udp:") path)) [
    | inl no_udp ↦ absurd (ground arith)
    | inr (rest, found) ↦ scheme_parts udp path rest {t = t} found (ground arith)
  ]
  | inr (rest, found) ↦ scheme_parts tcp path rest {t = t} found (ground arith)
]

-- A target with a well-formed host and a port of 16 bits is read from the path that names it.
pub parse_target-target_path : (t : Target) → IsTarget t → parse_target (target_path t) ≡ ok t
parse_target-target_path t h = rw parse_target-scheme (rw (parse_addr t h))

-- Normalising an entry of the anonymous allowlist a second time changes nothing: the address of
-- a parsed target is parsed as the same target.
pub parse_target_addr-addr :
    (s : Str) (t : Target) → parse_target_addr s ≡ ok t → parse_target_addr (addr t) ≡ ok t
unfolding parse_target_addr
parse_target_addr-addr s t e =
    let (parsed, same) = with_protocol-inv tcp (parse_host_port s) {t = t} e in
    rw (parse_addr t (IsTarget-of_parse s {t = t} parsed)) (cc same)
