-- ===== src/Target.antt =====
-- src/target.rs: the upstream that a request path names.
pub mod Laws
pub mod Paths
mod Tests
use ws2tcp_router.Prelude.{
  ℕ, Bool, none, some, [], ◌∷◌, ◌++◌, Result, ok, err, ◌>>=◌, ok_or, bail_if,
}
use ws2tcp_router.Text.{Str, codes, strip_prefix, contains, is_empty, split_once_str, rsplit_once}
use ws2tcp_router.Number.{u16_max, parse_uint, show_uint}

pub data Protocol : Type 0 where
  tcp udp : Protocol

pub record Target : Type 0 where
  pub protocol : Protocol
  pub host : Str
  pub port : ℕ

-- The messages of `bail!` and `anyhow!`; of `with_context`, the context.
pub data TargetError : Type 0 where
  unknown_prefix bad_bracket_format empty_host bad_format missing_brackets : TargetError
  bad_port : Str → TargetError

-- `format!("{}:{}", self.host, self.port)`
unfoldable pub addr : Target → Str
addr t = t.host ++ (b':' ∷ show_uint t.port)

-- host and port of `[host]:port`, behind the bracket
bracketed : Str → Result TargetError (Str × Str)
bracketed rest = do
  (host, port) ← ok_or (split_once_str (codes "]:") rest) bad_bracket_format
  bail_if (is_empty host) empty_host (ok (b'[' ∷ (host ++ b']' ∷ []), port))

-- host and port of `host:port`
plain : Str → Result TargetError (Str × Str)
plain target = do
  (host, port) ← ok_or (rsplit_once b':' target) bad_format
  bail_if (contains b':' host) missing_brackets (ok (host, port))

host_and_port : Str → Result TargetError (Str × Str)
unfolding bracketed plain
host_and_port target = elim (strip_prefix (codes "[") target) [
  | some rest ↦ bracketed rest
  | none ↦ plain target
]

check_port : Str × Str → Result TargetError (Str × ℕ)
check_port (host, port) =
    bail_if (is_empty host) empty_host
      (ok_or (parse_uint u16_max port) (bad_port port) >>= λ n. ok (host, n))

unfoldable pub parse_host_port : Str → Result TargetError (Str × ℕ)
unfolding host_and_port check_port
parse_host_port target = host_and_port target >>= check_port

abbrev pub with_protocol : Protocol → Str × ℕ → Result TargetError Target
with_protocol p (host, port) = ok (record { protocol = p; host = host; port = port })

unfoldable pub parse_target : Str → Result TargetError Target
parse_target path = elim (strip_prefix (codes "/tcp:") path) [
  | some target ↦ parse_host_port target >>= with_protocol tcp
  | none ↦ elim (strip_prefix (codes "/udp:") path) [
    | some target ↦ parse_host_port target >>= with_protocol udp
    | none ↦ err unknown_prefix
  ]
]

unfoldable pub parse_target_addr : Str → Result TargetError Target
parse_target_addr target = parse_host_port target >>= with_protocol tcp
