-- ===== src/ClientAddr.antt =====
-- src/client_addr.rs: where a connection really came from. An address is its number. That the
-- standard library parses addresses, and how the crate `httparse` splits a request head into
-- headers, are parameters (`Parsers`).
pub mod Ranges
pub mod Selection
pub mod Reading
pub mod Printing
mod Tests
use mathlib.Core.List.{reverse}
use ws2tcp_router.Prelude.{
  ℕ, zero, suc, ◌+◌, ◌-◌, ◌*◌, ◌/◌, ◌%◌, ◌^◌, Bool, true, false, not, Option, none, some, List, [],
  ◌∷◌, map, Result, ok, err, ok_or, bail_if, unwrap_or, or_else, any, filter, filter_map, flat_map,
  ◌||◌, ltb, leb, ◌==◌, if◌then◌else◌,
}
use ws2tcp_router.Prelude.Maybe.{◌>>=◌, ◌>>◌, guard}
use ws2tcp_router.Text.{
  Str, Bytes, codes, is_empty, trim, split, split_once, strip_prefix, strip_suffix,
  eq_ignore_ascii_case,
}
use ws2tcp_router.Encoding.{from_utf8}
use ws2tcp_router.Number.{u8_max, parse_uint}

-- `IpAddr` and `SocketAddr` of the standard library.
pub data IpAddr : Type 0 where
  v4 v6 : ℕ → IpAddr

pub record SocketAddr : Type 0 where
  pub ip : IpAddr
  pub port : ℕ

-- `IpAddr::to_canonical`: an IPv4-mapped IPv6 address, `::ffff:0:0/96`, is the IPv4 address.
abbrev pub to_canonical : IpAddr → IpAddr
to_canonical (v4 n) = v4 n
to_canonical (v6 n) = if n / 2 ^ 32 == 0xffff then v4 (n % 2 ^ 32) else v6 n

abbrev pub ip_eq : IpAddr → IpAddr → Bool
ip_eq (v4 a) (v4 b) = a == b
ip_eq (v6 a) (v6 b) = a == b
ip_eq _ _ = false

abbrev pub is_ipv4 : IpAddr → Bool
is_ipv4 (v4 n) = true
is_ipv4 (v6 n) = false

-- `&` of two numbers of `w` bits
unfoldable pub bit_and : ℕ → ℕ → ℕ → ℕ
bit_and zero a b = 0
bit_and (suc w) a b = (a % 2) * (b % 2) + 2 * bit_and w (a / 2) (b / 2)

-- `MAX.checked_shl(w - prefix).unwrap_or(0)` of an unsigned integer with `w` bits
unfoldable pub mask : ℕ → ℕ → ℕ
mask w prefix = let shift = w - prefix in if ltb shift w then (2 ^ w - 1) * 2 ^ shift % 2 ^ w else 0

pub record IpRange : Type 0 where
  pub addr : IpAddr
  pub prefix : ℕ

-- both numbers under the mask
abbrev masked_eq : ℕ → ℕ → ℕ → ℕ → Bool
masked_eq w prefix network ip = bit_and w network (mask w prefix) == bit_and w ip (mask w prefix)

contains_canonical : IpRange → IpAddr → Bool
contains_canonical r (v4 ip) = elim r.addr [
  | v4 network ↦ masked_eq 32 r.prefix network ip
  | v6 network ↦ false
]
contains_canonical r (v6 ip) = elim r.addr [
  | v4 network ↦ false
  | v6 network ↦ masked_eq 128 r.prefix network ip
]

-- `IpRange::contains`
unfoldable pub contains : IpRange → IpAddr → Bool
unfolding contains_canonical
contains r ip = contains_canonical r (to_canonical ip)

abbrev pub max_headers : ℕ
max_headers = 64

abbrev forwarded_for : Str
forwarded_for = codes "x-forwarded-for"

-- `str::parse` of `IpAddr` and of `SocketAddr`; and of `httparse`, the names and values of the
-- headers of a complete request head, `none` for any other.
pub record Parsers : Type 0 where
  pub parse_ip : Str → Option IpAddr
  pub parse_socket : Str → Option SocketAddr
  pub parse_headers : ℕ → Bytes → Option (List (Str × Bytes))

pub data RangeError : Type 0 where
  no_range mapped_address bad_prefix : RangeError

pub record TrustedProxies : Type 0 where
  pub ranges : List IpRange

pub record ClientAddr : Type 0 where
  pub peer : SocketAddr
  pub forwarded : Option IpAddr

-- `TrustedProxies::contains`
abbrev pub is_trusted : TrustedProxies → IpAddr → Bool
is_trusted t ip = any (λ r. contains r ip) t.ranges

module _ (p : Parsers) where
  -- the text before the slash, and the one behind it
  abbrev range_parts : Str → Str × Option Str
  range_parts input = elim (split_once b'/' input) [
    | some (addr, prefix) ↦ (addr, some prefix)
    | none ↦ (input, none)
  ]

  range_prefix : ℕ → Option Str → Result RangeError ℕ
  range_prefix most none = ok most
  range_prefix most (some prefix) =
      ok_or (do n ← parse_uint u8_max (trim prefix); guard (leb n most); some n) bad_prefix

  -- `IpRange::from_str`
  unfoldable pub from_str : Str → Result RangeError IpRange
  unfolding range_prefix
  from_str input =
      let (addr, prefix) = range_parts input in
      elim (p.parse_ip (trim addr)) [
        | none ↦ err no_range
        | some ip ↦
            bail_if (not (ip_eq (to_canonical ip) ip)) mapped_address
              (elim (range_prefix (if is_ipv4 ip then 32 else 128) prefix) [
                | ok n ↦ ok (record { addr = ip; prefix = n })
                | err e ↦ err e
              ])
      ]

  -- an address in brackets
  abbrev bracketed_address : Str → Option IpAddr
  bracketed_address entry = do
    rest ← strip_prefix (codes "[") entry
    inner ← strip_suffix (codes "]") rest
    p.parse_ip inner

  unfoldable pub parse_forwarded_address : Str → Option IpAddr
  parse_forwarded_address entry = do
    ip ←
        or_else (p.parse_ip entry)
          (or_else (p.parse_socket entry >>= λ a. some a.ip) (bracketed_address entry))
    some (to_canonical ip)

  module _ (t : TrustedProxies) where
    -- the loop over the entries, from the last one on; `first` is what is left at its end
    unfoldable pub search : Option IpAddr → List Str → Option IpAddr
    search first [] = first
    search first (entry ∷ rest) = elim (parse_forwarded_address entry) [
      | none ↦ none
      | some ip ↦ if is_trusted t ip then search first rest else some ip
    ]

    abbrev first_address : List Str → Option IpAddr
    first_address [] = none
    first_address (entry ∷ rest) = parse_forwarded_address entry

    unfoldable pub select_client : List Str → Option IpAddr
    unfolding search
    select_client entries = search (first_address entries) (reverse entries)

    -- the entries of all the header lines
    unfoldable pub forwarded_entries : List (Str × Bytes) → List Str
    forwarded_entries headers =
        filter (λ entry. not (is_empty entry))
          (map trim (
            flat_map (split b',') (
              filter_map (λ (h : Str × Bytes). from_utf8 h.1)
                (filter (λ (h : Str × Bytes). eq_ignore_ascii_case h.0 forwarded_for) headers))))

    unfoldable pub forwarded_client : Bytes → Option IpAddr
    unfolding select_client forwarded_entries
    forwarded_client head = do
      headers ← p.parse_headers max_headers head
      select_client (forwarded_entries headers)

    unfoldable pub client_addr : SocketAddr → Bytes → ClientAddr
    unfolding forwarded_client
    client_addr peer head = record {
      peer = peer;
      forwarded = if is_trusted t peer.ip then forwarded_client head else none;
    }
