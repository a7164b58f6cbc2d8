-- ===== src/ClientAddr/Printing.antt =====
-- How src/client_addr.rs prints what it has read: `Display` of `IpRange`, `TrustedProxies` and
-- `ClientAddr`. How the standard library prints addresses is a parameter (`Printers`).
use ws2tcp_router.Prelude.{
  ℕ, ◌≤◌, ◌≡◌, ◌∙◌, refl, ap, arith, true, not, Option, none, some, List, [], ◌∷◌, ◌++◌, ok, err,
  bail_if, All, leb, leb_iff, if◌then◌else◌, ==_iff,
}
use ws2tcp_router.Text.{Str, codes, trim, split_once, is_whitespace}
use ws2tcp_router.Text.Laws.{Lacks, split_once-append, IsDense, trim-IsDense}
use ws2tcp_router.Number.{u8_max, show_uint}
use ws2tcp_router.Number.RoundTrip.{IsDigit, show_uint-All-IsDigit, parse_uint-show_uint}
use ws2tcp_router.ClientAddr.{
  IpAddr, v4, v6, SocketAddr, IpRange, Parsers, ClientAddr, to_canonical, ip_eq, is_ipv4, from_str,
  range_prefix, mapped_address, no_range,
}
use ws2tcp_router.ClientAddr.Ranges.{IsRange, bits}

-- `Display` of `IpAddr` and of `SocketAddr`.
pub record Printers : Type 0 where
  pub show_ip : IpAddr → Str
  pub show_socket : SocketAddr → Str

module _ (x : Printers) where
  -- `Display` of `IpRange`
  unfoldable pub show_range : IpRange → Str
  show_range r = x.show_ip r.addr ++ (b'/' ∷ show_uint r.prefix)

  -- the ranges behind the first one
  abbrev show_rest : List IpRange → Str
  show_rest [] = []
  show_rest (r ∷ rest) = codes ", " ++ show_range r ++ show_rest rest

  -- `Display` of `TrustedProxies`
  unfoldable pub show_proxies : List IpRange → Str
  unfolding show_range
  show_proxies [] = codes "none"
  show_proxies (r ∷ rest) = show_range r ++ show_rest rest

  -- `Display` of `ClientAddr`
  unfoldable pub show_client : ClientAddr → Str
  show_client a = elim a.forwarded [ some ip ↦ x.show_ip ip | none ↦ x.show_socket a.peer ]

digits-IsDense : (s : Str) → All IsDigit s → IsDense s
unfolding is_whitespace
digits-IsDense [] h = tt
digits-IsDense (d ∷ s) ((low, high), h) = (ground arith, digits-IsDense s h)

ip_eq_refl : (ip : IpAddr) → ip_eq ip ip ≡ true
ip_eq_refl (v4 n) = (==_iff n n).1 refl
ip_eq_refl (v6 n) = (==_iff n n).1 refl

bits_u8 : (ip : IpAddr) → (if is_ipv4 ip then 32 else 128) ≡ bits ip
bits_u8 (v4 n) = refl
bits_u8 (v6 n) = refl

bits-le : (ip : IpAddr) → bits ip ≤ u8_max
bits-le (v4 n) = omega arith
bits-le (v6 n) = omega arith

module _ (p : Parsers) (x : Printers) where
  -- The address is printed without a slash and spaces, and read back.
  pub record IsPrinted (ip : IpAddr) : Type 0 where
    pub read_back : p.parse_ip (x.show_ip ip) ≡ some ip
    pub no_slash : Lacks b'/' (x.show_ip ip)
    pub no_space : IsDense (x.show_ip ip)

  range_prefix-show_uint :
      (most n : ℕ) → n ≤ most → most ≤ u8_max → range_prefix p most (some (show_uint n)) ≡ ok n
  unfolding range_prefix
  range_prefix-show_uint most n h fits =
      let small : leb n most ≡ true = (leb_iff n most).1 h in
      rw
        (
          range_prefix,
          trim-IsDense (show_uint n) (digits-IsDense _ (show_uint-All-IsDigit n)),
          parse_uint-show_uint u8_max n (omega (arith, h, fits)),
          small,
        )
        refl

  from_str-parts :
      (input text digits : Str) (ip : IpAddr) (n : ℕ)
      → split_once b'/' input ≡ some (text, digits)
      → p.parse_ip (trim text) ≡ some ip
      → to_canonical ip ≡ ip
      → range_prefix p (if is_ipv4 ip then 32 else 128) (some digits) ≡ ok n
      → from_str p input ≡ ok (record { addr = ip; prefix = n })
  unfolding from_str
  from_str-parts input text digits ip n parts back canonical prefix =
      ap
        (λ (o : Option (Str × Str)).
          let (addr, after) : Str × Option Str = elim o [
            | some (addr, prefix) ↦ (addr, some prefix)
            | none ↦ (input, none)
          ] in
          elim (p.parse_ip (trim addr)) [
            | none ↦ err no_range
            | some ip ↦
                bail_if (not (ip_eq (to_canonical ip) ip)) mapped_address
                  (elim (range_prefix p (if is_ipv4 ip then 32 else 128) after) [
                    | ok n ↦ ok (record { addr = ip; prefix = n })
                    | err e ↦ err e
                  ])
          ])
        parts
      ∙ rw (back, canonical, ip_eq_refl ip, prefix) refl

  -- A range is read back as it is printed, if its address is canonical, its prefix has no more
  -- bits than the address, and the address itself is printed without slashes and spaces and read
  -- back.
  pub from_str-show_range :
      (r : IpRange)
      → IsRange r
      → to_canonical r.addr ≡ r.addr
      → IsPrinted r.addr
      → from_str p (show_range x r) ≡ ok r
  unfolding show_range
  from_str-show_range r valid canonical printed =
      let dense = trim-IsDense (x.show_ip r.addr) printed.no_space in
      from_str-parts (show_range x r) (x.show_ip r.addr) (show_uint r.prefix) r.addr r.prefix
        (split_once-append b'/' (x.show_ip r.addr) (show_uint r.prefix) printed.no_slash)
        (rw dense printed.read_back) canonical
        (range_prefix-show_uint _ r.prefix (rw (bits_u8 r.addr) valid.prefix)
          (rw (bits_u8 r.addr) (bits-le r.addr)))
