-- ===== src/ClientAddr/Reading.antt =====
-- What the ranges that src/client_addr.rs reads are.
use ws2tcp_router.Prelude.{
  ℕ, ◌≤◌, ◌≡◌, refl, arith, true, not, Bool-cases, Option, none, some, Option-cases, inl, inr,
  Result, ok, err, bail_if, leb, leb_iff, if◌then◌else◌,
}
use ws2tcp_router.Text.{Str, trim}
use ws2tcp_router.Number.{u8_max, parse_uint}
use ws2tcp_router.ClientAddr.{
  IpAddr, v4, v6, IpRange, Parsers, RangeError, mapped_address, contains, to_canonical, ip_eq,
  is_ipv4, from_str, range_prefix, range_parts,
}
use ws2tcp_router.ClientAddr.Ranges.{IsIp, IsRange, bits, contains_iff}

ip_eq-true : (a b : IpAddr) → ip_eq a b ≡ true → a ≡ b
ip_eq-true (v4 n) (v4 m) e = ground arith
ip_eq-true (v6 n) (v6 m) e = ground arith
ip_eq-true (v4 n) (v6 m) e = absurd (ground arith)
ip_eq-true (v6 n) (v4 m) e = absurd (ground arith)

module _ (p : Parsers) where
  range_prefix-le :
      (most : ℕ) (prefix : Option Str) {n : ℕ} → range_prefix p most prefix ≡ ok n → n ≤ most
  unfolding range_prefix
  range_prefix-le most none e = ground arith
  range_prefix-le most (some prefix) {n} e = elim (Option-cases (parse_uint u8_max (trim prefix))) [
    | inl bad ↦ absurd (ground arith)
    | inr (m, parsed) ↦ elim (Bool-cases (leb m most)) [
      | inl small ↦ ground (arith, parsed, small, leb_iff m most)
      | inr large ↦ absurd (ground arith)
    ]
  ]

  widest : (ip : IpAddr) → (if is_ipv4 ip then 32 else 128) ≡ bits ip
  widest (v4 n) = refl
  widest (v6 n) = refl

  checked :
      (ip : IpAddr) (m : Result RangeError ℕ) {r : IpRange}
      → bail_if
          (not (ip_eq (to_canonical ip) ip))
          mapped_address
          (elim m [ ok n ↦ ok (record { addr = ip; prefix = n }) | err e ↦ err e ])
        ≡ ok r
      → (m ≡ ok r.prefix) × (to_canonical ip ≡ ip) × (r.addr ≡ ip)
  checked ip (err x) e = elim (Bool-cases (ip_eq (to_canonical ip) ip)) [
    | inl same ↦ absurd (ground arith)
    | inr mapped ↦ absurd (ground arith)
  ]
  checked ip (ok n) e = elim (Bool-cases (ip_eq (to_canonical ip) ip)) [
    | inl same ↦ (ground arith, ip_eq-true (to_canonical ip) ip same, ground arith)
    | inr mapped ↦ absurd (ground arith)
  ]

  -- A range that is read has an address in canonical form and a prefix of no more bits than
  -- the address, and holds its own address, provided that the parser of addresses returns
  -- numbers of 32 or 128 bits.
  pub from_str_sound :
      (input : Str) (r : IpRange)
      → ((s : Str) (ip : IpAddr) → p.parse_ip s ≡ some ip → IsIp ip)
      → from_str p input ≡ ok r
      → IsRange r × (to_canonical r.addr ≡ r.addr) × (contains r r.addr ≡ true)
  unfolding from_str
  from_str_sound input r good e =
      let text = trim (range_parts p input).0 in
      elim (Option-cases (p.parse_ip text)) [
        | inl bad ↦ absurd (ground arith)
        | inr (ip, parsed) ↦
            let (prefix, canonical, same) =
              checked ip (range_prefix p (if is_ipv4 ip then 32 else 128) (range_parts p input).1)
                {r = r} (rw (from_str, parsed) at e) in
            let valid : IsRange r = record {
              addr = rw same (good text ip parsed);
              prefix =
                  rw same (rw (← widest ip) (range_prefix-le _ (range_parts p input).1 prefix));
            } in
            let fixed : to_canonical r.addr ≡ r.addr = rw same canonical in
            (
              valid,
              fixed,
              (contains_iff r r.addr valid valid.addr).1
                  (rw fixed (record { kind = refl; agrees = refl })),
            )
      ]
