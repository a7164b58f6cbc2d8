-- ===== src/ClientAddr/Tests.antt =====
-- Runs of src/client_addr.rs with addresses written as one number, and the theorems there.
use mathlib.Core.Option
use ws2tcp_router.Prelude.{
  ◌+◌, ◌≡◌, ◌↔◌, refl, arith, true, false, none, some, List, [], ◌∷◌, ok, inl, inr, Option-cases,
}
use ws2tcp_router.Text.{
  is_whitespace, Str, Bytes, codes, trim, split, split_once, strip_prefix, eq_ignore_ascii_case,
}
use ws2tcp_router.Encoding.{from_utf8}
use ws2tcp_router.Number.{parse_uint, show_uint}
use ws2tcp_router.Number.RoundTrip.{parse_uint-le}
use ws2tcp_router.ClientAddr.{
  IpAddr, v4, v6, SocketAddr, IpRange, Parsers, TrustedProxies, bit_and, mask, contains, is_trusted,
  from_str, parse_forwarded_address, search, select_client, forwarded_entries, forwarded_client,
  client_addr, max_headers,
}
use ws2tcp_router.ClientAddr.Ranges.{IsIp, IsRange, SameNetwork, contains_iff}
use ws2tcp_router.ClientAddr.Selection.{
  IsSelected, select_client-IsSelected, client_addr-forged, client_addr-forwarded,
}
use ws2tcp_router.ClientAddr.Printing.{
  Printers, show_range, show_proxies, show_client, IsPrinted, from_str-show_range,
}

-- The head is the value of one header.
abbrev parsers : Parsers
parsers = record {
  parse_ip = λ s. Option.map v4 (parse_uint 4294967295 s);
  parse_socket = λ s. none;
  parse_headers = λ n head. some ((codes "X-Forwarded-For", head) ∷ []);
}

-- 10.0.0.0/8
abbrev private : IpRange
private = record { addr = v4 167772160; prefix = 8 }

abbrev proxies : TrustedProxies
proxies = record { ranges = private ∷ [] }

abbrev proxy : SocketAddr
proxy = record { ip = v4 167772161; port = 80 }

running : Unit {0}
unfolding trim split split_once strip_prefix eq_ignore_ascii_case from_utf8 parse_uint bit_and mask
    contains from_str parse_forwarded_address search select_client forwarded_entries
    forwarded_client client_addr
running = tt

select_runs :
    (select_client parsers proxies (codes "1" ∷ codes "2" ∷ codes "167772162" ∷ []) ≡ some (v4 2))
    × (select_client parsers proxies (codes "x" ∷ codes "167772162" ∷ []) ≡ none)
    × (select_client parsers proxies (codes "167772163" ∷ codes "167772162" ∷ [])
        ≡ some (v4 167772163))
    × (select_client parsers proxies [] ≡ none)
unfolding running
select_runs = (refl, refl, refl, refl)

client_run :
    ((client_addr parsers proxies proxy (codes "1, 2 ,167772162")).forwarded ≡ some (v4 2))
    × ((client_addr parsers proxies (record { ip = v4 5; port = 80 }) (codes "1")).forwarded ≡ none)
unfolding running
client_run = (refl, refl)

range_runs :
    (from_str parsers (codes "167772160/8") ≡ ok private)
    × (contains private (v6 (281470681743360 + 167772165)) ≡ true)
    × (contains private (v4 5) ≡ false)
    × (contains (record { addr = v4 0; prefix = 0 }) (v4 5) ≡ true)
unfolding running
range_runs = (refl, refl, refl, refl)

private-IsRange : IsRange private
private-IsRange = record { addr = omega arith; prefix = omega arith }

contains_iff_example : (contains private (v4 167772165) ≡ true) ↔ SameNetwork private (v4 167772165)
contains_iff_example = contains_iff private (v4 167772165) private-IsRange (omega arith)

parsed-IsIp : (s : Str) (ip : IpAddr) → parsers.parse_ip s ≡ some ip → IsIp ip
parsed-IsIp s ip e = elim (Option-cases (parse_uint 4294967295 s)) [
  | inl bad ↦ absurd (ground arith)
  | inr (n, parsed) ↦
      let same : v4 n ≡ ip = ground arith in
      rw (← same) (omega (arith, parse_uint-le 4294967295 s n parsed))
]

abbrev printers : Printers
printers = record { show_ip = decimal; show_socket = λ a. decimal a.ip }
  where
    decimal : IpAddr → Str
    decimal (v4 n) = show_uint n
    decimal (v6 n) = codes "::"

shown_runs :
    (show_range printers private ≡ codes "167772160/8")
    × (show_proxies printers (private ∷ private ∷ []) ≡ codes "167772160/8, 167772160/8")
    × (show_proxies printers [] ≡ codes "none")
    × (show_client printers (record { peer = proxy; forwarded = some (v4 7) }) ≡ codes "7")
unfolding show_range show_proxies show_client show_uint
shown_runs = (refl, refl, refl, refl)

private-IsPrinted : IsPrinted parsers printers (v4 167772160)
unfolding show_uint parse_uint is_whitespace
private-IsPrinted = record { read_back = refl; no_slash = ground arith; no_space = ground arith }

from_str-show_range_example : from_str parsers (show_range printers private) ≡ ok private
from_str-show_range_example =
    from_str-show_range parsers printers private private-IsRange refl private-IsPrinted

select_client-IsSelected_example :
    IsSelected parsers proxies
      (codes "1" ∷ codes "167772162" ∷ [])
      (select_client parsers proxies (codes "1" ∷ codes "167772162" ∷ []))
select_client-IsSelected_example =
    select_client-IsSelected parsers proxies (codes "1" ∷ codes "167772162" ∷ [])

-- A head is one line, and a semicolon is the end of a line that is put in front.
abbrev lined : Parsers
lined = record parsers {
  parse_headers = λ n head. elim (split_once b';' head) [
    | none ↦ some ((codes "X-Forwarded-For", head) ∷ [])
    | some (a, b) ↦ some ((codes "x-forwarded-for", a) ∷ (codes "X-Forwarded-For", b) ∷ [])
  ];
}

abbrev line : List (Str × Bytes)
line = (codes "X-Forwarded-For", codes "2,167772162") ∷ []

abbrev forged : List (Str × Bytes)
forged = (codes "x-forwarded-for", codes "9") ∷ []

client_addr-forged_example :
    client_addr lined proxies proxy (codes "9;2,167772162")
    ≡ client_addr lined proxies proxy (codes "2,167772162")
unfolding running
client_addr-forged_example =
    client_addr-forged lined proxies proxy (codes "2,167772162") (codes "9;2,167772162") forged line
      [] (codes "167772162" ∷ []) (codes "2") (some (v4 2)) refl refl refl (refl, refl)
      ((v4 167772162, refl, refl), tt)

client_addr-forwarded_example :
    (is_trusted proxies (v4 167772161) ≡ true)
    × (headers : List (Str × Bytes)) × (parsers.parse_headers max_headers (codes "1, 2 ,167772162")
        ≡ some headers)
    × IsSelected parsers proxies (forwarded_entries parsers proxies headers) (some (v4 2))
client_addr-forwarded_example =
    client_addr-forwarded parsers proxies proxy (codes "1, 2 ,167772162") (v4 2) client_run.0
