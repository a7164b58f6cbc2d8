-- ===== src/Tls/Toy.antt =====
-- Concrete crates of TLS, which the runs compute with: a host with two interfaces of one address,
-- and files that hold one certificate or key each.
use ws2tcp_router.Prelude.{some, List, [], ◌∷◌, true}
use ws2tcp_router.Text.{Str, Bytes, codes}
use ws2tcp_router.ClientAddr.{IpAddr, v4}
use ws2tcp_router.Tls.{TlsCrates}

abbrev pub interfaces : List (Str × IpAddr)
interfaces = (codes "eth0", v4 9) ∷ (codes "eth1", v4 9) ∷ (codes "lo", v4 0x7f000001) ∷ []

abbrev pub crates : TlsCrates Bytes
crates = record {
  list_afinet_netifas = some interfaces;
  show_ip = λ ip. [];
  takes_names = λ names. true;
  now_utc = 0;
  generate = some (codes "k");
  self_signed = λ params key. some key;
  open_file = λ path. some path;
  certs = λ file. some (file ∷ []);
  private_key = λ file. some (some file);
  with_single_cert = λ certs key. some key;
}
