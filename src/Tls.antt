-- ===== src/Tls.antt =====
-- src/tls.rs: where the certificate of the TLS listener comes from. What the crates `rustls`,
-- `rcgen` and `local_ip_address` do, and the file system, are the record TlsCrates; their
-- certificates and keys are bytes, and their server configuration is any type `C`.
pub mod Addresses
pub mod Certificates
pub mod Toy
mod Tests
use ws2tcp_router.Prelude.{
  ℕ, ◌+◌, ◌*◌, Bool, true, false, not, Option, none, some, List, [], ◌∷◌, map, Result, ok, err,
  ◌>>=◌, ok_or, bail_if, ltb, ◌==◌, if◌then◌else◌,
}
use ws2tcp_router.Text.{Str, Bytes, codes, is_empty}
use ws2tcp_router.ClientAddr.{IpAddr, v4, v6}
use ws2tcp_router.Args.{Args, FilePath}

-- What the sources set of the crate's `CertificateParams`; the times are seconds.
pub record CertificateParams : Type 0 where
  pub subject_alt_names : List Str
  pub not_before : ℕ
  pub not_after : ℕ
  pub common_name : Str

-- `list_afinet_netifas`, `to_string` of an address, `CertificateParams::new` (whether it takes the
-- names), `OffsetDateTime::now_utc`, `KeyPair::generate`, `self_signed`, `File::open` with what is
-- read of it, `rustls_pemfile::certs` and `private_key`, and `with_single_cert`; `none` is an
-- error.
pub record TlsCrates (C : Type 0) : Type 0 where
  pub list_afinet_netifas : Option (List (Str × IpAddr))
  pub show_ip : IpAddr → Str
  pub takes_names : List Str → Bool
  pub now_utc : ℕ
  pub generate : Option Bytes
  pub self_signed : CertificateParams → Bytes → Option Bytes
  pub open_file : FilePath → Option Bytes
  pub certs : Bytes → Option (List Bytes)
  pub private_key : Bytes → Option (Option Bytes)
  pub with_single_cert : List Bytes → Bytes → Option C

pub data TlsError : Type 0 where
  no_interfaces bad_names no_key_pair not_signed bad_config : TlsError
  not_opened not_read no_certificates no_private_key : FilePath → TlsError

-- `Ord` of `IpAddr`, and `insert` of a `BTreeSet`, which is the list of its elements in order
abbrev pub ip_lt : IpAddr → IpAddr → Bool
ip_lt (v4 a) (v4 b) = ltb a b
ip_lt (v4 a) (v6 b) = true
ip_lt (v6 a) (v4 b) = false
ip_lt (v6 a) (v6 b) = ltb a b

unfoldable pub insert : IpAddr → List IpAddr → List IpAddr
insert ip [] = ip ∷ []
insert ip (x ∷ xs) =
    let rest = insert ip xs in
    if ip_lt ip x then ip ∷ x ∷ xs else if ip_lt x ip then x ∷ rest else x ∷ xs

-- `Ipv4Addr::LOCALHOST` and `Ipv6Addr::LOCALHOST`
abbrev pub localhost_v4 : IpAddr
localhost_v4 = v4 0x7f000001

abbrev pub localhost_v6 : IpAddr
localhost_v6 = v6 1

-- the loop over the interfaces
abbrev insert_all : List (Str × IpAddr) → List IpAddr → List IpAddr
insert_all [] ips = ips
insert_all ((name, ip) ∷ rest) ips = insert_all rest (insert ip ips)

-- `Duration::days(365 * 10)`
abbrev pub ten_years : ℕ
ten_years = 365 * 10 * 24 * 60 * 60

module _ {C : Type 0} (x : TlsCrates C) where
  unfoldable pub server_ip_addresses : Result TlsError (List IpAddr)
  unfolding insert
  server_ip_addresses = ok_or x.list_afinet_netifas no_interfaces >>= λ interfaces.
      ok (insert localhost_v6 (insert localhost_v4 (insert_all interfaces [])))

  abbrev pub params_of : List IpAddr → CertificateParams
  params_of ips = record {
    subject_alt_names = map x.show_ip ips;
    not_before = x.now_utc;
    not_after = x.now_utc + ten_years;
    common_name = codes "ws2tcp-router self-signed";
  }

  -- certificates and key
  unfoldable pub generate_self_signed_cert : Result TlsError (List Bytes × Bytes)
  unfolding server_ip_addresses
  generate_self_signed_cert = server_ip_addresses >>= λ ips.
      bail_if (not (x.takes_names (map x.show_ip ips))) bad_names (
        ok_or x.generate no_key_pair >>= λ key.
        ok_or (x.self_signed (params_of ips) key) not_signed >>= λ cert. ok (cert ∷ [], key))

  unfoldable pub load_certs : FilePath → Result TlsError (List Bytes)
  load_certs path = ok_or (x.open_file path) (not_opened path) >>= λ file.
      ok_or (x.certs file) (not_read path) >>= λ found.
      bail_if (is_empty found) (no_certificates path) (ok found)

  unfoldable pub load_private_key : FilePath → Result TlsError Bytes
  load_private_key path = ok_or (x.open_file path) (not_opened path) >>= λ file.
      ok_or (x.private_key file) (not_read path) >>= λ found. ok_or found (no_private_key path)

  abbrev build_server_config : List Bytes × Bytes → Result TlsError C
  build_server_config (found, key) = ok_or (x.with_single_cert found key) bad_config

  -- a configuration of the two files, if both are named
  abbrev from_files : Option FilePath → Option FilePath → Result TlsError (Option C)
  from_files (some cert) (some key) = load_certs cert >>= λ found.
      load_private_key key >>= λ loaded.
      build_server_config (found, loaded) >>= λ config. ok (some config)
  from_files _ _ = ok none

  unfoldable pub build_tls_config : Args → Result TlsError (Option C)
  unfolding generate_self_signed_cert load_certs load_private_key
  build_tls_config args =
      if args.auto_self_signed_cert
      then (generate_self_signed_cert >>= λ made.
          build_server_config made >>= λ config. ok (some config))
      else from_files args.tls_cert args.tls_key
