-- ===== src/Tls/Certificates.antt =====
-- The certificate and the key that src/tls.rs serves (`build_tls_config`).
use ws2tcp_router.Prelude.{
  ◌≡◌, ◌≢◌, ◌⊎◌, refl, arith, true, false, Bool-cases, Option, none, some, List, [], ◌∷◌, map, ok,
  ok_or, inl, inr, >>=-eq-ok, is_some, ◌&&◌,
}
use ws2tcp_router.Text.{Bytes, is_empty}
use ws2tcp_router.ClientAddr.{IpAddr}
use ws2tcp_router.Args.{Args, FilePath, includes_wss}
use ws2tcp_router.Args.Validation.{IsValid}
use ws2tcp_router.Tls.{
  TlsCrates, TlsError, no_key_pair, not_signed, bad_config, not_opened, not_read, no_private_key,
  server_ip_addresses, params_of, generate_self_signed_cert, load_certs, load_private_key,
  from_files, build_tls_config,
}

ok_or-ok : {A : Type 0} (o : Option A) (e : TlsError) {a : A} → ok_or o e ≡ ok a → o ≡ some a
ok_or-ok none e h = absurd (cc)
ok_or-ok (some a) e h = ground arith

nonempty : (l : List Bytes) → is_empty l ≡ false → l ≢ []
nonempty [] h = absurd (cc)
nonempty (b ∷ l) h = λ e. cc

module _ {C : Type 0} (x : TlsCrates C) where
  -- A certificate that is generated for the addresses of the host, signed by its own key.
  pub record IsGenerated (certs : List Bytes) (key : Bytes) : Type 0 where
    pub ips : List IpAddr
    pub cert : Bytes
    pub addresses : server_ip_addresses x ≡ ok ips
    pub fresh : x.generate ≡ some key
    pub signed : x.self_signed (params_of x ips) key ≡ some cert
    pub alone : certs ≡ cert ∷ []

  -- The certificates of the one file that is named, at least one, and the key of the other.
  pub record IsLoaded (args : Args) (certs : List Bytes) (key : Bytes) : Type 0 where
    pub cert_path : FilePath
    pub key_path : FilePath
    pub cert_file : Bytes
    pub key_file : Bytes
    pub named : (args.tls_cert ≡ some cert_path) × (args.tls_key ≡ some key_path)
    pub opened : (x.open_file cert_path ≡ some cert_file) × (x.open_file key_path ≡ some key_file)
    pub certs_read : x.certs cert_file ≡ some certs
    pub key_read : x.private_key key_file ≡ some (some key)
    pub some_certificate : certs ≢ []

  -- The server configuration of such a certificate and key.
  pub record IsCertified (args : Args) (config : C) : Type 0 where
    pub certs : List Bytes
    pub key : Bytes
    pub accepted : x.with_single_cert certs key ≡ some config
    pub source :
        ((args.auto_self_signed_cert ≡ true) × IsGenerated certs key)
        ⊎ ((args.auto_self_signed_cert ≡ false) × IsLoaded args certs key)

  generate-IsGenerated :
      (certs : List Bytes) (key : Bytes)
      → generate_self_signed_cert x ≡ ok (certs, key)
      → IsGenerated certs key
  unfolding generate_self_signed_cert
  generate-IsGenerated certs key h =
      let (ips, addresses, h1) = >>=-eq-ok (server_ip_addresses x) _ h in
      elim (Bool-cases (x.takes_names (map x.show_ip ips))) [
        | inr refused ↦ absurd (let g = rw refused at h1 in cc)
        | inl taken ↦
            let (fresh_key, fresh, h2) =
              >>=-eq-ok (ok_or x.generate no_key_pair) _ (rw taken at h1) in
            let (cert, signed, h3) =
              >>=-eq-ok (ok_or (x.self_signed (params_of x ips) fresh_key) not_signed) _ h2 in
            let same : fresh_key ≡ key = ground arith in
            record {
              ips = ips;
              cert = cert;
              addresses = addresses;
              fresh = rw (← same) (ok_or-ok x.generate no_key_pair fresh);
              signed =
                  rw (← same)
                    (ok_or-ok (x.self_signed (params_of x ips) fresh_key) not_signed signed);
              alone = ground arith;
            }
      ]

  load_certs-ok :
      (path : FilePath) (certs : List Bytes)
      → load_certs x path ≡ ok certs
      → (file : Bytes) × (x.open_file path ≡ some file) × (x.certs file ≡ some certs) × (certs ≢ [])
  unfolding load_certs
  load_certs-ok path certs h =
      let (file, opened, h1) = >>=-eq-ok (ok_or (x.open_file path) (not_opened path)) _ h in
      let (found, read, h2) = >>=-eq-ok (ok_or (x.certs file) (not_read path)) _ h1 in
      elim (Bool-cases (is_empty found)) [
        | inl empty ↦ absurd (let g = rw empty at h2 in cc)
        | inr full ↦
            let g = rw full at h2 in
            let same : found ≡ certs = ground arith in
            (
              file,
              ok_or-ok (x.open_file path) (not_opened path) opened,
              rw (← same) (ok_or-ok (x.certs file) (not_read path) read),
              rw (← same) (nonempty found full),
            )
      ]

  load_private_key-ok :
      (path : FilePath) (key : Bytes)
      → load_private_key x path ≡ ok key
      → (file : Bytes) × (x.open_file path ≡ some file) × (x.private_key file ≡ some (some key))
  unfolding load_private_key
  load_private_key-ok path key h =
      let (file, opened, h1) = >>=-eq-ok (ok_or (x.open_file path) (not_opened path)) _ h in
      let (found, read, h2) = >>=-eq-ok (ok_or (x.private_key file) (not_read path)) _ h1 in
      let there : found ≡ some key = ok_or-ok found (no_private_key path) h2 in
      (
        file,
        ok_or-ok (x.open_file path) (not_opened path) opened,
        rw (← there) (ok_or-ok (x.private_key file) (not_read path) read),
      )

  module _ (args : Args) where
    of_files :
        (cert key : Option FilePath) (o : Option C)
        → args.tls_cert ≡ cert
        → args.tls_key ≡ key
        → args.auto_self_signed_cert ≡ false
        → is_some cert && is_some key ≡ true
        → from_files x cert key ≡ ok o
        → (config : C) × (o ≡ some config) × IsCertified args config
    of_files none key o c k manual there h = absurd (cc)
    of_files (some cert) none o c k manual there h = absurd (cc)
    of_files (some cert) (some key) o c k manual there h =
        let (found, certs, h1) = >>=-eq-ok (load_certs x cert) _ h in
        let (loaded, private, h2) = >>=-eq-ok (load_private_key x key) _ h1 in
        let (config, built, h3) =
          >>=-eq-ok (ok_or (x.with_single_cert found loaded) bad_config) _ h2 in
        let (cert_file, cert_opened, certs_read, full) = load_certs-ok cert found certs in
        let (key_file, key_opened, key_read) = load_private_key-ok key loaded private in
        (
          config,
          ground arith,
          record {
            certs = found;
            key = loaded;
            accepted = ok_or-ok (x.with_single_cert found loaded) bad_config built;
            source = inr (
              manual,
              record {
                cert_path = cert;
                key_path = key;
                cert_file = cert_file;
                key_file = key_file;
                named = (c, k);
                opened = (cert_opened, key_opened);
                certs_read = certs_read;
                key_read = key_read;
                some_certificate = full;
              },
            );
          },
        )

    -- For settings that pass the validation and ask for wss, a start that does not fail has a TLS
    -- configuration: it is of a certificate that was generated for the addresses of the host, with
    -- its own fresh key, if the settings say so; and else of the certificates, at least one, and
    -- the key that the two named files hold.
    pub build_tls_config-IsCertified :
        (o : Option C)
        → IsValid args
        → includes_wss args.service_mode ≡ true
        → build_tls_config x args ≡ ok o
        → (config : C) × (o ≡ some config) × IsCertified args config
    unfolding build_tls_config
    build_tls_config-IsCertified o v wss h = elim (Bool-cases args.auto_self_signed_cert) [
      | inl auto ↦
          let ((certs, key), made, h1) =
            >>=-eq-ok (generate_self_signed_cert x) _ (rw (build_tls_config, auto) at h) in
          let (config, built, h2) =
            >>=-eq-ok (ok_or (x.with_single_cert certs key) bad_config) _ h1 in
          (
            config,
            ground arith,
            record {
              certs = certs;
              key = key;
              accepted = ok_or-ok (x.with_single_cert certs key) bad_config built;
              source = inl (auto, generate-IsGenerated certs key made);
            },
          )
      | inr manual ↦
          let served = v.served wss in
          let files : is_some args.tls_cert && is_some args.tls_key ≡ true = rw manual at served in
          of_files args.tls_cert args.tls_key o refl refl manual files
            (rw (build_tls_config, manual) at h)
    ]
