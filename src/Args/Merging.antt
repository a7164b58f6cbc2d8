-- ===== src/Args/Merging.antt =====
-- Where the settings of `Args::from_cli` of src/args.rs come from: the command line, the
-- configuration file, or the defaults.
use mathlib.Core.Path.{subst}
use ws2tcp_router.Prelude.{
  ◌≡◌, ◌∙◌, ◌↔◌, refl, sym, Bool, true, false, Option, none, some, List, [], ◌∷◌, or_else,
}
use ws2tcp_router.Text.{codes}
use ws2tcp_router.ClientAddr.{v4, v6}
use ws2tcp_router.Args.{
  Args, CliArgs, ConfigArgs, FilePath, ws_only, setting, list_setting, merge_ipv6_only, loopback,
  tls_settings, merge,
}

-- The command line's value comes first, then the file's, then the default.
abbrev pub Chosen : {A : Type 0} → Option A → Option A → A → A → Type 0
Chosen (some v) file default a = a ≡ v
Chosen none (some v) default a = a ≡ v
Chosen none none default a = a ≡ default

-- The same without a default.
abbrev pub Given : {A : Type 0} → Option A → Option A → Option A → Type 0
Given (some v) file a = a ≡ some v
Given none file a = a ≡ file

-- The same of a list, which the command line gives by any entry.
abbrev pub Listed : {A : Type 0} → List A → Option (List A) → List A → List A → Type 0
Listed (x ∷ xs) file default a = a ≡ x ∷ xs
Listed [] file default a = Chosen none file default a

-- The same of a switch that the command line turns on, or off, which is the default.
abbrev pub Switched : Bool → Bool → Option Bool → Bool → Type 0
Switched true off file a = a ≡ true
Switched false true file a = a ≡ false
Switched false false file a = Chosen none file false a

-- The certificate's file, the key's, and whether a certificate is generated: the command line's
-- files, and its switches on or off, override that the file wants one generated, and that the
-- command line wants one overrides all files.
abbrev pub Certified :
    Bool
    → Bool
    → Option FilePath
    → Option FilePath
    → ConfigArgs
    → Option FilePath × Option FilePath × Bool
    → Type 0
Certified true off cert key file made = made ≡ (none, none, true)
Certified false true cert key file (c, k, auto) =
    Given cert file.tls_cert c × Given key file.tls_key k × (auto ≡ false)
Certified false false (some cert) key file (c, k, auto) =
    (c ≡ some cert) × Given key file.tls_key k × (auto ≡ false)
Certified false false none (some key) file (c, k, auto) =
    (c ≡ file.tls_cert) × (k ≡ some key) × (auto ≡ false)
Certified false false none none file (c, k, auto) =
    (c ≡ file.tls_cert) × (k ≡ file.tls_key) × Chosen none file.auto_self_signed_cert false auto

pub record IsMerged (cli : CliArgs) (file : ConfigArgs) (a : Args) : Type 0 where
  pub bind : Chosen cli.bind file.bind (codes "::") a.bind
  pub service_mode : Chosen cli.service_mode file.service_mode ws_only a.service_mode
  pub port : Chosen cli.port file.port 80 a.port
  pub tls_port : Chosen cli.tls_port file.tls_port 443 a.tls_port
  pub ipv6_only : Switched cli.ipv6_only cli.no_ipv6_only file.ipv6_only a.ipv6_only
  pub buffer_size : Chosen cli.buffer_size file.buffer_size 16384 a.buffer_size
  pub udp_idle_timeout : Chosen cli.udp_idle_timeout file.udp_idle_timeout 60 a.udp_idle_timeout
  pub basic_auth : Listed cli.basic_auth file.basic_auth [] a.basic_auth
  pub basic_auth_file : Given cli.basic_auth_file file.basic_auth_file a.basic_auth_file
  pub anonymous_target : Listed cli.anonymous_target file.anonymous_target [] a.anonymous_target
  pub anonymous_target_file :
      Given cli.anonymous_target_file file.anonymous_target_file a.anonymous_target_file
  pub trusted_proxy :
      Listed cli.trusted_proxy file.trusted_proxy
        (record { addr = v4 0x7f000000; prefix = 8 } ∷ record { addr = v6 1; prefix = 128 } ∷ [])
        a.trusted_proxy
  pub token_secret_file : Given cli.token_secret_file file.token_secret_file a.token_secret_file
  pub access_token_ttl : Chosen cli.access_token_ttl file.access_token_ttl 600 a.access_token_ttl
  pub refresh_token_ttl :
      Chosen cli.refresh_token_ttl file.refresh_token_ttl 604800 a.refresh_token_ttl
  pub certificate :
      Certified cli.auto_self_signed_cert cli.no_auto_self_signed_cert cli.tls_cert cli.tls_key file
        (a.tls_cert, a.tls_key, a.auto_self_signed_cert)
  pub log_file : Given cli.log_file file.log_file a.log_file
  pub log_level : Given cli.log_level file.log_level a.log_level

module _ {A : Type 0} where
  setting-Chosen :
      (cli file : Option A) (default : A) → Chosen cli file default (setting cli file default)
  setting-Chosen (some v) file default = refl
  setting-Chosen none (some v) default = refl
  setting-Chosen none none default = refl

  Chosen-setting :
      (cli file : Option A) (default a : A)
      → Chosen cli file default a
      → setting cli file default ≡ a
  Chosen-setting (some v) file default a h = sym h
  Chosen-setting none (some v) default a h = sym h
  Chosen-setting none none default a h = sym h

  or_else-Given : (cli file : Option A) → Given cli file (or_else cli file)
  or_else-Given (some v) file = refl
  or_else-Given none file = refl

  Given-or_else : (cli file a : Option A) → Given cli file a → or_else cli file ≡ a
  Given-or_else (some v) file a h = sym h
  Given-or_else none file a h = sym h

  list_setting-Listed :
      (cli : List A) (file : Option (List A)) (default : List A)
      → Listed cli file default (list_setting cli file default)
  list_setting-Listed (x ∷ xs) file default = refl
  list_setting-Listed [] (some v) default = refl
  list_setting-Listed [] none default = refl

  Listed-list_setting :
      (cli : List A) (file : Option (List A)) (default a : List A)
      → Listed cli file default a
      → list_setting cli file default ≡ a
  Listed-list_setting (x ∷ xs) file default a h = sym h
  Listed-list_setting [] (some v) default a h = sym h
  Listed-list_setting [] none default a h = sym h

switched :
    (cli : CliArgs) (file : ConfigArgs)
    → Switched cli.ipv6_only cli.no_ipv6_only file.ipv6_only (merge_ipv6_only cli file)
switched cli file = go cli.ipv6_only refl cli.no_ipv6_only refl
  where
    go :
        (on : Bool)
        → cli.ipv6_only ≡ on
        → (off : Bool) → cli.no_ipv6_only ≡ off
        → Switched on off file.ipv6_only (merge_ipv6_only cli file)
    go true e off e' = rw e
    go false e true e' = rw (e, e')
    go false e false e' = rw (e, e') (setting-Chosen none file.ipv6_only false)

Switched-merge :
    (cli : CliArgs) (file : ConfigArgs) (a : Bool)
    → Switched cli.ipv6_only cli.no_ipv6_only file.ipv6_only a
    → merge_ipv6_only cli file ≡ a
Switched-merge cli file a h = go cli.ipv6_only refl cli.no_ipv6_only refl h
  where
    go :
        (on : Bool)
        → cli.ipv6_only ≡ on
        → (off : Bool) → cli.no_ipv6_only ≡ off
        → Switched on off file.ipv6_only a
        → merge_ipv6_only cli file ≡ a
    go true e off e' h = rw e (sym h)
    go false e true e' h = rw (e, e') (sym h)
    go false e false e' h = rw (e, e') (Chosen-setting none file.ipv6_only false a h)

module _ (cli : CliArgs) (file : ConfigArgs) where
  -- Exactly the settings of `tls_settings` are those of the certificate.
  tls_settings-Certified :
      Certified cli.auto_self_signed_cert cli.no_auto_self_signed_cert cli.tls_cert cli.tls_key file
        (tls_settings cli file)
  unfolding tls_settings
  tls_settings-Certified =
      go cli.auto_self_signed_cert refl cli.no_auto_self_signed_cert refl cli.tls_cert refl
        cli.tls_key refl
    where
      go :
          (on : Bool)
          → cli.auto_self_signed_cert ≡ on
          → (off : Bool) → cli.no_auto_self_signed_cert ≡ off
          → (cert : Option FilePath) → cli.tls_cert ≡ cert
          → (key : Option FilePath) → cli.tls_key ≡ key
          → Certified on off cert key file (tls_settings cli file)
      go true e off e' cert e1 key e2 = rw (tls_settings, e) refl
      go false e true e' cert e1 key e2 =
          rw (tls_settings, e, e', e1, e2)
            (or_else-Given cert file.tls_cert, or_else-Given key file.tls_key, refl)
      go false e false e' (some cert) e1 key e2 =
          rw (tls_settings, e, e', e1, e2) (refl, or_else-Given key file.tls_key, refl)
      go false e false e' none e1 (some key) e2 =
          rw (tls_settings, e, e', e1, e2) (refl, refl, refl)
      go false e false e' none e1 none e2 =
          rw (tls_settings, e, e', e1, e2)
            (refl, refl, setting-Chosen none file.auto_self_signed_cert false)

  triple :
      (a b : Option FilePath × Option FilePath × Bool) → a.0 ≡ b.0 → a.1 ≡ b.1 → a.2 ≡ b.2 → a ≡ b
  triple a b p q r = λ i. (p i, q i, r i)

  Certified-unique :
      (on off : Bool) (cert key : Option FilePath) (a b : Option FilePath × Option FilePath × Bool)
      → Certified on off cert key file a
      → Certified on off cert key file b
      → a ≡ b
  Certified-unique true off cert key a b h h' = h ∙ sym h'
  Certified-unique false true cert key a b (c, k, auto) (c', k', auto') =
      triple a b
        (sym (Given-or_else cert file.tls_cert a.0 c) ∙ Given-or_else cert file.tls_cert b.0 c')
        (sym (Given-or_else key file.tls_key a.1 k) ∙ Given-or_else key file.tls_key b.1 k')
        (auto ∙ sym auto')
  Certified-unique false false (some cert) key a b (c, k, auto) (c', k', auto') =
      triple a b (c ∙ sym c')
        (sym (Given-or_else key file.tls_key a.1 k) ∙ Given-or_else key file.tls_key b.1 k')
        (auto ∙ sym auto')
  Certified-unique false false none (some key) a b (c, k, auto) (c', k', auto') =
      triple a b (c ∙ sym c') (k ∙ sym k') (auto ∙ sym auto')
  Certified-unique false false none none a b (c, k, auto) (c', k', auto') =
      triple a b (c ∙ sym c') (k ∙ sym k') (
        sym (Chosen-setting none file.auto_self_signed_cert false a.2 auto)
        ∙ Chosen-setting none file.auto_self_signed_cert false b.2 auto')

  merge-IsMerged : IsMerged cli file (merge cli file)
  unfolding merge
  merge-IsMerged = record {
    bind = setting-Chosen cli.bind file.bind (codes "::");
    service_mode = setting-Chosen cli.service_mode file.service_mode ws_only;
    port = setting-Chosen cli.port file.port 80;
    tls_port = setting-Chosen cli.tls_port file.tls_port 443;
    ipv6_only = switched cli file;
    buffer_size = setting-Chosen cli.buffer_size file.buffer_size 16384;
    udp_idle_timeout = setting-Chosen cli.udp_idle_timeout file.udp_idle_timeout 60;
    basic_auth = list_setting-Listed cli.basic_auth file.basic_auth [];
    basic_auth_file = or_else-Given cli.basic_auth_file file.basic_auth_file;
    anonymous_target = list_setting-Listed cli.anonymous_target file.anonymous_target [];
    anonymous_target_file = or_else-Given cli.anonymous_target_file file.anonymous_target_file;
    trusted_proxy = list_setting-Listed cli.trusted_proxy file.trusted_proxy loopback;
    token_secret_file = or_else-Given cli.token_secret_file file.token_secret_file;
    access_token_ttl = setting-Chosen cli.access_token_ttl file.access_token_ttl 600;
    refresh_token_ttl = setting-Chosen cli.refresh_token_ttl file.refresh_token_ttl 604800;
    certificate = tls_settings-Certified;
    log_file = or_else-Given cli.log_file file.log_file;
    log_level = or_else-Given cli.log_level file.log_level;
  }

  IsMerged-merge : (a : Args) → IsMerged cli file a → merge cli file ≡ a
  unfolding merge
  IsMerged-merge a h =
      let tls =
        Certified-unique cli.auto_self_signed_cert cli.no_auto_self_signed_cert cli.tls_cert
          cli.tls_key (tls_settings cli file) (a.tls_cert, a.tls_key, a.auto_self_signed_cert)
          tls_settings-Certified h.certificate in
      λ i. record {
        bind = Chosen-setting cli.bind file.bind (codes "::") a.bind h.bind i;
        service_mode =
            Chosen-setting cli.service_mode file.service_mode ws_only a.service_mode h.service_mode
              i;
        port = Chosen-setting cli.port file.port 80 a.port h.port i;
        tls_port = Chosen-setting cli.tls_port file.tls_port 443 a.tls_port h.tls_port i;
        ipv6_only = Switched-merge cli file a.ipv6_only h.ipv6_only i;
        buffer_size =
            Chosen-setting cli.buffer_size file.buffer_size 16384 a.buffer_size h.buffer_size i;
        udp_idle_timeout =
            Chosen-setting cli.udp_idle_timeout file.udp_idle_timeout 60 a.udp_idle_timeout
              h.udp_idle_timeout i;
        basic_auth =
            Listed-list_setting cli.basic_auth file.basic_auth [] a.basic_auth h.basic_auth i;
        basic_auth_file =
            Given-or_else cli.basic_auth_file file.basic_auth_file a.basic_auth_file
              h.basic_auth_file i;
        anonymous_target =
            Listed-list_setting cli.anonymous_target file.anonymous_target [] a.anonymous_target
              h.anonymous_target i;
        anonymous_target_file =
            Given-or_else cli.anonymous_target_file file.anonymous_target_file
              a.anonymous_target_file h.anonymous_target_file i;
        trusted_proxy =
            Listed-list_setting cli.trusted_proxy file.trusted_proxy loopback a.trusted_proxy
              h.trusted_proxy i;
        token_secret_file =
            Given-or_else cli.token_secret_file file.token_secret_file a.token_secret_file
              h.token_secret_file i;
        access_token_ttl =
            Chosen-setting cli.access_token_ttl file.access_token_ttl 600 a.access_token_ttl
              h.access_token_ttl i;
        refresh_token_ttl =
            Chosen-setting cli.refresh_token_ttl file.refresh_token_ttl 604800 a.refresh_token_ttl
              h.refresh_token_ttl i;
        tls_cert = (tls i).0;
        tls_key = (tls i).1;
        auto_self_signed_cert = (tls i).2;
        log_file = Given-or_else cli.log_file file.log_file a.log_file h.log_file i;
        log_level = Given-or_else cli.log_level file.log_level a.log_level h.log_level i;
      }

  -- The settings are the merged ones exactly if each comes from where it should.
  pub merge_iff : (a : Args) → (merge cli file ≡ a) ↔ IsMerged cli file a
  merge_iff a = ((λ same. subst (IsMerged cli file) same merge-IsMerged), IsMerged-merge a)
