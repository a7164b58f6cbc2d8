-- ===== src/Args/Validation.antt =====
-- What the settings that pass `Args::validate` of src/args.rs are.
use mathlib.Core.Path.{subst}
use ws2tcp_router.Prelude.{
  ℕ, ◌≡◌, ◌≢◌, ◌↔◌, refl, arith, Bool, true, false, not, ◌&&◌, Option, none, some, List, [], ◌∷◌,
  Result, ok, err, context, bail_if, is_some, ◌==◌, All, >>=-eq-ok,
}
use ws2tcp_router.Text.{Str}
use ws2tcp_router.Target.{Target, parse_target_addr}
use ws2tcp_router.Args.Merging.{IsMerged, merge_iff}
use ws2tcp_router.Args.{
  Args, CliArgs, ConfigArgs, ArgsError, FilePath, ServiceMode, ws_only, wss_only, both,
  includes_wss, is_both, has_tls_config, differs, check_targets, validate, merge, from_cli,
  config_of, bad_anonymous_target,
}

-- The entry of an allowlist names a host and a port.
abbrev pub IsEntry : Str → Type 0
IsEntry s = (t : Target) × (parse_target_addr s ≡ ok t)

-- A certificate is generated, is in files, or there is none.
pub data Certificate : Bool → Option FilePath → Option FilePath → Type 0 where
  generated : Certificate true none none
  in_files : {cert key : FilePath} → Certificate false (some cert) (some key)
  absent : Certificate false none none

pub record IsValid (a : Args) : Type 0 where
  pub buffer_size : a.buffer_size ≢ 0
  pub udp_idle_timeout : a.udp_idle_timeout ≢ 0
  pub anonymous_target : All IsEntry a.anonymous_target
  pub access_token_ttl : a.access_token_ttl ≢ 0
  pub refresh_token_ttl : a.refresh_token_ttl ≢ 0
  pub certificate : Certificate a.auto_self_signed_cert a.tls_cert a.tls_key
  pub served : includes_wss a.service_mode ≡ true → has_tls_config a ≡ true
  pub ports : a.service_mode ≡ both → a.port ≢ a.tls_port

bail_if-ok :
    {A : Type 0} (test : Bool) (e : ArgsError) (rest : Result ArgsError A) {a : A}
    → bail_if test e rest ≡ ok a
    → (test ≡ false) × (rest ≡ ok a)
bail_if-ok true e rest h = absurd (cc)
bail_if-ok false e rest h = (refl, h)

context-ok : {E F A : Type 0} (r : Result E A) (f : F) {a : A} → context r f ≡ ok a → r ≡ ok a
context-ok (ok a) f h = ground arith
context-ok (err e) f h = absurd (cc)

check_targets-ok :
    (targets : List Str) (rest : Result ArgsError (Unit {0}))
    → check_targets targets rest ≡ ok tt
    → All IsEntry targets × (rest ≡ ok tt)
check_targets-ok [] rest h = (tt, h)
check_targets-ok (target ∷ targets) rest h =
    let (t, e, more) =
      >>=-eq-ok (context (parse_target_addr target) (bad_anonymous_target target))
        (λ _. check_targets targets rest) h in
    let (entries, done) = check_targets-ok targets rest more in
    (((t, context-ok (parse_target_addr target) (bad_anonymous_target target) e), entries), done)

certificates :
    (auto : Bool) (cert key : Option FilePath)
    → differs (is_some cert) (is_some key) ≡ false
    → (auto && is_some cert) ≡ false
    → Certificate auto cert key
certificates true none none h one = generated
certificates false none none h one = absent
certificates false (some cert) (some key) h one = in_files
certificates true (some cert) key h one = absurd (cc)
certificates true none (some key) h one = absurd (cc)
certificates false none (some key) h one = absurd (cc)
certificates false (some cert) none h one = absurd (cc)

-- Settings pass the validation only if the sizes and times are positive, every anonymous target
-- is a host and port, the certificate is generated or in files or absent but not two of these, it
-- is there if wss is served, and the two services have different ports.
pub validate-IsValid : (a : Args) → validate a ≡ ok tt → IsValid a
unfolding validate
validate-IsValid a h0 =
    let (buffer, h1) = bail_if-ok (a.buffer_size == 0) _ _ h0 in
    let (idle, h2) = bail_if-ok (a.udp_idle_timeout == 0) _ _ h1 in
    let (targets, h3) = check_targets-ok a.anonymous_target _ h2 in
    let (access, h4) = bail_if-ok (a.access_token_ttl == 0) _ _ h3 in
    let (refresh, h5) = bail_if-ok (a.refresh_token_ttl == 0) _ _ h4 in
    let (files, h6) = bail_if-ok (differs (is_some a.tls_cert) (is_some a.tls_key)) _ _ h5 in
    let (one, h7) = bail_if-ok (a.auto_self_signed_cert && is_some a.tls_cert) _ _ h6 in
    let (wss, h8) = bail_if-ok (includes_wss a.service_mode && not (has_tls_config a)) _ _ h7 in
    let (ports, h9) = bail_if-ok (is_both a.service_mode && a.port == a.tls_port) _ _ h8 in
    record {
      buffer_size = λ e. ground (arith, buffer);
      udp_idle_timeout = λ e. ground (arith, idle);
      anonymous_target = targets;
      access_token_ttl = λ e. ground (arith, access);
      refresh_token_ttl = λ e. ground (arith, refresh);
      certificate = certificates a.auto_self_signed_cert a.tls_cert a.tls_key files one;
      served = λ e. ground (arith, wss);
      ports = λ e same. ground (arith, ports);
    }

check_targets-All :
    (targets : List Str) (rest : Result ArgsError (Unit {0}))
    → All IsEntry targets
    → check_targets targets rest ≡ rest
check_targets-All [] rest h = refl
check_targets-All (target ∷ targets) rest ((t, e), h) = rw e (check_targets-All targets rest h)

Certificate-tests :
    (auto : Bool) (cert key : Option FilePath)
    → Certificate auto cert key
    → (differs (is_some cert) (is_some key) ≡ false) × (auto && is_some cert ≡ false)
Certificate-tests _ _ _ generated = (refl, refl)
Certificate-tests _ _ _ in_files = (refl, refl)
Certificate-tests _ _ _ absent = (refl, refl)

zero_test : (n : ℕ) → n ≢ 0 → (n == 0) ≡ false
zero_test n h = ground arith

port_test : (m : ServiceMode) (p q : ℕ) → (m ≡ both → p ≢ q) → (is_both m && p == q) ≡ false
port_test ws_only p q h = refl
port_test wss_only p q h = refl
port_test both p q h = let different = h refl in ground arith

IsValid-validate : (a : Args) → IsValid a → validate a ≡ ok tt
unfolding validate
IsValid-validate a v =
    let (files, one) =
      Certificate-tests a.auto_self_signed_cert a.tls_cert a.tls_key v.certificate in
    let wss : includes_wss a.service_mode && not (has_tls_config a) ≡ false =
      ground (arith, v.served) in
    rw (
      zero_test a.buffer_size v.buffer_size,
      zero_test a.udp_idle_timeout v.udp_idle_timeout,
      check_targets-All a.anonymous_target _ v.anonymous_target,
      zero_test a.access_token_ttl v.access_token_ttl,
      zero_test a.refresh_token_ttl v.refresh_token_ttl,
      files,
      one,
      wss,
      port_test a.service_mode a.port a.tls_port v.ports,
    )

-- The program starts with certain settings exactly if the configuration, where one is named, can
-- be read; each setting is the command line's, or else the configuration's, or else its default,
-- where the switches for and against a generated certificate, and the certificate's files, go
-- before what the configuration says of one; and they are valid: the sizes and times are positive,
-- every anonymous target is a host and port, the certificate is generated or in files or absent but
-- not two of these, it is there if wss is served, and the two services have different ports.
pub from_cli_iff :
    (read : FilePath → Result ArgsError ConfigArgs) (cli : CliArgs) (a : Args)
    → (from_cli read cli ≡ ok a) ↔ (
        (config : ConfigArgs) × (config_of read cli.config ≡ ok config)
        × IsMerged cli config a
        × IsValid a)
unfolding from_cli
from_cli_iff read cli a = (into, onto)
  where
    into :
        from_cli read cli ≡ ok a
        → (config : ConfigArgs) × (config_of read cli.config ≡ ok config)
          × IsMerged cli config a
          × IsValid a
    into h =
        let (config, e, h1) = >>=-eq-ok (config_of read cli.config) _ h in
        let (done, valid, h2) = >>=-eq-ok (validate (merge cli config)) _ h1 in
        let same : merge cli config ≡ a = ground arith in
        (
          config,
          e,
          (merge_iff cli config a).0 same,
          subst IsValid same (validate-IsValid (merge cli config) valid),
        )

    onto :
        ((config : ConfigArgs) × (config_of read cli.config ≡ ok config)
          × IsMerged cli config a
          × IsValid a)
        → from_cli read cli ≡ ok a
    onto (config, e, merged, valid) =
        let same = (merge_iff cli config a).1 merged in
        rw e (rw (IsValid-validate (merge cli config) (rw same valid)) (cc same))
