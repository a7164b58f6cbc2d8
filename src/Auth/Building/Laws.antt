-- ===== src/Auth/Building/Laws.antt =====
-- What a configuration that src/auth.rs builds satisfies, from the start on and through reloads.
use ws2tcp_router.Prelude.{
  ℕ, ◌≤◌, ◌≡◌, refl, arith, true, false, not, ◌||◌, Bool-cases, Option, none, some, Option-cases,
  List, [], ◌∷◌, ◌++◌, Result, ok, err, >>=-eq-ok, ok_or, length, ltb, ltb_iff, inl, inr, is_some,
  All, All-append,
}
use ws2tcp_router.Text.{Str, Bytes, is_empty}
use ws2tcp_router.Crypto.{Crypto}
use ws2tcp_router.Token.{TokenService, min_secret_bytes}
use ws2tcp_router.Token.Service.{new}
use ws2tcp_router.Args.{Args, FilePath}
use ws2tcp_router.Auth.{
  AuthConfig, AuthError, normalize_anonymous_targets, load_anonymous_target_file,
  encode_credentials, load_auth_file,
}
use ws2tcp_router.Auth.Anonymous.{
  IsNormal, normalize_anonymous_targets-IsNormal, load_anonymous_target_file-IsNormal,
}
use ws2tcp_router.Auth.Reloading.{IsConfig, Reload, reload_all, reload_all-IsConfig, is_empty-false}
use ws2tcp_router.Auth.Building.{
  unreadable_secret, random_secret, trim_ascii, long_enough, load_secret, lift, loaded_or_empty,
  secret_of, from_args, built, build_auth_config,
}

module _ (c : Crypto) (read_to_string : FilePath → Option Str)
    (read : FilePath → Option Bytes) where
  lift-ok : {A : Type 0} (r : Result AuthError A) {a : A} → lift r ≡ ok a → r ≡ ok a
  lift-ok (ok a) h = ground arith
  lift-ok (err e) h = absurd (cc)

  file_targets-IsNormal :
      (path : Option FilePath) {out : List Str}
      → loaded_or_empty read_to_string load_anonymous_target_file path ≡ ok out
      → All IsNormal out
  file_targets-IsNormal none {out} e = let same : [] ≡ out = ground arith in rw (← same) tt
  file_targets-IsNormal (some path) e = load_anonymous_target_file-IsNormal (read_to_string path) e

  -- A configuration that is built is well formed, has the token service that is built, and its
  -- fixed credentials are those of the settings.
  pub build_auth_config-IsConfig :
      (args : Args) (draw : Option Bytes) (now : ℕ) (auth : AuthConfig)
      → build_auth_config c read_to_string read args draw now ≡ ok (some auth)
      → IsConfig auth
        × (svc : TokenService) × (auth.tokens ≡ some svc)
        × (from_args c read_to_string read args draw now ≡ ok svc)
        × (encode_credentials c args.basic_auth ≡ ok auth.fixed_authorizations)
  unfolding build_auth_config
  build_auth_config-IsConfig args draw now auth h =
      elim (Bool-cases (not (not (is_empty args.basic_auth) || is_some args.basic_auth_file))) [
        | inl off ↦ absurd (ground arith)
        | inr on ↦
            let (fixed, e0, h0) =
              >>=-eq-ok (lift (encode_credentials c args.basic_auth)) _
                (rw (build_auth_config, on) at h) in
            let (from_file, e1, h1) =
              >>=-eq-ok
                (lift (loaded_or_empty read_to_string (load_auth_file c) args.basic_auth_file)) _
                h0 in
            elim (Bool-cases (is_empty (fixed ++ from_file))) [
              | inl empty ↦ absurd (ground arith)
              | inr full ↦
                  let (fixed_targets, e2, h2) =
                    >>=-eq-ok (lift (normalize_anonymous_targets args.anonymous_target)) _
                      (rw full at h1) in
                  let (file_targets, e3, h3) =
                    >>=-eq-ok
                      (lift (
                        loaded_or_empty read_to_string load_anonymous_target_file
                          args.anonymous_target_file))
                      _ h2 in
                  let (tokens, e4, h4) =
                    >>=-eq-ok (from_args c read_to_string read args draw now) _ h3 in
                  let normal_fixed : All IsNormal fixed_targets =
                    normalize_anonymous_targets-IsNormal args.anonymous_target (lift-ok _ e2) in
                  let same : built c read_to_string read args fixed from_file fixed_targets
                        file_targets tokens
                      ≡ auth =
                    ground (arith, h4) in
                  rw (← same) (
                    record {
                      some_credential = is_empty-false (fixed ++ from_file) full;
                      fixed_credentials = (from_file, refl);
                      fixed_targets = (file_targets, refl);
                      normal =
                          All-append IsNormal fixed_targets file_targets normal_fixed
                            (file_targets-IsNormal args.anonymous_target_file (lift-ok _ e3));
                      fixed_normal = normal_fixed;
                    },
                    tokens,
                    refl,
                    e4,
                    lift-ok _ e0,
                  )
            ]
      ]

  abbrev pub IsStarted : Args → List Reload → Option AuthConfig → Type 0
  IsStarted args rs none = (args.basic_auth ≡ []) × (args.basic_auth_file ≡ none)
  IsStarted args rs (some auth) = IsConfig (reload_all c auth rs)

  -- Authentication is off only if neither a credential nor a credential file is configured.
  -- Otherwise a configuration that is built stays well formed through any reloads: there is a
  -- credential, the fixed credentials and targets come first, and every entry of the allowlist
  -- is the address of a target.
  pub build_auth_config-reload_all :
      (args : Args) (draw : Option Bytes) (now : ℕ) (built_auth : Option AuthConfig)
      (rs : List Reload)
      → build_auth_config c read_to_string read args draw now ≡ ok built_auth
      → IsStarted args rs built_auth
  unfolding build_auth_config
  build_auth_config-reload_all args draw now (some auth) rs h =
      reload_all-IsConfig c auth rs (build_auth_config-IsConfig args draw now auth h).0
  build_auth_config-reload_all args draw now none rs h =
      elim (Bool-cases (not (not (is_empty args.basic_auth) || is_some args.basic_auth_file))) [
        | inl off ↦
            (empty args.basic_auth (ground arith), absent args.basic_auth_file (ground arith))
        | inr on ↦
            let (fixed, e0, h0) =
              >>=-eq-ok (lift (encode_credentials c args.basic_auth)) _
                (rw (build_auth_config, on) at h) in
            let (from_file, e1, h1) =
              >>=-eq-ok
                (lift (loaded_or_empty read_to_string (load_auth_file c) args.basic_auth_file)) _
                h0 in
            elim (Bool-cases (is_empty (fixed ++ from_file))) [
              | inl without ↦ absurd (ground arith)
              | inr full ↦
                  let (fixed_targets, e2, h2) =
                    >>=-eq-ok (lift (normalize_anonymous_targets args.anonymous_target)) _
                      (rw full at h1) in
                  let (file_targets, e3, h3) =
                    >>=-eq-ok
                      (lift (
                        loaded_or_empty read_to_string load_anonymous_target_file
                          args.anonymous_target_file))
                      _ h2 in
                  let (tokens, e4, h4) =
                    >>=-eq-ok (from_args c read_to_string read args draw now) _ h3 in
                  absurd (ground (arith, h4))
            ]
      ]
    where
      empty : (xs : List Str) → is_empty xs ≡ true → xs ≡ []
      empty [] e = refl
      empty (x ∷ xs) e = absurd (cc)

      absent : (o : Option FilePath) → is_some o ≡ false → o ≡ none
      absent none e = refl
      absent (some p) e = absurd (cc)

  long_enough-ok :
      (s : Bytes) {secret : Bytes} → long_enough s ≡ ok secret → min_secret_bytes ≤ length secret
  unfolding long_enough
  long_enough-ok s {secret} h = elim (Bool-cases (ltb (length s) min_secret_bytes)) [
    | inl short ↦ absurd (ground arith)
    | inr long ↦
        let same : s ≡ secret = ground arith in
        rw (← same) (let test = ltb_iff (length s) min_secret_bytes in ground (arith, test))
  ]

  -- The key that signs access tokens has at least 32 bytes, if the generator gives as many.
  pub from_args-key :
      (args : Args) (draw : Option Bytes) (now : ℕ) (svc : TokenService)
      → ((bytes : Bytes) → draw ≡ some bytes → min_secret_bytes ≤ length bytes)
      → from_args c read_to_string read args draw now ≡ ok svc
      → min_secret_bytes ≤ length svc.key
  unfolding from_args load_secret new
  from_args-key args draw now svc good h =
      let (secret, found, made) = >>=-eq-ok (secret_of c read_to_string read args draw) _ h in
      let same : secret ≡ svc.key = ground (arith, made) in
      rw (← same) (elim (Option-cases args.token_secret_file) [
        | inl without ↦ drawn draw good (rw without at found)
        | inr (path, named) ↦
            let (contents, read_back, long) =
              >>=-eq-ok (ok_or (read path) unreadable_secret) _ (rw named at found) in
            long_enough-ok (trim_ascii contents) long
      ])
    where
      drawn :
          (o : Option Bytes) {secret : Bytes}
          → ((bytes : Bytes) → o ≡ some bytes → min_secret_bytes ≤ length bytes)
          → ok_or o random_secret ≡ ok secret
          → min_secret_bytes ≤ length secret
      drawn none h e = absurd (cc)
      drawn (some b) {secret} h e = let same : b ≡ secret = ground arith in rw (← same) (h b refl)
