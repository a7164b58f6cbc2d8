-- ===== src/Server/Running.antt =====
-- The configuration that all the connections share, and its token service, while the program runs
-- (src/main.rs, src/proxy.rs, src/auth.rs, src/token.rs).
use mathlib.Core.Path.{subst}
use ws2tcp_router.Prelude.{
  ℕ, ◌≡◌, refl, sym, arith, Option, none, some, List, [], ◌∷◌, ok, inl, inr, >>=-eq-ok,
}
use ws2tcp_router.Text.{Str, Bytes}
use ws2tcp_router.Crypto.{Crypto}
use ws2tcp_router.Token.{TokenService, from_secs}
use ws2tcp_router.Token.Service.{new}
use ws2tcp_router.Token.Histories.{IsStore, step-IsStore, new-IsStore}
use ws2tcp_router.Args.{Args, FilePath}
use ws2tcp_router.ClientAddr.{TrustedProxies}
use ws2tcp_router.Auth.{AuthConfig, encode_credentials}
use ws2tcp_router.Auth.Reloading.{IsConfig, reload, credentials, targets, reload-IsConfig}
use ws2tcp_router.Auth.Polling.{Reloader, basic_auth, anonymous_target, reload_with}
use ws2tcp_router.Auth.Building.{from_args, secret_of, build_auth_config}
use ws2tcp_router.Auth.Building.Laws.{build_auth_config-IsConfig, build_auth_config-reload_all}
use ws2tcp_router.Main.{Streams}
use ws2tcp_router.Server.{Event, connects, polls, tasks_of, poll_all, serve, serve_all}
use ws2tcp_router.Server.Connections.{Calls, Kept, Called, handle_accepted_stream-Called}
use ws2tcp_router.Server.Calls.{reload_with_cases}

-- A token service, with a well-formed store.
pub record IsServing (tokens : Option TokenService) : Type 0 where
  pub service : TokenService
  pub there : tokens ≡ some service
  pub store : IsStore service.state

-- The configuration is well formed, with the fixed credentials `fixed`.
pub record IsRunning (fixed : List Str) (auth : AuthConfig) : Type 0 where
  pub config : IsConfig auth
  pub fixed_credentials : auth.fixed_authorizations ≡ fixed
  pub serving : IsServing auth.tokens

module _ (c : Crypto) (fixed : List Str) where
  Calls-IsStore :
      (now : ℕ) (svc svc' : TokenService)
      → Calls c now svc svc'
      → IsStore svc.state
      → IsStore svc'.state
  Calls-IsStore now svc svc' (inl same) s = rw same s
  Calls-IsStore now svc svc' (inr (call, at, same)) s = rw same (step-IsStore c svc call s)

  Kept-IsServing :
      (now : ℕ) (before after : Option TokenService)
      → Kept c now before after
      → IsServing before
      → IsServing after
  Kept-IsServing now none after kept k = absurd (let there = k.there in cc)
  Kept-IsServing now (some svc) after (svc', same, calls) k =
      let equal : svc ≡ k.service = let there = k.there in ground arith in
      record {
        service = svc';
        there = same;
        store = Calls-IsStore now svc svc' calls (rw equal k.store);
      }

  reload_with-IsConfig :
      (files : Str → Option Str) (task : Reloader × Str) (auth : AuthConfig)
      → IsConfig auth
      → IsConfig (reload_with c files task auth).1
  unfolding reload_with reload
  reload_with-IsConfig files (basic_auth, path) auth k =
      reload-IsConfig c auth (credentials (files path)) k
  reload_with-IsConfig files (anonymous_target, path) auth k =
      reload-IsConfig c auth (targets (files path)) k

  poll_all-IsRunning :
      (files : Str → Option Str) (tasks : List (Reloader × Str)) (auth : AuthConfig)
      → IsRunning fixed auth
      → IsRunning fixed (poll_all c files tasks auth)
  unfolding poll_all
  poll_all-IsRunning files [] auth k = k
  poll_all-IsRunning files (task ∷ tasks) auth k =
      poll_all-IsRunning files tasks (reload_with c files task auth).1 (record {
        config = reload_with-IsConfig files task auth k.config;
        fixed_credentials =
            reload_with_cases c files task auth (λ a. a.fixed_authorizations ≡ fixed)
              k.fixed_credentials (λ l. k.fixed_credentials) (λ l. k.fixed_credentials);
        serving =
            reload_with_cases c files task auth (λ a. IsServing a.tokens) k.serving (λ l. k.serving)
              (λ l. k.serving);
      })

  Called-IsRunning :
      (now : ℕ) (auth : AuthConfig) (after : Option AuthConfig)
      → Called c now (some auth) after
      → IsRunning fixed auth
      → (auth' : AuthConfig) × (after ≡ some auth') × IsRunning fixed auth'
  Called-IsRunning now auth after (tokens, same, kept) k = (
    record auth { tokens = tokens },
    same,
    record {
      config = record {
        some_credential = k.config.some_credential;
        fixed_credentials = k.config.fixed_credentials;
        fixed_targets = k.config.fixed_targets;
        normal = k.config.normal;
        fixed_normal = k.config.fixed_normal;
      };
      fixed_credentials = k.fixed_credentials;
      serving = Kept-IsServing now auth.tokens tokens kept k.serving;
    },
  )

  module _ {C T S : Type 0} (x : Streams C T S) (proxies : TrustedProxies) where
    serve_all-IsRunning :
        (auth : AuthConfig) (events : List (Event C T))
        → IsRunning fixed auth
        → (auth' : AuthConfig) × (serve_all c x proxies (some auth) events ≡ some auth')
          × IsRunning fixed auth'
    unfolding serve_all serve
    serve_all-IsRunning auth [] k = (auth, refl, k)
    serve_all-IsRunning auth (polls kind files ∷ es) k =
        let tasks = tasks_of kind auth in
        serve_all-IsRunning (poll_all c files tasks auth) es (poll_all-IsRunning files tasks auth k)
    serve_all-IsRunning auth (connects tls s peer w ∷ es) k =
        let (auth1, same, k1) =
          Called-IsRunning w.now auth _
            (handle_accepted_stream-Called c x proxies tls s peer w (some auth)) k in
        subst
          (λ o.
            (auth' : AuthConfig) × (serve_all c x proxies o es ≡ some auth')
            × IsRunning fixed auth')
          (sym same) (serve_all-IsRunning auth1 es k1)

    serve_all-none : (events : List (Event C T)) → serve_all c x proxies none events ≡ none
    unfolding serve_all serve
    serve_all-none [] = refl
    serve_all-none (polls kind files ∷ es) = serve_all-none es
    serve_all-none (connects tls s peer w ∷ es) =
        subst (λ o. serve_all c x proxies o es ≡ none)
          (sym (handle_accepted_stream-Called c x proxies tls s peer w none)) (serve_all-none es)

module _ (c : Crypto) (read_to_string : FilePath → Option Str) (read : FilePath → Option Bytes)
    (args : Args) where
  -- Without authentication there was no credential to configure; with it, the configuration and
  -- its store are well formed, and the fixed credentials are those of the settings.
  abbrev pub IsUp : Option AuthConfig → Option AuthConfig → Type 0
  IsUp none after = (args.basic_auth ≡ []) × (args.basic_auth_file ≡ none) × (after ≡ none)
  IsUp (some auth) after =
      (auth' : AuthConfig) × (fixed : List Str) × (after ≡ some auth')
      × (encode_credentials c args.basic_auth ≡ ok fixed)
      × IsRunning fixed auth'

  from_args-IsServing :
      (draw : Option Bytes) (now : ℕ) (svc : TokenService) {tokens : Option TokenService}
      → tokens ≡ some svc
      → from_args c read_to_string read args draw now ≡ ok svc
      → IsServing tokens
  unfolding from_args
  from_args-IsServing draw now svc there e =
      let (secret, found, made) = >>=-eq-ok (secret_of c read_to_string read args draw) _ e in
      let same : new secret (from_secs args.access_token_ttl) (from_secs args.refresh_token_ttl) now
          ≡ svc =
        ground (arith, made) in
      record { service = svc; there = there; store = rw (← same) (new-IsStore c secret _ _ now) }

  -- From the start on, after any connections and reloads in any order: either neither a credential
  -- nor a credential file is configured, and there is no authentication; or there is a credential,
  -- the credentials of the settings come first, every entry of the allowlist is the address of a
  -- target, and the store of the token service has one entry for a key, at most 100,000 refresh
  -- tokens, and none that outlives its login.
  pub serve_all-build_auth_config :
      {C T S : Type 0} (x : Streams C T S) (proxies : TrustedProxies) (draw : Option Bytes)
      (now : ℕ) (config : Option AuthConfig) (events : List (Event C T))
      → build_auth_config c read_to_string read args draw now ≡ ok config
      → IsUp config (serve_all c x proxies config events)
  serve_all-build_auth_config x proxies draw now none events e =
      let (credential, file) =
        build_auth_config-reload_all c read_to_string read args draw now none [] e in
      (credential, file, serve_all-none c [] x proxies events)
  serve_all-build_auth_config x proxies draw now (some auth) events e =
      let (good, svc, there, made, fixed) =
        build_auth_config-IsConfig c read_to_string read args draw now auth e in
      let (auth', same, k) =
        serve_all-IsRunning c auth.fixed_authorizations x proxies auth events (record {
          config = good;
          fixed_credentials = refl;
          serving = from_args-IsServing draw now svc there made;
        }) in
      (auth', auth.fixed_authorizations, same, fixed, k)
