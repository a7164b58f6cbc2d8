-- ===== src/Server/Calls.antt =====
-- What a run of the program does to the token service: the connections (src/token_api.rs,
-- src/proxy.rs) as calls of it, and the reloads of src/auth.rs.
use mathlib.Core.Path.{subst}
use ws2tcp_router.Prelude.{
  ℕ, ◌≤◌, ◌≡◌, ◌⊎◌, ◌∙◌, refl, arith, Bool-cases, Option, none, some, List, [], ◌∷◌, ◌++◌, Result,
  ok, err, inl, inr,
}
use ws2tcp_router.Text.{Str}
use ws2tcp_router.Crypto.{Crypto}
use ws2tcp_router.Token.{TokenService, World}
use ws2tcp_router.Token.Histories.{Call, run}
use ws2tcp_router.Token.Revocation.{instant, InOrder}
use ws2tcp_router.ClientAddr.{SocketAddr, TrustedProxies}
use ws2tcp_router.Auth.{
  AuthConfig, AuthError, lists_eq, load_anonymous_target_file, reload_anonymous_target_file,
}
use ws2tcp_router.Auth.Reloading.{reload_auth_file_whole}
use ws2tcp_router.Auth.Polling.{Reloader, basic_auth, anonymous_target, reload_with}
use ws2tcp_router.Main.{Streams, handle_accepted_stream}
use ws2tcp_router.Server.{
  Event, connects, polls, left, tasks_of, poll_all, serve, serve_all, Chronological,
}
use ws2tcp_router.Server.Connections.{Calls, Kept, Called, handle_accepted_stream-Called}

module _ (c : Crypto) where
  pub reload_targets_cases :
      (auth : AuthConfig) (file : Option Str) (Q : AuthConfig → Type 0)
      → Q auth
      → ((targets : List Str) → Q (record auth { anonymous_targets = targets }))
      → Q (reload_anonymous_target_file c auth file).1
  unfolding reload_anonymous_target_file
  reload_targets_cases auth file Q same changed = go (load_anonymous_target_file file) refl
    where
      go :
          (r : Result AuthError (List Str))
          → load_anonymous_target_file file ≡ r
          → Q (reload_anonymous_target_file c auth file).1
      go (err e) read = rw (reload_anonymous_target_file, read) same
      go (ok loaded) read =
          elim (Bool-cases
            (lists_eq auth.anonymous_targets (auth.fixed_anonymous_targets ++ loaded))) [
              | inl equal ↦ rw (reload_anonymous_target_file, read, equal) same
              | inr differs ↦ rw (reload_anonymous_target_file, read, differs) (changed _)
            ]

  -- A reload changes no more than one of the two lists.
  pub reload_with_cases :
      (files : Str → Option Str) (task : Reloader × Str) (auth : AuthConfig)
      (Q : AuthConfig → Type 0)
      → Q auth
      → ((l : List Str) → Q (record auth { expected_authorizations = l }))
      → ((l : List Str) → Q (record auth { anonymous_targets = l }))
      → Q (reload_with c files task auth).1
  unfolding reload_with
  reload_with_cases files (anonymous_target, path) auth Q same credentials targets =
      reload_targets_cases auth (files path) Q same targets
  reload_with_cases files (basic_auth, path) auth Q same credentials targets =
      elim (reload_auth_file_whole c auth (files path)) [
        | inl (e, _, equal) ↦ rw equal same
        | inr (changed, loaded, _, _, equal, _) ↦ rw equal (credentials _)
      ]

  pub poll_all-tokens :
      (files : Str → Option Str) (tasks : List (Reloader × Str)) (auth : AuthConfig)
      → (poll_all c files tasks auth).tokens ≡ auth.tokens
  unfolding poll_all
  poll_all-tokens files [] auth = refl
  poll_all-tokens files (task ∷ tasks) auth =
      poll_all-tokens files tasks (reload_with c files task auth).1
      ∙ reload_with_cases files task auth (λ a. a.tokens ≡ auth.tokens) refl (λ l. refl) (λ l. refl)

  -- Calls that events make, in their order: a connection one at most, at its instant, and a reload
  -- none.
  abbrev pub Makes : {C T : Type 0} → List (Event C T) → List Call → Type 0
  Makes [] calls = calls ≡ []
  Makes (polls kind files ∷ es) calls = Makes es calls
  Makes (connects tls s peer w ∷ es) calls =
      Makes es calls
      ⊎ ((call : Call) × (rest : List Call) × (calls ≡ call ∷ rest)
          × (instant call ≡ w.now)
          × Makes es rest)

  -- The token service is as calls leave it that the events make, one after the other, in the order
  -- of their instants.
  abbrev pub RanService :
      {C T : Type 0} → ℕ → ℕ → List (Event C T) → Option TokenService → Option TokenService → Type 0
  RanService since end events none after = after ≡ none
  RanService since end events (some svc) after =
      (calls : List Call) × (after ≡ some (run c svc calls))
      × Makes events calls
      × InOrder since end calls

  -- The same of the service of a configuration that is there or not.
  abbrev pub Ran :
      {C T : Type 0} → ℕ → ℕ → List (Event C T) → Option AuthConfig → Option AuthConfig → Type 0
  Ran since end events none after = after ≡ none
  Ran since end events (some auth) after =
      (auth' : AuthConfig) × (after ≡ some auth')
      × RanService since end events auth.tokens auth'.tokens

  InOrder-earlier :
      (since now end : ℕ) (calls : List Call)
      → since ≤ now
      → InOrder now end calls
      → InOrder since end calls
  InOrder-earlier since now end [] h order = omega arith
  InOrder-earlier since now end (call ∷ calls) h (first, order) = (omega arith, order)

  -- a connection, and the events behind it
  module _ {C T : Type 0} (tls : Option C) (s : T) (peer : SocketAddr) (w : World)
      (es : List (Event C T)) (since end : ℕ) (first : since ≤ w.now) where
    RanService-connects :
        (before between after : Option TokenService)
        → Kept c w.now before between
        → RanService w.now end es between after
        → RanService since end (connects tls s peer w ∷ es) before after
    unfolding run
    RanService-connects none between after kept ran =
        subst (λ t. RanService w.now end es t after) kept ran
    RanService-connects (some svc) between after (svc', same, kept) ran =
        called kept (subst (λ t. RanService w.now end es t after) same ran)
      where
        called :
            Calls c w.now svc svc'
            → RanService w.now end es (some svc') after
            → RanService since end (connects tls s peer w ∷ es) (some svc) after
        called (inl unchanged) (calls, e, made, order) =
            (calls, rw (← unchanged) e, inl made, InOrder-earlier since w.now end calls first order)
        called (inr (call, at, stepped)) (calls, e, made, order) = (
          call ∷ calls,
          rw (← stepped) e,
          inr (call, calls, refl, at, made),
          (rw at first, rw at order),
        )

    Ran-connects :
        (before between after : Option AuthConfig)
        → Called c w.now before between
        → Ran w.now end es between after
        → Ran since end (connects tls s peer w ∷ es) before after
    Ran-connects none between after called ran = subst (λ t. Ran w.now end es t after) called ran
    Ran-connects (some auth) between after (tokens, same, kept) ran =
        let (auth', e, ran') = subst (λ t. Ran w.now end es t after) same ran in
        (auth', e, RanService-connects auth.tokens tokens auth'.tokens kept ran')

  RanService-refl :
      (C T : Type 0) (since end : ℕ) (tokens : Option TokenService)
      → since ≤ end
      → RanService {C = C} {T = T} since end [] tokens tokens
  unfolding run
  RanService-refl C T since end none h = refl
  RanService-refl C T since end (some svc) h = ([], refl, refl, h)

  Ran-refl :
      (C T : Type 0) (since end : ℕ) (config : Option AuthConfig)
      → since ≤ end
      → Ran {C = C} {T = T} since end [] config config
  Ran-refl C T since end none h = refl
  Ran-refl C T since end (some auth) h = (auth, refl, RanService-refl C T since end auth.tokens h)

  -- Whatever happens while the program runs, its token service is always as calls on it leave it
  -- that the events make, in their order and that of their instants: a connection, over TLS or not,
  -- makes one call at most, at its instant, and a reload makes none. Without a configuration there
  -- is never one.
  pub serve_all-Ran :
      {C T S : Type 0} (x : Streams C T S) (proxies : TrustedProxies) (since end : ℕ)
      (config : Option AuthConfig) (events : List (Event C T))
      → Chronological since end events
      → Ran since end events config (serve_all c x proxies config events)
  unfolding serve_all serve
  serve_all-Ran {C} {T} x proxies since end config [] order = Ran-refl C T since end config order
  serve_all-Ran x proxies since end config (connects tls s peer w ∷ es) (first, order) =
      Ran-connects tls s peer w es since end first config _ _
        (handle_accepted_stream-Called c x proxies tls s peer w config)
        (serve_all-Ran x proxies w.now end
          (left config (handle_accepted_stream c x tls s peer proxies w config)) es order)
  serve_all-Ran x proxies since end none (polls kind files ∷ es) order =
      serve_all-Ran x proxies since end none es order
  serve_all-Ran x proxies since end (some auth) (polls kind files ∷ es) order =
      let polled = poll_all c files (tasks_of kind auth) auth in
      let (auth', e, ran) = serve_all-Ran x proxies since end (some polled) es order in
      (
        auth',
        e,
        subst (λ t. RanService since end (polls kind files ∷ es) t auth'.tokens)
            (poll_all-tokens files (tasks_of kind auth) auth) ran,
      )
