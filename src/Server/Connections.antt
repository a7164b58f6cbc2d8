-- ===== src/Server/Connections.antt =====
-- What a connection of src/main.rs and src/proxy.rs does to the configuration, by the answer to a
-- plain request (src/token_api.rs).
use mathlib.Core.Path.{subst}
use ws2tcp_router.Prelude.{
  ℕ, ◌≡◌, ◌⊎◌, refl, sym, Bool-cases, Option, none, some, Option-cases, inl, inr, str_eq,
}
use ws2tcp_router.Prelude.Maybe.{◌>>=◌}
use ws2tcp_router.Text.{Str, Bytes}
use ws2tcp_router.Http.{Request, header_str, authorization}
use ws2tcp_router.Crypto.{Crypto}
use ws2tcp_router.Token.{TokenService, World}
use ws2tcp_router.Token.Histories.{Call, logs_in, refreshes, revokes, step}
use ws2tcp_router.Token.Revocation.{instant}
use ws2tcp_router.ClientAddr.{SocketAddr, TrustedProxies}
use ws2tcp_router.Auth.{AuthConfig, basic_user, bearer_token, has_user}
use ws2tcp_router.TokenApi.{
  Endpoint, login, refresh, revoke, answer_login, answer_refresh, answer_revoke, answer,
  answer_with, with_tokens, handle_auth_request,
}
use ws2tcp_router.TokenApi.Endpoints.{with_tokens_cases}
use ws2tcp_router.HttpProbe.{read_request_head, parse_plain_request}
use ws2tcp_router.Proxy.{health_check_path, answer_plain}
use ws2tcp_router.Main.{Streams, with_connection, handle_accepted_stream}
use ws2tcp_router.Connection.{
  Platform, Connection, health_check_message, serve_head, handle_connection,
}
use ws2tcp_router.Server.{left}

module _ (c : Crypto) where
  -- The service is as it was, or as one call at the instant `now` leaves it.
  abbrev pub Calls : ℕ → TokenService → TokenService → Type 0
  Calls now svc svc' =
      (svc' ≡ svc) ⊎ ((call : Call) × (instant call ≡ now) × (svc' ≡ step c svc call))

  module _ (w : World) (auth : AuthConfig) (svc : TokenService) (r : Request) where
    answer-Calls : (e : Endpoint) → Calls w.now svc (answer c w auth svc r e).1
    unfolding answer answer_login answer_refresh answer_revoke step
    answer-Calls login = elim (Option-cases (header_str r authorization >>= basic_user c auth)) [
      | inl missing ↦ inl (rw (answer, answer_login, missing))
      | inr (user, given) ↦ inr (logs_in user w, refl, rw (answer, answer_login, given) refl)
    ]
    answer-Calls refresh = elim (Option-cases (header_str r authorization >>= bearer_token)) [
      | inl missing ↦ inl (rw (answer, answer_refresh, missing))
      | inr (token, given) ↦
          inr (refreshes token (has_user c auth) w, refl, rw (answer, answer_refresh, given) refl)
    ]
    answer-Calls revoke = elim (Option-cases (header_str r authorization >>= bearer_token)) [
      | inl missing ↦ inl (rw (answer, answer_revoke, missing))
      | inr (token, given) ↦ inr (revokes token w, refl, rw (answer, answer_revoke, given) refl)
    ]

    with_tokens-Calls : Calls w.now svc (with_tokens c w auth svc r).1
    with_tokens-Calls =
        with_tokens_cases c w auth svc r (λ p. Calls w.now svc p.1) (inl refl) (inl refl) (inl refl)
          (λ e _. answer-Calls e)

  -- The same of a service that is there or not.
  abbrev pub Kept : ℕ → Option TokenService → Option TokenService → Type 0
  Kept now none after = after ≡ none
  Kept now (some svc) after = (svc' : TokenService) × (after ≡ some svc') × Calls now svc svc'

  -- The configuration afterwards has the same credentials and targets, and a token service as one
  -- call at most leaves it.
  abbrev pub Called : ℕ → Option AuthConfig → Option AuthConfig → Type 0
  Called now none after = after ≡ none
  Called now (some auth) after =
      (tokens : Option TokenService) × (after ≡ some (record auth { tokens = tokens }))
      × Kept now auth.tokens tokens

  Kept-refl : (now : ℕ) (tokens : Option TokenService) → Kept now tokens tokens
  Kept-refl now none = refl
  Kept-refl now (some svc) = (svc, refl, inl refl)

  pub Called-refl : (now : ℕ) (config : Option AuthConfig) → Called now config config
  Called-refl now none = refl
  Called-refl now (some auth) = (auth.tokens, refl, Kept-refl now auth.tokens)

  answer_with-Called :
      (w : World) (r : Request) (auth : AuthConfig) (tokens : Option TokenService)
      → auth.tokens ≡ tokens
      → Called w.now (some auth) (answer_with c w r auth tokens).1
  answer_with-Called w r auth none e = Called-refl w.now (some auth)
  answer_with-Called w r auth (some svc) e = (
    some (with_tokens c w auth svc r).1,
    refl,
    subst (λ t. Kept w.now t (some (with_tokens c w auth svc r).1)) (sym e)
        (_, refl, with_tokens-Calls w auth svc r),
  )

  handle_auth_request-Called :
      (w : World) (r : Request) (config : Option AuthConfig)
      → Called w.now config (handle_auth_request c w r config).1
  unfolding handle_auth_request
  handle_auth_request-Called w r none = refl
  handle_auth_request-Called w r (some auth) = answer_with-Called w r auth auth.tokens refl

  answer_plain-Called :
      (message : Str) (w : World) (r : Request) (config : Option AuthConfig)
      → Called w.now config (answer_plain c message w r config).1
  unfolding answer_plain
  answer_plain-Called message w r config = elim (Bool-cases (str_eq r.path health_check_path)) [
    | inl root ↦ rw (answer_plain, root) (Called-refl w.now config)
    | inr elsewhere ↦ rw (answer_plain, elsewhere) (handle_auth_request-Called w r config)
  ]

  module _ {S : Type 0} (x : Platform S) (proxies : TrustedProxies) where
    -- A connection leaves the configuration alone, or is a plain request that is answered.
    pub handle_connection_cases :
        (s : S) (peer : SocketAddr) (w : World) (config : Option AuthConfig)
        (Q : Option AuthConfig → Type 0)
        → Q config
        → ((message : Str) (r : Request) → Q (answer_plain c message w r config).1)
        → Q (left config (handle_connection c x s peer proxies w config))
    unfolding handle_connection
    handle_connection_cases s peer w config Q same plain = read (read_request_head x.read s) refl
      where
        parsed :
            (head : Bytes) (s' : S) (o : Option Request)
            → parse_plain_request x.head_parser head ≡ o
            → Q (serve_head c x proxies peer w config (some head, s')).1
        parsed head s' none e = rw e same
        parsed head s' (some r) e = rw e (plain (health_check_message x.version) r)

        read :
            (o : Option (Option Bytes × S))
            → read_request_head x.read s ≡ o
            → Q (left config (handle_connection c x s peer proxies w config))
        read none e = rw (handle_connection, e) same
        read (some (none, s')) e = rw (handle_connection, e) same
        read (some (some head, s')) e = rw (handle_connection, e) (parsed head s' _ refl)

    handle_connection-Called :
        (s : S) (peer : SocketAddr) (w : World) (config : Option AuthConfig)
        → Called w.now config (left config (handle_connection c x s peer proxies w config))
    handle_connection-Called s peer w config =
        handle_connection_cases s peer w config (Called w.now config) (Called-refl w.now config)
          (λ message r. answer_plain-Called message w r config)

  pub left-with_connection :
      (config : Option AuthConfig) (o : Option (Connection × Option AuthConfig))
      → left config (with_connection o) ≡ left config o
  left-with_connection config none = refl
  left-with_connection config (some done) = refl

  module _ {C T S : Type 0} (x : Streams C T S) (proxies : TrustedProxies) where
    pub handle_accepted_stream-Called :
        (tls : Option C) (s : T) (peer : SocketAddr) (w : World) (config : Option AuthConfig)
        → Called w.now config (left config (handle_accepted_stream c x tls s peer proxies w config))
    unfolding handle_accepted_stream
    handle_accepted_stream-Called none s peer w config =
        rw (left-with_connection config (handle_connection c (x.plain) s peer proxies w config))
          (handle_connection-Called (x.plain) proxies s peer w config)
    handle_accepted_stream-Called (some tls) s peer w config =
        elim (Option-cases (x.tls_accept tls s)) [
          | inl failed ↦ rw (handle_accepted_stream, failed) (Called-refl w.now config)
          | inr (over, shaken) ↦
              rw (handle_accepted_stream, shaken)
                (subst (Called w.now config)
                  (sym (
                    left-with_connection config
                      (handle_connection c (x.over_tls) over peer proxies w config)))
                  (handle_connection-Called (x.over_tls) proxies over peer w config))
        ]
