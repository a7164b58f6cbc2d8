-- ===== src/Server/Logout.antt =====
-- What a logout means for the whole program: `POST /auth/revoke` of src/token_api.rs, whatever
-- connections and reloads follow, and `authorize_request` of src/auth.rs at the end.
use mathlib.Core.Path.{subst}
use ws2tcp_router.Prelude.{
  Option, ℕ, ◌+◌, ◌/◌, ◌^◌, ◌≤◌, ◌<◌, ◌≡◌, ◌∙◌, refl, ap, arith, true, false, none, some, List, ◌∷◌,
  ok, inl, inr, str_eq, nat_eq,
}
use ws2tcp_router.Text.{Str, Bytes}
use ws2tcp_router.HashMap.{get}
use ws2tcp_router.HashMap.Laws.{get-insert}
use ws2tcp_router.Encoding.RoundTrip.{IsStr}
use ws2tcp_router.Http.{Request, header_str, authorization}
use ws2tcp_router.Crypto.{Crypto, IsCrypto}
use ws2tcp_router.Token.{TokenService, World, from_secs, nanos}
use ws2tcp_router.Token.Store.{revoke_family}
use ws2tcp_router.Token.Access.{mint_access, verify_access}
use ws2tcp_router.Token.Access.Laws.{mint_access_config}
use ws2tcp_router.Token.Service as Service
use ws2tcp_router.Token.Service.{hash_token, family_of}
use ws2tcp_router.Token.Histories.{revokes, step, run, IsStore, step-IsStore, step_config}
use ws2tcp_router.Token.Revocation.{verify_access-revoked}
use ws2tcp_router.ClientAddr.{SocketAddr, TrustedProxies}
use ws2tcp_router.Auth.{AuthConfig, bearer_token, allows_anonymous_target, authorize_request}
use ws2tcp_router.Auth.Decision.{authorize_request_iff}
use ws2tcp_router.TokenApi.{
  revoke, endpoint_of, answer_revoke, answer, checked_answer, with_tokens, answer_with,
  handle_auth_request,
}
use ws2tcp_router.TokenApi.Endpoints.{IsServed}
use ws2tcp_router.HttpProbe.{read_request_head, parse_plain_request}
use ws2tcp_router.Proxy.{health_check_path, answer_plain}
use ws2tcp_router.Main.{Streams, with_connection, handle_accepted_stream}
use ws2tcp_router.Connection.{Platform, health_check_message, handle_connection}
use ws2tcp_router.Server.{Event, connects, left, serve, serve_all, Chronological}
use ws2tcp_router.Server.Calls.{Ran, serve_all-Ran}

module _ (c : Crypto) (w : World) (auth : AuthConfig) (svc : TokenService) (r : Request)
    (f : ℕ) where
  -- The request is a POST without a body to the logout endpoint, with a Bearer token that is a
  -- current or spent refresh token of the family `f`.
  pub record IsLogout : Type 0 where
    pub tokens : auth.tokens ≡ some svc
    pub served : IsServed c w auth svc r revoke
    pub text : Str
    pub token : Str
    pub header : header_str r authorization ≡ some text
    pub bearer : bearer_token text ≡ some token
    pub known : family_of c svc w (hash_token c token) svc.state ≡ some f

  module _ (h : IsLogout) where
    abbrev after : TokenService
    after = step c svc (revokes h.token w)

    with_tokens-after : (with_tokens c w auth svc r).1 ≡ after
    unfolding with_tokens checked_answer answer answer_revoke endpoint_of str_eq step
    with_tokens-after =
        let at_revoke : endpoint_of r.path ≡ some revoke = rw (h.served.path) refl in
        rw
          (
            with_tokens, at_revoke, checked_answer, h.served.method, h.served.body, answer,
            answer_revoke, h.header, h.bearer,
          )
          refl

    answer_plain-after :
        (message : Str)
        → (answer_plain c message w r (some auth)).1 ≡ some (record auth { tokens = some after })
    unfolding answer_plain handle_auth_request str_eq
    answer_plain-after message =
        let elsewhere : str_eq r.path health_check_path ≡ false = rw (h.served.path) refl in
        rw (answer_plain, elsewhere, handle_auth_request)
          (ap (λ t. (answer_with c w r auth t).1) h.tokens
            ∙ ap (λ s. some (record auth { tokens = some s })) with_tokens-after)

    after_revoked : get f after.state.revoked ≡ some (w.now + after.access_ttl)
    unfolding step Service.revoke revoke_family
    after_revoked =
        let same : nat_eq.beq f f ≡ true = (nat_eq.beq_iff f f).1 refl in
        let inserted = get-insert f f (w.now + svc.access_ttl) svc.state.revoked in
        rw (step, Service.revoke, h.known) (rw same at inserted)

-- The stream starts with the head of the request, read and parsed as a plain one.
abbrev pub Heads : {S : Type 0} → Platform S → S → Request → Type 0
Heads {S} x s r =
    (head : Bytes) × (rest : S) × (read_request_head x.read s ≡ some (some head, rest))
    × (parse_plain_request x.head_parser head ≡ some r)

-- The same of the stream of a connection, behind TLS where the listener has it.
abbrev pub Asks : {C T S : Type 0} → Streams C T S → Option C → T → Request → Type 0
Asks x none s r = Heads (x.plain) s r
Asks {C} {T} {S} x (some tls) s r =
    (over : S) × (x.tls_accept tls s ≡ some over) × Heads (x.over_tls) over r

module _ (c : Crypto) (proxies : TrustedProxies) (peer : SocketAddr) (w : World) (auth : AuthConfig)
    (svc : TokenService) (r : Request) (f : ℕ) (h : IsLogout c w auth svc r f) where
  abbrev logged_out : Option AuthConfig
  logged_out = some (record auth { tokens = some (step c svc (revokes h.token w)) })

  handle_connection-logged_out :
      {S : Type 0} (x : Platform S) (s : S)
      → Heads x s r
      → left (some auth) (with_connection (handle_connection c x s peer proxies w (some auth)))
        ≡ logged_out
  unfolding handle_connection
  handle_connection-logged_out x s (head, rest, read, parsed) =
      rw (handle_connection, read, parsed)
        (answer_plain-after c w auth svc r f h (health_check_message x.version))

  serve-logged_out :
      {C T S : Type 0} (x : Streams C T S) (tls : Option C) (s : T)
      → Asks x tls s r
      → serve c x proxies (some auth) (connects tls s peer w) ≡ logged_out
  unfolding serve handle_accepted_stream
  serve-logged_out x none s heads = handle_connection-logged_out (x.plain) s heads
  serve-logged_out x (some tls) s (over, shaken, heads) =
      rw (serve, handle_accepted_stream, shaken)
        (handle_connection-logged_out (x.over_tls) over heads)

module _ (c : Crypto) {C T S : Type 0} (x : Streams C T S) (proxies : TrustedProxies) where
  -- What a Bearer token is good for that the service refuses: for the allowlist only.
  refused_bearer :
      (auth : AuthConfig) (svc : TokenService) (now : ℕ) (r : Request) (text token user : Str)
      → auth.tokens ≡ some svc
      → header_str r authorization ≡ some text
      → bearer_token text ≡ some token
      → verify_access c svc now token ≡ none
      → authorize_request c now r (some auth) ≡ ok user
      → allows_anonymous_target c auth r.path ≡ true
  refused_bearer auth svc now r text token user there header bearer refused let_in =
      elim ((authorize_request_iff c now r (some auth) user).0 let_in) [
        | inl (listed, _) ↦ listed
        | inr (_, inl p) ↦
            let text' = p.header in
            let token' = p.bearer in
            let svc' = p.tokens in
            let verified = p.verified in
            let same_text : p.text ≡ text = ground arith in
            let same_token : p.token ≡ token = let b = rw same_text at token' in ground arith in
            let same_service : p.svc ≡ svc = ground arith in
            absurd (let v = rw (same_token, same_service) at verified in cc)
        | inr (_, inr p) ↦
            let text' = p.header in
            let none_there = p.no_bearer in
            let same_text : p.text ≡ text = ground arith in
            absurd (let b = rw same_text at none_there in cc)
      ]

  -- After a logout, the access tokens of the login are no good for the rest of the run: if the
  -- request of a connection, over TLS or not, is a POST without a body to the logout endpoint, with a refresh
  -- token of the family `f`, current or spent, then a later request that bears an access token of
  -- that family, minted no later than the logout, is let in only where the allowlist lets in
  -- everyone, whatever connections and reloads there are in between. The store is well formed at
  -- the logout, the wall clock runs in step with the monotonic one, the lifetime is a number of
  -- seconds, the user is a string, the family and the expiry fit 64 bits, and the base64, HMAC and
  -- comparison functions behave as documented.
  pub serve_all_logout :
      (tls : Option C) (s : T) (peer : SocketAddr) (w : World) (auth : AuthConfig)
      (svc : TokenService) (r : Request) (f : ℕ) (events : List (Event C T))
      (minted_at unix_now end offset ttl minted : ℕ) (user : Str) (later : Request) (text : Str)
      (name : Str)
      → IsCrypto c
      → IsStore svc.state
      → Asks x tls s r
      → IsLogout c w auth svc r f
      → Chronological w.now end events
      → IsStr user
      → f < 2 ^ 64
      → minted_at + ttl < 2 ^ 64
      → svc.access_ttl ≡ from_secs ttl
      → minted_at ≡ (minted + offset) / nanos
      → unix_now ≡ (end + offset) / nanos
      → minted ≤ w.now
      → header_str later authorization ≡ some text
      → bearer_token text ≡ some (mint_access c svc minted_at f user)
      → let after = serve_all c x proxies (some auth) (connects tls s peer w ∷ events) in
        authorize_request c unix_now later after ≡ ok name
        → (auth' : AuthConfig) × (after ≡ some auth')
          × (allows_anonymous_target c auth' later.path ≡ true)
  unfolding serve_all
  serve_all_logout tls s peer w auth svc r f events minted_at unix_now end offset ttl minted user
        later text name k store asks h order hu hf he config u0 u1 early header bearer let_in =
      let svc1 = step c svc (revokes h.token w) in
      let same_config = step_config c svc (revokes h.token w) in
      let first = serve-logged_out c proxies peer w auth svc r f h x tls s asks in
      let (auth', ended, (calls, there, _, in_order)) : Ran c w.now end events
          (some (record auth { tokens = some svc1 }))
          (serve_all c x proxies (some auth) (connects tls s peer w ∷ events)) =
        subst
          (λ o.
            Ran c w.now end events o
              (serve_all c x proxies (some auth) (connects tls s peer w ∷ events)))
          first
          (serve_all-Ran c x proxies w.now end
            (serve c x proxies (some auth) (connects tls s peer w)) events order) in
      let refused : verify_access c (run c svc1 calls) unix_now (mint_access c svc minted_at f user)
          ≡ none =
        rw (← mint_access_config c svc svc1 minted_at f user same_config.0 same_config.1) (
          verify_access-revoked c svc1 calls f minted_at unix_now end offset ttl w.now minted user k
            (step-IsStore c svc (revokes h.token w) store) (after_revoked c w auth svc r f h)
            in_order hu hf he (same_config.1 ∙ config) u0 u1 early) in
      (
        auth',
        ended,
        refused_bearer auth' (run c svc1 calls) unix_now later text _ name there header bearer
            refused (subst (λ o. authorize_request c unix_now later o ≡ ok name) ended let_in),
      )
