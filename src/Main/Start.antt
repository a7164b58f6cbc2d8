-- ===== src/Main/Start.antt =====
-- What the program of src/main.rs has started when its start succeeds, and that it does not panic.
use mathlib.Core.Path.{subst}
use ws2tcp_router.Prelude.{
  ℕ, ◌≡◌, refl, sym, Bool, true, false, Bool-cases, Option, none, some, List, [], ◌∷◌, ◌++◌, Result,
  ok, err, ◌>>=◌, inl, inr,
}
use ws2tcp_router.Text.{codes}
use ws2tcp_router.Crypto.{Crypto}
use ws2tcp_router.ClientAddr.{SocketAddr}
use ws2tcp_router.Args.{Args, CliArgs, includes_ws, includes_wss, from_cli}
use ws2tcp_router.Args.Validation.{IsValid, from_cli_iff}
use ws2tcp_router.Auth.{AuthConfig}
use ws2tcp_router.Auth.Building.{build_auth_config}
use ws2tcp_router.Logging.{init_logging}
use ws2tcp_router.Logging.Setup.{IsSetUp, init_logging-IsSetUp}
use ws2tcp_router.Tls.{TlsError, build_tls_config}
use ws2tcp_router.Tls.Certificates.{IsCertified, build_tls_config-IsCertified}
use ws2tcp_router.Listener.{
  TcpListener, ListenError, resolve_bind_addr, bind_listener, IsBound, bind_listener-IsBound,
  resolve_bind_addr-first,
}
use ws2tcp_router.Main.{
  bad_logging, MainError, bad_args, bad_auth, bad_tls, bad_listener, panicked, raise, Service,
  Started, Host, reloaders_of, tls_of, listen_on, service, start_ws, start_wss, start, main,
}

-- Not the error of a panic.
abbrev pub IsError : MainError → Type 0
IsError panicked = ⊥
IsError _ = Unit

-- A result that is good, or an error, and no panic.
abbrev pub Good : {A : Type 0} → (A → Type 0) → Result MainError A → Type 0
Good P (ok a) = P a
Good P (err e) = IsError e

bind-Good :
    {A B : Type 0} (P : A → Type 0) (Q : B → Type 0) (r : Result MainError A)
    (next : A → Result MainError B)
    → Good P r
    → ((a : A) → P a → Good Q (next a))
    → Good Q (r >>= next)
bind-Good P Q (ok a) next h then_good = then_good a h
bind-Good P Q (err e) next h then_good = h

raise-Good :
    {E A : Type 0} (f : E → MainError) (r : Result E A)
    → ((e : E) → IsError (f e))
    → Good (λ a. r ≡ ok a) (raise f r)
raise-Good f (ok a) h = refl
raise-Good f (err e) h = h e

module _ (c : Crypto) {C F : Type 0} (h : Host C F) (args : Args) where
  -- A listener at the first address of the host of the settings and the port.
  pub record IsListening (port : ℕ) (l : TcpListener) : Type 0 where
    pub rest : List SocketAddr
    pub resolved : h.sockets.to_socket_addrs args.bind port ≡ some (l.addr ∷ rest)
    pub bound : IsBound h.sockets l.addr args.ipv6_only l

  -- The plain service is there if the mode has it, and the one over TLS if the mode has that, with
  -- a certificate.
  abbrev pub HasWs : Option AuthConfig → Bool → List (Service C) → Type 0
  HasWs auth false services = services ≡ []
  HasWs auth true services =
      (l : TcpListener) × (services ≡ service c h args (codes "ws") l auth none ∷ [])
      × IsListening args.port l

  abbrev pub HasWss : Option AuthConfig → Bool → List (Service C) → Type 0
  HasWss auth false services = services ≡ []
  HasWss auth true services =
      (l : TcpListener) × (config : C) × (services
        ≡ service c h args (codes "wss") l auth (some config) ∷ [])
      × IsListening args.tls_port l
      × IsCertified h.tls args config

  pub record IsStarted (s : Started C F) : Type 0 where
    pub logs : IsSetUp h.logs args s.logs
    pub auth : Option AuthConfig
    pub built : build_auth_config c h.read_to_string h.read args h.secret_draw h.now ≡ ok auth
    pub reloaders : s.reloaders ≡ reloaders_of auth
    pub ws : List (Service C)
    pub wss : List (Service C)
    pub services : s.services ≡ ws ++ wss
    pub has_ws : HasWs auth (includes_ws args.service_mode) ws
    pub has_wss : HasWss auth (includes_wss args.service_mode) wss

  listen_on-Good : (port : ℕ) → Good (IsListening port) (listen_on c h args port)
  listen_on-Good port =
      bind-Good (λ a. resolve_bind_addr h.sockets args.bind port ≡ ok a) (IsListening port)
        (raise bad_listener (resolve_bind_addr h.sockets args.bind port)) _
        (raise-Good bad_listener (resolve_bind_addr h.sockets args.bind port) (λ e. tt))
        λ a resolved. listening a resolved (bind_listener h.sockets a args.ipv6_only) refl
    where
      listening :
          (a : SocketAddr)
          → resolve_bind_addr h.sockets args.bind port ≡ ok a
          → (r : Result ListenError TcpListener) → bind_listener h.sockets a args.ipv6_only ≡ r
          → Good (IsListening port) (raise bad_listener r)
      listening a resolved (err e) made = tt
      listening a resolved (ok l) made =
          let bound = bind_listener-IsBound h.sockets a args.ipv6_only l made in
          let (rest, first) = resolve_bind_addr-first h.sockets args.bind port a resolved in
          record {
            rest = rest;
            resolved =
                subst (λ b. h.sockets.to_socket_addrs args.bind port ≡ some (b ∷ rest))
                  (sym bound.addr) first;
            bound = subst (λ b. IsBound h.sockets b args.ipv6_only l) (sym bound.addr) bound;
          }

  start_ws-Good :
      (auth : Option AuthConfig)
      → Good (HasWs auth (includes_ws args.service_mode)) (start_ws c h args auth)
  start_ws-Good auth = elim (Bool-cases (includes_ws args.service_mode)) [
    | inr off ↦ rw off refl
    | inl on ↦ rw on (
        bind-Good (IsListening args.port) (HasWs auth true) (listen_on c h args args.port) _
          (listen_on-Good args.port) (λ l listening. (l, refl, listening)))
  ]

  -- A configuration of TLS that is there whenever it is expected.
  abbrev HasTls : Option C → Type 0
  HasTls o =
      includes_wss args.service_mode ≡ true
      → (config : C) × (o ≡ some config) × IsCertified h.tls args config

  tls_of-Good : IsValid args → Good HasTls (tls_of c h args)
  tls_of-Good v = elim (Bool-cases (includes_wss args.service_mode)) [
    | inr off ↦ rw off (λ on. absurd (cc))
    | inl on ↦ rw on (made (build_tls_config h.tls args) refl)
  ]
    where
      made :
          (r : Result TlsError (Option C))
          → build_tls_config h.tls args ≡ r
          → Good HasTls (raise bad_tls r)
      made (err e) q = tt
      made (ok o) q = λ on. build_tls_config-IsCertified h.tls args o v on q

  start_wss-Good :
      (auth : Option AuthConfig) (tls : Option C)
      → HasTls tls
      → Good (HasWss auth (includes_wss args.service_mode)) (start_wss c h args auth tls)
  start_wss-Good auth tls has = elim (Bool-cases (includes_wss args.service_mode)) [
    | inr off ↦ rw off refl
    | inl on ↦
        let (config, there, certified) = has on in
        rw (on, there)
          (bind-Good (IsListening args.tls_port) (HasWss auth true)
            (listen_on c h args args.tls_port) _ (listen_on-Good args.tls_port)
            (λ l listening. (l, config, refl, listening, certified)))
  ]

  start-Good : IsValid args → Good IsStarted (start c h args)
  unfolding start
  start-Good v =
      let build = build_auth_config c h.read_to_string h.read args h.secret_draw h.now in
      bind-Good (λ logs. init_logging h.logs args ≡ ok logs) IsStarted
        (raise bad_logging (init_logging h.logs args)) _
        (raise-Good bad_logging (init_logging h.logs args) (λ e. tt))
        λ logs set_up.
          bind-Good (λ auth. build ≡ ok auth) IsStarted (raise bad_auth build) _
            (raise-Good bad_auth build (λ e. tt))
            λ auth built. bind-Good HasTls IsStarted (tls_of c h args) _ (tls_of-Good v) λ tls has.
              bind-Good (HasWs auth (includes_ws args.service_mode)) IsStarted
                (start_ws c h args auth) _ (start_ws-Good auth)
                λ ws has_ws.
                  bind-Good (HasWss auth (includes_wss args.service_mode)) IsStarted
                    (start_wss c h args auth tls) _ (start_wss-Good auth tls has)
                    λ wss has_wss. record {
                      logs = init_logging-IsSetUp h.logs args logs set_up;
                      auth = auth;
                      built = built;
                      reloaders = refl;
                      ws = ws;
                      wss = wss;
                      services = refl;
                      has_ws = has_ws;
                      has_wss = has_wss;
                    }

-- The start with certain settings has succeeded.
abbrev pub IsMain : Crypto → {C F : Type 0} → Host C F → CliArgs → Started C F → Type 0
IsMain c h cli s =
    (args : Args) × (from_cli h.read_config cli ≡ ok args) × IsValid args × IsStarted c h args s

-- The program does not panic at its start, whatever its settings, files and sockets are: the TLS
-- configuration is always there where it is expected. If it starts, its settings are valid; the
-- logging is set up as they say; it has built the authentication and reloads each file that is
-- configured; and it listens exactly for
-- what the mode says, at the first address of the host of the settings: on the port without TLS,
-- and on the TLS port with a certificate that is generated or in the named files. An IPv6 listener
-- takes IPv4 connections or not as the settings say, and none is for IPv4 if they say IPv6 only.
pub main-IsMain :
    (c : Crypto) {C F : Type 0} (h : Host C F) (cli : CliArgs)
    → Good (IsMain c h cli) (main c h cli)
unfolding main
main-IsMain c {C} {F} h cli =
    bind-Good (λ args. from_cli h.read_config cli ≡ ok args) (IsMain c h cli)
      (raise bad_args (from_cli h.read_config cli)) _
      (raise-Good bad_args (from_cli h.read_config cli) (λ e. tt))
      λ args e.
        let (config, read, merged, v) = (from_cli_iff h.read_config cli args).0 e in
        settled args e v (start c h args) (start-Good c h args v)
  where
    settled :
        (args : Args)
        → from_cli h.read_config cli ≡ ok args
        → IsValid args
        → (r : Result MainError (Started C F)) → Good (IsStarted c h args) r
        → Good (IsMain c h cli) r
    settled args e v (ok s) good = (args, e, v, good)
    settled args e v (err x) good = good
