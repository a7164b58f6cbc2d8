-- ===== src/Proxy/Routing.antt =====
-- Which connections reach an upstream, and which (the handshake's callback in src/proxy.rs).
use ws2tcp_router.Prelude.{
  ℕ, ◌≡◌, ◌⊎◌, ◌↔◌, ◌∙◌, refl, sym, arith, false, Bool-cases, Option, Result, ok, err, ◌>>=◌,
  >>=-eq-ok, inl, inr, str_eq, str_eq_iff,
}
use ws2tcp_router.Text.{Str}
use ws2tcp_router.Http.{Request, Response, response}
use ws2tcp_router.Target.{Target, TargetError, parse_target}
use ws2tcp_router.Target.Paths.{IsTarget, parse_target_sound}
use ws2tcp_router.Crypto.{Crypto}
use ws2tcp_router.Auth.{AuthConfig, authorize_request}
use ws2tcp_router.Proxy.{
  Route, health_check, proxy, health_check_path, path_message, capture_requested_target, with_user,
  accept,
}

-- The route of a path: the health check, or the target that it names.
abbrev pub IsRoute : Str → Route → Type 0
IsRoute path health_check = path ≡ health_check_path
IsRoute path (proxy t) = (path ≡ health_check_path → ⊥) × (parse_target path ≡ ok t) × IsTarget t

capture-IsRoute :
    (r : Request) (route : Route) → capture_requested_target r ≡ ok route → IsRoute r.path route
unfolding capture_requested_target
capture-IsRoute r route e =
    let test = str_eq_iff r.path health_check_path in
    elim (Bool-cases (str_eq r.path health_check_path)) [
      | inl same ↦ at_root route (ground arith) (test.0 same)
      | inr differs ↦
          named (parse_target r.path) refl (rw (capture_requested_target, differs) at e) differs
    ]
  where
    at_root : (x : Route) → x ≡ health_check → r.path ≡ health_check_path → IsRoute r.path x
    at_root health_check same h = h
    at_root (proxy t) same h = absurd (cc)

    named :
        (p : Result TargetError Target)
        → parse_target r.path ≡ p
        → (elim p [ ok target ↦ ok (proxy target) | err e ↦ err (response 400 path_message) ])
          ≡ ok route
        → str_eq r.path health_check_path ≡ false
        → IsRoute r.path route
    named (err x) parsed h differs = absurd (ground arith)
    named (ok t) parsed h differs =
        let test = str_eq_iff r.path health_check_path in
        let same : proxy t ≡ route = ground arith in
        rw (← same) (
          (λ root. ground (arith, test, root, differs)),
          parsed,
          (parse_target_sound r.path t parsed).0,
        )

IsRoute-capture :
    (r : Request) (route : Route) → IsRoute r.path route → capture_requested_target r ≡ ok route
unfolding capture_requested_target
IsRoute-capture r health_check h =
    let test = str_eq_iff r.path health_check_path in rw (capture_requested_target, test.1 h)
IsRoute-capture r (proxy t) (other, parsed, valid) =
    let test = str_eq_iff r.path health_check_path in
    let differs : str_eq r.path health_check_path ≡ false = ground (arith, test, other) in
    rw (capture_requested_target, differs, parsed)

capture_status : (r : Request) (x : Response) → capture_requested_target r ≡ err x → x.status ≡ 400
unfolding capture_requested_target
capture_status r x e = elim (Bool-cases (str_eq r.path health_check_path)) [
  | inl same ↦ absurd (ground arith)
  | inr differs ↦ refused (parse_target r.path) (rw (capture_requested_target, differs) at e)
]
  where
    refused :
        (p : Result TargetError Target)
        → (elim p [ ok target ↦ ok (proxy target) | err e ↦ err (response 400 path_message) ])
          ≡ err x
        → x.status ≡ 400
    refused (ok t) h = absurd (ground arith)
    refused (err y) h = let same : response 400 path_message ≡ x = ground arith in rw (← same) refl

module _ (c : Crypto) (now : ℕ) (r : Request) (config : Option AuthConfig) where
  -- The handshake accepts a connection for a user and a route exactly if the request is
  -- authorised as that user and its path is `/`, for the health check, or the path of that
  -- target, which then has a well-formed host and a port of 16 bits.
  pub accept_iff :
      (user : Str) (route : Route)
      → (accept c now r config ≡ ok (user, route))
        ↔ ((authorize_request c now r config ≡ ok user) × IsRoute r.path route)
  unfolding accept
  accept_iff user route = (
    λ h.
        let (name, authorized, h1) = >>=-eq-ok (authorize_request c now r config) _ h in
        let (taken, captured, h2) = >>=-eq-ok (capture_requested_target r) _ h1 in
        let same : name ≡ user = ground arith in
        let same_route : taken ≡ route = ground arith in
        (rw (← same) authorized, rw (← same_route) (capture-IsRoute r taken captured)),
    λ (authorized, at). rw (accept, authorized) (rw (IsRoute-capture r route at)),
  )

  -- The handshake refuses a connection either with the answer of the authentication, or, for a
  -- request that is authorised, with 400 for a path that names no route. So an unauthorised
  -- client does not learn whether its path is one.
  pub accept-err :
      (answer : Response)
      → accept c now r config ≡ err answer
      → (authorize_request c now r config ≡ err answer)
        ⊎ ((user : Str) × (authorize_request c now r config ≡ ok user)
            × (answer.status ≡ 400)
            × ((route : Route) → IsRoute r.path route → ⊥))
  unfolding accept
  accept-err answer h = split (authorize_request c now r config) refl
    where
      injective :
          (x : Response) → ◌≡◌ {A = Result Response (Str × Route)} (err x) (err answer) → x ≡ answer
      injective x q = ground arith

      unrouted :
          (o : Result Response Route) (user : Str)
          → capture_requested_target r ≡ o
          → (o >>= with_user user) ≡ err answer
          → (answer.status ≡ 400) × ((route : Route) → IsRoute r.path route → ⊥)
      unrouted (ok route) user captured e = absurd (cc)
      unrouted (err x) user captured e =
          let same : x ≡ answer = ground arith in
          (
            rw (← same) (capture_status r x captured),
            λ route at.
                let both : err x ≡ ok route = sym captured ∙ IsRoute-capture r route at in
                absurd (ground arith),
          )

      split :
          (o : Result Response Str)
          → authorize_request c now r config ≡ o
          → (authorize_request c now r config ≡ err answer)
            ⊎ ((user : Str) × (authorize_request c now r config ≡ ok user)
                × (answer.status ≡ 400)
                × ((route : Route) → IsRoute r.path route → ⊥))
      split (err x) e =
          let same : x ≡ answer = injective x (rw (accept, e) at h) in inl (rw (← same) e)
      split (ok user) e =
          let (status, none_at) =
            unrouted (capture_requested_target r) user refl (rw (accept, e) at h) in
          inr (user, e, status, none_at)
