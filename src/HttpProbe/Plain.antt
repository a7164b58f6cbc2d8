-- ===== src/HttpProbe/Plain.antt =====
-- Which requests src/http_probe.rs answers itself (`parse_plain_request`).
use ws2tcp_router.Prelude.{
  ◌≡◌, ◌⊎◌, ◌∙◌, arith, true, false, ◌||◌, Bool-cases, none, some, List, [], ◌∷◌, ◌==◌, inl, inr,
  str_eq_iff, if◌then◌else◌,
}
use ws2tcp_router.Prelude.Maybe.{through}
use ws2tcp_router.Text.{Str, Bytes, codes, strip_prefix, starts_with}
use ws2tcp_router.Http.{Request, Method}
use ws2tcp_router.HttpProbe.{
  HeadParser, path_of, is_get_or_head, is_health_check, auth_prefix, is_upgrade,
  parse_plain_request,
}

-- What `Request::builder` does with a target that starts with a slash.
abbrev pub IsBuilder : HeadParser → Type 0
IsBuilder p =
    (m : Method) (target : Str) (headers : List (Str × Bytes)) (r : Request)
    → p.build m target headers ≡ some r
    → (r.method ≡ m) × (starts_with (codes "/") target ≡ true → r.path ≡ path_of target)

-- The health check, or an endpoint of tokens; and no upgrade to a WebSocket.
pub record IsPlain (r : Request) : Type 0 where
  pub served :
      ((r.path ≡ codes "/") × (is_get_or_head r.method ≡ true))
      ⊎ (starts_with auth_prefix r.path ≡ true)
  pub no_upgrade : is_upgrade r ≡ false

-- A path that starts with a slash is that of a target that does.
slash :
    (target : Str)
    → starts_with (codes "/") (path_of target) ≡ true
    → starts_with (codes "/") target ≡ true
unfolding path_of strip_prefix
slash [] h = h
slash (ch ∷ target) h = elim (Bool-cases (ch == b'?' || ch == b'#')) [
  | inl cut ↦ absurd (ground arith)
  | inr kept ↦ ground arith
]

auth_slash : (s : Str) → starts_with auth_prefix s ≡ true → starts_with (codes "/") s ≡ true
unfolding strip_prefix
auth_slash [] h = h
auth_slash (ch ∷ s) h = ground arith

rooted : (s : Str) → s ≡ codes "/" → starts_with (codes "/") s ≡ true
unfolding strip_prefix
rooted s h = rw h

module _ (p : HeadParser) where
  -- A request that the program answers itself is a GET or HEAD of `/`, or has a path under
  -- `/auth/`, and asks for no WebSocket, provided that the request that is built has the method
  -- and path that it is built of.
  pub parse_plain_request-IsPlain :
      (bytes : Bytes) (r : Request) → IsBuilder p → parse_plain_request p bytes ≡ some r → IsPlain r
  unfolding parse_plain_request
  parse_plain_request-IsPlain bytes r builds e =
      through (p.parse bytes) _ e λ (method_name, target_text, headers) parsed e1.
        through method_name _ e1 λ name named e2.
          through (p.method_from name) _ e2 λ method known e3.
            through target_text _ e3 λ target aimed e4.
              through
                (if is_health_check method (path_of target)
                    || starts_with auth_prefix (path_of target)
                  then p.build method target headers
                  else none)
                _ e4
                λ request chosen e5. elim (Bool-cases (is_upgrade request)) [
                  | inl websocket ↦ absurd (ground arith)
                  | inr no_upgrade ↦
                      let same : request ≡ r = ground arith in
                      elim (Bool-cases (
                        is_health_check method (path_of target)
                        || starts_with auth_prefix (path_of target))) [
                          | inr other ↦ absurd (ground arith)
                          | inl wanted ↦
                              let built : p.build method target headers ≡ some request =
                                rw wanted at chosen in
                              let (its_method, its_path) =
                                builds method target headers request built in
                              rw (← same) (record {
                                served = either method target request wanted its_method its_path;
                                no_upgrade = no_upgrade;
                              })
                        ]
                ]
    where
      either :
          (method : Method) (target : Str) (request : Request)
          → is_health_check method (path_of target) || starts_with auth_prefix (path_of target)
            ≡ true
          → request.method ≡ method
          → (starts_with (codes "/") target ≡ true → request.path ≡ path_of target)
          → ((request.path ≡ codes "/") × (is_get_or_head request.method ≡ true))
            ⊎ (starts_with auth_prefix request.path ≡ true)
      either method target request wanted its_method its_path =
          elim (Bool-cases (starts_with auth_prefix (path_of target))) [
            | inl under ↦
                let path : request.path ≡ path_of target =
                  its_path (slash target (auth_slash (path_of target) under)) in
                inr (rw path under)
            | inr outside ↦
                let test = str_eq_iff (path_of target) (codes "/") in
                let root : path_of target ≡ codes "/" = ground (arith, test, wanted, outside) in
                let asked : is_get_or_head method ≡ true = ground (arith, wanted, outside) in
                let path : request.path ≡ path_of target =
                  its_path (slash target (rooted (path_of target) root)) in
                inl (path ∙ root, rw its_method asked)
          ]
