-- ===== src/Server/Removal.antt =====
-- What the removal of a user means for the whole program: a reload of the credential file that
-- does not name the user (`reload_auth_file` of src/auth.rs), whatever connections and reloads
-- follow, and `authorize_request` at the end.
use mathlib.Core.Path.{subst}
use ws2tcp_router.Prelude.{
  ℕ, ◌≡◌, ◌⊎◌, refl, sym, ap, Bool-cases, false, any, Option, some, Option-cases, List, [], ◌∷◌,
  ◌++◌, ok, inl, inr, All, All-append, ◌≢◌,
}
use ws2tcp_router.Text.{Str}
use ws2tcp_router.Encoding.RoundTrip.{IsStr}
use ws2tcp_router.Http.{Request, header_str, authorization}
use ws2tcp_router.Crypto.{Crypto, IsCrypto}
use ws2tcp_router.ClientAddr.{TrustedProxies}
use ws2tcp_router.Auth.{
  AuthConfig, is_user, basic_auth_username, has_user, load_auth_file, reload_auth_file,
  allows_anonymous_target, authorize_request, anonymous_auth_user,
}
use ws2tcp_router.Auth.Decision.{authorize_request_iff}
use ws2tcp_router.Auth.Reloading.{reload_auth_file-loaded, reload_auth_file_whole}
use ws2tcp_router.Auth.Polling.{basic_auth, anonymous_target, spawn_auth_file_reloader, reload_with}
use ws2tcp_router.Auth.Users.{authorize_request-has_user}
use ws2tcp_router.Main.{Streams}
use ws2tcp_router.Server.{Event, connects, polls, tasks_of, poll_all, serve, serve_all}
use ws2tcp_router.Server.Connections.{handle_accepted_stream-Called}
use ws2tcp_router.Server.Calls.{reload_targets_cases}

module _ (c : Crypto) (user path : Str) (fixed : List Str) where
  -- A header that is a string, and not one of the user.
  abbrev IsOther : Str → Type 0
  IsOther expected = IsStr expected × (is_user c user (basic_auth_username c expected) ≡ false)

  any-IsOther :
      (l : List Str)
      → All IsOther l
      → any (λ expected. is_user c user (basic_auth_username c expected)) l ≡ false
  any-IsOther [] h = refl
  any-IsOther (x ∷ xs) ((_, other), rest) = rw (other, any-IsOther xs rest) refl

  All-IsStr : (l : List Str) → All IsOther l → All IsStr l
  All-IsStr [] h = tt
  All-IsStr (x ∷ xs) ((string, _), rest) = (string, All-IsStr xs rest)

  -- The credentials that are expected are other users', and so are the fixed ones, `fixed`; the
  -- rest is in the file `path`.
  record IsRemoved (auth : AuthConfig) : Type 0 where
    file : auth.basic_auth_file ≡ some path
    fixed_ones : auth.fixed_authorizations ≡ fixed
    others : All IsOther auth.expected_authorizations

  -- If the event is a reload of the credentials that succeeds, they are other users'.
  abbrev pub StaysOut : {C T : Type 0} → Event C T → Type 0
  StaysOut (connects tls s peer w) = Unit
  StaysOut (polls anonymous_target files) = Unit
  StaysOut (polls basic_auth files) =
      (loaded : List Str) → load_auth_file c (files path) ≡ ok loaded → All IsOther loaded

  tasks_of-basic_auth :
      (auth : AuthConfig)
      → auth.basic_auth_file ≡ some path
      → tasks_of basic_auth auth ≡ (basic_auth, path) ∷ []
  unfolding spawn_auth_file_reloader
  tasks_of-basic_auth auth file = elim (Option-cases auth.anonymous_target_file) [
    | inl no_file ↦ rw (tasks_of, spawn_auth_file_reloader, file, no_file) refl
    | inr (other, there) ↦ rw (tasks_of, spawn_auth_file_reloader, file, there) refl
  ]

  tasks_of-anonymous_target :
      (auth : AuthConfig)
      → auth.basic_auth_file ≡ some path
      → (tasks_of anonymous_target auth ≡ [])
        ⊎ ((other : Str) × (tasks_of anonymous_target auth ≡ (anonymous_target, other) ∷ []))
  unfolding spawn_auth_file_reloader
  tasks_of-anonymous_target auth file = elim (Option-cases auth.anonymous_target_file) [
    | inl no_file ↦ inl (rw (tasks_of, spawn_auth_file_reloader, file, no_file) refl)
    | inr (other, there) ↦ inr (other, rw (tasks_of, spawn_auth_file_reloader, file, there) refl)
  ]

  reload_auth_file-IsRemoved :
      (auth : AuthConfig) (file : Option Str)
      → IsRemoved auth
      → All IsOther fixed
      → ((loaded : List Str) → load_auth_file c file ≡ ok loaded → All IsOther loaded)
      → IsRemoved (reload_auth_file c auth file).1
  reload_auth_file-IsRemoved auth file k kept stays = elim (reload_auth_file_whole c auth file) [
    | inl (e, _, same) ↦ rw same k
    | inr (changed, loaded, _, read, same, _) ↦ rw same (record {
      file = k.file;
      fixed_ones = k.fixed_ones;
      others =
          All-append IsOther auth.fixed_authorizations loaded (rw (k.fixed_ones) kept)
            (stays loaded read);
    })
  ]

  polls_targets-IsRemoved :
      (auth : AuthConfig) (files : Str → Option Str)
      → IsRemoved auth
      → IsRemoved (poll_all c files (tasks_of anonymous_target auth) auth)
  unfolding poll_all spawn_auth_file_reloader reload_with
  polls_targets-IsRemoved auth files k = elim (tasks_of-anonymous_target auth k.file) [
    | inl none_there ↦ rw none_there k
    | inr (other, there) ↦ rw there (
        reload_targets_cases c auth (files other) IsRemoved k
          (λ targets. record { file = k.file; fixed_ones = k.fixed_ones; others = k.others }))
  ]

  module _ {C T S : Type 0} (x : Streams C T S) (proxies : TrustedProxies) where
    serve-IsRemoved :
        (auth : AuthConfig) (e : Event C T)
        → IsRemoved auth
        → All IsOther fixed
        → StaysOut e
        → (auth' : AuthConfig) × (serve c x proxies (some auth) e ≡ some auth') × IsRemoved auth'
    unfolding serve poll_all reload_with
    serve-IsRemoved auth (connects tls s peer w) k kept stays =
        let (tokens, same, _) =
          handle_accepted_stream-Called c x proxies tls s peer w (some auth) in
        (_, same, record { file = k.file; fixed_ones = k.fixed_ones; others = k.others })
    serve-IsRemoved auth (polls anonymous_target files) k kept stays =
        (_, refl, polls_targets-IsRemoved auth files k)
    serve-IsRemoved auth (polls basic_auth files) k kept stays = (
      (reload_auth_file c auth (files path)).1,
      ap (λ tasks. some (poll_all c files tasks auth)) (tasks_of-basic_auth auth k.file),
      reload_auth_file-IsRemoved auth (files path) k kept stays,
    )

    serve_all-IsRemoved :
        (auth : AuthConfig) (es : List (Event C T))
        → IsRemoved auth
        → All IsOther fixed
        → All StaysOut es
        → (auth' : AuthConfig) × (serve_all c x proxies (some auth) es ≡ some auth')
          × IsRemoved auth'
    unfolding serve_all
    serve_all-IsRemoved auth [] k kept stays = (auth, refl, k)
    serve_all-IsRemoved auth (e ∷ es) k kept (first, rest) =
        let (auth1, same, k1) = serve-IsRemoved auth e k kept first in
        subst
          (λ o. (auth' : AuthConfig) × (serve_all c x proxies o es ≡ some auth') × IsRemoved auth')
          (sym same) (serve_all-IsRemoved auth1 es k1 kept rest)

    -- A user who is removed from the credential file is not let in any more: if a reload reads the
    -- file, and its credentials and the fixed ones, at least one, are strings and none the user's,
    -- then whatever connections and reloads follow, as long as no reload reads credentials of the
    -- user again, no request is let in as the user, not even with an access token that was issued
    -- to the user before. The user is not called `anonymous`, which stands for those who are let
    -- in without credentials; the header of the request is a string, and the comparison of headers
    -- behaves as documented.
    pub serve_all_removed :
        (auth : AuthConfig) (files : Str → Option Str) (loaded : List Str)
        (events : List (Event C T)) (now : ℕ) (request : Request)
        → IsCrypto c
        → auth.basic_auth_file ≡ some path
        → auth.fixed_authorizations ≡ fixed
        → load_auth_file c (files path) ≡ ok loaded
        → fixed ++ loaded ≢ []
        → All IsOther fixed
        → All IsOther loaded
        → All StaysOut events
        → user ≢ anonymous_auth_user
        → ((text : Str) → header_str request authorization ≡ some text → IsStr text)
        → authorize_request c now request
            (serve_all c x proxies (some auth) (polls basic_auth files ∷ events))
          ≢ ok user
    unfolding serve_all serve poll_all reload_with has_user
    serve_all_removed auth files loaded events now request crypto file fixed_ones read full kept
          others stays named strings let_in =
        let after = serve_all c x proxies (some auth) (polls basic_auth files ∷ events) in
        let full' : auth.fixed_authorizations ++ loaded ≢ [] = rw fixed_ones full in
        let first : IsRemoved (reload_auth_file c auth (files path)).1 =
          rw (reload_auth_file-loaded c auth (files path) loaded read full') (record {
            file = file;
            fixed_ones = fixed_ones;
            others =
                All-append IsOther auth.fixed_authorizations loaded (rw fixed_ones kept) others;
          }) in
        let (auth', ended, k) : (auth' : AuthConfig) × (after ≡ some auth') × IsRemoved auth' =
          rw (tasks_of-basic_auth auth file) (serve_all-IsRemoved _ events first kept stays) in
        let let_in' = subst (λ o. authorize_request c now request o ≡ ok user) ended let_in in
        elim (Bool-cases (allows_anonymous_target c auth' request.path)) [
          | inl listed ↦ elim ((authorize_request_iff c now request (some auth') user).0 let_in') [
            | inl (_, anonymous) ↦ named anonymous
            | inr (unlisted, _) ↦ cc
          ]
          | inr unlisted ↦
              let known =
                authorize_request-has_user c auth' now request user crypto strings
                  (All-IsStr auth'.expected_authorizations k.others) let_in' unlisted in
              let unknown = any-IsOther auth'.expected_authorizations k.others in cc
        ]
