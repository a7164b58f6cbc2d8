-- ===== src/Auth/Reloading.antt =====
-- Reloads of the two files of src/auth.rs: a reload takes effect as a whole or not at all, and
-- keeps the configuration well formed.
use ws2tcp_router.Prelude.{
  ◌≡◌, ◌≢◌, ◌⊎◌, ◌↔◌, refl, ap, arith, Bool, true, false, Bool-cases, Option, List, [], ◌∷◌, ◌++◌,
  Result, ok, err, inl, inr, All, All-append, str_eq_iff,
}
use ws2tcp_router.Text.{Str, is_empty}
use ws2tcp_router.Crypto.{Crypto}
use ws2tcp_router.Auth.{
  AuthConfig, AuthError, no_credentials, lists_eq, load_auth_file, load_anonymous_target_file,
  reload_auth_file, reload_anonymous_target_file,
}
use ws2tcp_router.Auth.Anonymous.{IsNormal, load_anonymous_target_file-IsNormal}

lists_eq_iff : (xs ys : List Str) → (lists_eq xs ys ≡ true) ↔ (xs ≡ ys)
unfolding lists_eq
lists_eq_iff [] [] = ground arith
lists_eq_iff [] (y ∷ ys) = ground arith
lists_eq_iff (x ∷ xs) [] = ground arith
lists_eq_iff (x ∷ xs) (y ∷ ys) =
    let rest = lists_eq_iff xs ys in let head = str_eq_iff x y in ground (arith, rest, head)

is_empty-true : (xs : List Str) → is_empty xs ≡ true → xs ≡ []
is_empty-true [] h = refl
is_empty-true (x ∷ xs) h = absurd (cc)

pub is_empty-false : (xs : List Str) → is_empty xs ≡ false → xs ≢ []
is_empty-false [] h = absurd (cc)
is_empty-false (x ∷ xs) h = λ e. cc

-- What the program keeps of its configuration: there is a credential, the fixed entries come
-- first, and every allowlist entry is a target's address.
pub record IsConfig (auth : AuthConfig) : Type 0 where
  pub some_credential : auth.expected_authorizations ≢ []
  pub fixed_credentials :
      (more : List Str) × (auth.expected_authorizations ≡ auth.fixed_authorizations ++ more)
  pub fixed_targets :
      (more : List Str) × (auth.anonymous_targets ≡ auth.fixed_anonymous_targets ++ more)
  pub normal : All IsNormal auth.anonymous_targets
  pub fixed_normal : All IsNormal auth.fixed_anonymous_targets

-- One reload of a file with the given contents.
pub data Reload : Type 0 where
  credentials targets : Option Str → Reload

module _ (c : Crypto) where
  -- The ways in which a reload of the credentials can end.
  reload_auth_file_cases :
      (auth : AuthConfig) (file : Option Str) (Q : Result AuthError Bool × AuthConfig → Type 0)
      → ((e : AuthError) → Q (err e, auth))
      → ((loaded : List Str)
          → load_auth_file c file ≡ ok loaded
          → auth.fixed_authorizations ++ loaded ≢ []
          → auth.expected_authorizations ≡ auth.fixed_authorizations ++ loaded
          → Q (ok false, auth))
      → ((loaded : List Str)
          → load_auth_file c file ≡ ok loaded
          → auth.fixed_authorizations ++ loaded ≢ []
          → auth.expected_authorizations ≢ auth.fixed_authorizations ++ loaded
          → Q (
            ok true,
            record auth { expected_authorizations = auth.fixed_authorizations ++ loaded },
          ))
      → Q (reload_auth_file c auth file)
  unfolding reload_auth_file
  reload_auth_file_cases auth file Q failed same changed = go (load_auth_file c file) refl
    where
      go :
          (r : Result AuthError (List Str))
          → load_auth_file c file ≡ r
          → Q (reload_auth_file c auth file)
      go (err e) read = rw (reload_auth_file, read) (failed e)
      go (ok loaded) read =
          let next = auth.fixed_authorizations ++ loaded in
          let test = lists_eq_iff auth.expected_authorizations next in
          elim (Bool-cases (is_empty next)) [
            | inl empty ↦ rw (reload_auth_file, read, empty) (failed no_credentials)
            | inr full ↦ elim (Bool-cases (lists_eq auth.expected_authorizations next)) [
              | inl e ↦
                  rw (reload_auth_file, read, full, e)
                    (same loaded read (is_empty-false next full) (test.0 e))
              | inr e ↦
                  rw (reload_auth_file, read, full, e)
                    (changed loaded read (is_empty-false next full)
                      (λ eq. ground (arith, test, e, eq)))
            ]
          ]

  -- A file that can be read, with the fixed credentials, is what is expected after a reload.
  pub reload_auth_file-loaded :
      (auth : AuthConfig) (file : Option Str) (loaded : List Str)
      → load_auth_file c file ≡ ok loaded
      → auth.fixed_authorizations ++ loaded ≢ []
      → (reload_auth_file c auth file).1
        ≡ record auth { expected_authorizations = auth.fixed_authorizations ++ loaded }
  unfolding reload_auth_file
  reload_auth_file-loaded auth file loaded read full =
      let next = auth.fixed_authorizations ++ loaded in
      elim (Bool-cases (is_empty next)) [
        | inl empty ↦ absurd (full (is_empty-true next empty))
        | inr there ↦ elim (Bool-cases (lists_eq auth.expected_authorizations next)) [
          | inl e ↦
              rw (reload_auth_file, read, there, e)
                (ap (λ l. record auth { expected_authorizations = l })
                  ((lists_eq_iff auth.expected_authorizations next).0 e))
          | inr e ↦ rw (reload_auth_file, read, there, e) refl
        ]
      ]

  -- A reload of the credentials either fails and changes nothing, or makes the fixed credentials
  -- and those of the file the expected ones, and reports whether that changed the list. No other
  -- part of the configuration changes.
  pub reload_auth_file_whole :
      (auth : AuthConfig) (file : Option Str)
      → let p = reload_auth_file c auth file in
        ((e : AuthError) × (p.0 ≡ err e) × (p.1 ≡ auth))
        ⊎ ((changed : Bool) × (loaded : List Str) × (p.0 ≡ ok changed)
            × (load_auth_file c file ≡ ok loaded)
            × (p.1 ≡ record auth { expected_authorizations = auth.fixed_authorizations ++ loaded })
            × ((changed ≡ true)
                ↔ (auth.expected_authorizations ≢ auth.fixed_authorizations ++ loaded)))
  reload_auth_file_whole auth file =
      reload_auth_file_cases auth file
        (λ p.
          ((e : AuthError) × (p.0 ≡ err e) × (p.1 ≡ auth))
          ⊎ ((changed : Bool) × (loaded : List Str) × (p.0 ≡ ok changed)
              × (load_auth_file c file ≡ ok loaded)
              × (p.1
                  ≡ record auth { expected_authorizations = auth.fixed_authorizations ++ loaded })
              × ((changed ≡ true)
                  ↔ (auth.expected_authorizations ≢ auth.fixed_authorizations ++ loaded))))
        (λ e. inl (e, refl, refl))
        (λ loaded read full same. inr (
          false,
          loaded,
          refl,
          read,
          ap (λ l. record auth { expected_authorizations = l }) same,
          ((λ h. absurd (cc)), λ differs. absurd (differs same)),
        ))
        (λ loaded read full differs.
          inr (true, loaded, refl, read, refl, ((λ h. differs), λ h. refl)))

  unfoldable pub reload : AuthConfig → Reload → AuthConfig
  unfolding reload_auth_file reload_anonymous_target_file
  reload auth (credentials file) = (reload_auth_file c auth file).1
  reload auth (targets file) = (reload_anonymous_target_file c auth file).1

  unfoldable pub reload_all : AuthConfig → List Reload → AuthConfig
  unfolding reload
  reload_all auth [] = auth
  reload_all auth (r ∷ rs) = reload_all (reload auth r) rs

  reload_targets-IsConfig :
      (auth : AuthConfig) (file : Option Str)
      → IsConfig auth
      → IsConfig (reload_anonymous_target_file c auth file).1
  unfolding reload_anonymous_target_file
  reload_targets-IsConfig auth file k = go (load_anonymous_target_file file) refl
    where
      go :
          (r : Result AuthError (List Str))
          → load_anonymous_target_file file ≡ r
          → IsConfig (reload_anonymous_target_file c auth file).1
      go (err e) read = rw (reload_anonymous_target_file, read) k
      go (ok loaded) read =
          elim (Bool-cases
            (lists_eq auth.anonymous_targets (auth.fixed_anonymous_targets ++ loaded))) [
              | inl same ↦ rw (reload_anonymous_target_file, read, same) k
              | inr differs ↦
                  rw (reload_anonymous_target_file, read, differs)
                    (record {
                      some_credential = k.some_credential;
                      fixed_credentials = k.fixed_credentials;
                      fixed_targets = (loaded, refl);
                      normal =
                          All-append IsNormal auth.fixed_anonymous_targets loaded k.fixed_normal
                            (load_anonymous_target_file-IsNormal file read);
                      fixed_normal = k.fixed_normal;
                    })
            ]

  pub reload-IsConfig : (auth : AuthConfig) (r : Reload) → IsConfig auth → IsConfig (reload auth r)
  unfolding reload
  reload-IsConfig auth (targets file) k = reload_targets-IsConfig auth file k
  reload-IsConfig auth (credentials file) k =
      reload_auth_file_cases auth file (λ p. IsConfig p.1) (λ e. k) (λ loaded _ _ _. k)
        (λ loaded read full _. record {
          some_credential = full;
          fixed_credentials = (loaded, refl);
          fixed_targets = k.fixed_targets;
          normal = k.normal;
          fixed_normal = k.fixed_normal;
        })

  -- Whatever the files hold at any reloads, there is still a credential, the fixed credentials and
  -- targets are still there, and every entry of the allowlist is the address of a target.
  pub reload_all-IsConfig :
      (auth : AuthConfig) (rs : List Reload) → IsConfig auth → IsConfig (reload_all auth rs)
  unfolding reload_all
  reload_all-IsConfig auth [] k = k
  reload_all-IsConfig auth (r ∷ rs) k =
      reload_all-IsConfig (reload auth r) rs (reload-IsConfig auth r k)
