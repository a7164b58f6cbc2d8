-- ===== src/Auth/Credentials.antt =====
-- Basic credentials of src/auth.rs: which headers are expected, and whose they are.
use mathlib.Core.List.{foldl}
use ws2tcp_router.Prelude.{
  ◌≡◌, ◌≢◌, ◌⊎◌, ◌↔◌, ◌∙◌, refl, sym, ap, arith, Bool, true, false, ◌||◌, Bool-cases, Option, none,
  some, Option-cases, List, [], ◌∷◌, ok, ◌>>=◌, >>=-eq-ok, inl, inr, Any, any_iff, Any-map,
  Any-proof, All, str_eq_iff, collect-Any, if◌then◌else◌,
}
use ws2tcp_router.Text.{Str, codes, split_once, is_empty, eq_ignore_ascii_case}
use ws2tcp_router.Text.Laws.{strip_prefix-append}
use ws2tcp_router.Encoding.{as_bytes, from_utf8}
use ws2tcp_router.Encoding.RoundTrip.{IsStr, from_utf8-as_bytes, as_bytes-IsBytes}
use ws2tcp_router.Crypto.{Crypto, IsCrypto}
use ws2tcp_router.Auth.{
  AuthConfig, validate_basic_auth_credential, check_credential, bearer_token, basic_header,
  encode_credentials, basic_auth_username, is_expected, is_user, basic_user, has_user,
}

module _ (c : Crypto) where
  abbrev Matches : Str → Str → Type 0
  Matches text e = as_bytes text ≡ as_bytes e

  folded_iff :
      (text : Str) (xs : List Str) (seen : Bool)
      → IsCrypto c
      → (foldl (λ matched e. matched || c.ct_eq (as_bytes text) (as_bytes e)) seen xs ≡ true)
        ↔ ((seen ≡ true) ⊎ Any (Matches text) xs)
  folded_iff text [] seen k = ground arith
  folded_iff text (e ∷ xs) seen k =
      let rest = folded_iff text xs (seen || c.ct_eq (as_bytes text) (as_bytes e)) k in
      let test = k.ct_eq_iff (as_bytes text) (as_bytes e) in ground (arith, rest, test)

  pub is_expected_iff :
      (text : Str) (xs : List Str)
      → IsCrypto c
      → (is_expected c text xs ≡ true) ↔ Any (Matches text) xs
  unfolding is_expected
  is_expected_iff text xs k = let folded = folded_iff text xs false k in ground (arith, folded)

  -- Strings with the same bytes are the same.
  as_bytes-injective : (s t : Str) → IsStr s → IsStr t → as_bytes s ≡ as_bytes t → s ≡ t
  as_bytes-injective s t hs ht e =
      let decoded : some s ≡ some t =
        sym (from_utf8-as_bytes s hs) ∙ ap from_utf8 e ∙ from_utf8-as_bytes t ht in
      ground arith

  -- A credential that passes the validation has a username and a password around its first colon.
  pub validate-ok :
      (credential : Str)
      → validate_basic_auth_credential credential ≡ ok tt
      → (username : Str) × (password : Str) × (split_once b':' credential
          ≡ some (username, password))
        × (username ≢ [])
  unfolding validate_basic_auth_credential check_credential
  validate-ok credential h = elim (Option-cases (split_once b':' credential)) [
    | inl missing ↦ absurd (ground arith)
    | inr ((username, password), split) ↦
        (username, password, split, λ empty. ground (arith, split))
  ]

  nonempty_lem : {A : Type 0} (s : Str) (x y : A) → s ≢ [] → (if is_empty s then x else y) ≡ y
  nonempty_lem [] x y h = absurd (h refl)
  nonempty_lem (b ∷ s) x y h = refl

  pub basic_auth_username-basic_header :
      (credential username password : Str)
      → IsCrypto c
      → IsStr credential
      → split_once b':' credential ≡ some (username, password)
      → username ≢ []
      → basic_auth_username c (basic_header c credential) ≡ some username
  unfolding basic_auth_username
  basic_auth_username-basic_header credential username password k h split full =
      rw
        (
          strip_prefix-append (codes "Basic ") (c.std_encode (as_bytes credential)),
          k.std_decode-encode (as_bytes credential) (as_bytes-IsBytes credential h),
          from_utf8-as_bytes credential h,
          split,
        )
        (nonempty_lem username none (some username) full)

  -- A Basic header is no Bearer header.
  pub bearer_token-basic_header :
      (credential : Str) → bearer_token (basic_header c credential) ≡ none
  unfolding bearer_token split_once eq_ignore_ascii_case
  bearer_token-basic_header credential = refl

  encoded :
      (credentials : List Str) (credential : Str) {headers : List Str}
      → encode_credentials c credentials ≡ ok headers
      → Any (λ s. s ≡ credential) credentials
      → Any
          (λ e.
            (e ≡ basic_header c credential) × (validate_basic_auth_credential credential ≡ ok tt))
          headers
  unfolding encode_credentials
  encoded credentials credential {headers} h =
      collect-Any (λ s. validate_basic_auth_credential s >>= λ _. ok (basic_header c s))
        (λ s. s ≡ credential)
        (λ e. (e ≡ basic_header c credential) × (validate_basic_auth_credential credential ≡ ok tt))
        credentials
        (λ s e same valid.
          let (done, checked, header) = >>=-eq-ok (validate_basic_auth_credential s) _ valid in
          rw (← same) (ground arith, checked))
        h

  module _ (auth : AuthConfig) where
    is_user_iff : (user : Str) (o : Option Str) → (is_user c user o ≡ true) ↔ (o ≡ some user)
    is_user_iff user none = ground arith
    is_user_iff user (some name) = let same = str_eq_iff name user in ground (arith, same)

    pub has_user_iff :
        (user : Str)
        → (has_user c auth user ≡ true)
          ↔ Any (λ e. basic_auth_username c e ≡ some user) auth.expected_authorizations
    unfolding has_user
    has_user_iff user =
        any_iff (λ e. basic_auth_username c e ≡ some user) _ auth.expected_authorizations
          (λ e. is_user_iff user (basic_auth_username c e))

    -- The headers of the configured credentials are accepted: every credential of
    -- a list whose encoding is expected has a username, its header is accepted as that of the
    -- username, and the username is a configured user. The credential is a string, and base64 and
    -- the comparison behave as documented.
    pub basic_user-encode_credentials :
        (credentials : List Str) (credential : Str)
        → IsCrypto c
        → IsStr credential
        → encode_credentials c credentials ≡ ok auth.expected_authorizations
        → Any (λ s. s ≡ credential) credentials
        → (username : Str) × (password : Str) × (split_once b':' credential
            ≡ some (username, password))
          × (basic_user c auth (basic_header c credential) ≡ some username)
          × (has_user c auth username ≡ true)
    unfolding basic_user
    basic_user-encode_credentials credentials credential k h e member =
        let found = encoded credentials credential e member in
        let checked = Any-proof _ _ auth.expected_authorizations (λ x p. p.1) found in
        let (username, password, split, full) = validate-ok credential checked in
        let named : basic_auth_username c (basic_header c credential) ≡ some username =
          basic_auth_username-basic_header credential username password k h split full in
        let expected =
          (is_expected_iff (basic_header c credential) auth.expected_authorizations k).1
            (Any-map _ _ auth.expected_authorizations (λ x p. ap as_bytes (sym p.0)) found) in
        (
          username,
          password,
          split,
          rw (expected, named),
          (has_user_iff username).1 (
              Any-map _ _ auth.expected_authorizations
                (λ x p. ap (basic_auth_username c) p.0 ∙ named) found),
        )

    -- An accepted Basic header is one of the expected ones, and its user is a configured user.
    -- The header and the expected ones are strings, and the comparison behaves as documented.
    pub basic_user-known :
        (text user : Str)
        → IsCrypto c
        → IsStr text
        → All IsStr auth.expected_authorizations
        → basic_user c auth text ≡ some user
        → Any (λ e. e ≡ text) auth.expected_authorizations × (has_user c auth user ≡ true)
    unfolding basic_user
    basic_user-known text user k h hs e =
        elim (Bool-cases (is_expected c text auth.expected_authorizations)) [
          | inr other ↦ absurd (ground arith)
          | inl expected ↦
              let named : basic_auth_username c text ≡ some user = ground arith in
              let found =
                same_text auth.expected_authorizations hs
                  ((is_expected_iff text auth.expected_authorizations k).0 expected) in
              (
                found,
                (has_user_iff user).1 (
                    Any-map _ _ auth.expected_authorizations
                      (λ x p. ap (basic_auth_username c) p ∙ named) found),
              )
        ]
      where
        same_text : (xs : List Str) → All IsStr xs → Any (Matches text) xs → Any (λ e. e ≡ text) xs
        same_text [] all found = found
        same_text (x ∷ xs) all (inl p) = inl (as_bytes-injective x text all.0 h (sym p))
        same_text (x ∷ xs) all (inr p) = inr (same_text xs all.1 p)
