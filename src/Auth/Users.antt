-- ===== src/Auth/Users.antt =====
-- Whom `authorize_request` of src/auth.rs lets in: users and the configured credentials.
use ws2tcp_router.Prelude.{ℕ, ◌≡◌, true, false, some, ok, inl, inr, All}
use ws2tcp_router.Text.{Str}
use ws2tcp_router.Encoding.RoundTrip.{IsStr}
use ws2tcp_router.Http.{Request, header_str, authorization}
use ws2tcp_router.Crypto.{Crypto, IsCrypto}
use ws2tcp_router.Auth.{
  AuthConfig, basic_user, has_user, allows_anonymous_target, authorize_request,
}
use ws2tcp_router.Auth.Decision.{authorize_request_iff}
use ws2tcp_router.Auth.Credentials.{basic_user-known}

module _ (c : Crypto) (auth : AuthConfig) (now : ℕ) (request : Request) (user : Str) where
  -- A request whose path is not on the allowlist is let in only as a user of the credentials that
  -- are configured at that time, whether by an access token or by a Basic header. The expected
  -- headers and that of the request are strings, and the comparison behaves as documented.
  pub authorize_request-has_user :
      IsCrypto c
      → ((text : Str) → header_str request authorization ≡ some text → IsStr text)
      → All IsStr auth.expected_authorizations
      → authorize_request c now request (some auth) ≡ ok user
      → allows_anonymous_target c auth request.path ≡ false
      → has_user c auth user ≡ true
  unfolding basic_user
  authorize_request-has_user k strings expected let_in unlisted =
      elim ((authorize_request_iff c now request (some auth) user).0 let_in) [
        | inl (listed, _) ↦ absurd (cc)
        | inr (_, inl p) ↦ p.known
        | inr (_, inr p) ↦
            let basic : basic_user c auth p.text ≡ some user =
              rw (basic_user, p.expected) p.named in
            (basic_user-known c auth p.text user k (strings p.text p.header) expected basic).1
      ]
