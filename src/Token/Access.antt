-- ===== src/Token/Access.antt =====
-- Access tokens: `mint_access` and `verify_access` of src/token.rs.
pub mod Laws
use mathlib.Core.List.{List}
use ws2tcp_router.Prelude.{
  ℕ, ◌+◌, ◌%◌, ◌^◌, Bool, not, Option, none, some, [], ◌∷◌, ◌++◌, take, drop, length, ltb, leb,
  ◌==◌, nat_eq,
}
use ws2tcp_router.Prelude.Maybe.{◌>>=◌, ◌>>◌, guard}
use ws2tcp_router.Text.{Str, Bytes, split_once}
use ws2tcp_router.Encoding.{as_bytes, from_utf8, to_be_bytes, from_be_bytes}
use ws2tcp_router.HashMap.{contains_key}
use ws2tcp_router.Crypto.{Crypto}
use ws2tcp_router.Token.{TokenService, access_token_version, as_secs}

-- `split_first`
abbrev pub split_first : Bytes → Option (ℕ × Bytes)
split_first [] = none
split_first (b ∷ s) = some (b, s)

module _ (c : Crypto) (svc : TokenService) where
  -- version, family, expiry in seconds, user
  unfoldable pub access_payload : ℕ → ℕ → Str → Bytes
  access_payload family expires user =
      access_token_version ∷ (to_be_bytes 8 family ++ (to_be_bytes 8 expires ++ as_bytes user))

  -- payload and tag, as text
  unfoldable pub access_token_of : Bytes → Str
  access_token_of payload =
      c.url_encode payload ++ (b'.' ∷ c.url_encode (c.hmac_sign svc.key payload))

  -- The sum wraps around in `u64`, as in a release build.
  unfoldable pub mint_access : ℕ → ℕ → Str → Str
  unfolding access_payload access_token_of
  mint_access unix_now family user =
      let expires = (unix_now + as_secs svc.access_ttl) % 2 ^ 64 in
      access_token_of (access_payload family expires user)

  -- The user of a payload whose tag was verified.
  unfoldable pub read_payload : ℕ → Bytes → Option Str
  read_payload unix_now payload = do
    (version, rest) ← split_first payload
    guard (version == access_token_version)
    guard (leb 16 (length rest))
    user ← from_utf8 (drop 16 rest)
    guard (ltb unix_now (from_be_bytes (take 8 (drop 8 rest))))
    guard (not (contains_key (from_be_bytes (take 8 rest)) svc.state.revoked))
    some user

  unfoldable pub verify_access : ℕ → Str → Option Str
  unfolding read_payload
  verify_access unix_now token = do
    (payload64, tag64) ← split_once b'.' token
    payload ← c.url_decode payload64
    tag ← c.url_decode tag64
    guard (c.hmac_verify svc.key payload tag)
    read_payload unix_now payload
