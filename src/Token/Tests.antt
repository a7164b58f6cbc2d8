-- ===== src/Token/Tests.antt =====
-- Runs of the token service over the concrete `toy` crypto, and the theorems at concrete states.
mod Instances
use mathlib.Core.Logic.{◌≢◌}
use ws2tcp_router.Prelude.{
  ℕ, ◌+◌, ◌*◌, ◌^◌, ◌/◌, ◌<◌, ◌≡◌, refl, arith, true, false, Bool, some, none, ok, err, [], ◌∷◌,
  inl, if◌then◌else◌, ltb, not, ◌&&◌, str_eq, nat_eq,
}
use ws2tcp_router.Text.{Str, Bytes, codes, split_once}
use ws2tcp_router.Encoding.{as_bytes, from_utf8, to_be_bytes, from_be_bytes}
use ws2tcp_router.HashMap.{get, without, insert, contains_key, retain}
use ws2tcp_router.Crypto.Toy.{toy, toy-IsCrypto, hex, unhex}
use ws2tcp_router.Token.{
  TokenService, State, World, RefreshRecord, IssuedTokens, invalid, reused, full, random, from_secs,
  as_secs, max_records,
}
use ws2tcp_router.Token.Store.{sweep, force_sweep, make_room, revoke_family, records}
use ws2tcp_router.Token.Store.Sweeps.{IsKeyed, IsSwept}
use ws2tcp_router.Token.Access.{mint_access, verify_access}
use ws2tcp_router.Token.Service.{
  new, hash_token, issued_tokens, spent_record, login, refresh, revoke, issue, refuse, redeem,
  rotate,
}

abbrev user : Str
user = codes "alice"

abbrev secret : Bytes
secret = codes "0123456789abcdef0123456789abcdef"

-- The seconds since the start, and the byte that the generator gives for a token.
abbrev at : ℕ → ℕ → World
at seconds byte = record {
  now = from_secs seconds;
  unix_now = 1000 + seconds;
  token_draw = some (byte ∷ []);
  family_draw = some (5 ∷ []);
}

abbrev held : RefreshRecord
held = record {
  family = 5;
  user = user;
  expires = from_secs 3600;
  family_deadline = from_secs 2592000;
}

-- After the login at time 0 with the token "ah".
abbrev logged_in : TokenService
logged_in = record {
  key = secret;
  access_ttl = from_secs 600;
  refresh_ttl = from_secs 3600;
  state = record {
    refresh = (codes "ah", held) ∷ [];
    spent = [];
    revoked = [];
    next_sweep = from_secs 60;
  };
}

abbrev everyone : Str → Bool
everyone u = true

running : Unit {0}
unfolding str_eq new login refresh revoke mint_access verify_access get without insert contains_key
    retain force_sweep sweep make_room revoke_family as_bytes from_utf8 to_be_bytes from_be_bytes
    hex unhex split_once issue refuse redeem rotate
running = tt

login_run :
    login toy (new secret (from_secs 600) (from_secs 3600) 0) (at 0 7) user
    ≡ (ok (issued_tokens toy logged_in (at 0 7) 5 user (from_secs 2592000) (codes "ah")), logged_in)
unfolding running
login_run = refl

-- The refresh at 10 seconds, with the new token "ai", and the second use of "ah" at 20 seconds.
abbrev second : IssuedTokens
second = issued_tokens toy logged_in (at 10 8) 5 user (from_secs 2592000) (codes "ai")

refresh_run : (refresh toy logged_in (at 10 8) (codes "ah") everyone).0 ≡ ok (user, second)
unfolding running
refresh_run = refl

expired_run : (refresh toy logged_in (at 3600 8) (codes "ah") everyone).0 ≡ err invalid
unfolding running
expired_run = refl

unknown_run : (refresh toy logged_in (at 10 8) (codes "ak") everyone).0 ≡ err invalid
unfolding running
unknown_run = refl

removed_user_run : (refresh toy logged_in (at 10 8) (codes "ah") (λ u. false)).0 ≡ err invalid
unfolding running
removed_user_run = refl

unlucky_run :
    (refresh toy logged_in (record (at 10 8) { token_draw = none }) (codes "ah") everyone).0
    ≡ err random
unfolding running
unlucky_run = refl

access_run :
    (verify_access toy logged_in 1599 (mint_access toy logged_in 1000 5 user) ≡ some user)
    × (verify_access toy logged_in 1600 (mint_access toy logged_in 1000 5 user) ≡ none)
    × (verify_access toy
          (revoke toy logged_in (at 10 8) (codes "ah")).1
          1011
          (mint_access toy logged_in 1000 5 user)
        ≡ none)
unfolding running
access_run = (refl, refl, refl)
