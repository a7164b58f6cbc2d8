-- ===== src/Token/Service.antt =====
-- Login, refresh and logout: `login`, `refresh`, `revoke`, `issue` of src/token.rs. Each locks the
-- state for all that it does to it, so an operation is one step.
pub mod Cases
pub mod Keeps
use mathlib.Core.Option
use ws2tcp_router.Prelude.{
  ℕ, ◌+◌, ◌-◌, min, Bool, true, false, not, ◌||◌, Option, none, some, [], Result, ok, err, ok_or,
  ltb, leb, if◌then◌else◌, bytes_eq,
}
use ws2tcp_router.Text.{Str, Bytes}
use ws2tcp_router.Encoding.{as_bytes, from_be_bytes}
use ws2tcp_router.HashMap.{get, without, insert}
use ws2tcp_router.Crypto.{Crypto}
use ws2tcp_router.Token.{
  TokenService, State, World, RefreshRecord, SpentRecord, IssuedTokens, TokenError, invalid, reused,
  full, random, Hash, max_family_lifetime, sweep_interval, as_secs,
}
use ws2tcp_router.Token.Store.{Exec, ◌>>=◌, ◌>>◌, lift, modify, sweep, revoke_family, make_room}
use ws2tcp_router.Token.Access.{mint_access}

-- `TokenService::new`, at the instant `now`
unfoldable pub new : Bytes → ℕ → ℕ → ℕ → TokenService
new secret access_ttl refresh_ttl now = record {
  key = secret;
  access_ttl = access_ttl;
  refresh_ttl = refresh_ttl;
  state = record { refresh = []; spent = []; revoked = []; next_sweep = now + sweep_interval };
}

abbrev pub spent_record : RefreshRecord → SpentRecord
spent_record r = record { family = r.family; user = r.user; expires = r.expires }

module _ (c : Crypto) where
  abbrev pub hash_token : Str → Hash
  hash_token token = c.sha256 (as_bytes token)

  -- `generate_token`
  abbrev pub generate_token : World → Result TokenError Str
  generate_token w = ok_or (Option.map c.url_encode w.token_draw) random

  abbrev pub random_family : World → Result TokenError ℕ
  random_family w = ok_or (Option.map from_be_bytes w.family_draw) random

  module _ (svc : TokenService) (w : World) where
    abbrev pub refresh_expiry : ℕ → ℕ
    refresh_expiry family_deadline = min (w.now + svc.refresh_ttl) family_deadline

    -- The record of a new refresh token, and the pair of tokens that is handed out.
    abbrev pub new_record : ℕ → Str → ℕ → RefreshRecord
    new_record family user family_deadline = record {
      family = family;
      user = user;
      expires = refresh_expiry family_deadline;
      family_deadline = family_deadline;
    }

    abbrev pub issued_tokens : ℕ → Str → ℕ → Str → IssuedTokens
    issued_tokens family user family_deadline token = record {
      access_token = mint_access c svc w.unix_now family user;
      access_expires_in = as_secs svc.access_ttl;
      refresh_token = token;
      refresh_expires_in = as_secs (refresh_expiry family_deadline - w.now);
    }

    unfoldable pub issue : ℕ → Str → ℕ → Exec IssuedTokens
    issue family user family_deadline = do
      token ← lift (generate_token w)
      modify (λ st. record st {
        refresh = insert (hash_token token) (new_record family user family_deadline) st.refresh;
      })
      lift (ok (issued_tokens family user family_deadline token))

    unfoldable pub login_body : Str → Exec IssuedTokens
    unfolding make_room issue
    login_body user = do
      family ← lift (random_family w)
      make_room w.now
      issue family user (w.now + max_family_lifetime)

    -- A token that is not a current one: reuse revokes its family.
    unfoldable pub refuse : Hash → Exec (Str × IssuedTokens)
    refuse hash st = elim (get hash st.spent) [
      | none ↦ (err invalid, st)
      | some spent ↦
          if ltb w.now spent.expires
          then (err (reused spent.user), revoke_family spent.family w.now svc.access_ttl st)
          else (err invalid, st)
    ]

    -- The tests on a record that was taken out of the store, and the rotation.
    unfoldable pub rotate : Hash → (Str → Bool) → RefreshRecord → Exec (Str × IssuedTokens)
    unfolding issue
    rotate hash user_exists r =
        if leb r.expires w.now || leb r.family_deadline w.now || not (user_exists r.user)
        then lift (err invalid)
        else do
          modify (λ st. record st { spent = insert hash (spent_record r) st.spent })
          issued ← issue r.family r.user r.family_deadline
          lift (ok (r.user, issued))

    -- `state.refresh.remove(&hash)` and what follows
    unfoldable pub redeem : Hash → (Str → Bool) → Exec (Str × IssuedTokens)
    unfolding refuse rotate
    redeem hash user_exists st = elim (get hash st.refresh) [
      | none ↦ refuse hash st
      | some r ↦ rotate hash user_exists r (record st { refresh = without hash st.refresh })
    ]

    unfoldable pub refresh_body : Str → (Str → Bool) → Exec (Str × IssuedTokens)
    unfolding sweep make_room redeem
    refresh_body token user_exists = do
      modify (sweep w.now)
      make_room w.now
      redeem (hash_token token) user_exists

    -- the family of a current or spent token
    unfoldable pub family_of : Hash → State → Option ℕ
    family_of hash st = elim (get hash st.refresh) [
      | some r ↦ some r.family
      | none ↦ Option.map (λ (r : SpentRecord). r.family) (get hash st.spent)
    ]

    unfoldable pub login : Str → Result TokenError IssuedTokens × TokenService
    unfolding login_body
    login user = let (r, st) = login_body user svc.state in (r, record svc { state = st })

    unfoldable pub refresh :
        Str → (Str → Bool) → Result TokenError (Str × IssuedTokens) × TokenService
    unfolding refresh_body
    refresh token user_exists =
        let (r, st) = refresh_body token user_exists svc.state in (r, record svc { state = st })

    unfoldable pub revoke : Str → Bool × TokenService
    unfolding family_of revoke_family
    revoke token = elim (family_of (hash_token token) svc.state) [
      | none ↦ (false, svc)
      | some family ↦
          (true, record svc { state = revoke_family family w.now svc.access_ttl svc.state })
    ]
