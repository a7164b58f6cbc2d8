-- ===== src/Token/Tests/Instances.antt =====
-- The theorems about the token service, at the states of the runs in Token/Tests.antt.
use ws2tcp_router.Prelude.{
  ◌+◌, ◌≡◌, refl, List, arith, some, none, ok, err, [], ◌∷◌, not, ◌&&◌, ltb, if◌then◌else◌, nat_eq,
}
use ws2tcp_router.Text.{codes}
use ws2tcp_router.HashMap.{get, contains_key}
use ws2tcp_router.Crypto.Toy.{toy, toy-IsCrypto}
use ws2tcp_router.Token.{TokenService, SpentRecord, reused, from_secs, as_secs}
use ws2tcp_router.Token.Store.Sweeps.{IsKeyed}
use ws2tcp_router.Token.Access.{mint_access, verify_access}
use ws2tcp_router.Token.Access.Laws.{verify_access-mint_access, IsGenuine, verify_access-IsGenuine}
use ws2tcp_router.Token.Service.{refresh, login, issued_tokens, new}
use ws2tcp_router.Token.Histories.{
  Call, logs_in, refreshes, revokes, run, IsStore, IsDead, EndsBy, run-EndsBy,
}
use ws2tcp_router.Token.Rotation.{IsRotation, refresh-IsRotation, refresh_twice}
use ws2tcp_router.Token.Issuing.{IsLogin, login-IsLogin, refresh-current}
use ws2tcp_router.Token.Revocation.{verify_access-revoked}
use ws2tcp_router.Token.Tests.{
  running, user, secret, at, held, logged_in, everyone, second, refresh_run, access_run,
}

logged_in-IsKeyed : IsKeyed logged_in.state
unfolding running
logged_in-IsKeyed = record { refresh = (refl, tt); spent = tt; revoked = tt }

-- "ah" was spent at 10 seconds, and "ai" is current.
abbrev spent : SpentRecord
spent = record { family = 5; user = user; expires = from_secs 3600 }

abbrev rotated : TokenService
rotated = record logged_in {
  state = record {
    refresh = (codes "ai", record held { expires = from_secs 3610 }) ∷ [];
    spent = (codes "ah", spent) ∷ [];
    revoked = [];
    next_sweep = from_secs 60;
  };
}

rotated-IsKeyed : IsKeyed rotated.state
unfolding running
rotated-IsKeyed = record { refresh = (refl, tt); spent = (refl, tt); revoked = tt }

-- The family 5 was revoked at 20 seconds.
abbrev revoked : TokenService
revoked = record logged_in {
  state = record {
    refresh = [];
    spent = (codes "ah", spent) ∷ [];
    revoked = (5, from_secs 620) ∷ [];
    next_sweep = from_secs 60;
  };
}

revoked-IsStore : IsStore revoked.state
unfolding running
revoked-IsStore = record {
  keyed = record { refresh = tt; spent = (refl, tt); revoked = (refl, tt) };
  bounded = omega arith;
  capped = tt;
}

refresh-IsRotation_example :
    IsRotation toy logged_in
      (at 10 8)
      (codes "ah")
      everyone
      user
      second
      logged_in.state
      (refresh toy logged_in (at 10 8) (codes "ah") everyone).1.state
unfolding running
refresh-IsRotation_example =
    refresh-IsRotation toy logged_in (at 10 8) (codes "ah") everyone user second logged_in-IsKeyed
      refresh_run

refresh_twice_example :
    ((refresh toy rotated (at 20 9) (codes "ah") everyone).0 ≡ err (reused user))
    × IsDead toy 5 (refresh toy rotated (at 20 9) (codes "ah") everyone).1.state
    × (get 5 (refresh toy rotated (at 20 9) (codes "ah") everyone).1.state.revoked
        ≡ some (from_secs 20 + from_secs 600))
unfolding running
refresh_twice_example =
    refresh_twice toy logged_in (at 10 8) (at 20 9) (codes "ah") everyone everyone user second held
      logged_in-IsKeyed refl refresh_run (λ e. ground arith) (omega arith) (omega arith)

abbrev history : List Call
history =
    refreshes (codes "ah") everyone (at 30 9)
    ∷ logs_in user (record (at 40 10) { family_draw = some (6 ∷ []) })
    ∷ revokes (codes "ak") (at 50 1)
    ∷ []

run-EndsBy_example : EndsBy toy 5 (from_secs 2592000) (run toy logged_in history).state
unfolding running
run-EndsBy_example =
    run-EndsBy toy logged_in 5 (from_secs 2592000) history (tt, ((λ e. ground arith), (tt, tt)))
      ((λ e. omega arith), tt)

verify_access-mint_access_example :
    verify_access toy logged_in 1599 (mint_access toy logged_in 1000 5 user) ≡ (
      if ltb 1599 (1000 + as_secs (from_secs 600)) && not (contains_key 5 logged_in.state.revoked)
      then some user
      else none)
verify_access-mint_access_example =
    verify_access-mint_access toy logged_in 5 1000 1599 user toy-IsCrypto (omega arith)
      (omega arith) (omega arith)

verify_access-IsGenuine_example :
    IsGenuine toy logged_in 1599 (mint_access toy logged_in 1000 5 user) user
verify_access-IsGenuine_example =
    verify_access-IsGenuine toy logged_in 1599 (mint_access toy logged_in 1000 5 user) user
      toy-IsCrypto access_run.0

verify_access-revoked_example :
    verify_access toy (run toy revoked history) 1060 (mint_access toy revoked 1000 5 user) ≡ none
unfolding running
verify_access-revoked_example =
    verify_access-revoked toy revoked history 5 1000 1060 (from_secs 60) (from_secs 1000) 600
      (from_secs 20) 0 user toy-IsCrypto revoked-IsStore refl (omega arith) (omega arith)
      (omega arith) (omega arith) (omega arith) (omega arith) (omega arith) (omega arith)

login-IsLogin_example :
    IsLogin toy
      (new secret (from_secs 600) (from_secs 3600) 0)
      (at 0 7)
      user
      (issued_tokens toy logged_in (at 0 7) 5 user (from_secs 2592000) (codes "ah"))
      (login toy (new secret (from_secs 600) (from_secs 3600) 0) (at 0 7) user).1.state
unfolding running
login-IsLogin_example =
    login-IsLogin toy (new secret (from_secs 600) (from_secs 3600) 0) (at 0 7) user
      (issued_tokens toy logged_in (at 0 7) 5 user (from_secs 2592000) (codes "ah")) refl

refresh-current_example :
    (refresh toy logged_in (at 10 8) (codes "ah") everyone).0
    ≡ ok (user, issued_tokens toy logged_in (at 10 8) 5 user (from_secs 2592000) (codes "ai"))
unfolding running
refresh-current_example =
    refresh-current toy logged_in (at 10 8) (codes "ah") everyone held (8 ∷ []) logged_in-IsKeyed
      (omega arith) refl (record { live = omega arith; in_family = omega arith; known = refl }) refl
