-- ===== src/Connection/Callback.antt =====
-- The callback of the handshake of src/proxy.rs, and what the crate's handshake does with it.
use mathlib.Core.Path.{subst}
use ws2tcp_router.Prelude.{ℕ, ◌≡◌, ◌∙◌, refl, arith, Option, some, Result, ok, err}
use ws2tcp_router.Text.{Str, Bytes}
use ws2tcp_router.Http.{Request, Response}
use ws2tcp_router.Crypto.{Crypto}
use ws2tcp_router.Auth.{AuthConfig, authorize_request}
use ws2tcp_router.HttpProbe.{ReplayStream, poll_read}
use ws2tcp_router.HttpProbe.Replay.{IsReader, replayed}
use ws2tcp_router.Proxy.{Route, capture_requested_target, accept}
use ws2tcp_router.Connection.{
  Slots, no_slots, Answered, accepted, refused, Platform, request_user_agent, callback,
}

-- What the crate's handshake does on a stream with certain bytes: it reads the request that they
-- hold, calls the callback with it, and accepts or refuses the connection as the callback does.
pub record IsHandshake {S : Type 0} (x : Platform S) (content : S → Bytes)
    (requested : Bytes → Option Request) : Type 0 where
  pub accepts :
      (stream : ReplayStream S) (answer : Request → Slots → Answered) (before after : Slots)
      → IsReader (poll_read x.read) (replayed content)
      → x.accept_hdr stream answer before ≡ accepted after
      → (r : Request) × (requested (replayed content stream) ≡ some r)
        × (answer r before ≡ (ok tt, after))
  pub refuses :
      (stream : ReplayStream S) (answer : Request → Slots → Answered) (before : Slots)
      (reply : Response)
      → IsReader (poll_read x.read) (replayed content)
      → x.accept_hdr stream answer before ≡ refused reply
      → (r : Request) × (requested (replayed content stream) ≡ some r)
        × ((answer r before).0 ≡ err reply)

module _ (c : Crypto) (now : ℕ) (config : Option AuthConfig) (r : Request) where
  abbrev filled : Str → Route → Slots
  filled user route = record {
    user_agent = some (request_user_agent r);
    auth_user = some user;
    target = some route;
  }

  -- The callback accepts as `accept` does and then fills each slot, or refuses as `accept` does.
  abbrev CallsBack : Result Response (Str × Route) → Answered → Type 0
  CallsBack (ok (user, route)) (ok done, after) = after ≡ filled user route
  CallsBack (err answer) (err answer', after) = answer ≡ answer'
  CallsBack _ _ = ⊥

  callback-CallsBack : CallsBack (accept c now r config) (callback c now config r no_slots)
  unfolding accept callback
  callback-CallsBack = go (authorize_request c now r config) refl (capture_requested_target r) refl
    where
      go :
          (a : Result Response Str)
          → authorize_request c now r config ≡ a
          → (b : Result Response Route) → capture_requested_target r ≡ b
          → CallsBack (accept c now r config) (callback c now config r no_slots)
      go (err answer) e b e' = rw (accept, callback, e) refl
      go (ok user) e (err answer) e' = rw (accept, callback, e, e') refl
      go (ok user) e (ok route) e' = rw (accept, callback, e, e') refl

  pub callback-ok :
      (after : Slots)
      → callback c now config r no_slots ≡ (ok tt, after)
      → (user : Str) × (route : Route) × (accept c now r config ≡ ok (user, route))
        × (after ≡ filled user route)
  callback-ok after e =
      go (accept c now r config) refl
        (subst (CallsBack (accept c now r config)) e callback-CallsBack)
    where
      go :
          (a : Result Response (Str × Route))
          → accept c now r config ≡ a
          → CallsBack a (ok tt, after)
          → (user : Str) × (route : Route) × (accept c now r config ≡ ok (user, route))
            × (after ≡ filled user route)
      go (ok (user, route)) e' h = (user, route, e', h)
      go (err answer) e' h = elim h [ ]

  pub callback-err :
      (reply : Response)
      → (callback c now config r no_slots).0 ≡ err reply
      → accept c now r config ≡ err reply
  callback-err reply e =
      go (accept c now r config) refl (callback c now config r no_slots).0 e callback-CallsBack
    where
      go :
          (a : Result Response (Str × Route))
          → accept c now r config ≡ a
          → (b : Result Response (Unit {0})) → b ≡ err reply
          → CallsBack a (b, (callback c now config r no_slots).1)
          → accept c now r config ≡ err reply
      go (ok (user, route)) e' (ok done) q h = absurd (cc)
      go (ok (user, route)) e' (err answer) q h = elim h [ ]
      go (err answer) e' (ok done) q h = elim h [ ]
      go (err answer) e' (err answer') q h = let same : answer' ≡ reply = ground arith in e' ∙ cc
