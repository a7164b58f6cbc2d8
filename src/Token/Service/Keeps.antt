-- ===== src/Token/Service/Keeps.antt =====
-- What the operations on the locked state keep: distinct keys, the bound on the store, and every
-- property of the current refresh tokens that the rotation keeps.
use ws2tcp_router.Prelude.{ℕ, ◌+◌, ◌≤◌, ◌≡◌, arith, ok, Bool, bytes_eq, nat_eq}
use ws2tcp_router.Text.{Str}
use ws2tcp_router.HashMap.{without}
use ws2tcp_router.HashMap.Laws.{
  insert-IsMap, without-IsMap, retain-IsMap, length-insert, length-without-some, length-retain,
}
use ws2tcp_router.HashMap.Values.{Each, insert-Each, without-Each, retain-Each, get-Each}
use ws2tcp_router.Crypto.{Crypto}
use ws2tcp_router.Token.{
  TokenService, State, World, RefreshRecord, Hash, max_records, max_family_lifetime,
}
use ws2tcp_router.Token.Store.{is_other, revoke_family, records, sweep, make_room}
use ws2tcp_router.Token.Store.Sweeps.{
  IsKeyed, IsSwept, IsSwept-trans, sweep-IsSwept, make_room-IsSwept, make_room-lt, sweep-Each,
  make_room-Each,
}
use ws2tcp_router.Token.Service.{
  hash_token, new_record, spent_record, redeem, refresh_body, login_body, random_family,
}
use ws2tcp_router.Token.Service.Cases.{
  with_token, with_spent, taken, issue_cases, redeem_cases, refresh_body_cases, login_body_cases,
}

pub revoke_family-IsKeyed :
    (f now ttl : ℕ) (st : State) → IsKeyed st → IsKeyed (revoke_family f now ttl st)
unfolding revoke_family
revoke_family-IsKeyed f now ttl st w = record {
  refresh = retain-IsMap (is_other f) st.refresh w.refresh;
  spent = w.spent;
  revoked = insert-IsMap f (now + ttl) st.revoked w.revoked;
}

pub records-revoke_family :
    (f now ttl : ℕ) (st : State) → records (revoke_family f now ttl st) ≤ records st
unfolding revoke_family
records-revoke_family f now ttl st = omega (arith, length-retain (is_other f) st.refresh)

pub revoke_family-Each :
    (P : RefreshRecord → Type 0) (f now ttl : ℕ) (st : State)
    → Each P st.refresh
    → Each P (revoke_family f now ttl st).refresh
unfolding revoke_family
revoke_family-Each P f now ttl st h = retain-Each P (is_other f) st.refresh h

module _ (c : Crypto) (svc : TokenService) (w : World) where
  pub prepared : (st : State) → IsKeyed st → IsSwept w.now st (make_room w.now (sweep w.now st)).1
  prepared st k =
      let s = sweep-IsSwept w.now st k in
      IsSwept-trans w.now s (make_room-IsSwept w.now (sweep w.now st) s.keyed)

  with_token-IsKeyed :
      (family : ℕ) (user : Str) (deadline : ℕ) (token : Str) (st : State)
      → IsKeyed st
      → IsKeyed (with_token c svc w family user deadline token st)
  with_token-IsKeyed family user deadline token st k = record {
    refresh =
        insert-IsMap (hash_token c token) (new_record c svc w family user deadline) st.refresh
          k.refresh;
    spent = k.spent;
    revoked = k.revoked;
  }

  taken-IsKeyed : (hash : Hash) (st : State) → IsKeyed st → IsKeyed (taken c svc w hash st)
  taken-IsKeyed hash st k = record {
    refresh = without-IsMap hash st.refresh k.refresh;
    spent = k.spent;
    revoked = k.revoked;
  }

  with_spent-IsKeyed :
      (hash : Hash) (r : RefreshRecord) (st : State)
      → IsKeyed st
      → IsKeyed (with_spent c svc w hash r st)
  with_spent-IsKeyed hash r st k = record {
    refresh = k.refresh;
    spent = insert-IsMap hash (spent_record r) st.spent k.spent;
    revoked = k.revoked;
  }

  redeem-IsKeyed :
      (hash : Hash) (user_exists : Str → Bool) (st : State)
      → IsKeyed st
      → IsKeyed (redeem c svc w hash user_exists st).1
  redeem-IsKeyed hash user_exists st k =
      let t = taken-IsKeyed hash st k in
      redeem_cases c svc w hash user_exists st (λ p. IsKeyed p.1) (λ _. k)
        (λ r _ _ _. revoke_family-IsKeyed r.family w.now svc.access_ttl st k) (λ r _ _. t)
        (λ r _ _. with_spent-IsKeyed hash r (taken c svc w hash st) t)
        (λ r token _ _ _.
          with_token-IsKeyed r.family r.user r.family_deadline token _
            (with_spent-IsKeyed hash r (taken c svc w hash st) t))

  -- One more record at most.
  records-redeem :
      (hash : Hash) (user_exists : Str → Bool) (st : State)
      → records (redeem c svc w hash user_exists st).1 ≤ records st + 1
  records-redeem hash user_exists st =
      redeem_cases c svc w hash user_exists st (λ p. records p.1 ≤ records st + 1)
        (λ _. omega arith)
        (λ r _ _ _. omega (arith, records-revoke_family r.family w.now svc.access_ttl st))
        (λ r found _. omega (arith, length-without-some hash st.refresh found))
        (λ r found _. omega (
          arith,
          length-without-some hash st.refresh found,
          length-insert hash (spent_record r) st.spent,
        ))
        (λ r token found _ _. omega (
          arith,
          length-without-some hash st.refresh found,
          length-insert hash (spent_record r) st.spent,
          length-insert (hash_token c token) (new_record c svc w r.family r.user r.family_deadline)
              (without hash st.refresh),
        ))

  pub refresh_body-IsKeyed :
      (token : Str) (user_exists : Str → Bool) (st : State)
      → IsKeyed st
      → IsKeyed (refresh_body c svc w token user_exists st).1
  refresh_body-IsKeyed token user_exists st k =
      let p = prepared st k in
      refresh_body_cases c svc w token user_exists st (λ q. IsKeyed q.1) (λ _. p.keyed)
        (λ _. redeem-IsKeyed (hash_token c token) user_exists _ p.keyed)

  pub records-refresh_body :
      (token : Str) (user_exists : Str → Bool) (st : State)
      → IsKeyed st
      → records st ≤ max_records
      → records (refresh_body c svc w token user_exists st).1 ≤ max_records
  records-refresh_body token user_exists st k h =
      let p = prepared st k in
      refresh_body_cases c svc w token user_exists st (λ q. records q.1 ≤ max_records)
        (λ _. omega (arith, p.smaller))
        (λ room. omega (
          arith,
          make_room-lt w.now (sweep w.now st) room,
          records-redeem (hash_token c token) user_exists (make_room w.now (sweep w.now st)).1,
        ))

  pub login_body-IsKeyed :
      (user : Str) (st : State) → IsKeyed st → IsKeyed (login_body c svc w user st).1
  login_body-IsKeyed user st k =
      let p = make_room-IsSwept w.now st k in
      login_body_cases c svc w user st (λ q. IsKeyed q.1) k (λ _. p.keyed)
        (λ family _ _.
          issue_cases c svc w family user (w.now + max_family_lifetime) _ (λ q. IsKeyed q.1) p.keyed
            (λ token _. with_token-IsKeyed family user _ token _ p.keyed))

  pub records-login_body :
      (user : Str) (st : State)
      → IsKeyed st
      → records st ≤ max_records
      → records (login_body c svc w user st).1 ≤ max_records
  records-login_body user st k h =
      let p = make_room-IsSwept w.now st k in
      login_body_cases c svc w user st (λ q. records q.1 ≤ max_records) h
        (λ _. omega (arith, p.smaller))
        (λ family _ room.
          issue_cases c svc w family user (w.now + max_family_lifetime) _
            (λ q. records q.1 ≤ max_records) (omega (arith, p.smaller))
            (λ token _. omega (
              arith,
              make_room-lt w.now st room,
              length-insert (hash_token c token)
                  (new_record c svc w family user (w.now + max_family_lifetime))
                  (make_room w.now st).1.refresh,
            )))

  module _ (P : RefreshRecord → Type 0) where
    redeem-Each :
        (hash : Hash) (user_exists : Str → Bool) (st : State)
        → ((r : RefreshRecord) → P r → P (new_record c svc w r.family r.user r.family_deadline))
        → Each P st.refresh
        → Each P (redeem c svc w hash user_exists st).1.refresh
    redeem-Each hash user_exists st rotates h =
        let rest = without-Each P hash st.refresh h in
        redeem_cases c svc w hash user_exists st (λ p. Each P p.1.refresh) (λ _. h)
          (λ r _ _ _. revoke_family-Each P r.family w.now svc.access_ttl st h) (λ r _ _. rest)
          (λ r _ _. rest)
          (λ r token found _ _.
            insert-Each P (hash_token c token) _ (without hash st.refresh)
              (rotates r (get-Each P hash st.refresh h found)) rest)

    pub refresh_body-Each :
        (token : Str) (user_exists : Str → Bool) (st : State)
        → ((r : RefreshRecord) → P r → P (new_record c svc w r.family r.user r.family_deadline))
        → Each P st.refresh
        → Each P (refresh_body c svc w token user_exists st).1.refresh
    refresh_body-Each token user_exists st rotates h =
        let swept = make_room-Each w.now P (sweep w.now st) (sweep-Each w.now P st h) in
        refresh_body_cases c svc w token user_exists st (λ q. Each P q.1.refresh) (λ _. swept)
          (λ _. redeem-Each (hash_token c token) user_exists _ rotates swept)

    pub login_body-Each :
        (user : Str) (st : State)
        → ((family : ℕ)
            → random_family c w ≡ ok family
            → P (new_record c svc w family user (w.now + max_family_lifetime)))
        → Each P st.refresh
        → Each P (login_body c svc w user st).1.refresh
    login_body-Each user st starts h =
        let swept = make_room-Each w.now P st h in
        login_body_cases c svc w user st (λ q. Each P q.1.refresh) h (λ _. swept)
          (λ family drawn _.
            issue_cases c svc w family user (w.now + max_family_lifetime) _
              (λ q. Each P q.1.refresh) swept
              (λ token _.
                insert-Each P (hash_token c token) _ (make_room w.now st).1.refresh
                  (starts family drawn) swept))
