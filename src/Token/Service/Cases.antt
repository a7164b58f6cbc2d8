-- ===== src/Token/Service/Cases.antt =====
-- The ways in which login and refresh can end, each as a rule: a property of the result and the
-- state afterwards holds if it holds at each end, under what is known there.
use ws2tcp_router.Prelude.{
  ℕ, Bool, ◌+◌, ◌⊎◌, ◌<◌, ◌≡◌, arith, true, some, none, ok, err, Result, Option-cases, Bool-cases,
  inl, inr, bytes_eq, ◌||◌, not, leb, ltb,
}
use ws2tcp_router.Text.{Str}
use ws2tcp_router.Encoding.{from_be_bytes}
use ws2tcp_router.HashMap.{get, insert, without}
use ws2tcp_router.Crypto.{Crypto}
use ws2tcp_router.Token.{
  TokenService, State, World, RefreshRecord, SpentRecord, IssuedTokens, TokenError, invalid, reused,
  random, full, Hash, max_family_lifetime,
}
use ws2tcp_router.Token.Store.{revoke_family, resume, lift, sweep, make_room}
use ws2tcp_router.Token.Service.{
  hash_token, generate_token, new_record, issued_tokens, spent_record, issue, refuse, rotate,
  redeem, random_family, login_body, refresh_body,
}

module _ (c : Crypto) (svc : TokenService) (w : World) where
  -- the state with a new refresh token, and with a token marked as spent
  abbrev pub with_token : ℕ → Str → ℕ → Str → State → State
  with_token family user deadline token st = record st {
    refresh = insert (hash_token c token) (new_record c svc w family user deadline) st.refresh;
  }

  abbrev pub with_spent : Hash → RefreshRecord → State → State
  with_spent hash r st = record st { spent = insert hash (spent_record r) st.spent }

  abbrev pub taken : Hash → State → State
  taken hash st = record st { refresh = without hash st.refresh }

  pub issue_cases :
      (family : ℕ) (user : Str) (deadline : ℕ) (st : State)
      (Q : Result TokenError IssuedTokens × State → Type 0)
      → Q (err random, st)
      → ((token : Str)
          → generate_token c w ≡ ok token
          → Q (
            ok (issued_tokens c svc w family user deadline token),
            with_token family user deadline token st,
          ))
      → Q (issue c svc w family user deadline st)
  unfolding issue
  issue_cases family user deadline st Q failed minted = elim (Option-cases w.token_draw) [
    | inl none_drawn ↦ rw (none_drawn, issue) failed
    | inr (bytes, drawn) ↦ rw (drawn, issue) (minted (c.url_encode bytes) (rw drawn))
  ]

  pub refuse_cases :
      (hash : Hash) (st : State) (Q : Result TokenError (Str × IssuedTokens) × State → Type 0)
      → Q (err invalid, st)
      → ((r : SpentRecord)
          → get hash st.spent ≡ some r
          → w.now < r.expires
          → Q (err (reused r.user), revoke_family r.family w.now svc.access_ttl st))
      → Q (refuse c svc w hash st)
  unfolding refuse
  refuse_cases hash st Q unknown replayed = elim (Option-cases (get hash st.spent)) [
    | inl missing ↦ rw (missing, refuse) unknown
    | inr (r, found) ↦ elim (Bool-cases (ltb w.now r.expires)) [
      | inl early ↦ rw (found, refuse, early) (replayed r found (ground arith))
      | inr late ↦ rw (found, refuse, late) unknown
    ]
  ]

  -- A record is rotated before it expires, while its user exists.
  pub record IsRedeemable (user_exists : Str → Bool) (r : RefreshRecord) : Type 0 where
    pub live : w.now < r.expires
    pub in_family : w.now < r.family_deadline
    pub known : user_exists r.user ≡ true

  pub rotate_cases :
      (hash : Hash) (user_exists : Str → Bool) (r : RefreshRecord) (st : State)
      (Q : Result TokenError (Str × IssuedTokens) × State → Type 0)
      → (¬ IsRedeemable user_exists r → Q (err invalid, st))
      → (IsRedeemable user_exists r → Q (err random, with_spent hash r st))
      → ((token : Str)
          → IsRedeemable user_exists r
          → generate_token c w ≡ ok token
          → Q (
            ok (r.user, issued_tokens c svc w r.family r.user r.family_deadline token),
            with_token r.family r.user r.family_deadline token (with_spent hash r st),
          ))
      → Q (rotate c svc w hash user_exists r st)
  unfolding rotate
  rotate_cases hash user_exists r st Q refused unlucky rotated =
      elim (Bool-cases
        (leb r.expires w.now || leb r.family_deadline w.now || not (user_exists r.user))) [
          | inl bad ↦ rw (bad, rotate) (refused (λ v. ground (arith, v.live, v.in_family, v.known)))
          | inr good ↦
              let v : IsRedeemable user_exists r = ground arith in
              rw (good, rotate)
                (issue_cases r.family r.user r.family_deadline (with_spent hash r st)
                  (λ p. Q (resume p.0 (λ issued. lift (ok (r.user, issued))) p.1)) (unlucky v)
                  (λ token drawn. rotated token v drawn))
        ]

  pub redeem_cases :
      (hash : Hash) (user_exists : Str → Bool) (st : State)
      (Q : Result TokenError (Str × IssuedTokens) × State → Type 0)
      → (get hash st.refresh ≡ none → Q (err invalid, st))
      → ((r : SpentRecord)
          → get hash st.refresh ≡ none
          → get hash st.spent ≡ some r
          → w.now < r.expires
          → Q (err (reused r.user), revoke_family r.family w.now svc.access_ttl st))
      → ((r : RefreshRecord)
          → get hash st.refresh ≡ some r
          → ¬ IsRedeemable user_exists r
          → Q (err invalid, taken hash st))
      → ((r : RefreshRecord)
          → get hash st.refresh ≡ some r
          → IsRedeemable user_exists r
          → Q (err random, with_spent hash r (taken hash st)))
      → ((r : RefreshRecord) (token : Str)
          → get hash st.refresh ≡ some r
          → IsRedeemable user_exists r
          → generate_token c w ≡ ok token
          → Q (
            ok (r.user, issued_tokens c svc w r.family r.user r.family_deadline token),
            with_token r.family r.user r.family_deadline token (with_spent hash r (taken hash st)),
          ))
      → Q (redeem c svc w hash user_exists st)
  unfolding redeem
  redeem_cases hash user_exists st Q unknown replayed refused unlucky rotated =
      elim (Option-cases (get hash st.refresh)) [
        | inl missing ↦
            rw (missing, redeem)
              (refuse_cases hash st Q (unknown missing)
                (λ r found early. replayed r missing found early))
        | inr (r, found) ↦
            rw (found, redeem)
              (rotate_cases hash user_exists r (taken hash st) Q (refused r found) (unlucky r found)
                (λ token. rotated r token found))
      ]

  pub make_room_cases :
      (st : State) → ((make_room w.now st).0 ≡ ok tt) ⊎ ((make_room w.now st).0 ≡ err full)
  unfolding make_room
  make_room_cases st = ground arith

  pub refresh_body_cases :
      (token : Str) (user_exists : Str → Bool) (st : State)
      (Q : Result TokenError (Str × IssuedTokens) × State → Type 0)
      → ((make_room w.now (sweep w.now st)).0 ≡ err full
          → Q (err full, (make_room w.now (sweep w.now st)).1))
      → ((make_room w.now (sweep w.now st)).0 ≡ ok tt
          → Q (
              redeem c svc w (hash_token c token) user_exists (make_room w.now (sweep w.now st)).1))
      → Q (refresh_body c svc w token user_exists st)
  unfolding refresh_body
  refresh_body_cases token user_exists st Q no_room room = elim (make_room_cases (sweep w.now st)) [
    | inl e ↦ rw (e, refresh_body) (room e)
    | inr e ↦ rw (e, refresh_body) (no_room e)
  ]

  pub login_body_cases :
      (user : Str) (st : State) (Q : Result TokenError IssuedTokens × State → Type 0)
      → Q (err random, st)
      → ((make_room w.now st).0 ≡ err full → Q (err full, (make_room w.now st).1))
      → ((family : ℕ)
          → random_family c w ≡ ok family
          → (make_room w.now st).0 ≡ ok tt
          → Q (issue c svc w family user (w.now + max_family_lifetime) (make_room w.now st).1))
      → Q (login_body c svc w user st)
  unfolding login_body
  login_body_cases user st Q unlucky no_room room = elim (Option-cases w.family_draw) [
    | inl failed ↦ rw (failed, login_body) unlucky
    | inr (bytes, drawn) ↦ elim (make_room_cases st) [
      | inl e ↦ rw (drawn, login_body, e) (room (from_be_bytes bytes) (rw drawn) e)
      | inr e ↦ rw (drawn, login_body, e) (no_room e)
    ]
  ]
