-- ===== src/Token/Store.antt =====
-- `State` of src/token.rs: the sweeps, the revocation of a family, and the bound on the store.
pub mod Sweeps
use ws2tcp_router.Prelude.{
  ℕ, ◌+◌, Bool, not, ◌&&◌, ltb, leb, ◌==◌, if◌then◌else◌, length, Result, ok, err, nat_eq,
}
use ws2tcp_router.HashMap.{insert, retain}
use ws2tcp_router.Token.{
  State, RefreshRecord, SpentRecord, TokenError, full, max_records, sweep_interval,
}

-- Operations on the locked state that may fail. What was written before a failure stays written.
abbrev pub Exec : Type 0 → Type 0
Exec A = State → Result TokenError A × State

abbrev pub resume : {A B : Type 0} → Result TokenError A → (A → Exec B) → Exec B
resume (ok a) f st = f a st
resume (err e) f st = (err e, st)

infixl 5 ◌>>=◌ ◌>>◌
abbrev pub ◌>>=◌ : {A B : Type 0} → Exec A → (A → Exec B) → Exec B
◌>>=◌ m f st = let (r, st') = m st in resume r f st'

abbrev pub ◌>>◌ : {B : Type 0} → Exec (Unit {0}) → Exec B → Exec B
m >> n = m >>= λ _. n

-- `?` on a value computed without the state
abbrev pub lift : {A : Type 0} → Result TokenError A → Exec A
lift r st = (r, st)

-- a step that cannot fail
abbrev pub modify : (State → State) → Exec (Unit {0})
modify f st = (ok tt, f st)

abbrev pub is_live : ℕ → RefreshRecord → Bool
is_live now r = ltb now r.expires && ltb now r.family_deadline

abbrev pub is_remembered : ℕ → SpentRecord → Bool
is_remembered now r = ltb now r.expires

abbrev pub is_other : ℕ → RefreshRecord → Bool
is_other family r = not (r.family == family)

unfoldable pub force_sweep : ℕ → State → State
force_sweep now st = record st {
  refresh = retain (is_live now) st.refresh;
  spent = retain (is_remembered now) st.spent;
  revoked = retain (ltb now) st.revoked;
  next_sweep = now + sweep_interval;
}

unfoldable pub sweep : ℕ → State → State
sweep now st = if ltb now st.next_sweep then st else force_sweep now st

unfoldable pub revoke_family : ℕ → ℕ → ℕ → State → State
revoke_family family now access_ttl st = record st {
  refresh = retain (is_other family) st.refresh;
  revoked = insert family (now + access_ttl) st.revoked;
}

-- `state.refresh.len() + state.spent.len()`
abbrev pub records : State → ℕ
records st = length st.refresh + length st.spent

unfoldable pub make_room : ℕ → Exec (Unit {0})
make_room now st =
    if leb max_records (records st)
    then (let st' = force_sweep now st in
        if leb max_records (records st') then (err full, st') else (ok tt, st'))
    else (ok tt, st)
