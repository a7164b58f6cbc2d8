-- ===== src/Auth/Anonymous.antt =====
-- The anonymous allowlist of src/auth.rs: its entries, and the paths that it lets in.
use ws2tcp_router.Prelude.{
  ℕ, ◌+◌, ◌≡◌, ◌↔◌, refl, arith, true, false, Option, List, ◌++◌, Result, ok, err, ◌>>=◌, ok_or,
  >>=-eq-ok, any, Any, any_iff, All, str_eq, str_eq_iff, collect-All,
}
use ws2tcp_router.Text.{Str, lines}
use ws2tcp_router.Target.{
  Target, TargetError, Protocol, addr, parse_target, parse_target_addr, parse_host_port,
  with_protocol,
}
use ws2tcp_router.Target.Paths.{scheme, parse_target-scheme, parse_target_addr-addr}
use ws2tcp_router.Crypto.{Crypto}
use ws2tcp_router.Auth.{
  AuthConfig, bad_target, bad_target_line, unreadable, map_err, normalize,
  normalize_anonymous_targets, entries, load_anonymous_target_file, allows_anonymous_target,
}

-- An address that a target is printed as, and read from.
abbrev pub IsNormal : Str → Type 0
IsNormal s = (t : Target) × (parse_target_addr s ≡ ok t) × (addr t ≡ s)

normalize-IsNormal : (s a : Str) → normalize s ≡ ok a → IsNormal a
normalize-IsNormal s a e =
    let (t, parsed, printed) = >>=-eq-ok (parse_target_addr s) (λ t. ok (addr t)) e in
    let same : addr t ≡ a = ground arith in
    (t, rw (← same) (parse_target_addr-addr s t parsed), same)

map_err-ok : {E F A : Type 0} (f : E → F) (r : Result E A) {a : A} → map_err f r ≡ ok a → r ≡ ok a
map_err-ok f (ok a) h = ground arith
map_err-ok f (err e) h = absurd (cc)

pub normalize_anonymous_targets-IsNormal :
    (targets : List Str) {out : List Str}
    → normalize_anonymous_targets targets ≡ ok out
    → All IsNormal out
unfolding normalize_anonymous_targets
normalize_anonymous_targets-IsNormal targets =
    collect-All (λ s. map_err (bad_target s) (normalize s)) IsNormal targets
      (λ s a e. normalize-IsNormal s a (map_err-ok (bad_target s) (normalize s) e))

pub load_anonymous_target_file-IsNormal :
    (file : Option Str) {out : List Str}
    → load_anonymous_target_file file ≡ ok out
    → All IsNormal out
unfolding load_anonymous_target_file
load_anonymous_target_file-IsNormal file e =
    let (text, read, loaded) = >>=-eq-ok (ok_or file unreadable) _ e in
    collect-All (λ (p : ℕ × Str). map_err (bad_target_line (p.0 + 1)) (normalize p.1)) IsNormal
      (entries 0 (lines text))
      (λ p a e. normalize-IsNormal p.1 a (map_err-ok (bad_target_line (p.0 + 1)) (normalize p.1) e))
      loaded

module _ (c : Crypto) (auth : AuthConfig) where
  -- A path is let in without credentials exactly if it names a target whose address is an entry.
  pub allows_anonymous_target_iff :
      (path : Str)
      → (allows_anonymous_target c auth path ≡ true) ↔ (
          (t : Target) × (parse_target path ≡ ok t)
          × Any (λ entry. entry ≡ addr t) auth.anonymous_targets)
  unfolding allows_anonymous_target
  allows_anonymous_target_iff path = cases (parse_target path) refl
    where
      cases :
          (r : Result TargetError Target)
          → parse_target path ≡ r
          → (allows_anonymous_target c auth path ≡ true) ↔ (
              (t : Target) × (parse_target path ≡ ok t)
              × Any (λ entry. entry ≡ addr t) auth.anonymous_targets)
      cases (err x) e = (λ h. absurd (ground arith), λ (t, parsed, found). absurd (cc))
      cases (ok target) e =
          let listed =
            any_iff (λ entry. entry ≡ addr target) _ auth.anonymous_targets
              (λ entry. str_eq_iff entry (addr target)) in
          (
            λ h. (target, e, listed.0 (ground arith)),
            λ (t, parsed, found).
                let same : target ≡ t = ground arith in
                rw (allows_anonymous_target, e) (listed.1 (rw same found)),
          )

  -- The allowlist does not look at the protocol: over TCP and over UDP it lets in the same hosts
  -- and ports.
  pub allows_anonymous_target-scheme :
      (p q : Protocol) (rest : Str)
      → allows_anonymous_target c auth (scheme p ++ rest)
        ≡ allows_anonymous_target c auth (scheme q ++ rest)
  unfolding allows_anonymous_target addr
  allows_anonymous_target-scheme p q rest =
      rw (allows_anonymous_target, parse_target-scheme p rest, parse_target-scheme q rest)
        (same (parse_host_port rest))
    where
      same :
          (r : Result TargetError (Str × ℕ))
          → (elim (r >>= with_protocol p) [
            | err e ↦ false
            | ok target ↦ any (λ entry. str_eq entry (addr target)) auth.anonymous_targets
          ])
            ≡ (elim (r >>= with_protocol q) [
              | err e ↦ false
              | ok target ↦ any (λ entry. str_eq entry (addr target)) auth.anonymous_targets
            ])
      same (err e) = refl
      same (ok (host, port)) = refl
