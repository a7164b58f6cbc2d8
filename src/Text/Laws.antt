-- ===== src/Text/Laws.antt =====
-- What splitting a text and stripping a prefix give.
use ws2tcp_router.Prelude.{
  All-append, ap, ◌∙◌, ℕ, ◌≡◌, ◌≢◌, refl, false, none, some, [], ◌∷◌, ◌++◌, arith, ◌==◌, Bool-cases,
  Option-cases, All, inl, inr,
}
use mathlib.Core.List.{reverse, reverse-cons, reverse-reverse}
use ws2tcp_router.Text.{
  is_whitespace, trim_start, trim, Str, strip_prefix, contains, split_once, rsplit_once,
}

abbrev pub Lacks : ℕ → Str → Type 0
Lacks b = All (λ c. c ≢ b)

pub contains-Lacks : (b : ℕ) (s : Str) → contains b s ≡ false → Lacks b s
unfolding contains
contains-Lacks b [] h = tt
contains-Lacks b (c ∷ s) h = ground (arith, contains-Lacks b s)

pub Lacks-contains : (b : ℕ) (s : Str) → Lacks b s → contains b s ≡ false
unfolding contains
Lacks-contains b [] h = refl
Lacks-contains b (c ∷ s) h = ground (arith, Lacks-contains b s)

pub strip_prefix-append : (p s : Str) → strip_prefix p (p ++ s) ≡ some s
unfolding strip_prefix
strip_prefix-append [] s = refl
strip_prefix-append (c ∷ p) s = ground (arith, strip_prefix-append p s)

pub strip_prefix-eq-some : (p s : Str) {r : Str} → strip_prefix p s ≡ some r → s ≡ p ++ r
unfolding strip_prefix
strip_prefix-eq-some [] s h = cc
strip_prefix-eq-some (c ∷ p) [] h = cc
strip_prefix-eq-some (c ∷ p) (d ∷ s) {r} h = ground (arith, strip_prefix-eq-some p s {r = r})

pub rsplit_once-none : (b : ℕ) (s : Str) → Lacks b s → rsplit_once b s ≡ none
unfolding rsplit_once
rsplit_once-none b [] h = refl
rsplit_once-none b (c ∷ s) h = ground (arith, rsplit_once-none b s)

rsplit_once-none-Lacks : (b : ℕ) (s : Str) → rsplit_once b s ≡ none → Lacks b s
unfolding rsplit_once
rsplit_once-none-Lacks b [] h = tt
rsplit_once-none-Lacks b (c ∷ s) h = elim (Option-cases (rsplit_once b s)) [
  | inl e ↦ ground (arith, rsplit_once-none-Lacks b s e)
  | inr ((x, y), e) ↦ ground arith
]

-- The last separator is the one behind which none stands.
pub rsplit_once-append :
    (b : ℕ) (before after : Str)
    → Lacks b after
    → rsplit_once b (before ++ b ∷ after) ≡ some (before, after)
unfolding rsplit_once
rsplit_once-append b [] after h = ground (arith, rsplit_once-none b after h)
rsplit_once-append b (c ∷ before) after h = ground (arith, rsplit_once-append b before after h)

pub split_once-append :
    (b : ℕ) (before after : Str)
    → Lacks b before
    → split_once b (before ++ b ∷ after) ≡ some (before, after)
unfolding split_once
split_once-append b [] after h = ground arith
split_once-append b (c ∷ before) after h = ground (arith, split_once-append b before after h.1)

pub split_once-eq-some :
    (b : ℕ) (s : Str) {before after : Str}
    → split_once b s ≡ some (before, after)
    → (s ≡ before ++ b ∷ after) × Lacks b before
unfolding split_once
split_once-eq-some b [] h = cc
split_once-eq-some b (c ∷ s) {before} {after} h = elim (Bool-cases (c == b)) [
  | inl same ↦ ground arith
  | inr other ↦ elim (Option-cases (split_once b s)) [
    | inl e ↦ ground arith
    | inr ((x, y), e) ↦ ground (arith, split_once-eq-some b s {before = x} {after = y} e)
  ]
]

pub rsplit_once-eq-some :
    (b : ℕ) (s : Str) {before after : Str}
    → rsplit_once b s ≡ some (before, after)
    → (s ≡ before ++ b ∷ after) × Lacks b after
unfolding rsplit_once
rsplit_once-eq-some b [] h = cc
rsplit_once-eq-some b (c ∷ s) {before} {after} h = elim (Option-cases (rsplit_once b s)) [
  | inl e ↦ ground (arith, rsplit_once-none-Lacks b s e)
  | inr ((x, y), e) ↦ ground (arith, rsplit_once-eq-some b s {before = x} {after = y} e)
]

-- No character at which `trim` cuts.
abbrev pub IsDense : Str → Type 0
IsDense = All (λ c. is_whitespace c ≡ false)

trim_start-IsDense : (s : Str) → IsDense s → trim_start s ≡ s
unfolding trim_start
trim_start-IsDense [] h = refl
trim_start-IsDense (c ∷ s) h = rw (h.0) refl

reverse-IsDense : (s : Str) → IsDense s → IsDense (reverse s)
reverse-IsDense [] h = tt
reverse-IsDense (c ∷ s) h =
    rw (reverse-cons c s) (All-append _ (reverse s) (c ∷ []) (reverse-IsDense s h.1) (h.0, tt))

pub trim-IsDense : (s : Str) → IsDense s → trim s ≡ s
unfolding trim
trim-IsDense s h =
    ap (λ t. reverse (trim_start (reverse t))) (trim_start-IsDense s h)
    ∙ ap reverse (trim_start-IsDense (reverse s) (reverse-IsDense s h))
    ∙ reverse-reverse s
