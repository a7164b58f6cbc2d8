-- ===== src/Target/Laws.antt =====
-- Which targets are accepted, and that a target's address is read back as the same target.
use mathlib.Core.List.{append_assoc}
use ws2tcp_router.Prelude.{
  ℕ, ◌≤◌, ◌≡◌, ◌≢◌, ◌⊎◌, refl, some, none, [], ◌∷◌, ◌++◌, arith, ok, Option-cases, inl, inr,
  Bool-cases, >>=-eq-ok, All,
}
use ws2tcp_router.Text.{Str, codes, strip_prefix, contains, split_once_str, rsplit_once}
use ws2tcp_router.Text.Laws.{
  Lacks, contains-Lacks, Lacks-contains, strip_prefix-eq-some, rsplit_once-append,
  rsplit_once-eq-some,
}
use ws2tcp_router.Number.{u16_max, parse_uint, show_uint}
use ws2tcp_router.Number.RoundTrip.{
  IsDigit, show_uint-All-IsDigit, parse_uint-show_uint, parse_uint-le,
}
use ws2tcp_router.Target.{bracketed, plain, host_and_port, check_port, parse_host_port}

-- No `]:` in the text.
abbrev pub NoClose : Str → Type 0
NoClose [] = Unit
NoClose (c ∷ []) = Unit
NoClose (c ∷ d ∷ s) = ((c ≢ b']') ⊎ (d ≢ b':')) × NoClose (d ∷ s)

-- The hosts that a target can have: a name or an IPv4 address, with no colon and no bracket in
-- front, or a text in brackets.
abbrev pub IsBare : Str → Type 0
IsBare h = (h ≢ []) × Lacks b':' h × (strip_prefix (codes "[") h ≡ none)

abbrev pub IsBoxed : Str → Type 0
IsBoxed h = (inner : Str) × (inner ≢ []) × NoClose inner × (h ≡ b'[' ∷ (inner ++ b']' ∷ []))

abbrev pub IsHost : Str → Type 0
IsHost h = IsBare h ⊎ IsBoxed h

split_close-append :
    (h q : Str) → NoClose h → split_once_str (codes "]:") (h ++ (codes "]:" ++ q)) ≡ some (h, q)
unfolding split_once_str strip_prefix
split_close-append [] q n = refl
split_close-append (c ∷ []) q n = ground arith
split_close-append (c ∷ d ∷ s) q n = ground (arith, split_close-append (d ∷ s) q n.1)

NoClose-cons :
    (c : ℕ) (h rest : Str)
    → strip_prefix (codes "]:") (c ∷ (h ++ rest)) ≡ none
    → NoClose h
    → NoClose (c ∷ h)
unfolding strip_prefix
NoClose-cons c [] rest e n = tt
NoClose-cons c (d ∷ h) rest e n = (ground arith, n)

split_close_sound :
    (s : Str) {h q : Str}
    → split_once_str (codes "]:") s ≡ some (h, q)
    → NoClose h × (s ≡ h ++ (codes "]:" ++ q))
unfolding split_once_str
split_close_sound [] e = unfold strip_prefix in cc
split_close_sound (c ∷ s) {h} {q} e = elim (Option-cases (strip_prefix (codes "]:") (c ∷ s))) [
  | inl later ↦ elim (Option-cases (split_once_str (codes "]:") s)) [
    | inl missed ↦ ground arith
    | inr ((x, y), found) ↦
        let (n, same) = split_close_sound s {h = x} {q = y} found in
        let head : h ≡ c ∷ x = ground arith in
        let rest : q ≡ y = ground arith in
        rw (head, rest) (NoClose-cons c x (codes "]:" ++ y) (rw same at later) n, cc same)
  ]
  | inr (rest, here) ↦
      let head : h ≡ [] = ground arith in
      let same : q ≡ rest = ground arith in
      rw (head, same) (tt, strip_prefix-eq-some (codes "]:") (c ∷ s) here)
]

check_port_sound :
    (h p : Str) {host : Str} {port : ℕ}
    → check_port (h, p) ≡ ok (host, port)
    → (h ≡ host) × (host ≢ []) × (parse_uint u16_max p ≡ some port)
unfolding check_port
check_port_sound [] p e = cc
check_port_sound (c ∷ h) p e = ground arith

bracketed_sound : (rest : Str) {h p : Str} → bracketed rest ≡ ok (h, p) → IsBoxed h
unfolding bracketed
bracketed_sound rest {h} {p} e = elim (Option-cases (split_once_str (codes "]:") rest)) [
  | inl missed ↦ ground arith
  | inr (([], y), found) ↦ ground arith
  | inr ((c ∷ x, y), found) ↦
      (c ∷ x, (cc), (split_close_sound rest {h = c ∷ x} {q = y} found).0, ground arith)
]

plain_sound :
    (target : Str) {h p : Str} → plain target ≡ ok (h, p) → Lacks b':' h × (target ≡ h ++ b':' ∷ p)
unfolding plain
plain_sound target {h} {p} e = elim (Option-cases (rsplit_once b':' target)) [
  | inl missed ↦ ground arith
  | inr ((x, y), found) ↦ elim (Bool-cases (contains b':' x)) [
    | inl colon ↦ ground arith
    | inr none_left ↦
        let head : h ≡ x = ground arith in
        let same : p ≡ y = ground arith in
        rw (head, same) (contains-Lacks b':' x none_left, (rsplit_once-eq-some b':' target found).0)
  ]
]

no_bracket :
    (h : Str) (p : Str)
    → strip_prefix (codes "[") (h ++ p) ≡ none
    → h ≢ []
    → strip_prefix (codes "[") h ≡ none
unfolding strip_prefix
no_bracket [] p e ne = absurd (ne refl)
no_bracket (c ∷ h) p e ne = ground arith

host_and_port_sound :
    (target : Str) {h p : Str} → host_and_port target ≡ ok (h, p) → h ≢ [] → IsHost h
unfolding host_and_port
host_and_port_sound target {h} {p} e ne = elim (Option-cases (strip_prefix (codes "[") target)) [
  | inl plainly ↦
      let (colons, same) = plain_sound target {h = h} {p = p} (ground arith) in
      inl (ne, colons, no_bracket h (b':' ∷ p) (rw same at plainly) ne)
  | inr (rest, boxed) ↦ inr (bracketed_sound rest {h = h} {p = p} (ground arith))
]

-- An accepted target has a well-formed host and a port that fits 16 bits.
pub parse_host_port_sound :
    (target host : Str) (port : ℕ)
    → parse_host_port target ≡ ok (host, port)
    → IsHost host × (port ≤ u16_max)
unfolding parse_host_port
parse_host_port_sound target host port e =
    let ((h, p), split, checked) = >>=-eq-ok (host_and_port target) check_port e in
    let (same, ne, parsed) = check_port_sound h p {host = host} {port = port} checked in
    (
      host_and_port_sound target {h = host} {p = p} (rw (← same) split) ne,
      parse_uint-le u16_max p port parsed,
    )

All-digits-Lacks : (s : Str) → All IsDigit s → Lacks b':' s
All-digits-Lacks [] h = tt
All-digits-Lacks (c ∷ s) h = (omega arith, All-digits-Lacks s h.1)

check_port-show_uint :
    (host : Str) (port : ℕ)
    → host ≢ []
    → port ≤ u16_max
    → check_port (host, show_uint port) ≡ ok (host, port)
unfolding check_port
check_port-show_uint [] port ne fits = absurd (ne refl)
check_port-show_uint (c ∷ host) port ne fits = rw (parse_uint-show_uint u16_max port fits)

host_and_port-bare :
    (h p : Str) → IsBare h → Lacks b':' p → host_and_port (h ++ b':' ∷ p) ≡ ok (h, p)
unfolding host_and_port
host_and_port-bare [] p b d = absurd (b.0 refl)
host_and_port-bare (c ∷ h) p b d =
    let unboxed : strip_prefix (codes "[") (c ∷ (h ++ b':' ∷ p)) ≡ none =
      unfold strip_prefix in ground (arith, b.2) in
    rw (unboxed, host_and_port)
      (rw (rsplit_once-append b':' (c ∷ h) p d) (rw (Lacks-contains b':' (c ∷ h) b.1) refl))

bracketed-append :
    (inner p : Str)
    → inner ≢ []
    → NoClose inner
    → bracketed (inner ++ (codes "]:" ++ p)) ≡ ok (b'[' ∷ (inner ++ b']' ∷ []), p)
unfolding bracketed
bracketed-append [] p ne n = absurd (ne refl)
bracketed-append (c ∷ inner) p ne n = rw (split_close-append (c ∷ inner) p n)

host_and_port-boxed :
    (inner p : Str)
    → inner ≢ []
    → NoClose inner
    → host_and_port ((b'[' ∷ (inner ++ b']' ∷ [])) ++ b':' ∷ p)
      ≡ ok (b'[' ∷ (inner ++ b']' ∷ []), p)
unfolding host_and_port strip_prefix
host_and_port-boxed inner p ne n = rw append_assoc (bracketed-append inner p ne n)

host_and_port-IsHost :
    (h p : Str) → IsHost h → Lacks b':' p → host_and_port (h ++ b':' ∷ p) ≡ ok (h, p)
host_and_port-IsHost h p (inl b) d = host_and_port-bare h p b d
host_and_port-IsHost h p (inr (inner, ne, n, same)) d = rw same (host_and_port-boxed inner p ne n)

IsHost-ne-nil : {h : Str} → IsHost h → h ≢ []
IsHost-ne-nil (inl b) = b.0
IsHost-ne-nil (inr (inner, ne, n, same)) = λ e. cc

-- The print of a host and a port is read back.
pub parse_host_port_complete :
    (host : Str) (port : ℕ)
    → IsHost host
    → port ≤ u16_max
    → parse_host_port (host ++ b':' ∷ show_uint port) ≡ ok (host, port)
unfolding parse_host_port
parse_host_port_complete host port h fits =
    rw
      (host_and_port-IsHost host (show_uint port) h
        (All-digits-Lacks (show_uint port) (show_uint-All-IsDigit port)))
      (check_port-show_uint host port (IsHost-ne-nil h) fits)
