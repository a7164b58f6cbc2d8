-- ===== src/Number/RoundTrip.antt =====
-- Printing and reading back, and what is read.
use ws2tcp_router.Prelude.{
  ℕ, zero, suc, ◌+◌, ◌-◌, ◌*◌, ◌/◌, ◌%◌, ◌≤◌, ◌<◌, ◌≡◌, refl, some, [], ◌∷◌, arith, ◌==◌,
  Bool-cases, inl, inr, All,
}
use ws2tcp_router.Text.{Str}
use ws2tcp_router.Number.{scan, scan_digits, parse_uint, emit, show_uint}

abbrev pub IsDigit : ℕ → Type 0
IsDigit c = (b'0' ≤ c) × (c ≤ b'9')

emit-All-IsDigit : (fuel n : ℕ) (out : Str) → All IsDigit out → All IsDigit (emit fuel n out)
unfolding emit
emit-All-IsDigit zero n out h = h
emit-All-IsDigit (suc fuel) n out h =
    ground (arith, emit-All-IsDigit fuel (n / 10) ((b'0' + n % 10) ∷ out))

pub show_uint-All-IsDigit : (n : ℕ) → All IsDigit (show_uint n)
unfolding show_uint
show_uint-All-IsDigit n = emit-All-IsDigit (suc n) n [] tt

-- `emit` never gives the empty text.
scan_digits-emit :
    (max fuel n : ℕ) (out : Str)
    → n < fuel
    → n ≤ max
    → scan_digits max (emit fuel n out) ≡ scan max out n
unfolding scan_digits emit
scan_digits-emit max zero n out lt le = absurd (omega arith)
scan_digits-emit max (suc fuel) n out lt le = elim (Bool-cases (n / 10 == 0)) [
  | inl last ↦ rw last (ground arith)
  | inr more ↦ rw more (ground (arith, scan_digits-emit max fuel (n / 10) ((b'0' + n % 10) ∷ out)))
]

parse_uint-scan_digits : (max : ℕ) (s : Str) → All IsDigit s → parse_uint max s ≡ scan_digits max s
unfolding parse_uint
parse_uint-scan_digits max [] h = refl
parse_uint-scan_digits max (c ∷ s) h = ground arith

pub parse_uint-show_uint : (max n : ℕ) → n ≤ max → parse_uint max (show_uint n) ≡ some n
parse_uint-show_uint max n h =
    rw (parse_uint-scan_digits max (show_uint n) (show_uint-All-IsDigit n))
      (unfold show_uint scan in scan_digits-emit max (suc n) n [] (omega arith) h)

scan-le : (max : ℕ) (s : Str) (n r : ℕ) → n ≤ max → scan max s n ≡ some r → r ≤ max
unfolding scan
scan-le max [] n r le h = ground arith
scan-le max (c ∷ s) n r le h = ground (arith, scan-le max s (n * 10 + (c - b'0')) r)

scan_digits-le : (max : ℕ) (s : Str) (r : ℕ) → scan_digits max s ≡ some r → r ≤ max
unfolding scan_digits
scan_digits-le max [] r h = cc
scan_digits-le max (c ∷ s) r h = scan-le max (c ∷ s) 0 r (omega arith) h

-- A value that is read fits the type.
pub parse_uint-le : (max : ℕ) (s : Str) (r : ℕ) → parse_uint max s ≡ some r → r ≤ max
unfolding parse_uint
parse_uint-le max [] r h = cc
parse_uint-le max (c ∷ s) r h = ground (arith, scan_digits-le max s r, scan_digits-le max (c ∷ s) r)
