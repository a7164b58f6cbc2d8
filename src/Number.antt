-- ===== src/Number.antt =====
-- The standard library's `FromStr` and `Display` of the unsigned integers (`u16` in src/target.rs,
-- `u8` in src/client_addr.rs): an optional `+`, one or more digits, and no overflow.
pub mod RoundTrip
use ws2tcp_router.Prelude.{
  ℕ, zero, suc, ◌+◌, ◌-◌, ◌*◌, ◌/◌, ◌%◌, ◌^◌, Option, none, some, [], ◌∷◌, ltb, ◌==◌, ◌||◌,
  if◌then◌else◌, ◌≡◌, refl,
}
use ws2tcp_router.Text.{Str, codes}

abbrev pub u8_max : ℕ
u8_max = 2 ^ 8 - 1

abbrev pub u16_max : ℕ
u16_max = 2 ^ 16 - 1

abbrev pub u64_max : ℕ
u64_max = 2 ^ 64 - 1

-- `checked_mul(10)`, then `checked_add(digit)`, for each character
scan : ℕ → Str → ℕ → Option ℕ
scan max [] n = some n
scan max (c ∷ s) n =
    if ltb c b'0' || ltb b'9' c
    then none
    else if ltb max (n * 10)
    then none
    else if ltb max (n * 10 + (c - b'0'))
    then none
    else scan max s (n * 10 + (c - b'0'))

-- behind the sign
scan_digits : ℕ → Str → Option ℕ
unfolding scan
scan_digits max [] = none
scan_digits max (c ∷ s) = scan max (c ∷ s) 0

-- `str::parse` of an unsigned integer with the largest value `max`
unfoldable pub parse_uint : ℕ → Str → Option ℕ
unfolding scan_digits
parse_uint max [] = none
parse_uint max (c ∷ s) = if c == b'+' then scan_digits max s else scan_digits max (c ∷ s)

-- One digit for each round, the last digit first; the fuel is more than the value.
emit : ℕ → ℕ → Str → Str
emit zero n out = out
emit (suc fuel) n out =
    let digit = b'0' + n % 10 in
    let more = emit fuel (n / 10) (digit ∷ out) in if n / 10 == 0 then digit ∷ out else more

-- `to_string` of an unsigned integer
unfoldable pub show_uint : ℕ → Str
unfolding emit
show_uint n = emit (suc n) n []

tests :
    (parse_uint u16_max (codes "+0080") ≡ some 80)
    × (parse_uint u16_max (codes "65536") ≡ none)
    × (parse_uint u16_max (codes "+") ≡ none)
    × (parse_uint u16_max (codes "8 ") ≡ none)
    × (show_uint 0 ≡ codes "0")
    × (show_uint 12345 ≡ codes "12345")
unfolding parse_uint show_uint
tests = (refl, refl, refl, refl, refl, refl)
