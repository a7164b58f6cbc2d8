-- ===== src/Encoding/RoundTrip.antt =====
-- What is written is read back.
use mathlib.Core.List.{foldl-append}
use mathlib.Core.Option
use native.Mathlib.Nat.{pow-suc}
use ws2tcp_router.Prelude.{
  ℕ, zero, suc, ◌/◌, ◌%◌, ◌^◌, ◌≤◌, ◌<◌, ◌⊎◌, some, [], ◌∷◌, ◌++◌, ◌≡◌, refl, arith, All,
  All-append, length, length-append,
}
use ws2tcp_router.Text.{Str, Bytes}
use ws2tcp_router.Encoding.{
  encode_char, as_bytes, start, decode, from_utf8, to_be_bytes, from_be_bytes,
}

-- A `char`: a Unicode scalar value.
abbrev pub IsScalar : ℕ → Type 0
IsScalar c = (c < 0xd800) ⊎ ((0xe000 ≤ c) × (c < 0x110000))

-- What every Rust `str` satisfies.
abbrev pub IsStr : Str → Type 0
IsStr = All IsScalar

decode-encode_char :
    (c : ℕ) (s : Bytes)
    → IsScalar c
    → decode start (encode_char c ++ s) ≡ Option.map (λ t. c ∷ t) (decode start s)
unfolding encode_char decode
decode-encode_char c s h = ground arith

pub from_utf8-as_bytes : (s : Str) → IsStr s → from_utf8 (as_bytes s) ≡ some s
unfolding from_utf8 as_bytes
from_utf8-as_bytes [] h = refl
from_utf8-as_bytes (c ∷ s) h =
    rw (decode-encode_char c (as_bytes s) h.0) (rw (from_utf8-as_bytes s h.1) refl)

pub from_be_bytes-to_be_bytes : (k n : ℕ) → n < 256 ^ k → from_be_bytes (to_be_bytes k n) ≡ n
unfolding from_be_bytes to_be_bytes
from_be_bytes-to_be_bytes zero n h = omega arith
from_be_bytes-to_be_bytes (suc k) n h =
    rw foldl-append
      (omega (arith, from_be_bytes-to_be_bytes k (n / 256) (omega (arith, pow-suc 256 k))))

pub length-to_be_bytes : (k n : ℕ) → length (to_be_bytes k n) ≡ k
unfolding to_be_bytes
length-to_be_bytes zero n = refl
length-to_be_bytes (suc k) n =
    omega (
      arith,
      length-append (to_be_bytes k (n / 256)) (n % 256 ∷ []),
      length-to_be_bytes k (n / 256),
    )

pub to_be_bytes-IsBytes : (k n : ℕ) → All (λ b. b < 256) (to_be_bytes k n)
unfolding to_be_bytes
to_be_bytes-IsBytes zero n = tt
to_be_bytes-IsBytes (suc k) n =
    All-append _ (to_be_bytes k (n / 256)) _ (to_be_bytes-IsBytes k (n / 256)) (omega arith)

encode_char-IsBytes : (c : ℕ) → IsScalar c → All (λ b. b < 256) (encode_char c)
unfolding encode_char
encode_char-IsBytes c h = ground arith

pub as_bytes-IsBytes : (s : Str) → IsStr s → All (λ b. b < 256) (as_bytes s)
unfolding as_bytes
as_bytes-IsBytes [] h = tt
as_bytes-IsBytes (c ∷ s) h =
    All-append _ (encode_char c) _ (encode_char-IsBytes c h.0) (as_bytes-IsBytes s h.1)
