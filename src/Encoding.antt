-- ===== src/Encoding.antt =====
-- UTF-8 and big-endian integers: `str::as_bytes`, `String::from_utf8`, `u64::to_be_bytes` and
-- `u64::from_be_bytes` of the standard library, which src/token.rs writes and reads tokens with.
pub mod RoundTrip
pub mod Texts
use mathlib.Core.Option
use mathlib.Core.List.{foldl}
use ws2tcp_router.Prelude.{
  ℕ, zero, suc, ◌+◌, ◌-◌, ◌*◌, ◌/◌, ◌%◌, ◌≤◌, ◌<◌, ◌⊎◌, Bool, Option, none, some, List, [], ◌∷◌,
  ◌++◌, ltb, leb, ◌==◌, if◌then◌else◌, ◌&&◌, ◌||◌, ◌≡◌, refl,
}
use ws2tcp_router.Text.{Str, Bytes, codes}

encode_char : ℕ → Bytes
encode_char c =
    if ltb c 0x80
    then c ∷ []
    else if ltb c 0x800
    then (0xc0 + c / 64) ∷ (0x80 + c % 64) ∷ []
    else if ltb c 0x10000
    then (0xe0 + c / 4096) ∷ (0x80 + c / 64 % 64) ∷ (0x80 + c % 64) ∷ []
    else (0xf0 + c / 262144) ∷ (0x80 + c / 4096 % 64) ∷ (0x80 + c / 64 % 64) ∷ (0x80 + c % 64) ∷ []

-- `as_bytes`
unfoldable pub as_bytes : Str → Bytes
unfolding encode_char
as_bytes [] = []
as_bytes (c ∷ s) = encode_char c ++ as_bytes s

-- Between two bytes: at the start of a character, or with so many continuation bytes still to
-- come, the value so far, and the least value that may be written with so many bytes.
pub data Decoder : Type 0 where
  start : Decoder
  pending : ℕ → ℕ → ℕ → Decoder

is_scalar : ℕ → Bool
is_scalar c = ltb c 0xd800 || (leb 0xe000 c && ltb c 0x110000)

-- One byte: the next state and the character that it completes, or a refusal.
feed : Decoder → ℕ → Option (Decoder × Str)
unfolding is_scalar
feed start b =
    if ltb b 0x80
    then some (start, b ∷ [])
    else if leb 0xc0 b && ltb b 0xe0
    then some (pending zero (b - 0xc0) 0x80, [])
    else if leb 0xe0 b && ltb b 0xf0
    then some (pending 1 (b - 0xe0) 0x800, [])
    else if leb 0xf0 b && ltb b 0xf8
    then some (pending 2 (b - 0xf0) 0x10000, [])
    else none
feed (pending zero acc least) b =
    let c = acc * 64 + (b - 0x80) in
    if leb 0x80 b && ltb b 0xc0 && leb least c && is_scalar c then some (start, c ∷ []) else none
feed (pending (suc more) acc least) b =
    if leb 0x80 b && ltb b 0xc0 then some (pending more (acc * 64 + (b - 0x80)) least, []) else none

decode : Decoder → Bytes → Option Str
unfolding feed
decode start [] = some []
decode (pending _ _ _) [] = none
decode d (b ∷ s) = elim (feed d b) [
  | none ↦ none
  | some (d', out) ↦ Option.map (λ t. out ++ t) (decode d' s)
]

-- `String::from_utf8`
unfoldable pub from_utf8 : Bytes → Option Str
unfolding decode
from_utf8 s = decode start s

-- the `k` bytes of a number, the most significant first
unfoldable pub to_be_bytes : ℕ → ℕ → Bytes
to_be_bytes zero n = []
to_be_bytes (suc k) n = to_be_bytes k (n / 256) ++ n % 256 ∷ []

unfoldable pub from_be_bytes : Bytes → ℕ
from_be_bytes = foldl (λ n b. n * 256 + b) 0

tests :
    (as_bytes (codes "é€😀") ≡ 0xc3 ∷ 0xa9 ∷ 0xe2 ∷ 0x82 ∷ 0xac ∷ 0xf0 ∷ 0x9f ∷ 0x98 ∷ 0x80 ∷ [])
    × (from_utf8 (as_bytes (codes "é€😀")) ≡ some (codes "é€😀"))
    × (from_utf8 (0xc0 ∷ 0x80 ∷ []) ≡ none)
    × (from_utf8 (0xed ∷ 0xa0 ∷ 0x80 ∷ []) ≡ none)
    × (to_be_bytes 8 258 ≡ 0 ∷ 0 ∷ 0 ∷ 0 ∷ 0 ∷ 0 ∷ 1 ∷ 2 ∷ [])
unfolding as_bytes from_utf8 to_be_bytes
tests = (refl, refl, refl, refl, refl)
