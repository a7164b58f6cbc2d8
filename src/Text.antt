-- ===== src/Text.antt =====
-- Rust's `str`, as the list of its characters' code points, and the methods of `str` that the
-- sources call (src/target.rs, src/auth.rs, src/token.rs, src/client_addr.rs, src/http_probe.rs).
pub mod Laws
use Prim.Native.Char.{code}
use Prim.Native.String.{String}
use mathlib.Core.List.{reverse}
use mathlib.Core.Option
use ws2tcp_router.Prelude.{
  ℕ, ◌+◌, Bool, true, false, not, ◌&&◌, ◌||◌, Option, none, some, List, [], ◌∷◌, ltb, leb, ◌==◌,
  if◌then◌else◌, str_eq, ◌≡◌, refl,
}

abbrev pub Str : Type 0
Str = List ℕ

abbrev pub Bytes : Type 0
Bytes = List ℕ

-- a literal
abbrev pub codes : String → Str
codes String.[] = []
codes (String.◌∷◌ c s) = code c ∷ codes s

-- `strip_prefix`
unfoldable pub strip_prefix : Str → Str → Option Str
strip_prefix [] s = some s
strip_prefix (p ∷ ps) [] = none
strip_prefix (p ∷ ps) (c ∷ s) = if p == c then strip_prefix ps s else none

-- `strip_suffix`
abbrev pub strip_suffix : Str → Str → Option Str
strip_suffix p s = Option.map reverse (strip_prefix (reverse p) (reverse s))

-- `starts_with`
abbrev pub starts_with : Str → Str → Bool
starts_with p s = elim (strip_prefix p s) [ none ↦ false | some _ ↦ true ]

-- `is_empty`
abbrev pub is_empty {ℓ} : {A : Type ℓ} → List A → Bool
is_empty [] = true
is_empty (c ∷ s) = false

-- `contains` of one character
unfoldable pub contains : ℕ → Str → Bool
contains b [] = false
contains b (c ∷ s) = c == b || contains b s

abbrev cons_first : ℕ → Option (Str × Str) → Option (Str × Str)
cons_first c none = none
cons_first c (some (a, b)) = some (c ∷ a, b)

-- `split_once`: at the first occurrence of a character
unfoldable pub split_once : ℕ → Str → Option (Str × Str)
split_once b [] = none
split_once b (c ∷ s) = if c == b then some ([], s) else cons_first c (split_once b s)

-- `split_once` of a pattern of several characters, at its first occurrence
unfoldable pub split_once_str : Str → Str → Option (Str × Str)
split_once_str p [] = elim (strip_prefix p []) [ none ↦ none | some rest ↦ some ([], rest) ]
split_once_str p (c ∷ s) = elim (strip_prefix p (c ∷ s)) [
  | none ↦ cons_first c (split_once_str p s)
  | some rest ↦ some ([], rest)
]

-- `rsplit_once`: at the last occurrence of a character
unfoldable pub rsplit_once : ℕ → Str → Option (Str × Str)
rsplit_once b [] = none
rsplit_once b (c ∷ s) = elim (rsplit_once b s) [
  | some (before, after) ↦ some (c ∷ before, after)
  | none ↦ if c == b then some ([], s) else none
]

-- `char::is_whitespace`: the Unicode property White_Space
unfoldable pub is_whitespace : ℕ → Bool
is_whitespace c =
    (leb 0x09 c && leb c 0x0d)
    || c == 0x20
    || c == 0x85
    || c == 0xa0
    || c == 0x1680
    || (leb 0x2000 c && leb c 0x200a)
    || c == 0x2028
    || c == 0x2029
    || c == 0x202f
    || c == 0x205f
    || c == 0x3000

unfoldable pub trim_start : Str → Str
unfolding is_whitespace
trim_start [] = []
trim_start (c ∷ s) = let rest = trim_start s in if is_whitespace c then rest else c ∷ s

-- `trim`
unfoldable pub trim : Str → Str
unfolding trim_start
trim s = reverse (trim_start (reverse (trim_start s)))

unfoldable pub to_ascii_lowercase : ℕ → ℕ
to_ascii_lowercase c = if leb b'A' c && leb c b'Z' then c + 32 else c

-- `eq_ignore_ascii_case`
unfoldable pub eq_ignore_ascii_case : Str → Str → Bool
unfolding to_ascii_lowercase
eq_ignore_ascii_case [] [] = true
eq_ignore_ascii_case (a ∷ s) (b ∷ t) =
    to_ascii_lowercase a == to_ascii_lowercase b && eq_ignore_ascii_case s t
eq_ignore_ascii_case _ _ = false

abbrev cons_line : ℕ → List Str → List Str
cons_line c [] = (c ∷ []) ∷ []
cons_line c (line ∷ rest) = (c ∷ line) ∷ rest

-- `split` at a character
unfoldable pub split : ℕ → Str → List Str
split b [] = [] ∷ []
split b (c ∷ s) = let rest = split b s in if c == b then [] ∷ rest else cons_line c rest

-- `lines`: at each line feed, with a carriage return in front of it; an empty last line is none.
abbrev starts_line : Str → Bool
starts_line [] = false
starts_line (c ∷ s) = c == 0x0a

unfoldable pub lines : Str → List Str
lines [] = []
lines (c ∷ s) =
    let rest = lines s in
    if c == 0x0a then [] ∷ rest else if c == 0x0d && starts_line s then rest else cons_line c rest

lines_test : lines (codes "ab\r\n\nc\rd\n e\r") ≡ codes "ab" ∷ [] ∷ codes "c\rd" ∷ codes " e\r" ∷ []
unfolding lines
lines_test = refl
