-- ===== src/Crypto/Toy.antt =====
-- A concrete instance of `Crypto` that has the documented behaviour, for runs and instances: texts
-- in hexadecimal with the digits `a` to `p`, and a checksum for a tag.
use mathlib.Core.List.{foldl}
use mathlib.Core.Option
use ws2tcp_router.Prelude.{
  ◌+◌, ◌-◌, ◌*◌, ◌/◌, ◌%◌, ◌≡◌, Option, some, none, [], ◌∷◌, ◌++◌, arith, str_eq, str_eq_iff, refl,
}
use ws2tcp_router.Text.{Str, Bytes}
use ws2tcp_router.Text.Laws.{Lacks}
use ws2tcp_router.Crypto.{Crypto, IsCrypto, IsBytes}

unfoldable pub hex : Bytes → Str
hex [] = []
hex (b ∷ s) = (b'a' + b / 16) ∷ (b'a' + b % 16) ∷ hex s

unfoldable pub unhex : Str → Option Bytes
unhex [] = some []
unhex (x ∷ []) = none
unhex (x ∷ y ∷ s) = Option.map (λ t. ((x - b'a') * 16 + (y - b'a')) ∷ t) (unhex s)

abbrev pub checksum : Bytes → Bytes → Bytes
checksum key message = foldl (λ n b. (n * 31 + b) % 256) 7 (key ++ message) % 256 ∷ []

abbrev pub toy : Crypto
toy = record {
  url_encode = hex;
  url_decode = unhex;
  std_encode = hex;
  std_decode = unhex;
  sha256 = λ b. b;
  hmac_sign = checksum;
  hmac_verify = λ key message tag. str_eq tag (checksum key message);
  ct_eq = str_eq;
}

unhex-hex : (b : Bytes) → IsBytes b → unhex (hex b) ≡ some b
unfolding hex unhex
unhex-hex [] h = refl
unhex-hex (b ∷ s) h =
    let exact : (b'a' + b / 16 - b'a') * 16 + (b'a' + b % 16 - b'a') ≡ b = omega arith in
    rw (unhex-hex s h.1, exact)

hex-Lacks : (b : Bytes) → Lacks b'.' (hex b)
unfolding hex
hex-Lacks [] = tt
hex-Lacks (b ∷ s) = (omega arith, (omega arith, hex-Lacks s))

pub toy-IsCrypto : IsCrypto toy
toy-IsCrypto = record {
  url_decode-encode = unhex-hex;
  url_encode-Lacks = hex-Lacks;
  std_decode-encode = unhex-hex;
  hmac_sign-IsBytes = λ key message. (omega arith, tt);
  hmac_verify_iff = λ key message tag. str_eq_iff tag (checksum key message);
  ct_eq_iff = str_eq_iff;
}
