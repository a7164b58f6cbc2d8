-- ===== src/Crypto.antt =====
-- What the sources call of the crates `base64` (the engines URL_SAFE_NO_PAD and STANDARD), `ring`
-- (SHA-256 and HMAC-SHA256) and `subtle`: parameters of the model, with the documented behaviour
-- that the program relies on as the fields of `IsCrypto`.
pub mod Toy
use ws2tcp_router.Prelude.{ℕ, ◌<◌, ◌≡◌, ◌↔◌, Bool, true, Option, some, All}
use ws2tcp_router.Text.{Str, Bytes}
use ws2tcp_router.Text.Laws.{Lacks}

pub record Crypto : Type 0 where
  -- base64url without padding
  pub url_encode : Bytes → Str
  pub url_decode : Str → Option Bytes
  -- base64 with padding
  pub std_encode : Bytes → Str
  pub std_decode : Str → Option Bytes
  pub sha256 : Bytes → Bytes
  -- the key, then the message
  pub hmac_sign : Bytes → Bytes → Bytes
  pub hmac_verify : Bytes → Bytes → Bytes → Bool
  pub ct_eq : Bytes → Bytes → Bool

abbrev pub IsBytes : Bytes → Type 0
IsBytes = All (λ b. b < 256)

pub record IsCrypto (c : Crypto) : Type 0 where
  pub url_decode-encode : (b : Bytes) → IsBytes b → c.url_decode (c.url_encode b) ≡ some b
  -- a full stop is no character of the alphabet
  pub url_encode-Lacks : (b : Bytes) → Lacks b'.' (c.url_encode b)
  pub std_decode-encode : (b : Bytes) → IsBytes b → c.std_decode (c.std_encode b) ≡ some b
  pub hmac_sign-IsBytes : (key message : Bytes) → IsBytes (c.hmac_sign key message)
  -- a tag is verified exactly if it is the tag that signing gives
  pub hmac_verify_iff :
      (key message tag : Bytes)
      → (c.hmac_verify key message tag ≡ true) ↔ (tag ≡ c.hmac_sign key message)
  pub ct_eq_iff : (a b : Bytes) → (c.ct_eq a b ≡ true) ↔ (a ≡ b)
