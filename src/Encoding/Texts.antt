-- ===== src/Encoding/Texts.antt =====
-- The bytes of texts that are put together, and ASCII bytes in them.
use mathlib.Core.List.{append_assoc}
use ws2tcp_router.Prelude.{
  ℕ, ◌<◌, ◌≡◌, ◌≢◌, ◌∙◌, refl, sym, ap, arith, false, [], ◌∷◌, ◌++◌, All, All-append,
}
use ws2tcp_router.Text.{Str, is_empty}
use ws2tcp_router.Encoding.{encode_char, as_bytes}

pub as_bytes-append : (s t : Str) → as_bytes (s ++ t) ≡ as_bytes s ++ as_bytes t
unfolding as_bytes
as_bytes-append [] t = refl
as_bytes-append (c ∷ s) t =
    ap (λ l. encode_char c ++ l) (as_bytes-append s t)
    ∙ sym (append_assoc (encode_char c) (as_bytes s) (as_bytes t))

encode_char_avoids : (b c : ℕ) → b < 0x80 → c ≢ b → All (λ x. x ≢ b) (encode_char c)
unfolding encode_char
encode_char_avoids b c small h = ground arith

-- The bytes of a text have an ASCII byte only where the text has the character.
pub as_bytes_avoids :
    (b : ℕ) (s : Str) → b < 0x80 → All (λ c. c ≢ b) s → All (λ x. x ≢ b) (as_bytes s)
unfolding as_bytes
as_bytes_avoids b [] small h = tt
as_bytes_avoids b (c ∷ s) small h =
    All-append _ (encode_char c) (as_bytes s) (encode_char_avoids b c small h.0)
      (as_bytes_avoids b s small h.1)

pub as_bytes_nonempty : (s : Str) → s ≢ [] → is_empty (as_bytes s) ≡ false
unfolding as_bytes encode_char
as_bytes_nonempty [] h = absurd (h refl)
as_bytes_nonempty (c ∷ s) h = ground arith
