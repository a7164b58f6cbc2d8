-- ===== src/Token/Access/Laws.antt =====
-- Access tokens are accepted exactly while they are in force, and only genuine ones are.
use ws2tcp_router.Prelude.{
  ℕ, ◌+◌, ◌%◌, ◌^◌, ◌≤◌, ◌<◌, ◌≡◌, refl, sym, ◌∙◌, arith, Bool, true, false, not, ◌&&◌, some, none,
  [], ◌∷◌, ◌++◌, length, take, drop, length-append, take-length-append, drop-length-append,
  drop-drop, ltb, leb, ◌==◌, ltb_iff, leb_iff, ==_iff, if◌then◌else◌, All-append, nat_eq,
}
use ws2tcp_router.Prelude.Maybe.{◌>>=◌, guard, through, through_guard}
use ws2tcp_router.Text.{Str, Bytes, split_once}
use ws2tcp_router.Text.Laws.{split_once-append, split_once-eq-some}
use ws2tcp_router.Encoding.{as_bytes, from_utf8, to_be_bytes, from_be_bytes}
use ws2tcp_router.Encoding.RoundTrip.{
  IsStr, from_utf8-as_bytes, from_be_bytes-to_be_bytes, length-to_be_bytes, as_bytes-IsBytes,
  to_be_bytes-IsBytes,
}
use ws2tcp_router.HashMap.{contains_key}
use ws2tcp_router.Crypto.{Crypto, IsCrypto, IsBytes}
use ws2tcp_router.Token.{TokenService, as_secs, access_token_version}
use ws2tcp_router.Token.Access.{
  access_payload, access_token_of, mint_access, read_payload, verify_access, split_first,
}

-- A field of eight bytes in front of the rest.
take_field : (n : ℕ) (rest : Bytes) → take 8 (to_be_bytes 8 n ++ rest) ≡ to_be_bytes 8 n
take_field n rest = rw (length-to_be_bytes 8 n) at (take-length-append (to_be_bytes 8 n) rest)

drop_field : (n : ℕ) (rest : Bytes) → drop 8 (to_be_bytes 8 n ++ rest) ≡ rest
drop_field n rest = rw (length-to_be_bytes 8 n) at (drop-length-append (to_be_bytes 8 n) rest)

drop_16 : (s : Bytes) → drop 16 s ≡ drop 8 (drop 8 s)
drop_16 s = sym (drop-drop 8 8 s)

two_guards :
    (a b : Bool) (user : Str)
    → (guard a >>= λ _. guard b >>= λ _. some user) ≡ (if a && b then some user else none)
two_guards true true user = refl
two_guards true false user = refl
two_guards false b user = refl

module _ (c : Crypto) (svc : TokenService) where
  access_payload-IsBytes :
      (family expires : ℕ) (user : Str)
      → IsStr user
      → IsBytes (access_payload c svc family expires user)
  unfolding access_payload
  access_payload-IsBytes family expires user h = (
    omega arith,
    All-append _ (to_be_bytes 8 family) _ (to_be_bytes-IsBytes 8 family) (
        All-append _ (to_be_bytes 8 expires) _ (to_be_bytes-IsBytes 8 expires)
          (as_bytes-IsBytes user h)),
  )

  read_payload-access_payload :
      (family expires unix_now : ℕ) (user : Str)
      → family < 2 ^ 64
      → expires < 2 ^ 64
      → IsStr user
      → read_payload c svc unix_now (access_payload c svc family expires user) ≡ (
          if ltb unix_now expires && not (contains_key family svc.state.revoked)
          then some user
          else none)
  unfolding read_payload access_payload
  read_payload-access_payload family expires unix_now user hf he hu =
      let f8 = to_be_bytes 8 family in
      let e8 = to_be_bytes 8 expires in
      let fits : leb 16 (length (f8 ++ (e8 ++ as_bytes user))) ≡ true = ground (
        arith,
        length-append f8 (e8 ++ as_bytes user),
        length-append e8 (as_bytes user),
        length-to_be_bytes 8 family,
        length-to_be_bytes 8 expires,
      ) in
      rw (fits, drop_16 (f8 ++ (e8 ++ as_bytes user)), drop_field family (e8 ++ as_bytes user))
        (rw (drop_field expires (as_bytes user), from_utf8-as_bytes user hu)
          (rw (take_field expires (as_bytes user), from_be_bytes-to_be_bytes 8 expires he)
            (rw (take_field family (e8 ++ as_bytes user), from_be_bytes-to_be_bytes 8 family hf)
              (two_guards (ltb unix_now expires) (not (contains_key family svc.state.revoked))
                user))))

  verify_access-access_token_of :
      (payload : Bytes) (unix_now : ℕ)
      → IsCrypto c
      → IsBytes payload
      → verify_access c svc unix_now (access_token_of c svc payload)
        ≡ read_payload c svc unix_now payload
  unfolding verify_access access_token_of
  verify_access-access_token_of payload unix_now k h =
      let tag = c.hmac_sign svc.key payload in
      rw (
        split_once-append b'.' (c.url_encode payload) (c.url_encode tag)
            (k.url_encode-Lacks payload),
        k.url_decode-encode payload h,
        k.url_decode-encode tag (k.hmac_sign-IsBytes svc.key payload),
        (k.hmac_verify_iff svc.key payload tag).1 refl,
      )

  -- A minted access token of a user that is a string, with a family and an expiry that fit 64
  -- bits, is accepted exactly before its expiry and while its family is not on the list of the
  -- revoked ones, and then it names its user, provided the cryptographic functions behave as
  -- documented.
  pub verify_access-mint_access :
      (family minted_at unix_now : ℕ) (user : Str)
      → IsCrypto c
      → IsStr user
      → family < 2 ^ 64
      → minted_at + as_secs svc.access_ttl < 2 ^ 64
      → verify_access c svc unix_now (mint_access c svc minted_at family user) ≡ (
          if ltb unix_now (minted_at + as_secs svc.access_ttl)
            && not (contains_key family svc.state.revoked)
          then some user
          else none)
  unfolding mint_access
  verify_access-mint_access family minted_at unix_now user k hu hf he =
      let expires = minted_at + as_secs svc.access_ttl in
      let exact : expires % 2 ^ 64 ≡ expires = omega arith in
      rw (exact, mint_access)
        (verify_access-access_token_of (access_payload c svc family expires user) unix_now k
            (access_payload-IsBytes family expires user hu)
          ∙ read_payload-access_payload family expires unix_now user hf he hu)

  -- What an accepted token is: two texts around a full stop, a payload and the tag that signing
  -- it with the service's key gives; the payload has the version, a family that is not revoked, an
  -- expiry still to come and the user.
  pub record IsGenuine (unix_now : ℕ) (token user : Str) : Type 0 where
    pub payload64 : Str
    pub tag64 : Str
    pub payload : Bytes
    pub rest : Bytes
    pub parts : token ≡ payload64 ++ b'.' ∷ tag64
    pub decoded : c.url_decode payload64 ≡ some payload
    pub signed : c.url_decode tag64 ≡ some (c.hmac_sign svc.key payload)
    pub versioned : payload ≡ access_token_version ∷ rest
    pub complete : 16 ≤ length rest
    pub named : from_utf8 (drop 16 rest) ≡ some user
    pub early : unix_now < from_be_bytes (take 8 (drop 8 rest))
    pub in_force : contains_key (from_be_bytes (take 8 rest)) svc.state.revoked ≡ false

  split_first-eq-some :
      (payload : Bytes) {b : ℕ} {rest : Bytes}
      → split_first payload ≡ some (b, rest)
      → payload ≡ b ∷ rest
  split_first-eq-some [] e = cc
  split_first-eq-some (x ∷ payload) e = cc

  read_payload-IsGenuine :
      (unix_now : ℕ) (token user payload64 tag64 : Str) (payload : Bytes)
      → token ≡ payload64 ++ b'.' ∷ tag64
      → c.url_decode payload64 ≡ some payload
      → c.url_decode tag64 ≡ some (c.hmac_sign svc.key payload)
      → read_payload c svc unix_now payload ≡ some user
      → IsGenuine unix_now token user
  unfolding read_payload
  read_payload-IsGenuine unix_now token user payload64 tag64 payload parts decoded signed e =
      through (split_first payload) _ e λ (version, rest) first e1.
        through_guard (version == access_token_version) _ e1 λ current e2.
          through_guard (leb 16 (length rest)) _ e2 λ complete e3.
            through (from_utf8 (drop 16 rest)) _ e3 λ name named e4.
              through_guard (ltb unix_now (from_be_bytes (take 8 (drop 8 rest)))) _ e4 λ early e5.
                through_guard (not (contains_key (from_be_bytes (take 8 rest)) svc.state.revoked)) _
                  e5
                  λ in_force e6. record {
                    payload64 = payload64;
                    tag64 = tag64;
                    payload = payload;
                    rest = rest;
                    parts = parts;
                    decoded = decoded;
                    signed = signed;
                    versioned = rw (← (==_iff _ _).0 current) (split_first-eq-some payload first);
                    complete = (leb_iff 16 (length rest)).0 complete;
                    named = named ∙ e6;
                    early = (ltb_iff _ _).0 early;
                    in_force = ground (arith, in_force);
                  }

  -- An accepted access token is genuine, provided the cryptographic functions behave as
  -- documented: it is two base64url texts around a full stop, the second is the signature of the
  -- first under the service's key, the payload has the current version, a family that is not on
  -- the list of the revoked ones, and an expiry that is not reached, and it names the user.
  pub verify_access-IsGenuine :
      (unix_now : ℕ) (token user : Str)
      → IsCrypto c
      → verify_access c svc unix_now token ≡ some user
      → IsGenuine unix_now token user
  unfolding verify_access
  verify_access-IsGenuine unix_now token user k e =
      through (split_once b'.' token) _ e λ (p64, t64) split e1.
        through (c.url_decode p64) _ e1 λ payload decoded e2.
          through (c.url_decode t64) _ e2 λ tag tagged e3.
            through_guard (c.hmac_verify svc.key payload tag) _ e3 λ verified e4.
              let same : tag ≡ c.hmac_sign svc.key payload =
                (k.hmac_verify_iff svc.key payload tag).0 verified in
              read_payload-IsGenuine unix_now token user p64 t64 payload
                (split_once-eq-some b'.' token split).0 decoded (rw same at tagged) e4

-- A token depends on the service's key and lifetime only.
pub mint_access_config :
    (c : Crypto) (svc svc' : TokenService) (minted_at family : ℕ) (user : Str)
    → svc'.key ≡ svc.key
    → svc'.access_ttl ≡ svc.access_ttl
    → mint_access c svc' minted_at family user ≡ mint_access c svc minted_at family user
unfolding mint_access
mint_access_config c svc svc' minted_at family user k t = rw (k, t)
