-- ===== src/ClientAddr/Ranges.antt =====
-- Address ranges of src/client_addr.rs: the masks of `IpRange::contains` against the comparison
-- of the first bits, and the ranges that are read.
use native.Mathlib.Nat.{
  pow-suc, one-le-pow, pow-succ', div-div-eq-div-mul, pow-le-pow_right, mul-div_cancel,
  add-mul-mod_self_right, mod-eq_of_lt,
}
use ws2tcp_router.Prelude.{
  ℕ, zero, suc, ◌+◌, ◌-◌, ◌*◌, ◌/◌, ◌%◌, ◌^◌, ◌≤◌, ◌<◌, ◌≡◌, refl, sym, ap, ◌∙◌, ◌↔◌, arith, true,
  ltb, ◌==◌, ==_iff, Bool-cases, inl, inr,
}
use ws2tcp_router.ClientAddr.{
  IpAddr, v4, v6, IpRange, bit_and, mask, contains, contains_canonical, to_canonical, masked_eq,
}

ones_shifted : (p k : ℕ) → 1 ≤ k → k ≤ p → (p - 1) * k % p ≡ p - k
ones_shifted zero k h below = omega arith
ones_shifted (suc p) zero h below = elim h [ ]
ones_shifted (suc p) (suc e) h below =
    let pred : suc p - 1 ≡ p = omega arith in
    let split : p * suc e ≡ (p - e) + e * suc p = grind arith in
    rw (pred, split, add-mul-mod_self_right)
      (mod-eq_of_lt {n = p - e} {m = suc p} (omega arith) ∙ omega arith)

-- The mask keeps the first `prefix` of `w` bits.
mask_lem : (w prefix : ℕ) → prefix ≤ w → mask w prefix ≡ 2 ^ w - 2 ^ (w - prefix)
unfolding mask
mask_lem w zero h = ground arith
mask_lem w (suc prefix) h =
    let test : ltb (w - suc prefix) w ≡ true = ground arith in
    rw test (
      ones_shifted (2 ^ w) (2 ^ (w - suc prefix)) (one-le-pow (w - suc prefix) 2 (omega arith))
        (pow-le-pow_right (omega arith) (omega arith)))

bit_and_high : (w k a : ℕ) → k ≤ w → a < 2 ^ w → bit_and w a (2 ^ w - 2 ^ k) ≡ a / 2 ^ k * 2 ^ k
unfolding bit_and
bit_and_high zero zero a h small = omega arith
bit_and_high zero (suc k) a h small = elim h [ ]
bit_and_high (suc w) zero a h small =
    let top : 2 ^ suc w ≡ 2 ^ w * 2 = pow-suc 2 w in
    let rest = bit_and_high w zero (a / 2) (omega arith) (omega (arith, top)) in
    let bit : (2 ^ suc w - 1) % 2 ≡ 1 = omega (arith, top, one-le-pow w 2 (omega arith)) in
    let others : (2 ^ suc w - 1) / 2 ≡ 2 ^ w - 1 = omega (arith, top) in
    rw (bit, others, rest) (omega arith)
bit_and_high (suc w) (suc k) a h small =
    let top : 2 ^ suc w ≡ 2 ^ w * 2 = pow-suc 2 w in
    let low : 2 ^ suc k ≡ 2 ^ k * 2 = pow-suc 2 k in
    let rest = bit_and_high w k (a / 2) (omega arith) (omega (arith, top)) in
    let bit : (2 ^ suc w - 2 ^ suc k) % 2 ≡ 0 = omega (arith, top, low) in
    let others : (2 ^ suc w - 2 ^ suc k) / 2 ≡ 2 ^ w - 2 ^ k = omega (arith, top, low) in
    let double : 2 ^ suc k ≡ 2 * 2 ^ k = pow-succ' 2 k in
    let halved : a / 2 ^ suc k ≡ a / 2 / 2 ^ k = rw double (sym (div-div-eq-div-mul a 2 (2 ^ k))) in
    rw (bit, others, rest, halved, double) (grind arith)

-- Comparing under the mask is comparing the first `prefix` of `w` bits.
masked_eq_iff :
    (w prefix network ip : ℕ)
    → prefix ≤ w
    → network < 2 ^ w
    → ip < 2 ^ w
    → (masked_eq w prefix network ip ≡ true) ↔ (network / 2 ^ (w - prefix) ≡ ip / 2 ^ (w - prefix))
masked_eq_iff w prefix network ip h hn hi =
    let K = 2 ^ (w - prefix) in
    let a : bit_and w network (mask w prefix) ≡ network / K * K =
      rw (mask_lem w prefix h) (bit_and_high w (w - prefix) network (omega arith) hn) in
    let b : bit_and w ip (mask w prefix) ≡ ip / K * K =
      rw (mask_lem w prefix h) (bit_and_high w (w - prefix) ip (omega arith) hi) in
    let test = ==_iff (network / K * K) (ip / K * K) in
    rw (a, b)
      (
        (λ e. cancel (network / K) (ip / K) K (one-le-pow (w - prefix) 2 (omega arith)) (test.0 e)),
        λ e. test.1 (cc e),
      )
  where
    cancel : (x y K : ℕ) → 1 ≤ K → x * K ≡ y * K → x ≡ y
    cancel x y K h e = sym (mul-div_cancel x h) ∙ ap (λ z. z / K) e ∙ mul-div_cancel y h

-- The numbers that an address can have, and the prefixes that a range can have.
abbrev pub bits : IpAddr → ℕ
bits (v4 n) = 32
bits (v6 n) = 128

abbrev pub number : IpAddr → ℕ
number (v4 n) = n
number (v6 n) = n

abbrev pub IsIp : IpAddr → Type 0
IsIp ip = number ip < 2 ^ bits ip

pub record IsRange (r : IpRange) : Type 0 where
  pub addr : IsIp r.addr
  pub prefix : r.prefix ≤ bits r.addr

to_canonical-IsIp : (ip : IpAddr) → IsIp ip → IsIp (to_canonical ip)
to_canonical-IsIp (v4 n) h = h
to_canonical-IsIp (v6 n) h = elim (Bool-cases (n / 2 ^ 32 == 0xffff)) [
  | inl mapped ↦ rw mapped (omega arith)
  | inr other ↦ rw other h
]

-- Both addresses are of one kind and agree in the first `prefix` bits.
pub record SameNetwork (r : IpRange) (ip : IpAddr) : Type 0 where
  pub kind : bits r.addr ≡ bits ip
  pub agrees :
      number r.addr / 2 ^ (bits r.addr - r.prefix) ≡ number ip / 2 ^ (bits r.addr - r.prefix)

contains_canonical_iff :
    (network ip : IpAddr) (prefix : ℕ)
    → IsIp network
    → IsIp ip
    → prefix ≤ bits network
    → (contains_canonical (record { addr = network; prefix = prefix }) ip ≡ true)
      ↔ SameNetwork (record { addr = network; prefix = prefix }) ip
unfolding contains_canonical
contains_canonical_iff (v4 n) (v4 m) prefix hn hm h =
    let test = masked_eq_iff 32 prefix n m h hn hm in
    ((λ e. record { kind = refl; agrees = test.0 e }), λ s. test.1 s.agrees)
contains_canonical_iff (v6 n) (v6 m) prefix hn hm h =
    let test = masked_eq_iff 128 prefix n m h hn hm in
    ((λ e. record { kind = refl; agrees = test.0 e }), λ s. test.1 s.agrees)
contains_canonical_iff (v4 n) (v6 m) prefix hn hm h =
    ((λ e. absurd (ground arith)), λ s. absurd (omega (arith, s.kind)))
contains_canonical_iff (v6 n) (v4 m) prefix hn hm h =
    ((λ e. absurd (ground arith)), λ s. absurd (omega (arith, s.kind)))

-- A range holds an address exactly if the address in canonical form is of the same kind as the
-- range's and agrees with it in the first `prefix` bits, for addresses of 32 and 128 bits and a
-- prefix of no more bits than that.
pub contains_iff :
    (r : IpRange) (ip : IpAddr)
    → IsRange r
    → IsIp ip
    → (contains r ip ≡ true) ↔ SameNetwork r (to_canonical ip)
unfolding contains
contains_iff r ip h hi =
    contains_canonical_iff r.addr (to_canonical ip) r.prefix h.addr (to_canonical-IsIp ip hi)
      h.prefix
