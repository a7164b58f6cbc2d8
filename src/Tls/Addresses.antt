-- ===== src/Tls/Addresses.antt =====
-- The addresses that the generated certificate of src/tls.rs is for (`server_ip_addresses`).
use ws2tcp_router.Prelude.{
  ◌≡◌, ◌⊎◌, ◌↔◌, ◌∙◌, refl, sym, arith, true, false, Bool-cases, some, List, [], ◌∷◌, ok, inl, inr,
  All, Any,
}
use ws2tcp_router.Text.{Str}
use ws2tcp_router.ClientAddr.{IpAddr, v4, v6}
use ws2tcp_router.Tls.{
  TlsCrates, ip_lt, insert, insert_all, localhost_v4, localhost_v6, server_ip_addresses,
}

ip_lt_trans : (a b c : IpAddr) → ip_lt a b ≡ true → ip_lt b c ≡ true → ip_lt a c ≡ true
ip_lt_trans (v4 a) (v4 b) (v4 c) h k = ground arith
ip_lt_trans (v4 a) (v4 b) (v6 c) h k = refl
ip_lt_trans (v4 a) (v6 b) (v6 c) h k = refl
ip_lt_trans (v4 a) (v6 b) (v4 c) h k = absurd (cc)
ip_lt_trans (v6 a) (v4 b) c h k = absurd (cc)
ip_lt_trans (v6 a) (v6 b) (v4 c) h k = absurd (cc)
ip_lt_trans (v6 a) (v6 b) (v6 c) h k = ground arith

ip_lt_total : (a b : IpAddr) → ip_lt a b ≡ false → ip_lt b a ≡ false → a ≡ b
ip_lt_total (v4 a) (v4 b) h k = ground arith
ip_lt_total (v4 a) (v6 b) h k = absurd (cc)
ip_lt_total (v6 a) (v4 b) h k = absurd (cc)
ip_lt_total (v6 a) (v6 b) h k = ground arith

-- In strictly ascending order, so that nothing occurs twice.
abbrev pub IsAscending : List IpAddr → Type 0
IsAscending [] = Unit
IsAscending (x ∷ xs) = All (λ y. ip_lt x y ≡ true) xs × IsAscending xs

-- An address of the list.
abbrev pub Holds : List IpAddr → IpAddr → Type 0
Holds xs ip = Any (λ y. y ≡ ip) xs

All-below :
    (x y : IpAddr) (ys : List IpAddr)
    → ip_lt x y ≡ true
    → All (λ z. ip_lt y z ≡ true) ys
    → All (λ z. ip_lt x z ≡ true) ys
All-below x y [] h k = tt
All-below x y (z ∷ ys) h (first, k) = (ip_lt_trans x y z h first, All-below x y ys h k)

insert-All :
    (x ip : IpAddr) (xs : List IpAddr)
    → ip_lt x ip ≡ true
    → All (λ z. ip_lt x z ≡ true) xs
    → All (λ z. ip_lt x z ≡ true) (insert ip xs)
unfolding insert
insert-All x ip [] h k = (h, tt)
insert-All x ip (y ∷ ys) h (first, k) = elim (Bool-cases (ip_lt ip y)) [
  | inl before ↦ rw (insert, before) (h, (first, k))
  | inr past ↦ elim (Bool-cases (ip_lt y ip)) [
    | inl behind ↦ rw (insert, past, behind) (first, insert-All x ip ys h k)
    | inr equal ↦ rw (insert, past, equal) (first, k)
  ]
]

insert-IsAscending : (ip : IpAddr) (xs : List IpAddr) → IsAscending xs → IsAscending (insert ip xs)
unfolding insert
insert-IsAscending ip [] k = (tt, tt)
insert-IsAscending ip (x ∷ xs) (first, k) = elim (Bool-cases (ip_lt ip x)) [
  | inl before ↦ rw (insert, before) ((before, All-below ip x xs before first), (first, k))
  | inr past ↦ elim (Bool-cases (ip_lt x ip)) [
    | inl behind ↦
        rw (insert, past, behind) (insert-All x ip xs behind first, insert-IsAscending ip xs k)
    | inr equal ↦ rw (insert, past, equal) (first, k)
  ]
]

insert-Holds :
    (ip : IpAddr) (xs : List IpAddr) (a : IpAddr) → Holds (insert ip xs) a ↔ ((ip ≡ a) ⊎ Holds xs a)
unfolding insert
insert-Holds ip [] a = ground arith
insert-Holds ip (x ∷ xs) a = elim (Bool-cases (ip_lt ip x)) [
  | inl before ↦ rw (insert, before) ((λ h. h), λ h. h)
  | inr past ↦ elim (Bool-cases (ip_lt x ip)) [
    | inl behind ↦
        let rest = insert-Holds ip xs a in rw (insert, past, behind) (ground (arith, rest))
    | inr equal ↦
        let same = ip_lt_total ip x past equal in
        rw (insert, past, equal)
          ((λ h. inr h), λ h. elim h [ inl e ↦ inl (sym same ∙ e) | inr k ↦ k ])
  ]
]

insert_all-IsAscending :
    (interfaces : List (Str × IpAddr)) (ips : List IpAddr)
    → IsAscending ips
    → IsAscending (insert_all interfaces ips)
insert_all-IsAscending [] ips k = k
insert_all-IsAscending ((name, ip) ∷ rest) ips k =
    insert_all-IsAscending rest (insert ip ips) (insert-IsAscending ip ips k)

insert_all-Holds :
    (interfaces : List (Str × IpAddr)) (ips : List IpAddr) (a : IpAddr)
    → Holds (insert_all interfaces ips) a
      ↔ (Any (λ (i : Str × IpAddr). i.1 ≡ a) interfaces ⊎ Holds ips a)
insert_all-Holds [] ips a = ground arith
insert_all-Holds ((name, ip) ∷ rest) ips a =
    let first = insert-Holds ip ips a in
    let later = insert_all-Holds rest (insert ip ips) a in ground (arith, first, later)

module _ {C : Type 0} (x : TlsCrates C) where
  -- The certificate that is generated is for exactly the two loopback addresses and the addresses
  -- of the interfaces, each once and in ascending order, provided that the interfaces can be
  -- listed.
  pub server_ip_addresses-Holds :
      (interfaces : List (Str × IpAddr))
      → x.list_afinet_netifas ≡ some interfaces
      → (ips : List IpAddr) × (server_ip_addresses x ≡ ok ips)
        × IsAscending ips
        × ((a : IpAddr)
            → Holds ips a ↔ (
                (a ≡ localhost_v4)
                ⊎ (a ≡ localhost_v6)
                ⊎ Any (λ (i : Str × IpAddr). i.1 ≡ a) interfaces))
  unfolding server_ip_addresses
  server_ip_addresses-Holds interfaces e =
      let listed = insert_all interfaces [] in
      let with_v4 = insert localhost_v4 listed in
      (
        insert localhost_v6 with_v4,
        rw (server_ip_addresses, e) refl,
        insert-IsAscending localhost_v6 with_v4
            (insert-IsAscending localhost_v4 listed (insert_all-IsAscending interfaces [] tt)),
        λ a.
            let outer = insert-Holds localhost_v6 with_v4 a in
            let inner = insert-Holds localhost_v4 listed a in
            let found = insert_all-Holds interfaces [] a in
            (
              (λ h. elim (outer.0 h) [
                | inl last ↦ inr (inl (sym last))
                | inr k ↦ elim (inner.0 k) [
                  | inl first ↦ inl (sym first)
                  | inr l ↦ elim (found.0 l) [
                    | inl i ↦ inr (inr i)
                    | inr none_left ↦ elim none_left [ ]
                  ]
                ]
              ]),
              λ h. elim h [
                | inl first ↦ outer.1 (inr (inner.1 (inl (sym first))))
                | inr (inl last) ↦ outer.1 (inl (sym last))
                | inr (inr i) ↦ outer.1 (inr (inner.1 (inr (found.1 (inl i)))))
              ],
            ),
      )
