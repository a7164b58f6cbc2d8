-- ===== src/ClientAddr/Selection.antt =====
-- Which `X-Forwarded-For` entry is believed: `TrustedProxies::select_client` of
-- src/client_addr.rs.
use mathlib.Core.List.{
  reverse, reverse-append, reverse-reverse, reverse-cons, append_assoc, map-append,
}
use mathlib.Core.Path.{subst}
use ws2tcp_router.Prelude.{
  ◌≡◌, refl, sym, ◌∙◌, ap, ◌⊎◌, inl, inr, arith, Bool, true, false, Bool-cases, Option, none, some,
  Option-cases, List, [], ◌∷◌, ◌++◌, if◌then◌else◌, All, All-append, filter, filter_map, flat_map,
}
use ws2tcp_router.Prelude.Maybe.{through}
use ws2tcp_router.Text.{Str, Bytes}
use ws2tcp_router.ClientAddr.{
  IpAddr, SocketAddr, Parsers, TrustedProxies, is_trusted, parse_forwarded_address, search,
  first_address, select_client, forwarded_entries, forwarded_client, client_addr, max_headers,
}

module _ (p : Parsers) (t : TrustedProxies) where
  -- An entry is the address of a trusted proxy.
  abbrev pub IsProxy : Str → Type 0
  IsProxy entry =
      (ip : IpAddr) × (parse_forwarded_address p entry ≡ some ip) × (is_trusted t ip ≡ true)

  -- An entry ends the search with the result `o`: it is no address, or not a trusted one.
  abbrev pub Ends : Str → Option IpAddr → Type 0
  Ends entry none = parse_forwarded_address p entry ≡ none
  Ends entry (some ip) = (parse_forwarded_address p entry ≡ some ip) × (is_trusted t ip ≡ false)

  search-All :
      (first : Option IpAddr) (entries : List Str)
      → All IsProxy entries
      → (rest : List Str) → search p t first (entries ++ rest) ≡ search p t first rest
  unfolding search
  search-All first [] h rest = refl
  search-All first (entry ∷ entries) ((ip, parsed, trusted), h) rest =
      rw (search, parsed, trusted) (search-All first entries h rest)

  search-Ends :
      (first : Option IpAddr) (entry : Str) (o : Option IpAddr) (rest : List Str)
      → Ends entry o
      → search p t first (entry ∷ rest) ≡ o
  unfolding search
  search-Ends first entry none rest h = rw (search, h)
  search-Ends first entry (some ip) rest (parsed, foreign) = rw (search, parsed, foreign)

  search_cases :
      (first : Option IpAddr) (entries : List Str)
      → (All IsProxy entries × (search p t first entries ≡ first))
        ⊎ ((proxies : List Str) × (entry : Str) × (rest : List Str) × (entries
              ≡ proxies ++ entry ∷ rest)
            × All IsProxy proxies
            × Ends entry (search p t first entries))
  unfolding search
  search_cases first [] = inl (tt, refl)
  search_cases first (entry ∷ entries) = elim (Option-cases (parse_forwarded_address p entry)) [
    | inl unreadable ↦ inr (
      [],
      entry,
      entries,
      refl,
      tt,
      rw (search-Ends first entry none entries unreadable) unreadable,
    )
    | inr (ip, parsed) ↦ elim (Bool-cases (is_trusted t ip)) [
      | inr foreign ↦ inr (
        [],
        entry,
        entries,
        refl,
        tt,
        rw (search-Ends first entry (some ip) entries (parsed, foreign)) (parsed, foreign),
      )
      | inl trusted ↦ elim (search_cases first entries) [
        | inl (all, e) ↦ inl (((ip, parsed, trusted), all), rw (search, parsed, trusted) e)
        | inr (proxies, last, rest, e, all, ends) ↦ inr (
          entry ∷ proxies,
          last,
          rest,
          cc e,
          ((ip, parsed, trusted), all),
          rw (search-All first (entry ∷ []) ((ip, parsed, trusted), tt) entries) ends,
        )
      ]
    ]
  ]

  All-reverse : (entries : List Str) → All IsProxy entries → All IsProxy (reverse entries)
  All-reverse [] h = tt
  All-reverse (entry ∷ entries) h =
      rw (reverse-cons entry entries)
        (All-append IsProxy (reverse entries) _ (All-reverse entries h.1) (h.0, tt))

  pub select_client-rightmost :
      (left right : List Str) (entry : Str) (o : Option IpAddr)
      → Ends entry o
      → All IsProxy right
      → select_client p t (left ++ entry ∷ right) ≡ o
  unfolding select_client
  select_client-rightmost left right entry o ends proxies =
      rw (reverse-append left (entry ∷ right), reverse-cons entry right, append_assoc)
        (search-All _ (reverse right) (All-reverse right proxies) (entry ∷ reverse left)
          ∙ search-Ends _ entry o (reverse left) ends)

  -- What the entries decide: all are trusted proxies, and the leftmost is reported, or the
  -- rightmost other entry ends the search.
  abbrev pub IsSelected : List Str → Option IpAddr → Type 0
  IsSelected entries o =
      (All IsProxy entries × (o ≡ first_address p t entries))
      ⊎ ((left : List Str) × (entry : Str) × (right : List Str) × (entries ≡ left ++ entry ∷ right)
          × All IsProxy right
          × Ends entry o)

  -- The client among the entries: the rightmost entry that is not a trusted proxy's address
  -- decides, as an address or, if it cannot be read, as none; if there is no such entry, it is
  -- the leftmost one.
  pub select_client-IsSelected :
      (entries : List Str) → IsSelected entries (select_client p t entries)
  unfolding select_client
  select_client-IsSelected entries =
      elim (search_cases (first_address p t entries) (reverse entries)) [
        | inl (all, e) ↦ inl (rw (← reverse-reverse entries) (All-reverse (reverse entries) all), e)
        | inr (proxies, entry, rest, e, all, ends) ↦ inr (
          reverse rest,
          entry,
          reverse proxies,
          sym (reverse-reverse entries)
              ∙ ap reverse e
              ∙ reverse-append proxies (entry ∷ rest)
              ∙ ap (λ l. l ++ reverse proxies) (reverse-cons entry rest)
              ∙ append_assoc (reverse rest) (entry ∷ []) (reverse proxies),
          All-reverse proxies all,
          ends,
        )
      ]

  filter_append :
      {A : Type 0} (test : A → Bool) (xs ys : List A)
      → filter test (xs ++ ys) ≡ filter test xs ++ filter test ys
  filter_append test [] ys = refl
  filter_append test (x ∷ xs) ys = ground (arith, filter_append test xs ys)

  filter_map_append :
      {A B : Type 0} (f : A → Option B) (xs ys : List A)
      → filter_map f (xs ++ ys) ≡ filter_map f xs ++ filter_map f ys
  filter_map_append f [] ys = refl
  filter_map_append f (x ∷ xs) ys = ground (arith, filter_map_append f xs ys)

  flat_map_append :
      {A B : Type 0} (f : A → List B) (xs ys : List A)
      → flat_map f (xs ++ ys) ≡ flat_map f xs ++ flat_map f ys
  flat_map_append f [] ys = refl
  flat_map_append f (x ∷ xs) ys = rw (flat_map_append f xs ys) (sym (append_assoc (f x) _ _))

  forwarded_entries-append :
      (hs ks : List (Str × Bytes))
      → forwarded_entries p t (hs ++ ks) ≡ forwarded_entries p t hs ++ forwarded_entries p t ks
  unfolding forwarded_entries
  forwarded_entries-append hs ks =
      rw (filter_append, filter_map_append, flat_map_append, map-append, filter_append)

  select_client-forged :
      (forged written : List (Str × Bytes)) (left right : List Str) (entry : Str)
      (o : Option IpAddr)
      → forwarded_entries p t written ≡ left ++ entry ∷ right
      → Ends entry o
      → All IsProxy right
      → select_client p t (forwarded_entries p t (forged ++ written))
        ≡ select_client p t (forwarded_entries p t written)
  select_client-forged forged written left right entry o e ends proxies =
      rw (forwarded_entries-append, e, ← append_assoc)
        (select_client-rightmost (forwarded_entries p t forged ++ left) right entry o ends proxies
          ∙ sym (select_client-rightmost left right entry o ends proxies))

  -- Header lines that a client adds in front of those that the proxies write do not change the
  -- address that its connection is reported under, if the head with them can still be parsed (at
  -- most 64 header lines) into these lines and those of the head without them, and an entry of the
  -- proxies' lines ends the search.
  pub client_addr-forged :
      (peer : SocketAddr) (head forged_head : Bytes) (forged written : List (Str × Bytes))
      (left right : List Str) (entry : Str) (o : Option IpAddr)
      → p.parse_headers max_headers head ≡ some written
      → p.parse_headers max_headers forged_head ≡ some (forged ++ written)
      → forwarded_entries p t written ≡ left ++ entry ∷ right
      → Ends entry o
      → All IsProxy right
      → client_addr p t peer forged_head ≡ client_addr p t peer head
  unfolding client_addr forwarded_client
  client_addr-forged peer head forged_head forged written left right entry o parsed parsed' e ends
        proxies =
      let same = select_client-forged forged written left right entry o e ends proxies in
      rw (parsed, parsed')
        (ap (λ f. record { peer = peer; forwarded = if is_trusted t peer.ip then f else none })
          same)

  -- A reported address other than the peer's comes from a trusted peer, and is the one that the
  -- entries of its request decide.
  pub client_addr-forwarded :
      (peer : SocketAddr) (head : Bytes) (ip : IpAddr)
      → (client_addr p t peer head).forwarded ≡ some ip
      → (is_trusted t peer.ip ≡ true)
        × (headers : List (Str × Bytes)) × (p.parse_headers max_headers head ≡ some headers)
        × IsSelected (forwarded_entries p t headers) (some ip)
  unfolding client_addr forwarded_client
  client_addr-forwarded peer head ip e = elim (Bool-cases (is_trusted t peer.ip)) [
    | inr foreign ↦ absurd (ground arith)
    | inl trusted ↦
        let chosen : forwarded_client p t head ≡ some ip = ground arith in
        through (p.parse_headers max_headers head) _ chosen λ headers parsed selected. (
          trusted,
          headers,
          parsed,
          subst (λ o. IsSelected (forwarded_entries p t headers) o) selected
              (select_client-IsSelected (forwarded_entries p t headers)),
        )
  ]
