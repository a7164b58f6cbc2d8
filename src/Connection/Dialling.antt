-- ===== src/Connection/Dialling.antt =====
-- What goes out to the network for an upstream of src/proxy.rs (`connect_udp`, and the match on the
-- protocol in `handle_connection`).
use ws2tcp_router.Prelude.{
  ◌≡◌, refl, true, false, All, List, [], ◌∷◌, Bool-cases, Option, none, some, Result, ok, err, inl,
  inr,
}
use ws2tcp_router.Text.{Str}
use ws2tcp_router.Target.{Protocol, Target, tcp, udp, addr}
use ws2tcp_router.ClientAddr.{SocketAddr}
use ws2tcp_router.Proxy.Forwarding.{Write, Event, Outcome, Written}
use ws2tcp_router.Proxy.Forwarding.Steps.{Cuts}
use ws2tcp_router.Proxy.Forwarding.Laws.{IsCopied, IsForwarded}
use ws2tcp_router.Connection.{
  Ending, unreachable, forwarded, Network, Dial, connects_tcp, looks_up, connects_udp, connect_tcp,
  connect_first, local_bind_of, not_connected, not_resolved, no_address, not_bound, UpstreamError,
  nothing_written, connect_udp,
}

-- The upstream at the address `a` is connected: by TCP, or by UDP at the first address that the name
-- resolves to; and nothing else went out.
abbrev pub IsConnected : Network → Str → Protocol → List Dial → Type 0
IsConnected net a tcp dials = (net.connect_tcp a ≡ true) × (dials ≡ connects_tcp a ∷ [])
IsConnected net a udp dials =
    (to : SocketAddr) × (others : List SocketAddr) × (net.lookup_host a ≡ some (to ∷ others))
    × (net.bind_udp (local_bind_of to) ≡ true)
    × (net.connect (local_bind_of to) to ≡ true)
    × (dials ≡ looks_up a ∷ connects_udp to ∷ [])

-- The upstream at the address `a` cannot be connected, for the reason that the error says.
abbrev pub IsUnreachable : Network → Str → Protocol → List Dial → UpstreamError → Type 0
IsUnreachable net a tcp dials e =
    (e ≡ not_connected) × (net.connect_tcp a ≡ false) × (dials ≡ connects_tcp a ∷ [])
IsUnreachable net a udp dials not_resolved = (net.lookup_host a ≡ none) × (dials ≡ looks_up a ∷ [])
IsUnreachable net a udp dials no_address = (net.lookup_host a ≡ some []) × (dials ≡ looks_up a ∷ [])
IsUnreachable net a udp dials not_bound =
    (to : SocketAddr) × (others : List SocketAddr) × (net.lookup_host a ≡ some (to ∷ others))
    × (net.bind_udp (local_bind_of to) ≡ false)
    × (dials ≡ looks_up a ∷ [])
IsUnreachable net a udp dials not_connected =
    (to : SocketAddr) × (others : List SocketAddr) × (net.lookup_host a ≡ some (to ∷ others))
    × (net.connect (local_bind_of to) to ≡ false)
    × (dials ≡ looks_up a ∷ connects_udp to ∷ [])

module _ (net : Network) (a : Str) where
  abbrev pub IsDialled : {A : Type 0} → Protocol → List Dial → Result UpstreamError A → Type 0
  IsDialled p dials (ok socket) = IsConnected net a p dials
  IsDialled p dials (err e) = IsUnreachable net a p dials e

  pub connect_tcp-IsDialled : IsDialled tcp (connect_tcp net a).0 (connect_tcp net a).1
  connect_tcp-IsDialled = elim (Bool-cases (net.connect_tcp a)) [
    | inl works ↦ rw works (works, refl)
    | inr fails ↦ rw fails (refl, fails, refl)
  ]

  first-IsDialled :
      (to : SocketAddr) (others : List SocketAddr)
      → net.lookup_host a ≡ some (to ∷ others)
      → IsDialled udp
          (looks_up a ∷ (connect_first net (to ∷ others)).0)
          (connect_first net (to ∷ others)).1
  first-IsDialled to others e =
      let local = local_bind_of to in
      elim (Bool-cases (net.bind_udp local)) [
        | inr unbound ↦ rw unbound (to, others, e, unbound, refl)
        | inl bound ↦ elim (Bool-cases (net.connect local to)) [
          | inl works ↦ rw (bound, works) (to, others, e, bound, works, refl)
          | inr fails ↦ rw (bound, fails) (to, others, e, fails, refl)
        ]
      ]

  pub connect_udp-IsDialled : IsDialled udp (connect_udp net a).0 (connect_udp net a).1
  unfolding connect_udp
  connect_udp-IsDialled = go (net.lookup_host a) refl
    where
      go :
          (o : Option (List SocketAddr))
          → net.lookup_host a ≡ o
          → IsDialled udp (connect_udp net a).0 (connect_udp net a).1
      go none e = rw (connect_udp, e) (e, refl)
      go (some []) e = rw (connect_udp, e) (e, refl)
      go (some (to ∷ others)) e = rw (connect_udp, e) (first-IsDialled to others e)

-- The loop of a protocol copies what the events ask for.
abbrev pub Forwards : Protocol → List (Write × Event) → Outcome → Written → Type 0
Forwards tcp events o written = IsCopied Cuts events nothing_written o written
Forwards udp events o written = IsForwarded events nothing_written o written

-- what went out to the network
abbrev pub dialled : Ending → List Dial
dialled (unreachable user t dials e) = dials
dialled (forwarded user t dials written) = dials
dialled _ = []

module _ (net : Network) where
  -- It went out to the upstream's address: over TCP to it, over UDP to resolve it, and then to the
  -- first address that it resolves to.
  abbrev pub IsDialOf : Target → Dial → Type 0
  IsDialOf t (connects_tcp a) = (t.protocol ≡ tcp) × (a ≡ addr t)
  IsDialOf t (looks_up a) = (t.protocol ≡ udp) × (a ≡ addr t)
  IsDialOf t (connects_udp to) =
      (t.protocol ≡ udp)
      × (others : List SocketAddr) × (net.lookup_host (addr t) ≡ some (to ∷ others))

  pub connected-IsDialOf :
      (t : Target) (p : Protocol) (dials : List Dial)
      → t.protocol ≡ p
      → IsConnected net (addr t) p dials
      → All (IsDialOf t) dials
  connected-IsDialOf t tcp dials p (works, same) = rw same ((p, refl), tt)
  connected-IsDialOf t udp dials p (to, others, e, _, _, same) =
      rw same ((p, refl), ((p, others, e), tt))

  pub unreachable-IsDialOf :
      (t : Target) (p : Protocol) (dials : List Dial) (e : UpstreamError)
      → t.protocol ≡ p
      → IsUnreachable net (addr t) p dials e
      → All (IsDialOf t) dials
  unreachable-IsDialOf t tcp dials e p (_, _, same) = rw same ((p, refl), tt)
  unreachable-IsDialOf t udp dials not_resolved p (_, same) = rw same ((p, refl), tt)
  unreachable-IsDialOf t udp dials no_address p (_, same) = rw same ((p, refl), tt)
  unreachable-IsDialOf t udp dials not_bound p (to, others, e, _, same) = rw same ((p, refl), tt)
  unreachable-IsDialOf t udp dials not_connected p (to, others, e, _, same) =
      rw same ((p, refl), ((p, others, e), tt))
