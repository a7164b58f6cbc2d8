-- ===== src/Listener.antt =====
-- src/listener.rs: the address that a listener is bound to, and its socket. What the standard
-- library, `tokio` and `socket2` do is the record Sockets.
use ws2tcp_router.Prelude.{
  ℕ, ◌≡◌, refl, arith, Bool, true, false, not, Option, none, some, List, [], ◌∷◌, Result, ok, err,
  ◌>>=◌, ok_or, bail_if, if◌then◌else◌,
}
use ws2tcp_router.Text.{Str}
use ws2tcp_router.ClientAddr.{IpAddr, v4, v6, is_ipv4, SocketAddr}

-- Whether the operations work, and the addresses of a host and port, `none` for an error.
pub record Sockets : Type 0 where
  pub to_socket_addrs : Str → ℕ → Option (List SocketAddr)
  pub bind_tcp : SocketAddr → Bool
  pub new_ipv6 : Bool
  pub set_only_v6 : Bool → Bool
  pub bind : SocketAddr → Bool
  pub listen : ℕ → Bool
  pub set_nonblocking : Bool → Bool
  pub from_std : Bool

pub data ListenError : Type 0 where
  not_resolved no_address ipv6_only_of_ipv4 not_bound no_socket not_only_v6 not_listening :
      ListenError
  not_nonblocking no_listener : ListenError

-- A listener: its address, and for IPv6 whether it leaves IPv4 connections out.
pub record TcpListener : Type 0 where
  pub addr : SocketAddr
  pub only_v6 : Option Bool

-- `next()`, then `ok_or_else`
abbrev first_addr : List SocketAddr → Result ListenError SocketAddr
first_addr [] = err no_address
first_addr (a ∷ rest) = ok a

abbrev pub backlog : ℕ
backlog = 1024

-- `if !works { return Err(…) }`
abbrev check : {A : Type 0} → Bool → ListenError → Result ListenError A → Result ListenError A
check works e rest = bail_if (not works) e rest

module _ (x : Sockets) where
  unfoldable pub resolve_bind_addr : Str → ℕ → Result ListenError SocketAddr
  resolve_bind_addr host port = ok_or (x.to_socket_addrs host port) not_resolved >>= first_addr

  abbrev bind_ip : IpAddr → SocketAddr → Bool → Result ListenError TcpListener
  bind_ip (v4 n) bind_addr ipv6_only =
      bail_if ipv6_only ipv6_only_of_ipv4
        (check (x.bind_tcp bind_addr) not_bound (ok (record { addr = bind_addr; only_v6 = none })))
  bind_ip (v6 n) bind_addr ipv6_only = check x.new_ipv6 no_socket (
      check (x.set_only_v6 ipv6_only) not_only_v6 (
        check (x.bind bind_addr) not_bound (
          check (x.listen backlog) not_listening (
            check (x.set_nonblocking true) not_nonblocking (
              check x.from_std no_listener
                (ok (record { addr = bind_addr; only_v6 = some ipv6_only })))))))

  unfoldable pub bind_listener : SocketAddr → Bool → Result ListenError TcpListener
  bind_listener bind_addr ipv6_only = bind_ip bind_addr.ip bind_addr ipv6_only

  check-ok :
      {A : Type 0} (works : Bool) (e : ListenError) (rest : Result ListenError A) {a : A}
      → check works e rest ≡ ok a
      → rest ≡ ok a
  check-ok true e rest h = h
  check-ok false e rest h = absurd (cc)

  -- The address is the one asked for; `--ipv6-only` is honoured: never an IPv4 listener, and an
  -- IPv6 listener takes IPv4 connections or not as it says.
  pub record IsBound (bind_addr : SocketAddr) (ipv6_only : Bool) (l : TcpListener) : Type 0 where
    pub addr : l.addr ≡ bind_addr
    pub only_v6 : l.only_v6 ≡ (if is_ipv4 bind_addr.ip then none else some ipv6_only)
    pub no_ipv4 : ipv6_only ≡ true → is_ipv4 bind_addr.ip ≡ false

  bind_ip-IsBound :
      (ip : IpAddr) (bind_addr : SocketAddr) (ipv6_only : Bool) (l : TcpListener)
      → bind_addr.ip ≡ ip
      → bind_ip ip bind_addr ipv6_only ≡ ok l
      → IsBound bind_addr ipv6_only l
  bind_ip-IsBound (v4 n) bind_addr true l e h = absurd (cc)
  bind_ip-IsBound (v4 n) bind_addr false l e h =
      let made = check-ok (x.bind_tcp bind_addr) not_bound _ h in
      let same : record { addr = bind_addr; only_v6 = none } ≡ l = ground arith in
      rw (← same) (record { addr = refl; only_v6 = rw e refl; no_ipv4 = λ q. absurd (cc) })
  bind_ip-IsBound (v6 n) bind_addr ipv6_only l e h =
      let h1 = check-ok x.new_ipv6 no_socket _ h in
      let h2 = check-ok (x.set_only_v6 ipv6_only) not_only_v6 _ h1 in
      let h3 = check-ok (x.bind bind_addr) not_bound _ h2 in
      let h4 = check-ok (x.listen backlog) not_listening _ h3 in
      let h5 = check-ok (x.set_nonblocking true) not_nonblocking _ h4 in
      let h6 = check-ok x.from_std no_listener _ h5 in
      let same : record { addr = bind_addr; only_v6 = some ipv6_only } ≡ l = ground arith in
      rw (← same) (record { addr = refl; only_v6 = rw e refl; no_ipv4 = λ q. rw e refl })

  pub bind_listener-IsBound :
      (bind_addr : SocketAddr) (ipv6_only : Bool) (l : TcpListener)
      → bind_listener bind_addr ipv6_only ≡ ok l
      → IsBound bind_addr ipv6_only l
  unfolding bind_listener
  bind_listener-IsBound bind_addr ipv6_only l h =
      bind_ip-IsBound bind_addr.ip bind_addr ipv6_only l refl h

  -- The first address of a host and port.
  pub resolve_bind_addr-first :
      (host : Str) (port : ℕ) (a : SocketAddr)
      → resolve_bind_addr host port ≡ ok a
      → (rest : List SocketAddr) × (x.to_socket_addrs host port ≡ some (a ∷ rest))
  unfolding resolve_bind_addr
  resolve_bind_addr-first host port a h = go (x.to_socket_addrs host port) refl h
    where
      go :
          (o : Option (List SocketAddr))
          → x.to_socket_addrs host port ≡ o
          → (ok_or o not_resolved >>= first_addr) ≡ ok a
          → (rest : List SocketAddr) × (x.to_socket_addrs host port ≡ some (a ∷ rest))
      go none e h = absurd (cc)
      go (some []) e h = absurd (cc)
      go (some (b ∷ rest)) e h = let same : b ≡ a = ground arith in (rest, rw (← same) e)
