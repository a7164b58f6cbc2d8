-- ===== src/Main/Accepting.antt =====
-- The loops of src/main.rs that accept connections, and the streams behind TLS.
use ws2tcp_router.Prelude.{◌≡◌, refl, ap, Bool, true, false, List, [], ◌∷◌, ◌++◌, map}
use ws2tcp_router.ClientAddr.{SocketAddr}
use ws2tcp_router.Main.{Accept, accepts, accept_failed, serve_listener}

abbrev pub as_accept : {T : Type 0} → T × SocketAddr → Accept T
as_accept (stream, peer) = accepts stream peer

-- What the loop hands on are the first streams that were accepted; it goes on as long as all were
-- accepted, and else ends behind them.
abbrev pub IsHandedOn : {T : Type 0} → List (Accept T) → List (T × SocketAddr) → Bool → Type 0
IsHandedOn {T} events spawned false = events ≡ map as_accept spawned
IsHandedOn {T} events spawned true =
    (rest : List (Accept T)) × (events ≡ map as_accept spawned ++ accept_failed ∷ rest)

IsHandedOn-cons :
    {T : Type 0} (stream : T) (peer : SocketAddr) (events : List (Accept T))
    (spawned : List (T × SocketAddr)) (ended : Bool)
    → IsHandedOn events spawned ended
    → IsHandedOn (accepts stream peer ∷ events) ((stream, peer) ∷ spawned) ended
IsHandedOn-cons stream peer events spawned false h = ap (λ l. accepts stream peer ∷ l) h
IsHandedOn-cons stream peer events spawned true (rest, h) =
    (rest, ap (λ l. accepts stream peer ∷ l) h)

-- A listener hands every stream that it accepts to a task of its own, each once and in order,
-- whatever becomes of the streams before, until an `accept` fails for the first time: this ends it
-- for good, and it hands on no later stream.
pub serve_listener-IsHandedOn :
    {T : Type 0} (events : List (Accept T))
    → IsHandedOn events (serve_listener events).0 (serve_listener events).1
unfolding serve_listener
serve_listener-IsHandedOn [] = refl
serve_listener-IsHandedOn (accept_failed ∷ rest) = (rest, refl)
serve_listener-IsHandedOn (accepts stream peer ∷ rest) =
    IsHandedOn-cons stream peer rest _ _ (serve_listener-IsHandedOn rest)
