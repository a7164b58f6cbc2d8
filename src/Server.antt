-- ===== src/Server.antt =====
-- The program while it runs: its connections (`handle_accepted_stream` of src/main.rs, with
-- `handle_connection` of src/proxy.rs) and the reloads of its files (`poll_file_reload` of
-- src/auth.rs) share one configuration, behind an `Arc`. The runtime has one thread
-- (`flavor = "current_thread"` in src/main.rs), and nothing waits while the configuration is in
-- use, so each of them uses it at one instant, and a run is a sequence.
pub mod Connections
pub mod Calls
pub mod Running
pub mod Logout
pub mod Removal
mod Tests
use ws2tcp_router.Prelude.{ℕ, ◌≤◌, Bool, true, false, filter, Option, none, some, List, [], ◌∷◌}
use ws2tcp_router.Text.{Str}
use ws2tcp_router.Crypto.{Crypto}
use ws2tcp_router.Token.{World}
use ws2tcp_router.ClientAddr.{SocketAddr, TrustedProxies}
use ws2tcp_router.Auth.{AuthConfig}
use ws2tcp_router.Auth.Polling.{
  Reloader, basic_auth, anonymous_target, spawn_auth_file_reloader, reload_with,
}
use ws2tcp_router.Main.{Streams, handle_accepted_stream}

-- A connection from a peer over a stream of TCP, which is one of TLS where the listener has a
-- configuration of it, with what the clocks and the generator give when it
-- uses the configuration; or a turn of the task that reloads one kind of file, with the files at
-- that instant.
pub data Event (C T : Type 0) : Type 0 where
  connects : Option C → T → SocketAddr → World → Event C T
  polls : Reloader → (Str → Option Str) → Event C T

abbrev pub left :
    {A : Type 0} → Option AuthConfig → Option (A × Option AuthConfig) → Option AuthConfig
left before none = before
left before (some (ending, after)) = after

abbrev is_kind : Reloader → Reloader → Bool
is_kind basic_auth basic_auth = true
is_kind anonymous_target anonymous_target = true
is_kind _ _ = false

-- the task of a kind, if it was spawned
abbrev pub tasks_of : Reloader → AuthConfig → List (Reloader × Str)
tasks_of kind auth =
    filter (λ (t : Reloader × Str). is_kind kind t.0) (spawn_auth_file_reloader auth)

module _ (c : Crypto) where
  -- a turn of each of some tasks
  unfoldable pub poll_all : (Str → Option Str) → List (Reloader × Str) → AuthConfig → AuthConfig
  unfolding reload_with
  poll_all files [] auth = auth
  poll_all files (task ∷ tasks) auth = poll_all files tasks (reload_with c files task auth).1

  module _ {C T S : Type 0} (x : Streams C T S) (proxies : TrustedProxies) where
    unfoldable pub serve : Option AuthConfig → Event C T → Option AuthConfig
    unfolding poll_all handle_accepted_stream spawn_auth_file_reloader
    serve config (connects tls s peer w) =
        left config (handle_accepted_stream c x tls s peer proxies w config)
    serve none (polls kind files) = none
    serve (some auth) (polls kind files) = some (poll_all files (tasks_of kind auth) auth)

    unfoldable pub serve_all : Option AuthConfig → List (Event C T) → Option AuthConfig
    unfolding serve
    serve_all config [] = config
    serve_all config (e ∷ es) = serve_all (serve config e) es

-- Events from the instant `since` on, in the order of their instants, up to `end`.
abbrev pub Chronological : {C T : Type 0} → ℕ → ℕ → List (Event C T) → Type 0
Chronological since end [] = since ≤ end
Chronological since end (connects tls s peer w ∷ es) = (since ≤ w.now) × Chronological w.now end es
Chronological since end (polls kind files ∷ es) = Chronological since end es
