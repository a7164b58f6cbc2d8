-- ===== src/Auth/Polling.antt =====
-- The tasks of src/auth.rs that reload the files: `spawn_auth_file_reloader` and the turns of
-- `poll_file_reload`, which logs a failure once and not again while it stays the same.
use ws2tcp_router.Prelude.{
  ◌≡◌, refl, ap, Bool, true, false, Bool-cases, Option, none, some, List, [], ◌∷◌, ◌++◌, Result, ok,
  err, inl, inr, str_eq, str_eq_iff, if◌then◌else◌,
}
use ws2tcp_router.Text.{Str}
use ws2tcp_router.Crypto.{Crypto}
use ws2tcp_router.Auth.{AuthConfig, AuthError, reload_auth_file, reload_anonymous_target_file}

-- A task that polls a file.
pub data Reloader : Type 0 where
  basic_auth anonymous_target : Reloader

-- `spawn_auth_file_reloader`: one task for each file that is configured
abbrev task : Reloader → Option Str → List (Reloader × Str)
task kind none = []
task kind (some path) = (kind, path) ∷ []

unfoldable pub spawn_auth_file_reloader : AuthConfig → List (Reloader × Str)
spawn_auth_file_reloader auth =
    task basic_auth auth.basic_auth_file ++ task anonymous_target auth.anonymous_target_file

-- the closure that a task calls, where `read_to_string` is the file system
unfoldable pub reload_with :
    Crypto → (Str → Option Str) → Reloader × Str → AuthConfig → Result AuthError Bool × AuthConfig
reload_with c read_to_string (basic_auth, path) auth = reload_auth_file c auth (read_to_string path)
reload_with c read_to_string (anonymous_target, path) auth =
    reload_anonymous_target_file c auth (read_to_string path)

-- A line of the log.
pub data Line : Type 0 where
  reloaded : Line
  failed_to_reload : Str → Line

-- `last_error.as_deref() == Some(error.as_str())`
abbrev is_last : Str → Option Str → Bool
is_last error none = false
is_last error (some last) = str_eq last error

-- One turn of the loop: `last_error` afterwards, and what is logged. An error is its text.
unfoldable pub poll_turn : Option Str → Result Str Bool → Option Str × List Line
poll_turn last (ok true) = (none, reloaded ∷ [])
poll_turn last (ok false) = (none, [])
poll_turn last (err error) =
    if is_last error last then (last, []) else (some error, failed_to_reload error ∷ [])

-- The turns of the loop, with what the reloads return.
unfoldable pub poll_file_reload : Option Str → List (Result Str Bool) → List Line
unfolding poll_turn
poll_file_reload last [] = []
poll_file_reload last (r ∷ rs) =
    let (last', lines) = poll_turn last r in lines ++ poll_file_reload last' rs

-- What is to be logged of a result, by the result in front of it.
abbrev pub due : Option (Result Str Bool) → Result Str Bool → List Line
due before (ok true) = reloaded ∷ []
due before (ok false) = []
due (some (err last)) (err error) = if str_eq last error then [] else failed_to_reload error ∷ []
due _ (err error) = failed_to_reload error ∷ []

abbrev pub due_all : Option (Result Str Bool) → List (Result Str Bool) → List Line
due_all before [] = []
due_all before (r ∷ rs) = due before r ++ due_all (some r) rs

-- the error of a result
abbrev pub error_of : Option (Result Str Bool) → Option Str
error_of (some (err error)) = some error
error_of _ = none

turn_lem :
    (before : Option (Result Str Bool)) (r : Result Str Bool)
    → poll_turn (error_of before) r ≡ (error_of (some r), due before r)
unfolding poll_turn
turn_lem before (ok true) = refl
turn_lem before (ok false) = refl
turn_lem none (err error) = refl
turn_lem (some (ok changed)) (err error) = refl
turn_lem (some (err last)) (err error) = elim (Bool-cases (str_eq last error)) [
  | inl same ↦
      let test = str_eq_iff last error in
      let equal : last ≡ error = test.0 same in rw (poll_turn, same) (cc equal)
  | inr differs ↦ rw (poll_turn, differs) refl
]

poll-due :
    (before : Option (Result Str Bool)) (rs : List (Result Str Bool))
    → poll_file_reload (error_of before) rs ≡ due_all before rs
unfolding poll_file_reload
poll-due before [] = refl
poll-due before (r ∷ rs) =
    rw (turn_lem before r) (ap (λ l. due before r ++ l) (poll-due (some r) rs))

-- The log of the reloads of a file says of each result what its predecessor makes due: a change is
-- reported each time, no change never, and a failure unless the reload in front of it failed with
-- the same text.
pub poll_file_reload-due_all :
    (rs : List (Result Str Bool)) → poll_file_reload none rs ≡ due_all none rs
poll_file_reload-due_all rs = poll-due none rs
