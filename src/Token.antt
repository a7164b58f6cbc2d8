-- ===== src/Token.antt =====
-- src/token.rs: the data of the token service and its constants. The store's operations are in
-- Token/Store.antt, access tokens in Token/Access.antt, login, refresh and logout in
-- Token/Service.antt. An `Instant` is a count of nanoseconds, and so is a `Duration`.
pub mod Store
pub mod Access
pub mod Service
pub mod Histories
pub mod Rotation
pub mod Issuing
pub mod Revocation
mod Tests
use ws2tcp_router.Prelude.{ℕ, ◌*◌, ◌/◌, Option}
use ws2tcp_router.Text.{Str, Bytes}
use ws2tcp_router.HashMap.{HashMap}

abbrev pub nanos : ℕ
nanos = 1_000_000_000

-- `Duration::from_secs` and `Duration::as_secs`
abbrev pub from_secs : ℕ → ℕ
from_secs s = s * nanos

abbrev pub as_secs : ℕ → ℕ
as_secs d = d / nanos

abbrev pub token_bytes : ℕ
token_bytes = 32

abbrev pub min_secret_bytes : ℕ
min_secret_bytes = 32

abbrev pub access_token_version : ℕ
access_token_version = 1

abbrev pub max_family_lifetime : ℕ
max_family_lifetime = from_secs (30 * 24 * 60 * 60)

abbrev pub max_records : ℕ
max_records = 100_000

abbrev pub sweep_interval : ℕ
sweep_interval = from_secs 60

pub record IssuedTokens : Type 0 where
  pub access_token : Str
  pub access_expires_in : ℕ
  pub refresh_token : Str
  pub refresh_expires_in : ℕ

pub data TokenError : Type 0 where
  invalid : TokenError
  reused : Str → TokenError
  full random : TokenError

abbrev pub Hash : Type 0
Hash = Bytes

pub record RefreshRecord : Type 0 where
  pub family : ℕ
  pub user : Str
  pub expires : ℕ
  pub family_deadline : ℕ

pub record SpentRecord : Type 0 where
  pub family : ℕ
  pub user : Str
  pub expires : ℕ

pub record State : Type 0 where
  pub refresh : HashMap Hash RefreshRecord
  pub spent : HashMap Hash SpentRecord
  pub revoked : HashMap ℕ ℕ
  pub next_sweep : ℕ

pub record TokenService : Type 0 where
  pub key : Bytes
  pub access_ttl : ℕ
  pub refresh_ttl : ℕ
  pub state : State

-- What an operation reads of the clocks and of the system's random number generator while it
-- runs: `Instant::now()`, `unix_now()` in seconds, and the bytes of a refresh token and of a
-- family, `none` where the generator fails.
pub record World : Type 0 where
  pub now : ℕ
  pub unix_now : ℕ
  pub token_draw : Option Bytes
  pub family_draw : Option Bytes
