-- ===== src/Logging.antt =====
-- src/logging.rs: what is logged and where to (`init_logging`, `open_log_writer`), and how a line
-- of the log is written (`format_event`). What the crates `tracing` and the file system do is the
-- record LogHost; a filter of the crate is any type `F`.
pub mod Lines
pub mod Setup
pub mod Toy
mod Tests
use ws2tcp_router.Prelude.{
  ℕ, ◌-◌, ◌+◌, Bool, true, false, not, Option, none, some, List, [], ◌∷◌, ◌++◌, Result, ok, err,
  ◌>>=◌, ok_or, bail_if, unwrap_or, is_some, length, if◌then◌else◌, zero, suc,
}
use ws2tcp_router.Text.{Str, codes, is_empty, strip_prefix}
use ws2tcp_router.Args.{Args, FilePath}

-- `EnvFilter::try_new` and `try_from_default_env`, the filter of a text that is known to be one,
-- `env::var_os`, `Path::parent`, `create_dir_all`, and opening a file to append to it.
pub record LogHost (F : Type 0) : Type 0 where
  pub try_new : Str → Option F
  pub try_from_default_env : Option F
  pub filter_of : Str → F
  pub var_os : Str → Option Str
  pub parent : FilePath → Option FilePath
  pub create_dir_all : FilePath → Bool
  pub append : FilePath → Bool

pub data LogError : Type 0 where
  bad_filter : Str → LogError
  no_directory no_file : FilePath → LogError

pub data Writer : Type 0 where
  stderr : Writer
  file : FilePath → Writer

-- What is set up. The colours of `stderr` are the crate's choice, `none`.
pub record Subscriber (F : Type 0) : Type 0 where
  pub filter : F
  pub with_time : Bool
  pub writer : Writer
  pub ansi : Option Bool

abbrev pub default_filter : Str
default_filter = codes "ws2tcp_router=info"

module _ {F : Type 0} (x : LogHost F) where
  -- `parent().filter(|parent| !parent.as_os_str().is_empty())`
  abbrev pub directory_of : FilePath → Option FilePath
  directory_of path = elim (x.parent path) [
    | none ↦ none
    | some dir ↦ if is_empty dir then none else some dir
  ]

  abbrev make_directory : Option FilePath → Result LogError (Unit {0})
  make_directory none = ok tt
  make_directory (some dir) = bail_if (not (x.create_dir_all dir)) (no_directory dir) (ok tt)

  unfoldable pub open_log_writer : FilePath → Result LogError Writer
  open_log_writer path = make_directory (directory_of path) >>= λ _.
      bail_if (not (x.append path)) (no_file path) (ok (file path))

  abbrev filter_for : Option Str → Result LogError F
  filter_for (some level) = ok_or (x.try_new level) (bad_filter level)
  filter_for none = ok (unwrap_or x.try_from_default_env (x.filter_of default_filter))

  abbrev subscribe : F → Option FilePath → Result LogError (Subscriber F)
  subscribe filter (some path) = open_log_writer path >>= λ writer. ok (record {
    filter = filter;
    with_time = not (is_some (x.var_os (codes "JOURNAL_STREAM")));
    writer = writer;
    ansi = some false;
  })
  subscribe filter none = ok (record {
    filter = filter;
    with_time = not (is_some (x.var_os (codes "JOURNAL_STREAM")));
    writer = stderr;
    ansi = none;
  })

  unfoldable pub init_logging : Args → Result LogError (Subscriber F)
  unfolding open_log_writer
  init_logging args = filter_for args.log_level >>= λ filter. subscribe filter args.log_file

pub data Level : Type 0 where
  error warn info debug trace : Level

abbrev pub level_name : Level → Str
level_name error = codes "ERROR"
level_name warn = codes "WARN"
level_name info = codes "INFO"
level_name debug = codes "DEBUG"
level_name trace = codes "TRACE"

-- The escape character, then the code of a colour.
abbrev pub color : Level → Str
color error = 0x1b ∷ codes "[31m"
color warn = 0x1b ∷ codes "[33m"
color info = 0x1b ∷ codes "[32m"
color debug = 0x1b ∷ codes "[34m"
color trace = 0x1b ∷ codes "[35m"

abbrev dim : Str
dim = 0x1b ∷ codes "[2m"

abbrev reset : Str
reset = 0x1b ∷ codes "[0m"

abbrev pub crate_prefix : Str
crate_prefix = codes "ws2tcp_router::"

abbrev pub paint : Bool → Str → Str × Str
paint true code = (code, reset)
paint false code = ([], [])

-- `{:>5}`
abbrev spaces : ℕ → Str
spaces zero = []
spaces (suc n) = b' ' ∷ spaces n

abbrev pub pad : Str → Str
pad s = spaces (5 - length s) ++ s

-- What an event has: the level and target of its metadata; its fields as the crate prints them to
-- a writer with colours or without, which is `format_fields`; and the time at which it is printed.
pub record Event : Type 0 where
  pub level : Level
  pub target : Str
  pub fields : Bool → Str
  pub time : Str

abbrev timed : Bool → Str → Str
timed true time = time ++ codes " "
timed false time = []

-- `strip_prefix(CRATE_PREFIX).unwrap_or(target)`
abbrev pub short_target : Str → Str
short_target target = unwrap_or (strip_prefix crate_prefix target) target

-- `format_event`, where `ansi` is `has_ansi_escapes`
unfoldable pub format_event : Bool → Bool → Event → Str
format_event with_time ansi e =
    let (on, off) = paint ansi (color e.level) in
    let (dim_on, dim_off) = paint ansi dim in
    timed with_time e.time
    ++ (on ++ pad (level_name e.level) ++ off ++ codes " ")
    ++ (dim_on ++ short_target e.target ++ codes ":" ++ dim_off ++ codes " ")
    ++ e.fields ansi
    ++ codes "\n"
