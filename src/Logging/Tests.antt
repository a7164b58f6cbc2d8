-- ===== src/Logging/Tests.antt =====
-- Runs of src/logging.rs, and the theorems there.
use ws2tcp_router.Prelude.{◌≡◌, refl, arith, Bool, ◌∷◌, ◌++◌, true, false, some, ok, err}
use ws2tcp_router.Text.{Str, codes, strip_prefix}
use ws2tcp_router.Args.{Args}
use ws2tcp_router.Auth.Toy.{args}
use ws2tcp_router.Logging.{
  open_log_writer, init_logging, Subscriber, file, no_directory, warn, Event, format_event,
  default_filter,
}
use ws2tcp_router.Logging.Toy.{logs}
use ws2tcp_router.Logging.Lines.{shown, Shows, shown-format_event}

abbrev to_file : Args
to_file = record args { log_file = some (codes "log/x") }

abbrev filed : Subscriber Str
filed = record {
  filter = default_filter;
  with_time = false;
  writer = file (codes "log/x");
  ansi = some false;
}

setup_run : init_logging logs to_file ≡ ok filed
unfolding init_logging open_log_writer
setup_run = refl

failing_run :
    init_logging (record logs { create_dir_all = λ dir. false }) to_file
    ≡ err (no_directory (codes "log"))
unfolding init_logging open_log_writer
failing_run = refl

-- With colours, the name of a field is in italics, and the sign behind it is dim.
abbrev fields : Bool → Str
fields true =
    0x1b ∷ codes "[3mUA" ++ 0x1b ∷ codes "[0m" ++ 0x1b ∷ codes "[2m=" ++ 0x1b ∷ codes "[0mx"
fields false = codes "UA=x"

fields-Shows : Shows (fields true) (fields false)
unfolding shown
fields-Shows = record { in_front = λ t. refl }

abbrev rejected : Event
rejected = record {
  level = warn;
  target = codes "ws2tcp_router::proxy";
  fields = fields;
  time = codes "12:00";
}

line_run : format_event true false rejected ≡ codes "12:00  WARN proxy: UA=x\n"
unfolding format_event strip_prefix
line_run = refl

shown-format_event_example :
    shown false (format_event true true rejected) ≡ format_event true false rejected
shown-format_event_example =
    shown-format_event true rejected (ground arith) (ground arith) fields-Shows
