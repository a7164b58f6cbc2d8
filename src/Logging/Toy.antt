-- ===== src/Logging/Toy.antt =====
-- A concrete host of the logging, which the runs compute with: a filter is its text.
use ws2tcp_router.Prelude.{none, some, true}
use ws2tcp_router.Text.{Str, codes}
use ws2tcp_router.Logging.{LogHost}

abbrev pub logs : LogHost Str
logs = record {
  try_new = λ level. some level;
  try_from_default_env = none;
  filter_of = λ level. level;
  var_os = λ name. some (codes "1");
  parent = λ path. some (codes "log");
  create_dir_all = λ dir. true;
  append = λ path. true;
}
