-- ===== src/Logging/Setup.antt =====
-- What src/logging.rs sets up, when it does.
use ws2tcp_router.Prelude.{
  ◌≡◌, ◌⊎◌, ◌∙◌, refl, sym, arith, Bool, true, false, not, Bool-cases, Option, none, some, Result,
  ok, >>=-eq-ok, ok_or, unwrap_or, is_some, inl, inr,
}
use ws2tcp_router.Text.{Str, codes}
use ws2tcp_router.Args.{Args, FilePath}
use ws2tcp_router.Logging.{
  LogHost, LogError, bad_filter, Writer, stderr, file, Subscriber, default_filter, directory_of,
  make_directory, open_log_writer, filter_for, subscribe, init_logging,
}

module _ {F : Type 0} (x : LogHost F) where
  -- The filter of the setting, which must be one; without it, that of the environment, and without
  -- this the default.
  abbrev pub HasFilter : Option Str → F → Type 0
  HasFilter (some level) filter = x.try_new level ≡ some filter
  HasFilter none filter =
      (x.try_from_default_env ≡ some filter)
      ⊎ ((x.try_from_default_env ≡ none) × (filter ≡ x.filter_of default_filter))

  -- Without colours to the file, whose directory is there and which could be opened; or to the
  -- standard error.
  abbrev pub HasWriter : Option FilePath → Writer → Option Bool → Type 0
  HasWriter none writer ansi = (writer ≡ stderr) × (ansi ≡ none)
  HasWriter (some path) writer ansi =
      (writer ≡ file path)
      × (ansi ≡ some false)
      × (x.append path ≡ true)
      × ((dir : FilePath) → directory_of x path ≡ some dir → x.create_dir_all dir ≡ true)

  pub record IsSetUp (args : Args) (s : Subscriber F) : Type 0 where
    pub filter : HasFilter args.log_level s.filter
    pub writer : HasWriter args.log_file s.writer s.ansi
    pub with_time : s.with_time ≡ not (is_some (x.var_os (codes "JOURNAL_STREAM")))

  ok_or-ok : {A : Type 0} (o : Option A) (e : LogError) {a : A} → ok_or o e ≡ ok a → o ≡ some a
  ok_or-ok none e h = absurd (cc)
  ok_or-ok (some a) e h = ground arith

  filter_for-HasFilter :
      (level : Option Str) (filter : F) → filter_for x level ≡ ok filter → HasFilter level filter
  filter_for-HasFilter (some level) filter h = ok_or-ok (x.try_new level) (bad_filter level) h
  filter_for-HasFilter none filter h = of_env x.try_from_default_env refl h
    where
      of_env :
          (o : Option F)
          → x.try_from_default_env ≡ o
          → ◌≡◌ {A = Result LogError F} (ok (unwrap_or o (x.filter_of default_filter))) (ok filter)
          → HasFilter none filter
      of_env none e q = inr (e, ground arith)
      of_env (some f) e q = let same : f ≡ filter = ground arith in inl (rw (← same) e)

  make_directory-ok :
      (dir : Option FilePath)
      → make_directory x dir ≡ ok tt
      → (d : FilePath) → dir ≡ some d
      → x.create_dir_all d ≡ true
  make_directory-ok none h d e = absurd (cc)
  make_directory-ok (some dir) h d e =
      let same : dir ≡ d = ground arith in
      elim (Bool-cases (x.create_dir_all dir)) [
        | inl works ↦ rw (← same) works
        | inr fails ↦ absurd (let q = rw fails at h in cc)
      ]

  open_log_writer-ok :
      (path : FilePath) (writer : Writer)
      → open_log_writer x path ≡ ok writer
      → (writer ≡ file path)
        × (x.append path ≡ true)
        × ((dir : FilePath) → directory_of x path ≡ some dir → x.create_dir_all dir ≡ true)
  unfolding open_log_writer
  open_log_writer-ok path writer h =
      let (done, made, h1) = >>=-eq-ok (make_directory x (directory_of x path)) _ h in
      elim (Bool-cases (x.append path)) [
        | inr fails ↦ absurd (let q = rw fails at h1 in cc)
        | inl works ↦
            let q = rw works at h1 in
            let same : file path ≡ writer = ground arith in
            (sym same, works, make_directory-ok (directory_of x path) made)
      ]

  subscribe-writer :
      (filter : F) (path : Option FilePath) (s : Subscriber F)
      → subscribe x filter path ≡ ok s
      → (s.filter ≡ filter)
        × HasWriter path s.writer s.ansi
        × (s.with_time ≡ not (is_some (x.var_os (codes "JOURNAL_STREAM"))))
  subscribe-writer filter none s h = (ground arith, (ground arith, ground arith), ground arith)
  subscribe-writer filter (some path) s h =
      let (writer, opened, h1) = >>=-eq-ok (open_log_writer x path) _ h in
      let (named, appends, directory) = open_log_writer-ok path writer opened in
      let same : writer ≡ s.writer = ground arith in
      (ground arith, (sym same ∙ named, ground arith, appends, directory), ground arith)

  -- When the logging is set up, it is as the settings say: with the filter of `--log-level`, which
  -- is one, or else that of the environment, or else `ws2tcp_router=info`; without colours to the
  -- log file, behind an existing directory, or to the standard error; and with the time unless
  -- `JOURNAL_STREAM` is set.
  pub init_logging-IsSetUp :
      (args : Args) (s : Subscriber F) → init_logging x args ≡ ok s → IsSetUp args s
  unfolding init_logging
  init_logging-IsSetUp args s h =
      let (filter, found, h1) = >>=-eq-ok (filter_for x args.log_level) _ h in
      let (same, writer, with_time) = subscribe-writer filter args.log_file s h1 in
      record {
        filter = rw same (filter_for-HasFilter args.log_level filter found);
        writer = writer;
        with_time = with_time;
      }
