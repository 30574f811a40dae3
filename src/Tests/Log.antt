-- ===== src/Tests/Log.antt =====
-- A logger whose file cannot be opened, and one whose file can, for internal/logger/logger.go.
use aerosmart_gateway.Base.{
  eq_bytes, ℕ, ◌≡◌, refl, ◌++◌, inr, true, false, Option, none, some, List, [], ◌∷◌, Bytes, codes,
}
use aerosmart_gateway.Base.Int.{int64, half, ◌*ℤ◌}
use aerosmart_gateway.Config.App
use aerosmart_gateway.Config.App.Valid
use aerosmart_gateway.Config.App.Valid.{validate, problems}
use aerosmart_gateway.Config.App.{apply_defaults, AppConfig}
use aerosmart_gateway.Log.{
  warn, LogConfig, Output, new_with_config, with_file, level_of, emit, write_line, line_of, close,
}
use aerosmart_gateway.Log.Heard.{log_config, IsLogged, IsHeard, new_with_config-IsHeard}
use aerosmart_gateway.Log.Closed.{IsClosed, close-IsClosed}
use aerosmart_gateway.Tests.Config.{minimal}

record Disk : Type 0 where
  console : List Bytes
  written : List (ℕ × Bytes)
  opens : Option ℕ

abbrev disk : Output Disk
disk = record {
  print = λ s w. record w { console = w.console ++ s ∷ [] };
  open_file = λ name w. (w, w.opens);
  append = λ f s w. record w { written = w.written ++ (f, s) ∷ [] };
  close_file = λ f w. (w, none);
  stamp = λ w. codes "2024-01-01 00:00:00";
}

disk-IsLogged : IsLogged disk (λ (w : Disk). w.console) (λ (w : Disk). w.written)
disk-IsLogged = record {
  print_console = λ s w. refl;
  print_written = λ s w. refl;
  append_console = λ f s w. refl;
  append_written = λ f s w. refl;
}

abbrev locked : Disk
locked = record { console = []; written = []; opens = none }

abbrev writable : Disk
writable = record { console = []; written = []; opens = some 3 }

-- A configuration that logs to a file and not to the console
abbrev only_file : AppConfig
only_file = record minimal {
  logging = record {
    log_file = codes "/log";
    file_logging = true;
    console_logging_set = some false;
    console_logging = false;
  };
}

only_file_run : validate (apply_defaults only_file) ≡ none
unfolding validate problems Valid.late_problems Valid.check_durations Valid.is_parity App.complain
    apply_defaults eq_bytes int64 half ◌*ℤ◌
only_file_run = refl

abbrev to_file : LogConfig
to_file = record {
  level = codes "info";
  log_file = codes "/log";
  file_logging = true;
  console_logging = false;
}

-- Its file cannot be opened, and a warning goes to the console.
falls_back :
    (emit disk warn
      (codes "WARNING: ")
      (codes "x")
      (new_with_config disk to_file locked).0
      locked).console
    ≡ codes "[2024-01-01 00:00:00] WARNING: x" ∷ []
unfolding new_with_config with_file level_of emit write_line line_of eq_bytes
falls_back = refl

to_the_file :
    (emit disk warn
      (codes "WARNING: ")
      (codes "x")
      (new_with_config disk to_file writable).0
      writable).written
    ≡ (3, codes "[2024-01-01 00:00:00] WARNING: x") ∷ []
unfolding new_with_config with_file level_of emit write_line line_of eq_bytes
to_the_file = refl

new_with_config-IsHeard_example :
    IsHeard disk
      (λ (w : Disk). w.console)
      (λ (w : Disk). w.written)
      (new_with_config disk (log_config (apply_defaults only_file)) locked).0
      warn
      (codes "WARNING: ")
      (codes "x")
      locked
new_with_config-IsHeard_example =
    new_with_config-IsHeard disk (λ (w : Disk). w.console) (λ (w : Disk). w.written) only_file
      locked warn (codes "WARNING: ") (codes "x") locked disk-IsLogged only_file_run

close-IsClosed_example :
    IsClosed disk
      (λ (w : Disk). w.written)
      (close disk (new_with_config disk to_file writable).0 writable).0
      warn
      (codes "WARNING: ")
      (codes "x")
      writable
close-IsClosed_example =
    close-IsClosed disk (λ (w : Disk). w.console) (λ (w : Disk). w.written) to_file writable
      writable warn (codes "WARNING: ") (codes "x") writable disk-IsLogged (inr (refl, refl))
