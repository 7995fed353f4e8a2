-- ===== src/Cli/Tests.antt =====
-- Runs of daisyway/src/main.rs with a log that is a level and a `man` that is never there.
use daisyway.Base.{
  ℕ, ◌≡◌, refl, [], ◌∷◌, List, none, some, true, false, Result, ok, err, io, other_kind, is_panic,
}
use daisyway.Crypto.Key.{Bytes}
use daisyway.Util.Tests.{copying}
use daisyway.Osk.WireGuard.{Device}
use daisyway.Osk.WireGuard.Tests.{socket}
use daisyway.Setup
use daisyway.Setup.{DaisywayConfig, load_from_file}
use daisyway.Setup.Tests.{open_nothing, connect, cfg}
use daisyway.Cli.{
  LevelFilter, off, debug, Cli, exchange_command, help_page, ManpageCommand, Logger, Terminal,
  init_logging, run_manpage, main,
}
use daisyway.Cli.Logging.{HasLevel, chosen, init_logging_level}
use daisyway.Cli.Manpages.{IsComplete, run_manpage-is_panic}

abbrev Machine : Type 0
Machine = List Device

abbrev logger : Logger LevelFilter Machine
logger = record {
  from_default_env = λ w. off;
  rust_log = λ w. none;
  filter_level = λ l b. l;
  try_init = λ b w. (ok tt, w);
}

has_level : HasLevel logger
has_level = record { level = λ b. b; filters = λ l b. refl }

abbrev cli : Cli ℕ ℕ
cli = record {
  command = some (exchange_command (record { config = 7 }));
  log_level = none;
  verbose = false;
  quiet = false;
}

abbrev verbose_cli : Cli ℕ ℕ
verbose_cli = record cli { verbose = true; log_level = some debug }

logged_verbosely :
    (b : LevelFilter) × (init_logging logger verbose_cli [] ≡ (ok tt, []))
    × (b ≡ chosen true false (some debug) none off)
unfolding has_level
logged_verbosely = init_logging_level logger has_level verbose_cli []

-- The commands are numbers: a subcommand's is the length of its name.
abbrev terminal : Terminal ℕ ℕ ℕ ℕ Machine
terminal = record {
  command = 0;
  find_subcommand = λ name c. some 1;
  render = λ c. ok [];
  render_to_stdout = λ c w. (ok tt, w);
  spawn_man = λ w. (err (io other_kind), w);
  stdin = λ p. some p;
  write_all = λ b p w. (ok tt, w);
  wait = λ p w. (ok true, w);
  kill_on_drop = λ p w. w;
  generate_to = λ c p w. (ok tt, w);
  current_exe = λ w. ok 3;
  to_str = λ p. some [];
  generate = λ s c b w. w;
}

complete : IsComplete terminal
complete = record {
  has_exchange = refl;
  has_manpage = refl;
  has_export = refl;
  has_shell = refl;
  has_help = refl;
  piped = λ p. refl;
  renders = λ c. refl;
  prints = λ c w. refl;
  spawns = λ w. refl;
  writes = λ b p w. refl;
  waits = λ p w. refl;
}

abbrev help_page_of : ManpageCommand
help_page_of = record { selection = help_page; dont_invoke_man = false }

manual_shown : is_panic (run_manpage terminal help_page_of []).0 ≡ false
manual_shown = run_manpage-is_panic terminal complete help_page_of []

abbrev read_config : ℕ → Machine → Result Bytes
read_config p w = ok (p ∷ [])

abbrev parse : Bytes → Result (DaisywayConfig ℕ)
parse text = ok cfg

-- The server is set up, and its loop runs.
abbrev outcome : Result (Unit {0}) × Machine
outcome =
    main terminal (load_from_file read_config parse)
      (Setup.from_config copying socket open_nothing connect)
      (Setup.event_loop (λ c w. (ok tt, w)) (λ s w. (ok tt, w))) logger cli []
