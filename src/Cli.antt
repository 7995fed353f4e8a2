-- ===== src/Cli.antt =====
-- daisyway/src/main.rs: the command line. The crates `clap`, `clap_mangen`, `clap_complete` and
-- `env_logger`, the program `man` and the terminal are parameters; the log lines are left out.
pub mod Logging
pub mod Manpages
pub mod Client
pub mod Exchange
mod Tests
use daisyway.Base.{
  List, Option, none, some, Bool, true, false, String, Result, ok, err, panic, message, Action,
  ◌>>=◌, pure, lift, within, context, unwrap, ensure, if◌then◌else◌,
}
use daisyway.Crypto.Key.{Bytes}
use daisyway.Crypto.Basics.{bytes_of}
use daisyway.Setup.{DaisywayConfig, DaisywayTcpParticipant}

-- `log::LevelFilter`.
pub data LevelFilter : Type 0 where
  off error warn info debug trace : LevelFilter

pub data ManpageSelection : Type 0 where
  daisyway_page exchange_page manpage_page export_manpages_page shell_completion_page help_page :
      ManpageSelection

pub record ManpageCommand : Type 0 where
  pub selection : ManpageSelection
  pub dont_invoke_man : Bool

pub record ExportManpagesCommand (FilePath : Type 0) : Type 0 where
  pub destination : FilePath

pub record ShellCompletion (Shell : Type 0) : Type 0 where
  pub shell : Shell

pub record ExchangeCommand (FilePath : Type 0) : Type 0 where
  pub config : FilePath

pub data Commands (FilePath Shell : Type 0) : Type 0 where
  exchange_command : ExchangeCommand FilePath → Commands FilePath Shell
  manpage_command : ManpageCommand → Commands FilePath Shell
  export_command : ExportManpagesCommand FilePath → Commands FilePath Shell
  shell_command : ShellCompletion Shell → Commands FilePath Shell

pub record Cli (FilePath Shell : Type 0) : Type 0 where
  pub command : Option (Commands FilePath Shell)
  pub log_level : Option LevelFilter
  pub verbose : Bool
  pub quiet : Bool

-- The builder of `env_logger`, `RUST_LOG` in the environment, and the start of the log.
pub record Logger (Builder W : Type 0) : Type 0 where
  pub from_default_env : W → Builder
  pub rust_log : W → Option Bytes
  pub filter_level : LevelFilter → Builder → Builder
  pub try_init : Builder → Action W (Unit {0})

-- What the commands on manual pages and completions use: a `clap::Command`, which is built from the
-- declarations of the command line, the printers of manual pages, the process `man`, and the name of
-- the executable.
pub record Terminal (Command Process FilePath Shell W : Type 0) : Type 0 where
  pub command : Command
  pub find_subcommand : Bytes → Command → Option Command
  pub render : Command → Result Bytes
  pub render_to_stdout : Command → Action W (Unit {0})
  pub spawn_man : Action W Process
  pub stdin : Process → Option Process
  pub write_all : Bytes → Process → Action W (Unit {0})
  pub wait : Process → Action W Bool
  pub kill_on_drop : Process → W → W
  pub generate_to : Command → FilePath → Action W (Unit {0})
  pub current_exe : W → Result FilePath
  pub to_str : FilePath → Option Bytes
  pub generate : Shell → Command → Bytes → W → W

-- `Option::context` of anyhow.
abbrev pub some_or : {A : Type 0} → String → Option A → Result A
some_or s none = err (message s)
some_or s (some a) = ok a

-- The level where the variable is not set, and where the command line has one.
abbrev pub level_if_unset :
    {Builder W : Type 0} → Logger Builder W → Option Bytes → Builder → Builder
level_if_unset logger none b = logger.filter_level warn b
level_if_unset logger (some _) b = b

abbrev pub level_if_set :
    {Builder W : Type 0} → Logger Builder W → Option LevelFilter → Builder → Builder
level_if_set logger none b = b
level_if_set logger (some filter) b = logger.filter_level filter b

unfoldable pub log_level_filter :
    {FilePath Shell : Type 0} → Cli FilePath Shell → Option LevelFilter
log_level_filter cli =
    if cli.verbose then some info else if cli.quiet then some warn else cli.log_level

module _ {FilePath Shell W : Type 0} where
  unfoldable pub init_logging :
      {Builder : Type 0} → Logger Builder W → Cli FilePath Shell → Action W (Unit {0})
  unfolding log_level_filter
  init_logging logger cli w =
      let defaults = level_if_unset logger (logger.rust_log w) (logger.from_default_env w) in
      logger.try_init (level_if_set logger (log_level_filter cli) defaults) w

  module _ {Command Process : Type 0} (terminal : Terminal Command Process FilePath Shell W) where
    open terminal use {
      command, find_subcommand, render, render_to_stdout, spawn_man, stdin, write_all, wait,
      kill_on_drop, generate_to, current_exe, to_str, generate,
    }

    unfoldable pub selected_command : ManpageCommand → Command → Option Command
    selected_command self cmd = elim self.selection [
      | daisyway_page ↦ some cmd
      | exchange_page ↦ find_subcommand (bytes_of "exchange") cmd
      | manpage_page ↦ find_subcommand (bytes_of "manpage") cmd
      | export_manpages_page ↦ find_subcommand (bytes_of "export-manpages") cmd
      | shell_completion_page ↦ find_subcommand (bytes_of "shell-completion") cmd
      | help_page ↦ find_subcommand (bytes_of "help") cmd
    ]

    -- The page, piped through `man`, which is killed when it is dropped at the end.
    unfoldable pub feed_man : Command → Process → Action W (Unit {0})
    feed_man cmd proc = do
      buf ← lift (render cmd)
      input ← lift (
          unwrap "called `Result::unwrap()` on an `Err` value"
            (some_or "Stdout missing from manpage command. This is a bug" (stdin proc)))
      _ ← write_all buf input
      success ← wait proc
      lift (ensure success "`man` command exited unsuccessfully")

    abbrev pub dropping : Process → Action W (Unit {0}) → Action W (Unit {0})
    dropping proc m w = let (r, w') = m w in (r, kill_on_drop proc w')

    unfoldable pub invoke_man : Command → Action W (Unit {0})
    unfolding feed_man
    invoke_man cmd = do
      proc ← within "Failed to start `man` command." spawn_man
      dropping proc (feed_man cmd proc)

    unfoldable pub run_manpage : ManpageCommand → Action W (Unit {0})
    unfolding selected_command invoke_man
    run_manpage self = do
      cmd ← lift (
          unwrap "called `Result::unwrap()` on an `Err` value" (
            some_or "Could not retrieve command for manpage – this is a bug."
              (selected_command self command)))
      if self.dont_invoke_man then render_to_stdout cmd else invoke_man cmd

    unfoldable pub run_export : ExportManpagesCommand FilePath → Action W (Unit {0})
    run_export self = generate_to command self.destination

    unfoldable pub run_shell : ShellCompletion Shell → Action W (Unit {0})
    run_shell self w = bin_name (current_exe w)
      where
        named : Result Bytes → Result (Unit {0}) × W
        named (ok name) = (ok tt, generate self.shell command name w)
        named (err e) = (err e, w)
        named (panic s) = (panic s, w)

        bin_name : Result FilePath → Result (Unit {0}) × W
        bin_name (ok exe) = named (
            unwrap "called `Result::unwrap()` on an `Err` value"
              (some_or "Could not convert command binary name to string? UTF-8 woes?" (to_str exe)))
        bin_name (err e) = (panic "called `Result::unwrap()` on an `Err` value", w)
        bin_name (panic s) = (panic s, w)

    module _ {Participant : Type 0} (load_from_file : FilePath → Action W (DaisywayConfig FilePath))
        (from_config : DaisywayConfig FilePath → Action W Participant)
        (event_loop : Participant → Action W (Unit {0})) where
      unfoldable pub run_exchange : ExchangeCommand FilePath → Action W (Unit {0})
      run_exchange self = do
        config ← load_from_file self.config
        participant ← from_config config
        event_loop participant

      unfoldable pub run_command : Commands FilePath Shell → Action W (Unit {0})
      unfolding run_exchange run_manpage run_export run_shell
      run_command (exchange_command cmd) = run_exchange cmd
      run_command (manpage_command cmd) = run_manpage cmd
      run_command (export_command cmd) = run_export cmd
      run_command (shell_command cmd) = run_shell cmd

      unfoldable pub run : Cli FilePath Shell → Action W (Unit {0})
      unfolding run_command
      run cli = elim cli.command [
        | none ↦ lift (err (message "No command specified"))
        | some cmd ↦ run_command cmd
      ]

      -- `cli` is what clap parses.
      unfoldable pub main :
          {Builder : Type 0} → Logger Builder W → Cli FilePath Shell → Action W (Unit {0})
      unfolding init_logging run
      main logger cli = do _ ← init_logging logger cli; run cli
