-- ===== src/Cli/Logging.antt =====
-- The log level that daisyway/src/main.rs sets.
use daisyway.Base.{◌≡◌, refl, Option, none, some, Bool, true, false, if◌then◌else◌}
use daisyway.Crypto.Key.{Bytes}
use daisyway.Cli.{
  LevelFilter, info, warn, Cli, Logger, log_level_filter, init_logging, level_if_unset,
  level_if_set,
}

-- The last level that is set is the one that counts.
pub record HasLevel {Builder W : Type 0} (logger : Logger Builder W) : Type 0 where
  pub level : Builder → LevelFilter
  pub filters : (l : LevelFilter) (b : Builder) → level (logger.filter_level l b) ≡ l

-- The first that is there: `--verbose`, `--quiet`, `--log-level`, `RUST_LOG`, and else the warnings.
abbrev pub chosen : Bool → Bool → Option LevelFilter → Option Bytes → LevelFilter → LevelFilter
chosen true quiet log_level rust_log from_env = info
chosen false true log_level rust_log from_env = warn
chosen false false (some l) rust_log from_env = l
chosen false false none (some _) from_env = from_env
chosen false false none none from_env = warn

module _ {Builder W : Type 0} (logger : Logger Builder W) (has : HasLevel logger) where
  open has use {level, filters}

  set-chosen :
      (verbose quiet : Bool) (log_level : Option LevelFilter) (rust_log : Option Bytes)
      (b : Builder)
      → level (
          level_if_set logger
            (if verbose then some info else if quiet then some warn else log_level)
            (level_if_unset logger rust_log b))
        ≡ chosen verbose quiet log_level rust_log (level b)
  set-chosen true quiet log_level rust_log b = filters info _
  set-chosen false true log_level rust_log b = filters warn _
  set-chosen false false (some l) rust_log b = filters l _
  set-chosen false false none (some _) b = refl
  set-chosen false false none none b = filters warn b

  -- The log is started with one level, that of the first of these which is given: `--verbose`
  -- (Info), `--quiet` (Warn), `--log-level`, the variable RUST_LOG, and else Warn, if the level
  -- that is set last counts.
  pub init_logging_level :
      {FilePath Shell : Type 0} (cli : Cli FilePath Shell) (w : W)
      → (b : Builder) × (init_logging logger cli w ≡ logger.try_init b w)
        × (level b
            ≡ chosen cli.verbose cli.quiet cli.log_level
                (logger.rust_log w)
                (level (logger.from_default_env w)))
  unfolding init_logging log_level_filter
  init_logging_level cli w = (
    level_if_set logger (log_level_filter cli)
        (level_if_unset logger (logger.rust_log w) (logger.from_default_env w)),
    refl,
    set-chosen cli.verbose cli.quiet cli.log_level (logger.rust_log w) (logger.from_default_env w),
  )
