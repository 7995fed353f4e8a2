-- ===== src/Cli/Manpages.antt =====
-- When the commands of daisyway/src/main.rs that print manual pages panic, and what becomes of `man`.
use daisyway.Base.{
  ◌≡◌, refl, Option, none, some, Bool, true, false, is_panic, arith, resume-is_panic,
  context-is_panic, within, unwrap, ensure, String, if◌then◌else◌,
}
use daisyway.Crypto.Basics.{bytes_of}
use daisyway.Cli.{
  Terminal, ManpageCommand, ManpageSelection, daisyway_page, exchange_page, manpage_page,
  export_manpages_page, shell_completion_page, help_page, selected_command, feed_man, invoke_man,
  run_manpage, some_or,
}

abbrev is_some : {A : Type 0} → Option A → Bool
is_some none = false
is_some (some a) = true

unwrap_some-is_panic :
    {A : Type 0} (s t : String) (o : Option A)
    → is_some o ≡ true
    → is_panic (unwrap s (some_or t o)) ≡ false
unwrap_some-is_panic s t none e = ground arith
unwrap_some-is_panic s t (some a) e = refl

ensure-is_panic : (b : Bool) (s : String) → is_panic (ensure b s) ≡ false
ensure-is_panic true s = refl
ensure-is_panic false s = refl

module _ {FilePath Shell W Command Process : Type 0}
    (terminal : Terminal Command Process FilePath Shell W) where
  open terminal use {
    command, find_subcommand, render, render_to_stdout, spawn_man, stdin, write_all, wait,
    kill_on_drop,
  }

  -- What the code takes for granted: clap has built a subcommand of each of these names, `man` was
  -- started with a pipe, and the printers and the pipe do not panic themselves.
  pub record IsComplete : Type 0 where
    pub has_exchange : is_some (find_subcommand (bytes_of "exchange") command) ≡ true
    pub has_manpage : is_some (find_subcommand (bytes_of "manpage") command) ≡ true
    pub has_export : is_some (find_subcommand (bytes_of "export-manpages") command) ≡ true
    pub has_shell : is_some (find_subcommand (bytes_of "shell-completion") command) ≡ true
    pub has_help : is_some (find_subcommand (bytes_of "help") command) ≡ true
    pub piped : (p : Process) → is_some (stdin p) ≡ true
    pub renders : (c : Command) → is_panic (render c) ≡ false
    pub prints : (c : Command) (w : W) → is_panic (render_to_stdout c w).0 ≡ false
    pub spawns : (w : W) → is_panic (spawn_man w).0 ≡ false
    pub writes : (b : _) (p : Process) (w : W) → is_panic (write_all b p w).0 ≡ false
    pub waits : (p : Process) (w : W) → is_panic (wait p w).0 ≡ false

  module _ (complete : IsComplete) where
    selected : (self : ManpageCommand) → is_some (selected_command terminal self command) ≡ true
    unfolding selected_command
    selected self = named self.selection
      where
        named :
            (s : ManpageSelection)
            → is_some (selected_command terminal (record self { selection = s }) command) ≡ true
        named daisyway_page = refl
        named exchange_page = complete.has_exchange
        named manpage_page = complete.has_manpage
        named export_manpages_page = complete.has_export
        named shell_completion_page = complete.has_shell
        named help_page = complete.has_help

    feed_man-is_panic :
        (c : Command) (p : Process) (w : W) → is_panic (feed_man terminal c p w).0 ≡ false
    unfolding feed_man
    feed_man-is_panic c p w =
        resume-is_panic _ (render c, w) (complete.renders c)
          λ buf v _.
            resume-is_panic _
              (
                unwrap "called `Result::unwrap()` on an `Err` value"
                    (some_or "Stdout missing from manpage command. This is a bug" (stdin p)),
                v,
              )
              (unwrap_some-is_panic "called `Result::unwrap()` on an `Err` value"
                "Stdout missing from manpage command. This is a bug" (stdin p) (complete.piped p))
              λ input u _.
                resume-is_panic _ (write_all buf input u) (complete.writes buf input u) λ _ x _.
                  resume-is_panic _ (wait p x) (complete.waits p x)
                    λ success _ _. ensure-is_panic success "`man` command exited unsuccessfully"

    -- If clap has built all subcommands and `man` was started with a pipe, and the printers and
    -- the pipe do not panic themselves, then showing a manual page never panics, whichever page is
    -- asked for.
    pub run_manpage-is_panic :
        (self : ManpageCommand) (w : W) → is_panic (run_manpage terminal self w).0 ≡ false
    unfolding run_manpage invoke_man
    run_manpage-is_panic self w =
        resume-is_panic _
          (
            unwrap "called `Result::unwrap()` on an `Err` value" (
                some_or "Could not retrieve command for manpage – this is a bug."
                  (selected_command terminal self command)),
            w,
          )
          (unwrap_some-is_panic "called `Result::unwrap()` on an `Err` value"
            "Could not retrieve command for manpage – this is a bug."
            (selected_command terminal self command) (selected self))
          λ cmd v _. shown cmd v self.dont_invoke_man
      where
        shown :
            (cmd : Command) (v : W) (b : Bool)
            → is_panic ((if b then render_to_stdout cmd else invoke_man terminal cmd) v).0 ≡ false
        shown cmd v true = complete.prints cmd v
        shown cmd v false =
            resume-is_panic _ (within "Failed to start `man` command." spawn_man v)
              (context-is_panic "Failed to start `man` command." (spawn_man v).0
                (complete.spawns v))
              λ proc u _. feed_man-is_panic cmd proc u
