-- ===== src/Shell/Execute.antt =====
-- The commands of kernel/shell.c: execute_command. `none` is a fault: a string past the end of an
-- array, a pointer that is NULL, or fuel that runs out.
use basedos.Prelude.{ℕ, if◌then◌else◌, List, [], ◌∷◌, Option, none, some}
use basedos.Prelude.Text.{codes}
use mathlib.Core.Option
use basedos.Kernel.Status.{get_uptime, kernel_shutdown}
use basedos.Fs.{Node}
use basedos.Fs.Driver.{memfs}
use basedos.Fs.Vfs.{vfs_finddir}
use basedos.Sound.{Ports, beep, nosound}
use basedos.Str.Num.Print.{numeral}
use basedos.Str.Text.{text_eq}
use basedos.Terminal.{terminal_initialize, outb}
use basedos.Shell.{Shell, print, print_all, print_error, print_info, print_warning}
use basedos.Shell.Aliases.{add_alias, resolve_alias, list_aliases}
use basedos.Shell.Calc.{calculator}
use basedos.Shell.Files.{cd, ls, cat, touch, write}
use basedos.Shell.History.{add_to_history, show_history}
use basedos.Shell.Info.{
  show_system_info, show_memory_info, display_banner, play_startup_sound, echo_test,
}
use basedos.Shell.Parse.Words.{words}
use basedos.Shell.Settings.{set}
use basedos.Shell.System.{Outcome, done, returned, halted, System, on_shell, with_state}

unfoldable pub help : Shell → Shell
help s =
    print_all
      (codes "  help          - Show this help\n"
        ∷ codes "  clear         - Clear screen\n"
        ∷ codes "  echo          - Print arguments to the screen\n"
        ∷ codes "  exit          - Exit the shell\n"
        ∷ codes "  shutdown      - Shut down the system\n"
        ∷ codes "  reboot        - Reboot the system\n"
        ∷ codes "  beep          - Play a beep sound\n"
        ∷ codes "  memory        - Show memory information\n"
        ∷ codes "  uptime        - Show system uptime\n"
        ∷ codes "  ls            - List directory contents\n"
        ∷ codes "  cd <dir>      - Change directory\n"
        ∷ codes "  pwd           - Print working directory\n"
        ∷ codes "  cat <file>    - Display file contents\n"
        ∷ codes "  mkdir <dir>   - Create a directory\n"
        ∷ codes "  touch <file>  - Create an empty file\n"
        ∷ codes "  rm <file>     - Remove a file or directory\n"
        ∷ codes "  write <file>  - Write text to a file\n"
        ∷ codes "  date          - Show system uptime\n"
        ∷ codes "  banner        - Show ASCII banner\n"
        ∷ codes "  alias         - Manage command aliases\n"
        ∷ codes "  set           - Change shell settings\n"
        ∷ codes "  history       - Show command history\n"
        ∷ codes "  sysinfo       - Show system information\n"
        ∷ codes "  calc          - Simple calculator\n"
        ∷ codes "  sound         - Play startup sound\n"
        ∷ [])
      (print_info (codes "Available commands:\n") s)

-- `alias`, on the words of the command
unfoldable pub alias : List (List ℕ) → Shell → Option Shell
alias (cmd ∷ []) s = some (list_aliases s)
alias (cmd ∷ name ∷ command ∷ []) s = add_alias s name command
alias args s = some (print (codes "Usage: alias [name] [command]\n") s)

-- what a branch of execute_command does with the words of the command
abbrev pub Branch : ℕ → Type 0
Branch n = List (List ℕ) → System n → Option (Outcome (System n))

-- the chain of tests of the name: the branch of the first name that is equal
unfoldable pub first_branch : {n : ℕ} → List (List ℕ × Branch n) → Branch n → List ℕ → Branch n
first_branch [] other name = other
first_branch ((text, branch) ∷ rest) other name =
    if text_eq name text then branch else first_branch rest other name

-- `inb` answers a read of a port, `fuel` bounds the entries of `/` and the blocks of a file, and `buffer`
-- is the address of the buffer of cat and of write.
module _ (n : ℕ) (inb : Ports → ℕ → ℕ) (fuel buffer : ℕ) where
  -- a branch that changes the shell only
  abbrev pub in_shell : (List (List ℕ) → Shell → Shell) → Branch n
  in_shell f args sys = some (done (on_shell n (f args) sys))

  -- what is sent to the ports
  abbrev on_ports : (Ports → Ports) → Shell → Shell
  on_ports f s = record s { term = record s.term { out = f s.term.out } }

  unfoldable pub shutdown : Branch n
  unfolding kernel_shutdown
  shutdown args sys =
      let s = print_info (codes "Shutting down system...\n") sys.shell in
      let heap = sys.vfs.state.heap in
      let (k, t) = kernel_shutdown (record sys.kernel { heap = heap }) s.term in
      some (
        halted (record (with_state n (record sys.vfs.state { heap = k.heap }) sys) {
          shell = record s { term = t };
          kernel = k;
        }))

  unfoldable pub reboot : Branch n
  reboot args sys =
      let s = print_warning (codes "Rebooting system...\n") sys.shell in
      some (halted (record sys { shell = record s { term = outb 0x64 0xFE s.term } }))

  unfoldable pub say_uptime : Branch n
  say_uptime args sys = some (
      done (
        on_shell n
          (print_all (
            codes "System uptime: " ∷ numeral 10 (get_uptime sys.kernel) ∷ codes " seconds\n" ∷ []))
          sys))

  -- the last branch: a name that is no command
  unfoldable pub not_found : List ℕ → Option Node → Shell → Shell
  not_found name (some node) s =
      record (print_error (codes "Execution of binary files is not yet implemented\n") s) {
        last_exit_code = 126;
      }
  not_found name none s =
      record (print_all (name ∷ codes "\n" ∷ []) (print_error (codes "Command not found: ") s)) {
        last_exit_code = 127;
      }

  unfoldable pub run_file : Branch n
  unfolding not_found Option.bind
  run_file [] sys = none
  run_file (name ∷ args) sys = Option.bind sys.vfs.fs_root (λ root.
      Option.map (λ r. done (on_shell n (not_found name r.0) (with_state n r.1 sys)))
        (vfs_finddir (memfs n) sys.vfs.state root name))

  -- `mkdir` and `rm`, which only test their arguments
  unfoldable pub not_implemented : List ℕ → List ℕ → Branch n
  not_implemented usage message (cmd ∷ name ∷ args) sys =
      some (done (on_shell n (print message) sys))
  not_implemented usage message args sys = some (returned (on_shell n (print usage) sys))

  -- `cd`: its directory is `/` by default
  unfoldable pub change_dir : Branch n
  change_dir (cmd ∷ path ∷ args) sys = cd n path sys
  change_dir args sys = cd n (codes "/") sys

  -- a branch that may fault in the shell
  abbrev in_shell? : (List (List ℕ) → Shell → Option Shell) → Branch n
  in_shell? f args sys = Option.map (λ s. done (record sys { shell = s })) (f args sys.shell)

  -- the branches of execute_command, in its order
  abbrev pub branches : List (List ℕ × Branch n)
  branches =
      (codes "help", in_shell (λ args. help))
      ∷ (codes "clear", in_shell (λ args s. record s { term = terminal_initialize s.term }))
      ∷ (codes "echo", in_shell echo_test)
      ∷ (
        codes "exit",
        λ args sys. some (returned (on_shell n (print_info (codes "Goodbye!\n")) sys)),
      )
      ∷ (codes "shutdown", shutdown)
      ∷ (codes "reboot", reboot)
      ∷ (codes "pwd", in_shell (λ args s. print_all (s.current_directory ∷ codes "\n" ∷ []) s))
      ∷ (codes "cd", change_dir)
      ∷ (codes "beep", in_shell (λ args. on_ports (λ out. nosound inb (beep inb 1000 out))))
      ∷ (codes "memory", λ args sys. in_shell? (λ args. show_memory_info sys.kernel) args sys)
      ∷ (codes "uptime", say_uptime)
      ∷ (codes "ls", λ args. ls n fuel)
      ∷ (codes "cat", cat n fuel buffer)
      ∷ (
        codes "mkdir",
        not_implemented (codes "Usage: mkdir <directory>\n") (codes "mkdir: Not implemented yet\n"),
      )
      ∷ (codes "touch", touch n)
      ∷ (
        codes "rm",
        not_implemented (codes "Usage: rm <file>\n") (codes "rm: Not implemented yet\n"),
      )
      ∷ (codes "write", write n buffer)
      ∷ (codes "date", say_uptime)
      ∷ (codes "banner", in_shell (λ args. display_banner))
      ∷ (codes "alias", in_shell? alias)
      ∷ (codes "set", in_shell set)
      ∷ (codes "history", in_shell (λ args. show_history))
      ∷ (codes "sysinfo", λ args sys. in_shell (λ args. show_system_info sys.kernel) args sys)
      ∷ (codes "calc", in_shell? calculator)
      ∷ (codes "sound", in_shell (λ args. on_ports (play_startup_sound inb)))
      ∷ []

  -- the end of execute_command
  unfoldable pub report_debug : List ℕ → Outcome (System n) → Outcome (System n)
  report_debug name (done sys) = done (
      if sys.shell.debug_mode
      then on_shell n
          (print_all (
            codes "[DEBUG] Command '"
            ∷ name
            ∷ codes "' exited with code "
            ∷ numeral 10 sys.shell.last_exit_code
            ∷ codes "\n"
            ∷ []))
          sys
      else sys)
  report_debug name (returned sys) = returned sys
  report_debug name (halted sys) = halted sys

  -- from `last_exit_code = 0` on, with the words of the command
  unfoldable pub dispatch : List (List ℕ) → System n → Option (Outcome (System n))
  unfolding first_branch report_debug
  dispatch [] sys = none
  dispatch (name ∷ args) sys = Option.map (report_debug name) (
      first_branch branches run_file name (name ∷ args)
        (on_shell n (λ s. record s { last_exit_code = 0 }) sys))

  -- what parse_command finds (Shell/Parse/Words)
  abbrev pub parsed : List ℕ → List (List ℕ)
  parsed input = words 15 (b' ' ∷ b'\t' ∷ []) input

  -- execute_command once the input is in the history: the words of an alias replace those of the input
  unfoldable pub run_words : List (List ℕ) → System n → Option (Outcome (System n))
  unfolding dispatch resolve_alias
  run_words [] sys = some (returned sys)
  run_words (name ∷ args) sys =
      dispatch (elim (resolve_alias sys.shell name) [ none ↦ name ∷ args | some cmd ↦ parsed cmd ])
        sys

  unfoldable pub execute_command : List ℕ → System n → Option (Outcome (System n))
  unfolding run_words add_to_history Option.bind
  execute_command [] sys = some (returned sys)
  execute_command (c ∷ input) sys =
      Option.bind (add_to_history sys.shell (c ∷ input))
        (λ s. run_words (parsed (c ∷ input)) (record sys { shell = s }))
