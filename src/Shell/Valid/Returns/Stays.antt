-- ===== src/Shell/Valid/Returns/Stays.antt =====
-- execute_command of kernel/shell.c leaves the file system started.
use basedos.Prelude.{ℕ, refl, List, [], ◌∷◌, Option, Option-cases, inl, inr}
use mathlib.Core.Option
use basedos.Fs.Driver.{memfs}
use basedos.Fs.Vfs.{vfs_finddir}
use basedos.Kernel.Status.{kernel_shutdown}
use basedos.Sound.{Ports}
use basedos.Shell.{Shell}
use basedos.Shell.Aliases.{resolve_alias}
use basedos.Shell.Calc.{calculator}
use basedos.Shell.Execute.{
  alias, shutdown, reboot, say_uptime, run_file, not_implemented, change_dir, branches,
  report_debug, dispatch, parsed, run_words, execute_command,
}
use basedos.Shell.History.{add_to_history}
use basedos.Shell.Info.{show_memory_info}
use basedos.Shell.Parse.Plain.{AllPlain, words-AllPlain}
use basedos.Shell.System.{Outcome, done, returned, halted, System}
use basedos.Shell.Valid.{if-keeps}
use basedos.Shell.Valid.Commands.{map-OnSome, map-kept, bind-each}
use basedos.Shell.Valid.Commands.Branches.{Keeps, AllKeep, none_left, ◌also◌, first_branch-Keeps}
use basedos.Shell.Valid.Commands.Files.{Has}
use basedos.Shell.Valid.Returns.{IsStarted}
use basedos.Shell.Valid.Returns.Frame.{
  Stays, same_files, cd-Stays, ls-Stays, cat-Stays, touch-Stays, write-Stays,
}

module _ (n : ℕ) (inb : Ports → ℕ → ℕ) (fuel buffer : ℕ) where
  -- a branch that changes neither the files nor the kernel
  in_shell : (sys : System n) (s : Shell) → IsStarted n sys → IsStarted n (record sys { shell = s })
  in_shell sys s st = same_files n sys _ st refl refl refl

  in_shell? :
      (sys : System n) (o : Option Shell)
      → IsStarted n sys
      → Stays n (Option.map (λ s. done (record sys { shell = s })) o)
  in_shell? sys o st = map-OnSome (Has (IsStarted n)) o _ (λ s. in_shell sys s st)

  shutdown-Stays : Keeps (IsStarted n) (shutdown n inb fuel buffer)
  unfolding shutdown kernel_shutdown
  shutdown-Stays args sys p st = same_files n sys _ st refl refl refl

  reboot-Stays : Keeps (IsStarted n) (reboot n inb fuel buffer)
  unfolding reboot
  reboot-Stays args sys p st = in_shell sys _ st

  say_uptime-Stays : Keeps (IsStarted n) (say_uptime n inb fuel buffer)
  unfolding say_uptime
  say_uptime-Stays args sys p st = in_shell sys _ st

  run_file-Stays : Keeps (IsStarted n) (run_file n inb fuel buffer)
  unfolding run_file
  run_file-Stays [] sys p st = tt
  run_file-Stays (name ∷ args) sys p st = bind-each (Has (IsStarted n)) sys.vfs.fs_root _ (λ root.
      map-OnSome (Has (IsStarted n)) (vfs_finddir (memfs n) sys.vfs.state root name) _
        (λ r. same_files n sys _ st refl refl refl))

  not_implemented-Stays :
      (usage message : List ℕ)
      → Keeps (IsStarted n) (not_implemented n inb fuel buffer usage message)
  unfolding not_implemented
  not_implemented-Stays usage message [] sys p st = in_shell sys _ st
  not_implemented-Stays usage message (cmd ∷ []) sys p st = in_shell sys _ st
  not_implemented-Stays usage message (cmd ∷ name ∷ args) sys p st = in_shell sys _ st

  change_dir-Stays : Keeps (IsStarted n) (change_dir n inb fuel buffer)
  unfolding change_dir
  change_dir-Stays [] sys p st = cd-Stays n _ sys st
  change_dir-Stays (cmd ∷ []) sys p st = cd-Stays n _ sys st
  change_dir-Stays (cmd ∷ path ∷ args) sys p st = cd-Stays n path sys st

  branches-Stay : AllKeep (IsStarted n) (branches n inb fuel buffer)
  branches-Stay =
      (λ args sys p st. in_shell sys _ st)
      also (λ args sys p st. in_shell sys _ st)
      also (λ args sys p st. in_shell sys _ st)
      also (λ args sys p st. in_shell sys _ st)
      also shutdown-Stays
      also reboot-Stays
      also (λ args sys p st. in_shell sys _ st)
      also change_dir-Stays
      also (λ args sys p st. in_shell sys _ st)
      also (λ args sys p st. in_shell? sys (show_memory_info sys.kernel sys.shell) st)
      also say_uptime-Stays
      also (λ args sys p st. ls-Stays n fuel sys st)
      also (λ args sys p st. cat-Stays n fuel buffer args sys st)
      also not_implemented-Stays _ _
      also (λ args sys p st. touch-Stays n args sys st)
      also not_implemented-Stays _ _
      also (λ args sys p st. write-Stays n buffer args sys st)
      also say_uptime-Stays
      also (λ args sys p st. in_shell sys _ st)
      also (λ args sys p st. in_shell? sys (alias args sys.shell) st)
      also (λ args sys p st. in_shell sys _ st)
      also (λ args sys p st. in_shell sys _ st)
      also (λ args sys p st. in_shell sys _ st)
      also (λ args sys p st. in_shell? sys (calculator args sys.shell) st)
      also (λ args sys p st. in_shell sys _ st)
      also none_left

  report_debug-Stays :
      (name : List ℕ) (o : Outcome (System n))
      → Has (IsStarted n) o
      → Has (IsStarted n) (report_debug n inb fuel buffer name o)
  unfolding report_debug
  report_debug-Stays name (done sys) st =
      if-keeps (IsStarted n) sys.shell.debug_mode _ _ (in_shell sys _ st) st
  report_debug-Stays name (returned sys) st = st
  report_debug-Stays name (halted sys) st = st

  dispatch-Stays :
      (args : List (List ℕ)) (sys : System n)
      → AllPlain args
      → IsStarted n sys
      → Stays n (dispatch n inb fuel buffer args sys)
  unfolding dispatch
  dispatch-Stays [] sys p st = tt
  dispatch-Stays (name ∷ args) sys p st =
      map-kept (Has (IsStarted n)) _ _
        (first_branch-Keeps (IsStarted n) (branches n inb fuel buffer) (run_file n inb fuel buffer)
          name branches-Stay run_file-Stays (name ∷ args) _ p (in_shell sys _ st))
        (report_debug-Stays name)

  run_words-Stays :
      (args : List (List ℕ)) (sys : System n)
      → AllPlain args
      → IsStarted n sys
      → Stays n (run_words n inb fuel buffer args sys)
  unfolding run_words
  run_words-Stays [] sys p st = st
  run_words-Stays (name ∷ args) sys p st = elim (Option-cases (resolve_alias sys.shell name)) [
    | inl e ↦ rw e (dispatch-Stays (name ∷ args) sys p st)
    | inr (cmd, e) ↦
        rw e (dispatch-Stays (parsed n inb fuel buffer cmd) sys (words-AllPlain 15 cmd) st)
  ]

  -- A command, whatever it is and however it ends, leaves the root bare, the table of descriptors
  -- whole and the size of the memory known.
  pub execute_command-Stays :
      (input : List ℕ) (sys : System n)
      → IsStarted n sys
      → Stays n (execute_command n inb fuel buffer input sys)
  unfolding execute_command
  execute_command-Stays [] sys st = st
  execute_command-Stays (c ∷ input) sys st =
      bind-each (Has (IsStarted n)) (add_to_history sys.shell (c ∷ input)) _ (λ s.
        run_words-Stays (parsed n inb fuel buffer (c ∷ input)) (record sys { shell = s })
          (words-AllPlain 15 (c ∷ input)) (in_shell sys s st))
