-- ===== src/Shell/Valid/Commands/Execute.antt =====
-- execute_command of kernel/shell.c keeps the invariant of its variables.
use basedos.Prelude.{
  Option-cases, inl, inr, ℕ, ◌<◌, refl, List, [], ◌∷◌, Option, none, some, length,
}
use basedos.Prelude.Text.{codes}
use mathlib.Core.Option
use basedos.Fs.{Node}
use basedos.Fs.Driver.{memfs}
use basedos.Fs.Vfs.{vfs_finddir}
use basedos.Kernel.{Kernel}
use basedos.Kernel.Status.{kernel_shutdown}
use basedos.Sound.{Ports}
use basedos.Terminal.{Terminal}
use basedos.Terminal
use basedos.Terminal.Cursor.{
  same_cursor, outb-IsValid, terminal_initialize-IsValid, terminal_writestring-IsValid,
}
use basedos.Shell.{Shell, max_input}
use basedos.Shell.Calc.{calculator}
use basedos.Shell.Aliases.{resolve_alias}
use basedos.Shell.Info.{show_memory_info}
use basedos.Shell.Execute.{
  help, alias, shutdown, reboot, say_uptime, not_found, run_file, not_implemented, change_dir,
  branches, report_debug, dispatch, parsed, run_words, execute_command,
}
use basedos.Shell.Valid.{
  IsValid, OnSome, on_term, if-keeps, print-IsValid, print_all-IsValid, print_error-IsValid,
  print_info-IsValid, print_warning-IsValid, add_to_history-IsValid, add_alias-IsValid,
}
use basedos.Shell.Valid.Commands.{
  map-OnSome, map-kept, bind-each, settings-IsValid, list_aliases-IsValid, show_history-IsValid,
  calculator-IsValid, show_system_info-IsValid, show_memory_info-IsValid, display_banner-IsValid,
  echo_test-IsValid, set-IsValid,
}
use basedos.Shell.Valid.Commands.Branches.{Keeps, AllKeep, none_left, ◌also◌, first_branch-Keeps}
use basedos.Shell.Valid.Commands.Files.{
  Has, IsReady, Ended, cd-Ended, ls-Ended, cat-Ended, touch-Ended, write-Ended,
}
use basedos.Shell.Parse.Plain.{AllPlain, words-AllPlain}
use basedos.Shell.System.{Outcome, done, returned, halted, System}

alias-IsValid :
    (args : List (List ℕ)) (s : Shell) → AllPlain args → IsValid s → OnSome IsValid (alias args s)
unfolding alias
alias-IsValid [] s p v = print-IsValid _ s v
alias-IsValid (cmd ∷ []) s p v = list_aliases-IsValid s v
alias-IsValid (cmd ∷ name ∷ []) s p v = print-IsValid _ s v
alias-IsValid (cmd ∷ name ∷ command ∷ []) s p v = add_alias-IsValid s name command v p.1.1.0
alias-IsValid (cmd ∷ name ∷ command ∷ more ∷ args) s p v = print-IsValid _ s v

help-IsValid : (s : Shell) → IsValid s → IsValid (help s)
unfolding help
help-IsValid s v = print_all-IsValid _ _ (print_info-IsValid _ s v)

ports-IsValid :
    (out : Ports) (s : Shell)
    → IsValid s
    → IsValid (record s { term = record s.term { out = out } })
ports-IsValid out s v = on_term s _ v (same_cursor s.term _ refl refl v.screen)

kernel_shutdown-IsValid :
    (k : Kernel) (t : Terminal) → Terminal.IsValid t → Terminal.IsValid (kernel_shutdown k t).1
unfolding kernel_shutdown
kernel_shutdown-IsValid k t v =
    terminal_writestring-IsValid _ _ (terminal_writestring-IsValid t _ v)

module _ (n : ℕ) (inb : Ports → ℕ → ℕ) (fuel buffer : ℕ) where
  shutdown-Keeps : Keeps (IsReady n) (shutdown n inb fuel buffer)
  unfolding shutdown
  shutdown-Keeps args sys p v =
      let said = print_info-IsValid (codes "Shutting down system...\n") sys.shell v in
      on_term _ _ said
        (kernel_shutdown-IsValid (record sys.kernel { heap = sys.vfs.state.heap }) _ said.screen)

  reboot-Keeps : Keeps (IsReady n) (reboot n inb fuel buffer)
  unfolding reboot
  reboot-Keeps args sys p v =
      let said = print_warning-IsValid (codes "Rebooting system...\n") sys.shell v in
      on_term _ _ said (outb-IsValid 0x64 0xFE _ said.screen)

  say_uptime-Keeps : Keeps (IsReady n) (say_uptime n inb fuel buffer)
  unfolding say_uptime
  say_uptime-Keeps args sys p v = print_all-IsValid _ sys.shell v

  not_found-IsValid :
      (name : List ℕ) (node : Option Node) (s : Shell)
      → IsValid s
      → IsValid (not_found n inb fuel buffer name node s)
  unfolding not_found
  not_found-IsValid name (some node) s v = settings-IsValid _ _ _ _ 126 (print_error-IsValid _ s v)
  not_found-IsValid name none s v =
      settings-IsValid _ _ _ _ 127 (print_all-IsValid _ _ (print_error-IsValid _ s v))

  run_file-Keeps : Keeps (IsReady n) (run_file n inb fuel buffer)
  unfolding run_file
  run_file-Keeps [] sys p v = tt
  run_file-Keeps (name ∷ args) sys p v = bind-each (Has (IsReady n)) sys.vfs.fs_root _ (λ root.
      map-OnSome (Has (IsReady n)) (vfs_finddir (memfs n) sys.vfs.state root name) _
        (λ r. not_found-IsValid name r.0 sys.shell v))

  not_implemented-Keeps :
      (usage message : List ℕ) → Keeps (IsReady n) (not_implemented n inb fuel buffer usage message)
  unfolding not_implemented
  not_implemented-Keeps usage message [] sys p v = print-IsValid _ sys.shell v
  not_implemented-Keeps usage message (cmd ∷ []) sys p v = print-IsValid _ sys.shell v
  not_implemented-Keeps usage message (cmd ∷ name ∷ args) sys p v = print-IsValid _ sys.shell v

  change_dir-Keeps : Keeps (IsReady n) (change_dir n inb fuel buffer)
  unfolding change_dir
  change_dir-Keeps [] sys p v = cd-Ended n _ sys v
  change_dir-Keeps (cmd ∷ []) sys p v = cd-Ended n _ sys v
  change_dir-Keeps (cmd ∷ path ∷ args) sys p v = cd-Ended n path sys v

  in_shell :
      (o : Option Shell) (sys : System n)
      → OnSome IsValid o
      → Ended n (Option.map (λ s. done (record sys { shell = s })) o)
  in_shell none sys v = tt
  in_shell (some s) sys v = v

  branches-AllKeep : AllKeep (IsReady n) (branches n inb fuel buffer)
  branches-AllKeep =
      (λ args sys p v. help-IsValid sys.shell v)
      also (λ args sys p v. on_term sys.shell _ v (terminal_initialize-IsValid _))
      also (λ args sys p v. echo_test-IsValid args sys.shell v)
      also (λ args sys p v. print_info-IsValid _ sys.shell v)
      also shutdown-Keeps
      also reboot-Keeps
      also (λ args sys p v. print_all-IsValid _ sys.shell v)
      also change_dir-Keeps
      also (λ args sys p v. ports-IsValid _ sys.shell v)
      also (λ args sys p v.
          in_shell (show_memory_info sys.kernel sys.shell) sys
            (show_memory_info-IsValid sys.kernel sys.shell v))
      also say_uptime-Keeps
      also (λ args sys p v. ls-Ended n fuel sys v)
      also (λ args sys p v. cat-Ended n fuel buffer args sys v)
      also not_implemented-Keeps _ _
      also (λ args sys p v. touch-Ended n args sys v)
      also not_implemented-Keeps _ _
      also (λ args sys p v. write-Ended n buffer args sys v)
      also say_uptime-Keeps
      also (λ args sys p v. display_banner-IsValid sys.shell v)
      also (λ args sys p v. in_shell (alias args sys.shell) sys (alias-IsValid args sys.shell p v))
      also (λ args sys p v. set-IsValid args sys.shell v)
      also (λ args sys p v. show_history-IsValid sys.shell v)
      also (λ args sys p v. show_system_info-IsValid sys.kernel sys.shell v)
      also (λ args sys p v.
          in_shell (calculator args sys.shell) sys (calculator-IsValid args sys.shell v))
      also (λ args sys p v. ports-IsValid _ sys.shell v)
      also none_left

  report_debug-Has :
      (name : List ℕ) (o : Outcome (System n))
      → Has (IsReady n) o
      → Has (IsReady n) (report_debug n inb fuel buffer name o)
  unfolding report_debug
  report_debug-Has name (done sys) v =
      if-keeps (IsReady n) sys.shell.debug_mode _ _ (print_all-IsValid _ sys.shell v) v
  report_debug-Has name (returned sys) v = v
  report_debug-Has name (halted sys) v = v

  dispatch-Ended :
      (args : List (List ℕ)) (sys : System n)
      → AllPlain args
      → IsReady n sys
      → Ended n (dispatch n inb fuel buffer args sys)
  unfolding dispatch
  dispatch-Ended [] sys p v = tt
  dispatch-Ended (name ∷ args) sys p v =
      map-kept (Has (IsReady n)) _ _
        (first_branch-Keeps (IsReady n) (branches n inb fuel buffer) (run_file n inb fuel buffer)
          name branches-AllKeep run_file-Keeps (name ∷ args) _ p
          (settings-IsValid sys.shell _ _ _ 0 v))
        (report_debug-Has name)

  run_words-Ended :
      (args : List (List ℕ)) (sys : System n)
      → AllPlain args
      → IsReady n sys
      → Ended n (run_words n inb fuel buffer args sys)
  unfolding run_words
  run_words-Ended [] sys p v = v
  run_words-Ended (name ∷ args) sys p v = elim (Option-cases (resolve_alias sys.shell name)) [
    | inl e ↦ rw e (dispatch-Ended (name ∷ args) sys p v)
    | inr (cmd, e) ↦
        rw e (dispatch-Ended (parsed n inb fuel buffer cmd) sys (words-AllPlain 15 cmd) v)
  ]

  -- A command line that fits into the array of the shell, run on a valid shell, leaves a valid shell,
  -- whatever the command is and however it ends, if the shell and the file system do not fault.
  pub execute_command-IsValid :
      (input : List ℕ) (sys : System n)
      → IsValid sys.shell
      → length input < max_input
      → OnSome (Has (IsReady n)) (execute_command n inb fuel buffer input sys)
  unfolding execute_command
  execute_command-IsValid [] sys v h = v
  execute_command-IsValid (c ∷ input) sys v h =
      let (s, logged, w) = add_to_history-IsValid sys.shell (c ∷ input) v h in
      rw logged (
        run_words-Ended (parsed n inb fuel buffer (c ∷ input)) (record sys { shell = s })
          (words-AllPlain 15 (c ∷ input)) w)
