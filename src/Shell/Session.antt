-- ===== src/Shell/Session.antt =====
-- start_shell of kernel/shell.c, key by key: the prompt, the line, and the command on Enter.
pub mod Begin
pub mod Faults
pub mod Laws
use basedos.Prelude.{
  ℕ, ◌==◌, if◌then◌else◌, List, [], ◌∷◌, ◌++◌, Option, none, some, Bool, true, false, take,
}
use basedos.Prelude.Text.{codes}
use mathlib.Core.Option
use basedos.Sound.{Ports}
use basedos.Str.Num.Print.{numeral}
use basedos.Str.Text.{text_eq}
use basedos.Shell.{Shell, print, print_error, print_success, print_info, print_warning}
use basedos.Shell.Aliases.{add_alias}
use basedos.Shell.Edit.{Line, press}
use basedos.Shell.Execute.{execute_command}
use basedos.Shell.Info.{display_banner}
use basedos.Shell.System.{Outcome, done, returned, halted, System, on_shell}

unfoldable pub prompt : Shell → Shell
prompt s =
    let coded =
      if s.last_exit_code == 0
      then s
      else print_error (codes "] ")
          (print (numeral 10 s.last_exit_code) (print_error (codes "[") s)) in
    if s.color_enabled
    then print_info (codes "$ ") (
        print_warning s.current_directory
          (print_info (codes ":") (print_success (codes "user@based") coded)))
    else print (codes "user@based:~$ ") coded

-- the aliases that start_shell defines
unfoldable pub default_aliases : Shell → Option Shell
unfolding Option.bind
default_aliases s = Option.bind (add_alias s (codes "ll") (codes "ls -l")) (λ s.
    Option.bind (add_alias s (codes "la") (codes "ls -a")) (λ s.
      Option.bind (add_alias s (codes "cls") (codes "clear")) (λ s.
        Option.bind (add_alias s (codes "mem") (codes "memory"))
          (λ s. add_alias s (codes "sys") (codes "sysinfo")))))

module _ (n : ℕ) where
  -- the shell between two keys: the system, and the line as far as it was typed
  pub record Session : Type 0 where
    pub system : System n
    pub input : List ℕ
    pub position : ℕ

  -- a new line, behind the prompt
  unfoldable pub new_line : System n → Session
  unfolding prompt
  new_line sys = record { system = on_shell n prompt sys; input = []; position = 0 }

  -- start_shell up to the first key
  unfoldable pub begin_shell : System n → Option Session
  unfolding default_aliases display_banner
  begin_shell sys =
      let greeted = print (codes "\n") (
        print_info (codes "Type 'help' for available commands\n")
          (print_success (codes "BasedOS Shell v2.0\n") (display_banner sys.shell))) in
      Option.map (λ s. new_line (record sys { shell = s })) (default_aliases greeted)

  module _ (inb : Ports → ℕ → ℕ) (fuel buffer : ℕ) where
    -- the end of a round of the outer loop
    unfoldable pub end_round : List ℕ → Outcome (System n) → Outcome Session
    unfolding new_line
    end_round input (halted sys) = halted (record { system = sys; input = input; position = 0 })
    end_round input (done sys) =
        let sys' = on_shell n (λ s. record s { current_history = none }) sys in
        if text_eq input (codes "exit")
        then returned (record { system = sys'; input = input; position = 0 })
        else done (new_line sys')
    end_round input (returned sys) =
        let sys' = on_shell n (λ s. record s { current_history = none }) sys in
        if text_eq input (codes "exit")
        then returned (record { system = sys'; input = input; position = 0 })
        else done (new_line sys')

    -- Enter: the command is run. The result `returned` is the end of start_shell.
    unfoldable pub enter : Session → Option (Outcome Session)
    unfolding end_round execute_command
    enter r =
        let input = take r.position r.input in
        Option.map (end_round input)
          (execute_command n inb fuel buffer input (on_shell n (print (codes "\n")) r.system))

    -- a key that is read
    unfoldable pub key : ℕ → Session → Option (Outcome Session)
    unfolding enter press
    key c r =
        if c == b'\r'
        then enter r
        else Option.map
            (λ l. done (record {
              system = record r.system { shell = l.shell };
              input = l.input;
              position = l.position;
            }))
            (press inb c
              (record { shell = r.system.shell; input = r.input; position = r.position }))

    -- the keys in their order, until the shell ends or halts
    unfoldable pub run_keys : List ℕ → Outcome Session → Option (Outcome Session)
    unfolding key Option.bind
    run_keys [] r = some r
    run_keys (c ∷ keys) (done r) = Option.bind (key c r) (run_keys keys)
    run_keys (c ∷ keys) (returned r) = some (returned r)
    run_keys (c ∷ keys) (halted r) = some (halted r)
