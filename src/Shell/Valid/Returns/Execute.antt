-- ===== src/Shell/Valid/Returns/Execute.antt =====
-- execute_command of kernel/shell.c returns.
use basedos.Prelude.{
  Option-cases, ◌⊎◌, ℕ, suc, ◌≡◌, ◌<◌, refl, arith, List, [], ◌∷◌, some, length, inl, inr,
}
use mathlib.Core.Path.{subst}
use basedos.Sound.{Ports}
use basedos.Shell.{max_input}
use basedos.Shell.Aliases.{resolve_alias, resolve}
use basedos.Shell.Execute.{run_file, branches, dispatch, parsed, run_words, execute_command}
use basedos.Shell.Parse.Length.{words-Short}
use basedos.Shell.System.{Outcome, System}
use basedos.Shell.Valid.{IsValid, OnSome, add_to_history-IsValid}
use basedos.Shell.Valid.Commands.Files.{Has, IsReady}
use basedos.Shell.Valid.Commands.Execute.{execute_command-IsValid}
use basedos.Shell.Parse.Plain.{blanks}
use basedos.Shell.Valid.Returns.Faults.{Culprit, resolve-fits, Culprit-long}
use basedos.Shell.Valid.Returns.{Returns, IsStarted, run_file-Returns}
use basedos.Shell.Valid.Returns.Branches.{IsShort, first_branch-Returns, branches-AllTotal}

module _ (n : ℕ) (inb : Ports → ℕ → ℕ) (fuel buffer : ℕ) where
  dispatch-Returns :
      (name : List ℕ) (args : List (List ℕ)) (sys : System n)
      → IsStarted n sys
      → IsShort (name ∷ args)
      → Returns (dispatch n inb (suc fuel) buffer (name ∷ args) sys) ⊎ Culprit (name ∷ args)
  unfolding dispatch
  dispatch-Returns name args sys st h =
      let ready = record sys { shell = record sys.shell { last_exit_code = 0 } } in
      let started : IsStarted n ready = record {
        bare = st.bare;
        table = st.table;
        memory = st.memory;
      } in
      elim (first_branch-Returns (branches n inb (suc fuel) buffer)
        (run_file n inb (suc fuel) buffer) name (name ∷ args) ready
        (branches-AllTotal n inb fuel buffer name args ready started h)
        (run_file-Returns n inb (suc fuel) buffer name args ready started)) [
          | inl (o, run) ↦ inl (rw run (_, refl))
          | inr c ↦ inr c
        ]

  -- the command that an alias stands for
  resolved-Returns :
      (ws : List (List ℕ)) (sys : System n)
      → IsStarted n sys
      → IsShort ws
      → 0 < length ws
      → length ws < 3
      → Returns (dispatch n inb (suc fuel) buffer ws sys)
  resolved-Returns [] sys st h some_word few = absurd (omega arith)
  resolved-Returns (name ∷ args) sys st h some_word few =
      elim (dispatch-Returns name args sys st h) [
        | inl r ↦ r
        | inr c ↦ absurd (omega (arith, Culprit-long (name ∷ args) c, few))
      ]

  run_words-Returns :
      (args : List (List ℕ)) (sys : System n)
      → IsStarted n sys
      → IsValid sys.shell
      → IsShort args
      → Returns (run_words n inb (suc fuel) buffer args sys) ⊎ Culprit args
  unfolding run_words resolve_alias
  run_words-Returns [] sys st v h = inl (_, refl)
  run_words-Returns (name ∷ args) sys st v h =
      elim (Option-cases (resolve sys.shell.aliases name)) [
        | inl e ↦ rw e (dispatch-Returns name args sys st h)
        | inr (cmd, e) ↦
            let (size, plain) = resolve-fits sys.shell.aliases name cmd v.aliases e in
            let short : IsShort (parsed n inb (suc fuel) buffer cmd) =
              omega (arith, words-Short 15 blanks cmd, size) in
            rw e (
              inl (
                resolved-Returns (parsed n inb (suc fuel) buffer cmd) sys st short plain.0 plain.1))
      ]

  run-Returns :
      (input : List ℕ) (sys : System n)
      → IsStarted n sys
      → IsValid sys.shell
      → length input < max_input
      → Returns (execute_command n inb (suc fuel) buffer input sys)
        ⊎ Culprit (parsed n inb (suc fuel) buffer input)
  unfolding execute_command
  run-Returns [] sys st v h = inl (_, refl)
  run-Returns (c ∷ input) sys st v h =
      let (s, logged, w) = add_to_history-IsValid sys.shell (c ∷ input) v h in
      let short : IsShort (parsed n inb (suc fuel) buffer (c ∷ input)) =
        omega (arith, words-Short 15 blanks (c ∷ input), h) in
      rw logged (
        run_words-Returns (parsed n inb (suc fuel) buffer (c ∷ input)) (record sys { shell = s })
          (record { bare = st.bare; table = st.table; memory = st.memory }) w short)

  -- While the root is the one that vfs_initialize makes, the table of descriptors is whole, the size of
  -- the memory is not 0 and the shell is valid, every command line that fits into the array of the
  -- shell is run to an end: no string is written past its array, no loop goes on, and the shell is
  -- valid again. The exceptions are the lines `alias name command` with a name of 32 bytes or
  -- more, and `calc a op b` with -2147483648 and -1. The fuel of ls and cat is at least 1.
  pub execute_command-Returns :
      (input : List ℕ) (sys : System n)
      → IsStarted n sys
      → IsValid sys.shell
      → length input < max_input
      → ((o : Outcome (System n)) × (execute_command n inb (suc fuel) buffer input sys ≡ some o)
          × Has (IsReady n) o)
        ⊎ Culprit (parsed n inb (suc fuel) buffer input)
  execute_command-Returns input sys st v h = elim (run-Returns input sys st v h) [
    | inl (o, run) ↦ inl (
      o,
      run,
      subst (OnSome (Has (IsReady n))) run
          (execute_command-IsValid n inb (suc fuel) buffer input sys v h),
    )
    | inr c ↦ inr c
  ]
