-- ===== src/Shell/Valid/Returns/Branches.antt =====
-- The branches of execute_command of kernel/shell.c return, but on the words of a line that faults.
use basedos.Prelude.{
  Option, ◌⊎◌, true, ℕ, suc, ◌≡◌, ◌≤◌, refl, arith, ◌==◌, List, [], ◌∷◌, false, Bool-cases, inl,
  inr,
}
use basedos.Sound.{Ports}
use mathlib.Core.Option
use basedos.Str.Text.{text_eq}
use basedos.Kernel.{Kernel}
use basedos.Kernel.Status.{get_memory_stats}
use basedos.Shell.{Shell, max_input}
use basedos.Shell.Execute.{
  Branch, first_branch, shutdown, reboot, say_uptime, not_implemented, change_dir, branches,
}
use basedos.Shell.Files.{write}
use basedos.Shell.Info.{show_memory_info, usage_percent}
use basedos.Shell.Parse.Length.{joined_length, length-join_words}
use basedos.Shell.System.{done, System}
use basedos.Shell.Valid.Returns.Faults.{Culprit, alias-Returns, calculator-Returns}
use basedos.Shell.Valid.Returns.{
  Returns, IsStarted, cat-Returns, touch-Returns, cd-Returns, ls-Returns, write-Returns,
}

-- the words of a line of the shell
abbrev pub IsShort : List (List ℕ) → Type 0
IsShort args = joined_length args ≤ max_input

-- a branch that returns
abbrev Total : {n : ℕ} → Branch n → Type 0
Total {n} branch =
    (args : List (List ℕ)) (sys : System n)
    → IsStarted n sys
    → IsShort args
    → Returns (branch args sys)

-- Each branch returns under its name, but on the words of a line that faults.
infixr 5 ◌next◌
pub data AllTotal {n : ℕ} (name : List ℕ) (args : List (List ℕ)) (sys : System n)
    : List (List ℕ × Branch n) → Type 0 where
  no_more : AllTotal name args sys []
  ◌next◌ :
      {text : List ℕ} {branch : Branch n} {rest : List (List ℕ × Branch n)}
      → (text_eq name text ≡ true → Returns (branch args sys) ⊎ Culprit args)
      → AllTotal name args sys rest
      → AllTotal name args sys ((text, branch) ∷ rest)

pub first_branch-Returns :
    {n : ℕ}
    → (all : List (List ℕ × Branch n)) (other : Branch n) (name : List ℕ) (args : List (List ℕ))
      (sys : System n)
    → AllTotal name args sys all
    → Returns (other args sys)
    → Returns (first_branch all other name args sys) ⊎ Culprit args
unfolding first_branch
first_branch-Returns [] other name args sys no_more o = inl o
first_branch-Returns ((text, branch) ∷ rest) other name args sys (t next ts) o =
    elim (Bool-cases (text_eq name text)) [
      | inl e ↦ rw e (t e)
      | inr e ↦ rw e (first_branch-Returns rest other name args sys ts o)
    ]

module _ (n : ℕ) (inb : Ports → ℕ → ℕ) (fuel buffer : ℕ) where
  memory-Returns :
      (k : Kernel) (s : Shell) → (k.total_memory == 0) ≡ false → Returns (show_memory_info k s)
  unfolding show_memory_info usage_percent get_memory_stats
  memory-Returns k s h = rw h (_, refl)

  not_implemented-Total :
      (usage message : List ℕ) → Total (not_implemented n inb (suc fuel) buffer usage message)
  unfolding not_implemented
  not_implemented-Total usage message [] sys st h = (_, refl)
  not_implemented-Total usage message (cmd ∷ []) sys st h = (_, refl)
  not_implemented-Total usage message (cmd ∷ name ∷ args) sys st h = (_, refl)

  change_dir-Total : Total (change_dir n inb (suc fuel) buffer)
  unfolding change_dir
  change_dir-Total [] sys st h = cd-Returns n _ sys st
  change_dir-Total (cmd ∷ []) sys st h = cd-Returns n _ sys st
  change_dir-Total (cmd ∷ path ∷ args) sys st h = cd-Returns n path sys st

  write-Total : Total (write n buffer)
  unfolding joined_length write
  write-Total [] sys st h = (_, refl)
  write-Total (cmd ∷ []) sys st h = (_, refl)
  write-Total (cmd ∷ name ∷ ws) sys st h =
      write-Returns n buffer cmd name ws sys st (omega (arith, length-join_words ws))

  shutdown-Total : Total (shutdown n inb (suc fuel) buffer)
  unfolding shutdown
  shutdown-Total args sys st h = (_, refl)

  reboot-Total : Total (reboot n inb (suc fuel) buffer)
  unfolding reboot
  reboot-Total args sys st h = (_, refl)

  say_uptime-Total : Total (say_uptime n inb (suc fuel) buffer)
  unfolding say_uptime
  say_uptime-Total args sys st h = (_, refl)

  in_shell-Returns :
      (o : Option Shell) (sys : System n) (args : List (List ℕ))
      → Returns o ⊎ Culprit args
      → Returns (Option.map (λ s. done (record sys { shell = s })) o) ⊎ Culprit args
  in_shell-Returns o sys args (inl (s, e)) = inl (rw e (_, refl))
  in_shell-Returns o sys args (inr c) = inr c

  pub branches-AllTotal :
      (name : List ℕ) (words : List (List ℕ)) (sys : System n)
      → IsStarted n sys
      → IsShort (name ∷ words)
      → AllTotal name (name ∷ words) sys (branches n inb (suc fuel) buffer)
  branches-AllTotal name words sys st h =
      let args = name ∷ words in
      (λ e. inl (_, refl))
      next (λ e. inl (_, refl))
      next (λ e. inl (_, refl))
      next (λ e. inl (_, refl))
      next (λ e. inl (shutdown-Total args sys st h))
      next (λ e. inl (reboot-Total args sys st h))
      next (λ e. inl (_, refl))
      next (λ e. inl (change_dir-Total args sys st h))
      next (λ e. inl (_, refl))
      next (λ e. in_shell-Returns _ sys args (inl (memory-Returns sys.kernel sys.shell st.memory)))
      next (λ e. inl (say_uptime-Total args sys st h))
      next (λ e. inl (ls-Returns n fuel sys st))
      next (λ e. inl (cat-Returns n fuel buffer args sys st))
      next (λ e. inl (not_implemented-Total _ _ args sys st h))
      next (λ e. inl (touch-Returns n args sys st))
      next (λ e. inl (not_implemented-Total _ _ args sys st h))
      next (λ e. inl (write-Total args sys st h))
      next (λ e. inl (say_uptime-Total args sys st h))
      next (λ e. inl (_, refl))
      next (λ e. in_shell-Returns _ sys args (alias-Returns name words sys.shell h e))
      next (λ e. inl (_, refl))
      next (λ e. inl (_, refl))
      next (λ e. inl (_, refl))
      next (λ e. in_shell-Returns _ sys args (calculator-Returns name words sys.shell e))
      next (λ e. inl (_, refl))
      next no_more
