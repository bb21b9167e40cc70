-- ===== src/Shell/Valid/Commands/Branches.antt =====
-- What the branches of execute_command of kernel/shell.c keep, the one that is chosen keeps.
use basedos.Prelude.{ℕ, List, [], ◌∷◌}
use basedos.Str.Text.{text_eq}
use basedos.Shell.Execute.{Branch, first_branch}
use basedos.Shell.Parse.Plain.{AllPlain}
use basedos.Shell.System.{System}
use basedos.Shell.Valid.{OnSome, if-keeps}
use basedos.Shell.Valid.Commands.Files.{Has}

module _ {n : ℕ} (P : System n → Type 0) where
  -- a branch that keeps what the system has, on words
  abbrev pub Keeps : Branch n → Type 0
  Keeps branch =
      (args : List (List ℕ)) (sys : System n)
      → AllPlain args
      → P sys
      → OnSome (Has P) (branch args sys)

  infixr 5 ◌also◌
  pub data AllKeep : List (List ℕ × Branch n) → Type 0 where
    none_left : AllKeep []
    ◌also◌ :
        {name : List ℕ} {branch : Branch n} {rest : List (List ℕ × Branch n)}
        → Keeps branch
        → AllKeep rest
        → AllKeep ((name, branch) ∷ rest)

  pub first_branch-Keeps :
      (all : List (List ℕ × Branch n)) (other : Branch n) (name : List ℕ)
      → AllKeep all
      → Keeps other
      → Keeps (first_branch all other name)
  unfolding first_branch
  first_branch-Keeps [] other name none_left o args sys p v = o args sys p v
  first_branch-Keeps ((text, branch) ∷ rest) other name (k also ks) o args sys p v =
      if-keeps (λ (b : Branch n). OnSome (Has P) (b args sys)) (text_eq name text) _ _
        (k args sys p v) (first_branch-Keeps rest other name ks o args sys p v)
