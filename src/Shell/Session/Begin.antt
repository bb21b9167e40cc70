-- ===== src/Shell/Session/Begin.antt =====
-- start_shell of kernel/shell.c comes to its first key.
use basedos.Prelude.{ℕ, ◌≡◌, refl, ap, arith, Option, some}
use mathlib.Core.Option
use mathlib.Core.Path.{subst}
use basedos.Shell.{Shell}
use basedos.Shell.Session.{Session, default_aliases, begin_shell, new_line}
use basedos.Shell.Session.Laws.{IsSession, begin_shell-IsSession}
use basedos.Shell.System.{System}
use basedos.Shell.Valid.{IsValid, OnSome}
use basedos.Shell.Valid.Returns.{Returns, IsStarted}
use basedos.Shell.Valid.Returns.Faults.{add_alias-Returns}
use basedos.Shell.Valid.Returns.Frame.{same_files}

bind-Returns :
    {A B : Type 0}
    → (o : Option A) (f : A → Option B) → Returns o
    → ((x : A) → Returns (f x))
    → Returns (Option.bind o f)
unfolding Option.bind
bind-Returns o f (x, e) h = rw e (h x)

default_aliases-Returns : (s : Shell) → Returns (default_aliases s)
unfolding default_aliases
default_aliases-Returns s =
    bind-Returns _ _ (add_alias-Returns s _ _ (omega arith) (omega arith)) (λ s.
      bind-Returns _ _ (add_alias-Returns s _ _ (omega arith) (omega arith)) (λ s.
        bind-Returns _ _ (add_alias-Returns s _ _ (omega arith) (omega arith)) (λ s.
          bind-Returns _ _ (add_alias-Returns s _ _ (omega arith) (omega arith))
            (λ s. add_alias-Returns s _ _ (omega arith) (omega arith)))))

module _ (n : ℕ) where
  begun :
      (sys : System n)
      → (s : Shell) × (begin_shell n sys ≡ some (new_line n (record sys { shell = s })))
  unfolding begin_shell
  begun sys =
      let (s, e) = default_aliases-Returns _ in
      (s, ap (Option.map (λ s. new_line n (record sys { shell = s }))) e)

  -- With a valid shell and a started file system, start_shell comes to its first key: no alias that it
  -- defines overflows, and the line is empty.
  pub begin_shell-Returns :
      (sys : System n)
      → IsValid sys.shell
      → IsStarted n sys
      → (r : Session n) × (begin_shell n sys ≡ some r) × IsSession n r × IsStarted n r.system
  unfolding new_line
  begin_shell-Returns sys v st =
      let (s, e) = begun sys in
      (
        new_line n (record sys { shell = s }),
        e,
        subst (OnSome (IsSession n)) e (begin_shell-IsSession n sys v),
        same_files n sys _ st refl refl refl,
      )
