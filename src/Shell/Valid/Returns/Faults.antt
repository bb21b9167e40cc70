-- ===== src/Shell/Valid/Returns/Faults.antt =====
-- The command lines of kernel/shell.c that fault: an alias with a long name, and a division that the
-- processor refuses.
use basedos.Prelude.{
  ℕ, ◌≤◌, ◌<◌, ◌≡◌, ◌⊎◌, refl, sym, arith, ◌==◌, leb, ltb, List, [], ◌∷◌, Option, none, some, true,
  false, length, get_or, Bool-cases, inl, inr,
}
use basedos.Prelude.Text.{codes}
use mathlib.Core.Path.{subst}
use basedos.Str.Num.Read.{value_of}
use basedos.Str.Text.{text_eq, text_eq_iff}
use basedos.Shell.{Shell, Alias, max_input, max_aliases, fits}
use basedos.Shell.Aliases.{resolve, put_alias, add_alias}
use basedos.Shell.Calc.{traps, divide, operate, calculator, quotient, remainder}
use basedos.Shell.Execute.{alias}
use basedos.Shell.Parse.Length.{joined_length}
use basedos.Shell.Parse.Plain.{IsPlain}
use basedos.Shell.Valid.{AliasesFit, if-keeps}
use basedos.Shell.Valid.Returns.{Returns}

-- the words of such a line
pub data Culprit : List (List ℕ) → Type 0 where
  long_name :
      {alias_name command : List ℕ}
      → 32 ≤ length alias_name
      → Culprit (codes "alias" ∷ alias_name ∷ command ∷ [])
  trapped :
      {x operator y : List ℕ}
      → traps (value_of x) (value_of y) ≡ true
      → Culprit (codes "calc" ∷ x ∷ operator ∷ y ∷ [])

put_alias-Returns :
    (old : Option (List ℕ)) (s : Shell) (alias_name command : List ℕ)
    → length command < max_input
    → length alias_name < 32
    → Returns (put_alias old s alias_name command)
unfolding put_alias
put_alias-Returns (some old) s alias_name command c h =
    let inside : fits max_input command ≡ true = ground arith in rw inside (_, refl)
put_alias-Returns none s alias_name command c h =
    let inside : fits max_input command ≡ true = ground arith in
    let named : fits 32 alias_name ≡ true = ground arith in rw (named, inside) (_, refl)

pub add_alias-Returns :
    (s : Shell) (alias_name command : List ℕ)
    → length command < max_input
    → length alias_name < 32
    → Returns (add_alias s alias_name command)
unfolding add_alias
add_alias-Returns s alias_name command c h =
    elim (Bool-cases (leb max_aliases (length s.aliases))) [
      | inl e ↦ rw e (_, refl)
      | inr e ↦ rw e (put_alias-Returns (resolve s.aliases alias_name) s alias_name command c h)
    ]

-- the branch of `alias`
pub alias-Returns :
    (cmd : List ℕ) (args : List (List ℕ)) (s : Shell)
    → joined_length (cmd ∷ args) ≤ max_input
    → text_eq cmd (codes "alias") ≡ true
    → Returns (alias (cmd ∷ args) s) ⊎ Culprit (cmd ∷ args)
unfolding alias joined_length
alias-Returns cmd [] s h e = inl (_, refl)
alias-Returns cmd (alias_name ∷ []) s h e = inl (_, refl)
alias-Returns cmd (alias_name ∷ command ∷ []) s h e =
    elim (Bool-cases (ltb (length alias_name) 32)) [
      | inl f ↦ inl (add_alias-Returns s alias_name command (omega arith) (ground arith))
      | inr f ↦ inr (
          subst (λ w. Culprit (w ∷ alias_name ∷ command ∷ []))
            (sym ((text_eq_iff cmd (codes "alias")).0 e)) (long_name (ground arith)))
    ]
alias-Returns cmd (alias_name ∷ command ∷ more ∷ args) s h e = inl (_, refl)

divide-Returns : (f : ℕ → ℕ → ℕ) (a b : ℕ) → traps a b ≡ false → Returns (divide f a b)
unfolding divide
divide-Returns f a b h = elim (Bool-cases (b == 0)) [
  | inl e ↦ rw e (_, refl)
  | inr e ↦ rw (e, h) (_, refl)
]

operate-Returns : (a op b : ℕ) → traps a b ≡ false → Returns (operate a op b)
unfolding operate
operate-Returns a op b h =
    if-keeps Returns (op == b'+') _ _ (_, refl)
      (if-keeps Returns (op == b'-') _ _ (_, refl)
        (if-keeps Returns (op == b'*') _ _ (_, refl)
          (if-keeps Returns (op == b'/') _ _ (divide-Returns quotient a b h)
            (if-keeps Returns (op == b'%') _ _ (divide-Returns remainder a b h) (_, refl)))))

-- the branch of `calc`
pub calculator-Returns :
    (cmd : List ℕ) (args : List (List ℕ)) (s : Shell)
    → text_eq cmd (codes "calc") ≡ true
    → Returns (calculator (cmd ∷ args) s) ⊎ Culprit (cmd ∷ args)
unfolding calculator
calculator-Returns cmd [] s e = inl (_, refl)
calculator-Returns cmd (_ ∷ []) s e = inl (_, refl)
calculator-Returns cmd (_ ∷ _ ∷ []) s e = inl (_, refl)
calculator-Returns cmd (x ∷ operator ∷ y ∷ []) s e =
    elim (Bool-cases (traps (value_of x) (value_of y))) [
      | inl f ↦ inr (
          subst (λ w. Culprit (w ∷ x ∷ operator ∷ y ∷ []))
            (sym ((text_eq_iff cmd (codes "calc")).0 e)) (trapped f))
      | inr f ↦
          let (r, run) = operate-Returns (value_of x) (get_or operator 0 0) (value_of y) f in
          inl (rw run (_, refl))
    ]
calculator-Returns cmd (_ ∷ _ ∷ _ ∷ _ ∷ _) s e = inl (_, refl)

-- what an alias stands for
pub resolve-fits :
    (aliases : List Alias) (name command : List ℕ)
    → AliasesFit aliases
    → resolve aliases name ≡ some command
    → (length command < max_input) × IsPlain command
unfolding resolve
resolve-fits [] name command f h = absurd (ground arith)
resolve-fits (a ∷ aliases) name command f h = elim (Bool-cases (text_eq a.alias name)) [
  | inl e ↦
      let there : some a.command ≡ some command = rw e at h in
      let same : a.command ≡ command = cc in
      subst (λ c. (length c < max_input) × IsPlain c) same (f.0.1, f.0.2)
  | inr e ↦ resolve-fits aliases name command f.1 (rw e at h)
]

-- one or two words are no such line
pub Culprit-long : (ws : List (List ℕ)) → Culprit ws → 3 ≤ length ws
Culprit-long _ (long_name h) = omega arith
Culprit-long _ (trapped h) = omega arith
