-- ===== src/Shell/Edit/Tab.antt =====
-- What Tab completes in the line editor of kernel/shell.c.
use basedos.Prelude.{
  ℕ, ◌≡◌, refl, ◌∙◌, ap, arith, ◌==◌, ◌&&◌, if◌then◌else◌, Bool, true, false, List, [], ◌∷◌, ◌++◌,
  Option, none, some, length, take, drop, ltb, Bool-cases, inl, inr,
}
use basedos.Sound.{Ports}
use basedos.Shell.{print, fits, max_input}
use basedos.Shell.Edit.{Line, same_front, commands, complete, press}

-- whether a name starts with a text
unfoldable pub starts_with : List ℕ → List ℕ → Bool
starts_with [] name = true
starts_with (c ∷ text) [] = false
starts_with (c ∷ text) (d ∷ name) = (c == d) && starts_with text name

-- the first name that starts with a text
unfoldable pub first_match : List ℕ → List (List ℕ) → Option (List ℕ)
first_match text [] = none
first_match text (name ∷ names) =
    if starts_with text name then some name else first_match text names

same_front-starts_with :
    (text name : List ℕ) → same_front (length text) text name ≡ starts_with text name
unfolding same_front starts_with
same_front-starts_with [] name = refl
same_front-starts_with (c ∷ text) [] = refl
same_front-starts_with (c ∷ text) (d ∷ name) =
    ap (λ b. (c == d) && b) (same_front-starts_with text name)

joined :
    (text name : List ℕ)
    → starts_with text name ≡ true
    → take (length text) text ++ drop (length text) name ≡ name
unfolding starts_with
joined [] name h = refl
joined (c ∷ text) [] h = absurd (ground arith)
joined (c ∷ text) (d ∷ name) h = ground (arith, joined text name)

-- every name fits into the line
abbrev NamesFit : List (List ℕ) → Type 0
NamesFit [] = Unit {0}
NamesFit (name ∷ names) = (fits max_input name ≡ true) × NamesFit names

-- the line with its command completed
abbrev pub completed : Line → Option (List ℕ) → Line
completed l none = l
completed l (some name) = record {
  shell = print (drop (length l.input) name) l.shell;
  input = name;
  position = length name;
}

complete-first_match :
    (names : List (List ℕ)) (l : Line)
    → l.position ≡ length l.input
    → NamesFit names
    → complete names l ≡ some (completed l (first_match l.input names))
unfolding complete first_match
complete-first_match [] l at f = refl
complete-first_match (name ∷ names) l at f = elim (Bool-cases (starts_with l.input name)) [
  | inl e ↦
      let same = same_front-starts_with l.input name in
      rw (at, same, e, joined l.input name e, f.0) refl
  | inr e ↦
      let other =
        ap (λ p. same_front p l.input name) at ∙ same_front-starts_with l.input name ∙ e in
      rw (other, e) (complete-first_match names l at f.1)
]

-- Tab, with the cursor at the end of the line, leaves an empty line. It replaces any other line with
-- the first command that starts with it, and prints the bytes that are missing; when none does, it
-- leaves the line.
pub press-first_match :
    (inb : Ports → ℕ → ℕ) (l : Line)
    → l.position ≡ length l.input
    → press inb 9 l
      ≡ some (if l.position == 0 then l else completed l (first_match l.input commands))
unfolding press
press-first_match inb l at =
    let found = complete-first_match commands l at (ground arith) in
    elim (Bool-cases (l.position == 0)) [
      | inl e ↦ let empty : ltb 0 l.position ≡ false = ground arith in rw (e, empty) refl
      | inr e ↦ let some_text : ltb 0 l.position ≡ true = ground arith in rw (e, some_text) found
    ]
