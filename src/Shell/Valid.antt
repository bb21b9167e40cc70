-- ===== src/Shell/Valid.antt =====
-- The invariant of the variables of kernel/shell.c, and what keeps it.
pub mod Commands
pub mod Returns
use basedos.Prelude.{
  ℕ, zero, suc, ◌+◌, ◌-◌, ◌%◌, ◌≤◌, ◌<◌, ◌≡◌, refl, ◌∙◌, arith, ltb, leb, if◌then◌else◌, Bool, ◌&&◌,
  List, [], ◌∷◌, ◌++◌, Option, none, some, length, set, length-set, length-append, get_or, take,
  Bool-cases, Option-cases, inl, inr, true, false,
}
use basedos.Prelude.Text.{codes}
use basedos.Terminal.{Terminal, putchar, terminal_writestring, terminal_setcolor}
use basedos.Terminal
use basedos.Terminal.Cursor.{terminal_writestring-IsValid, terminal_setcolor-IsValid}
use basedos.Shell.{
  Shell, Alias, max_input, history_size, max_aliases, fits, print, print_all, print_color,
  print_error, print_success, print_info, print_warning,
}
use basedos.Shell.Aliases.{resolve, update, put_alias, add_alias}
use basedos.Shell.Aliases.Laws.{length-update}
use basedos.Shell.Parse.Plain.{IsPlain}
use basedos.Shell.History.{entry, add_to_history}
use basedos.Str.Text.{text_eq}

-- Every entry fits into its row of the array.
abbrev pub AllFit : List (List ℕ) → Type 0
AllFit [] = Unit {0}
AllFit (e ∷ entries) = (length e < max_input) × AllFit entries

abbrev pub AliasesFit : List Alias → Type 0
AliasesFit [] = Unit {0}
AliasesFit (a ∷ aliases) =
    ((length a.alias < 32) × (length a.command < max_input) × IsPlain a.command)
    × AliasesFit aliases

-- The array has its ten entries, and its indices are inside.
pub record HasHistory (history : List (List ℕ)) (pos : ℕ) (current : Option ℕ) : Type 0 where
  pub size : length history ≡ history_size
  pub entries : AllFit history
  pub inside : pos < history_size
  pub recalled : (i : ℕ) → current ≡ some i → i < history_size

-- The cursor is on the screen, and every text has room for its terminator in its array.
pub record IsValid (s : Shell) : Type 0 where
  pub screen : Terminal.IsValid s.term
  pub log : HasHistory s.history s.history_pos s.current_history
  pub room : length s.aliases ≤ max_aliases
  pub aliases : AliasesFit s.aliases
  pub directory : length s.current_directory < 64

-- what both branches have, the test has
pub if-keeps :
    {A : Type 0} → (P : A → Type 0) → (b : Bool) → (x y : A) → P x → P y → P (if b then x else y)
if-keeps P true x y p q = p
if-keeps P false x y p q = q

-- a valid shell with another terminal
pub on_term :
    (s : Shell) (t : Terminal) → IsValid s → Terminal.IsValid t → IsValid (record s { term = t })
on_term s t v w = record {
  screen = w;
  log = v.log;
  room = v.room;
  aliases = v.aliases;
  directory = v.directory;
}

pub print-IsValid : (text : List ℕ) (s : Shell) → IsValid s → IsValid (print text s)
unfolding print
print-IsValid text s v =
    on_term s (terminal_writestring s.term text) v
      (terminal_writestring-IsValid s.term text v.screen)

pub print_all-IsValid :
    (texts : List (List ℕ)) (s : Shell) → IsValid s → IsValid (print_all texts s)
unfolding print_all
print_all-IsValid [] s v = v
print_all-IsValid (text ∷ texts) s v =
    print_all-IsValid texts (print text s) (print-IsValid text s v)

pub print_color-IsValid :
    (color : ℕ) (text : List ℕ) (s : Shell) → IsValid s → IsValid (print_color color text s)
unfolding print_color
print_color-IsValid color text s v =
    if-keeps IsValid s.color_enabled _ _
      (on_term s _ v (
        terminal_setcolor-IsValid 15 0 _ (
          terminal_writestring-IsValid _ text (terminal_setcolor-IsValid color 0 s.term v.screen))))
      (on_term s _ v (terminal_writestring-IsValid s.term text v.screen))

pub print_error-IsValid : (text : List ℕ) (s : Shell) → IsValid s → IsValid (print_error text s)
unfolding print_error
print_error-IsValid = print_color-IsValid 12

pub print_success-IsValid : (text : List ℕ) (s : Shell) → IsValid s → IsValid (print_success text s)
unfolding print_success
print_success-IsValid = print_color-IsValid 10

pub print_info-IsValid : (text : List ℕ) (s : Shell) → IsValid s → IsValid (print_info text s)
unfolding print_info
print_info-IsValid = print_color-IsValid 11

pub print_warning-IsValid : (text : List ℕ) (s : Shell) → IsValid s → IsValid (print_warning text s)
unfolding print_warning
print_warning-IsValid = print_color-IsValid 14

pub get_or-fits :
    (entries : List (List ℕ)) (i : ℕ) → AllFit entries → length (get_or entries i []) < max_input
get_or-fits [] i a = omega arith
get_or-fits (e ∷ entries) zero a = a.0
get_or-fits (e ∷ entries) (suc i) a = get_or-fits entries i a.1

set-AllFit :
    (entries : List (List ℕ)) (i : ℕ) (text : List ℕ)
    → AllFit entries
    → length text < max_input
    → AllFit (set entries i text)
set-AllFit [] i text a h = tt
set-AllFit (e ∷ entries) zero text a h = (h, a.1)
set-AllFit (e ∷ entries) (suc i) text a h = (a.0, set-AllFit entries i text a.1 h)

-- add_to_history of a line that fits returns, and keeps the invariant.
pub add_to_history-IsValid :
    (s : Shell) (cmd : List ℕ)
    → IsValid s
    → length cmd < max_input
    → (s' : Shell) × (add_to_history s cmd ≡ some s') × IsValid s'
unfolding add_to_history
add_to_history-IsValid s [] v h = (s, refl, v)
add_to_history-IsValid s (c ∷ cmd) v h =
    let room : fits max_input (c ∷ cmd) ≡ true = ground arith in
    elim (Bool-cases (ltb 0 s.history_pos && text_eq (entry s (s.history_pos - 1)) (c ∷ cmd))) [
      | inl e ↦ rw e (s, refl, v)
      | inr e ↦
          rw (e, room)
            (
              _,
              refl,
              record {
                screen = v.screen;
                log = record {
                  size = length-set s.history s.history_pos (c ∷ cmd) ∙ v.log.size;
                  entries = set-AllFit s.history s.history_pos (c ∷ cmd) v.log.entries h;
                  inside = omega arith;
                  recalled = v.log.recalled;
                };
                room = v.room;
                aliases = v.aliases;
                directory = v.directory;
              },
            )
    ]

update-AliasesFit :
    (aliases : List Alias) (alias_name command : List ℕ)
    → AliasesFit aliases
    → length command < max_input
    → IsPlain command
    → AliasesFit (update aliases alias_name command)
unfolding update
update-AliasesFit [] alias_name command f h p = tt
update-AliasesFit (a ∷ aliases) alias_name command f h p =
    if-keeps AliasesFit (text_eq a.alias alias_name) _ _ ((f.0.0, h, p), f.1)
      (f.0, update-AliasesFit aliases alias_name command f.1 h p)

append-AliasesFit :
    (aliases : List Alias) (a : Alias)
    → AliasesFit aliases
    → length a.alias < 32
    → length a.command < max_input
    → IsPlain a.command
    → AliasesFit (aliases ++ a ∷ [])
append-AliasesFit [] a f h k p = ((h, k, p), tt)
append-AliasesFit (b ∷ aliases) a f h k p = (f.0, append-AliasesFit aliases a f.1 h k p)

-- what is there, if anything, is as it should be
abbrev pub OnSome : {A : Type 0} → (A → Type 0) → Option A → Type 0
OnSome P none = Unit {0}
OnSome P (some x) = P x

put_alias-IsValid :
    (old : Option (List ℕ)) (s : Shell) (alias_name command : List ℕ)
    → IsValid s
    → length s.aliases < max_aliases
    → IsPlain command
    → OnSome IsValid (put_alias old s alias_name command)
unfolding put_alias
put_alias-IsValid (some old) s alias_name command v less p =
    elim (Bool-cases (fits max_input command)) [
      | inl e ↦ rw e (
          print_success-IsValid _ _ (record {
            screen = v.screen;
            log = v.log;
            room = omega (arith, less, length-update s.aliases alias_name command);
            aliases = update-AliasesFit s.aliases alias_name command v.aliases (ground arith) p;
            directory = v.directory;
          }))
      | inr e ↦ rw e tt
    ]
put_alias-IsValid none s alias_name command v less p =
    elim (Bool-cases (fits 32 alias_name && fits max_input command)) [
      | inl e ↦ rw e (
          print_success-IsValid _ _ (record {
            screen = v.screen;
            log = v.log;
            room = omega (
              arith,
              less,
              length-append s.aliases (record { alias = alias_name; command = command } ∷ []),
            );
            aliases = append-AliasesFit s.aliases _ v.aliases (ground arith) (ground arith) p;
            directory = v.directory;
          }))
      | inr e ↦ rw e tt
    ]

-- add_alias of a command of one or two words, when it writes inside its arrays, keeps the invariant.
pub add_alias-IsValid :
    (s : Shell) (alias_name command : List ℕ)
    → IsValid s
    → IsPlain command
    → OnSome IsValid (add_alias s alias_name command)
unfolding add_alias
add_alias-IsValid s alias_name command v p =
    elim (Bool-cases (leb max_aliases (length s.aliases))) [
      | inl e ↦ rw e (print_error-IsValid _ s v)
      | inr e ↦
          rw e (
            put_alias-IsValid (resolve s.aliases alias_name) s alias_name command v (ground arith)
              p)
    ]
