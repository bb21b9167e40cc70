-- ===== src/Shell/Valid/Commands.antt =====
-- The commands of kernel/shell.c keep the invariant of its variables.
pub mod Branches
pub mod Files
pub mod Execute
use basedos.Prelude.{
  ℕ, zero, suc, ◌+◌, ◌-◌, ◌≤◌, ◌<◌, ◌≡◌, refl, arith, ◌==◌, ltb, leb, if◌then◌else◌, Bool, List, [],
  ◌∷◌, Option, none, some, length, take, length-take, true, false,
}
use basedos.Prelude.Text.{codes}
use mathlib.Core.Option
use basedos.Kernel.{Kernel}
use basedos.Str.Text.{text_eq}
use basedos.Terminal.Cursor.{same_cursor}
use basedos.Shell.{Shell, Alias, print, print_all, print_info, history_size}
use basedos.Shell.Aliases.{list_entries, list_aliases}
use basedos.Shell.Calc.{
  Result, value, division_by_zero, unknown_operator, answer, operate, calculator,
}
use basedos.Shell.History.{entry, show_entry, show_entries, show_history}
use basedos.Shell.Info.{
  show_system_info, show_usage, show_memory_info, display_banner, echo_words, echo_test,
  usage_percent,
}
use basedos.Shell.Settings.{show_settings, change_setting, set}
use basedos.Shell.Valid.{
  IsValid, OnSome, on_term, if-keeps, print-IsValid, print_all-IsValid, print_error-IsValid,
  print_success-IsValid, print_info-IsValid, print_warning-IsValid,
}

module _ {A B : Type 0} (P : A → Type 0) where
  pub map-OnSome : (o : Option B) (f : B → A) → ((x : B) → P (f x)) → OnSome P (Option.map f o)
  map-OnSome none f h = tt
  map-OnSome (some x) f h = h x

  pub bind-each :
      (o : Option B) (f : B → Option A) → ((x : B) → OnSome P (f x)) → OnSome P (Option.bind o f)
  unfolding Option.bind
  bind-each none f h = tt
  bind-each (some x) f h = h x

  pub map-kept :
      {Q : B → Type 0}
      → (o : Option B) (f : B → A) → OnSome Q o
      → ((x : B) → Q x → P (f x))
      → OnSome P (Option.map f o)
  map-kept none f q h = tt
  map-kept (some x) f q h = h x q

  pub bind-OnSome :
      {Q : B → Type 0}
      → (o : Option B) (f : B → Option A) → OnSome Q o
      → ((x : B) → Q x → OnSome P (f x))
      → OnSome P (Option.bind o f)
  unfolding Option.bind
  bind-OnSome none f q h = tt
  bind-OnSome (some x) f q h = h x q

-- a valid shell with other settings
pub settings-IsValid :
    (s : Shell) (echo debug color : Bool) (code : ℕ)
    → IsValid s
    → IsValid (record s {
      echo_enabled = echo;
      debug_mode = debug;
      color_enabled = color;
      last_exit_code = code;
    })
settings-IsValid s echo debug color code v = record {
  screen = v.screen;
  log = v.log;
  room = v.room;
  aliases = v.aliases;
  directory = v.directory;
}

list_entries-IsValid :
    (aliases : List Alias) (s : Shell) → IsValid s → IsValid (list_entries aliases s)
unfolding list_entries
list_entries-IsValid [] s v = v
list_entries-IsValid (a ∷ aliases) s v = list_entries-IsValid aliases _ (print-IsValid _ s v)

pub list_aliases-IsValid : (s : Shell) → IsValid s → IsValid (list_aliases s)
unfolding list_aliases
list_aliases-IsValid s v = none_or_some s.aliases
  where
    none_or_some :
        (aliases : List Alias)
        → IsValid (elim aliases [
          | [] ↦ print_info (codes "No aliases defined\n") s
          | a ∷ rest ↦ list_entries (a ∷ rest) (print_info (codes "Defined aliases:\n") s)
        ])
    none_or_some [] = print_info-IsValid _ s v
    none_or_some (a ∷ rest) = list_entries-IsValid (a ∷ rest) _ (print_info-IsValid _ s v)

show_entry-IsValid :
    (number : ℕ) (text : List ℕ) (s : Shell) → IsValid s → IsValid (show_entry number text s)
unfolding show_entry
show_entry-IsValid number [] s v = v
show_entry-IsValid number (c ∷ text) s v = print-IsValid _ s v

show_entries-IsValid : (k i : ℕ) (s : Shell) → IsValid s → IsValid (show_entries k i s)
unfolding show_entries
show_entries-IsValid zero i s v = v
show_entries-IsValid (suc k) i s v =
    show_entries-IsValid k (suc i) _ (show_entry-IsValid (i + 1) _ s v)

pub show_history-IsValid : (s : Shell) → IsValid s → IsValid (show_history s)
unfolding show_history
show_history-IsValid s v = show_entries-IsValid history_size 0 _ (print_info-IsValid _ s v)

answer-IsValid : (a op b : ℕ) (s : Shell) (r : Result) → IsValid s → IsValid (answer a op b s r)
unfolding answer
answer-IsValid a op b s (value result) v = print_all-IsValid _ s v
answer-IsValid a op b s division_by_zero v = print_error-IsValid _ s v
answer-IsValid a op b s unknown_operator v = print_error-IsValid _ s v

pub calculator-IsValid :
    (args : List (List ℕ)) (s : Shell) → IsValid s → OnSome IsValid (calculator args s)
unfolding calculator
calculator-IsValid [] s v = print_all-IsValid _ s v
calculator-IsValid (_ ∷ []) s v = print_all-IsValid _ s v
calculator-IsValid (_ ∷ _ ∷ []) s v = print_all-IsValid _ s v
calculator-IsValid (_ ∷ _ ∷ _ ∷ []) s v = print_all-IsValid _ s v
calculator-IsValid (name ∷ x ∷ operator ∷ y ∷ []) s v =
    map-OnSome IsValid _ _ (λ r. answer-IsValid _ _ _ s r v)
calculator-IsValid (_ ∷ _ ∷ _ ∷ _ ∷ _ ∷ _) s v = print_all-IsValid _ s v

pub show_system_info-IsValid : (k : Kernel) (s : Shell) → IsValid s → IsValid (show_system_info k s)
unfolding show_system_info
show_system_info-IsValid k s v =
    print_all-IsValid _ _ (print_info-IsValid _ _ (print_info-IsValid _ s v))

show_usage-IsValid :
    (used percent : ℕ) (s : Shell) → IsValid s → IsValid (show_usage used percent s)
unfolding show_usage
show_usage-IsValid used percent s v =
    if-keeps IsValid _ _ _ (print_warning-IsValid _ _ (print_all-IsValid _ s v))
      (print_all-IsValid _ s v)

pub show_memory_info-IsValid :
    (k : Kernel) (s : Shell) → IsValid s → OnSome IsValid (show_memory_info k s)
unfolding show_memory_info
show_memory_info-IsValid k s v = map-OnSome IsValid _ _ (λ percent.
    show_usage-IsValid _ percent _
      (print_all-IsValid _ _ (print_info-IsValid _ _ (print_info-IsValid _ s v))))

pub display_banner-IsValid : (s : Shell) → IsValid s → IsValid (display_banner s)
unfolding display_banner
display_banner-IsValid s v = print-IsValid _ _ (
    print_info-IsValid _ _ (
      print_info-IsValid _ _
        (print_info-IsValid _ _ (print_info-IsValid _ _ (print_info-IsValid _ s v)))))

echo_words-IsValid : (args : List (List ℕ)) (s : Shell) → IsValid s → IsValid (echo_words args s)
unfolding echo_words
echo_words-IsValid [] s v = v
echo_words-IsValid (word ∷ []) s v = print-IsValid word s v
echo_words-IsValid (word ∷ next ∷ words) s v =
    echo_words-IsValid (next ∷ words) _ (print-IsValid _ _ (print-IsValid word s v))

pub echo_test-IsValid : (args : List (List ℕ)) (s : Shell) → IsValid s → IsValid (echo_test args s)
unfolding echo_test
echo_test-IsValid [] s v = print-IsValid _ s v
echo_test-IsValid (name ∷ []) s v = print-IsValid _ s v
echo_test-IsValid (name ∷ word ∷ words) s v =
    print-IsValid _ _ (echo_words-IsValid (word ∷ words) s v)

change_setting-IsValid :
    (name state : List ℕ) (s : Shell) → IsValid s → IsValid (change_setting name state s)
unfolding change_setting
change_setting-IsValid name state s v =
    let on = text_eq state (codes "on") in
    if-keeps IsValid (text_eq name (codes "debug")) _ _
      (print_success-IsValid _ _
        (settings-IsValid s s.echo_enabled on s.color_enabled s.last_exit_code v))
      (if-keeps IsValid (text_eq name (codes "color")) _ _
        (print_success-IsValid _ _
          (settings-IsValid s s.echo_enabled s.debug_mode on s.last_exit_code v))
        (if-keeps IsValid (text_eq name (codes "echo")) _ _
          (print_success-IsValid _ _
            (settings-IsValid s on s.debug_mode s.color_enabled s.last_exit_code v))
          (print_error-IsValid _ s v)))

pub set-IsValid : (args : List (List ℕ)) (s : Shell) → IsValid s → IsValid (set args s)
unfolding set show_settings
set-IsValid [] s v = print-IsValid _ s v
set-IsValid (cmd ∷ []) s v = print_all-IsValid _ s v
set-IsValid (cmd ∷ name ∷ []) s v = print-IsValid _ s v
set-IsValid (cmd ∷ name ∷ state ∷ []) s v = change_setting-IsValid name state s v
set-IsValid (cmd ∷ name ∷ state ∷ more ∷ args) s v = print-IsValid _ s v
