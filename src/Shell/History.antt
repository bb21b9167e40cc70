-- ===== src/Shell/History.antt =====
-- The command history of kernel/shell.c.
pub mod Log
use basedos.Prelude.{
  ℕ, zero, suc, ◌+◌, ◌-◌, ◌%◌, ltb, if◌then◌else◌, ◌&&◌, List, [], ◌∷◌, ◌++◌, Option, none, some,
  get_or, set,
}
use basedos.Prelude.Text.{codes}
use basedos.Str.Text.{text_eq}
use basedos.Str.Num.Print.{numeral}
use basedos.Shell.{Shell, max_input, history_size, fits, print, print_info}

-- an entry of the array
abbrev pub entry : Shell → ℕ → List ℕ
entry s i = get_or s.history i []

unfoldable pub add_to_history : Shell → List ℕ → Option Shell
add_to_history s [] = some s
add_to_history s (c ∷ cmd) =
    if ltb 0 s.history_pos && text_eq (entry s (s.history_pos - 1)) (c ∷ cmd)
    then some s
    else if fits max_input (c ∷ cmd)
    then some (record s {
      history = set s.history s.history_pos (c ∷ cmd);
      history_pos = (s.history_pos + 1) % history_size;
    })
    else none

-- ` number: text`, for an entry that is not empty
unfoldable pub show_entry : ℕ → List ℕ → Shell → Shell
show_entry number [] s = s
show_entry number (c ∷ text) s =
    print (codes " " ++ (numeral 10 number ++ (codes ": " ++ ((c ∷ text) ++ codes "\n")))) s

-- the loop of show_history, with `k` rounds left from `i` on
unfoldable pub show_entries : ℕ → ℕ → Shell → Shell
unfolding show_entry
show_entries zero i s = s
show_entries (suc k) i s =
    show_entries k (suc i) (show_entry (i + 1) (entry s ((s.history_pos + i) % history_size)) s)

unfoldable pub show_history : Shell → Shell
show_history s = show_entries history_size 0 (print_info (codes "Command history:\n") s)
