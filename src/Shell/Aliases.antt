-- ===== src/Shell/Aliases.antt =====
-- The aliases of kernel/shell.c.
pub mod Laws
use basedos.Prelude.{ℕ, leb, if◌then◌else◌, ◌&&◌, List, [], ◌∷◌, ◌++◌, Option, none, some, length}
use basedos.Prelude.Text.{codes}
use mathlib.Core.Option
use basedos.Str.Text.{text_eq}
use basedos.Shell.{
  Shell, Alias, max_input, max_aliases, fits, print, print_error, print_success, print_info,
}

-- the loop of resolve_alias: the command of the first alias of that name
unfoldable pub resolve : List Alias → List ℕ → Option (List ℕ)
resolve [] cmd = none
resolve (a ∷ aliases) cmd = if text_eq a.alias cmd then some a.command else resolve aliases cmd

-- resolve_alias; `none` is `cmd` itself
unfoldable pub resolve_alias : Shell → List ℕ → Option (List ℕ)
unfolding resolve
resolve_alias s cmd = resolve s.aliases cmd

-- the loop of add_alias: the aliases with the command of the first one of that name replaced
unfoldable pub update : List Alias → List ℕ → List ℕ → List Alias
update [] alias_name command = []
update (a ∷ aliases) alias_name command =
    if text_eq a.alias alias_name
    then record a { command = command } ∷ aliases
    else a ∷ update aliases alias_name command

-- add_alias behind its test for room: an alias that is there gets the command, one that is not is added
unfoldable pub put_alias : Option (List ℕ) → Shell → List ℕ → List ℕ → Option Shell
put_alias (some old) s alias_name command =
    if fits max_input command
    then some (
        print_success (codes "Alias updated\n")
          (record s { aliases = update s.aliases alias_name command }))
    else none
put_alias none s alias_name command =
    if fits 32 alias_name && fits max_input command
    then some (
        print_success (codes "Alias added\n") (record s {
          aliases = s.aliases ++ record { alias = alias_name; command = command } ∷ [];
        }))
    else none

unfoldable pub add_alias : Shell → List ℕ → List ℕ → Option Shell
unfolding put_alias
add_alias s alias_name command =
    if leb max_aliases (length s.aliases)
    then some (print_error (codes "Maximum aliases reached\n") s)
    else put_alias (resolve s.aliases alias_name) s alias_name command

-- the loop of list_aliases
unfoldable pub list_entries : List Alias → Shell → Shell
list_entries [] s = s
list_entries (a ∷ aliases) s =
    list_entries aliases
      (print (codes "  " ++ (a.alias ++ (codes " -> " ++ (a.command ++ codes "\n")))) s)

unfoldable pub list_aliases : Shell → Shell
unfolding list_entries
list_aliases s = elim s.aliases [
  | [] ↦ print_info (codes "No aliases defined\n") s
  | a ∷ rest ↦ list_entries (a ∷ rest) (print_info (codes "Defined aliases:\n") s)
]
