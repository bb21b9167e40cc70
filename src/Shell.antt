-- ===== src/Shell.antt =====
-- The shell of kernel/shell.c: its variables, and what it prints. A C string is the list of its bytes.
-- A call of printk is the text that it prints (Terminal/Print/Render); `none` is a strcpy past the end
-- of an array.
pub mod History
pub mod Parse
pub mod Aliases
pub mod Calc
pub mod Info
pub mod System
pub mod Files
pub mod Settings
pub mod Execute
pub mod Edit
pub mod Valid
pub mod Session
use basedos.Prelude.{
  ℕ, ltb, if◌then◌else◌, Bool, true, false, List, [], ◌∷◌, ◌++◌, Option, none, some, length,
  replicate,
}
use basedos.Terminal.{Terminal, terminal_writestring, terminal_setcolor}

-- MAX_INPUT, HISTORY_SIZE and MAX_ALIASES
abbrev pub max_input : ℕ
max_input = 128

abbrev pub history_size : ℕ
history_size = 10

abbrev pub max_aliases : ℕ
max_aliases = 20

-- alias_t, for an entry that is in use
pub record Alias : Type 0 where
  pub alias : List ℕ
  pub command : List ℕ

-- The variables of shell.c and the terminal. `current_history` is `none` for -1; the aliases in use are
-- a list, whose length is alias_count.
pub record Shell : Type 0 where
  pub term : Terminal
  pub history : List (List ℕ)
  pub history_pos : ℕ
  pub current_history : Option ℕ
  pub aliases : List Alias
  pub echo_enabled : Bool
  pub debug_mode : Bool
  pub current_directory : List ℕ
  pub last_exit_code : ℕ
  pub color_enabled : Bool

unfoldable pub print : List ℕ → Shell → Shell
print text s = record s { term = terminal_writestring s.term text }

-- a printk, for the texts that its format and its arguments come to
unfoldable pub print_all : List (List ℕ) → Shell → Shell
unfolding print
print_all [] s = s
print_all (text ∷ texts) s = print_all texts (print text s)

unfoldable pub print_color : ℕ → List ℕ → Shell → Shell
print_color color text s =
    if s.color_enabled
    then record s {
      term = terminal_setcolor 15 0 (terminal_writestring (terminal_setcolor color 0 s.term) text);
    }
    else record s { term = terminal_writestring s.term text }

pub print_error : List ℕ → Shell → Shell
print_error = print_color 12

pub print_success : List ℕ → Shell → Shell
print_success = print_color 10

pub print_info : List ℕ → Shell → Shell
print_info = print_color 11

pub print_warning : List ℕ → Shell → Shell
print_warning = print_color 14

-- whether a text fits into an array of `size` bytes, with its terminator
abbrev pub fits : ℕ → List ℕ → Bool
fits size text = ltb (length text) size
