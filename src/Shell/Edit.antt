-- ===== src/Shell/Edit.antt =====
-- The line editor of start_shell in kernel/shell.c: what a key other than Enter does. `none` is a
-- string that does not fit into an array.
pub mod Keys
pub mod Safe
pub mod Tab
use basedos.Prelude.{
  ℕ, zero, suc, ◌+◌, ◌-◌, ◌==◌, ltb, leb, if◌then◌else◌, ◌&&◌, Bool, true, false, List, [], ◌∷◌,
  ◌++◌, Option, none, some, length, take, drop,
}
use basedos.Prelude.Text.{codes}
use mathlib.Core.Option
use basedos.Sound.{Ports, beep, nosound}
use basedos.Shell.{Shell, max_input, fits, print}
use basedos.Shell.History.{entry}

-- the variables of the inner loop: the C string in `input`, and `position`
pub record Line : Type 0 where
  pub shell : Shell
  pub input : List ℕ
  pub position : ℕ

abbrev on_screen : (Shell → Shell) → Line → Line
on_screen f l = record l { shell = f l.shell }

-- `while (position > 0) { position--; printk("\b \b"); }`
unfoldable pub erase : ℕ → Shell → Shell
erase zero s = s
erase (suc position) s = erase position (print (8 ∷ b' ' ∷ 8 ∷ []) s)

-- entry `i` of the history in place of the line
unfoldable pub recall : ℕ → Line → Option Line
unfolding erase
recall i l =
    let text = entry l.shell i in
    if fits max_input text
    then some (record {
      shell = print text (erase l.position (record l.shell { current_history = some i }));
      input = text;
      position = length text;
    })
    else none

-- the entry that Up goes to
unfoldable pub older : Shell → ℕ
older s = elim s.current_history [ none ↦ s.history_pos - 1 | some i ↦ i - 1 ]

-- Down, from the entry `i`
unfoldable pub newer : ℕ → Line → Option Line
unfolding recall
newer i l =
    if ltb (i + 1) l.shell.history_pos
    then recall (i + 1) l
    else some (record {
      shell = erase l.position (record l.shell { current_history = none });
      input = [];
      position = 0;
    })

-- `strncmp(a, b, n) == 0`
unfoldable pub same_front : ℕ → List ℕ → List ℕ → Bool
same_front zero a b = true
same_front (suc n) [] [] = true
same_front (suc n) (x ∷ a) (y ∷ b) = (x == y) && same_front n a b
same_front (suc n) _ _ = false

-- the names that Tab completes, in their order
abbrev pub commands : List (List ℕ)
commands =
    codes "help"
    ∷ codes "clear"
    ∷ codes "echo"
    ∷ codes "exit"
    ∷ codes "shutdown"
    ∷ codes "reboot"
    ∷ codes "beep"
    ∷ codes "memory"
    ∷ codes "uptime"
    ∷ codes "date"
    ∷ codes "ls"
    ∷ codes "cat"
    ∷ codes "mkdir"
    ∷ codes "touch"
    ∷ codes "rm"
    ∷ codes "write"
    ∷ codes "banner"
    ∷ codes "alias"
    ∷ codes "set"
    ∷ codes "history"
    ∷ codes "sysinfo"
    ∷ codes "calc"
    ∷ codes "sound"
    ∷ []

-- the loop of Tab: the first name that starts with the line, in its place
unfoldable pub complete : List (List ℕ) → Line → Option Line
unfolding same_front
complete [] l = some l
complete (name ∷ names) l =
    let text = take l.position l.input ++ drop l.position name in
    if same_front l.position l.input name
    then (if fits max_input text
        then some (record {
          shell = print (drop l.position text) l.shell;
          input = text;
          position = length text;
        })
        else none)
    else complete names l

unfoldable pub backspace : Line → Line
backspace l = record {
  shell = print (8 ∷ b' ' ∷ 8 ∷ []) l.shell;
  input = take (l.position - 1) l.input;
  position = l.position - 1;
}

unfoldable pub add_char : ℕ → Line → Line
add_char c l = record {
  shell = if l.shell.echo_enabled then print (c ∷ []) l.shell else l.shell;
  input = take l.position l.input ++ c ∷ [];
  position = l.position + 1;
}

-- the last two branches; `inb` answers a read of a port
unfoldable pub type_key : (Ports → ℕ → ℕ) → ℕ → Line → Line
unfolding add_char beep nosound
type_key inb c l =
    if ltb l.position (max_input - 2) && (leb 32 c && leb c 126)
    then add_char c l
    else if leb (max_input - 2) l.position
    then on_screen
        (λ s. record s { term = record s.term { out = nosound inb (beep inb 1000 s.term.out) } }) l
    else l

-- the branches on a key that is not `\r`
unfoldable pub press : (Ports → ℕ → ℕ) → ℕ → Line → Option Line
unfolding backspace recall older newer complete type_key
press inb c l =
    let typed = some (type_key inb c l) in
    if (c == 8) && ltb 0 l.position
    then some (backspace l)
    else if (c == 0x48) && ltb 0 l.shell.history_pos
    then recall (older l.shell) l
    else if c == 0x50
    then elim l.shell.current_history [ some i ↦ newer i l | none ↦ typed ]
    else if c == 9
    then (if ltb 0 l.position then complete commands l else some l)
    else typed
