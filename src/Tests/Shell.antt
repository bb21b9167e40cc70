-- ===== src/Tests/Shell.antt =====
-- kernel/shell.c at concrete inputs.
use basedos.Prelude.{
  ℕ, zero, suc, ◌+◌, ◌<◌, ◌≡◌, ◌⊎◌, refl, arith, leb, if◌then◌else◌, inl, inr, List, [], ◌∷◌, none,
  some, length, replicate, get_or, take, true, false,
}
use basedos.Prelude.Text.{codes}
use mathlib.Core.Option
use basedos.Memory.{Memory}
use basedos.Sound.{Ports}
use basedos.Str.Text.{text_eq, span_in, span_not_in, contains}
use basedos.Shell.{Shell, print}
use basedos.Shell.Aliases.{resolve, resolve_alias, add_alias}
use basedos.Shell.Aliases.Laws.{add_alias-resolve_alias}
use basedos.Keyboard.Queue.{key_of}
use basedos.Shell.Edit.{Line, press, commands}
use basedos.Shell.Edit.Keys.{press_plain, press-key_of}
use basedos.Shell.Edit.Tab.{completed, first_match, press-first_match}
use basedos.Shell.Edit.Safe.{IsLine, press-IsLine}
use basedos.Shell.Execute.{parsed, execute_command, run_words, dispatch, first_branch, report_debug}
use basedos.Shell.History.{add_to_history}
use basedos.Shell.History.Log.{logged, IsLog, add_to_history-IsLog}
use basedos.Shell.Parse.{parse_command}
use basedos.Shell.Parse.Plain.{two_words}
use basedos.Shell.Parse.Words.{words, word_and, HoldAll, parse_command-words}
use basedos.Shell.Session.{Session, key, run_keys, enter, end_round}
use basedos.Shell.Session.Laws.{IsRunning, run_keys-IsRunning, key-exit}
use basedos.Shell.System.{Outcome, done, System}
use basedos.Shell.Valid.{IsValid, OnSome}
use basedos.Shell.Valid.Commands.Files.{Has, IsReady}
use basedos.Shell.Valid.Commands.Execute.{execute_command-IsValid}
use basedos.Shell.Session.Faults.{GoesOn, Fault, run_keys-GoesOn}
use basedos.Shell.Valid.Returns.{IsStarted}
use basedos.Shell.Valid.Returns.Faults.{Culprit}
use basedos.Shell.Valid.Returns.Execute.{execute_command-Returns}
use basedos.Tests.Kernel.{started}
use basedos.Tests.Terminal.{near_end}
use basedos.Tests.Vfs.{mounted}

-- " echo hi" at 1, " \t" at 20, and zeros elsewhere
abbrev typed : List ℕ
typed = codes " echo hi"

abbrev ram : Memory
ram q =
    get_or
      (0 ∷ 32 ∷ 101 ∷ 99 ∷ 104 ∷ 111 ∷ 32 ∷ 104 ∷ 105 ∷ 0 ∷ 0 ∷ 0 ∷ 0 ∷ 0 ∷ 0 ∷ 0 ∷ 0 ∷ 0 ∷ 0 ∷ 0
        ∷ 32 ∷ 9 ∷ 0 ∷ [])
      q 0

parse_command-words_example :
    (r : List ℕ × Memory × ℕ) × (parse_command 11 ram 0 30 1 20 ≡ some r)
    × HoldAll r.1 r.0 (words 15 (32 ∷ 9 ∷ []) typed)
    × ((q : ℕ) → (q < 30) ⊎ (30 + 8 < q) → r.1 q ≡ ram q)
parse_command-words_example =
    parse_command-words 11 ram 0 30 1 20 typed (omega arith) (ground arith) (ground arith)
      (inr (omega arith)) (inl (omega arith)) (omega arith)

-- the shell as it starts
abbrev pub fresh : Shell
fresh = record {
  term = near_end;
  history = replicate 10 [];
  history_pos = 0;
  current_history = none;
  aliases = record { alias = codes "ll"; command = codes "ls -l" } ∷ [];
  echo_enabled = true;
  debug_mode = false;
  current_directory = codes "/";
  last_exit_code = 0;
  color_enabled = true;
}

pub fresh-IsValid : IsValid fresh
unfolding words word_and span_in span_not_in contains
fresh-IsValid = record {
  screen = omega arith;
  log = record {
    size = refl;
    entries = ground arith;
    inside = omega arith;
    recalled = λ i e. ground arith;
  };
  room = omega arith;
  aliases = ((omega arith, omega arith, two_words (codes "ls -l") refl), tt);
  directory = omega arith;
}

abbrev pub machine : System 9
machine = record { shell = fresh; vfs = mounted; kernel = started }

-- no byte is read from the ports
abbrev pub silent : Ports → ℕ → ℕ
silent out port = 0

abbrev no_bytes : List ℕ
no_bytes = []

unused_entry : (n i : ℕ) → get_or (replicate n no_bytes) i no_bytes ≡ no_bytes
unused_entry zero i = refl
unused_entry (suc n) zero = refl
unused_entry (suc n) (suc i) = unused_entry n i

add_to_history-IsLog_example :
    (s' : Shell) × (add_to_history fresh (codes "ls") ≡ some s') × IsLog s' (logged (codes "ls") [])
add_to_history-IsLog_example =
    add_to_history-IsLog fresh (codes "ls") []
      (record { size = refl; pos = refl; window = λ i h. unused_entry 10 _ }) (omega arith)

add_alias-resolve_alias_example :
    (s' : Shell) × (add_alias fresh (codes "cls") (codes "clear") ≡ some s')
    × ((key : List ℕ)
        → resolve_alias s' key ≡ (
            if leb 20 (length fresh.aliases)
            then resolve_alias fresh key
            else if text_eq (codes "cls") key
            then some (codes "clear")
            else resolve_alias fresh key))
add_alias-resolve_alias_example =
    add_alias-resolve_alias fresh (codes "cls") (codes "clear") (omega arith) (omega arith)

-- "he" is typed, and Tab completes it
abbrev half_line : Line
half_line = record { shell = fresh; input = codes "he"; position = 2 }

press-IsLine_example : (l' : Line) × (press silent 9 half_line ≡ some l') × IsLine l'
press-IsLine_example =
    press-IsLine silent 9 half_line
      (record { shell = fresh-IsValid; at_end = refl; room = omega arith })

-- the scancode of the arrow up, which has no character
press-key_of_example :
    press silent (key_of 0x48) half_line ≡ press_plain silent (key_of 0x48) half_line
press-key_of_example = press-key_of silent 0x48 half_line (omega arith)

press-first_match_example :
    press silent 9 half_line ≡ some (completed half_line (first_match (codes "he") commands))
press-first_match_example = press-first_match silent half_line refl

execute_command-IsValid_example :
    OnSome (Has (IsReady 9)) (execute_command 9 silent 9 0x100 (codes "echo hi") machine)
execute_command-IsValid_example =
    execute_command-IsValid 9 silent 9 0x100 (codes "echo hi") machine fresh-IsValid (omega arith)

-- the shell on the file system as it is after the start
pub machine-IsStarted : IsStarted 9 machine
machine-IsStarted = record { bare = refl; table = refl; memory = refl }

execute_command-Returns_example :
    ((o : Outcome (System 9)) × (execute_command 9 silent 9 0x100 (codes "write /a x") machine
        ≡ some o)
      × Has (IsReady 9) o)
    ⊎ Culprit (parsed 9 silent 9 0x100 (codes "write /a x"))
execute_command-Returns_example =
    execute_command-Returns 9 silent 8 0x100 (codes "write /a x") machine machine-IsStarted
      fresh-IsValid (omega arith)

abbrev waiting : Session 9
waiting = record { system = machine; input = codes "exit"; position = 4 }

run_keys-IsRunning_example :
    OnSome
      (IsRunning 9 silent 9 0x100)
      (run_keys 9 silent 9 0x100 (8 ∷ 13 ∷ b'l' ∷ []) (done waiting))
run_keys-IsRunning_example =
    run_keys-IsRunning 9 silent 9 0x100 (8 ∷ 13 ∷ b'l' ∷ []) (done waiting)
      (record { shell = fresh-IsValid; at_end = refl; room = omega arith })

run_keys-GoesOn_example :
    GoesOn 9 silent 8 0x100 (run_keys 9 silent 9 0x100 (8 ∷ 13 ∷ b'l' ∷ []) (done waiting))
    ⊎ Fault 9 silent 8 0x100 (8 ∷ 13 ∷ b'l' ∷ []) waiting
run_keys-GoesOn_example =
    run_keys-GoesOn 9 silent 8 0x100 (8 ∷ 13 ∷ b'l' ∷ []) waiting
      (record { shell = fresh-IsValid; at_end = refl; room = omega arith }) machine-IsStarted

abbrev enter_key : ℕ
enter_key = 13

key-exit_example : (enter_key ≡ b'\r') × (take 4 (codes "exit") ≡ codes "exit")
unfolding key enter end_round execute_command add_to_history run_words resolve_alias resolve
    dispatch first_branch text_eq words word_and span_in span_not_in contains Option.bind
    report_debug print
key-exit_example = key-exit 9 silent 9 0x100 13 waiting _ refl
