-- ===== src/Main/Console.antt =====
-- The keyboard of kernel/interrupts.c and the shell of kernel/shell.c together: an interrupt puts a key
-- into the buffer at any time, and the shell takes its keys from there with keyboard_getchar.
pub mod Split
use basedos.Prelude.{
  ℕ, suc, ◌+◌, ◌≤◌, ◌≡◌, refl, ◌∙◌, sym, ap, arith, ◌==◌, if◌then◌else◌, ltb, List, [], ◌∷◌, ◌++◌,
  Option, none, some, length, length-append, Bool-cases, Option-cases, inl, inr, true,
}
use mathlib.Core.Option
use mathlib.Core.List.{append_assoc, append-nil}
use basedos.Keyboard.{Keyboard, keyboard_handler_internal, keyboard_getchar}
use basedos.Keyboard.Queue.{
  Event, interrupt, getchar, contents, push, pop, key_of, handler-push, getchar-pop,
}
use basedos.Sound.{Ports}
use basedos.Shell.Session.{Session, key, run_keys}
use basedos.Shell.System.{Outcome, done, returned, halted}

-- the characters of the scancodes, in their order
unfoldable pub typed : List Event → List ℕ
typed [] = []
typed (getchar ∷ events) = typed events
typed (interrupt s ∷ events) = if key_of s == 0 then typed events else key_of s ∷ typed events

module _ (n : ℕ) where
  pub record Console : Type 0 where
    pub board : Keyboard
    pub shell : Outcome (Session n)

  abbrev pub with_shell : Keyboard → Outcome (Session n) → Console
  with_shell b o = record { board = b; shell = o }

  module _ (inb : Ports → ℕ → ℕ) (fuel buffer : ℕ) where
    -- the shell's turn: it reads a key, if one is there, and handles it
    unfoldable pub turn : Keyboard → Outcome (Session n) → Option Console
    turn b (returned r) = some (with_shell b (returned r))
    turn b (halted r) = some (with_shell b (halted r))
    turn b (done r) = elim (keyboard_getchar b) [
      | none ↦ some (with_shell b (done r))
      | some (k, b') ↦ Option.map (with_shell b') (key n inb fuel buffer k r)
    ]

    -- the events in their order; `getchar` is the shell's turn
    unfoldable pub run_console : List Event → Console → Option Console
    unfolding turn Option.bind
    run_console [] c = some c
    run_console (interrupt s ∷ events) c =
        run_console events (record c { board = keyboard_handler_internal c.board s })
    run_console (getchar ∷ events) c = Option.bind (turn c.board c.shell) (run_console events)
