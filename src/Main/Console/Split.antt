-- ===== src/Main/Console/Split.antt =====
-- When the keys of kernel/interrupts.c come does not matter to the shell of kernel/shell.c.
use basedos.Prelude.{
  ℕ, suc, ◌+◌, ◌≤◌, ◌≡◌, refl, ◌∙◌, sym, ap, arith, ◌==◌, ltb, List, [], ◌∷◌, ◌++◌, Option, none,
  some, length, length-append, Bool-cases, Option-cases, inl, inr, true,
}
use mathlib.Core.Option
use mathlib.Core.List.{append_assoc, append-nil}
use basedos.Keyboard.{Keyboard, keyboard_handler_internal, keyboard_getchar}
use basedos.Keyboard.Queue.{
  Event, interrupt, getchar, contents, push, pop, key_of, handler-push, getchar-pop,
}
use basedos.Sound.{Ports}
use basedos.Shell.Session.{Session, key, run_keys}
use basedos.Shell.System.{Outcome, done, returned, halted}
use basedos.Main.Console.{typed, Console, with_shell, turn, run_console}

module _ (n : ℕ) (inb : Ports → ℕ → ℕ) (fuel buffer : ℕ) where
  -- the keys in the buffer, and the shell
  abbrev pub Seen : Type 0
  Seen = List ℕ × Outcome (Session n)

  abbrev pub seen : Console n → Seen
  seen c = (contents c.board, c.shell)

  abbrev pub at_shell : List ℕ → Outcome (Session n) → Seen
  at_shell rest o = (rest, o)

  -- what the shell has read of the keys, and what is left of them in the buffer
  pub record Split (events : List Event) (c : Console n) : Type 0 where
    pub read : List ℕ
    pub rest : List ℕ
    pub all : contents c.board ++ typed events ≡ read ++ rest
    pub run :
        Option.map seen (run_console n inb fuel buffer events c)
        ≡ Option.map (λ o. at_shell rest o) (run_keys n inb fuel buffer read c.shell)

  -- a console whose keys fit into the buffer
  abbrev pub HasRoom : List Event → Console n → Type 0
  HasRoom events c = length (contents c.board) + length (typed events) ≤ 255

  push-typed :
      (q : List ℕ) (s : ℕ) (events : List Event)
      → length q + length (typed (interrupt s ∷ events)) ≤ 255
      → (q ++ typed (interrupt s ∷ events) ≡ push 255 q (key_of s) ++ typed events)
        × (length (push 255 q (key_of s)) + length (typed events) ≤ 255)
  unfolding typed push
  push-typed q s events room = elim (Bool-cases (key_of s == 0)) [
    | inl e ↦ rw (e, typed, push) (refl, rw (e, typed) at room)
    | inr e ↦
        let wide : suc (length q + length (typed events)) ≤ 255 =
          omega (arith, simp (e, typed) at room) in
        let below : ltb (length q) 255 ≡ true = ground arith in
        rw (e, typed, push, below)
          (
            sym (append_assoc q (key_of s ∷ []) (typed events)),
            omega (arith, length-append q (key_of s ∷ [])),
          )
  ]

  Split-interrupt :
      (s : ℕ) (events : List Event) (c : Console n)
      → HasRoom (interrupt s ∷ events) c
      → Split events (record c { board = keyboard_handler_internal c.board s })
      → Split (interrupt s ∷ events) c
  unfolding run_console
  Split-interrupt s events c room f = record {
    read = f.read;
    rest = f.rest;
    all =
        (push-typed (contents c.board) s events room).0
        ∙ ap (λ q. q ++ typed events) (sym (handler-push c.board s))
        ∙ f.all;
    run = f.run;
  }

  -- the shell does not read
  Split-idle :
      (events : List Event) (c : Console n)
      → turn n inb fuel buffer c.board c.shell ≡ some c
      → Split events c
      → Split (getchar ∷ events) c
  unfolding run_console typed Option.bind
  Split-idle events c idle f = record {
    read = f.read;
    rest = f.rest;
    all = f.all;
    run = rw idle (f.run);
  }

  -- the key that keyboard_getchar takes is the first one
  first_key :
      (b b' : Keyboard) (k : ℕ) → keyboard_getchar b ≡ some (k, b') → contents b ≡ k ∷ contents b'
  unfolding pop
  first_key b b' k h = popped (contents b) (sym (getchar-pop b) ∙ rw h refl)
    where
      popped : (q : List ℕ) → pop q ≡ some (k, contents b') → q ≡ k ∷ contents b'
      popped [] e = absurd (ground arith)
      popped (x ∷ q) e = cc

  turn-waiting :
      (b : Keyboard) (r : Session n)
      → keyboard_getchar b ≡ none
      → turn n inb fuel buffer b (done r) ≡ some (with_shell n b (done r))
  unfolding turn
  turn-waiting b r empty = rw (empty, turn) refl

  turn-reads :
      (b b' : Keyboard) (r : Session n) (k : ℕ) (called : Option (Outcome (Session n)))
      → keyboard_getchar b ≡ some (k, b')
      → key n inb fuel buffer k r ≡ called
      → turn n inb fuel buffer b (done r) ≡ Option.map (with_shell n b') called
  unfolding turn
  turn-reads b b' r k called taken pressed = rw (taken, turn, pressed) refl

  -- the shell reads a key and handles it
  Split-read :
      (events : List Event) (b b' : Keyboard) (r : Session n) (k : ℕ) (o : Outcome (Session n))
      → keyboard_getchar b ≡ some (k, b')
      → key n inb fuel buffer k r ≡ some o
      → Split events (with_shell n b' o)
      → Split (getchar ∷ events) (with_shell n b (done r))
  unfolding run_console typed run_keys Option.bind
  Split-read events b b' r k o taken pressed f = record {
    read = k ∷ f.read;
    rest = f.rest;
    all = ap (λ q. q ++ typed events) (first_key b b' k taken) ∙ ap (λ l. k ∷ l) f.all;
    run = rw (turn-reads b b' r k (some o) taken pressed, pressed) (f.run);
  }

  -- the shell reads a key, and faults
  Split-fault :
      (events : List Event) (b b' : Keyboard) (r : Session n) (k : ℕ)
      → keyboard_getchar b ≡ some (k, b')
      → key n inb fuel buffer k r ≡ none
      → Split (getchar ∷ events) (with_shell n b (done r))
  unfolding run_console typed run_keys Option.bind
  Split-fault events b b' r k taken pressed = record {
    read = k ∷ [];
    rest = contents b' ++ typed events;
    all = ap (λ q. q ++ typed events) (first_key b b' k taken);
    run = rw (turn-reads b b' r k none taken pressed, pressed) refl;
  }

  Split-getchar :
      (events : List Event) (b : Keyboard) (o : Outcome (Session n))
      → HasRoom events (with_shell n b o)
      → ((c' : Console n) → HasRoom events c' → Split events c')
      → Split (getchar ∷ events) (with_shell n b o)
  unfolding turn
  Split-getchar events b (returned r) room next = Split-idle events _ refl (next _ room)
  Split-getchar events b (halted r) room next = Split-idle events _ refl (next _ room)
  Split-getchar events b (done r) room next = elim (Option-cases (keyboard_getchar b)) [
    | inl empty ↦ Split-idle events _ (turn-waiting b r empty) (next _ room)
    | inr ((k, b'), taken) ↦ elim (Option-cases (key n inb fuel buffer k r)) [
      | inl fault ↦ Split-fault events b b' r k taken fault
      | inr (o, pressed) ↦
          let size = ap length (first_key b b' k taken) in
          Split-read events b b' r k o taken pressed (next (with_shell n b' o) (omega arith))
    ]
  ]

  -- While the keys in the buffer and those that come are at most 255, it does not matter when they
  -- come, if not between the steps of a read: after any interleaving of interrupts and reads the shell is
  -- what run_keys makes of a front part of these keys, in their order, and the rest of them is in the
  -- buffer. None is lost and none read twice. Where run_keys faults, so does the console.
  pub run_console-Split : (events : List Event) (c : Console n) → HasRoom events c → Split events c
  unfolding run_console typed run_keys
  run_console-Split [] c room = record {
    read = [];
    rest = contents c.board;
    all = append-nil (contents c.board);
    run = refl;
  }
  run_console-Split (interrupt s ∷ events) c room = Split-interrupt s events c room (
      run_console-Split events _
        (rw (handler-push c.board s) ((push-typed (contents c.board) s events room).1)))
  run_console-Split (getchar ∷ events) c room =
      Split-getchar events c.board c.shell room (run_console-Split events)
