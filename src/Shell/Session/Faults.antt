-- ===== src/Shell/Session/Faults.antt =====
-- Where a session of the shell of kernel/shell.c can fault: start_shell, key by key.
use basedos.Prelude.{
  ℕ, suc, ◌≡◌, ◌≢◌, ◌⊎◌, refl, ap, arith, ◌==◌, if◌then◌else◌, List, [], ◌∷◌, ◌++◌, Option, some,
  take, length-take, Bool-cases, inl, inr,
}
use basedos.Prelude.Text.{codes}
use mathlib.Core.Option
use mathlib.Core.Path.{subst}
use basedos.Sound.{Ports}
use basedos.Str.Text.{text_eq}
use basedos.Shell.{print}
use basedos.Shell.Edit.Safe.{press-IsLine}
use basedos.Shell.Execute.{parsed}
use basedos.Shell.Session.{Session, new_line, end_round, enter, key, run_keys}
use basedos.Shell.Session.Laws.{IsSession, IsRunning, end_round-IsRunning}
use basedos.Shell.System.{Outcome, done, returned, halted, System, on_shell}
use basedos.Shell.Valid.{OnSome, if-keeps, print-IsValid}
use basedos.Shell.Valid.Commands.Files.{Has}
use basedos.Shell.Valid.Returns.{IsStarted}
use basedos.Shell.Valid.Returns.Execute.{execute_command-Returns}
use basedos.Shell.Valid.Returns.Faults.{Culprit}
use basedos.Shell.Valid.Returns.Frame.{same_files}
use basedos.Shell.Valid.Returns.Stays.{execute_command-Stays}

module _ (n : ℕ) (inb : Ports → ℕ → ℕ) (fuel buffer : ℕ) where
  -- the file system is started, however the session goes on
  abbrev pub IsUnder : Outcome (Session n) → Type 0
  IsUnder = Has (λ r. IsStarted n r.system)

  -- a call that has a result, with what the result has
  abbrev pub GoesOn : Option (Outcome (Session n)) → Type 0
  GoesOn called =
      (o : Outcome (Session n)) × (called ≡ some o)
      × IsRunning n inb (suc fuel) buffer o
      × IsUnder o

  -- the line that Enter runs
  abbrev pub line : Session n → List ℕ
  line r = take r.position r.input

  new_line-IsStarted : (sys : System n) → IsStarted n sys → IsStarted n (new_line n sys).system
  unfolding new_line
  new_line-IsStarted sys st = same_files n sys _ st refl refl refl

  round-IsUnder :
      (input : List ℕ) (sys : System n)
      → IsStarted n sys
      → IsUnder (
          if text_eq input (codes "exit")
          then returned (record { system = sys; input = input; position = 0 })
          else done (new_line n sys))
  round-IsUnder input sys st =
      if-keeps IsUnder (text_eq input (codes "exit")) _ _ st (new_line-IsStarted sys st)

  end_round-IsUnder :
      (input : List ℕ) (o : Outcome (System n))
      → Has (IsStarted n) o
      → IsUnder (end_round n inb (suc fuel) buffer input o)
  unfolding end_round
  end_round-IsUnder input (halted sys) st = st
  end_round-IsUnder input (done sys) st =
      round-IsUnder input _ (same_files n sys _ st refl refl refl)
  end_round-IsUnder input (returned sys) st =
      round-IsUnder input _ (same_files n sys _ st refl refl refl)

  enter-GoesOn :
      (r : Session n)
      → IsSession n r
      → IsStarted n r.system
      → GoesOn (enter n inb (suc fuel) buffer r) ⊎ Culprit (parsed n inb (suc fuel) buffer (line r))
  unfolding enter
  enter-GoesOn r v st =
      let sys = on_shell n (print (codes "\n")) r.system in
      let started = same_files n r.system sys st refl refl refl in
      elim (execute_command-Returns n inb fuel buffer (line r) sys started
        (print-IsValid _ r.system.shell v.shell)
        (omega (arith, v.room, length-take r.position r.input))) [
          | inl (o, run, ready) ↦
              let left =
                subst (OnSome (Has (IsStarted n))) run
                  (execute_command-Stays n inb (suc fuel) buffer (line r) sys started) in
              inl (
                rw run (
                  _,
                  refl,
                  end_round-IsRunning n inb (suc fuel) buffer (line r) o ready,
                  end_round-IsUnder (line r) o left,
                ))
          | inr c ↦ inr c
        ]

  key-GoesOn :
      (c : ℕ) (r : Session n)
      → IsSession n r
      → IsStarted n r.system
      → GoesOn (key n inb (suc fuel) buffer c r)
        ⊎ ((c ≡ b'\r') × Culprit (parsed n inb (suc fuel) buffer (line r)))
  unfolding key
  key-GoesOn c r v st = elim (Bool-cases (c == b'\r')) [
    | inl e ↦
        rw e
          (elim (enter-GoesOn r v st) [ inl g ↦ inl g | inr culprit ↦ inr (ground arith, culprit) ])
    | inr e ↦
        let (l, pressed, w) =
          press-IsLine inb c
            (record { shell = r.system.shell; input = r.input; position = r.position }) v in
        inl (rw (e, pressed) (_, refl, w, same_files n r.system _ st refl refl refl))
  ]

  -- The keys up to an Enter lead to a line that faults.
  pub record Fault (keys : List ℕ) (r : Session n) : Type 0 where
    pub before : List ℕ
    pub after : List ℕ
    pub at : Session n
    pub split : keys ≡ before ++ b'\r' ∷ after
    pub reached : run_keys n inb (suc fuel) buffer before (done r) ≡ some (done at)
    pub culprit : Culprit (parsed n inb (suc fuel) buffer (line at))

  Fault-key :
      (c : ℕ) (keys : List ℕ) (r r' : Session n)
      → key n inb (suc fuel) buffer c r ≡ some (done r')
      → Fault keys r'
      → Fault (c ∷ keys) r
  unfolding run_keys Option.bind
  Fault-key c keys r r' pressed f = record {
    before = c ∷ f.before;
    after = f.after;
    at = f.at;
    split = ap (λ l. c ∷ l) f.split;
    reached = rw pressed f.reached;
    culprit = f.culprit;
  }

  run_ended :
      (keys : List ℕ) (o : Outcome (Session n))
      → ((r : Session n) → o ≢ done r)
      → run_keys n inb (suc fuel) buffer keys o ≡ some o
  unfolding run_keys
  run_ended [] o h = refl
  run_ended (c ∷ keys) (done r) h = absurd (h r refl)
  run_ended (c ∷ keys) (returned r) h = refl
  run_ended (c ∷ keys) (halted r) h = refl

  -- A session whose shell is valid, whose line is inside its array and whose file system is started goes
  -- on through any keys, and keeps all that, until it ends or halts. The one exception is an Enter on a line
  -- that faults: `alias` with a name of 32 bytes or more, or `calc` with -2147483648 and -1; the
  -- keys before it are handled.
  pub run_keys-GoesOn :
      (keys : List ℕ) (r : Session n)
      → IsSession n r
      → IsStarted n r.system
      → GoesOn (run_keys n inb (suc fuel) buffer keys (done r)) ⊎ Fault keys r
  unfolding run_keys Option.bind
  run_keys-GoesOn [] r v st = inl (done r, refl, v, st)
  run_keys-GoesOn (c ∷ keys) r v st = elim (key-GoesOn c r v st) [
    | inl (done r', pressed, w, st') ↦ elim (run_keys-GoesOn keys r' w st') [
      | inl g ↦ inl (rw pressed g)
      | inr f ↦ inr (Fault-key c keys r r' pressed f)
    ]
    | inl (returned r', pressed, w, st') ↦
        let ended = run_ended keys (returned r') (λ q e. ground arith) in
        inl (rw (pressed, ended) (returned r', refl, w, st'))
    | inl (halted r', pressed, w, st') ↦
        let ended = run_ended keys (halted r') (λ q e. ground arith) in
        inl (rw (pressed, ended) (halted r', refl, w, st'))
    | inr (e, culprit) ↦ inr (record {
      before = [];
      after = keys;
      at = r;
      split = ap (λ k. k ∷ keys) e;
      reached = refl;
      culprit = culprit;
    })
  ]
