-- ===== src/Shell/Session/Laws.antt =====
-- What holds in every session of the shell of kernel/shell.c.
use basedos.Prelude.{
  ℕ, ◌≡◌, refl, arith, ◌==◌, if◌then◌else◌, List, [], ◌∷◌, Option, none, some, take, length-take,
  true, Bool-cases, inl, inr,
}
use basedos.Prelude.Text.{codes}
use mathlib.Core.Option
use basedos.Sound.{Ports}
use basedos.Str.Num.Print.{numeral}
use basedos.Str.Text.{contains, span_in, span_not_in, text_eq, text_eq_iff}
use basedos.Shell.{Shell}
use basedos.Shell.Edit.{Line}
use basedos.Shell.Edit.Safe.{IsLine, current-IsValid, press-IsLine}
use basedos.Shell.Parse.Plain.{one_word, two_words}
use basedos.Shell.Parse.Words.{word_and, words}
use basedos.Shell.Session.{
  Session, prompt, default_aliases, begin_shell, new_line, end_round, enter, key, run_keys,
}
use basedos.Shell.System.{Outcome, done, returned, halted, System}
use basedos.Shell.Valid.{
  IsValid, OnSome, if-keeps, print-IsValid, print_error-IsValid, print_success-IsValid,
  print_info-IsValid, print_warning-IsValid, add_alias-IsValid,
}
use basedos.Shell.Valid.Commands.{map-kept, bind-OnSome, display_banner-IsValid}
use basedos.Shell.Valid.Commands.Files.{Has, IsReady}
use basedos.Shell.Valid.Commands.Execute.{execute_command-IsValid}

prompt-IsValid : (s : Shell) → IsValid s → IsValid (prompt s)
unfolding prompt
prompt-IsValid s v =
    let coded = if-keeps IsValid (s.last_exit_code == 0) _ _ v (
      print_error-IsValid _ _
        (print-IsValid (numeral 10 s.last_exit_code) _ (print_error-IsValid (codes "[") s v))) in
    if-keeps IsValid s.color_enabled _ _
      (print_info-IsValid _ _
        (print_warning-IsValid _ _ (print_info-IsValid _ _ (print_success-IsValid _ _ coded))))
      (print-IsValid _ _ coded)

default_aliases-IsValid : (s : Shell) → IsValid s → OnSome IsValid (default_aliases s)
unfolding default_aliases words word_and span_in span_not_in contains
default_aliases-IsValid s v =
    bind-OnSome IsValid _ _ (add_alias-IsValid s _ _ v (two_words (codes "ls -l") refl)) (λ s v.
      bind-OnSome IsValid _ _ (add_alias-IsValid s _ _ v (two_words (codes "ls -a") refl)) (λ s v.
        bind-OnSome IsValid _ _ (add_alias-IsValid s _ _ v (one_word (codes "clear") refl)) (λ s v.
          bind-OnSome IsValid _ _ (add_alias-IsValid s _ _ v (one_word (codes "memory") refl))
            (λ s v. add_alias-IsValid s _ _ v (one_word (codes "sysinfo") refl)))))

module _ (n : ℕ) where
  -- the shell is valid, and the line is inside its array
  abbrev pub IsSession : Session n → Type 0
  IsSession r = IsLine (record { shell = r.system.shell; input = r.input; position = r.position })

  new_line-IsSession : (sys : System n) → IsValid sys.shell → IsSession (new_line n sys)
  unfolding new_line
  new_line-IsSession sys v = record {
    shell = prompt-IsValid sys.shell v;
    at_end = refl;
    room = omega arith;
  }

  pub begin_shell-IsSession :
      (sys : System n) → IsValid sys.shell → OnSome IsSession (begin_shell n sys)
  unfolding begin_shell
  begin_shell-IsSession sys v =
      map-kept IsSession _ _
        (default_aliases-IsValid _ (
          print-IsValid _ _ (
            print_info-IsValid _ _
              (print_success-IsValid _ _ (display_banner-IsValid sys.shell v)))))
        (λ s w. new_line-IsSession (record sys { shell = s }) w)

  module _ (inb : Ports → ℕ → ℕ) (fuel buffer : ℕ) where
    -- the shell is valid, however the session goes on
    abbrev IsRound : Outcome (Session n) → Type 0
    IsRound = Has (λ r. IsValid r.system.shell)

    abbrev pub IsRunning : Outcome (Session n) → Type 0
    IsRunning (done r) = IsSession r
    IsRunning (returned r) = IsValid r.system.shell
    IsRunning (halted r) = IsValid r.system.shell

    round-IsRunning :
        (input : List ℕ) (sys : System n)
        → IsValid sys.shell
        → IsRunning (
            if text_eq input (codes "exit")
            then returned (record { system = sys; input = input; position = 0 })
            else done (new_line n sys))
    round-IsRunning input sys v =
        if-keeps IsRunning (text_eq input (codes "exit")) _ _ v (new_line-IsSession sys v)

    pub end_round-IsRunning :
        (input : List ℕ) (o : Outcome (System n))
        → Has (IsReady n) o
        → IsRunning (end_round n inb fuel buffer input o)
    unfolding end_round
    end_round-IsRunning input (halted sys) v = v
    end_round-IsRunning input (done sys) v =
        round-IsRunning input _ (current-IsValid sys.shell none v (λ i e. ground arith))
    end_round-IsRunning input (returned sys) v =
        round-IsRunning input _ (current-IsValid sys.shell none v (λ i e. ground arith))

    enter-IsRunning : (r : Session n) → IsSession r → OnSome IsRunning (enter n inb fuel buffer r)
    unfolding enter
    enter-IsRunning r v =
        map-kept IsRunning _ _
          (execute_command-IsValid n inb fuel buffer (take r.position r.input) _
            (print-IsValid _ r.system.shell v.shell)
            (omega (arith, v.room, length-take r.position r.input)))
          (end_round-IsRunning (take r.position r.input))

    key-IsRunning :
        (c : ℕ) (r : Session n) → IsSession r → OnSome IsRunning (key n inb fuel buffer c r)
    unfolding key
    key-IsRunning c r v =
        let (l, pressed, w) =
          press-IsLine inb c
            (record { shell = r.system.shell; input = r.input; position = r.position }) v in
        if-keeps (OnSome IsRunning) (c == b'\r') _ _ (enter-IsRunning r v) (rw pressed w)

    -- A session that starts with a valid shell, and a line inside its array with `position` at its
    -- terminator, is like that again after any keys, while it goes on and no command faults; when it
    -- has ended or halted the shell is valid.
    pub run_keys-IsRunning :
        (keys : List ℕ) (o : Outcome (Session n))
        → IsRunning o
        → OnSome IsRunning (run_keys n inb fuel buffer keys o)
    unfolding run_keys
    run_keys-IsRunning [] o v = v
    run_keys-IsRunning (c ∷ keys) (done r) v =
        bind-OnSome IsRunning _ _ (key-IsRunning c r v) (run_keys-IsRunning keys)
    run_keys-IsRunning (c ∷ keys) (returned r) v = v
    run_keys-IsRunning (c ∷ keys) (halted r) v = v

    end_round-exit :
        (input : List ℕ) (o : Outcome (System n)) (r' : Session n)
        → end_round n inb fuel buffer input o ≡ returned r'
        → text_eq input (codes "exit") ≡ true
    unfolding end_round
    end_round-exit input (halted sys) r' h = ground arith
    end_round-exit input (done sys) r' h = ground arith
    end_round-exit input (returned sys) r' h = ground arith

    enter-exit :
        (input : List ℕ) (o : Option (Outcome (System n))) (r' : Session n)
        → Option.map (end_round n inb fuel buffer input) o ≡ some (returned r')
        → input ≡ codes "exit"
    enter-exit input none r' h = ground arith
    enter-exit input (some o) r' h =
        (text_eq_iff input (codes "exit")).0 (end_round-exit input o r' (ground arith))

    not_returned :
        (f : Line → Session n) (o : Option Line) (r' : Session n)
        → Option.map (λ l. done (f l)) o ≡ some (returned r')
        → ⊥
    not_returned f none r' h = ground arith
    not_returned f (some l) r' h = ground arith

    -- Only Enter ends the shell, and only on a line that is exactly "exit": an alias of exit, or the
    -- word between blanks, does not.
    pub key-exit :
        (c : ℕ) (r r' : Session n)
        → key n inb fuel buffer c r ≡ some (returned r')
        → (c ≡ b'\r') × (take r.position r.input ≡ codes "exit")
    unfolding key enter
    key-exit c r r' h = elim (Bool-cases (c == b'\r')) [
      | inl e ↦ (ground arith, enter-exit (take r.position r.input) _ r' (rw e at h))
      | inr e ↦ absurd (not_returned _ _ r' (rw e at h))
    ]
