-- ===== src/Shell/Edit/Safe.antt =====
-- The line editor of kernel/shell.c stays inside its arrays.
use basedos.Prelude.{
  ℕ, zero, suc, ◌+◌, ◌-◌, ◌<◌, ◌≡◌, refl, arith, ◌==◌, ltb, leb, ◌&&◌, List, [], ◌∷◌, ◌++◌, Option,
  none, some, length, take, drop, length-take, length-drop, length-append, Bool-cases, Option-cases,
  inl, inr, true,
}
use basedos.Sound.{Ports}
use basedos.Terminal.Cursor.{same_cursor}
use basedos.Shell.{Shell, max_input, history_size, fits}
use basedos.Shell.History.{entry}
use basedos.Shell.Valid.{IsValid, on_term, print-IsValid, get_or-fits, if-keeps}
use basedos.Shell.Edit.{
  Line, erase, recall, older, newer, same_front, commands, complete, backspace, add_char, type_key,
  press,
}

-- The shell is valid, `position` is at the terminator of the line, and there is room for it.
pub record IsLine (l : Line) : Type 0 where
  pub shell : IsValid l.shell
  pub at_end : l.position ≡ length l.input
  pub room : length l.input < max_input

erase-IsValid : (position : ℕ) (s : Shell) → IsValid s → IsValid (erase position s)
unfolding erase
erase-IsValid zero s v = v
erase-IsValid (suc position) s v = erase-IsValid position _ (print-IsValid _ s v)

pub current-IsValid :
    (s : Shell) (current : Option ℕ)
    → IsValid s
    → ((i : ℕ) → current ≡ some i → i < history_size)
    → IsValid (record s { current_history = current })
current-IsValid s current v h = record {
  screen = v.screen;
  log = record { size = v.log.size; entries = v.log.entries; inside = v.log.inside; recalled = h };
  room = v.room;
  aliases = v.aliases;
  directory = v.directory;
}

recall-IsLine :
    (i : ℕ) (l : Line)
    → i < history_size
    → IsLine l
    → (l' : Line) × (recall i l ≡ some l') × IsLine l'
unfolding recall
recall-IsLine i l h v =
    let short = get_or-fits l.shell.history i v.shell.log.entries in
    let room : fits max_input (entry l.shell i) ≡ true = ground (arith, short) in
    rw room (
      _,
      refl,
      record {
        shell = print-IsValid _ _ (
            erase-IsValid l.position _
              (current-IsValid l.shell (some i) v.shell (λ j e. ground arith)));
        at_end = refl;
        room = short;
      },
    )

newer-IsLine : (i : ℕ) (l : Line) → IsLine l → (l' : Line) × (newer i l ≡ some l') × IsLine l'
unfolding newer
newer-IsLine i l v = elim (Bool-cases (ltb (i + 1) l.shell.history_pos)) [
  | inl e ↦ rw e (recall-IsLine (i + 1) l (ground (arith, v.shell.log.inside)) v)
  | inr e ↦ rw e (
    _,
    refl,
    record {
      shell =
          erase-IsValid l.position _ (current-IsValid l.shell none v.shell (λ j e. ground arith));
      at_end = refl;
      room = omega arith;
    },
  )
]

-- the names that fit
AllShort : List (List ℕ) → Type 0
AllShort [] = Unit {0}
AllShort (name ∷ names) = (length name < 16) × AllShort names

complete-IsLine :
    (names : List (List ℕ)) (l : Line)
    → AllShort names
    → IsLine l
    → (l' : Line) × (complete names l ≡ some l') × IsLine l'
unfolding complete AllShort
complete-IsLine [] l a v = (l, refl, v)
complete-IsLine (name ∷ names) l a v =
    let text = take l.position l.input ++ drop l.position name in
    let short : length text < max_input = omega (
      arith,
      v.at_end,
      v.room,
      a.0,
      length-append (take l.position l.input) (drop l.position name),
      length-take l.position l.input,
      length-drop l.position name,
    ) in
    let room : fits max_input text ≡ true = ground (arith, short) in
    elim (Bool-cases (same_front l.position l.input name)) [
      | inl e ↦
          rw (e, room)
            (_, refl, record { shell = print-IsValid _ _ v.shell; at_end = refl; room = short })
      | inr e ↦ rw e (complete-IsLine names l a.1 v)
    ]

add_char-IsLine : (c : ℕ) (l : Line) → IsLine l → l.position < max_input - 2 → IsLine (add_char c l)
unfolding add_char
add_char-IsLine c l v h = record {
  shell = if-keeps IsValid l.shell.echo_enabled _ _ (print-IsValid _ _ v.shell) v.shell;
  at_end = omega (
    arith,
    v.at_end,
    length-append (take l.position l.input) (c ∷ []),
    length-take l.position l.input,
  );
  room =
      omega (
        arith,
        h,
        length-append (take l.position l.input) (c ∷ []),
        length-take l.position l.input,
      );
}

beep-IsLine :
    (out : Ports) (l : Line)
    → IsLine l
    → IsLine (record l { shell = record l.shell { term = record l.shell.term { out = out } } })
beep-IsLine out l v = record {
  shell = on_term l.shell _ v.shell (same_cursor l.shell.term _ refl refl v.shell.screen);
  at_end = v.at_end;
  room = v.room;
}

backspace-IsLine : (l : Line) → IsLine l → IsLine (backspace l)
unfolding backspace
backspace-IsLine l v = record {
  shell = print-IsValid _ _ v.shell;
  at_end = omega (arith, v.at_end, length-take (l.position - 1) l.input);
  room = omega (arith, v.room, length-take (l.position - 1) l.input);
}

older_inside : (s : Shell) → IsValid s → older s < history_size
unfolding older
older_inside s v = elim (Option-cases s.current_history) [
  | inl e ↦ rw e (omega (arith, v.log.inside))
  | inr (i, e) ↦ rw e (omega (arith, v.log.recalled i e))
]

commands-AllShort : AllShort commands
unfolding AllShort
commands-AllShort = ground arith

type_key-IsLine : (inb : Ports → ℕ → ℕ) (c : ℕ) (l : Line) → IsLine l → IsLine (type_key inb c l)
unfolding type_key
type_key-IsLine inb c l v =
    elim (Bool-cases (ltb l.position (max_input - 2) && (leb 32 c && leb c 126))) [
      | inl e ↦ rw e (add_char-IsLine c l v (ground arith))
      | inr e ↦ rw e (if-keeps IsLine (leb (max_input - 2) l.position) _ _ (beep-IsLine _ l v) v)
    ]

-- A key that is not Enter never writes past the end of the line or reads past the history, whatever
-- was typed before: the shell stays valid, and `position` is again at the terminator of a line that
-- fits into its array.
pub press-IsLine :
    (inb : Ports → ℕ → ℕ) (c : ℕ) (l : Line)
    → IsLine l
    → (l' : Line) × (press inb c l ≡ some l') × IsLine l'
unfolding press
press-IsLine inb c l v = elim (Bool-cases ((c == 8) && ltb 0 l.position)) [
  | inl a ↦ rw a (_, refl, backspace-IsLine l v)
  | inr a ↦ elim (Bool-cases ((c == 0x48) && ltb 0 l.shell.history_pos)) [
    | inl b ↦ rw (a, b) (recall-IsLine (older l.shell) l (older_inside l.shell v.shell) v)
    | inr b ↦ elim (Bool-cases (c == 0x50)) [
      | inl d ↦ elim (Option-cases l.shell.current_history) [
        | inl e ↦ rw (a, b, d, e) (_, refl, type_key-IsLine inb c l v)
        | inr (i, e) ↦ rw (a, b, d, e) (newer-IsLine i l v)
      ]
      | inr d ↦ elim (Bool-cases (c == 9)) [
        | inl t ↦ elim (Bool-cases (ltb 0 l.position)) [
          | inl some_typed ↦
              rw (a, b, d, t, some_typed) (complete-IsLine commands l commands-AllShort v)
          | inr nothing ↦ rw (a, b, d, t, nothing) (l, refl, v)
        ]
        | inr t ↦ rw (a, b, d, t) (_, refl, type_key-IsLine inb c l v)
      ]
    ]
  ]
]
