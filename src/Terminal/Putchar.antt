-- ===== src/Terminal/Putchar.antt =====
-- What putchar of terminal.c does to the screen and the cursor.
use basedos.Prelude.{
  ℕ, suc, ◌+◌, ◌*◌, ◌/◌, ◌%◌, ◌≤◌, ◌<◌, ◌≡◌, refl, ◌∙◌, ap, ltb, if◌then◌else◌, arith, List, [],
  ◌∷◌, map, length, fun_ext,
}
use basedos.Memory.{store, put, put-cons}
use basedos.Terminal.{
  Terminal, IsValid, cell, blank, outb, update_cursor, put_char, wrap_line, scroll, putchar,
  terminal_writestring,
}
use basedos.Terminal.Screen.{scrolled, scroll-scrolled}

-- the state between the branches and the line wrap
record Placed (t u : Terminal) : Type 0 where
  column : u.cursor_x ≤ 80
  line : u.cursor_y ≤ 25
  edge : u.cursor_y ≡ 25 → u.cursor_x ≡ 0
  rest : (i : ℕ) → 2000 ≤ i → u.video i ≡ t.video i

put_char-Placed : (t : Terminal) (c : ℕ) → IsValid t → Placed t (put_char t c)
unfolding put_char
put_char-Placed t c v = record {
  column = ground arith;
  line = ground arith;
  edge = ground arith;
  rest = λ i h. ground arith;
}

wrap_line-Placed :
    (t u : Terminal) → Placed t u → Placed t (wrap_line u) × ((wrap_line u).cursor_x < 80)
unfolding wrap_line
wrap_line-Placed t u p = (
  record {
    column = ground (arith, p.edge);
    line = ground arith;
    edge = ground arith;
    rest = λ i h. ground (arith, p.rest i h);
  },
  ground arith,
)

-- putchar keeps the cursor on the screen, and writes no cell beyond the 2000 of the screen.
pub putchar-IsValid :
    (t : Terminal) (c : ℕ)
    → IsValid t
    → IsValid (putchar t c) × ((i : ℕ) → 2000 ≤ i → (putchar t c).video i ≡ t.video i)
unfolding putchar update_cursor outb scroll
putchar-IsValid t c v =
    let u = wrap_line (put_char t c) in
    let (p, x) = wrap_line-Placed t (put_char t c) (put_char-Placed t c v) in
    (
      ground (arith, p.line),
      λ i h. ground (arith, p.rest i h, scroll-scrolled u.video (blank u.attribute) i),
    )

-- the index of the cursor's cell
abbrev pub position : Terminal → ℕ
position t = t.cursor_y * 80 + t.cursor_x

put_char-out : (t : Terminal) (c : ℕ) → (put_char t c).out ≡ t.out
unfolding put_char
put_char-out t c = ground arith

wrap_line-out : (t : Terminal) → (wrap_line t).out ≡ t.out
unfolding wrap_line
wrap_line-out t = ground arith

scroll-out : (t : Terminal) → (scroll t).out ≡ t.out
unfolding scroll
scroll-out t = ground arith

update_cursor_lem :
    (t : Terminal)
    → position t < 2000
    → (update_cursor t).out
      ≡ (0x3D5, position t / 256)
        ∷ (0x3D4, 0x0E)
        ∷ (0x3D5, position t % 256)
        ∷ (0x3D4, 0x0F)
        ∷ t.out
unfolding update_cursor outb
update_cursor_lem t h = ground arith

position-update_cursor : (t : Terminal) → position (update_cursor t) ≡ position t
unfolding update_cursor outb
position-update_cursor t = refl

cursor_on_screen : (t : Terminal) → IsValid (update_cursor t) → position t < 2000
unfolding update_cursor outb
cursor_on_screen t v = omega (arith, v.column, v.line)

-- putchar ends with the hardware cursor at the cursor's cell: the low and the high byte of the
-- cell's index go to the cursor registers 0x0F and 0x0E.
pub putchar_cursor :
    (t : Terminal) (c : ℕ)
    → IsValid t
    → let at = position (putchar t c) in
      (putchar t c).out
      ≡ (0x3D5, at / 256) ∷ (0x3D4, 0x0E) ∷ (0x3D5, at % 256) ∷ (0x3D4, 0x0F) ∷ t.out
unfolding putchar
putchar_cursor t c v =
    let u = scroll (wrap_line (put_char t c)) in
    let on_screen : position u < 2000 =
      cursor_on_screen (scroll (wrap_line (put_char t c))) (putchar-IsValid t c v).0 in
    let same : u.out ≡ t.out =
      scroll-out (wrap_line (put_char t c)) ∙ wrap_line-out (put_char t c) ∙ put_char-out t c in
    rw (position-update_cursor u, update_cursor_lem u on_screen, same)

-- what a printing character does
pub record Typed (t : Terminal) (c : ℕ) (t' : Terminal) : Type 0 where
  pub attribute : t'.attribute ≡ t.attribute
  pub inside :
      position t < 1999
      → (position t' ≡ position t + 1)
        × ((i : ℕ) → t'.video i ≡ store t.video (position t) (cell t.attribute c) i)
  pub at_end :
      position t ≡ 1999
      → (position t' ≡ 1920)
        × ((i : ℕ)
            → t'.video i ≡ scrolled (store t.video 1999 (cell t.attribute c)) (blank t.attribute) i)

-- the terminal after a printing character is stored, before the line wrap
abbrev stored : Terminal → ℕ → Terminal
stored t c = record t {
  video = store t.video (position t) (cell t.attribute c);
  cursor_x = t.cursor_x + 1;
}

put_char-stored : (t : Terminal) (c : ℕ) → 32 ≤ c → put_char t c ≡ stored t c
unfolding put_char
put_char-stored t c h = ground arith

scroll-Typed :
    (t : Terminal) (c : ℕ) → IsValid t → Typed t c (update_cursor (scroll (wrap_line (stored t c))))
unfolding update_cursor outb scroll wrap_line
scroll-Typed t c v = record {
  attribute = ground arith;
  inside = λ h. (ground arith, λ i. ground arith);
  at_end = λ h. (
    ground arith,
    λ i. ground (
      arith,
      scroll-scrolled (store t.video (position t) (cell t.attribute c)) (blank t.attribute) i,
    ),
  );
}

-- putchar of a byte from 32 on, with the cursor on the screen, stores it in the cursor's cell, below
-- 128 with the current attribute and otherwise with 0xFF, and moves the cursor to the next cell; from
-- the last cell of the screen it scrolls, and the cursor goes to the start of the last line.
pub putchar-Typed : (t : Terminal) (c : ℕ) → IsValid t → 32 ≤ c → Typed t c (putchar t c)
unfolding putchar
putchar-Typed t c v h = rw (put_char-stored t c h) (scroll-Typed t c v)

-- the bytes of a text that are printing characters
abbrev pub AllPrinting : List ℕ → Type 0
AllPrinting [] = Unit {0}
AllPrinting (c ∷ str) = (32 ≤ c) × AllPrinting str

puts_next :
    (t : Terminal) (c : ℕ) (str : List ℕ) (u : Terminal)
    → u.attribute ≡ t.attribute
    → position u ≡ position t + 1
    → ((i : ℕ) → u.video i ≡ store t.video (position t) (cell t.attribute c) i)
    → (i : ℕ)
    → put u.video (position u) (map (cell u.attribute) str) i
      ≡ put t.video (position t) (map (cell t.attribute) (c ∷ str)) i
puts_next t c str u same next holds i =
    let next' : position u ≡ suc (position t) = omega (arith, next) in
    rw (next', same, fun_ext holds)
      (put-cons t.video (position t) (cell t.attribute c) i (map (cell t.attribute) str))

puts-put :
    (t : Terminal) (str : List ℕ)
    → IsValid t
    → AllPrinting str
    → position t + length str < 2000
    → let t' = terminal_writestring t str in
      (position t' ≡ position t + length str)
      × ((i : ℕ) → t'.video i ≡ put t.video (position t) (map (cell t.attribute) str) i)
unfolding terminal_writestring put
puts-put t [] v a h = (omega arith, λ i. refl)
puts-put t (c ∷ str) v a h =
    let u = putchar t c in
    let typed = putchar-Typed t c v a.0 in
    let (next, holds) = typed.inside (omega arith) in
    let (end, rest) = puts-put u str (putchar-IsValid t c v).0 a.1 (omega (arith, next)) in
    (omega (arith, end, next), λ i. rest i ∙ puts_next t c str u typed.attribute next holds i)

-- what a character looks like in the video memory: the byte in the lower half, and above it the
-- attribute, or 0xFF for a byte from 128 on
abbrev pub shows : ℕ → ℕ → ℕ
shows attribute c = (if ltb c 128 then attribute else 255) * 256 + c

cell-shows : (attribute c : ℕ) → cell attribute c ≡ shows attribute c
cell-shows attribute c = ground arith

-- Text of bytes from 32 on that ends before the last cell of the screen is written into consecutive
-- cells from the cursor on, over the line ends, and the cursor stands behind it. A byte below 128 has
-- the current attribute above it, and a byte from 128 on has 0xFF there. No other cell changes.
pub terminal_writestring-put :
    (t : Terminal) (str : List ℕ)
    → IsValid t
    → AllPrinting str
    → position t + length str < 2000
    → let t' = terminal_writestring t str in
      (position t' ≡ position t + length str)
      × ((i : ℕ) → t'.video i ≡ put t.video (position t) (map (shows t.attribute) str) i)
terminal_writestring-put t str v a h =
    let (end, holds) = puts-put t str v a h in
    let same : cell t.attribute ≡ shows t.attribute = fun_ext (cell-shows t.attribute) in
    (end, λ i. holds i ∙ ap (λ (f : ℕ → ℕ). put t.video (position t) (map f str) i) same)
