-- ===== src/Terminal/Cursor.antt =====
-- The cursor of kernel/terminal.c stays on the screen.
use basedos.Prelude.{ℕ, ◌≡◌, refl, arith, List, [], ◌∷◌}
use basedos.Terminal.{
  Terminal, IsValid, outb, update_cursor, terminal_initialize, putchar, terminal_writestring,
  terminal_setcolor,
}
use basedos.Terminal.Putchar.{putchar-IsValid}

pub same_cursor :
    (t u : Terminal) → u.cursor_x ≡ t.cursor_x → u.cursor_y ≡ t.cursor_y → IsValid t → IsValid u
same_cursor t u x y v = record {
  column = omega (arith, x, v.column);
  line = omega (arith, y, v.line);
}

pub terminal_writestring-IsValid :
    (t : Terminal) (text : List ℕ) → IsValid t → IsValid (terminal_writestring t text)
unfolding terminal_writestring
terminal_writestring-IsValid t [] v = v
terminal_writestring-IsValid t (c ∷ text) v =
    terminal_writestring-IsValid (putchar t c) text (putchar-IsValid t c v).0

pub terminal_setcolor-IsValid :
    (fg bg : ℕ) (t : Terminal) → IsValid t → IsValid (terminal_setcolor fg bg t)
unfolding terminal_setcolor
terminal_setcolor-IsValid fg bg t v = same_cursor t (terminal_setcolor fg bg t) refl refl v

pub outb-IsValid : (port value : ℕ) (t : Terminal) → IsValid t → IsValid (outb port value t)
unfolding outb
outb-IsValid port value t v = same_cursor t (outb port value t) refl refl v

pub terminal_initialize-IsValid : (t : Terminal) → IsValid (terminal_initialize t)
unfolding terminal_initialize update_cursor outb
terminal_initialize-IsValid t = record { column = omega arith; line = omega arith }
