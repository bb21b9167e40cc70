-- ===== src/Tests/Terminal.antt =====
-- kernel/terminal.c at concrete inputs.
use basedos.Prelude.{refl, ℕ, ◌+◌, ◌*◌, ◌≡◌, arith, List, [], ◌∷◌}
use basedos.Prelude.Text.{codes}
use mathlib.Core.Option
use basedos.Memory.{put}
use basedos.Terminal.Print.{int, printk}
use basedos.Terminal.Print.Render.{render, unsigned_fit, printk-render}
use basedos.Terminal.{Terminal, cell, putchar, terminal_writestring}
use basedos.Terminal.Putchar.{position, Typed, putchar-Typed, terminal_writestring-put}

-- a blank screen with the cursor two cells before the end of its second line
abbrev pub near_end : Terminal
near_end = record { video = λ _. cell 7 b' '; cursor_x = 78; cursor_y = 1; attribute = 7; out = [] }

-- with a byte from 128 on
abbrev ok_text : List ℕ
ok_text = b'd' ∷ b'o' ∷ 200 ∷ b'e' ∷ []

putchar-Typed_example : Typed near_end b'x' (putchar near_end b'x')
putchar-Typed_example = putchar-Typed near_end b'x' (omega arith) (omega arith)

terminal_writestring-put_example :
    let t' = terminal_writestring near_end ok_text in
    (position t' ≡ 162)
    × ((i : ℕ)
        → t'.video i
          ≡ put
              (λ _. cell 7 b' ')
              158
              ((7 * 256 + b'd') ∷ (7 * 256 + b'o') ∷ (255 * 256 + 200) ∷ (7 * 256 + b'e') ∷ [])
              i)
terminal_writestring-put_example =
    terminal_writestring-put near_end ok_text (omega arith) (omega arith) (omega arith)

printk-render_example :
    printk near_end (codes "%d%%%c%u\n") (int 42 ∷ int 353 ∷ int 7 ∷ [])
    ≡ Option.map
        (terminal_writestring near_end)
        (render (codes "%d%%%c%u\n") (int 42 ∷ int 353 ∷ int 7 ∷ []))
unfolding unsigned_fit
printk-render_example =
    printk-render near_end (codes "%d%%%c%u\n") (int 42 ∷ int 353 ∷ int 7 ∷ []) refl
