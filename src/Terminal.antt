-- ===== src/Terminal.antt =====
-- kernel/terminal.c: the VGA text screen. A C string that is printed is the list of its bytes.
pub mod Cursor
pub mod Print
pub mod Putchar
pub mod Screen
use basedos.Prelude.{
  ℕ, zero, suc, ◌+◌, ◌-◌, ◌*◌, ◌/◌, ◌%◌, ◌^◌, ◌<◌, ltb, leb, ◌==◌, if◌then◌else◌, List, [], ◌∷◌,
}
use basedos.Memory.{Memory, store}

-- The variables of terminal.c. `video` holds the 16-bit cells by their index in video memory, and
-- `out` the bytes sent to I/O ports, the last one first.
pub record Terminal : Type 0 where
  pub video : Memory
  pub cursor_x : ℕ
  pub cursor_y : ℕ
  pub attribute : ℕ
  pub out : List (ℕ × ℕ)

-- `(text_attribute << 8) | c` stored in 16 bits. A `char` is signed: from 128 on it is negative, and
-- its sign sets the upper byte.
abbrev pub cell : ℕ → ℕ → ℕ
cell attribute c = if ltb c 128 then attribute * 256 + c else 0xFF00 + c

abbrev pub blank : ℕ → ℕ
blank attribute = cell attribute b' '

pub outb : ℕ → ℕ → Terminal → Terminal
outb port value t = record t { out = (port, value) ∷ t.out }

pub update_cursor : Terminal → Terminal
unfolding outb
update_cursor t =
    let pos = (t.cursor_y * 80 + t.cursor_x) % 2 ^ 16 in
    outb 0x3D5 (pos / 2 ^ 8 % 2 ^ 8)
      (outb 0x3D4 0x0E (outb 0x3D5 (pos % 2 ^ 8) (outb 0x3D4 0x0F t)))

-- `for (x = ..; x < 80; x++) video_memory[at + x] = v`, with `k` rounds left
pub fill_row : Memory → ℕ → ℕ → ℕ → Memory
fill_row video at v zero = video
fill_row video at v (suc k) = fill_row (store video at v) (suc at) v k

-- the rows from `y` on, with `k` rows left
pub fill_rows : Memory → ℕ → ℕ → ℕ → Memory
fill_rows video y v zero = video
fill_rows video y v (suc k) = fill_rows (fill_row video (y * 80) v 80) (suc y) v k

-- `video_memory[y * 80 + x] = video_memory[(y + 1) * 80 + x]` for the `k` columns left from `x` on
pub move_row : Memory → ℕ → ℕ → ℕ → Memory
move_row video y x zero = video
move_row video y x (suc k) =
    move_row (store video (y * 80 + x) (video ((y + 1) * 80 + x))) y (suc x) k

pub move_rows : Memory → ℕ → ℕ → Memory
move_rows video y zero = video
move_rows video y (suc k) = move_rows (move_row video y 0 80) (suc y) k

-- terminal_initialize, and terminal_clear, which only calls it
pub terminal_initialize : Terminal → Terminal
terminal_initialize t =
    update_cursor
      (record t { video = fill_rows t.video 0 (blank t.attribute) 25; cursor_x = 0; cursor_y = 0 })

-- the branches of putchar on the character
pub put_char : Terminal → ℕ → Terminal
put_char t c =
    if c == b'\n'
    then record t { cursor_x = 0; cursor_y = t.cursor_y + 1 }
    else if c == b'\r'
    then record t { cursor_x = 0 }
    else if c == 8
    then (if ltb 0 t.cursor_x
        then record t {
          cursor_x = t.cursor_x - 1;
          video = store t.video (t.cursor_y * 80 + (t.cursor_x - 1)) (blank t.attribute);
        }
        else t)
    else if c == b'\t'
    then record t { cursor_x = (t.cursor_x + 8) / 8 * 8 }
    else record t {
      video = store t.video (t.cursor_y * 80 + t.cursor_x) (cell t.attribute c);
      cursor_x = t.cursor_x + 1;
    }

-- `if (cursor_x >= 80) …`
pub wrap_line : Terminal → Terminal
wrap_line t = if leb 80 t.cursor_x then record t { cursor_x = 0; cursor_y = t.cursor_y + 1 } else t

-- `if (cursor_y >= 25) …`: the lines move up and the last one is cleared
pub scroll : Terminal → Terminal
scroll t =
    if leb 25 t.cursor_y
    then record t {
      video = fill_row (move_rows t.video 0 24) (24 * 80) (blank t.attribute) 80;
      cursor_y = 24;
    }
    else t

pub putchar : Terminal → ℕ → Terminal
putchar t c = update_cursor (scroll (wrap_line (put_char t c)))

pub terminal_writestring : Terminal → List ℕ → Terminal
terminal_writestring t [] = t
terminal_writestring t (c ∷ str) = terminal_writestring (putchar t c) str

-- `(bg << 4) | (fg & 0x0F)` in 8 bits
pub terminal_setcolor : ℕ → ℕ → Terminal → Terminal
terminal_setcolor fg bg t = record t { attribute = (bg * 16 + fg % 16) % 2 ^ 8 }

-- The cursor is on the screen.
pub record IsValid (t : Terminal) : Type 0 where
  pub column : t.cursor_x < 80
  pub line : t.cursor_y < 25
