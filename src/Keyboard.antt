-- ===== src/Keyboard.antt =====
-- The keyboard of kernel/interrupts.c: the scancode table, the interrupt handler that fills the key
-- buffer, and keyboard_getchar, which empties it.
pub mod Queue
pub mod Race
use basedos.Prelude.{
  ℕ, zero, suc, ◌+◌, ◌-◌, ◌≤◌, ◌<◌, ltb, leb, ◌==◌, if◌then◌else◌, List, [], ◌∷◌, get_or, length,
  replicate, Option, none, some, not, ◌&&◌, ◌%◌, ◌/◌,
}
use basedos.Memory.{Memory, store}

-- scancode_to_ascii
abbrev pub scancode_to_ascii : List ℕ
scancode_to_ascii =
    0
    ∷ 0
    ∷ b'1'
    ∷ b'2'
    ∷ b'3'
    ∷ b'4'
    ∷ b'5'
    ∷ b'6'
    ∷ b'7'
    ∷ b'8'
    ∷ b'9'
    ∷ b'0'
    ∷ b'-'
    ∷ b'='
    ∷ 8
    ∷ b'\t'
    ∷ b'q'
    ∷ b'w'
    ∷ b'e'
    ∷ b'r'
    ∷ b't'
    ∷ b'y'
    ∷ b'u'
    ∷ b'i'
    ∷ b'o'
    ∷ b'p'
    ∷ b'['
    ∷ b']'
    ∷ b'\r'
    ∷ 0
    ∷ b'a'
    ∷ b's'
    ∷ b'd'
    ∷ b'f'
    ∷ b'g'
    ∷ b'h'
    ∷ b'j'
    ∷ b'k'
    ∷ b'l'
    ∷ b';'
    ∷ b'\''
    ∷ b'`'
    ∷ 0
    ∷ b'\\'
    ∷ b'z'
    ∷ b'x'
    ∷ b'c'
    ∷ b'v'
    ∷ b'b'
    ∷ b'n'
    ∷ b'm'
    ∷ b','
    ∷ b'.'
    ∷ b'/'
    ∷ 0
    ∷ b'*'
    ∷ 0
    ∷ b' '
    ∷ replicate 88 0

-- The static variables, `buffer` by index, and the bytes sent to I/O ports, the last one first.
pub record Keyboard : Type 0 where
  pub buffer : Memory
  pub pos : ℕ
  pub out : List (ℕ × ℕ)

-- the character of a scancode below 0x80, 0 for a key without one
unfoldable pub ascii_of : ℕ → ℕ
ascii_of scancode = get_or scancode_to_ascii scancode 0

-- `if (ascii != 0 && key_buffer_pos < (int)(sizeof(key_buffer) - 1)) …`
unfoldable pub put_key : Keyboard → ℕ → Keyboard
put_key k ascii =
    if not (ascii == 0) && ltb k.pos 255
    then record k { buffer = store k.buffer k.pos ascii; pos = k.pos + 1 }
    else k

-- keyboard_handler_internal, for the byte that it reads from port 0x60
unfoldable pub keyboard_handler_internal : Keyboard → ℕ → Keyboard
keyboard_handler_internal k scancode =
    let k' = record k { out = (0x20, 0x20) ∷ k.out } in
    if scancode / 128 % 2 == 1
    then k'
    else if ltb scancode (length scancode_to_ascii)
    then put_key k' (ascii_of scancode)
    else k'

-- `for (; i < key_buffer_pos - 1; i++) key_buffer[i] = key_buffer[i + 1];` for `n` more rounds
pub shift : Memory → ℕ → ℕ → Memory
shift buffer i zero = buffer
shift buffer i (suc n) = shift (store buffer i (buffer (i + 1))) (i + 1) n

-- keyboard_getchar when no interrupt comes between its steps. `none` is the wait in `hlt`, which
-- only an interrupt ends.
pub keyboard_getchar : Keyboard → Option (ℕ × Keyboard)
keyboard_getchar k =
    if k.pos == 0
    then none
    else some (k.buffer 0, record k { buffer = shift k.buffer 0 (k.pos - 1); pos = k.pos - 1 })
