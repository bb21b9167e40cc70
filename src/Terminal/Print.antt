-- ===== src/Terminal/Print.antt =====
-- printk, terminal_write_hex and terminal_write_dec of kernel/terminal.c. A C string is the list of
-- its bytes; the text that itoa leaves in the buffer of printk is the numeral.
pub mod Number
pub mod Render
use basedos.Prelude.{
  ℕ, zero, suc, ◌+◌, ◌/◌, ◌%◌, ◌^◌, ltb, ◌==◌, if◌then◌else◌, ◌||◌, Bool, true, false, List, [],
  ◌∷◌, Option, none, some, get_or,
}
use basedos.Prelude.Text.{codes}
use mathlib.Core.Option
use basedos.Terminal.{Terminal, putchar, terminal_writestring}
use basedos.Str.Num.Print.{numeral}

-- an argument behind the format: a number, as the 32-bit pattern that va_arg reads, also for a `char`,
-- which is passed as an int; or a C string or NULL
pub data Arg : Type 0 where
  int : ℕ → Arg
  str : Option (List ℕ) → Arg

-- The conversions of printk; `none` is an argument that is missing, a number where the code reads a
-- pointer, or a pointer where it reads a number.
unfoldable pub print_number : Terminal → ℕ → List Arg → Option (Terminal × List Arg)
print_number t base (int num ∷ args) = some (terminal_writestring t (numeral base num), args)
print_number t base _ = none

unfoldable pub print_char : Terminal → List Arg → Option (Terminal × List Arg)
print_char t (int num ∷ args) = some (putchar t (num % 2 ^ 8), args)
print_char t _ = none

unfoldable pub print_string : Terminal → List Arg → Option (Terminal × List Arg)
print_string t (str none ∷ args) = some (terminal_writestring t (codes "(null)"), args)
print_string t (str (some text) ∷ args) = some (terminal_writestring t text, args)
print_string t _ = none

-- the `switch` of printk
unfoldable pub convert : Terminal → ℕ → List Arg → Option (Terminal × List Arg)
unfolding print_number print_char print_string
convert t f args =
    if f == b'd' || f == b'i'
    then print_number t 10 args
    else if f == b'u'
    then print_number t 10 args
    else if f == b'x' || f == b'X'
    then print_number t 16 args
    else if f == b'c'
    then print_char t args
    else if f == b's'
    then print_string t args
    else if f == b'%'
    then some (putchar t b'%', args)
    else some (putchar (putchar t b'%') f, args)

-- printk. At a `%` at the end the code steps over the terminator and reads on behind the format:
-- `none`.
unfoldable pub printk : Terminal → List ℕ → List Arg → Option Terminal
unfolding Option.bind
printk t [] args = some t
printk t (c ∷ []) args = if c == b'%' then none else some (putchar t c)
printk t (c ∷ f ∷ format) args =
    let converted = Option.bind (convert t f args) (λ r. printk r.0 format r.1) in
    let plain = printk (putchar t c) (f ∷ format) args in if c == b'%' then converted else plain

-- `digits[value & 0xF]`
abbrev pub hex_digit : ℕ → ℕ
hex_digit value = get_or (codes "0123456789ABCDEF") value 0

-- the loop that fills `buffer[i]` for the `k` indices left, from the last one down
unfoldable pub hex_loop : ℕ → ℕ → List ℕ → List ℕ
hex_loop zero value buffer = buffer
hex_loop (suc k) value buffer = hex_loop k (value / 16) (hex_digit (value % 16) ∷ buffer)

unfoldable pub terminal_write_hex : Terminal → ℕ → Terminal
terminal_write_hex t value =
    terminal_writestring (terminal_writestring t (codes "0x")) (hex_loop 8 value [])

-- `while (value > 0)` with its body; `none` says that the buffer, of `k` digits, is too short
unfoldable pub dec_loop : ℕ → ℕ → List ℕ → Option (List ℕ)
dec_loop zero value buffer = if value == 0 then some buffer else none
dec_loop (suc k) value buffer =
    let rest = dec_loop k (value / 10) ((b'0' + value % 10) ∷ buffer) in
    if value == 0 then some buffer else rest

unfoldable pub terminal_write_dec : Terminal → ℕ → Option Terminal
terminal_write_dec t value =
    Option.map (terminal_writestring t)
      (if value == 0 then some (b'0' ∷ []) else dec_loop 10 value [])
