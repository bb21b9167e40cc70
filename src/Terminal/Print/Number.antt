-- ===== src/Terminal/Print/Number.antt =====
-- The digits that terminal_write_dec and terminal_write_hex of kernel/terminal.c print.
use native.Mathlib.Nat.{pow-suc}
use basedos.Prelude.{
  ℕ, zero, suc, ◌+◌, ◌-◌, ◌*◌, ◌/◌, ◌%◌, ◌^◌, ◌≤◌, ◌<◌, ◌≡◌, refl, ◌∙◌, ap, arith, ltb, ◌==◌,
  if◌then◌else◌, List, [], ◌∷◌, some, Bool-cases, inl, inr, length, true, ==_iff, ◌⊎◌, Bool, leb,
  ◌&&◌, ◌||◌,
}
use basedos.Prelude.Below.{passes_below, passes_below_lem}
use basedos.Prelude.Text.{codes}
use basedos.Terminal.{Terminal, terminal_writestring}
use basedos.Terminal.Print.{dec_loop, terminal_write_dec, hex_digit, hex_loop, terminal_write_hex}
use basedos.Str.Num.Round.{IsDecimal, number}

dec_loop-number :
    (k value : ℕ) (buffer : List ℕ)
    → value < 10 ^ k
    → value < 2 ^ 32
    → IsDecimal buffer
    → (text : List ℕ) × (dec_loop k value buffer ≡ some text)
      × IsDecimal text
      × (number 0 text ≡ number value buffer)
      × (length text ≤ k + length buffer)
unfolding dec_loop number
dec_loop-number zero value buffer h small d =
    (buffer, ground arith, d, ap (λ n. number n buffer) (omega arith), omega arith)
dec_loop-number (suc k) value buffer h small d =
    let ten = pow-suc 10 k in
    let (text, run, dec, same, short) =
      dec_loop-number k (value / 10) ((b'0' + value % 10) ∷ buffer) (omega arith) (omega arith)
        ((omega arith, omega arith), d) in
    elim (Bool-cases (value == 0)) [
      | inl e ↦ rw e (buffer, refl, d, ap (λ n. number n buffer) (ground arith), omega arith)
      | inr e ↦ rw e (text, run, dec, same ∙ ap (λ n. number n buffer) (omega arith), omega arith)
    ]

-- `x` is one of the digits 0 to 9 and A to F.
abbrev pub IsHexDigit : ℕ → Type 0
IsHexDigit x = ((b'0' ≤ x) × (x ≤ b'9')) ⊎ ((b'A' ≤ x) × (x ≤ b'F'))

-- a text of hexadecimal digits
abbrev pub IsHex : List ℕ → Type 0
IsHex [] = Unit {0}
IsHex (x ∷ xs) = IsHexDigit x × IsHex xs

-- the value of a hexadecimal digit
abbrev hex_value : ℕ → ℕ
hex_value x = if ltb x b'A' then x - b'0' else x - b'A' + 10

hex_table : passes_below (λ x. hex_value (hex_digit x) == x) 16 ≡ true
unfolding passes_below
hex_table = refl

-- the number that hexadecimal digits stand for, behind those of `acc`
pub hex_number : ℕ → List ℕ → ℕ
hex_number acc [] = acc
hex_number acc (x ∷ xs) = hex_number (acc * 16 + hex_value x) xs

hex_digit_lem : (d : ℕ) → d < 16 → hex_value (hex_digit d) ≡ d
hex_digit_lem d h =
    (==_iff (hex_value (hex_digit d)) d).0
      (passes_below_lem (λ x. hex_value (hex_digit x) == x) 16 d h hex_table)

-- whether a byte is a hexadecimal digit
abbrev is_hex : ℕ → Bool
is_hex x = (leb b'0' x && leb x b'9') || (leb b'A' x && leb x b'F')

hex_digits : passes_below (λ x. is_hex (hex_digit x)) 16 ≡ true
unfolding passes_below
hex_digits = refl

is_hex-IsHexDigit : (x : ℕ) → is_hex x ≡ true → IsHexDigit x
is_hex-IsHexDigit x h = ground arith

hex_digit-IsHexDigit : (d : ℕ) → d < 16 → IsHexDigit (hex_digit d)
hex_digit-IsHexDigit d h =
    is_hex-IsHexDigit (hex_digit d) (passes_below_lem (λ x. is_hex (hex_digit x)) 16 d h hex_digits)

hex_loop-number :
    (k value : ℕ) (buffer : List ℕ)
    → value < 16 ^ k
    → IsHex buffer
    → IsHex (hex_loop k value buffer)
      × (hex_number 0 (hex_loop k value buffer) ≡ hex_number value buffer)
      × (length (hex_loop k value buffer) ≡ k + length buffer)
unfolding hex_loop hex_number
hex_loop-number zero value buffer h d =
    (d, ap (λ n. hex_number n buffer) (omega arith), omega arith)
hex_loop-number (suc k) value buffer h d =
    let sixteen = pow-suc 16 k in
    let (hex, same, long) =
      hex_loop-number k (value / 16) (hex_digit (value % 16) ∷ buffer) (omega arith)
        (hex_digit-IsHexDigit (value % 16) (omega arith), d) in
    let digit = hex_digit_lem (value % 16) (omega arith) in
    (hex, same ∙ ap (λ n. hex_number n buffer) (omega arith), omega arith)

-- terminal_write_dec of a 32-bit number prints at most ten decimal digits, so that they fit into its
-- buffer, and they stand for the number.
pub terminal_write_dec_lem :
    (t : Terminal) (value : ℕ)
    → value < 2 ^ 32
    → (text : List ℕ) × (terminal_write_dec t value ≡ some (terminal_writestring t text))
      × IsDecimal text
      × (number 0 text ≡ value)
      × (length text ≤ 10)
unfolding terminal_write_dec number
terminal_write_dec_lem t value small =
    let (text, run, dec, same, short) = dec_loop-number 10 value [] (omega arith) small tt in
    elim (Bool-cases (value == 0)) [
      | inl e ↦ rw e (b'0' ∷ [], refl, ((omega arith, omega arith), tt), ground arith, omega arith)
      | inr e ↦ rw (e, run) (text, refl, dec, same, omega arith)
    ]

-- terminal_write_hex of a 32-bit number prints "0x" and eight digits from 0 to 9 and A to F, which stand
-- for the number.
pub terminal_write_hex_lem :
    (t : Terminal) (value : ℕ)
    → value < 2 ^ 32
    → (text : List ℕ) × (terminal_write_hex t value
        ≡ terminal_writestring (terminal_writestring t (codes "0x")) text)
      × IsHex text
      × (hex_number 0 text ≡ value)
      × (length text ≡ 8)
unfolding terminal_write_hex hex_number
terminal_write_hex_lem t value small =
    let (hex, same, long) = hex_loop-number 8 value [] (omega arith) tt in
    (hex_loop 8 value [], refl, hex, same, omega arith)
