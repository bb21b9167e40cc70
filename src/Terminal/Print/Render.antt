-- ===== src/Terminal/Print/Render.antt =====
-- The text that printk of kernel/terminal.c prints.
use basedos.Prelude.{
  ℕ, ◌-◌, ◌^◌, ◌≤◌, ◌<◌, ◌≡◌, refl, leb, sym, ◌∙◌, ap, arith, ◌==◌, ==_iff, if◌then◌else◌, not,
  ◌&&◌, ◌%◌, ltb, ◌||◌, Bool, true, false, List, [], ◌∷◌, ◌++◌, Option, none, some, Bool-cases,
  Option-cases, inl, inr,
}
use basedos.Prelude.Text.{codes}
use mathlib.Core.Option
use basedos.Terminal.{Terminal, putchar, terminal_writestring}
use basedos.Terminal.Print.{Arg, int, str, convert, printk}
use basedos.Str.Num.{negate}
use basedos.Str.Num.Print.{numeral, digits, reverse_onto}

-- the decimal digits of a number without a sign
abbrev decimal : ℕ → List ℕ
decimal num = if num == 0 then b'0' ∷ [] else reverse_onto (digits 32 10 num) []

-- what an argument looks like: `%u` shows the number without a sign, and `%c` its low byte
shown : ℕ → Arg → Option (List ℕ)
shown f (int num) =
    if f == b'd' || f == b'i'
    then some (numeral 10 num)
    else if f == b'u'
    then some (decimal num)
    else if f == b'x' || f == b'X'
    then some (numeral 16 num)
    else if f == b'c'
    then some ((num % 2 ^ 8) ∷ [])
    else none
shown f (str none) = if f == b's' then some (codes "(null)") else none
shown f (str (some text)) = if f == b's' then some text else none

-- whether a conversion takes an argument
takes_argument : ℕ → Bool
takes_argument f =
    f == b'd' || f == b'i' || f == b'u' || f == b'x' || f == b'X' || f == b'c' || f == b's'

-- the text of a conversion
conversion : ℕ → List Arg → Option (List ℕ)
conversion f args = elim (takes_argument f) [
  | true ↦ elim args [ [] ↦ none | a ∷ rest ↦ shown f a ]
  | false ↦ some (if f == b'%' then b'%' ∷ [] else b'%' ∷ f ∷ [])
]

-- the arguments behind a conversion
arguments_left : ℕ → List Arg → List Arg
arguments_left f [] = []
arguments_left f (a ∷ args) = if takes_argument f then args else a ∷ args

-- the text that a format stands for
unfoldable pub render : List ℕ → List Arg → Option (List ℕ)
unfolding Option.bind conversion shown takes_argument arguments_left
render [] args = some []
render (c ∷ []) args = if c == b'%' then none else some (c ∷ [])
render (c ∷ f ∷ format) args =
    let rest = render format (arguments_left f args) in
    let converted =
      Option.bind (conversion f args) (λ text. Option.map (λ more. text ++ more) rest) in
    let plain = Option.map (λ more. c ∷ more) (render (f ∷ format) args) in
    if c == b'%' then converted else plain

-- whether the argument of a conversion, if that is `%u`, is a number below 2^31
small_unsigned : ℕ → List Arg → Bool
small_unsigned f (int num ∷ args) = not (f == b'u') || ltb num (2 ^ 31)
small_unsigned f args = true

-- whether each `%u` of a format has an argument below 2^31
unfoldable pub unsigned_fit : List ℕ → List Arg → Bool
unfolding small_unsigned arguments_left takes_argument
unsigned_fit [] args = true
unsigned_fit (c ∷ []) args = true
unsigned_fit (c ∷ f ∷ format) args =
    let converted = small_unsigned f args && unsigned_fit format (arguments_left f args) in
    let plain = unsigned_fit (f ∷ format) args in if c == b'%' then converted else plain

terminal_writestring-append :
    (t : Terminal) (xs ys : List ℕ)
    → terminal_writestring t (xs ++ ys) ≡ terminal_writestring (terminal_writestring t xs) ys
unfolding terminal_writestring
terminal_writestring-append t [] ys = refl
terminal_writestring-append t (x ∷ xs) ys = terminal_writestring-append (putchar t x) xs ys

numeral-decimal : (num : ℕ) → num < 2 ^ 31 → numeral 10 num ≡ decimal num
unfolding numeral
numeral-decimal num h = ground arith

convert-conversion :
    (t : Terminal) (f : ℕ) (args : List Arg)
    → small_unsigned f args ≡ true
    → convert t f args
      ≡ Option.map
          (λ text. (terminal_writestring t text, arguments_left f args))
          (conversion f args)
unfolding convert conversion arguments_left takes_argument shown terminal_writestring small_unsigned
convert-conversion t f [] h = ground arith
convert-conversion t f (int num ∷ args) h = elim (Bool-cases (f == b'u')) [
  | inl e ↦
      let same : f ≡ b'u' = (==_iff f b'u').0 e in
      let small : ltb num (2 ^ 31) ≡ true = ground arith in
      rw (same, numeral-decimal num (ground arith)) refl
  | inr e ↦ ground arith
]
convert-conversion t f (str none ∷ args) h = ground arith
convert-conversion t f (str (some text) ∷ args) h = ground arith

-- the text printed first, and what comes behind it
print_after :
    (t : Terminal) (text : List ℕ) (more : Option (List ℕ))
    → Option.map (terminal_writestring (terminal_writestring t text)) more
      ≡ Option.map (terminal_writestring t) (Option.map (λ xs. text ++ xs) more)
print_after t text none = refl
print_after t text (some xs) = ap some (sym (terminal_writestring-append t text xs))

-- printk, where each `%u` has a number below 2^31, prints the text that its format stands for,
-- character by character, and faults exactly where the format stands for none: where it ends in `%`,
-- or an argument is missing, or is a number in place of a pointer or a pointer in place of a number.
pub printk-render :
    (t : Terminal) (format : List ℕ) (args : List Arg)
    → unsigned_fit format args ≡ true
    → printk t format args ≡ Option.map (terminal_writestring t) (render format args)
unfolding printk render unsigned_fit terminal_writestring
printk-render t [] args h = refl
printk-render t (c ∷ []) args h = ground arith
printk-render t (c ∷ f ∷ format) args h = elim (Bool-cases (c == b'%')) [
  | inl e ↦
      let both : (small_unsigned f args && unsigned_fit format (arguments_left f args)) ≡ true =
        ground arith in
      let small : small_unsigned f args ≡ true = ground arith in
      let rest : unsigned_fit format (arguments_left f args) ≡ true = ground arith in
      elim (Option-cases (conversion f args)) [
        | inl n ↦ rw (e, convert-conversion t f args small, n) refl
        | inr (text, s) ↦
            rw (e, convert-conversion t f args small, s)
              (printk-render (terminal_writestring t text) format (arguments_left f args) rest
                ∙ print_after t text (render format (arguments_left f args)))
      ]
  | inr e ↦
      let plain : unsigned_fit (f ∷ format) args ≡ true = ground arith in
      rw e (
        printk-render (putchar t c) (f ∷ format) args plain
        ∙ print_after t (c ∷ []) (render (f ∷ format) args))
]

-- `%u` prints a number from 2^31 on with a minus sign, and then the decimal digits of its difference
-- to 2^32.
pub printk_unsigned :
    (t : Terminal) (num : ℕ)
    → 2 ^ 31 ≤ num
    → num < 2 ^ 32
    → printk t (codes "%u") (int num ∷ [])
      ≡ some (terminal_writestring (putchar t b'-') (reverse_onto (digits 32 10 (2 ^ 32 - num)) []))
unfolding printk convert numeral terminal_writestring
printk_unsigned t num big small =
    let other : (num == 0) ≡ false = ground arith in
    let negative : leb (2 ^ 31) num ≡ true = ground arith in
    let size : negate num ≡ 2 ^ 32 - num = omega arith in rw (other, negative, size) refl
