-- ===== src/Shell/Calc.antt =====
-- The calculator of kernel/shell.c. An `int` is its 32-bit pattern.
pub mod Division
use basedos.Prelude.{
  ℕ, ◌+◌, ◌-◌, ◌*◌, ◌/◌, ◌%◌, ◌^◌, leb, ◌==◌, if◌then◌else◌, ◌&&◌, Bool, true, false, List, [], ◌∷◌,
  Option, none, some, get_or,
}
use basedos.Prelude.Text.{codes}
use mathlib.Core.Option
use basedos.Str.Num.{negate}
use basedos.Str.Num.Read.{value_of}
use basedos.Str.Num.Print.{numeral}
use basedos.Shell.{Shell, print, print_all, print_error}

-- the absolute value of an `int`
abbrev pub magnitude : ℕ → ℕ
magnitude w = if leb (2 ^ 31) w then negate w else w

-- `a / b` and `a % b` round to zero
unfoldable pub quotient : ℕ → ℕ → ℕ
quotient a b =
    let q = magnitude a / magnitude b in
    if leb (2 ^ 31) a
    then (if leb (2 ^ 31) b then q else negate q)
    else (if leb (2 ^ 31) b then negate q else q)

unfoldable pub remainder : ℕ → ℕ → ℕ
remainder a b = let r = magnitude a % magnitude b in if leb (2 ^ 31) a then negate r else r

-- what an operator comes to
pub data Result : Type 0 where
  value : ℕ → Result
  division_by_zero : Result
  unknown_operator : Result

-- a division whose quotient does not fit, which the processor refuses
abbrev pub traps : ℕ → ℕ → Bool
traps a b = (a == 2 ^ 31) && (b == 2 ^ 32 - 1)

unfoldable pub divide : (ℕ → ℕ → ℕ) → ℕ → ℕ → Option Result
divide f a b =
    if b == 0 then some division_by_zero else if traps a b then none else some (value (f a b))

-- the `switch` of calculator; `none` is a trap
unfoldable pub operate : ℕ → ℕ → ℕ → Option Result
unfolding divide
operate a op b =
    if op == b'+'
    then some (value ((a + b) % 2 ^ 32))
    else if op == b'-'
    then some (value ((a + (2 ^ 32 - b)) % 2 ^ 32))
    else if op == b'*'
    then some (value (a * b % 2 ^ 32))
    else if op == b'/'
    then divide quotient a b
    else if op == b'%'
    then divide remainder a b
    else some unknown_operator

unfoldable pub answer : ℕ → ℕ → ℕ → Shell → Result → Shell
answer a op b s (value result) =
    print_all
      (numeral 10 a
        ∷ codes " "
        ∷ (op ∷ [])
        ∷ codes " "
        ∷ numeral 10 b
        ∷ codes " = "
        ∷ numeral 10 result
        ∷ codes "\n"
        ∷ [])
      s
answer a op b s division_by_zero = print_error (codes "Error: Division by zero\n") s
answer a op b s unknown_operator = print_error (codes "Error: Unknown operator\n") s

-- calculator, on the words of the command. The operator is the first byte of its word, or the
-- terminator.
unfoldable pub calculator : List (List ℕ) → Shell → Option Shell
unfolding answer
calculator (name ∷ x ∷ operator ∷ y ∷ []) s =
    let a = value_of x in
    let b = value_of y in
    let op = get_or operator 0 0 in Option.map (answer a op b s) (operate a op b)
calculator args s = some (
    print_all
      (codes "Usage: calc <num1> <operator> <num2>\n" ∷ codes "Operators: +, -, *, /, %\n" ∷ []) s)
