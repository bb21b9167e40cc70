-- ===== src/Tests/Str.antt =====
-- lib/string.c at concrete inputs.
use basedos.Prelude.{ℕ, ◌-◌, ◌^◌, ◌≡◌, ◌↔◌, arith, List, [], ◌∷◌, some, get_or}
use basedos.Prelude.Int.{ℤ, pos}
use basedos.Memory.{Memory}
use basedos.Str.Compare.{strcmp, Before, IsNegative, strcmp_order}
use basedos.Str.Num.{itoa, atoi}
use basedos.Str.Num.Read.{value_of, atoi-value_of}
use basedos.Str.Num.Round.{atoi-itoa}

-- "ls a" at 1, "lt" at 6, " a" at 9, and zeros elsewhere
abbrev bytes : List ℕ
bytes = 0 ∷ b'l' ∷ b's' ∷ b' ' ∷ b'a' ∷ 0 ∷ b'l' ∷ b't' ∷ 0 ∷ b' ' ∷ b'a' ∷ 0 ∷ []

abbrev ram : Memory
ram q = get_or bytes q 0

abbrev ls_a : List ℕ
ls_a = b'l' ∷ b's' ∷ b' ' ∷ b'a' ∷ []

abbrev lt : List ℕ
lt = b'l' ∷ b't' ∷ []

abbrev blanks : List ℕ
blanks = b' ' ∷ b'a' ∷ []

strcmp_order_example :
    (r : ℤ) × (strcmp 9 ram 1 6 ≡ some r)
    × ((r ≡ pos 0) ↔ (ls_a ≡ lt))
    × (IsNegative r ↔ Before ls_a lt)
strcmp_order_example = strcmp_order 9 ram 1 6 ls_a lt (omega arith) (omega arith) (omega arith)

atoi-itoa_example :
    (m' : Memory) × (itoa 33 ram (2 ^ 32 - 42) 20 10 ≡ some m')
    × (atoi 33 m' 20 ≡ some (2 ^ 32 - 42))
atoi-itoa_example = atoi-itoa ram (2 ^ 32 - 42) 20 (omega arith)

-- no digit is at the front of "ls a"
atoi-value_of_example : atoi 5 ram 1 ≡ some (value_of ls_a)
atoi-value_of_example = atoi-value_of 5 ram 1 ls_a (omega arith) (omega arith)
