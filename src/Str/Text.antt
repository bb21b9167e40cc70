-- ===== src/Str/Text.antt =====
-- What the functions of lib/string.c compute, on the list of the bytes of a text: positions of a
-- byte, and the lengths of leading runs.
use basedos.Prelude.{
  ℕ, suc, ◌==◌, if◌then◌else◌, Bool, true, false, ◌&&◌, ◌||◌, ◌≡◌, ◌↔◌, arith, Option, none, some,
  List, [], ◌∷◌,
}
use mathlib.Core.Option

unfoldable pub contains : ℕ → List ℕ → Bool
contains c [] = false
contains c (x ∷ xs) = (c == x) || contains c xs

-- the position of the first `c`
unfoldable pub index_of : ℕ → List ℕ → Option ℕ
index_of c [] = none
index_of c (x ∷ xs) = if x == c then some 0 else Option.map suc (index_of c xs)

-- the position of the last `c`, `last` if there is none
unfoldable pub last_index_of : ℕ → List ℕ → Option ℕ
last_index_of c [] = none
last_index_of c (x ∷ xs) = elim (last_index_of c xs) [
  | some i ↦ some (suc i)
  | none ↦ if x == c then some 0 else none
]

-- the length of the longest prefix of bytes from `set`
unfoldable pub span_in : List ℕ → List ℕ → ℕ
span_in [] set = 0
span_in (x ∷ xs) set = if contains x set then suc (span_in xs set) else 0

-- the length of the longest prefix with no byte of `set`
unfoldable pub span_not_in : List ℕ → List ℕ → ℕ
span_not_in [] set = 0
span_not_in (x ∷ xs) set = if contains x set then 0 else suc (span_not_in xs set)

-- `strcmp(a, b) == 0`
unfoldable pub text_eq : List ℕ → List ℕ → Bool
text_eq [] [] = true
text_eq [] (y ∷ ys) = false
text_eq (x ∷ xs) [] = false
text_eq (x ∷ xs) (y ∷ ys) = (x == y) && text_eq xs ys

pub text_eq_iff : (xs ys : List ℕ) → (text_eq xs ys ≡ true) ↔ (xs ≡ ys)
unfolding text_eq
text_eq_iff [] [] = ground arith
text_eq_iff [] (y ∷ ys) = ground arith
text_eq_iff (x ∷ xs) [] = ground arith
text_eq_iff (x ∷ xs) (y ∷ ys) = ground (arith, text_eq_iff xs ys)
