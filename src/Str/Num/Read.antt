-- ===== src/Str/Num/Read.antt =====
-- What atoi of lib/string.c reads in a text.
use basedos.Prelude.{
  ℕ, zero, suc, ◌+◌, ◌-◌, ◌*◌, ◌%◌, ◌^◌, ◌<◌, ◌≡◌, refl, arith, leb, ◌==◌, if◌then◌else◌, ◌&&◌,
  ◌||◌, List, [], ◌∷◌, length, some,
}
use mathlib.Core.Option
use basedos.Memory.{Memory, CString}
use basedos.Str.Num.{negate, skip_space, number_loop, signed_number, atoi}

-- the digits at the front of a text, behind those of `acc`, on 32 bits
unfoldable pub leading_number : ℕ → List ℕ → ℕ
leading_number acc [] = acc
leading_number acc (x ∷ xs) =
    if leb b'0' x && leb x b'9' then leading_number ((acc * 10 + (x - b'0')) % 2 ^ 32) xs else acc

-- a number with its sign
unfoldable pub signed_value : List ℕ → ℕ
unfolding leading_number
signed_value [] = 0
signed_value (x ∷ xs) =
    if x == b'-'
    then negate (leading_number 0 xs)
    else if x == b'+'
    then leading_number 0 xs
    else leading_number 0 (x ∷ xs)

-- the number that a text stands for, as a 32-bit pattern
unfoldable pub value_of : List ℕ → ℕ
unfolding signed_value
value_of [] = 0
value_of (x ∷ xs) =
    if x == b' ' || x == b'\t' || x == b'\n' then value_of xs else signed_value (x ∷ xs)

number_loop-leading_number :
    (fuel : ℕ) (m : Memory) (p acc : ℕ) (xs : List ℕ)
    → CString m p xs
    → length xs < fuel
    → number_loop fuel m p acc ≡ some (leading_number acc xs)
unfolding number_loop leading_number
number_loop-leading_number zero m p acc xs c h = absurd (omega arith)
number_loop-leading_number (suc fuel) m p acc [] c h = rw c refl
number_loop-leading_number (suc fuel) m p acc (x ∷ xs) c h = ground (
  arith,
  number_loop-leading_number fuel m (suc p) ((acc * 10 + (x - b'0')) % 2 ^ 32) xs c.2 (omega arith),
)

signed_number-signed_value :
    (fuel : ℕ) (m : Memory) (p : ℕ) (xs : List ℕ)
    → CString m p xs
    → length xs < fuel
    → signed_number fuel m p ≡ some (signed_value xs)
unfolding signed_number signed_value
signed_number-signed_value fuel m p [] c h =
    ground (arith, number_loop-leading_number fuel m p 0 [] c h)
signed_number-signed_value fuel m p (x ∷ xs) c h = ground (
  arith,
  number_loop-leading_number fuel m p 0 (x ∷ xs) c h,
  number_loop-leading_number fuel m (suc p) 0 xs c.2 (omega arith),
)

from_space :
    (fuel k : ℕ) (m : Memory) (p : ℕ) (xs : List ℕ)
    → CString m p xs
    → length xs < fuel
    → length xs < k
    → Option.bind (skip_space k m p) (signed_number fuel m) ≡ some (value_of xs)
unfolding skip_space value_of Option.bind
from_space fuel zero m p xs c h l = absurd (omega arith)
from_space fuel (suc k) m p [] c h l = rw c (signed_number-signed_value fuel m p [] c h)
from_space fuel (suc k) m p (x ∷ xs) c h l = ground (
  arith,
  from_space fuel k m (suc p) xs c.2 (omega arith) (omega arith),
  signed_number-signed_value fuel m p (x ∷ xs) c h,
)

-- atoi of a C string ends, when it has as much fuel as the text has bytes with the terminator. It
-- returns the number of the text's front: spaces, one sign, and the digits up to the first other byte,
-- on 32 bits; 0 if there are none.
pub atoi-value_of :
    (fuel : ℕ) (m : Memory) (str : ℕ) (xs : List ℕ)
    → CString m str xs
    → length xs < fuel
    → atoi fuel m str ≡ some (value_of xs)
unfolding atoi
atoi-value_of fuel m str xs c h = from_space fuel fuel m str xs c h h
