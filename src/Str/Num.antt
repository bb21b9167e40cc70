-- ===== src/Str/Num.antt =====
-- atoi and itoa of lib/string.c. An `int` is its 32-bit pattern, and arithmetic on it wraps.
pub mod Print
pub mod Read
pub mod Round
use basedos.Prelude.{
  ℕ, zero, suc, ◌+◌, ◌-◌, ◌*◌, ◌/◌, ◌%◌, ◌^◌, ltb, leb, ◌==◌, if◌then◌else◌, ◌&&◌, ◌||◌, Bool, true,
  false, Option, none, some,
}
use mathlib.Core.Option
use basedos.Memory.{Memory, store}

-- `while (*str == ' ' || *str == '\t' || *str == '\n') str++`
unfoldable pub skip_space : ℕ → Memory → ℕ → Option ℕ
skip_space zero m str = none
skip_space (suc fuel) m str =
    let rest = skip_space fuel m (suc str) in
    if m str == b' ' || m str == b'\t' || m str == b'\n' then rest else some str

-- `while (*str >= '0' && *str <= '9')` with its body; `none` says that the fuel ran out
unfoldable pub number_loop : ℕ → Memory → ℕ → ℕ → Option ℕ
number_loop zero m str result = none
number_loop (suc fuel) m str result =
    let rest = number_loop fuel m (suc str) ((result * 10 + (m str - b'0')) % 2 ^ 32) in
    if leb b'0' (m str) && leb (m str) b'9' then rest else some result

-- `-x` on 32 bits
abbrev pub negate : ℕ → ℕ
negate x = (2 ^ 32 - x) % 2 ^ 32

-- the optional sign, the digits behind it, and `sign * result`
unfoldable pub signed_number : ℕ → Memory → ℕ → Option ℕ
unfolding number_loop
signed_number fuel m str =
    if m str == b'-'
    then Option.map negate (number_loop fuel m (suc str) 0)
    else if m str == b'+'
    then number_loop fuel m (suc str) 0
    else number_loop fuel m str 0

unfoldable pub atoi : ℕ → Memory → ℕ → Option ℕ
atoi fuel m str = Option.bind (skip_space fuel m str) (signed_number fuel m)

-- `(rem > 9) ? (rem - 10) + 'a' : rem + '0'` as a `char`
abbrev pub digit_char : ℕ → ℕ
digit_char rem = (if ltb 9 rem then rem - 10 + b'a' else rem + b'0') % 256

-- `while (tmp != 0)` with its body, from `p` on: the memory and the end of the digits
unfoldable pub digit_loop : ℕ → Memory → ℕ → ℕ → ℕ → Option (Memory × ℕ)
digit_loop zero m p base tmp = none
digit_loop (suc fuel) m p base tmp =
    let rest = digit_loop fuel (store m p (digit_char (tmp % base))) (suc p) base (tmp / base) in
    if tmp == 0 then some (m, p) else rest

-- `while (p1 < p2)` with its body; each round takes the pointers closer, so that `k` rounds are all
-- when they are `k` bytes apart
unfoldable pub reverse_loop : ℕ → Memory → ℕ → ℕ → Memory
reverse_loop zero m p1 p2 = m
reverse_loop (suc k) m p1 p2 =
    let swapped = store (store m p1 (m p2)) p2 (m p1) in
    let rest = reverse_loop k swapped (suc p1) (p2 - 1) in if ltb p1 p2 then rest else m

-- from the digits to the end of itoa, for the first digit at `str`
unfoldable pub print_digits : ℕ → Memory → ℕ → ℕ → ℕ → Option Memory
print_digits fuel m str base tmp =
    Option.map (λ r. reverse_loop (r.1 - str) (store r.0 r.1 0) str (r.1 - 1))
      (digit_loop fuel m str base tmp)

unfoldable pub itoa : ℕ → Memory → ℕ → ℕ → ℕ → Option Memory
unfolding print_digits
itoa fuel m value str base =
    if value == 0
    then some (store (store m str b'0') (suc str) 0)
    else if leb (2 ^ 31) value && base == 10
    then print_digits fuel (store m str b'-') (suc str) base (negate value)
    else print_digits fuel m str base value
