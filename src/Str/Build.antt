-- ===== src/Str/Build.antt =====
-- strcpy, strncpy, strcat and strncat of lib/string.c. A loop that only a terminator ends takes
-- fuel, and `none` says that the fuel ran out.
pub mod Append
pub mod Copy
use mathlib.Core.Option
use basedos.Prelude.{
  ℕ, zero, suc, ◌+◌, ◌≤◌, ◌<◌, ◌⊎◌, ◌==◌, if◌then◌else◌, Option, none, some, List, length,
}
use basedos.Memory.{Memory, store}
use basedos.Str.Scan.{strlen}

-- `while ((*dest++ = *src++));`
pub strcpy : ℕ → Memory → ℕ → ℕ → Option Memory
strcpy zero m dest src = none
strcpy (suc fuel) m dest src =
    let m' = store m dest (m src) in
    let rest = strcpy fuel m' (suc dest) (suc src) in if m src == 0 then some m' else rest

-- the second loop of strncpy, with `k` rounds left: `dest[i] = '\0'`
pad : Memory → ℕ → ℕ → ℕ → Memory
pad m dest i zero = m
pad m dest i (suc k) = pad (store m (dest + i) 0) dest (suc i) k

-- the first loop of strncpy, with `k = n - i` rounds left, and then the second
strncpy_loop : Memory → ℕ → ℕ → ℕ → ℕ → Memory
strncpy_loop m dest src i zero = m
strncpy_loop m dest src i (suc k) =
    let rest = strncpy_loop (store m (dest + i) (m (src + i))) dest src (suc i) k in
    if m (src + i) == 0 then pad m dest i (suc k) else rest

pub strncpy : Memory → ℕ → ℕ → ℕ → Memory
unfolding strncpy_loop pad
strncpy m dest src n = strncpy_loop m dest src 0 n

-- `while (*src) *ptr++ = *src++; *ptr = '\0';`
strcat_loop : ℕ → Memory → ℕ → ℕ → Option Memory
strcat_loop zero m ptr src = none
strcat_loop (suc fuel) m ptr src =
    let rest = strcat_loop fuel (store m ptr (m src)) (suc ptr) (suc src) in
    if m src == 0 then some (store m ptr 0) else rest

pub strcat : ℕ → Memory → ℕ → ℕ → Option Memory
unfolding strcat_loop
strcat fuel m dest src =
    Option.bind (strlen fuel m dest) (λ len. strcat_loop fuel m (dest + len) src)

-- `while (*src && n-- > 0) *ptr++ = *src++; *ptr = '\0';`
strncat_loop : Memory → ℕ → ℕ → ℕ → Memory
strncat_loop m ptr src zero = store m ptr 0
strncat_loop m ptr src (suc n) =
    let rest = strncat_loop (store m ptr (m src)) (suc ptr) (suc src) n in
    if m src == 0 then store m ptr 0 else rest

pub strncat : ℕ → Memory → ℕ → ℕ → ℕ → Option Memory
unfolding strncat_loop
strncat fuel m dest src n =
    Option.map (λ len. strncat_loop m (dest + len) src n) (strlen fuel m dest)

-- A forward copy reads a byte before it can be overwritten.
abbrev pub Forward : ℕ → ℕ → List ℕ → Type 0
Forward dest src xs = (dest ≤ src) ⊎ (src + length xs < dest)
