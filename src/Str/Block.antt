-- ===== src/Str/Block.antt =====
-- memset, memcpy, memmove and memcmp of lib/string.c.
use basedos.Prelude.{
  ℕ, zero, suc, ◌+◌, ◌-◌, ◌%◌, ◌≤◌, ◌≡◌, refl, ◌⊎◌, inl, inr, arith, ltb, if◌then◌else◌, Bool-cases,
}
use basedos.Memory.{Memory, store, written}

-- `while (num-- > 0) *p++ = (unsigned char)value;`
pub memset : Memory → ℕ → ℕ → ℕ → Memory
memset m p value zero = m
memset m p value (suc num) = memset (store m p (value % 256)) (suc p) value num

-- `while (num-- > 0) *d++ = *s++;`
pub memcpy : Memory → ℕ → ℕ → ℕ → Memory
memcpy m d s zero = m
memcpy m d s (suc num) = memcpy (store m d (m s)) (suc d) (suc s) num

-- `while (num-- > 0) *--d = *--s;`
pub copy_back : Memory → ℕ → ℕ → ℕ → Memory
copy_back m d s zero = m
copy_back m d s (suc num) = copy_back (store m (d - 1) (m (s - 1))) (d - 1) (s - 1) num

pub memmove : Memory → ℕ → ℕ → ℕ → Memory
memmove m d s num = if ltb d s then memcpy m d s num else copy_back m (d + num) (s + num) num

pub memset-written :
    (m : Memory) (p value num q : ℕ) → memset m p value num q ≡ written m p num (λ _. value % 256) q
unfolding memset
memset-written m p value zero q = ground arith
memset-written m p value (suc num) q =
    ground (arith, memset-written (store m p (value % 256)) (suc p) value num q)

pub memcpy-written :
    (m : Memory) (d s num q : ℕ)
    → (d ≤ s) ⊎ (s + num ≤ d)
    → memcpy m d s num q ≡ written m d num (λ i. m (s + i)) q
unfolding memcpy
memcpy-written m d s zero q h = ground arith
memcpy-written m d s (suc num) q h =
    ground (arith, memcpy-written (store m d (m s)) (suc d) (suc s) num q (omega arith))

copy_back-written :
    (m : Memory) (d s d' s' num q : ℕ)
    → s ≤ d
    → d' ≡ d + num
    → s' ≡ s + num
    → copy_back m d' s' num q ≡ written m d num (λ i. m (s + i)) q
unfolding copy_back
copy_back-written m d s d' s' zero q h e f = ground arith
copy_back-written m d s d' s' (suc num) q h e f = ground (
  arith,
  copy_back-written (store m (d' - 1) (m (s' - 1))) d s (d' - 1) (s' - 1) num q h (omega arith)
      (omega arith),
)

-- memmove leaves in the destination the bytes that the source had before, also where the two blocks
-- overlap, and changes no other byte.
pub memmove-written :
    (m : Memory) (d s num q : ℕ) → memmove m d s num q ≡ written m d num (λ i. m (s + i)) q
unfolding memmove
memmove-written m d s num q = elim (Bool-cases (ltb d s)) [
  | inl e ↦ rw e (memcpy-written m d s num q (inl (ground arith)))
  | inr e ↦ rw e (copy_back-written m d s (d + num) (s + num) num q (ground arith) refl refl)
]
