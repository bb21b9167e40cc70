-- ===== src/Str/Compare.antt =====
-- memcmp, strcmp and strncmp of lib/string.c. A loop over a C string takes fuel, and `none` says
-- that the fuel ran out; the length of the string bounds the rounds.
use basedos.Prelude.{
  ℕ, zero, suc, ◌+◌, ◌<◌, ◌≡◌, ◌↔◌, ◌⊎◌, inl, inr, refl, arith, ◌==◌, if◌then◌else◌, not, ◌&&◌,
  Option, none, some, List, [], ◌∷◌, length, take, Bool-cases,
}
use basedos.Prelude.Int.{ℤ, pos, neg_part, ◌-ℤ◌}
use basedos.Memory.{Memory, CString, IsText, CString-IsText}

-- the difference of two bytes, as an `int`
abbrev diff : ℕ → ℕ → ℤ
diff a b = pos a -ℤ pos b

pub memcmp : Memory → ℕ → ℕ → ℕ → ℤ
memcmp m p1 p2 zero = pos 0
memcmp m p1 p2 (suc num) =
    let rest = memcmp m (suc p1) (suc p2) num in if m p1 == m p2 then rest else diff (m p1) (m p2)

pub strcmp : ℕ → Memory → ℕ → ℕ → Option ℤ
strcmp zero m s1 s2 = none
strcmp (suc fuel) m s1 s2 =
    let rest = strcmp fuel m (suc s1) (suc s2) in
    if not (m s1 == 0) && (m s1 == m s2) then rest else some (diff (m s1) (m s2))

pub strncmp : Memory → ℕ → ℕ → ℕ → ℤ
strncmp m s1 s2 zero = pos 0
strncmp m s1 s2 (suc n) =
    let rest = strncmp m (suc s1) (suc s2) n in
    if not (m s1 == 0) && (m s1 == m s2) then rest else diff (m s1) (m s2)

-- The comparison of two texts: a text that ends counts as a zero byte.
pub compare_text : List ℕ → List ℕ → ℤ
compare_text [] [] = diff 0 0
compare_text [] (y ∷ ys) = diff 0 y
compare_text (x ∷ xs) [] = diff x 0
compare_text (x ∷ xs) (y ∷ ys) = let rest = compare_text xs ys in if x == y then rest else diff x y

-- `xs` comes before `ys` in the order of dictionaries.
pub data Before : List ℕ → List ℕ → Type 0 where
  shorter : {y : ℕ} {ys : List ℕ} → Before [] (y ∷ ys)
  smaller : {x y : ℕ} {xs ys : List ℕ} → x < y → Before (x ∷ xs) (y ∷ ys)
  same : {x y : ℕ} {xs ys : List ℕ} → x ≡ y → Before xs ys → Before (x ∷ xs) (y ∷ ys)

abbrev pub IsNegative : ℤ → Type 0
IsNegative a = 0 < neg_part a

abbrev pub SameBytes : Memory → ℕ → ℕ → ℕ → Type 0
SameBytes m p1 p2 num = (i : ℕ) → i < num → m (p1 + i) ≡ m (p2 + i)

diff-zero : (a b : ℕ) → (diff a b ≡ pos 0) ↔ (a ≡ b)
unfolding ◌-ℤ◌
diff-zero a b = ground arith

diff-IsNegative : (a b : ℕ) → IsNegative (diff a b) ↔ (a < b)
unfolding ◌-ℤ◌
diff-IsNegative a b = ground arith

memcmp_step :
    (m : Memory) (p1 p2 num : ℕ)
    → (memcmp m p1 p2 (suc num) ≡ pos 0)
      ↔ ((m p1 ≡ m p2) × (memcmp m (suc p1) (suc p2) num ≡ pos 0))
unfolding memcmp
memcmp_step m p1 p2 num = ground (arith, diff-zero (m p1) (m p2))

module _ (m : Memory) (p1 p2 num : ℕ)
    (tail : (memcmp m (suc p1) (suc p2) num ≡ pos 0) ↔ SameBytes m (suc p1) (suc p2) num) where
  same_of_zero : memcmp m p1 p2 (suc num) ≡ pos 0 → SameBytes m p1 p2 (suc num)
  same_of_zero h zero lt = ground (arith, (memcmp_step m p1 p2 num).0 h)
  same_of_zero h (suc i) lt =
      ground (arith, tail.0 ((memcmp_step m p1 p2 num).0 h).1 i (omega arith))

  zero_of_same : SameBytes m p1 p2 (suc num) → memcmp m p1 p2 (suc num) ≡ pos 0
  zero_of_same h =
      (memcmp_step m p1 p2 num).1 (ground (arith, h 0), tail.1 λ i lt. ground (arith, h (suc i)))

-- memcmp returns 0 exactly when the two blocks hold the same bytes.
pub memcmp-zero_iff :
    (m : Memory) (p1 p2 num : ℕ) → (memcmp m p1 p2 num ≡ pos 0) ↔ SameBytes m p1 p2 num
unfolding memcmp
memcmp-zero_iff m p1 p2 zero = (λ h i lt. absurd (omega arith), λ h. refl)
memcmp-zero_iff m p1 p2 (suc num) =
    let tail = memcmp-zero_iff m (suc p1) (suc p2) num in
    (same_of_zero m p1 p2 num tail, zero_of_same m p1 p2 num tail)

strcmp-compare_text :
    (fuel : ℕ) (m : Memory) (s1 s2 : ℕ) (xs ys : List ℕ)
    → CString m s1 xs
    → CString m s2 ys
    → length xs < fuel
    → strcmp fuel m s1 s2 ≡ some (compare_text xs ys)
unfolding strcmp compare_text
strcmp-compare_text zero m s1 s2 xs ys c d h = absurd (omega arith)
strcmp-compare_text (suc fuel) m s1 s2 [] [] c d h = rw (c, d)
strcmp-compare_text (suc fuel) m s1 s2 [] (y ∷ ys) c d h = rw (c, d.0)
strcmp-compare_text (suc fuel) m s1 s2 (x ∷ xs) [] c d h = rw (c.0, d) (ground (arith, c.1))
strcmp-compare_text (suc fuel) m s1 s2 (x ∷ xs) (y ∷ ys) c d h =
    rw (c.0, d.0) (ground (arith, c.1, strcmp-compare_text fuel m (suc s1) (suc s2) xs ys c.2 d.2))

strncmp-compare_text :
    (m : Memory) (s1 s2 n : ℕ) (xs ys : List ℕ)
    → CString m s1 xs
    → CString m s2 ys
    → strncmp m s1 s2 n ≡ compare_text (take n xs) (take n ys)
unfolding strncmp compare_text ◌-ℤ◌
strncmp-compare_text m s1 s2 zero xs ys c d = refl
strncmp-compare_text m s1 s2 (suc n) [] [] c d = rw (c, d)
strncmp-compare_text m s1 s2 (suc n) [] (y ∷ ys) c d = rw (c, d.0)
strncmp-compare_text m s1 s2 (suc n) (x ∷ xs) [] c d = rw (c.0, d) (ground (arith, c.1))
strncmp-compare_text m s1 s2 (suc n) (x ∷ xs) (y ∷ ys) c d =
    rw (c.0, d.0) (ground (arith, c.1, strncmp-compare_text m (suc s1) (suc s2) n xs ys c.2 d.2))

compare_text-zero :
    (xs ys : List ℕ) → IsText xs → IsText ys → (compare_text xs ys ≡ pos 0) ↔ (xs ≡ ys)
unfolding compare_text
compare_text-zero [] [] t u = (λ h. refl, λ h. (diff-zero 0 0).1 refl)
compare_text-zero [] (y ∷ ys) t u = ground (arith, diff-zero 0 y)
compare_text-zero (x ∷ xs) [] t u = ground (arith, diff-zero x 0)
compare_text-zero (x ∷ xs) (y ∷ ys) t u =
    ground (arith, diff-zero x y, compare_text-zero xs ys t.1 u.1)

not-Before_nil : {xs : List ℕ} → Before xs [] → ⊥
not-Before_nil b = elim b [ ]

Before-uncons :
    {x y : ℕ} {xs ys : List ℕ} → Before (x ∷ xs) (y ∷ ys) → (x < y) ⊎ ((x ≡ y) × Before xs ys)
Before-uncons (smaller h) = inl h
Before-uncons (same e b) = inr (e, b)

compare_text-IsNegative :
    (xs ys : List ℕ) → IsText xs → IsText ys → IsNegative (compare_text xs ys) ↔ Before xs ys
unfolding compare_text
compare_text-IsNegative [] [] t u =
    (λ h. absurd (ground (arith, (diff-IsNegative 0 0).0 h)), λ b. absurd (not-Before_nil b))
compare_text-IsNegative [] (y ∷ ys) t u =
    (λ h. shorter, λ b. (diff-IsNegative 0 y).1 (omega (arith, u.0)))
compare_text-IsNegative (x ∷ xs) [] t u =
    (λ h. absurd (omega (arith, (diff-IsNegative x 0).0 h)), λ b. absurd (not-Before_nil b))
compare_text-IsNegative (x ∷ xs) (y ∷ ys) t u = elim (Bool-cases (x == y)) [
  | inl e ↦ rw e (
    λ h. same (ground arith) ((compare_text-IsNegative xs ys t.1 u.1).0 h),
    λ b. elim (Before-uncons b) [
      | inl lt ↦ absurd (ground arith)
      | inr (_, r) ↦ (compare_text-IsNegative xs ys t.1 u.1).1 r
    ],
  )
  | inr e ↦ rw e (
    λ h. smaller ((diff-IsNegative x y).0 h),
    λ b. elim (Before-uncons b) [
      | inl lt ↦ (diff-IsNegative x y).1 lt
      | inr (same_head, r) ↦ absurd (ground arith)
    ],
  )
]

-- On two C strings strcmp ends, and returns 0 exactly when they are equal, and a negative number
-- exactly when the first comes before the second.
pub strcmp_order :
    (fuel : ℕ) (m : Memory) (s1 s2 : ℕ) (xs ys : List ℕ)
    → CString m s1 xs
    → CString m s2 ys
    → length xs < fuel
    → (r : ℤ) × (strcmp fuel m s1 s2 ≡ some r)
      × ((r ≡ pos 0) ↔ (xs ≡ ys))
      × (IsNegative r ↔ Before xs ys)
strcmp_order fuel m s1 s2 xs ys c d h =
    let t = CString-IsText m s1 xs c in
    let u = CString-IsText m s2 ys d in
    (
      compare_text xs ys,
      strcmp-compare_text fuel m s1 s2 xs ys c d h,
      compare_text-zero xs ys t u,
      compare_text-IsNegative xs ys t u,
    )
