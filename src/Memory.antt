-- ===== src/Memory.antt =====
-- The byte memory that the C library of lib/string.c works on: an address holds a byte. Pointers
-- are addresses, and an object does not run over the end of the address space, so that a pointer
-- that walks through an object does not wrap.
use basedos.Prelude.{
  ℕ, suc, ◌+◌, ◌-◌, ◌≤◌, ◌<◌, ◌≡◌, refl, ◌∙◌, ◌≢◌, ◌⊎◌, Bool, ◌&&◌, List, [], ◌∷◌, ◌++◌, arith, ltb,
  leb, length, ◌==◌, if◌then◌else◌,
}

abbrev pub Memory : Type 0
Memory = ℕ → ℕ

-- `*p = v`
abbrev pub store : Memory → ℕ → ℕ → Memory
store m p v q = if p == q then v else m q

-- whether the address `q` is one of the `n` from `d` on
abbrev pub in_range : ℕ → ℕ → ℕ → Bool
in_range d n q = leb d q && ltb q (d + n)

-- A C string at `p`: the bytes `xs`, none of them zero, and a zero behind them.
abbrev pub CString : Memory → ℕ → List ℕ → Type 0
CString m p [] = m p ≡ 0
CString m p (x ∷ xs) = (m p ≡ x) × (x ≢ 0) × CString m (suc p) xs

-- The `n` bytes from `d` on hold what `g` gives for each offset, and the rest is as before.
abbrev pub written : Memory → ℕ → ℕ → (ℕ → ℕ) → Memory
written m d n g q = if in_range d n q then g (q - d) else m q

-- the bytes of a C string: none is zero
abbrev pub IsText : List ℕ → Type 0
IsText [] = Unit {0}
IsText (x ∷ xs) = (x ≢ 0) × IsText xs

pub CString-IsText : (m : Memory) (p : ℕ) (xs : List ℕ) → CString m p xs → IsText xs
CString-IsText m p [] c = tt
CString-IsText m p (x ∷ xs) c = (c.1, CString-IsText m (suc p) xs c.2)

-- `NULL`
abbrev pub null : ℕ
null = 0

-- the bytes `xs` written from `d` on
unfoldable pub put : Memory → ℕ → List ℕ → Memory
put m d [] q = m q
put m d (x ∷ xs) q = if d == q then x else put m (suc d) xs q

pub put-store :
    (m : Memory) (p p' x q : ℕ) (xs : List ℕ)
    → p < p'
    → put (store m p x) p' xs q ≡ (if p == q then x else put m p' xs q)
unfolding put
put-store m p p' x q [] h = refl
put-store m p p' x q (y ∷ ys) h = ground (arith, put-store m p (suc p') x q ys (omega arith))

-- Writing a byte and then the others is writing them all.
pub put-cons :
    (m : Memory) (p x q : ℕ) (xs : List ℕ) → put (store m p x) (suc p) xs q ≡ put m p (x ∷ xs) q
unfolding put
put-cons m p x q xs = put-store m p (suc p) x q xs (omega arith)

-- Outside its bytes a write changes nothing.
pub put-frame :
    (m : Memory) (d q : ℕ) (xs : List ℕ) → (q < d) ⊎ (d + length xs ≤ q) → put m d xs q ≡ m q
unfolding put
put-frame m d q [] h = refl
put-frame m d q (x ∷ xs) h = ground (arith, put-frame m (suc d) q xs (omega arith))

pub put-append :
    (m : Memory) (d e q : ℕ) (xs ys : List ℕ)
    → e ≡ d + length xs
    → put m d (xs ++ ys) q ≡ put (put m e ys) d xs q
unfolding put
put-append m d e q [] ys h = ground arith
put-append m d e q (x ∷ xs) ys h = ground (arith, put-append m (suc d) e q xs ys (omega arith))

-- What a C string depends on: its bytes and its terminator.
pub CString-same :
    (m m' : Memory) (p : ℕ) (xs : List ℕ)
    → CString m p xs
    → ((q : ℕ) → p ≤ q → q ≤ p + length xs → m' q ≡ m q)
    → CString m' p xs
CString-same m m' p [] c same = same p (omega arith) (omega arith) ∙ c
CString-same m m' p (x ∷ xs) c same = (
  same p (omega arith) (omega arith) ∙ c.0,
  c.1,
  CString-same m m' (suc p) xs c.2 (λ q h k. same q (omega arith) (omega arith)),
)

pub CString-store :
    (m : Memory) (p a v : ℕ) (xs : List ℕ)
    → CString m p xs
    → (a < p) ⊎ (p + length xs < a)
    → CString (store m a v) p xs
CString-store m p a v xs c h = CString-same m (store m a v) p xs c (λ q k l. ground arith)

-- A text and its terminator, once written, are a C string.
pub CString-put :
    (m : Memory) (d : ℕ) (xs : List ℕ) → IsText xs → CString (put m d (xs ++ 0 ∷ [])) d xs
unfolding put
CString-put m d [] t = ground arith
CString-put m d (x ∷ xs) t = (
  ground arith,
  t.0,
  CString-same (put m (suc d) (xs ++ 0 ∷ [])) (put m d (x ∷ xs ++ 0 ∷ [])) (suc d) xs
      (CString-put m (suc d) xs t.1) (λ q h k. ground arith),
)
