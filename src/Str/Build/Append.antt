-- ===== src/Str/Build/Append.antt =====
-- What strcat and strncat of lib/string.c leave in memory.
use mathlib.Core.Option
use basedos.Prelude.{
  ℕ, zero, suc, ◌+◌, ◌<◌, ◌≡◌, refl, ◌∙◌, ap, ◌⊎◌, inl, arith, some, List, [], ◌∷◌, ◌++◌, length,
  take,
}
use basedos.Memory.{Memory, store, CString, IsText, put, put-cons, CString-store, CString-IsText}
use basedos.Str.Scan.{strlen-length}
use basedos.Str.Build.{Forward, strcat, strcat_loop, strncat, strncat_loop}
use basedos.Str.Build.Copy.{Holds-put}

strncat_loop_lem :
    (m : Memory) (ptr src n q : ℕ) (ys : List ℕ)
    → CString m src ys
    → Forward ptr src ys
    → strncat_loop m ptr src n q ≡ put m ptr (take n ys ++ 0 ∷ []) q
unfolding strncat_loop put
strncat_loop_lem m ptr src zero q ys c f = refl
strncat_loop_lem m ptr src (suc n) q [] c f = ground arith
strncat_loop_lem m ptr src (suc n) q (y ∷ ys) c f =
    let keep = CString-store m (suc src) ptr (m src) ys c.2 (omega arith) in
    ground (
      arith,
      strncat_loop_lem (store m ptr (m src)) (suc ptr) (suc src) n q ys keep (omega arith),
      put-cons m ptr (m src) q (take n ys ++ 0 ∷ []),
    )

-- A text written behind another one, over its terminator, makes one text.
CString-append :
    (m m' : Memory) (d e : ℕ) (xs zs : List ℕ)
    → CString m d xs
    → e ≡ d + length xs
    → ((q : ℕ) → q < e → m' q ≡ m q)
    → CString m' e zs
    → CString m' d (xs ++ zs)
CString-append m m' d e [] zs c h same t = let e' : e ≡ d = omega arith in rw (← e') t
CString-append m m' d e (x ∷ xs) zs c h same t =
    (same d (omega arith) ∙ c.0, c.1, CString-append m m' (suc d) e xs zs c.2 (omega arith) same t)

IsText-take : (n : ℕ) (xs : List ℕ) → IsText xs → IsText (take n xs)
IsText-take zero xs t = tt
IsText-take (suc n) [] t = tt
IsText-take (suc n) (x ∷ xs) t = (t.0, IsText-take n xs t.1)

take_all : (xs : List ℕ) → take (length xs) xs ≡ xs
take_all [] = refl
take_all (x ∷ xs) = ap (λ r. x ∷ r) (take_all xs)

-- The outcome of appending `zs` to the text `xs` at `dest`.
pub record Appended (m : Memory) (dest : ℕ) (xs zs : List ℕ) (m' : Memory) : Type 0 where
  pub text : CString m' dest (xs ++ zs)
  pub frame : (q : ℕ) → (q < dest + length xs) ⊎ (dest + length xs + length zs < q) → m' q ≡ m q

Appended-put :
    (m m' : Memory) (dest : ℕ) (xs zs : List ℕ)
    → CString m dest xs
    → IsText zs
    → ((q : ℕ) → m' q ≡ put m (dest + length xs) (zs ++ 0 ∷ []) q)
    → Appended m dest xs zs m'
Appended-put m m' dest xs zs c t holds =
    let r = Holds-put m m' (dest + length xs) zs t holds in
    record {
      text =
          CString-append m m' dest (dest + length xs) xs zs c refl (λ q lt. r.frame q (inl lt))
            r.text;
      frame = r.frame;
    }

-- strncat of C strings ends. It leaves at `dest` its text followed by the first `n` bytes of the
-- source, and writes nothing but those bytes and the terminator, if no byte of the source is
-- written before it is read.
pub strncat-Appended :
    (fuel : ℕ) (m : Memory) (dest src n : ℕ) (xs ys : List ℕ)
    → CString m dest xs
    → CString m src ys
    → Forward (dest + length xs) src ys
    → length xs < fuel
    → (m' : Memory) × (strncat fuel m dest src n ≡ some m') × Appended m dest xs (take n ys) m'
unfolding strncat
strncat-Appended fuel m dest src n xs ys c d f h = (
  strncat_loop m (dest + length xs) src n,
  rw (strlen-length fuel m dest xs c h),
  Appended-put m _ dest xs (take n ys) c (IsText-take n ys (CString-IsText m src ys d))
      (λ q. strncat_loop_lem m (dest + length xs) src n q ys d f),
)

strcat_loop-strncat_loop :
    (fuel : ℕ) (m : Memory) (ptr src : ℕ) (ys : List ℕ)
    → CString m src ys
    → Forward ptr src ys
    → length ys < fuel
    → strcat_loop fuel m ptr src ≡ some (strncat_loop m ptr src (length ys))
unfolding strcat_loop strncat_loop
strcat_loop-strncat_loop zero m ptr src ys c f h = absurd (omega arith)
strcat_loop-strncat_loop (suc fuel) m ptr src [] c f h = rw c
strcat_loop-strncat_loop (suc fuel) m ptr src (y ∷ ys) c f h =
    let keep = CString-store m (suc src) ptr (m src) ys c.2 (omega arith) in
    ground (
      arith,
      strcat_loop-strncat_loop fuel (store m ptr (m src)) (suc ptr) (suc src) ys keep (omega arith)
          (omega arith),
    )

-- strcat of C strings ends. It leaves at `dest` its text followed by the source's, and writes
-- nothing but the source's bytes and the terminator, if no byte of the source is written before it
-- is read.
pub strcat-Appended :
    (fuel : ℕ) (m : Memory) (dest src : ℕ) (xs ys : List ℕ)
    → CString m dest xs
    → CString m src ys
    → Forward (dest + length xs) src ys
    → length xs < fuel
    → length ys < fuel
    → (m' : Memory) × (strcat fuel m dest src ≡ some m') × Appended m dest xs ys m'
unfolding strcat Option.bind
strcat-Appended fuel m dest src xs ys c d f h k = (
  strncat_loop m (dest + length xs) src (length ys),
  rw (strlen-length fuel m dest xs c h)
      (strcat_loop-strncat_loop fuel m (dest + length xs) src ys d f k),
  Appended-put m _ dest xs ys c (CString-IsText m src ys d) (λ q.
      strncat_loop_lem m (dest + length xs) src (length ys) q ys d f
      ∙ ap (λ zs. put m (dest + length xs) (zs ++ 0 ∷ []) q) (take_all ys)),
)
