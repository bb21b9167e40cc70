-- ===== src/Str/Build/Copy.antt =====
-- What strcpy and strncpy of lib/string.c leave in memory.
use basedos.Prelude.{
  ℕ, zero, suc, ◌+◌, ◌<◌, ◌≡◌, refl, ◌∙◌, ◌⊎◌, arith, some, List, [], ◌∷◌, ◌++◌, length, replicate,
  length-append,
}
use basedos.Memory.{
  Memory, store, CString, IsText, put, put-cons, CString-store, CString-put, put-frame,
  CString-IsText, CString-same,
}
use basedos.Str.Build.{Forward, strcpy, strncpy, strncpy_loop, pad}

strcpy_loop_lem :
    (fuel : ℕ) (m : Memory) (dest src : ℕ) (xs : List ℕ)
    → CString m src xs
    → Forward dest src xs
    → length xs < fuel
    → (m' : Memory) × (strcpy fuel m dest src ≡ some m')
      × ((q : ℕ) → m' q ≡ put m dest (xs ++ 0 ∷ []) q)
unfolding strcpy put
strcpy_loop_lem zero m dest src xs c f h = absurd (omega arith)
strcpy_loop_lem (suc fuel) m dest src [] c f h =
    (store m dest (m src), ground arith, λ q. ground arith)
strcpy_loop_lem (suc fuel) m dest src (x ∷ xs) c f h =
    let keep = CString-store m (suc src) dest (m src) xs c.2 (omega arith) in
    let (m', run, holds) =
      strcpy_loop_lem fuel (store m dest (m src)) (suc dest) (suc src) xs keep (omega arith)
        (omega arith) in
    (m', ground arith, λ q. holds q ∙ ground (arith, put-cons m dest (m src) q (xs ++ 0 ∷ [])))

-- What a function that writes a text leaves: the C string at `d`, and all else as before.
pub record Holds (m : Memory) (d : ℕ) (xs : List ℕ) (m' : Memory) : Type 0 where
  pub text : CString m' d xs
  pub frame : (q : ℕ) → (q < d) ⊎ (d + length xs < q) → m' q ≡ m q

pub Holds-put :
    (m m' : Memory) (d : ℕ) (xs : List ℕ)
    → IsText xs
    → ((q : ℕ) → m' q ≡ put m d (xs ++ 0 ∷ []) q)
    → Holds m d xs m'
Holds-put m m' d xs t h = record {
  text = CString-same (put m d (xs ++ 0 ∷ [])) m' d xs (CString-put m d xs t) (λ q k l. h q);
  frame = λ q out.
      h q ∙ put-frame m d q (xs ++ 0 ∷ []) (omega (arith, length-append {0} xs (0 ∷ []), out));
}

-- strcpy of a C string ends. It leaves the source's text at `dest` and writes nothing but the text
-- and its terminator, if no byte of the source is written before it is read.
pub strcpy-Holds :
    (fuel : ℕ) (m : Memory) (dest src : ℕ) (xs : List ℕ)
    → CString m src xs
    → Forward dest src xs
    → length xs < fuel
    → (m' : Memory) × (strcpy fuel m dest src ≡ some m') × Holds m dest xs m'
strcpy-Holds fuel m dest src xs c f h =
    let (m', run, holds) = strcpy_loop_lem fuel m dest src xs c f h in
    (m', run, Holds-put m m' dest xs (CString-IsText m src xs c) holds)

pad_lem :
    (m : Memory) (dest i d k q : ℕ) → d ≡ dest + i → pad m dest i k q ≡ put m d (replicate k 0) q
unfolding pad put
pad_lem m dest i d zero q e = refl
pad_lem m dest i d (suc k) q e = ground (
  arith,
  pad_lem (store m (dest + i) 0) dest (suc i) (suc d) k q (omega arith),
  put-cons m d 0 q (replicate k 0),
)

-- the `n` bytes that strncpy writes
abbrev pub padded : ℕ → List ℕ → List ℕ
padded zero xs = []
padded (suc n) [] = replicate (suc n) 0
padded (suc n) (x ∷ xs) = x ∷ padded n xs

strncpy_loop_lem :
    (m : Memory) (dest src i d s k q : ℕ) (xs : List ℕ)
    → CString m s xs
    → d ≡ dest + i
    → s ≡ src + i
    → Forward d s xs
    → strncpy_loop m dest src i k q ≡ put m d (padded k xs) q
unfolding strncpy_loop put
strncpy_loop_lem m dest src i d s zero q xs c e e' f = refl
strncpy_loop_lem m dest src i d s (suc k) q [] c e e' f =
    ground (arith, pad_lem m dest i d (suc k) q e)
strncpy_loop_lem m dest src i d s (suc k) q (x ∷ xs) c e e' f =
    let keep = CString-store m (suc s) d (m s) xs c.2 (omega arith) in
    let same : store m (dest + i) (m (src + i)) ≡ store m d (m s) = rw (e, e') in
    let step =
      strncpy_loop_lem (store m d (m s)) dest src (suc i) (suc d) (suc s) k q xs keep (omega arith)
        (omega arith) (omega arith) in
    ground (arith, step, same, put-cons m d (m s) q (padded k xs))

-- strncpy of a C string writes exactly `n` bytes: those of the source, cut at `n`, and zeros behind
-- them, if no byte of the source is written before it is read.
pub strncpy-padded :
    (m : Memory) (dest src n q : ℕ) (xs : List ℕ)
    → CString m src xs
    → Forward dest src xs
    → strncpy m dest src n q ≡ put m dest (padded n xs) q
unfolding strncpy
strncpy-padded m dest src n q xs c f =
    strncpy_loop_lem m dest src 0 dest src n q xs c (omega arith) (omega arith) f
