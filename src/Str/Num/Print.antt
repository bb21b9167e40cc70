-- ===== src/Str/Num/Print.antt =====
-- What itoa of lib/string.c leaves in memory.
use native.Mathlib.Nat.{div-lt_iff_lt-mul, mul-le-mul_left, pow-suc, mod-lt}
use basedos.Prelude.{
  ℕ, zero, suc, ◌+◌, ◌-◌, ◌/◌, ◌%◌, ◌^◌, ◌≤◌, ◌<◌, ◌≡◌, ◌≢◌, refl, ◌∙◌, sym, ap, arith, ltb, leb,
  ◌==◌, if◌then◌else◌, ◌&&◌, List, [], ◌∷◌, ◌++◌, length, get_or, some, Bool-cases, inl, inr,
}
use basedos.Memory.{Memory, store, in_range, put, put-cons, put-append, IsText}
use basedos.Str.Num.{digit_char, digit_loop, reverse_loop, print_digits, itoa, negate}
use basedos.Str.Build.Copy.{Holds, Holds-put}

-- the digits of a number, the last one first; the fuel bounds their number
unfoldable pub digits : ℕ → ℕ → ℕ → List ℕ
digits zero base n = []
digits (suc fuel) base n =
    let rest = digits fuel base (n / base) in if n == 0 then [] else digit_char (n % base) ∷ rest

-- a list turned around, before another one
unfoldable pub reverse_onto : List ℕ → List ℕ → List ℕ
reverse_onto [] ys = ys
reverse_onto (x ∷ xs) ys = reverse_onto xs (x ∷ ys)

-- A number below a power of two is below the half of it once divided.
pub halved : (n base k : ℕ) → 2 ≤ base → n < 2 ^ suc k → n / base < 2 ^ k
halved n base k b h =
    let more = mul-le-mul_left (2 ^ k) b in
    let double = pow-suc 2 k in
    (div-lt_iff_lt-mul {k = base} {x = n} {y = 2 ^ k} (omega arith)).1 (omega arith)

digit_loop_lem :
    (fuel : ℕ) (m : Memory) (p base tmp : ℕ)
    → 2 ≤ base
    → tmp < 2 ^ fuel
    → let ds = digits fuel base tmp in
      (m' : Memory) × (digit_loop (suc fuel) m p base tmp ≡ some (m', p + length ds))
      × ((q : ℕ) → m' q ≡ put m p ds q)
unfolding digit_loop digits put
digit_loop_lem zero m p base tmp b h = (m, ground arith, λ q. ground arith)
digit_loop_lem (suc fuel) m p base tmp b h =
    let (m', run, holds) =
      digit_loop_lem fuel (store m p (digit_char (tmp % base))) (suc p) base (tmp / base) b
        (halved tmp base fuel b h) in
    elim (Bool-cases (tmp == 0)) [
      | inl e ↦ rw e (m, ground arith, λ q. ground arith)
      | inr e ↦ rw e (
        m',
        run ∙ ap (λ e. some (m', e)) (omega arith),
        λ q. holds q ∙ put-cons m p (digit_char (tmp % base)) q (digits fuel base (tmp / base)),
      )
    ]

-- Two bytes swapped, and those between them turned around.
window_step :
    (m : Memory) (p1 p2 q : ℕ)
    → p1 < p2
    → let swapped = store (store m p1 (m p2)) p2 (m p1) in
      (if leb (suc p1) q && leb q (p2 - 1) then swapped (suc p1 + (p2 - 1) - q) else swapped q)
      ≡ (if leb p1 q && leb q p2 then m (p1 + p2 - q) else m q)
window_step m p1 p2 q h =
    let same : suc p1 + (p2 - 1) - q ≡ p1 + p2 - q = omega arith in rw same (ground arith)

-- The loop turns around the bytes from `p1` to `p2`.
reverse_loop_lem :
    (k : ℕ) (m : Memory) (p1 p2 q : ℕ)
    → p2 ≤ p1 + k
    → reverse_loop k m p1 p2 q ≡ (if leb p1 q && leb q p2 then m (p1 + p2 - q) else m q)
unfolding reverse_loop
reverse_loop_lem zero m p1 p2 q h = ground arith
reverse_loop_lem (suc k) m p1 p2 q h = elim (Bool-cases (ltb p1 p2)) [
  | inl e ↦ rw e (
      reverse_loop_lem k (store (store m p1 (m p2)) p2 (m p1)) (suc p1) (p2 - 1) q (omega arith)
      ∙ window_step m p1 p2 q (ground arith))
  | inr e ↦ rw e (ground arith)
]

put-get_or :
    (m : Memory) (p q : ℕ) (xs : List ℕ)
    → put m p xs q ≡ (if in_range p (length xs) q then get_or xs (q - p) 0 else m q)
unfolding put
put-get_or m p q [] = ground arith
put-get_or m p q (x ∷ xs) = ground (arith, put-get_or m (suc p) q xs)

get_or-reverse_onto :
    (xs ys : List ℕ) (j : ℕ)
    → get_or (reverse_onto xs ys) j 0
      ≡ (if ltb j (length xs) then get_or xs (length xs - 1 - j) 0 else get_or ys (j - length xs) 0)
unfolding reverse_onto
get_or-reverse_onto [] ys j = ground arith
get_or-reverse_onto (x ∷ xs) ys j = ground (arith, get_or-reverse_onto xs (x ∷ ys) j)

pub length-reverse_onto : (xs ys : List ℕ) → length (reverse_onto xs ys) ≡ length xs + length ys
unfolding reverse_onto
length-reverse_onto [] ys = omega arith
length-reverse_onto (x ∷ xs) ys = length-reverse_onto xs (x ∷ ys) ∙ omega arith

-- The digits, once they are turned around.
turned :
    (m m' : Memory) (str q : ℕ) (ds : List ℕ)
    → ((a : ℕ) → m' a ≡ put m str ds a)
    → reverse_loop (length ds) (store m' (str + length ds) 0) str (str + length ds - 1) q
      ≡ put m str (reverse_onto ds [] ++ 0 ∷ []) q
unfolding put
turned m m' str q ds h =
    let len = length ds in
    let back = str + (str + len - 1) - q in
    let rev = reverse_onto ds [] in
    let long : length rev ≡ len = length-reverse_onto ds [] ∙ omega arith in
    let end : put (put m (str + len) (0 ∷ [])) str rev q ≡ put m str (rev ++ 0 ∷ []) q =
      sym (put-append m str (str + len) q rev (0 ∷ []) (omega arith)) in
    let old = h back ∙ put-get_or m str back ds in
    let new = put-get_or (put m (str + len) (0 ∷ [])) str q rev in
    let turn = get_or-reverse_onto ds [] (q - str) in
    let before = h q ∙ put-get_or m str q ds in
    reverse_loop_lem len (store m' (str + len) 0) str (str + len - 1) q (omega arith)
    ∙ elim (Bool-cases (in_range str len q)) [
      | inl e ↦
          let low : str ≤ q = ground arith in
          let high : q < str + len = ground arith in
          let same : get_or ds (back - str) 0 ≡ get_or ds (len - 1 - (q - str)) 0 =
            ap (λ i. get_or ds i 0) (omega arith) in
          ground arith
      | inr e ↦ ground arith
    ]
    ∙ sym new
    ∙ end

print_digits-put :
    (fuel : ℕ) (m : Memory) (str base tmp : ℕ)
    → 2 ≤ base
    → tmp < 2 ^ fuel
    → (m' : Memory) × (print_digits (suc fuel) m str base tmp ≡ some m')
      × ((q : ℕ) → m' q ≡ put m str (reverse_onto (digits fuel base tmp) [] ++ 0 ∷ []) q)
unfolding print_digits
print_digits-put fuel m str base tmp b h =
    let (m', run, holds) = digit_loop_lem fuel m str base tmp b h in
    let ds = digits fuel base tmp in
    (
      reverse_loop (length ds) (store m' (str + length ds) 0) str (str + length ds - 1),
      rw run (
          ap (λ k. some (reverse_loop k (store m' (str + length ds) 0) str (str + length ds - 1)))
            (omega arith)),
      λ q. turned m m' str q ds holds,
    )

-- the text of a number: its digits in the base, the first one first; in base 10 the pattern of a
-- negative number has a sign
unfoldable pub numeral : ℕ → ℕ → List ℕ
numeral base value =
    if value == 0
    then b'0' ∷ []
    else if leb (2 ^ 31) value && base == 10
    then b'-' ∷ reverse_onto (digits 32 base (negate value)) []
    else reverse_onto (digits 32 base value) []

digit-text : (rem : ℕ) → rem < 36 → digit_char rem ≢ 0
digit-text rem h e = ground arith

digits-IsText : (fuel base n : ℕ) → 2 ≤ base → base ≤ 36 → IsText (digits fuel base n)
unfolding digits
digits-IsText zero base n b h = tt
digits-IsText (suc fuel) base n b h = elim (Bool-cases (n == 0)) [
  | inl e ↦ rw e tt
  | inr e ↦
      let small = mod-lt n {m = base} (omega arith) in
      rw e (digit-text (n % base) (omega arith), digits-IsText fuel base (n / base) b h)
]

reverse_onto-IsText : (xs ys : List ℕ) → IsText xs → IsText ys → IsText (reverse_onto xs ys)
unfolding reverse_onto
reverse_onto-IsText [] ys t u = u
reverse_onto-IsText (x ∷ xs) ys t u = reverse_onto-IsText xs (x ∷ ys) t.1 (t.0, u)

-- itoa of a 32-bit number, in a base from 2 to 36, ends. It leaves at `str` the number's numeral in
-- that base, with a sign for a negative number in base 10, and its terminator, and writes nothing
-- else.
pub itoa-Holds :
    (m : Memory) (value str base : ℕ)
    → 2 ≤ base
    → base ≤ 36
    → value < 2 ^ 32
    → (m' : Memory) × (itoa 33 m value str base ≡ some m') × Holds m str (numeral base value) m'
unfolding itoa numeral put
itoa-Holds m value str base b h small =
    let text =
      λ (n : ℕ). reverse_onto-IsText (digits 32 base n) [] (digits-IsText 32 base n b h) tt in
    elim (Bool-cases (value == 0)) [
      | inl e ↦ rw e (
        store (store m str b'0') (suc str) 0,
        refl,
        Holds-put m (store (store m str b'0') (suc str) 0) str (b'0' ∷ []) (ground arith, tt)
            (λ q. ground (arith, put)),
      )
      | inr e ↦ elim (Bool-cases (leb (2 ^ 31) value && base == 10)) [
        | inl f ↦
            let (m', run, holds) =
              print_digits-put 32 (store m str b'-') (suc str) base (negate value) b
                (omega arith) in
            rw (e, f)
              (
                m',
                run,
                Holds-put m m' str (b'-' ∷ reverse_onto (digits 32 base (negate value)) [])
                    (ground arith, text (negate value))
                    (λ q.
                      holds q
                      ∙ put-cons m str b'-' q
                          (reverse_onto (digits 32 base (negate value)) [] ++ 0 ∷ [])),
              )
        | inr f ↦
            let (m', run, holds) = print_digits-put 32 m str base value b small in
            rw (e, f)
              (
                m',
                run,
                Holds-put m m' str (reverse_onto (digits 32 base value) []) (text value) holds,
              )
      ]
    ]
