-- ===== src/Str/Num/Round.antt =====
-- atoi of lib/string.c on what itoa leaves.
use basedos.Prelude.{
  ℕ, zero, suc, ◌+◌, ◌-◌, ◌*◌, ◌/◌, ◌%◌, ◌^◌, ◌≤◌, ◌<◌, ◌≡◌, refl, ◌∙◌, ap, arith, leb, ◌==◌, List,
  [], ◌∷◌, length, some, Bool-cases, inl, inr, ◌⊎◌, true,
}
use mathlib.Core.Option
use basedos.Memory.{Memory, CString}
use basedos.Str.Num.{digit_char, itoa, negate, skip_space, number_loop, signed_number, atoi}
use basedos.Str.Num.Print.{digits, reverse_onto, length-reverse_onto, halved, numeral, itoa-Holds}

-- a text of decimal digits
abbrev pub IsDecimal : List ℕ → Type 0
IsDecimal [] = Unit {0}
IsDecimal (x ∷ xs) = ((b'0' ≤ x) × (x ≤ b'9')) × IsDecimal xs

-- the number that digits stand for, behind those of `acc`
unfoldable pub number : ℕ → List ℕ → ℕ
number acc [] = acc
number acc (x ∷ xs) = number ((acc * 10 + (x - b'0')) % 2 ^ 32) xs

number_loop-number :
    (fuel : ℕ) (m : Memory) (p acc : ℕ) (xs : List ℕ)
    → CString m p xs
    → IsDecimal xs
    → length xs < fuel
    → number_loop fuel m p acc ≡ some (number acc xs)
unfolding number_loop number
number_loop-number zero m p acc xs c d h = absurd (omega arith)
number_loop-number (suc fuel) m p acc [] c d h = rw c refl
number_loop-number (suc fuel) m p acc (x ∷ xs) c d h =
    let low : leb b'0' x ≡ true = ground arith in
    let high : leb x b'9' ≡ true = ground arith in
    rw (c.0, low, high)
      (number_loop-number fuel m (suc p) ((acc * 10 + (x - b'0')) % 2 ^ 32) xs c.2 d.1
        (omega arith))

reverse_onto-IsDecimal :
    (xs ys : List ℕ) → IsDecimal xs → IsDecimal ys → IsDecimal (reverse_onto xs ys)
unfolding reverse_onto
reverse_onto-IsDecimal [] ys d e = e
reverse_onto-IsDecimal (x ∷ xs) ys d e = reverse_onto-IsDecimal xs (x ∷ ys) d.1 (d.0, e)

digit_decimal : (rem : ℕ) → rem < 10 → digit_char rem ≡ rem + b'0'
digit_decimal rem h = ground arith

digits-IsDecimal : (fuel n : ℕ) → IsDecimal (digits fuel 10 n)
unfolding digits
digits-IsDecimal zero n = tt
digits-IsDecimal (suc fuel) n = elim (Bool-cases (n == 0)) [
  | inl e ↦ rw e tt
  | inr e ↦
      rw (e, digit_decimal (n % 10) (omega arith))
        ((omega arith, omega arith), digits-IsDecimal fuel (n / 10))
]

length-digits : (fuel base n : ℕ) → length (digits fuel base n) ≤ fuel
unfolding digits
length-digits zero base n = omega arith
length-digits (suc fuel) base n = ground (arith, length-digits fuel base (n / base))

-- The digits of a number, from the first one on, stand for it.
number-digits :
    (fuel n : ℕ) (ys : List ℕ)
    → n < 2 ^ fuel
    → n < 2 ^ 32
    → number 0 (reverse_onto (digits fuel 10 n) ys) ≡ number n ys
unfolding digits reverse_onto number
number-digits zero n ys h small = ap (λ k. number k ys) (omega arith)
number-digits (suc fuel) n ys h small = elim (Bool-cases (n == 0)) [
  | inl e ↦ rw e (ap (λ k. number k ys) (ground arith))
  | inr e ↦
      let half = halved n 10 fuel (omega arith) h in
      rw e (
        number-digits fuel (n / 10) (digit_char (n % 10) ∷ ys) half (omega arith)
        ∙ rw (digit_decimal (n % 10) (omega arith)) (ap (λ k. number k ys) (omega arith)))
]

-- A decimal text does not start with a space or a sign.
decimal_start :
    (m : Memory) (p : ℕ) (xs : List ℕ) → CString m p xs → IsDecimal xs → (m p ≡ 0) ⊎ (b'0' ≤ m p)
decimal_start m p [] c d = inl c
decimal_start m p (x ∷ xs) c d = inr (omega arith)

atoi_plain :
    (fuel : ℕ) (m : Memory) (p : ℕ)
    → (m p ≡ 0) ⊎ (b'0' ≤ m p)
    → atoi (suc fuel) m p ≡ number_loop (suc fuel) m p 0
unfolding atoi skip_space signed_number Option.bind
atoi_plain fuel m p h = ground arith

atoi_minus :
    (fuel : ℕ) (m : Memory) (p : ℕ)
    → m p ≡ b'-'
    → atoi (suc fuel) m p ≡ Option.map negate (number_loop (suc fuel) m (suc p) 0)
unfolding atoi skip_space signed_number Option.bind
atoi_minus fuel m p h = ground arith

-- the digits of a number below 2^32, in memory, as the loop of atoi reads them
decimal_read :
    (fuel : ℕ) (m : Memory) (p n : ℕ)
    → 32 < fuel
    → n < 2 ^ 32
    → CString m p (reverse_onto (digits 32 10 n) [])
    → number_loop fuel m p 0 ≡ some n
unfolding number
decimal_read fuel m p n h small c =
    number_loop-number fuel m p 0 (reverse_onto (digits 32 10 n) []) c
      (reverse_onto-IsDecimal (digits 32 10 n) [] (digits-IsDecimal 32 n) tt)
      (omega (arith, length-reverse_onto (digits 32 10 n) [], length-digits 32 10 n))
    ∙ ap some (number-digits 32 n [] small small)

-- what atoi reads in a numeral
atoi-numeral :
    (m : Memory) (str value : ℕ)
    → value < 2 ^ 32
    → CString m str (numeral 10 value)
    → atoi 33 m str ≡ some value
unfolding numeral number
atoi-numeral m str value small c = elim (Bool-cases (value == 0)) [
  | inl e ↦
      let text : CString m str (b'0' ∷ []) = rw e at c in
      atoi_plain 32 m str (inr (omega arith))
      ∙ number_loop-number 33 m str 0 (b'0' ∷ []) text ((omega arith, omega arith), tt)
          (omega arith)
      ∙ ap some (ground arith)
  | inr e ↦ elim (Bool-cases (leb (2 ^ 31) value)) [
    | inl f ↦
        let text : CString m str (b'-' ∷ reverse_onto (digits 32 10 (negate value)) []) =
          rw (e, f) at c in
        atoi_minus 32 m str text.0
        ∙ ap (Option.map negate)
            (decimal_read 33 m (suc str) (negate value) (omega arith) (omega arith) text.2)
        ∙ ap some (ground arith)
    | inr f ↦
        let ds = reverse_onto (digits 32 10 value) [] in
        let text : CString m str ds = rw (e, f) at c in
        let decimal =
          reverse_onto-IsDecimal (digits 32 10 value) [] (digits-IsDecimal 32 value) tt in
        atoi_plain 32 m str (decimal_start m str ds text decimal)
        ∙ decimal_read 33 m str value (omega arith) small text
  ]
]

-- atoi of what itoa printed in base 10 ends, and returns the number again, for every 32-bit number,
-- also a negative one.
pub atoi-itoa :
    (m : Memory) (value str : ℕ)
    → value < 2 ^ 32
    → (m' : Memory) × (itoa 33 m value str 10 ≡ some m') × (atoi 33 m' str ≡ some value)
atoi-itoa m value str small =
    let (m', run, text) = itoa-Holds m value str 10 (omega arith) (omega arith) small in
    (m', run, atoi-numeral m' str value small text.text)
