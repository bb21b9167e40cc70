-- ===== src/Str/Token.antt =====
-- strtok of lib/string.c.
use mathlib.Core.Option
use mathlib.Core.Path.{subst}
use basedos.Prelude.{
  ℕ, zero, suc, ◌+◌, ◌≤◌, ◌<◌, ◌≡◌, ◌≢◌, refl, ◌∙◌, ◌⊎◌, inl, inr, ap, arith, ◌==◌, if◌then◌else◌,
  ◌||◌, List, [], ◌∷◌, ==_iff, length, take, drop, length-drop, Option, some, true, false,
  Bool-cases,
}
use basedos.Memory.{Memory, store, null, CString, CString-store, CString-same}
use basedos.Str.Text.{span_in, span_not_in}
use basedos.Str.Scan.{strspn, strcspn}
use basedos.Str.Scan.Span.{strspn-span_in, strcspn-span_not_in}

-- the end of the token at `start`: a delimiter there is overwritten, and `last` is behind it
unfoldable pub end_token : Memory → ℕ → ℕ → ℕ × Memory × ℕ
end_token m start end = if m end == 0 then (start, m, end) else (start, store m end 0, end + 1)

-- strtok from the leading delimiters on
unfoldable pub next_token : ℕ → Memory → ℕ → ℕ → Option (ℕ × Memory × ℕ)
unfolding end_token
next_token fuel m start delim =
    if m start == 0
    then some (null, m, null)
    else Option.map (λ len. end_token m start (start + len)) (strcspn fuel m start delim)

-- strtok from its tests on
unfoldable pub take_token : ℕ → Memory → ℕ → ℕ → Option (ℕ × Memory × ℕ)
unfolding next_token
take_token fuel m from delim =
    if from == null || m from == 0
    then some (null, m, from)
    else Option.bind (strspn fuel m from delim) (λ len. next_token fuel m (from + len) delim)

-- strtok, with its static variable `last` as an argument: the token or NULL, the memory and the new
-- `last`
unfoldable pub strtok : ℕ → Memory → ℕ → ℕ → ℕ → Option (ℕ × Memory × ℕ)
unfolding take_token
strtok fuel m last str delim = take_token fuel m (if str == null then last else str) delim

CString-drop :
    (m : Memory) (p n e : ℕ) (xs : List ℕ)
    → CString m p xs
    → n ≤ length xs
    → e ≡ p + n
    → CString m e (drop n xs)
CString-drop m p zero e xs c h i = subst (λ a. CString m a xs) (omega arith) c
CString-drop m p (suc n) e [] c h i = absurd (omega arith)
CString-drop m p (suc n) e (x ∷ xs) c h i =
    CString-drop m (suc p) n e xs c.2 (omega arith) (omega arith)

CString-end : (m : Memory) (p e : ℕ) (xs : List ℕ) → CString m p xs → e ≡ p + length xs → m e ≡ 0
CString-end m p e [] c i = ap m (omega arith) ∙ c
CString-end m p e (x ∷ xs) c i = CString-end m (suc p) e xs c.2 (omega arith)

CString-inside :
    (m : Memory) (p n e : ℕ) (xs : List ℕ) → CString m p xs → n < length xs → e ≡ p + n → m e ≢ 0
CString-inside m p n e [] c h i = absurd (omega arith)
CString-inside m p zero e (x ∷ xs) c h i = ground arith
CString-inside m p (suc n) e (x ∷ xs) c h i =
    CString-inside m (suc p) n e xs c.2 (omega arith) (omega arith)

drop_past : (n : ℕ) (xs : List ℕ) → length xs < n → drop n xs ≡ []
drop_past zero xs h = absurd (omega arith)
drop_past (suc n) [] h = refl
drop_past (suc n) (x ∷ xs) h = drop_past n xs (omega arith)

CString-take :
    (m : Memory) (p n e : ℕ) (xs : List ℕ)
    → CString m p xs
    → n ≤ length xs
    → e ≡ p + n
    → CString (store m e 0) p (take n xs)
CString-take m p zero e xs c h i = ground arith
CString-take m p (suc n) e [] c h i = absurd (omega arith)
CString-take m p (suc n) e (x ∷ xs) c h i =
    (ground arith, c.1, CString-take m (suc p) n e xs c.2 (omega arith) (omega arith))

span_not_in-le : (xs set : List ℕ) → span_not_in xs set ≤ length xs
unfolding span_not_in
span_not_in-le [] set = omega arith
span_not_in-le (x ∷ xs) set = ground (arith, span_not_in-le xs set)

pub span_in-le : (xs set : List ℕ) → span_in xs set ≤ length xs
unfolding span_in
span_in-le [] set = omega arith
span_in-le (x ∷ xs) set = ground (arith, span_in-le xs set)

-- What a call leaves that finds the token of length `n` at the front of the text `ys` at `p`: the
-- token as a C string at the address returned, the text behind it and its delimiter at `last`, and the
-- bytes outside the text as before.
pub record Took (m : Memory) (p n : ℕ) (ys : List ℕ) (r : ℕ × Memory × ℕ) : Type 0 where
  pub start : r.0 ≡ p
  pub token : CString r.1 p (take n ys)
  pub rest : CString r.1 r.2 (drop (suc n) ys)
  pub frame : (q : ℕ) → (q < p) ⊎ (p + length ys ≤ q) → r.1 q ≡ m q
  pub low : p + n ≤ r.2
  pub high : r.2 + length (drop (suc n) ys) ≤ p + length ys
  pub behind : (drop (suc n) ys ≡ []) ⊎ (r.2 ≡ p + n + 1)

end_token-Took :
    (m : Memory) (p n : ℕ) (ys : List ℕ)
    → CString m p ys
    → n ≤ length ys
    → Took m p n ys (end_token m p (p + n))
unfolding end_token
end_token-Took m p n ys c h = elim (Bool-cases (n == length ys)) [
  | inl e ↦
      let ends : m (p + n) ≡ 0 = CString-end m p (p + n) ys c (ground arith) in
      let cut = CString-take m p n (p + n) ys c h refl in
      rw ends (record {
        start = refl;
        token = CString-same (store m (p + n) 0) m p (take n ys) cut (λ q k l. ground arith);
        rest = rw (drop_past (suc n) ys (ground arith)) ends;
        frame = λ q out. refl;
        low = omega arith;
        high = omega (arith, length-drop (suc n) ys, ==_iff n (length ys), e);
        behind = inl (drop_past (suc n) ys (ground arith));
      })
  | inr e ↦
      let inside : n < length ys = ground arith in
      let more : (m (p + n) == 0) ≡ false =
        ground (arith, CString-inside m p n (p + n) ys c inside refl) in
      let behind = CString-drop m p (suc n) (p + n + 1) ys c inside (omega arith) in
      rw more (record {
        start = refl;
        token = CString-take m p n (p + n) ys c h refl;
        rest = CString-store m (p + n + 1) (p + n) 0 (drop (suc n) ys) behind (omega arith);
        frame = λ q out. ground arith;
        low = omega arith;
        high = omega (arith, length-drop (suc n) ys, inside);
        behind = inr refl;
      })
]

pub length-drop_le : (n : ℕ) (xs : List ℕ) → length (drop n xs) ≤ length xs
length-drop_le n xs = omega (arith, length-drop n xs)

-- what is left of a text, from the call of strcspn on
next_token-Took :
    (fuel : ℕ) (m : Memory) (p delim : ℕ) (ys set : List ℕ)
    → CString m p ys
    → CString m delim set
    → length ys < fuel
    → length set < fuel
    → (r : ℕ × Memory × ℕ) × (next_token fuel m p delim ≡ some r)
      × (((ys ≡ []) × (r.0 ≡ null) × (r.1 ≡ m)) ⊎ ((ys ≢ []) × Took m p (span_not_in ys set) ys r))
unfolding next_token
next_token-Took fuel m p delim [] set c d h k = rw c ((null, m, null), refl, inl (refl, refl, refl))
next_token-Took fuel m p delim (y ∷ ys) set c d h k =
    let n = span_not_in (y ∷ ys) set in
    let run = strcspn-span_not_in fuel m p delim (y ∷ ys) set c d h k in
    let some_left : (m p == 0) ≡ false = ground arith in
    (
      end_token m p (p + n),
      rw (some_left, run) refl,
      inr (λ e. cc, end_token-Took m p n (y ∷ ys) c (span_not_in-le (y ∷ ys) set)),
    )

take_token-Took :
    (fuel : ℕ) (m : Memory) (from delim : ℕ) (xs set : List ℕ)
    → from ≢ null
    → CString m from xs
    → CString m delim set
    → length xs < fuel
    → length set < fuel
    → let ys = drop (span_in xs set) xs in
      (r : ℕ × Memory × ℕ) × (take_token fuel m from delim ≡ some r)
      × (((ys ≡ []) × (r.0 ≡ null) × (r.1 ≡ m))
          ⊎ ((ys ≢ []) × Took m (from + span_in xs set) (span_not_in ys set) ys r))
unfolding take_token Option.bind span_in
take_token-Took fuel m from delim [] set n c d h k =
    let at_end : (from == null || m from == 0) ≡ true = ground arith in
    rw at_end ((null, m, from), refl, inl (refl, refl, refl))
take_token-Took fuel m from delim (x ∷ xs) set n c d h k =
    let len = span_in (x ∷ xs) set in
    let inside : (from == null || m from == 0) ≡ false = ground arith in
    let run = strspn-span_in fuel m from delim (x ∷ xs) set c d h k in
    let left = CString-drop m from len (from + len) (x ∷ xs) c (span_in-le (x ∷ xs) set) refl in
    let short = length-drop_le len (x ∷ xs) in
    rw (inside, run)
      (next_token-Took fuel m (from + len) delim (drop len (x ∷ xs)) set left d (omega arith) k)

-- strtok of a C string, or of `last` when `str` is NULL, ends. When the text has nothing but
-- delimiters it returns NULL and writes nothing; otherwise the next token is the text behind the
-- leading delimiters, up to the next delimiter, and it is left as a C string.
pub strtok-Took :
    (fuel : ℕ) (m : Memory) (last str delim : ℕ) (xs set : List ℕ)
    → let from = if str == null then last else str in
      from ≢ null
      → CString m from xs
      → CString m delim set
      → length xs < fuel
      → length set < fuel
      → let ys = drop (span_in xs set) xs in
        (r : ℕ × Memory × ℕ) × (strtok fuel m last str delim ≡ some r)
        × (((ys ≡ []) × (r.0 ≡ null) × (r.1 ≡ m))
            ⊎ ((ys ≢ []) × Took m (from + span_in xs set) (span_not_in ys set) ys r))
unfolding strtok
strtok-Took fuel m last str delim xs set n c d h k =
    take_token-Took fuel m (if str == null then last else str) delim xs set n c d h k
