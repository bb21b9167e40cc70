-- ===== src/Shell/Parse/Words.antt =====
-- The arguments that parse_command of kernel/shell.c finds are the words of its input.
use mathlib.Core.Option
use basedos.Prelude.{
  ℕ, zero, suc, ◌+◌, ◌≤◌, ◌<◌, ◌≡◌, ◌≢◌, ◌⊎◌, inl, inr, refl, ◌∙◌, ap, arith, ◌==◌, if◌then◌else◌,
  List, [], ◌∷◌, some, false, length, take, drop, length-take, length-drop,
}
use basedos.Memory.{Memory, null, CString, CString-same}
use basedos.Str.Text.{span_in, span_not_in}
use basedos.Str.Build.{Forward}
use basedos.Str.Build.Copy.{Holds, strcpy-Holds}
use basedos.Str.Token.{strtok-Took, Took, span_in-le, length-drop_le}
use basedos.Shell.Parse.{parse_loop, parse_from, parse_command}

-- the word at the front of a text, and those that `others` finds behind its delimiter
unfoldable pub word_and : List ℕ → (List ℕ → List (List ℕ)) → List ℕ → List (List ℕ)
word_and set others [] = []
word_and set others (y ∷ ys) =
    let n = span_not_in (y ∷ ys) set in take n (y ∷ ys) ∷ others (drop (suc n) (y ∷ ys))

-- the first `k` words of a text, between bytes of `set`
unfoldable pub words : ℕ → List ℕ → List ℕ → List (List ℕ)
unfolding word_and
words zero set xs = []
words (suc k) set xs = word_and set (words k set) (drop (span_in xs set) xs)

-- The addresses hold the texts, in their order.
abbrev pub HoldAll : Memory → List ℕ → List (List ℕ) → Type 0
HoldAll m [] [] = Unit {0}
HoldAll m (a ∷ args) (w ∷ ws) = CString m a w × HoldAll m args ws
HoldAll m _ _ = ⊥

-- Neither of two ranges, of `i` bytes and their terminator and of `j` bytes, meets the other.
abbrev pub Apart : ℕ → ℕ → ℕ → ℕ → Type 0
Apart a i b j = (a + i < b) ⊎ (b + j ≤ a)

pub record Parsed (k : ℕ) (m : Memory) (from : ℕ) (xs set : List ℕ) (r : List ℕ × Memory × ℕ)
    : Type 0 where
  pub args : HoldAll r.1 r.0 (words k set xs)
  pub frame : (q : ℕ) → (q < from) ⊎ (from + length xs ≤ q) → r.1 q ≡ m q

words_none : (k : ℕ) (set xs : List ℕ) → drop (span_in xs set) xs ≡ [] → words k set xs ≡ []
unfolding words
words_none zero set xs h = refl
words_none (suc k) set xs h = rw h refl

word_and_some :
    (set : List ℕ) (others : List ℕ → List (List ℕ)) (ys : List ℕ)
    → ys ≢ []
    → let n = span_not_in ys set in word_and set others ys ≡ take n ys ∷ others (drop (suc n) ys)
unfolding word_and
word_and_some set others [] h = absurd (h refl)
word_and_some set others (y ∷ ys) h = refl

-- a token found in a text from `from` on, behind `i` delimiters
module _ (m : Memory) (from i n : ℕ) (xs : List ℕ) (r : ℕ × Memory × ℕ) (i_le : i ≤ length xs)
    (took : Took m (from + i) n (drop i xs) r) where
  outside : (q : ℕ) → (q < from) ⊎ (from + length xs ≤ q) → r.1 q ≡ m q
  outside q out = Took.frame took q (omega (arith, length-drop i xs))

  Took-CString :
      (p : ℕ) (ys : List ℕ)
      → CString m p ys
      → Apart p (length ys) from (length xs + 1)
      → CString r.1 p ys
  Took-CString p ys c a = CString-same m r.1 p ys c (λ q h k. outside q (omega arith))

  -- what keeps the bytes outside the text behind the token keeps the token
  Took-kept :
      (m' : Memory)
      → ((q : ℕ) → (q < r.2) ⊎ (r.2 + length (drop (suc n) (drop i xs)) ≤ q) → m' q ≡ r.1 q)
      → CString m' (from + i) (take n (drop i xs))
  Took-kept m' kept =
      CString-same r.1 m' (from + i) (take n (drop i xs)) (Took.token took)
        (λ q h k. kept q (kept_lem q (Took.behind took) (Took.low took) k))
    where
      kept_lem :
          (q : ℕ)
          → (drop (suc n) (drop i xs) ≡ []) ⊎ (r.2 ≡ from + i + n + 1)
          → from + i + n ≤ r.2
          → q ≤ from + i + length (take n (drop i xs))
          → (q < r.2) ⊎ (r.2 + length (drop (suc n) (drop i xs)) ≤ q)
      kept_lem q (inl e) low k = rw e (omega arith)
      kept_lem q (inr e) low k = inl (omega (arith, length-take n (drop i xs)))

  -- what is apart from the text is apart from what is left of it
  Apart-rest :
      (p j : ℕ)
      → Apart p j from (length xs + 1)
      → Apart p j r.2 (length (drop (suc n) (drop i xs)) + 1)
  Apart-rest p j a = omega (arith, a, Took.low took, Took.high took, length-drop i xs)

  outside_rest :
      (q : ℕ)
      → (q < from) ⊎ (from + length xs ≤ q)
      → (q < r.2) ⊎ (r.2 + length (drop (suc n) (drop i xs)) ≤ q)
  outside_rest q out = omega (arith, out, Took.low took, Took.high took, length-drop i xs)

-- the first call of strtok, and what the rest of the loop adds to its token
parse_from-Parsed :
    (k fuel : ℕ) (m : Memory) (last str delim : ℕ) (xs set : List ℕ)
    → let from = if str == null then last else str in
      from ≢ null
      → CString m from xs
      → CString m delim set
      → Apart delim (length set) from (length xs + 1)
      → length xs < fuel
      → length set < fuel
      → (r : List ℕ × Memory × ℕ) × (parse_from k fuel m last str delim ≡ some r)
        × Parsed k m from xs set r
unfolding parse_from parse_loop Option.bind words
parse_from-Parsed zero fuel m last str delim xs set n c d a h l =
    let (r, run, res) = strtok-Took fuel m last str delim xs set n c d h l in
    rw run (
      ([], r.1, r.2),
      refl,
      record {
        args = tt;
        frame = λ q out. elim res [
          | inl (e, nul, same) ↦ ap (λ f. f q) same
          | inr (e, took) ↦
              outside m (if str == null then last else str) (span_in xs set)
                (span_not_in (drop (span_in xs set) xs) set) xs r (span_in-le xs set) took q out
        ];
      },
    )
parse_from-Parsed (suc k) fuel m last str delim xs set n c d a h l =
    let (r, run, res) = strtok-Took fuel m last str delim xs set n c d h l in
    let from = if str == null then last else str in
    let i = span_in xs set in
    let len = span_not_in (drop i xs) set in
    elim res [
      | inl (e, nul, same) ↦
          rw (run, nul)
            (
              ([], r.1, r.2),
              refl,
              record {
                args = rw (words_none (suc k) set xs e) tt;
                frame = λ q out. ap (λ f. f q) same;
              },
            )
      | inr (some_left, took) ↦
          let token : (r.0 == null) ≡ false = ground (arith, Took.start took) in
          let kept = Took-CString m from i len xs r (span_in-le xs set) took delim set d a in
          let (r', run', parsed) =
            parse_from-Parsed k fuel r.1 r.2 null delim (drop (suc len) (drop i xs)) set
              (λ z. ground (arith, Took.low took)) (Took.rest took) kept
              (Apart-rest m from i len xs r (span_in-le xs set) took delim (length set) a)
              (omega (arith, length-drop_le (suc len) (drop i xs), length-drop_le i xs)) l in
          rw (run, token, run')
            (
              (r.0 ∷ r'.0, r'.1, r'.2),
              refl,
              record {
                args = rw (word_and_some set (words k set) (drop i xs) some_left) (
                  rw (Took.start took) (
                      Took-kept m from i len xs r (span_in-le xs set) took r'.1
                        (Parsed.frame parsed)),
                  Parsed.args parsed,
                );
                frame = λ q out.
                    Parsed.frame parsed q
                      (outside_rest m from i len xs r (span_in-le xs set) took q out)
                    ∙ outside m from i len xs r (span_in-le xs set) took q out;
              },
            )
    ]

-- parse_command of an input that is a C string, apart from its buffer or behind its start, ends. The
-- addresses it stores hold the first 15 words of the input, the parts between blanks and tabs, in
-- their order and each as a C string; no byte outside the copy of the input in the buffer is written.
pub parse_command-words :
    (fuel : ℕ) (m : Memory) (last buffer input delim : ℕ) (xs : List ℕ)
    → buffer ≢ null
    → CString m input xs
    → CString m delim (32 ∷ 9 ∷ [])
    → Forward buffer input xs
    → Apart delim 2 buffer (length xs + 1)
    → length xs + 3 ≤ fuel
    → (r : List ℕ × Memory × ℕ) × (parse_command fuel m last buffer input delim ≡ some r)
      × HoldAll r.1 r.0 (words 15 (32 ∷ 9 ∷ []) xs)
      × ((q : ℕ) → (q < buffer) ⊎ (buffer + length xs < q) → r.1 q ≡ m q)
unfolding parse_command Option.bind
parse_command-words fuel m last buffer input delim xs n c d f a h =
    let (m', run, holds) = strcpy-Holds fuel m buffer input xs c f (omega arith) in
    let from : (if buffer == null then last else buffer) ≡ buffer = ground (arith, n) in
    let delimiters =
      CString-same m m' delim (32 ∷ 9 ∷ []) d (λ q k l. Holds.frame holds q (omega arith)) in
    let (r, loop, parsed) =
      parse_from-Parsed 15 fuel m' last buffer delim xs (32 ∷ 9 ∷ []) (rw from n)
        (rw from (Holds.text holds)) delimiters (rw from a) (omega arith) (omega arith) in
    rw (run, loop)
      (
        r,
        refl,
        Parsed.args parsed,
        λ q out. Parsed.frame parsed q (rw from (omega arith)) ∙ Holds.frame holds q out,
      )
