-- ===== src/Shell/Parse/Plain.antt =====
-- The words of a text have no words of their own.
use basedos.Prelude.{
  ℕ, zero, suc, ◌<◌, ◌≡◌, refl, ap, arith, Bool-cases, inl, inr, false, List, [], ◌∷◌, length, take,
  drop,
}
use basedos.Str.Text.{contains, span_in, span_not_in}
use basedos.Shell.Parse.Words.{word_and, words}

-- the delimiters of parse_command
abbrev pub blanks : List ℕ
blanks = b' ' ∷ b'\t' ∷ []

-- a text of one word or two
abbrev pub IsPlain : List ℕ → Type 0
IsPlain text = let k = length (words 15 blanks text) in (0 < k) × (k < 3)

abbrev pub AllPlain : List (List ℕ) → Type 0
AllPlain [] = Unit {0}
AllPlain (word ∷ words) = IsPlain word × AllPlain words

-- no byte of the text is in the set
abbrev NoneIn : List ℕ → List ℕ → Type 0
NoneIn set [] = Unit {0}
NoneIn set (x ∷ xs) = (contains x set ≡ false) × NoneIn set xs

span_not_in-NoneIn : (set xs : List ℕ) → NoneIn set (take (span_not_in xs set) xs)
unfolding span_not_in
span_not_in-NoneIn set [] = tt
span_not_in-NoneIn set (x ∷ xs) = elim (Bool-cases (contains x set)) [
  | inl e ↦ rw e tt
  | inr e ↦ rw e (e, span_not_in-NoneIn set xs)
]

span_not_in-all : (set xs : List ℕ) → NoneIn set xs → span_not_in xs set ≡ length xs
unfolding span_not_in
span_not_in-all set [] h = refl
span_not_in-all set (x ∷ xs) h = rw (h.0) (ap suc (span_not_in-all set xs h.1))

take_all : (xs : List ℕ) → take (length xs) xs ≡ xs
take_all [] = refl
take_all (x ∷ xs) = ap (λ l. x ∷ l) (take_all xs)

drop_past : (xs : List ℕ) → drop (suc (length xs)) xs ≡ []
drop_past [] = refl
drop_past (x ∷ xs) = drop_past xs

words_empty : (k : ℕ) (set : List ℕ) → words k set [] ≡ []
unfolding words word_and span_in
words_empty zero set = refl
words_empty (suc k) set = refl

-- A text that is not empty and has no byte of the set is its only word.
words_one :
    (k x : ℕ) (set xs : List ℕ) → NoneIn set (x ∷ xs) → words (suc k) set (x ∷ xs) ≡ (x ∷ xs) ∷ []
unfolding words word_and span_in
words_one k x set xs h =
    let all : span_not_in (x ∷ xs) set ≡ suc (length xs) = span_not_in-all set (x ∷ xs) h in
    rw (h.0, all, take_all xs, drop_past xs, words_empty k set) refl

-- the first byte, if there is one, is not in the set
abbrev StartsOut : List ℕ → List ℕ → Type 0
StartsOut set [] = Unit {0}
StartsOut set (x ∷ xs) = contains x set ≡ false

drop-StartsOut : (set xs : List ℕ) → StartsOut set (drop (span_in xs set) xs)
unfolding span_in
drop-StartsOut set [] = tt
drop-StartsOut set (x ∷ xs) = elim (Bool-cases (contains x set)) [
  | inl e ↦ rw e (drop-StartsOut set xs)
  | inr e ↦ rw e e
]

span_not_in-out :
    (y : ℕ) (set ys : List ℕ)
    → contains y set ≡ false
    → span_not_in (y ∷ ys) set ≡ suc (span_not_in ys set)
unfolding span_not_in
span_not_in-out y set ys h = rw h refl

-- the first word is plain
first-IsPlain :
    (y : ℕ) (ys : List ℕ)
    → contains y blanks ≡ false
    → IsPlain (take (span_not_in (y ∷ ys) blanks) (y ∷ ys))
first-IsPlain y ys out =
    let n = span_not_in-out y blanks ys out in
    let one =
      words_one 14 y blanks (take (span_not_in ys blanks) ys) (out, span_not_in-NoneIn blanks ys) in
    rw (n, one) (omega arith, omega arith)

word_and-AllPlain :
    (k : ℕ) (ys : List ℕ)
    → StartsOut blanks ys
    → ((zs : List ℕ) → AllPlain (words k blanks zs))
    → AllPlain (word_and blanks (words k blanks) ys)
unfolding word_and
word_and-AllPlain k [] out h = tt
word_and-AllPlain k (y ∷ ys) out h = (first-IsPlain y ys out, h _)

-- Each word of a text is a text of one word.
pub words-AllPlain : (k : ℕ) (xs : List ℕ) → AllPlain (words k blanks xs)
unfolding words
words-AllPlain zero xs = tt
words-AllPlain (suc k) xs = word_and-AllPlain k _ (drop-StartsOut blanks xs) (words-AllPlain k)

pub one_word : (text : List ℕ) → length (words 15 blanks text) ≡ 1 → IsPlain text
one_word text h = (omega arith, omega arith)

pub two_words : (text : List ℕ) → length (words 15 blanks text) ≡ 2 → IsPlain text
two_words text h = (omega arith, omega arith)
