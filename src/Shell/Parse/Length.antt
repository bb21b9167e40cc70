-- ===== src/Shell/Parse/Length.antt =====
-- The words of a text, put together again, are not longer than it.
use basedos.Prelude.{
  ℕ, zero, suc, ◌+◌, ◌-◌, ◌≤◌, ◌≡◌, refl, arith, List, [], ◌∷◌, ◌++◌, length, take, drop,
  length-take, length-drop, length-append,
}
use basedos.Prelude.Text.{codes}
use basedos.Shell.Files.{join_words}
use basedos.Str.Text.{span_in, span_not_in}
use basedos.Str.Token.{length-drop_le}
use basedos.Shell.Parse.Words.{word_and, words}

-- the bytes of the words, with one behind each
unfoldable pub joined_length : List (List ℕ) → ℕ
joined_length [] = 0
joined_length (word ∷ words) = length word + 1 + joined_length words

-- at most the bytes of the text and one
abbrev Short : List ℕ → List (List ℕ) → Type 0
Short xs ws = joined_length ws ≤ length xs + 1

words_empty : (k : ℕ) (set : List ℕ) → joined_length (words k set []) ≡ 0
unfolding words word_and joined_length span_in
words_empty zero set = refl
words_empty (suc k) set = refl

word_and-Short :
    (k : ℕ) (set ys : List ℕ)
    → ((zs : List ℕ) → Short zs (words k set zs))
    → Short ys (word_and set (words k set) ys)
unfolding word_and joined_length
word_and-Short k set [] h = omega arith
word_and-Short k set (y ∷ ys) h =
    behind (drop n ys) (words_empty k set) (h (drop n ys)) (length-drop n ys)
  where
    n : ℕ
    n = span_not_in (y ∷ ys) set

    behind :
        (zs : List ℕ)
        → joined_length (words k set []) ≡ 0
        → Short zs (words k set zs)
        → length zs ≡ length ys - n
        → length (take n (y ∷ ys)) + 1 + joined_length (words k set zs) ≤ length (y ∷ ys) + 1
    behind [] none_left short size = omega (arith, length-take n (y ∷ ys), none_left)
    behind (z ∷ zs) none_left short size = omega (arith, length-take n (y ∷ ys), short, size)

pub words-Short : (k : ℕ) (set xs : List ℕ) → joined_length (words k set xs) ≤ length xs + 1
unfolding words joined_length
words-Short zero set xs = omega arith
words-Short (suc k) set xs = omega (
  arith,
  word_and-Short k set (drop (span_in xs set) xs) (words-Short k set),
  length-drop_le (span_in xs set) xs,
)

pub length-join_words : (ws : List (List ℕ)) → length (join_words ws) ≤ joined_length ws
unfolding join_words joined_length
length-join_words [] = omega arith
length-join_words (word ∷ []) = omega arith
length-join_words (word ∷ next ∷ ws) = omega (
  arith,
  length-append word (codes " " ++ join_words (next ∷ ws)),
  length-append (codes " ") (join_words (next ∷ ws)),
  length-join_words (next ∷ ws),
)
