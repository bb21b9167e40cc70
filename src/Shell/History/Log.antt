-- ===== src/Shell/History/Log.antt =====
-- The array of the history is a window on a log of commands.
use basedos.Prelude.{
  ℕ, zero, suc, ◌+◌, ◌-◌, ◌%◌, ◌<◌, ◌≡◌, refl, ◌∙◌, ap, arith, ltb, ◌==◌, if◌then◌else◌, ◌&&◌, not,
  List, [], ◌∷◌, some, true, false, get_or, set, length, length-set, Bool-cases, inl, inr,
}
use basedos.Str.Text.{text_eq}
use basedos.Shell.{Shell, max_input, history_size, fits}
use basedos.Shell.History.{entry, add_to_history}

-- The log of the commands, the newest first. A command is not logged again behind itself, but where
-- the number of the logged ones is a multiple of ten.
pub logged : List ℕ → List (List ℕ) → List (List ℕ)
logged [] log = log
logged (c ∷ cmd) log =
    if not (length log % history_size == 0) && text_eq (get_or log 0 []) (c ∷ cmd)
    then log
    else (c ∷ cmd) ∷ log

-- The array holds the last ten commands of the log, from history_pos on backwards.
pub record IsLog (s : Shell) (log : List (List ℕ)) : Type 0 where
  pub size : length s.history ≡ history_size
  pub pos : s.history_pos ≡ length log % history_size
  pub window :
      (i : ℕ)
      → i < history_size
      → entry s ((s.history_pos + history_size - 1 - i) % history_size) ≡ get_or log i []

get_or-set :
    (xs : List (List ℕ)) (i j : ℕ) (v : List ℕ)
    → i < length xs
    → get_or (set xs i v) j [] ≡ (if i == j then v else get_or xs j [])
get_or-set [] i j v h = absurd (omega arith)
get_or-set (x ∷ xs) zero zero v h = ground arith
get_or-set (x ∷ xs) zero (suc j) v h = ground arith
get_or-set (x ∷ xs) (suc i) zero v h = ground arith
get_or-set (x ∷ xs) (suc i) (suc j) v h = ground (arith, get_or-set xs i j v)

-- the newest entry is the head of the log
newest :
    (s : Shell) (log : List (List ℕ))
    → IsLog s log
    → 0 < s.history_pos
    → entry s (s.history_pos - 1) ≡ get_or log 0 []
newest s log w h = ap (entry s) (omega (arith, w.pos)) ∙ w.window 0 (omega arith)

-- The code's test for the newest entry is the log's.
repeated :
    (s : Shell) (log : List (List ℕ)) (c : ℕ) (cmd : List ℕ)
    → IsLog s log
    → (ltb 0 s.history_pos && text_eq (entry s (s.history_pos - 1)) (c ∷ cmd))
      ≡ (not (length log % history_size == 0) && text_eq (get_or log 0 []) (c ∷ cmd))
repeated s log c cmd w = elim (Bool-cases (ltb 0 s.history_pos)) [
  | inl e ↦
      let some_entry : 0 < s.history_pos = ground arith in
      let other : (length log % history_size == 0) ≡ false = ground (arith, w.pos) in
      rw (e, other, newest s log w some_entry) refl
  | inr e ↦
      let first : (length log % history_size == 0) ≡ true = ground (arith, w.pos) in
      rw (e, first) refl
]

window_next :
    (s : Shell) (log : List (List ℕ)) (v : List ℕ) (i : ℕ)
    → IsLog s log
    → i < history_size
    → get_or
        (set s.history s.history_pos v)
        (((s.history_pos + 1) % history_size + history_size - 1 - i) % history_size)
        []
      ≡ get_or (v ∷ log) i []
window_next s log v zero w h =
    let at : ((s.history_pos + 1) % history_size + history_size - 1 - 0) % history_size
        ≡ s.history_pos =
      omega (arith, w.pos) in
    rw at (
      get_or-set s.history s.history_pos s.history_pos v (omega (arith, w.pos, w.size))
      ∙ ground arith)
window_next s log v (suc i) w h =
    let at : ((s.history_pos + 1) % history_size + history_size - 1 - suc i) % history_size
        ≡ (s.history_pos + history_size - 1 - i) % history_size =
      omega (arith, w.pos) in
    let k = (s.history_pos + history_size - 1 - i) % history_size in
    let other : (s.history_pos == k) ≡ false = ground (arith, w.pos) in
    rw at (
      get_or-set s.history s.history_pos k v (omega (arith, w.pos, w.size))
      ∙ rw other (w.window i (omega arith)))

-- add_to_history of a text that fits keeps the array a window on the log, with the text logged.
pub add_to_history-IsLog :
    (s : Shell) (cmd : List ℕ) (log : List (List ℕ))
    → IsLog s log
    → length cmd < max_input
    → (s' : Shell) × (add_to_history s cmd ≡ some s') × IsLog s' (logged cmd log)
unfolding add_to_history logged
add_to_history-IsLog s [] log w h = (s, refl, w)
add_to_history-IsLog s (c ∷ cmd) log w h =
    let s' = record s {
      history = set s.history s.history_pos (c ∷ cmd);
      history_pos = (s.history_pos + 1) % history_size;
    } in
    elim (Bool-cases
      (not (length log % history_size == 0) && text_eq (get_or log 0 []) (c ∷ cmd))) [
        | inl e ↦ rw (repeated s log c cmd w, e) (s, refl, w)
        | inr e ↦
            let room : fits max_input (c ∷ cmd) ≡ true = ground arith in
            rw (repeated s log c cmd w, e, room)
              (
                s',
                refl,
                record {
                  size = length-set s.history s.history_pos (c ∷ cmd) ∙ w.size;
                  pos = omega (arith, w.pos);
                  window = λ i lt. window_next s log (c ∷ cmd) i w lt;
                },
              )
      ]
