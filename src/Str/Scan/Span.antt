-- ===== src/Str/Scan/Span.antt =====
-- strspn and strcspn of lib/string.c: the lengths that they return.
use basedos.Prelude.{
  ℕ, zero, suc, ◌+◌, ◌<◌, ◌≡◌, arith, ◌==◌, if◌then◌else◌, some, List, [], ◌∷◌, length, Bool-cases,
  not, ◌∙◌, inl, inr, ap,
}
use basedos.Memory.{Memory, CString}
use basedos.Str.Text.{contains, span_in, span_not_in}
use basedos.Str.Scan.{accept_loop, strspn_loop, strspn, reject_loop, strcspn_loop, strcspn}

-- The inner loop stops at the terminator exactly when `c` is not in the set, and counts if it is.
accept_loop_lem :
    (fuel : ℕ) (m : Memory) (c a count : ℕ) (set : List ℕ)
    → CString m a set
    → length set < fuel
    → (stop : ℕ) × (accept_loop fuel m c a count
        ≡ some (stop, if contains c set then suc count else count))
      × ((m stop == 0) ≡ not (contains c set))
unfolding accept_loop contains
accept_loop_lem zero m c a count set s h = absurd (omega arith)
accept_loop_lem (suc fuel) m c a count [] s h = (a, ground arith, rw s)
accept_loop_lem (suc fuel) m c a count (x ∷ xs) s h = elim (Bool-cases (c == x)) [
  | inl e ↦ (a, ground arith, ground arith)
  | inr e ↦
      let (stop, run, ends) = accept_loop_lem fuel m c (suc a) count xs s.2 (omega arith) in
      (stop, ground arith, ground arith)
]

strspn_loop_lem :
    (fuel inner : ℕ) (m : Memory) (p accept count : ℕ) (xs set : List ℕ)
    → CString m p xs
    → CString m accept set
    → length xs < fuel
    → length set < inner
    → strspn_loop fuel inner m p accept count ≡ some (count + span_in xs set)
unfolding strspn_loop span_in
strspn_loop_lem zero inner m p accept count xs set s t h k = absurd (omega arith)
strspn_loop_lem (suc fuel) inner m p accept count [] set s t h k = ground arith
strspn_loop_lem (suc fuel) inner m p accept count (x ∷ xs) set s t h k =
    let (stop, run, ends) = accept_loop_lem inner m (m p) accept count set t k in
    ground (arith, strspn_loop_lem fuel inner m (suc p) accept (suc count) xs set s.2 t)

-- strspn of C strings ends, and returns the length of the longest prefix of bytes from `accept`.
pub strspn-span_in :
    (fuel : ℕ) (m : Memory) (p accept : ℕ) (xs set : List ℕ)
    → CString m p xs
    → CString m accept set
    → length xs < fuel
    → length set < fuel
    → strspn fuel m p accept ≡ some (span_in xs set)
unfolding strspn
strspn-span_in fuel m p accept xs set s t h k =
    strspn_loop_lem fuel fuel m p accept 0 xs set s t h k ∙ ap some (omega arith)

reject_loop_lem :
    (fuel : ℕ) (m : Memory) (c r : ℕ) (set : List ℕ)
    → CString m r set
    → length set < fuel
    → reject_loop fuel m c r ≡ some (contains c set)
unfolding reject_loop contains
reject_loop_lem zero m c r set s h = absurd (omega arith)
reject_loop_lem (suc fuel) m c r [] s h = rw s
reject_loop_lem (suc fuel) m c r (x ∷ xs) s h =
    ground (arith, reject_loop_lem fuel m c (suc r) xs s.2)

strcspn_loop_lem :
    (fuel inner : ℕ) (m : Memory) (p reject count : ℕ) (xs set : List ℕ)
    → CString m p xs
    → CString m reject set
    → length xs < fuel
    → length set < inner
    → strcspn_loop fuel inner m p reject count ≡ some (count + span_not_in xs set)
unfolding strcspn_loop span_not_in
strcspn_loop_lem zero inner m p reject count xs set s t h k = absurd (omega arith)
strcspn_loop_lem (suc fuel) inner m p reject count [] set s t h k = ground arith
strcspn_loop_lem (suc fuel) inner m p reject count (x ∷ xs) set s t h k = ground (
  arith,
  reject_loop_lem inner m (m p) reject set t k,
  strcspn_loop_lem fuel inner m (suc p) reject (suc count) xs set s.2 t,
)

-- strcspn of C strings ends, and returns the length of the longest prefix with no byte of `reject`.
pub strcspn-span_not_in :
    (fuel : ℕ) (m : Memory) (p reject : ℕ) (xs set : List ℕ)
    → CString m p xs
    → CString m reject set
    → length xs < fuel
    → length set < fuel
    → strcspn fuel m p reject ≡ some (span_not_in xs set)
unfolding strcspn
strcspn-span_not_in fuel m p reject xs set s t h k =
    strcspn_loop_lem fuel fuel m p reject 0 xs set s t h k ∙ ap some (omega arith)
