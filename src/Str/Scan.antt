-- ===== src/Str/Scan.antt =====
-- strlen, strchr, strrchr, strspn and strcspn of lib/string.c. A loop over a C string takes fuel,
-- and `none` says that the fuel ran out.
pub mod Span
use basedos.Prelude.{
  ℕ, zero, suc, ◌+◌, ◌<◌, ◌%◌, ◌≡◌, refl, arith, ◌==◌, if◌then◌else◌, Bool, true, false, Option,
  none, some, List, [], ◌∷◌, length, Bool-cases, not, ◌∙◌, inl, inr, Option-cases, ap,
}
use basedos.Memory.{Memory, CString, null}
use basedos.Str.Text.{contains, index_of, last_index_of, span_in, span_not_in}

strlen_loop : ℕ → Memory → ℕ → ℕ → Option ℕ
strlen_loop zero m str len = none
strlen_loop (suc fuel) m str len =
    let rest = strlen_loop fuel m str (suc len) in if m (str + len) == 0 then some len else rest

pub strlen : ℕ → Memory → ℕ → Option ℕ
unfolding strlen_loop
strlen fuel m str = strlen_loop fuel m str 0

-- the loop of strchr, for `(char)c`
strchr_loop : ℕ → Memory → ℕ → ℕ → Option ℕ
strchr_loop zero m str c = none
strchr_loop (suc fuel) m str c =
    let rest = strchr_loop fuel m (suc str) c in
    if m str == 0 then some null else if m str == c then some str else rest

pub strchr : ℕ → Memory → ℕ → ℕ → Option ℕ
unfolding strchr_loop
strchr fuel m str c = strchr_loop fuel m str (c % 256)

strrchr_loop : ℕ → Memory → ℕ → ℕ → ℕ → Option ℕ
strrchr_loop zero m str c last = none
strrchr_loop (suc fuel) m str c last =
    let rest = strrchr_loop fuel m (suc str) c (if m str == c then str else last) in
    if m str == 0 then some last else rest

pub strrchr : ℕ → Memory → ℕ → ℕ → Option ℕ
unfolding strrchr_loop
strrchr fuel m str c = strrchr_loop fuel m str (c % 256) null

-- the inner loop of strspn: where it stops in `accept`, and the count
accept_loop : ℕ → Memory → ℕ → ℕ → ℕ → Option (ℕ × ℕ)
accept_loop zero m c a count = none
accept_loop (suc fuel) m c a count =
    let rest = accept_loop fuel m c (suc a) count in
    if m a == 0 then some (a, count) else if c == m a then some (a, suc count) else rest

strspn_loop : ℕ → ℕ → Memory → ℕ → ℕ → ℕ → Option ℕ
strspn_loop zero inner m p accept count = none
strspn_loop (suc fuel) inner m p accept count =
    if m p == 0 then some count else elim (accept_loop inner m (m p) accept count) [
      | none ↦ none
      | some (a, count') ↦
          let rest = strspn_loop fuel inner m (suc p) accept count' in
          if m a == 0 then some count' else rest
    ]

pub strspn : ℕ → Memory → ℕ → ℕ → Option ℕ
unfolding strspn_loop accept_loop
strspn fuel m str accept = strspn_loop fuel fuel m str accept 0

-- the inner loop of strcspn: whether it meets `c`
reject_loop : ℕ → Memory → ℕ → ℕ → Option Bool
reject_loop zero m c r = none
reject_loop (suc fuel) m c r =
    let rest = reject_loop fuel m c (suc r) in
    if m r == 0 then some false else if c == m r then some true else rest

strcspn_loop : ℕ → ℕ → Memory → ℕ → ℕ → ℕ → Option ℕ
strcspn_loop zero inner m p reject count = none
strcspn_loop (suc fuel) inner m p reject count =
    if m p == 0 then some count else elim (reject_loop inner m (m p) reject) [
      | none ↦ none
      | some true ↦ some count
      | some false ↦ strcspn_loop fuel inner m (suc p) reject (suc count)
    ]

pub strcspn : ℕ → Memory → ℕ → ℕ → Option ℕ
unfolding strcspn_loop reject_loop
strcspn fuel m str reject = strcspn_loop fuel fuel m str reject 0

strlen_loop_lem :
    (fuel : ℕ) (m : Memory) (p str len : ℕ) (xs : List ℕ)
    → CString m p xs
    → p ≡ str + len
    → length xs < fuel
    → strlen_loop fuel m str len ≡ some (len + length xs)
unfolding strlen_loop
strlen_loop_lem zero m p str len xs c e h = absurd (omega arith)
strlen_loop_lem (suc fuel) m p str len [] c e h = rw (← e, c) (ground arith)
strlen_loop_lem (suc fuel) m p str len (x ∷ xs) c e h =
    ground (arith, strlen_loop_lem fuel m (suc p) str (suc len) xs c.2 (omega arith) (omega arith))

-- strlen of a C string ends, and returns the number of its bytes.
pub strlen-length :
    (fuel : ℕ) (m : Memory) (p : ℕ) (xs : List ℕ)
    → CString m p xs
    → length xs < fuel
    → strlen fuel m p ≡ some (length xs)
unfolding strlen
strlen-length fuel m p xs c h =
    strlen_loop_lem fuel m p p 0 xs c (omega arith) h ∙ ap some (omega arith)

-- the address that a position stands for
abbrev pub pointer : ℕ → Option ℕ → ℕ
pointer p none = null
pointer p (some i) = p + i

strchr_loop_lem :
    (fuel : ℕ) (m : Memory) (p c : ℕ) (xs : List ℕ)
    → CString m p xs
    → length xs < fuel
    → strchr_loop fuel m p c ≡ some (pointer p (index_of c xs))
unfolding strchr_loop index_of
strchr_loop_lem zero m p c xs s h = absurd (omega arith)
strchr_loop_lem (suc fuel) m p c [] s h = rw s
strchr_loop_lem (suc fuel) m p c (x ∷ xs) s h =
    ground (arith, strchr_loop_lem fuel m (suc p) c xs s.2, Option-cases (index_of c xs))

-- strchr of a C string ends, and returns the address of the first byte equal to `(char)c`, or NULL
-- when no byte before the terminator is.
pub strchr-index_of :
    (fuel : ℕ) (m : Memory) (p c : ℕ) (xs : List ℕ)
    → CString m p xs
    → length xs < fuel
    → strchr fuel m p c ≡ some (pointer p (index_of (c % 256) xs))
unfolding strchr
strchr-index_of fuel m p c xs = strchr_loop_lem fuel m p (c % 256) xs

strrchr_loop_lem :
    (fuel : ℕ) (m : Memory) (p c last : ℕ) (xs : List ℕ)
    → CString m p xs
    → length xs < fuel
    → strrchr_loop fuel m p c last
      ≡ some (elim (last_index_of c xs) [ none ↦ last | some i ↦ p + i ])
unfolding strrchr_loop last_index_of
strrchr_loop_lem zero m p c last xs s h = absurd (omega arith)
strrchr_loop_lem (suc fuel) m p c last [] s h = rw s
strrchr_loop_lem (suc fuel) m p c last (x ∷ xs) s h = ground (
  arith,
  strrchr_loop_lem fuel m (suc p) c (if m p == c then p else last) xs s.2,
  Option-cases (last_index_of c xs),
)

strrchr_null : (p : ℕ) (o : Option ℕ) → elim o [ none ↦ null | some i ↦ p + i ] ≡ pointer p o
strrchr_null p none = refl
strrchr_null p (some i) = refl

-- strrchr of a C string ends, and returns the address of the last byte equal to `(char)c`, or NULL
-- when no byte before the terminator is.
pub strrchr-last_index_of :
    (fuel : ℕ) (m : Memory) (p c : ℕ) (xs : List ℕ)
    → CString m p xs
    → length xs < fuel
    → strrchr fuel m p c ≡ some (pointer p (last_index_of (c % 256) xs))
unfolding strrchr
strrchr-last_index_of fuel m p c xs s h =
    strrchr_loop_lem fuel m p (c % 256) null xs s h
    ∙ ap some (strrchr_null p (last_index_of (c % 256) xs))
