-- ===== src/Keyboard/Queue.antt =====
-- The key buffer of kernel/interrupts.c is a queue of at most 255 keys, if no interrupt comes
-- between the steps of keyboard_getchar.
use basedos.Prelude.{
  ℕ, zero, suc, ◌+◌, ◌-◌, ◌≤◌, ◌<◌, ◌≡◌, refl, ◌∙◌, sym, arith, get_or_of_le, ltb, leb, ◌==◌, not,
  ◌&&◌, if◌then◌else◌, List, [], ◌∷◌, ◌++◌, length, Option, none, some, ap, ap₂, ◌/◌, ◌%◌,
  Bool-cases, inl, inr,
}
use mathlib.Core.Option
use basedos.Memory.{Memory, store}
use basedos.Keyboard.{
  Keyboard, scancode_to_ascii, ascii_of, put_key, keyboard_handler_internal, shift,
  keyboard_getchar,
}

-- the `n` keys from index `i` on
unfoldable pub keys : Memory → ℕ → ℕ → List ℕ
keys buffer i zero = []
keys buffer i (suc n) = buffer i ∷ keys buffer (suc i) n

abbrev pub contents : Keyboard → List ℕ
contents k = keys k.buffer 0 k.pos

-- the queue of at most `room` keys
unfoldable pub push : ℕ → List ℕ → ℕ → List ℕ
push room q c = if not (c == 0) && ltb (length q) room then q ++ c ∷ [] else q

pub data Event : Type 0 where
  interrupt : ℕ → Event
  getchar : Event

-- the key of a scancode; a break code, with bit 7 set, has none
abbrev pub key_of : ℕ → ℕ
key_of scancode = if scancode / 128 % 2 == 1 then 0 else ascii_of scancode

pub length-keys : (buffer : Memory) (i n : ℕ) → length (keys buffer i n) ≡ n
unfolding keys
length-keys buffer i zero = refl
length-keys buffer i (suc n) = ap suc (length-keys buffer (suc i) n)

pub keys-suc :
    (buffer : Memory) (i n j : ℕ)
    → j ≡ i + n
    → keys buffer i (suc n) ≡ keys buffer i n ++ buffer j ∷ []
unfolding keys
keys-suc buffer i zero j e = ground arith
keys-suc buffer i (suc n) j e = ground (arith, keys-suc buffer (suc i) n j (omega arith))

pub keys-store :
    (buffer : Memory) (i n c j : ℕ)
    → j ≡ i + n
    → keys (store buffer j c) i (suc n) ≡ keys buffer i n ++ c ∷ []
unfolding keys
keys-store buffer i zero c j e = ground arith
keys-store buffer i (suc n) c j e = ground (arith, keys-store buffer (suc i) n c j (omega arith))

pub keys-same :
    (b b' : Memory) (i n : ℕ)
    → ((j : ℕ) → i ≤ j → j < i + n → b' j ≡ b j)
    → keys b' i n ≡ keys b i n
unfolding keys
keys-same b b' i zero same = refl
keys-same b b' i (suc n) same =
    ap₂ ◌∷◌ (same i (omega arith) (omega arith))
      (keys-same b b' (suc i) n (λ j h l. same j (omega arith) (omega arith)))

pub shift-keys :
    (buffer : Memory) (i n q : ℕ)
    → shift buffer i n q ≡ (if leb i q && ltb q (i + n) then buffer (q + 1) else buffer q)
unfolding shift
shift-keys buffer i zero q = ground arith
shift-keys buffer i (suc n) q =
    ground (arith, shift-keys (store buffer i (buffer (i + 1))) (i + 1) n q)

pub keys_shifted :
    (b b' : Memory) (i n : ℕ)
    → ((j : ℕ) → i ≤ j → j < i + n → b' j ≡ b (j + 1))
    → keys b' i n ≡ keys b (suc i) n
unfolding keys
keys_shifted b b' i zero same = refl
keys_shifted b b' i (suc n) same =
    ap₂ ◌∷◌ (same i (omega arith) (omega arith) ∙ ap b (omega arith))
      (keys_shifted b b' (suc i) n (λ j h l. same j (omega arith) (omega arith)))

pub keys_uncons :
    (buffer : Memory) (n c : ℕ) (q : List ℕ) → keys buffer 0 n ≡ c ∷ q → keys buffer 1 (n - 1) ≡ q
unfolding keys
keys_uncons buffer zero c q h = cc
keys_uncons buffer (suc n) c q h = let count : suc n - 1 ≡ n = omega arith in rw count (cc)

put_key-push : (k : Keyboard) (c : ℕ) → contents (put_key k c) ≡ push 255 (contents k) c
unfolding put_key push
put_key-push k c =
    ground (arith, length-keys k.buffer 0 k.pos, keys-store k.buffer 0 k.pos c k.pos (omega arith))

ascii_of_le : (s : ℕ) → length scancode_to_ascii ≤ s → ascii_of s ≡ 0
unfolding ascii_of
ascii_of_le s h = get_or_of_le scancode_to_ascii s 0 h

-- the handler's `outb(0x20, 0x20)`
abbrev pub acknowledged : Keyboard → Keyboard
acknowledged k = record k { out = (0x20, 0x20) ∷ k.out }

put_key-zero : (k : Keyboard) → put_key k 0 ≡ k
unfolding put_key
put_key-zero k = refl

pub handler-put_key :
    (k : Keyboard) (s : ℕ) → keyboard_handler_internal k s ≡ put_key (acknowledged k) (key_of s)
unfolding keyboard_handler_internal
handler-put_key k s = elim (Bool-cases (s / 128 % 2 == 1)) [
  | inl e ↦ rw (e, put_key-zero)
  | inr e ↦ rw e (elim (Bool-cases (ltb s (length scancode_to_ascii))) [
    | inl inside ↦ rw inside
    | inr outside ↦ rw (outside, ascii_of_le s (ground arith), put_key-zero)
  ])
]

-- The interrupt handler puts the scancode's key at the end of the queue, unless it has none or the
-- queue is full.
pub handler-push :
    (k : Keyboard) (scancode : ℕ)
    → contents (keyboard_handler_internal k scancode) ≡ push 255 (contents k) (key_of scancode)
handler-push k s = rw (handler-put_key k s) (put_key-push (acknowledged k) (key_of s))

unfoldable pub pop : List ℕ → Option (ℕ × List ℕ)
pop [] = none
pop (c ∷ q) = some (c, q)

getchar_pos :
    (buffer : Memory) (n : ℕ)
    → 0 < n
    → pop (keys buffer 0 n) ≡ some (buffer 0, keys (shift buffer 0 (n - 1)) 0 (n - 1))
unfolding pop keys
getchar_pos buffer zero h = absurd (omega arith)
getchar_pos buffer (suc n) h =
    let rounds : suc n - 1 ≡ n = omega arith in
    rw (
      rounds,
      keys_shifted buffer (shift buffer 0 n) 0 n (λ j _ l. ground (arith, shift-keys buffer 0 n j)),
    )

wait : (buffer : Memory) (n : ℕ) → n ≡ 0 → none ≡ pop (keys buffer 0 n)
unfolding pop keys
wait buffer zero h = refl
wait buffer (suc n) h = absurd (omega arith)

-- keyboard_getchar waits exactly when the queue is empty; otherwise it returns the first key and
-- leaves the others in their order.
pub getchar-pop :
    (k : Keyboard) → Option.map (λ r. (r.0, contents r.1)) (keyboard_getchar k) ≡ pop (contents k)
unfolding keyboard_getchar
getchar-pop k = elim (Bool-cases (k.pos == 0)) [
  | inl e ↦ rw e (wait k.buffer k.pos (ground arith))
  | inr e ↦ rw e (sym (getchar_pos k.buffer k.pos (ground arith)))
]

-- what each event gives: a key, or `none` for a wait and for an interrupt
pub run : Keyboard → List Event → List (Option ℕ)
run k [] = []
run k (interrupt s ∷ events) = none ∷ run (keyboard_handler_internal k s) events
run k (getchar ∷ events) = elim (keyboard_getchar k) [
  | none ↦ none ∷ run k events
  | some (c, k') ↦ some c ∷ run k' events
]

unfoldable pub run_queue : List ℕ → List Event → List (Option ℕ)
run_queue q [] = []
run_queue q (interrupt s ∷ events) = none ∷ run_queue (push 255 q (key_of s)) events
run_queue [] (getchar ∷ events) = none ∷ run_queue [] events
run_queue (c ∷ q) (getchar ∷ events) = some c ∷ run_queue q events

-- one read, from what the buffer's read gives for its contents
run_read :
    (k : Keyboard) (events : List Event)
    → ((k' : Keyboard) → run k' events ≡ run_queue (contents k') events)
    → (r : Option (ℕ × Keyboard)) (q : List ℕ) → keyboard_getchar k ≡ r
    → contents k ≡ q
    → Option.map (λ r. (r.0, contents r.1)) r ≡ pop q
    → run k (getchar ∷ events) ≡ run_queue q (getchar ∷ events)
unfolding run run_queue pop
run_read k events ih none [] er eq h =
    rw (er, run) (ap (λ l. none ∷ l) (ih k ∙ ap (λ l. run_queue l events) eq))
run_read k events ih none (c ∷ q) er eq h = cc
run_read k events ih (some r) [] er eq h = cc
run_read k events ih (some (c, k')) (d ∷ q) er eq h = rw (er, run) (ground (arith, ih k'))

-- No sequence of key presses and reads tells the key buffer from a queue of at most 255 keys, if
-- no interrupt comes between the steps of a read.
pub run_refines :
    (events : List Event) (k : Keyboard) → run k events ≡ run_queue (contents k) events
unfolding run run_queue
run_refines [] k = refl
run_refines (interrupt s ∷ events) k =
    rw (run_refines events (keyboard_handler_internal k s), handler-push)
run_refines (getchar ∷ events) k =
    run_read k events (run_refines events) (keyboard_getchar k) (contents k) refl refl
      (getchar-pop k)
