-- ===== src/Keyboard/Race.antt =====
-- keyboard_getchar of kernel/interrupts.c with interrupts between its steps: the handler runs on
-- the same buffer and count.
pub mod Lost
use basedos.Prelude.{
  ℕ, zero, suc, ◌+◌, ◌-◌, ◌≤◌, ◌<◌, ◌≡◌, ◌≢◌, refl, ◌∙◌, sym, ap, arith, ltb, leb, ◌==◌,
  if◌then◌else◌, List, [], ◌∷◌, ◌++◌, length, Bool-cases, inl, inr, ◌&&◌, not,
}
use mathlib.Core.Path.{subst}
use basedos.Memory.{Memory, store}
use basedos.Keyboard.{Keyboard, put_key, keyboard_handler_internal, shift}
use basedos.Keyboard.Queue.{
  contents, keys, keys-same, keys-store, keys-suc, keys_shifted, keys_uncons, length-keys, key_of,
  push, handler-push, acknowledged, handler-put_key,
}

-- where keyboard_getchar stands, once it has read the first key: in its loop at `i`, behind the
-- loop and before `key_buffer_pos--`, or at its return
pub data Phase : Type 0 where
  looping : ℕ → Phase
  leaving : Phase
  returned : Phase

pub record Reader : Type 0 where
  pub phase : Phase
  pub board : Keyboard

-- the loop's test and body, and the decrement
unfoldable pub loop_step : Keyboard → ℕ → Reader
loop_step k i =
    if ltb i (k.pos - 1)
    then record {
      phase = looping (i + 1);
      board = record k { buffer = store k.buffer i (k.buffer (i + 1)) };
    }
    else record { phase = leaving; board = k }

unfoldable pub phase_step : Phase → Keyboard → Reader
phase_step (looping i) k = loop_step k i
phase_step leaving k = record { phase = returned; board = record k { pos = k.pos - 1 } }
phase_step returned k = record { phase = returned; board = k }

-- The processor makes the next step of keyboard_getchar, or runs the handler for a scancode.
pub data Tick : Type 0 where
  step : Tick
  interrupt : ℕ → Tick

unfoldable pub tick : Reader → Tick → Reader
tick r step = phase_step r.phase r.board
tick r (interrupt s) = record r { board = keyboard_handler_internal r.board s }

unfoldable pub run : Reader → List Tick → Reader
run r [] = r
run r (t ∷ ts) = run (tick r t) ts

-- keyboard_getchar behind its wait
unfoldable pub start : Keyboard → Reader
start k = record { phase = looping 0; board = k }

-- the buffer as the loop will leave it, from its state at `i`
abbrev pub ahead : Memory → ℕ → Memory
ahead buffer i j = if ltb j i then buffer j else buffer (j + 1)

-- `q` are the keys that the read is to leave, in order.
abbrev pub Leaves : Phase → Keyboard → List ℕ → Type 0
Leaves (looping i) k q = (0 < k.pos) × (i ≤ k.pos - 1) × (keys (ahead k.buffer i) 0 (k.pos - 1) ≡ q)
Leaves leaving k q = (0 < k.pos) × (keys k.buffer 0 (k.pos - 1) ≡ q)
Leaves returned k q = keys k.buffer 0 k.pos ≡ q

-- what a tick adds to those keys: until the read ends its own key takes a place of the 255
abbrev pub arrive : Phase → List ℕ → Tick → List ℕ
arrive p q step = q
arrive (looping i) q (interrupt s) = push 254 q (key_of s)
arrive leaving q (interrupt s) = push 254 q (key_of s)
arrive returned q (interrupt s) = push 255 q (key_of s)

-- No interrupt comes between the end of the loop and `key_buffer_pos--`.
abbrev pub Undisturbed : Phase → Tick → Type 0
Undisturbed leaving (interrupt s) = ⊥
Undisturbed _ _ = Unit {0}

loop_step-Leaves :
    (k : Keyboard) (i : ℕ) (q : List ℕ)
    → Leaves (looping i) k q
    → let r = loop_step k i in Leaves r.phase r.board q
unfolding loop_step
loop_step-Leaves k i q h = elim (Bool-cases (ltb i (k.pos - 1))) [
  | inl e ↦
      let b = store k.buffer i (k.buffer (i + 1)) in
      rw e (
        h.0,
        ground arith,
        keys-same (ahead k.buffer i) (ahead b (i + 1)) 0 (k.pos - 1) (λ j _ l. ground arith) ∙ h.2,
      )
  | inr e ↦
      rw e (h.0, keys-same (ahead k.buffer i) k.buffer 0 (k.pos - 1) (λ j _ l. ground arith) ∙ h.2)
]

step-Leaves :
    (p : Phase) (k : Keyboard) (q : List ℕ)
    → Leaves p k q
    → let r = phase_step p k in Leaves r.phase r.board q
unfolding phase_step
step-Leaves (looping i) k q h = loop_step-Leaves k i q h
step-Leaves leaving k q h = h.1
step-Leaves returned k q h = h

put_key-Leaves :
    (i : ℕ) (k : Keyboard) (q : List ℕ) (c : ℕ)
    → Leaves (looping i) k q
    → Leaves (looping i) (put_key k c) (push 254 q c)
unfolding put_key push
put_key-Leaves i k q c h =
    let long : length q ≡ k.pos - 1 =
      ap length (sym h.2) ∙ length-keys (ahead k.buffer i) 0 (k.pos - 1) in
    let room : ltb (length q) 254 ≡ ltb k.pos 255 = rw long (ground arith) in
    let b = store k.buffer k.pos c in
    let same = keys-same (ahead k.buffer i) (ahead b i) 0 (k.pos - 1) (λ j _ l. ground arith) in
    let more = keys-suc (ahead b i) 0 (k.pos - 1) (k.pos - 1) (omega arith) in
    let count : k.pos + 1 - 1 ≡ suc (k.pos - 1) = omega arith in
    let last : ahead b i (k.pos - 1) ≡ c = ground arith in
    elim (Bool-cases (not (c == 0) && ltb k.pos 255)) [
      | inl e ↦ rw (room, e) (omega arith, omega arith, rw (count, more, same, h.2, last))
      | inr e ↦ rw (room, e) h
    ]

interrupt-Leaves :
    (p : Phase) (k : Keyboard) (q : List ℕ) (s : ℕ)
    → Leaves p k q
    → Undisturbed p (interrupt s)
    → Leaves p (keyboard_handler_internal k s) (arrive p q (interrupt s))
interrupt-Leaves (looping i) k q s h u =
    rw (handler-put_key k s) (put_key-Leaves i (acknowledged k) q (key_of s) h)
interrupt-Leaves leaving k q s h u = absurd u
interrupt-Leaves returned k q s h u = rw (← h) (handler-push k s)

tick-Leaves :
    (r : Reader) (q : List ℕ) (t : Tick)
    → Leaves r.phase r.board q
    → Undisturbed r.phase t
    → Leaves (tick r t).phase (tick r t).board (arrive r.phase q t)
unfolding tick
tick-Leaves r q step h u = step-Leaves r.phase r.board q h
tick-Leaves r q (interrupt s) h u = interrupt-Leaves r.phase r.board q s h u

abbrev pub AllUndisturbed : Reader → List Tick → Type 0
AllUndisturbed r [] = Unit
AllUndisturbed r (t ∷ ts) = Undisturbed r.phase t × AllUndisturbed (tick r t) ts

-- the keys that the ticks leave
abbrev pub arrive_all : Reader → List ℕ → List Tick → List ℕ
arrive_all r q [] = q
arrive_all r q (t ∷ ts) = arrive_all (tick r t) (arrive r.phase q t) ts

run-Leaves :
    (r : Reader) (q : List ℕ) (ts : List Tick)
    → Leaves r.phase r.board q
    → AllUndisturbed r ts
    → Leaves (run r ts).phase (run r ts).board (arrive_all r q ts)
unfolding run
run-Leaves r q [] h u = h
run-Leaves r q (t ∷ ts) h u =
    run-Leaves (tick r t) (arrive r.phase q t) ts (tick-Leaves r q t h u.0) u.1

start-Leaves : (k : Keyboard) (c : ℕ) (q : List ℕ) → contents k ≡ c ∷ q → Leaves (looping 0) k q
start-Leaves k c q h = (
  omega (arith, length-keys k.buffer 0 k.pos, ap length h),
  omega arith,
  keys_shifted k.buffer (ahead k.buffer 0) 0 (k.pos - 1) (λ j _ _. ground arith)
      ∙ keys_uncons k.buffer k.pos c q h,
)

-- A read of a buffer with keys that interrupts come upon, but not between the end of its loop and
-- `key_buffer_pos--`, leaves, when it returns, the keys but the first in their order and behind them
-- those that came, until 255 are in use.
pub getchar_interrupted :
    (k : Keyboard) (c : ℕ) (q : List ℕ) (ts : List Tick)
    → contents k ≡ c ∷ q
    → AllUndisturbed (start k) ts
    → (run (start k) ts).phase ≡ returned
    → contents (run (start k) ts).board ≡ arrive_all (start k) q ts
unfolding start
getchar_interrupted k c q ts h u end =
    subst (λ p. Leaves p (run (start k) ts).board (arrive_all (start k) q ts)) end
      (run-Leaves (start k) q ts (start-Leaves k c q h) u)
