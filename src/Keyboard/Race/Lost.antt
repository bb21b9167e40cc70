-- ===== src/Keyboard/Race/Lost.antt =====
-- The interrupt that keyboard_getchar of kernel/interrupts.c does not expect: one between the end
-- of its loop and `key_buffer_pos--`.
use basedos.Prelude.{
  ℕ, zero, suc, ◌+◌, ◌-◌, ◌<◌, ◌≡◌, ◌≢◌, refl, ◌∙◌, ap, ap₂, arith, List, [], ◌∷◌, ◌++◌, lt→ltb,
  le→ltb, replicate,
}
use basedos.Memory.{store}
use basedos.Keyboard.{Keyboard, put_key, shift}
use basedos.Keyboard.Queue.{
  contents, keys, keys-same, keys-suc, keys_shifted, shift-keys, key_of, acknowledged,
  handler-put_key,
}
use basedos.Keyboard.Race.{
  Tick, looping, leaving, returned, step, interrupt, loop_step, phase_step, tick, run, start,
}

loop_more :
    (k : Keyboard) (i : ℕ)
    → i < k.pos - 1
    → loop_step k i ≡ record {
      phase = looping (i + 1);
      board = record k { buffer = store k.buffer i (k.buffer (i + 1)) };
    }
unfolding loop_step
loop_more k i h = rw (lt→ltb i (k.pos - 1) h)

loop_done :
    (k : Keyboard) (i : ℕ) → k.pos - 1 ≡ i → loop_step k i ≡ record { phase = leaving; board = k }
unfolding loop_step
loop_done k i h = rw (le→ltb i (k.pos - 1) (omega arith))

steps_leave :
    (n i : ℕ) (k : Keyboard) (rest : List Tick)
    → n + i ≡ k.pos - 1
    → run (record { phase = looping i; board = k }) (replicate (suc n) step ++ rest)
      ≡ run (record { phase = leaving; board = record k { buffer = shift k.buffer i n } }) rest
unfolding run tick phase_step shift
steps_leave zero i k rest e = ap (λ r. run r rest) (loop_done k i (omega arith))
steps_leave (suc n) i k rest e =
    let b = store k.buffer i (k.buffer (i + 1)) in
    ap (λ r. run r (replicate (suc n) step ++ rest)) (loop_more k i (omega arith))
    ∙ steps_leave n (i + 1) (record k { buffer = b }) rest (omega arith)

put_key_room :
    (k : Keyboard) (c : ℕ)
    → c ≢ 0
    → k.pos < 255
    → put_key k c ≡ record k { buffer = store k.buffer k.pos c; pos = k.pos + 1 }
unfolding put_key
put_key_room k c h room = ground arith

late_key :
    (k : Keyboard) (s : ℕ)
    → k.pos < 255
    → key_of s ≢ 0
    → let r = run (record { phase = leaving; board = k }) (interrupt s ∷ step ∷ []) in
      (r.phase ≡ returned) × (contents r.board ≡ keys k.buffer 0 k.pos)
unfolding run tick phase_step
late_key k s room key =
    let count : k.pos + 1 - 1 ≡ k.pos = omega arith in
    rw (handler-put_key k s, put_key_room (acknowledged k) (key_of s) key room)
      (
        refl,
        rw count
            (keys-same k.buffer (store k.buffer k.pos (key_of s)) 0 k.pos (λ j _ l. ground arith)),
      )

-- A key that comes between the end of the loop and `key_buffer_pos--`, while at least one and fewer
-- than 255 keys are in use, is lost, and the last key of the buffer stays behind a second time.
pub late_key_lost :
    (k : Keyboard) (s : ℕ)
    → 0 < k.pos
    → k.pos < 255
    → key_of s ≢ 0
    → let r = run (start k) (replicate k.pos step ++ interrupt s ∷ step ∷ []) in
      (r.phase ≡ returned)
      × (contents r.board ≡ keys k.buffer 1 (k.pos - 1) ++ k.buffer (k.pos - 1) ∷ [])
unfolding start
late_key_lost k s held room key =
    let n = k.pos - 1 in
    let b = shift k.buffer 0 n in
    let steps : k.pos ≡ suc n = omega arith in
    let moved = keys_shifted k.buffer b 0 n (λ j _ l. ground (arith, shift-keys k.buffer 0 n j)) in
    let last : b n ≡ k.buffer n = ground (arith, shift-keys k.buffer 0 n n) in
    let (end, left) = late_key (record k { buffer = b }) s room key in
    let late = interrupt s ∷ step ∷ [] in
    let at_leave =
      ap (λ m. run (start k) (replicate m step ++ late)) steps
      ∙ steps_leave n 0 k late (omega arith) in
    let stale =
      ap (keys b 0) steps ∙ keys-suc b 0 n n (omega arith) ∙ ap₂ (λ q c. q ++ c ∷ []) moved last in
    rw at_leave (end, left ∙ stale)
