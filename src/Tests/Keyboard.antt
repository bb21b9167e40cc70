-- ===== src/Tests/Keyboard.antt =====
-- The keyboard of kernel/interrupts.c at concrete inputs.
use mathlib.Core.Path.{refl}
use basedos.Prelude.{◌≡◌, arith, List, [], ◌∷◌, ◌++◌, none, some, get_or, replicate}
use basedos.Keyboard.{Keyboard, ascii_of, put_key, keyboard_handler_internal}
use basedos.Keyboard.Queue.{
  Event, interrupt, getchar, run_queue, keys, contents, push, key_of, run_refines,
}
use basedos.Keyboard.Queue
use basedos.Keyboard.Race
use basedos.Keyboard.Race.{Tick, step, start, returned, arrive_all, getchar_interrupted}
use basedos.Keyboard.Race.Lost.{late_key_lost}

-- "ls" in the buffer
abbrev typed : Keyboard
typed = record { buffer = λ i. get_or (b'l' ∷ b's' ∷ []) i 0; pos = 2; out = [] }

-- the keys `a` and `b`, the release of `b`, and four reads
abbrev events : List Event
events =
    interrupt 0x1E
    ∷ getchar
    ∷ interrupt 0x30
    ∷ interrupt 0xB0
    ∷ getchar
    ∷ getchar
    ∷ getchar
    ∷ getchar
    ∷ []

run_refines_example : Queue.run typed events ≡ run_queue (contents typed) events
run_refines_example = run_refines events typed

queue_runs :
    run_queue (b'l' ∷ b's' ∷ []) events
    ≡ none ∷ some b'l' ∷ none ∷ none ∷ some b's' ∷ some b'a' ∷ some b'b' ∷ none ∷ []
unfolding run_queue push ascii_of
queue_runs = refl

-- the key `a` comes before the loop's first test
abbrev ticks : List Tick
ticks = Tick.interrupt 0x1E ∷ replicate 4 step

getchar_interrupted_example :
    contents (Race.run (start typed) ticks).board ≡ arrive_all (start typed) (b's' ∷ []) ticks
unfolding keys Race.run Race.tick Race.phase_step Race.loop_step start keyboard_handler_internal
    put_key ascii_of
getchar_interrupted_example =
    getchar_interrupted typed b'l' (b's' ∷ []) ticks refl (tt, (tt, (tt, (tt, (tt, tt))))) refl

late_key_lost_example :
    let r = Race.run (start typed) (replicate 2 step ++ Tick.interrupt 0x1E ∷ step ∷ []) in
    (r.phase ≡ returned) × (contents r.board ≡ keys typed.buffer 1 1 ++ b's' ∷ [])
unfolding ascii_of
late_key_lost_example = late_key_lost typed 0x1E (omega arith) (omega arith) (omega arith)
