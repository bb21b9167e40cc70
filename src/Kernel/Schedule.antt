-- ===== src/Kernel/Schedule.antt =====
-- The order in which the timer of kernel/kernel.c runs the tasks.
use mathlib.Core.Path.{subst}
use basedos.Prelude.{
  ℕ, zero, suc, ◌+◌, ◌≡◌, ◌≢◌, ◌∙◌, sym, ap, arith, true, List, [], ◌∷◌, ◌++◌, length,
}
use basedos.Memory.{null}
use basedos.Kernel.{Task, Kernel, count_tick, switch_task, timer_callback}
use basedos.Kernel.Ring.{Route, AllOthers, IsRing}

-- the tasks that run after each of the next ticks
pub currents : ℕ → Kernel → List ℕ
currents zero k = []
currents (suc n) k = let k' = timer_callback k in k'.current_task ∷ currents n k'

-- A tick with a task to switch to switches to it, and changes no `next` field.
timer_lem :
    (k : Kernel)
    → k.scheduler_active ≡ true
    → k.current_task ≢ null
    → (k.tasks k.current_task).next ≢ null
    → let k' = timer_callback k in
      (k'.scheduler_active ≡ true)
      × (k'.current_task ≡ (k.tasks k.current_task).next)
      × ((q : ℕ) → (k'.tasks q).next ≡ (k.tasks q).next)
unfolding timer_callback count_tick switch_task
timer_lem k active some_task some_next = ground arith

Route-next :
    (t t' : ℕ → Task) (a z : ℕ) (xs : List ℕ)
    → Route t a xs z
    → ((q : ℕ) → (t' q).next ≡ (t q).next)
    → Route t' a xs z
Route-next t t' a z [] r same = same a ∙ r
Route-next t t' a z (x ∷ xs) r same = (same a ∙ r.0, Route-next t t' x z xs r.1 same)

-- From the task that runs, the timer runs those along a route in their order.
currents-Route :
    (k : Kernel) (xs : List ℕ) (z top queue : ℕ)
    → k.scheduler_active ≡ true
    → k.current_task ≢ null
    → z ≢ null
    → AllOthers top queue xs
    → Route k.tasks k.current_task xs z
    → currents (suc (length xs)) k ≡ xs ++ z ∷ []
unfolding currents
currents-Route k [] z top queue active n m o r =
    let (act, at, same) = timer_lem k active n (λ e. m (sym r ∙ e)) in ap (λ c. c ∷ []) (at ∙ r)
currents-Route k (x ∷ xs) z top queue active n m o r =
    let k' = timer_callback k in
    let (act, at, same) = timer_lem k active n (λ e. o.0.0 (sym r.0 ∙ e)) in
    let now : k'.current_task ≡ x = at ∙ r.0 in
    let left =
      subst (λ c. Route k'.tasks c xs z) (sym now) (Route-next k.tasks k'.tasks x z xs r.1 same) in
    ap (λ c. c ∷ currents (suc (length xs)) k') now
    ∙ ap (λ cs. x ∷ cs) (currents-Route k' xs z top queue act (λ e. o.0.0 (sym now ∙ e)) m o.1 left)

-- While the head of a circular queue runs, the next ticks of the timer run each of the other tasks
-- once, in the order of the queue, and then the head again.
pub timer_round :
    (k : Kernel) (xs : List ℕ)
    → IsRing k xs
    → k.current_task ≡ k.task_queue
    → currents (suc (length xs)) k ≡ xs ++ k.task_queue ∷ []
timer_round k xs ring e =
    let from = subst (λ a. Route k.tasks a xs k.task_queue) (sym e) ring.route in
    currents-Route k xs k.task_queue (k.heap.base + k.heap.pos) k.task_queue ring.active
      (λ z. ring.head.0 (sym e ∙ z)) ring.head.0 ring.others from
