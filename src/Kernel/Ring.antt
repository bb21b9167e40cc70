-- ===== src/Kernel/Ring.antt =====
-- The queue of tasks of kernel/kernel.c is circular.
use mathlib.Core.Path.{subst}
use basedos.Prelude.{
  ℕ, ◌+◌, ◌-◌, ◌%◌, ◌^◌, ◌≤◌, ◌<◌, ◌≡◌, ◌≢◌, refl, sym, ◌∙◌, inl, inr, arith, ◌==◌, true, false,
  List, [], ◌∷◌,
}
use basedos.Memory.{null}
use basedos.Heap.{Heap, IsValid, kmalloc, heap_size}
use basedos.Heap.Alloc.{Grows, kmalloc-Fits, kmalloc_lem}
use basedos.Kernel.{Task, Kernel, task_size, init_scheduler, enqueue, add_task, create_task}

-- from the task at `a` the `next` fields lead through `xs` to `z`
abbrev pub Route : (ℕ → Task) → ℕ → List ℕ → ℕ → Type 0
Route tasks a [] z = (tasks a).next ≡ z
Route tasks a (x ∷ xs) z = ((tasks a).next ≡ x) × Route tasks x xs z

-- `x` is the address of a task below `top`, and not the head `queue` of the queue.
abbrev pub IsOther : ℕ → ℕ → ℕ → Type 0
IsOther top queue x = (x ≢ null) × (x < top) × (x ≢ queue)

abbrev pub AllOthers : ℕ → ℕ → List ℕ → Type 0
AllOthers top queue [] = Unit {0}
AllOthers top queue (x ∷ xs) = IsOther top queue x × AllOthers top queue xs

-- The scheduler runs, and from the head of the queue the other tasks, in the order of `xs`, lead back
-- to it.
pub record IsRing (k : Kernel) (xs : List ℕ) : Type 0 where
  pub active : k.scheduler_active ≡ true
  pub heap : IsValid k.heap
  pub head : (k.task_queue ≢ null) × (k.task_queue < k.heap.base + k.heap.pos)
  pub others : AllOthers (k.heap.base + k.heap.pos) k.task_queue xs
  pub route : Route k.tasks k.task_queue xs k.task_queue

AllOthers-le :
    (lo hi queue : ℕ) (xs : List ℕ) → lo ≤ hi → AllOthers lo queue xs → AllOthers hi queue xs
AllOthers-le lo hi queue [] h o = tt
AllOthers-le lo hi queue (x ∷ xs) h o =
    ((o.0.0, omega arith, o.0.2), AllOthers-le lo hi queue xs h o.1)

-- A route depends on the `next` fields of the tasks on it.
Route-same :
    (t t' : ℕ → Task) (a z top queue : ℕ) (xs : List ℕ)
    → Route t a xs z
    → (t' a).next ≡ (t a).next
    → AllOthers top queue xs
    → ((x : ℕ) → IsOther top queue x → (t' x).next ≡ (t x).next)
    → Route t' a xs z
Route-same t t' a z top queue [] r e o same = e ∙ r
Route-same t t' a z top queue (x ∷ xs) r e o same =
    (e ∙ r.0, Route-same t t' x z top queue xs r.1 (same x o.0) o.1 same)

-- The new task stands behind the head of the queue.
enqueue-Route :
    (k : Kernel) (p top : ℕ) (new_task : Task) (xs : List ℕ)
    → k.task_queue ≢ null
    → k.task_queue < top
    → top ≤ p
    → AllOthers top k.task_queue xs
    → Route k.tasks k.task_queue xs k.task_queue
    → Route (enqueue k p new_task).tasks k.task_queue (p ∷ xs) k.task_queue
unfolding enqueue
enqueue-Route k p top new_task [] n low high o r = ground arith
enqueue-Route k p top new_task (x ∷ xs) n low high o r =
    let t' = (enqueue k p new_task).tasks in
    let kept : Route t' x xs k.task_queue =
      Route-same k.tasks t' x k.task_queue top k.task_queue xs r.1 (ground arith) o.1
        (λ y other. ground arith) in
    (ground arith, (ground arith, kept))

kmalloc-Grows :
    (h : Heap) (size : ℕ)
    → IsValid h
    → size < 0x1_0000_0000 - heap_size
    → Grows h (kmalloc h size).1
kmalloc-Grows h size v small = elim (kmalloc_lem h size v (omega arith)) [
  | inl (fits, granted) ↦ granted.grows
  | inr (full, e) ↦ rw e (record { valid = v; base = refl; up = omega arith })
]

-- Where the queue has a head, only the tasks change.
enqueue_rest :
    (k : Kernel) (p : ℕ) (new_task : Task)
    → k.task_queue ≢ null
    → enqueue k p new_task ≡ record k { tasks = (enqueue k p new_task).tasks }
unfolding enqueue
enqueue_rest k p new_task n = ground arith

-- create_task's task stands at `p` with its number, ready to run; the next number is counted, and the
-- other tasks keep their numbers.
pub record IsCreated (k : Kernel) (p : ℕ) (k' : Kernel) : Type 0 where
  pub id : (k'.tasks p).id ≡ k.next_task_id
  pub state : (k'.tasks p).state ≡ 1
  pub counted : k'.next_task_id ≡ (k.next_task_id + 1) % 2 ^ 32
  pub others : (q : ℕ) → q ≢ p → (k'.tasks q).id ≡ (k.tasks q).id

enqueue-IsCreated :
    (k : Kernel) (p : ℕ) (new_task : Task) (h : Heap)
    → k.task_queue ≢ null
    → p ≢ k.task_queue
    → new_task.id ≡ k.next_task_id
    → new_task.state ≡ 1
    → IsCreated k p
        (enqueue (record k { heap = h; next_task_id = (k.next_task_id + 1) % 2 ^ 32 }) p new_task)
unfolding enqueue
enqueue-IsCreated k p new_task h n other id ready = record {
  id = ground arith;
  state = ground arith;
  counted = ground arith;
  others = λ q ne. ground arith;
}

IsRing-enqueue :
    (k : Kernel) (p : ℕ) (new_task : Task) (xs : List ℕ) (h : Heap)
    → IsRing k xs
    → p ≡ k.heap.base + k.heap.pos
    → p ≢ null
    → Grows k.heap h
    → p < h.base + h.pos
    → IsRing
        (enqueue (record k { heap = h; next_task_id = (k.next_task_id + 1) % 2 ^ 32 }) p new_task)
        (p ∷ xs)
IsRing-enqueue k p new_task xs h ring at n up inside =
    let counted : Kernel = record k { heap = h; next_task_id = (k.next_task_id + 1) % 2 ^ 32 } in
    let top = k.heap.base + k.heap.pos in
    rw (enqueue_rest counted p new_task ring.head.0) (record {
      active = ring.active;
      heap = up.valid;
      head = (ring.head.0, omega arith);
      others = (
        (n, inside, omega arith),
        AllOthers-le top (h.base + h.pos) k.task_queue xs (omega arith) ring.others,
      );
      route =
          enqueue-Route counted p top new_task xs ring.head.0 ring.head.1 (omega arith) ring.others
            ring.route;
    })

IsRing-add_task :
    (k : Kernel) (p : ℕ) (xs : List ℕ) (h : Heap)
    → IsRing k xs
    → p ≡ k.heap.base + k.heap.pos
    → p ≢ null
    → Grows k.heap h
    → p < h.base + h.pos
    → let (r, k') = add_task k p h in (r ≡ k.next_task_id) × IsRing k' (p ∷ xs) × IsCreated k p k'
unfolding add_task
IsRing-add_task k p xs h ring at n up inside =
    let stack = kmalloc-Grows h 4096 up.valid (omega arith) in
    let top = ((kmalloc h 4096).0 + 4096) % 2 ^ 32 in
    let new_task = record (k.tasks p) { id = k.next_task_id; state = 1; esp = top; ebp = top } in
    let more : Grows k.heap (kmalloc h 4096).1 = record {
      valid = stack.valid;
      base = stack.base ∙ up.base;
      up = omega arith;
    } in
    (
      refl,
      IsRing-enqueue k p new_task xs (kmalloc h 4096).1 ring at n more (omega arith),
      enqueue-IsCreated k p new_task (kmalloc h 4096).1 ring.head.0 (omega (arith, ring.head.1))
          refl refl,
    )

-- create_task, with a scheduler that runs and while there is memory for a task, makes a task at the
-- address that kmalloc gives it. It returns the next number, which the new task has, and counts that
-- number up, in 32 bits; the task is ready to run, and the others keep their numbers. The queue stays
-- circular: the new task stands behind the head, and before the others in their order.
pub create_task-IsRing :
    (k : Kernel) (xs : List ℕ)
    → IsRing k xs
    → k.heap.pos + task_size ≤ heap_size
    → let (r, k') = create_task k in
      let p = (kmalloc k.heap task_size).0 in
      (r ≡ k.next_task_id) × IsRing k' (p ∷ xs) × IsCreated k p k'
unfolding create_task
create_task-IsRing k xs ring fits =
    let (p, h) = kmalloc k.heap task_size in
    let granted = kmalloc-Fits k.heap task_size ring.heap fits in
    let run : create_task k ≡ add_task k p h = ground arith in
    subst (λ r. (r.0 ≡ k.next_task_id) × IsRing r.1 (p ∷ xs) × IsCreated k p r.1) (sym run)
      (IsRing-add_task k p xs h ring granted.start granted.not_null granted.grows (omega arith))

-- init_scheduler, while there is memory for a task, starts the scheduler with a circular queue of one
-- task, the current one.
pub init_scheduler-IsRing :
    (k : Kernel)
    → IsValid k.heap
    → k.heap.pos + task_size ≤ heap_size
    → let k' = init_scheduler k in
      IsRing k' []
      × (k'.current_task ≡ k'.task_queue)
      × ((k'.tasks k'.task_queue).id ≡ k.next_task_id)
unfolding init_scheduler
init_scheduler-IsRing k v fits =
    let (p, h) = kmalloc k.heap task_size in
    let granted = kmalloc-Fits k.heap task_size v fits in
    let made : (p == null) ≡ false = ground arith in
    rw made (
      record {
        active = refl;
        heap = granted.grows.valid;
        head = (granted.not_null, omega arith);
        others = tt;
        route = ground arith;
      },
      refl,
      ground arith,
    )
