-- ===== src/Kernel.antt =====
-- The tasks and the timer of kernel/kernel.c.
pub mod Ring
pub mod Schedule
pub mod Status
pub mod SystemInfo
use basedos.Prelude.{ℕ, ◌+◌, ◌%◌, ◌^◌, leb, ◌==◌, if◌then◌else◌, not, ◌&&◌, Bool, true, false}
use basedos.Memory.{null}
use basedos.Heap.{Heap, kmalloc}

-- task_t; `next` is the address of a task
pub record Task : Type 0 where
  pub id : ℕ
  pub esp : ℕ
  pub ebp : ℕ
  pub state : ℕ
  pub next : ℕ

-- The variables of kernel.c, kernel_status among them, with the counter of timer_callback, the tasks by
-- their address, the heap, and the two registers of the processor that a switch loads.
pub record Kernel : Type 0 where
  pub interrupts_enabled : Bool
  pub scheduler_active : Bool
  pub memory_manager_ready : Bool
  pub uptime_seconds : ℕ
  pub total_memory : ℕ
  pub free_memory : ℕ
  pub current_task : ℕ
  pub task_queue : ℕ
  pub next_task_id : ℕ
  pub ticks : ℕ
  pub tasks : ℕ → Task
  pub heap : Heap
  pub esp : ℕ
  pub ebp : ℕ

-- `*p = v` for a task
abbrev pub store_task : (ℕ → Task) → ℕ → Task → ℕ → Task
store_task tasks p v q = if p == q then v else tasks q

-- sizeof(task_t)
abbrev pub task_size : ℕ
task_size = 20

-- the count of ticks and of seconds
unfoldable pub count_tick : Kernel → Kernel
count_tick k =
    let ticks = (k.ticks + 1) % 2 ^ 32 in
    if leb 100 ticks
    then record k { ticks = 0; uptime_seconds = (k.uptime_seconds + 1) % 2 ^ 32 }
    else record k { ticks = ticks }

-- the switch to the next task: the registers are saved in the one and loaded from the other
unfoldable pub switch_task : Kernel → Kernel
switch_task k =
    let saved =
      store_task k.tasks k.current_task
        (record (k.tasks k.current_task) { esp = k.esp; ebp = k.ebp }) in
    let next = (saved k.current_task).next in
    record k { tasks = saved; current_task = next; esp = (saved next).esp; ebp = (saved next).ebp }

unfoldable pub timer_callback : Kernel → Kernel
timer_callback k =
    let k' = count_tick k in
    if k'.scheduler_active
      && (not (k'.current_task == null) && not ((k'.tasks k'.current_task).next == null))
    then switch_task k'
    else k'

-- yield: the software interrupt 0x20 runs the handler of the timer
unfoldable pub yield : Kernel → Kernel
unfolding timer_callback
yield k = if k.scheduler_active then timer_callback k else k

unfoldable pub init_scheduler : Kernel → Kernel
init_scheduler k =
    let (p, h) = kmalloc k.heap task_size in
    let first = record (k.tasks p) { id = k.next_task_id; state = 0; next = p } in
    if p == null then record k { heap = h; current_task = p } else record k {
      heap = h;
      current_task = p;
      next_task_id = (k.next_task_id + 1) % 2 ^ 32;
      tasks = store_task k.tasks p first;
      task_queue = p;
      scheduler_active = true;
    }

-- the new task joined to the queue
unfoldable pub enqueue : Kernel → ℕ → Task → Kernel
enqueue k p new_task =
    if k.task_queue == null
    then record k { tasks = store_task k.tasks p (record new_task { next = p }); task_queue = p }
    else let joined =
        store_task k.tasks p (record new_task { next = (k.tasks k.task_queue).next }) in
      record k {
        tasks = store_task joined k.task_queue (record (joined k.task_queue) { next = p });
      }

-- create_task once it has the address `p` of the new task; the result of its second kmalloc is not
-- checked
unfoldable pub add_task : Kernel → ℕ → Heap → ℕ × Kernel
add_task k p h =
    let (stack, h') = kmalloc h 4096 in
    let top = (stack + 4096) % 2 ^ 32 in
    let new_task = record (k.tasks p) { id = k.next_task_id; state = 1; esp = top; ebp = top } in
    let counted = record k { heap = h'; next_task_id = (k.next_task_id + 1) % 2 ^ 32 } in
    (k.next_task_id, enqueue counted p new_task)

-- create_task: the number of the task, or 0
unfoldable pub create_task : Kernel → ℕ × Kernel
create_task k =
    let (p, h) = kmalloc k.heap task_size in
    if not k.scheduler_active
    then (0, k)
    else if p == null
    then (0, record k { heap = h })
    else add_task k p h
