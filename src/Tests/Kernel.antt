-- ===== src/Tests/Kernel.antt =====
-- kernel/kernel.c at concrete inputs.
use mathlib.Core.Path.{refl}
use basedos.Prelude.{◌≡◌, arith, [], ◌∷◌, true, false}
use basedos.Heap.{Heap, kmalloc}
use basedos.Kernel.{Task, Kernel, store_task, task_size, create_task}
use basedos.Kernel.Ring.{IsRing, IsCreated, create_task-IsRing}
use basedos.Kernel.Schedule.{currents, timer_round}

abbrev blank : Task
blank = record { id = 0; esp = 0; ebp = 0; state = 0; next = 0 }

abbrev unused : Heap
unused = record { base = 0x20000; pos = 0; total = 0 }

abbrev pub started : Kernel
started = record {
  interrupts_enabled = true;
  scheduler_active = false;
  memory_manager_ready = true;
  uptime_seconds = 0;
  total_memory = 0x400_0000;
  free_memory = 0x3F0_0000;
  current_task = 0;
  task_queue = 0;
  next_task_id = 1;
  ticks = 99;
  tasks = λ _. blank;
  heap = unused;
  esp = 0x7000;
  ebp = 0x7010;
}

-- two tasks, at the start of the heap
abbrev two_tasks : Kernel
two_tasks = record started {
  scheduler_active = true;
  current_task = 0x20000;
  task_queue = 0x20000;
  next_task_id = 3;
  tasks =
      store_task (store_task (λ _. blank) 0x20000 (record blank { id = 1; next = 0x20014 })) 0x20014
        (record blank { id = 2; state = 1; next = 0x20000 });
  heap = record unused { pos = 4136 };
}

two_tasks-IsRing : IsRing two_tasks (0x20014 ∷ [])
two_tasks-IsRing = record {
  active = refl;
  heap = omega arith;
  head = (omega arith, omega arith);
  others = ((omega arith, omega arith, omega arith), tt);
  route = (refl, refl);
}

create_task-IsRing_example :
    let (r, k') = create_task two_tasks in
    let p = (kmalloc two_tasks.heap task_size).0 in
    (r ≡ 3) × IsRing k' (p ∷ 0x20014 ∷ []) × IsCreated two_tasks p k'
create_task-IsRing_example =
    create_task-IsRing two_tasks (0x20014 ∷ []) two_tasks-IsRing (omega arith)

timer_round_example : currents 2 two_tasks ≡ 0x20014 ∷ 0x20000 ∷ []
timer_round_example = timer_round two_tasks (0x20014 ∷ []) two_tasks-IsRing refl
