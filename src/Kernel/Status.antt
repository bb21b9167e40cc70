-- ===== src/Kernel/Status.antt =====
-- The status of the subsystems in kernel/kernel.c.
use basedos.Prelude.{ℕ, ◌+◌, ◌-◌, ◌%◌, ◌^◌, if◌then◌else◌, ◌==◌, Bool, true, false, List, Option}
use basedos.Prelude.Text.{codes}
use mathlib.Core.Option
use basedos.Heap.{detect_memory, kfree}
use basedos.Kernel.{Kernel}
use basedos.Memory.{null}
use basedos.Str.Text.{text_eq}
use basedos.Terminal.{Terminal, terminal_writestring}
use basedos.Terminal.Print.{terminal_write_hex, terminal_write_dec}

unfoldable pub init_memory_manager : Kernel → Kernel
unfolding detect_memory
init_memory_manager k =
    let (h, total) = detect_memory k.heap in
    record k {
      total_memory = total;
      free_memory = (total + 2 ^ 32 - 0x10_0000) % 2 ^ 32;
      memory_manager_ready = true;
      heap = h;
    }

unfoldable pub get_uptime : Kernel → ℕ
get_uptime k = k.uptime_seconds

unfoldable pub get_memory_stats : Kernel → ℕ × ℕ
get_memory_stats k = (k.total_memory, k.free_memory)

unfoldable pub is_subsystem_ready : Kernel → List ℕ → Bool
is_subsystem_ready k subsystem =
    if text_eq subsystem (codes "interrupts")
    then k.interrupts_enabled
    else if text_eq subsystem (codes "scheduler")
    then k.scheduler_active
    else if text_eq subsystem (codes "memory")
    then k.memory_manager_ready
    else false

-- show_system_info of kernel.c, which the shell does not call; `none` is a number too long for the
-- buffer of terminal_write_dec
unfoldable pub show_system_info : Kernel → Terminal → Option Terminal
show_system_info k t =
    let either = λ (b : Bool) (yes no : List ℕ). if b then yes else no in
    let say = λ (text : List ℕ) (t : Terminal). terminal_writestring t text in
    let sizes = say (codes " bytes free\n") (
      terminal_write_hex
        (say (codes " bytes total, ") (
          terminal_write_hex
            (say (codes "Memory: ")
              (say (codes "=======================\n") (say (codes "BasedOS Enhanced Kernel\n") t)))
            k.total_memory))
        k.free_memory) in
    Option.map
      (λ t. say (codes "\n\n") (
        say (either k.memory_manager_ready (codes "Ready") (codes "Not Ready")) (
          say (codes "\nMemory Manager: ") (
            say (either k.scheduler_active (codes "Active") (codes "Inactive")) (
              say (codes "\nScheduler: ") (
                say (either k.interrupts_enabled (codes "Enabled") (codes "Disabled"))
                  (say (codes "Interrupts: ") (say (codes " seconds\n") t))))))))
      (terminal_write_dec (say (codes "Uptime: ") sizes) k.uptime_seconds)

-- kernel_shutdown, up to the loop in which it halts; the interrupt flag, which it clears, is not in this
-- state (Main)
unfoldable pub kernel_shutdown : Kernel → Terminal → Kernel × Terminal
unfolding kfree
kernel_shutdown k t =
    let said = terminal_writestring t (codes "Shutting down BasedOS...\n") in
    let heap = if k.task_queue == null then k.heap else kfree k.heap k.task_queue in
    (
      record k { scheduler_active = false; heap = heap },
      terminal_writestring said (codes "System halted safely.\n"),
    )
