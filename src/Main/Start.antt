-- ===== src/Main/Start.antt =====
-- What kmain of kernel/kernel.c has set up when it calls start_shell.
use basedos.Prelude.{ℕ, ◌+◌, ◌≤◌, ◌<◌, ◌≡◌, refl, ap, arith, [], ◌∷◌, some, true}
use basedos.Prelude.Text.{codes}
use mathlib.Core.Option
use basedos.Heap.{Heap, heap_size, kmalloc, detect_memory}
use basedos.Fs.Start.{start_files_lem}
use basedos.Interrupts.{init_enhanced_interrupts}
use basedos.Kernel.{Kernel, init_scheduler}
use basedos.Kernel.Status.{init_memory_manager}
use basedos.Terminal.{terminal_initialize}
use basedos.Shell.{Shell, print, print_all}
use basedos.Shell.System.{on_shell}
use basedos.Shell.Valid.Returns.{IsStarted}
use basedos.Main.{Machine, report_mount, start_interrupts, start_kernel, boot}
use basedos.Main.FsTest.Laws.{say-render, fs_test_lem}
use basedos.Terminal.Print.Render.{render, unsigned_fit}

-- the screen that start_shell finds
abbrev greeting : Shell → Shell
greeting = print_all (
    codes "BasedOS Kernel v0.1\n"
    ∷ codes "=== Starting File System Test ===\n"
    ∷ codes "Mounted memory filesystem at /\n"
    ∷ codes "Creating test file...\n"
    ∷ codes "Failed to create test file\n"
    ∷ [])

abbrev pub greeted : Shell → Shell
greeted s = greeting (record s { term = terminal_initialize s.term })

-- the status of the subsystems, as is_subsystem_ready and the shell see it
pub record IsUp (k : Kernel) : Type 0 where
  pub interrupts : k.interrupts_enabled ≡ true
  pub scheduler : k.scheduler_active ≡ true
  pub memory : k.memory_manager_ready ≡ true
  pub size : k.total_memory ≡ 0x400_0000

module _ (n keyboard_handler timer_callback idt_addr test_data test_buffer fuel : ℕ) where
  start_kernel_lem :
      (m : Machine n)
      → 0 < m.system.vfs.state.heap.base
      → m.system.vfs.state.heap.pos + 20 ≤ heap_size
      → let m' =
          start_kernel n keyboard_handler timer_callback idt_addr test_data test_buffer fuel m in
        IsUp m'.system.kernel
        × (m'.system.vfs.state.heap.base ≡ m.system.vfs.state.heap.base)
        × (m'.system.vfs.state.heap.pos ≡ m.system.vfs.state.heap.pos + 20)
        × (m'.system.shell
            ≡ record m.system.shell { term = terminal_initialize m.system.shell.term })
        × (m'.interrupts
            ≡ init_enhanced_interrupts keyboard_handler timer_callback idt_addr m.interrupts)
        × (m'.interrupt_flag ≡ m.interrupt_flag)
  unfolding start_kernel init_scheduler init_memory_manager start_interrupts detect_memory kmalloc
  start_kernel_lem m placed room = (
    record {
      interrupts = ground arith;
      scheduler = ground arith;
      memory = ground arith;
      size = ground arith;
    },
    ground arith,
    ground arith,
    refl,
    refl,
    refl,
  )

  -- While 5164 bytes of the heap, which is not at NULL, are free, kmain comes to start_shell without a fault. The flags of the
  -- subsystems are set and the size of the memory is known; the root is the bare one, and the table
  -- of descriptors whole; the screen, once cleared, shows the greeting and the four lines of fs_test. The
  -- interrupt table and its controllers are those of init_enhanced_interrupts, and the interrupt flag
  -- of the processor is as it was: nothing has set it.
  pub boot_lem :
      (m : Machine n)
      → 0 < m.system.vfs.state.heap.base
      → m.system.vfs.state.heap.pos + 5164 ≤ heap_size
      → (m' : Machine n) × (boot n keyboard_handler timer_callback idt_addr test_data test_buffer
            fuel m
          ≡ some m')
        × IsStarted n m'.system
        × IsUp m'.system.kernel
        × (m'.system.shell ≡ greeted m.system.shell)
        × (m'.interrupts
            ≡ init_enhanced_interrupts keyboard_handler timer_callback idt_addr m.interrupts)
        × (m'.interrupt_flag ≡ m.interrupt_flag)
  unfolding boot report_mount render print_all unsigned_fit Option.bind
  boot_lem m placed room =
      let m1 =
        start_kernel n keyboard_handler timer_callback idt_addr test_data test_buffer fuel m in
      let (up, base, used, shell, table_set, flag) = start_kernel_lem m placed (omega arith) in
      let (v1, started, root, table, heap) =
        start_files_lem n m1.system.vfs (omega arith) (omega arith) in
      let same_base = ap (λ (h : Heap). h.base) heap in
      let later = ap (λ (h : Heap). h.pos) heap in
      let said =
        say-render n (codes "BasedOS Kernel v0.1\n") (codes "BasedOS Kernel v0.1\n") []
          (record m1.system { vfs = v1 }) refl refl in
      let (v2, tested, bare, whole, left) =
        fs_test_lem n fuel test_data test_buffer
          (on_shell n (print (codes "BasedOS Kernel v0.1\n")) (record m1.system { vfs = v1 }))
          (omega arith) (omega arith) in
      rw (started, said, tested)
        (
          _,
          refl,
          record { bare = bare; table = whole; memory = rw (up.size) refl },
          up,
          ap greeting shell,
          table_set,
          flag,
        )
