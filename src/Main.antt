-- ===== src/Main.antt =====
-- kmain of kernel/kernel.c: the parts in the order of their start, then the shell on the keys that it
-- reads; kernel_panic; and the interrupt flag of the processor, which kernel/interrupts.c sets.
pub mod Console
pub mod FsTest
pub mod Run
pub mod Start
use basedos.Prelude.{ℕ, zero, suc, List, [], ◌∷◌, Option, none, some, Bool, true, false}
use basedos.Prelude.Int.{ℤ, pos, negsuc}
use basedos.Prelude.Text.{codes}
use mathlib.Core.Option
use basedos.Fs.Start.{start_files}
use basedos.Interrupts.{Interrupts, init_enhanced_interrupts}
use basedos.Kernel.{Kernel, init_scheduler}
use basedos.Kernel.Status.{init_memory_manager}
use basedos.Sound.{Ports}
use basedos.Terminal.{terminal_initialize, terminal_setcolor}
use basedos.Shell.{Shell, print}
use basedos.Shell.Session.{Session, begin_shell, run_keys}
use basedos.Shell.System.{Outcome, done, returned, halted, System, on_shell, with_state}
use basedos.Main.FsTest.{say, fs_test}

module _ (n : ℕ) where
  -- The machine: what the commands of the shell work on, the interrupt table and the ports of its
  -- controllers, and the interrupt flag.
  pub record Machine : Type 0 where
    pub system : System n
    pub interrupts : Interrupts
    pub interrupt_flag : Bool

  abbrev pub on_system : (System n → System n) → Machine → Machine
  on_system f m = record m { system = f m.system }

  -- a function of kernel.c that may allocate, on the one heap
  abbrev pub with_kernel : (Kernel → Kernel) → System n → System n
  with_kernel f sys =
      let k = f (record sys.kernel { heap = sys.vfs.state.heap }) in
      with_state n (record sys.vfs.state { heap = k.heap }) (record sys { kernel = k })

  unfoldable pub enable_interrupts : Machine → Machine
  enable_interrupts m = record m { interrupt_flag = true }

  unfoldable pub disable_interrupts : Machine → Machine
  disable_interrupts m = record m { interrupt_flag = false }

  -- kernel_panic, up to the loop in which it halts
  unfoldable pub kernel_panic : List ℕ → Machine → Machine
  unfolding disable_interrupts
  kernel_panic message m =
      on_system
        (on_shell n (λ s. print (codes "\nSystem halted.\n") (
          print message (
            print (codes "\n*** KERNEL PANIC ***\n")
              (record s { term = terminal_setcolor 15 4 s.term })))))
        (disable_interrupts m)

  -- the message of kmain on the result of vfs_mount
  unfoldable pub report_mount : ℤ → System n → Option (System n)
  report_mount (pos zero) sys = some sys
  report_mount (pos (suc k)) sys = say n (codes "Failed to mount root filesystem!\n") [] sys
  report_mount (negsuc k) sys = say n (codes "Failed to mount root filesystem!\n") [] sys

  -- what comes behind start_shell: the loop of `hlt`
  abbrev pub halt : {A : Type 0} → Outcome A → Outcome A
  halt (done r) = done r
  halt (returned r) = halted r
  halt (halted r) = halted r

  -- The addresses of the two handlers and of the interrupt table, and those of the text and of the
  -- buffer of fs_test; `fuel` bounds the entries of `/`.
  module _ (keyboard_handler timer_callback idt_addr test_data test_buffer fuel : ℕ) where
    -- init_enhanced_interrupts, with its last line
    unfoldable pub start_interrupts : Machine → Machine
    start_interrupts m = record m {
      interrupts = init_enhanced_interrupts keyboard_handler timer_callback idt_addr m.interrupts;
      system = with_kernel (λ k. record k { interrupts_enabled = true }) m.system;
    }

    -- kmain up to vfs_initialize
    unfoldable pub start_kernel : Machine → Machine
    unfolding init_memory_manager init_scheduler start_interrupts
    start_kernel m = on_system (with_kernel init_scheduler) (
        start_interrupts (
          on_system (with_kernel init_memory_manager)
            (on_system (on_shell n (λ s. record s { term = terminal_initialize s.term })) m)))

    -- kmain up to start_shell; `none` is a fault
    unfoldable pub boot : Machine → Option Machine
    unfolding report_mount Option.bind
    boot m =
        let m' = start_kernel m in
        Option.bind (start_files n m'.system.vfs) (λ r.
          Option.bind (report_mount r.0 (record m'.system { vfs = r.1 })) (λ sys.
            Option.bind (say n (codes "BasedOS Kernel v0.1\n") [] sys) (λ sys.
              Option.map (λ sys. record m' { system = sys })
                (fs_test n fuel test_data test_buffer sys))))

    -- kmain on the keys that are read, for the address of the buffer of cat and write
    unfoldable pub kmain : (Ports → ℕ → ℕ) → ℕ → List ℕ → Machine → Option (Outcome (Session n))
    unfolding boot begin_shell run_keys Option.bind
    kmain inb buffer keys m = Option.bind (boot m) (λ m'.
        Option.bind (begin_shell n m'.system)
          (λ r. Option.map halt (run_keys n inb fuel buffer keys (done r))))
