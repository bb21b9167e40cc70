-- ===== src/Main/Run.antt =====
-- kmain of kernel/kernel.c, from the start of the machine through any keys.
use basedos.Prelude.{Option, ℕ, suc, ◌+◌, ◌≤◌, ◌<◌, ◌≡◌, ◌⊎◌, refl, sym, List, some, inl, inr}
use mathlib.Core.Option
use mathlib.Core.Path.{subst}
use basedos.Heap.{heap_size}
use basedos.Sound.{Ports}
use basedos.Terminal.Cursor.{terminal_initialize-IsValid}
use basedos.Shell.{Shell}
use basedos.Shell.Session.{Session, begin_shell, run_keys}
use basedos.Shell.Session.Begin.{begin_shell-Returns}
use basedos.Shell.Session.Laws.{IsRunning}
use basedos.Shell.Session.Faults.{Fault, GoesOn, IsUnder, run_keys-GoesOn}
use basedos.Shell.System.{Outcome, returned, halted, done}
use basedos.Shell.Valid.{IsValid, on_term, print_all-IsValid}
use basedos.Shell.Valid.Commands.Files.{Has}
use basedos.Shell.Valid.Returns.{IsStarted}
use basedos.Main.{Machine, halt, boot, kmain}
use basedos.Main.Start.{greeted, boot_lem}

greeted-IsValid : (s : Shell) → IsValid s → IsValid (greeted s)
greeted-IsValid s v = print_all-IsValid _ _ (on_term s _ v (terminal_initialize-IsValid s.term))

module _ (n : ℕ) where
  -- how kmain ends: with a valid shell and the file system as it was started
  abbrev pub Ran : Option (Outcome (Session n)) → Type 0
  Ran called =
      (o : Outcome (Session n)) × (called ≡ some o)
      × Has (λ r. IsValid r.system.shell × IsStarted n r.system) o

module _ (n keyboard_handler timer_callback idt_addr test_data test_buffer fuel : ℕ)
    (inb : Ports → ℕ → ℕ) (buffer : ℕ) where
  halted_too :
      (o : Outcome (Session n))
      → IsRunning n inb (suc fuel) buffer o
      → IsUnder n inb fuel buffer o
      → Has (λ r. IsValid r.system.shell × IsStarted n r.system) (halt n o)
  halted_too (done r) v st = (v.shell, st)
  halted_too (returned r) v st = (v, st)
  halted_too (halted r) v st = (v, st)

  run_on :
      (keys : List ℕ) (m m' : Machine n) (r : Session n)
      → boot n keyboard_handler timer_callback idt_addr test_data test_buffer (suc fuel) m ≡ some m'
      → begin_shell n m'.system ≡ some r
      → GoesOn n inb fuel buffer (run_keys n inb (suc fuel) buffer keys (done r))
      → Ran n (
          kmain n keyboard_handler timer_callback idt_addr test_data test_buffer
            (suc fuel)
            inb
            buffer
            keys
            m)
  unfolding kmain Option.bind
  run_on keys m m' r booted begun (o, run, v, st) =
      rw (booted, begun, run) (_, refl, halted_too o v st)

  -- While 5164 bytes of the heap, which is not at NULL, are free and the variables of the shell are
  -- valid, kmain comes to the
  -- first prompt and handles any keys to the last, until the shell ends or the machine halts; the shell
  -- is valid then, the root bare and the table of descriptors whole. It
  -- faults at most where Enter is pressed on a line `alias name command` with a name of 32 bytes or more,
  -- or `calc a op b` with -2147483648 and -1. The fuel of ls and cat is at least 1.
  pub kmain_lem :
      (keys : List ℕ) (m : Machine n)
      → 0 < m.system.vfs.state.heap.base
      → m.system.vfs.state.heap.pos + 5164 ≤ heap_size
      → IsValid m.system.shell
      → (m' : Machine n) × (r : Session n) × (boot n keyboard_handler timer_callback idt_addr
            test_data test_buffer
            (suc fuel)
            m
          ≡ some m')
        × (begin_shell n m'.system ≡ some r)
        × (Ran n (
              kmain n keyboard_handler timer_callback idt_addr test_data test_buffer
                (suc fuel)
                inb
                buffer
                keys
                m)
            ⊎ Fault n inb fuel buffer keys r)
  kmain_lem keys m placed room v =
      let (m', booted, st, up, shell, handlers, flag) =
        boot_lem n keyboard_handler timer_callback idt_addr test_data test_buffer (suc fuel) m
          placed room in
      let valid = subst IsValid (sym shell) (greeted-IsValid m.system.shell v) in
      let (r, begun, w, started) = begin_shell-Returns n m'.system valid st in
      (
        m',
        r,
        booted,
        begun,
        elim (run_keys-GoesOn n inb fuel buffer keys r w started) [
          | inl g ↦ inl (run_on keys m m' r booted begun g)
          | inr f ↦ inr f
        ],
      )
