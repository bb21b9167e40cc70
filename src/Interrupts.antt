-- ===== src/Interrupts.antt =====
-- The interrupt table of kernel/interrupts.c, and the setup of kernel/kernel.c on top of it. The bytes
-- sent to I/O ports are a list, the last one first; a handler is its address.
pub mod Table
use basedos.Prelude.{ℕ, ◌+◌, ◌-◌, ◌*◌, ◌/◌, ◌%◌, ◌^◌, ◌==◌, if◌then◌else◌, List, [], ◌∷◌, ◌++◌}

-- struct idt_entry
pub record IdtEntry : Type 0 where
  pub base_lo : ℕ
  pub sel : ℕ
  pub always0 : ℕ
  pub flags : ℕ
  pub base_hi : ℕ

-- struct idt_ptr
pub record IdtPtr : Type 0 where
  pub limit : ℕ
  pub base : ℕ

-- idt, idtp, what was sent to the ports, and the descriptor that `lidt` loaded
pub record Interrupts : Type 0 where
  pub idt : ℕ → IdtEntry
  pub idtp : IdtPtr
  pub out : List (ℕ × ℕ)
  pub loaded : IdtPtr

-- the entry of a handler
abbrev pub entry : ℕ → IdtEntry
entry handler_addr = record {
  base_lo = handler_addr % 2 ^ 16;
  sel = 0x08;
  always0 = 0;
  flags = 0x8E;
  base_hi = handler_addr / 2 ^ 16 % 2 ^ 16;
}

unfoldable pub register_interrupt_handler : Interrupts → ℕ → ℕ → Interrupts
register_interrupt_handler s n handler = record s {
  idt = λ k. if n == k then entry handler else s.idt k;
}

-- the bytes that set up the two interrupt controllers, the last one first
abbrev pic_setup : List (ℕ × ℕ)
pic_setup =
    (0xA1, 0xFF)
    ∷ (0x21, 0xFD)
    ∷ (0xA1, 0x01)
    ∷ (0x21, 0x01)
    ∷ (0xA1, 0x02)
    ∷ (0x21, 0x04)
    ∷ (0xA1, 0x28)
    ∷ (0x21, 0x20)
    ∷ (0xA0, 0x11)
    ∷ (0x20, 0x11)
    ∷ []

-- init_interrupts, for the address of keyboard_handler and of the table
unfoldable pub init_interrupts : ℕ → ℕ → Interrupts → Interrupts
init_interrupts keyboard_handler idt_addr s =
    let idtp : IdtPtr = record { limit = 256 * 8 - 1; base = idt_addr } in
    record {
      idt = λ k. if 0x21 == k then entry keyboard_handler else s.idt k;
      idtp = idtp;
      out = pic_setup ++ s.out;
      loaded = idtp;
    }

-- init_enhanced_interrupts of kernel/kernel.c, for the address of timer_callback too, up to its last
-- line, which sets interrupts_enabled in kernel_status: the handler of the timer, and its rate
unfoldable pub init_enhanced_interrupts : ℕ → ℕ → ℕ → Interrupts → Interrupts
unfolding init_interrupts register_interrupt_handler
init_enhanced_interrupts keyboard_handler timer_callback idt_addr s =
    let s' =
      register_interrupt_handler (init_interrupts keyboard_handler idt_addr s) 0x20
        timer_callback in
    let divisor = 1193180 / 100 in
    record s' {
      out = (0x40, divisor / 2 ^ 8 % 2 ^ 8) ∷ (0x40, divisor % 2 ^ 8) ∷ (0x43, 0x36) ∷ s'.out;
    }
