-- ===== src/Interrupts/Table.antt =====
-- What the setup of the interrupts leaves: the handlers in the table, and the controllers' masks.
use basedos.Prelude.{
  ℕ, ◌+◌, ◌*◌, ◌/◌, ◌%◌, ◌^◌, ◌<◌, ◌≡◌, ◌≢◌, refl, arith, ◌==◌, if◌then◌else◌, List, [], ◌∷◌,
  Option, none, some,
}
use basedos.Interrupts.{IdtEntry, Interrupts, register_interrupt_handler, init_enhanced_interrupts}

-- the address that the processor takes from an entry
abbrev pub handler_of : IdtEntry → ℕ
handler_of e = e.base_lo + 2 ^ 16 * e.base_hi

-- the byte last sent to a port
unfoldable pub last_sent : ℕ → List (ℕ × ℕ) → Option ℕ
last_sent port [] = none
last_sent port ((p, b) ∷ out) = if p == port then some b else last_sent port out

-- An entry registered for an interrupt holds the handler's 32-bit address, and the other entries stay
-- as they are.
pub register_interrupt_handler_lem :
    (s : Interrupts) (n handler : ℕ)
    → handler < 2 ^ 32
    → let s' = register_interrupt_handler s n handler in
      (handler_of (s'.idt n) ≡ handler) × ((k : ℕ) → k ≢ n → s'.idt k ≡ s.idt k)
unfolding register_interrupt_handler
register_interrupt_handler_lem s n handler h = (ground arith, λ k ne. ground arith)

-- After the setup of kernel.c the handlers of the timer and of the keyboard are in the table, but the
-- mask of the master controller, 0xFD, lets the keyboard through and not the timer: bit 0 is set, bit
-- 1 is not.
pub timer_masked :
    (keyboard_handler timer_callback idt_addr : ℕ) (s : Interrupts)
    → keyboard_handler < 2 ^ 32
    → timer_callback < 2 ^ 32
    → let s' = init_enhanced_interrupts keyboard_handler timer_callback idt_addr s in
      (handler_of (s'.idt 0x20) ≡ timer_callback)
      × (handler_of (s'.idt 0x21) ≡ keyboard_handler)
      × ((mask : ℕ) × (last_sent 0x21 s'.out ≡ some mask) × (mask % 2 ≡ 1) × (mask / 2 % 2 ≡ 0))
unfolding init_enhanced_interrupts last_sent
timer_masked keyboard_handler timer_callback idt_addr s k t =
    (omega arith, omega arith, (0xFD, refl, refl, refl))
