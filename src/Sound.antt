-- ===== src/Sound.antt =====
-- kernel/sound.c: the speaker. The bytes sent to I/O ports are a list of pairs of port and byte, the
-- last one first; `inb` answers a read of a port, given what was sent so far.
pub mod Speaker
use Prim.Native.Nat.{bit_and, bit_or}
use basedos.Prelude.{ℕ, ◌/◌, ◌%◌, ◌^◌, ◌==◌, if◌then◌else◌, List, [], ◌∷◌}

-- what was sent to the ports
abbrev pub Ports : Type 0
Ports = List (ℕ × ℕ)

unfoldable pub beep : (Ports → ℕ → ℕ) → ℕ → Ports → Ports
beep inb frequency out =
    let divisor = 1193180 / frequency in
    let sent = (0x42, divisor / 2 ^ 8 % 2 ^ 8) ∷ (0x42, divisor % 2 ^ 8) ∷ (0x43, 0xB6) ∷ out in
    if frequency == 0 then out else (0x61, bit_or (inb sent 0x61) 0x03) ∷ sent

unfoldable pub nosound : (Ports → ℕ → ℕ) → Ports → Ports
nosound inb out = (0x61, bit_and (inb out 0x61) 0xFC) ∷ out
