-- ===== src/Sound/Speaker.antt =====
-- What beep and nosound of kernel/sound.c program.
use native.Mathlib.Nat.{div-lt_iff_lt-mul}
use Prim.Native.Nat.{bit_and, bit_or}
use basedos.Prelude.{
  ℕ, ◌+◌, ◌*◌, ◌/◌, ◌%◌, ◌^◌, ◌≤◌, ◌<◌, ◌≡◌, ◌≢◌, ap, refl, false, arith, ◌==◌, ◌&&◌, ◌∷◌, true,
}
use basedos.Prelude.Below.{passes_below, passes_below_lem}
use basedos.Sound.{Ports, beep, nosound}

gate_table :
    passes_below (λ x. (bit_or x 0x03 == x / 4 * 4 + 3) && (bit_and x 0xFC == x / 4 * 4)) 256 ≡ true
unfolding passes_below
gate_table = refl

-- The two low bits of port 0x61 connect the speaker; the others are kept.
gate_bits : (x : ℕ) → x < 256 → (bit_or x 0x03 ≡ x / 4 * 4 + 3) × (bit_and x 0xFC ≡ x / 4 * 4)
gate_bits x h =
    let both =
      passes_below_lem (λ y. (bit_or y 0x03 == y / 4 * 4 + 3) && (bit_and y 0xFC == y / 4 * 4)) 256
        x h gate_table in
    ground arith

module _ (inb : Ports → ℕ → ℕ) (frequency : ℕ) (out : Ports) where
  -- the divisor's two bytes sent to the timer
  abbrev tuned : Ports
  tuned =
      (0x42, 1193180 / frequency / 256 % 256)
      ∷ (0x42, 1193180 / frequency % 256)
      ∷ (0x43, 0xB6)
      ∷ out

  beep_lem :
      frequency ≢ 0
      → inb tuned 0x61 < 256
      → beep inb frequency out ≡ (0x61, inb tuned 0x61 / 4 * 4 + 3) ∷ tuned
  unfolding beep
  beep_lem some_frequency byte =
      let other : (frequency == 0) ≡ false = ground arith in
      rw other (ap (λ b. (0x61, b) ∷ tuned) (gate_bits (inb tuned 0x61) byte).0)

-- beep of a frequency from 19 on sends the timer the two bytes of its divisor and connects the
-- speaker; nosound then disconnects it. The other bits of port 0x61 are sent back as they are read.
pub beep-nosound :
    (inb : Ports → ℕ → ℕ) (frequency : ℕ) (out : Ports)
    → 19 ≤ frequency
    → ((o : Ports) → inb o 0x61 < 256)
    → (lo : ℕ) × (hi : ℕ) × (let tuned = (0x42, hi) ∷ (0x42, lo) ∷ (0x43, 0xB6) ∷ out in
        let on = (0x61, inb tuned 0x61 / 4 * 4 + 3) ∷ tuned in
        (lo + 256 * hi ≡ 1193180 / frequency)
        × (lo < 256)
        × (hi < 256)
        × (beep inb frequency out ≡ on)
        × (nosound inb (beep inb frequency out) ≡ (0x61, inb on 0x61 / 4 * 4) ∷ on))
unfolding nosound
beep-nosound inb frequency out low byte =
    let on = (0x61, inb (tuned inb frequency out) 0x61 / 4 * 4 + 3) ∷ tuned inb frequency out in
    let small : 1193180 / frequency < 2 ^ 16 =
      (div-lt_iff_lt-mul {k = frequency} {x = 1193180} {y = 2 ^ 16} (omega arith)).1
        (omega arith) in
    let beeped = beep_lem inb frequency out (omega arith) (byte (tuned inb frequency out)) in
    (
      1193180 / frequency % 256,
      1193180 / frequency / 256 % 256,
      (
        omega arith,
        omega arith,
        omega arith,
        beeped,
        rw beeped (ap (λ b. (0x61, b) ∷ on) (gate_bits (inb on 0x61) (byte on)).1),
      ),
    )
