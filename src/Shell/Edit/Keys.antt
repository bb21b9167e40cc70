-- ===== src/Shell/Edit/Keys.antt =====
-- The line editor of kernel/shell.c on the characters of kernel/interrupts.c.
use basedos.Prelude.{
  ℕ, ◌<◌, ◌≡◌, refl, arith, ◌==◌, ltb, not, ◌&&◌, if◌then◌else◌, Option, some, true, false,
}
use basedos.Prelude.Below.{passes_below, passes_below_lem}
use basedos.Keyboard.{ascii_of}
use basedos.Keyboard.Queue.{key_of}
use basedos.Sound.{Ports}
use basedos.Shell.Edit.{Line, commands, complete, backspace, type_key, press}

-- the editor without the branches of the arrows
unfoldable pub press_plain : (Ports → ℕ → ℕ) → ℕ → Line → Option Line
press_plain inb c l =
    if (c == 8) && ltb 0 l.position
    then some (backspace l)
    else if c == 9
    then (if ltb 0 l.position then complete commands l else some l)
    else some (type_key inb c l)

key_table : passes_below (λ s. not (key_of s == 0x48) && not (key_of s == 0x50)) 256 ≡ true
unfolding passes_below ascii_of
key_table = refl

press-press_plain :
    (inb : Ports → ℕ → ℕ) (c : ℕ) (l : Line)
    → (c == 0x48) ≡ false
    → (c == 0x50) ≡ false
    → press inb c l ≡ press_plain inb c l
unfolding press press_plain
press-press_plain inb c l up down = rw (up, down) refl

-- No scancode stands for H or P, with which the editor compares the key for the arrows: on whatever
-- comes from the keyboard it does what it would do without those branches, which alone recall an entry of
-- the history.
pub press-key_of :
    (inb : Ports → ℕ → ℕ) (scancode : ℕ) (l : Line)
    → scancode < 256
    → press inb (key_of scancode) l ≡ press_plain inb (key_of scancode) l
press-key_of inb scancode l h =
    let other =
      passes_below_lem (λ s. not (key_of s == 0x48) && not (key_of s == 0x50)) 256 scancode h
        key_table in
    press-press_plain inb (key_of scancode) l (ground arith) (ground arith)
