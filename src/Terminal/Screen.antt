-- ===== src/Terminal/Screen.antt =====
-- What the loops of terminal.c over the screen write.
use basedos.Prelude.{ℕ, zero, suc, ◌+◌, ◌*◌, ◌≡◌, arith, ltb, if◌then◌else◌}
use basedos.Memory.{Memory, store, in_range, written}
use basedos.Terminal.{fill_row, fill_rows, move_row, move_rows}

pub fill_row-written :
    (video : Memory) (at v k q : ℕ) → fill_row video at v k q ≡ written video at k (λ _. v) q
unfolding fill_row
fill_row-written video at v zero q = ground arith
fill_row-written video at v (suc k) q =
    ground (arith, fill_row-written (store video at v) (suc at) v k q)

pub fill_rows-written :
    (video : Memory) (y v k q : ℕ)
    → fill_rows video y v k q ≡ written video (y * 80) (k * 80) (λ _. v) q
unfolding fill_rows
fill_rows-written video y v zero q = ground arith
fill_rows-written video y v (suc k) q = ground (
  arith,
  fill_rows-written (fill_row video (y * 80) v 80) (suc y) v k q,
  fill_row-written video (y * 80) v 80 q,
)

-- the cells of a range taken from the row below
abbrev pub moved : Memory → ℕ → ℕ → Memory
moved video d n q = if in_range d n q then video (q + 80) else video q

pub move_row-moved :
    (video : Memory) (y x k q : ℕ) → move_row video y x k q ≡ moved video (y * 80 + x) k q
unfolding move_row
move_row-moved video y x zero q = ground arith
move_row-moved video y x (suc k) q =
    ground
      (arith, move_row-moved (store video (y * 80 + x) (video ((y + 1) * 80 + x))) y (suc x) k q)

pub move_rows-moved :
    (video : Memory) (y k q : ℕ) → move_rows video y k q ≡ moved video (y * 80) (k * 80) q
unfolding move_rows
move_rows-moved video y zero q = ground arith
move_rows-moved video y (suc k) q = ground (
  arith,
  move_rows-moved (move_row video y 0 80) (suc y) k q,
  move_row-moved video y 0 80 q,
  move_row-moved video y 0 80 (q + 80),
)

-- Scrolling: each line takes the one below it, the last is cleared, and nothing else changes.
abbrev pub scrolled : Memory → ℕ → Memory
scrolled video v q = if ltb q 1920 then video (q + 80) else if ltb q 2000 then v else video q

pub scroll-scrolled :
    (video : Memory) (v q : ℕ)
    → fill_row (move_rows video 0 24) (24 * 80) v 80 q ≡ scrolled video v q
scroll-scrolled video v q =
    ground (
      arith,
      fill_row-written (move_rows video 0 24) (24 * 80) v 80 q,
      move_rows-moved video 0 24 q,
    )
