-- ===== src/Fs/Vfs/Fd/Laws.antt =====
-- What the calls of fs/vfs.c do to the table of file descriptors.
use mathlib.Core.Path.{subst}
use Prim.Native.Nat.{bit_and-bitwise}
use basedos.Prelude.{
  ℕ, ◌+◌, ◌%◌, ◌^◌, ◌≡◌, ◌≢◌, refl, ◌∙◌, ◌⊎◌, arith, not, List, [], ◌∷◌, Option, none, some, true,
  false, get_elem?, length, length-set, Bool-cases, Option-cases, inl, inr,
}
use basedos.Prelude.Int.{ℤ, pos}
use basedos.Fs.{Node, has_bit}
use basedos.Fs.Vfs.{Driver, Descriptor, free_slot, max_descriptors, signed, Vfs, vfs_open}
use basedos.Fs.Vfs.Fd.{
  find_free, open_slot, failed, not_for_reading, not_for_writing, vfs_read, vfs_write, set_slot,
  install, open_file, close_file, advance, read_file, write_file, seek, lseek,
}
use basedos.Fs.Vfs.Fd.Table.{
  find_free_lem, open_slot-set_self, open_slot-set_free, open_slot-set_ne, open_slot_lem,
  open_slot-free,
}

module _ (d : Driver) where
  vfs_open-descriptors :
      (v v' : Vfs d) (filename : List ℕ) (flags : ℕ) (r : Option Node)
      → vfs_open d v filename flags ≡ some (r, v')
      → v'.descriptors ≡ v.descriptors
  unfolding vfs_open
  vfs_open-descriptors v v' [] flags r h = cc
  vfs_open-descriptors v v' (c ∷ path) flags r h = ground arith

  -- When vfs_open finds nothing, open fails and changes no descriptor.
  pub open_file-null :
      (v : Vfs d) (filename : List ℕ) (flags : ℕ)
      → vfs_open d v filename flags ≡ some (none, v)
      → open_file d v filename flags ≡ some (failed, v)
  unfolding open_file
  open_file-null v filename flags h = elim (Option-cases (find_free v.descriptors 0)) [
    | inl full ↦ rw (full, open_file)
    | inr (i, free) ↦ rw (free, h, open_file)
  ]

-- O_RDONLY is 0, so the test of its bits holds for every flags.
read_mode : (flags : ℕ) → not_for_reading flags ≡ not (has_bit flags 1)
unfolding not_for_reading
read_mode flags = rw (bit_and-bitwise 0 flags)

write_mode :
    (flags : ℕ)
    → (has_bit flags 0 ≡ true) ⊎ (has_bit flags 1 ≡ true)
    → not_for_writing flags ≡ false
unfolding not_for_writing
write_mode flags (inl e) = rw e
write_mode flags (inr e) = elim (Bool-cases (has_bit flags 0)) [ inl f ↦ rw f | inr f ↦ rw (f, e) ]

-- where lseek goes: SEEK_SET, SEEK_CUR and SEEK_END
pub data Origin (slot : Descriptor) (node : Node) (offset whence p : ℕ) : Type 0 where
  from_start : whence ≡ 0 → p ≡ offset % 2 ^ 32 → Origin slot node offset whence p
  from_position : whence ≡ 1 → p ≡ (slot.pos + offset) % 2 ^ 32 → Origin slot node offset whence p
  from_end : whence ≡ 2 → p ≡ (node.length + offset) % 2 ^ 32 → Origin slot node offset whence p

seek_lem :
    (slot : Descriptor) (node : Node) (offset whence p : ℕ)
    → Origin slot node offset whence p
    → seek slot node offset whence ≡ some p
unfolding seek
seek_lem slot node offset whence p (from_start w e) = rw (w, e)
seek_lem slot node offset whence p (from_position w e) = rw (w, e)
seek_lem slot node offset whence p (from_end w e) = rw (w, e)

-- the descriptors other than `i` are as before
abbrev pub SameOthers : List Descriptor → List Descriptor → ℕ → Type 0
SameOthers slots slots' i = (fd : ℤ) → fd ≢ pos i → open_slot slots' fd ≡ open_slot slots fd

-- the table has all its slots
abbrev pub HasTable : List Descriptor → Type 0
HasTable slots = length slots ≡ max_descriptors

module _ (d : Driver) (v : Vfs d) (table : HasTable v.descriptors) where
  -- open of a file that vfs_open finds, while a descriptor is free, returns a descriptor that was
  -- not in use. It now stands for the file's node, at position 0 and with the flags given; the other
  -- descriptors are as before.
  pub open_file_lem :
      (filename : List ℕ) (flags : ℕ) (i : ℕ) (node : Node) (w : Vfs d)
      → find_free v.descriptors 0 ≡ some i
      → vfs_open d v filename flags ≡ some (some node, w)
      → (v' : Vfs d) × (open_file d v filename flags ≡ some (pos i, v'))
        × (open_slot v.descriptors (pos i) ≡ none)
        × (open_slot v'.descriptors (pos i)
            ≡ some (i, record { node = some node; pos = 0; flags = flags }, node))
        × SameOthers v.descriptors v'.descriptors i
        × HasTable v'.descriptors
  unfolding open_file install set_slot
  open_file_lem filename flags i node w free found =
      let (j, e, slot, at, unused, inside) = find_free_lem v.descriptors 0 i free in
      let same : j ≡ i = omega arith in
      let kept = vfs_open-descriptors d v w filename flags (some node) found in
      let fresh : Descriptor = record { node = some node; pos = 0; flags = flags } in
      (
        (install d w i node flags).1,
        rw (free, found, open_file),
        open_slot-free v.descriptors i slot
            (subst (λ k. get_elem? v.descriptors k ≡ some slot) same at) unused,
        rw kept (open_slot-set_self v.descriptors i fresh node (omega arith) (omega arith) refl),
        rw kept (open_slot-set_ne v.descriptors i fresh),
        rw kept (length-set v.descriptors i fresh ∙ table),
      )

  -- close of an open descriptor returns 0 and frees it; the other descriptors are as before.
  pub close_file_lem :
      (fd : ℤ) (i : ℕ) (slot : Descriptor) (node : Node)
      → open_slot v.descriptors fd ≡ some (i, slot, node)
      → let (r, v') = close_file d v fd in
        (r ≡ pos 0)
        × (open_slot v'.descriptors fd ≡ none)
        × SameOthers v.descriptors v'.descriptors i
        × HasTable v'.descriptors
  unfolding close_file set_slot
  close_file_lem fd i slot node h =
      let (at, below, here, used) = open_slot_lem v.descriptors fd i slot node h in
      rw (h, close_file)
        (
          refl,
          rw at (open_slot-set_free v.descriptors i free_slot (omega arith) refl),
          open_slot-set_ne v.descriptors i free_slot,
          length-set v.descriptors i free_slot ∙ table,
        )

  -- read of a descriptor open for reading and writing, when the driver reads `n` bytes at its position,
  -- returns that number and moves the position behind them; the other descriptors are as before.
  pub read_file_lem :
      (fd : ℤ) (i : ℕ) (slot : Descriptor) (node : Node) (buf size n : ℕ) (s : d.State)
      → open_slot v.descriptors fd ≡ some (i, slot, node)
      → has_bit slot.flags 1 ≡ true
      → vfs_read d v.state node slot.pos size buf ≡ some (n, s)
      → (v' : Vfs d) × (read_file d v fd buf size ≡ some (signed n, v'))
        × (open_slot v'.descriptors fd
            ≡ some (i, record slot { pos = (slot.pos + n) % 2 ^ 32 }, node))
        × SameOthers v.descriptors v'.descriptors i
        × (v'.state ≡ s)
  unfolding read_file advance set_slot
  read_file_lem fd i slot node buf size n s h mode run =
      let (at, below, here, used) = open_slot_lem v.descriptors fd i slot node h in
      let slot' : Descriptor = record slot { pos = (slot.pos + n) % 2 ^ 32 } in
      (
        set_slot d v i slot' s,
        rw (h, read_mode slot.flags, mode, run, read_file),
        rw at (open_slot-set_self v.descriptors i slot' node (omega arith) below used),
        open_slot-set_ne v.descriptors i slot',
        refl,
      )

  -- write of a descriptor open for writing, when the driver writes `n` bytes at its position, returns
  -- that number and moves the position behind them; the other descriptors are as before.
  pub write_file_lem :
      (fd : ℤ) (i : ℕ) (slot : Descriptor) (node : Node) (buf size n : ℕ) (s : d.State)
      → open_slot v.descriptors fd ≡ some (i, slot, node)
      → (has_bit slot.flags 0 ≡ true) ⊎ (has_bit slot.flags 1 ≡ true)
      → vfs_write d v.state node slot.pos size buf ≡ some (n, s)
      → (v' : Vfs d) × (write_file d v fd buf size ≡ some (signed n, v'))
        × (open_slot v'.descriptors fd
            ≡ some (i, record slot { pos = (slot.pos + n) % 2 ^ 32 }, node))
        × SameOthers v.descriptors v'.descriptors i
        × (v'.state ≡ s)
  unfolding write_file advance set_slot
  write_file_lem fd i slot node buf size n s h mode run =
      let (at, below, here, used) = open_slot_lem v.descriptors fd i slot node h in
      let slot' : Descriptor = record slot { pos = (slot.pos + n) % 2 ^ 32 } in
      (
        set_slot d v i slot' s,
        rw (h, write_mode slot.flags mode, run, write_file),
        rw at (open_slot-set_self v.descriptors i slot' node (omega arith) below used),
        open_slot-set_ne v.descriptors i slot',
        refl,
      )

  -- lseek of an open descriptor moves its position to the offset, counted on 32 bits from the start,
  -- from the position or from the end of the file, and returns it; the other descriptors are as before.
  pub lseek_lem :
      (fd : ℤ) (i : ℕ) (slot : Descriptor) (node : Node) (offset whence p : ℕ)
      → open_slot v.descriptors fd ≡ some (i, slot, node)
      → Origin slot node offset whence p
      → let (r, v') = lseek d v fd offset whence in
        (r ≡ signed p)
        × (open_slot v'.descriptors fd ≡ some (i, record slot { pos = p }, node))
        × SameOthers v.descriptors v'.descriptors i
  unfolding lseek set_slot
  lseek_lem fd i slot node offset whence p h origin =
      let (at, below, here, used) = open_slot_lem v.descriptors fd i slot node h in
      let slot' : Descriptor = record slot { pos = p } in
      rw (h, seek_lem slot node offset whence p origin, lseek)
        (
          refl,
          rw at (open_slot-set_self v.descriptors i slot' node (omega arith) below used),
          open_slot-set_ne v.descriptors i slot',
        )

-- An open descriptor whose flags lack the bit of O_RDWR cannot be read, not even one opened with
-- O_RDONLY, which is 0: read returns -1 and changes nothing.
pub read_refused :
    (d : Driver) (v : Vfs d) (fd : ℤ) (i : ℕ) (slot : Descriptor) (node : Node) (buf size : ℕ)
    → open_slot v.descriptors fd ≡ some (i, slot, node)
    → has_bit slot.flags 1 ≡ false
    → read_file d v fd buf size ≡ some (failed, v)
unfolding read_file
read_refused d v fd i slot node buf size h mode = rw (h, read_mode slot.flags, mode, read_file)

-- On a descriptor that is negative, beyond the table or not open, close, read, write and lseek return
-- -1 and change nothing.
pub invalid_descriptor :
    (d : Driver) (v : Vfs d) (fd : ℤ) (buf size offset whence : ℕ)
    → open_slot v.descriptors fd ≡ none
    → (close_file d v fd ≡ (failed, v))
      × (read_file d v fd buf size ≡ some (failed, v))
      × (write_file d v fd buf size ≡ some (failed, v))
      × (lseek d v fd offset whence ≡ (failed, v))
unfolding close_file read_file write_file lseek
invalid_descriptor d v fd buf size offset whence h =
    (rw (h, close_file), rw (h, read_file), rw (h, write_file), rw (h, lseek))
