-- ===== src/Fs/Vfs/Fd.antt =====
-- The calls of fs/vfs.c on nodes and on file descriptors.
pub mod Frame
pub mod Laws
mod Table
use mathlib.Core.Option
use Prim.Native.Nat.{bit_and}
use basedos.Prelude.{
  ℕ, zero, suc, ◌+◌, ◌%◌, ◌^◌, leb, ◌==◌, if◌then◌else◌, not, ◌&&◌, List, [], ◌∷◌, Option, none,
  some, Bool, get_elem?, set,
}
use basedos.Prelude.Int.{ℤ, pos, negsuc}
use basedos.Fs.{Node, o_rdonly, has_bit}
use basedos.Fs.Vfs.{Driver, Descriptor, free_slot, max_descriptors, signed, Vfs, vfs_open}

-- the first slot from `i` on whose node is NULL
unfoldable pub find_free : List Descriptor → ℕ → Option ℕ
find_free [] i = none
find_free (slot ∷ slots) i = elim slot.node [ none ↦ some i | some node ↦ find_free slots (suc i) ]

-- the slot of an open descriptor: its number, its contents and its node. `none` is the guard
-- `fd < 0 || fd >= MAX_FILE_DESCRIPTORS || file_descriptors[fd].node == NULL`.
unfoldable pub open_slot : List Descriptor → ℤ → Option (ℕ × Descriptor × Node)
unfolding Option.bind
open_slot slots (negsuc n) = none
open_slot slots (pos i) =
    if leb max_descriptors i
    then none
    else Option.bind (get_elem? slots i) (λ slot. Option.map (λ node. (i, slot, node)) slot.node)

-- The call is refused: -1.
abbrev pub failed : ℤ
failed = negsuc 0

-- `(flags & O_RDONLY) == 0 && (flags & O_RDWR) == 0`, and the same for O_WRONLY
unfoldable pub not_for_reading : ℕ → Bool
not_for_reading flags = (bit_and o_rdonly flags == 0) && not (has_bit flags 1)

unfoldable pub not_for_writing : ℕ → Bool
not_for_writing flags = not (has_bit flags 0) && not (has_bit flags 1)

-- the new position of lseek, on 32-bit words; SEEK_SET, SEEK_CUR and SEEK_END are 0, 1 and 2
unfoldable pub seek : Descriptor → Node → ℕ → ℕ → Option ℕ
seek slot node offset whence =
    if whence == 0
    then some (offset % 2 ^ 32)
    else if whence == 1
    then some ((slot.pos + offset) % 2 ^ 32)
    else if whence == 2
    then some ((node.length + offset) % 2 ^ 32)
    else none

module _ (d : Driver) where
  open d use {State, Dirent}

  unfoldable pub vfs_close : State → Node → State
  vfs_close s node = if node.close then d.close s node else s

  unfoldable pub vfs_read : State → Node → ℕ → ℕ → ℕ → Option (ℕ × State)
  vfs_read s node offset size buffer =
      if node.read then d.read s node offset size buffer else some (0, s)

  unfoldable pub vfs_write : State → Node → ℕ → ℕ → ℕ → Option (ℕ × State)
  vfs_write s node offset size buffer =
      if node.write then d.write s node offset size buffer else some (0, s)

  unfoldable pub vfs_readdir : State → Node → ℕ → Option (Option Dirent × State)
  vfs_readdir s node index = if node.readdir then d.readdir s node index else some (none, s)

  -- `file_descriptors[i] = slot`
  unfoldable pub set_slot : Vfs d → ℕ → Descriptor → State → Vfs d
  set_slot v i slot s = record v { descriptors = set v.descriptors i slot; state = s }

  -- the end of open, for a node that was found
  unfoldable pub install : Vfs d → ℕ → Node → ℕ → ℤ × Vfs d
  unfolding set_slot
  install v i node flags =
      let s = if node.opened then d.opened v.state node flags else v.state in
      (pos i, set_slot v i (record { node = some node; pos = 0; flags = flags }) s)

  unfoldable pub open_file : Vfs d → List ℕ → ℕ → Option (ℤ × Vfs d)
  unfolding install
  open_file v filename flags = elim (find_free v.descriptors 0) [
    | none ↦ some (failed, v)
    | some i ↦
        Option.map (λ r. elim r.0 [ none ↦ (failed, r.1) | some node ↦ install r.1 i node flags ])
          (vfs_open d v filename flags)
  ]

  unfoldable pub close_file : Vfs d → ℤ → ℤ × Vfs d
  unfolding set_slot vfs_close
  close_file v fd = elim (open_slot v.descriptors fd) [
    | none ↦ (failed, v)
    | some (i, slot, node) ↦ (pos 0, set_slot v i free_slot (vfs_close v.state node))
  ]

  -- the position behind the `n` bytes that were read or written, and their number as an `int32_t`
  unfoldable pub advance : Vfs d → ℕ → Descriptor → ℕ × State → ℤ × Vfs d
  unfolding set_slot
  advance v i slot (n, s) =
      (signed n, set_slot v i (record slot { pos = (slot.pos + n) % 2 ^ 32 }) s)

  unfoldable pub read_file : Vfs d → ℤ → ℕ → ℕ → Option (ℤ × Vfs d)
  unfolding advance vfs_read
  read_file v fd buf size = elim (open_slot v.descriptors fd) [
    | none ↦ some (failed, v)
    | some (i, slot, node) ↦
        if not_for_reading slot.flags
        then some (failed, v)
        else Option.map (advance v i slot) (vfs_read v.state node slot.pos size buf)
  ]

  unfoldable pub write_file : Vfs d → ℤ → ℕ → ℕ → Option (ℤ × Vfs d)
  unfolding advance vfs_write
  write_file v fd buf size = elim (open_slot v.descriptors fd) [
    | none ↦ some (failed, v)
    | some (i, slot, node) ↦
        if not_for_writing slot.flags
        then some (failed, v)
        else Option.map (advance v i slot) (vfs_write v.state node slot.pos size buf)
  ]

  unfoldable pub lseek : Vfs d → ℤ → ℕ → ℕ → ℤ × Vfs d
  unfolding set_slot seek
  lseek v fd offset whence = elim (open_slot v.descriptors fd) [
    | none ↦ (failed, v)
    | some (i, slot, node) ↦ elim (seek slot node offset whence) [
      | none ↦ (failed, v)
      | some p ↦ (signed p, set_slot v i (record slot { pos = p }) v.state)
    ]
  ]
