-- ===== src/Fs/Start.antt =====
-- The start of the file system in kmain of kernel/kernel.c, which fs/fs_test.c repeats.
use basedos.Prelude.{
  ℕ, ◌+◌, ◌*◌, ◌/◌, ◌^◌, ◌<◌, ◌≤◌, ◌≡◌, refl, ap, arith, ◌==◌, Option, some, false,
}
use basedos.Prelude.Int.{ℤ, pos}
use basedos.Prelude.Text.{codes}
use mathlib.Core.Option
use basedos.Heap.{Heap, heap_size, kmalloc}
use basedos.Fs.Driver.{memfs, memfs_ops}
use basedos.Fs.Memfs.{Memfs, memfs_initialize, memfs_mount}
use basedos.Fs.Vfs.{Vfs, bare_root, vfs_initialize, register_filesystem, find_filesystem, vfs_mount}
use basedos.Fs.Vfs.Fd.Laws.{HasTable}
use basedos.Str.Text.{text_eq}

module _ (n : ℕ) where
  -- vfs_initialize, memfs_initialize with its registration, and the mount at `/`, with its result
  unfoldable pub start_files : Vfs (memfs n) → Option (ℤ × Vfs (memfs n))
  unfolding Option.bind vfs_initialize register_filesystem vfs_mount
  start_files v = Option.bind (vfs_initialize (memfs n) v) (λ w.
      Option.bind (memfs_initialize w.state) (λ s.
        vfs_mount (memfs n) (register_filesystem (memfs n) (record w { state = s }) (memfs_ops n))
          (codes "memdisk") (codes "/") (codes "memfs")))

  granted :
      (h : Heap) (size : ℕ)
      → h.pos + size ≤ heap_size
      → size + 3 < 2 ^ 32
      → kmalloc h size ≡ (h.base + h.pos, record h { pos = h.pos + (size + 3) / 4 * 4 })
  unfolding kmalloc
  granted h size room small = ground arith

  refused :
      (h : Heap) (size : ℕ)
      → heap_size < h.pos + size
      → h.pos + size < 2 ^ 32
      → kmalloc h size ≡ (0, h)
  unfolding kmalloc
  refused h size room small = ground arith

  initialized :
      (s : Memfs)
      → 0 < s.heap.base
      → s.heap.pos + 1920 ≤ heap_size
      → (s' : Memfs) × (memfs_initialize s ≡ some s')
        × (s'.heap ≡ record s.heap { pos = s.heap.pos + 1792 + 128 })
  unfolding memfs_initialize
  initialized s placed room =
      let h = s.heap in
      let first = granted h 1792 (omega arith) (omega arith) in
      let second = granted (record h { pos = h.pos + 1792 }) 128 (omega arith) (omega arith) in
      let third =
        refused (record h { pos = h.pos + 1792 + 128 }) 0x40_0000 (omega arith) (omega arith) in
      let nodes : (h.base + h.pos == 0) ≡ false = ground arith in
      let bitmap : (h.base + (h.pos + 1792) == 0) ≡ false = ground arith in
      rw (first, second, third, nodes, bitmap) (_, refl, refl)

  -- The start of the file system succeeds while 2600 bytes of the heap are free: the mount returns 0, the
  -- root is still the one that vfs_initialize made, the table of descriptors is whole, and 2544 bytes
  -- of the heap are used.
  pub start_files_lem :
      (v : Vfs (memfs n))
      → 0 < v.state.heap.base
      → v.state.heap.pos + 2600 ≤ heap_size
      → (v' : Vfs (memfs n)) × (start_files v ≡ some (pos 0, v'))
        × (v'.fs_root ≡ some bare_root)
        × HasTable v'.descriptors
        × (v'.state.heap ≡ record v.state.heap { pos = v.state.heap.pos + 2544 })
  unfolding start_files vfs_initialize memfs_initialize memfs_mount register_filesystem vfs_mount
      find_filesystem text_eq Option.bind
  start_files_lem v placed room =
      let h = v.state.heap in
      let node = granted h 312 (omega arith) (omega arith) in
      let there : (h.base + h.pos == 0) ≡ false = ground arith in
      let first = record v.state { heap = record h { pos = h.pos + 312 } } in
      let (s, ready, heap) = initialized first (omega arith) (omega arith) in
      let root =
        granted (record h { pos = h.pos + 312 + 1792 + 128 }) 312 (omega arith) (omega arith) in
      let mounted : (h.base + (h.pos + 312 + 1792 + 128) == 0) ≡ false = ground arith in
      rw (node, there, ready, heap, root, mounted)
        (_, refl, refl, refl, ap (λ p. record v.state.heap { pos = p }) (omega arith))
