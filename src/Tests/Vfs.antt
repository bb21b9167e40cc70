-- ===== src/Tests/Vfs.antt =====
-- fs/vfs.c over fs/memfs.c at concrete inputs.
use mathlib.Core.Path.{refl}
use mathlib.Core.Option
use basedos.Prelude.{ℕ, ◌≡◌, inr, List, [], ◌∷◌, none, some, replicate}
use basedos.Prelude.Int.{pos}
use basedos.Heap.{Heap, kmalloc}
use basedos.Fs.{o_rdonly, o_rdwr, o_creat}
use basedos.Fs.Driver.{memfs, memfs_ops}
use basedos.Str.Block.{memcpy}
use basedos.Fs.Memfs.{
  make_room, copy_to, memfs_mount, find_child, Memfs, store_inode, memfs_read, memfs_write,
  memfs_finddir,
}
use basedos.Fs.Vfs.{
  Vfs, Descriptor, free_slot, bare_root, find_filesystem, open_path, component_length,
  skip_component, vfs_finddir, signed, vfs_initialize, register_filesystem, vfs_mount, vfs_open,
}
use basedos.Str.Text.{text_eq, index_of}
use basedos.Fs.Vfs.Fd.Laws.{SameOthers, HasTable, open_file_lem, read_file_lem, write_file_lem}
use basedos.Fs.Vfs.Fd.{
  find_free, vfs_read, vfs_write, open_slot, failed, open_file, read_file, write_file,
}
use basedos.Fs.Vfs.Mount.{nothing_opens}
use basedos.Fs.Vfs.Path.{components, walk, vfs_open-walk}
use basedos.Tests.Fs.{heap, fs, root, node_a}

-- The files above mounted by hand at the root, with the file open for reading and writing at 1 and for
-- writing only at 2.
abbrev slot_rw : Descriptor
slot_rw = record { node = some node_a; pos = 1; flags = o_rdwr }

abbrev slot_rdonly : Descriptor
slot_rdonly = record { node = some node_a; pos = 2; flags = o_rdonly }

abbrev pub vfs : Vfs (memfs 9)
vfs = record {
  state = fs;
  fs_root = some root;
  descriptors = slot_rdonly ∷ slot_rw ∷ replicate 62 free_slot;
  next_fd = 0;
  filesystems = [];
}

vfs_open-walk_example :
    vfs_open (memfs 9) vfs (b'/' ∷ b'a' ∷ []) o_creat
    ≡ Option.map
        (λ r. (r.0, record vfs { state = r.1 }))
        (walk (memfs 9) fs root (components (b'a' ∷ [])))
vfs_open-walk_example = vfs_open-walk (memfs 9) vfs root (b'a' ∷ []) o_creat refl

abbrev heap_free : Heap
heap_free = record heap { pos = 0 }

-- what kmain does: vfs_initialize, the registration of memfs, and its mount
abbrev booted : Vfs (memfs 9)
booted = record vfs {
  state = record fs { heap = record heap_free { pos = 312 } };
  fs_root = some bare_root;
  descriptors = replicate 64 free_slot;
}

abbrev memfs_name : List ℕ
memfs_name = b'm' ∷ b'e' ∷ b'm' ∷ b'f' ∷ b's' ∷ []

abbrev pub mounted : Vfs (memfs 9)
mounted = record booted {
  state = record fs { heap = record heap_free { pos = 624 } };
  filesystems = memfs_ops 9 ∷ [];
}

nothing_opens_example :
    (vfs_open (memfs 9) mounted (b'/' ∷ b'a' ∷ []) o_creat ≡ some (none, mounted))
    × (open_file (memfs 9) mounted (b'/' ∷ b'a' ∷ []) o_creat ≡ some (failed, mounted))
unfolding vfs_initialize register_filesystem vfs_mount find_filesystem text_eq kmalloc memfs_mount
nothing_opens_example =
    nothing_opens (memfs 9) (record vfs { state = record fs { heap = heap_free } }) booted mounted
      (memfs_ops 9) [] (b'/' ∷ []) memfs_name (pos 0) refl refl b'a' [] o_creat

open_file_lem_example :
    (v' : Vfs (memfs 9)) × (open_file (memfs 9) vfs (b'/' ∷ b'a' ∷ []) o_rdwr ≡ some (pos 2, v'))
    × (open_slot vfs.descriptors (pos 2) ≡ none)
    × (open_slot v'.descriptors (pos 2)
        ≡ some (2, record { node = some node_a; pos = 0; flags = o_rdwr }, node_a))
    × SameOthers vfs.descriptors v'.descriptors 2
    × HasTable v'.descriptors
unfolding find_free vfs_open open_path component_length index_of skip_component vfs_finddir
    memfs_finddir find_child Option.bind text_eq kmalloc
open_file_lem_example =
    open_file_lem (memfs 9) vfs refl (b'/' ∷ b'a' ∷ []) o_rdwr 2 node_a
      (record vfs { state = record fs { heap = record heap { pos = 2360 } } }) refl refl

read_file_lem_example :
    (v' : Vfs (memfs 9)) × (read_file (memfs 9) vfs (pos 1) 0x100 9 ≡ some (signed 4, v'))
    × (open_slot v'.descriptors (pos 1) ≡ some (1, record slot_rw { pos = 5 }, node_a))
    × SameOthers vfs.descriptors v'.descriptors 1
    × (v'.state ≡ (memfs_read fs node_a 1 9 0x100).1)
unfolding open_slot vfs_read memfs_read
read_file_lem_example =
    read_file_lem (memfs 9) vfs refl (pos 1) 1 slot_rw node_a 0x100 9 4
      (memfs_read fs node_a 1 9 0x100).1 refl refl refl

-- the files after the three bytes at 0x100 are written to "a" from its second byte on
abbrev fs_written : Memfs
fs_written = record fs {
  memory = memcpy fs.memory 0x20001 0x100 3;
  inodes = store_inode fs.inodes 0x901C (fs.inodes 0x901C);
}

write_file_lem_example :
    (v' : Vfs (memfs 9)) × (write_file (memfs 9) vfs (pos 1) 0x100 3 ≡ some (signed 3, v'))
    × (open_slot v'.descriptors (pos 1) ≡ some (1, record slot_rw { pos = 4 }, node_a))
    × SameOthers vfs.descriptors v'.descriptors 1
    × (v'.state ≡ fs_written)
unfolding open_slot vfs_write memfs_write make_room copy_to
write_file_lem_example =
    write_file_lem (memfs 9) vfs refl (pos 1) 1 slot_rw node_a 0x100 3 3 fs_written refl (inr refl)
      refl

-- the files before the start, with an empty heap
abbrev pub unstarted : Vfs (memfs 9)
unstarted = record vfs { state = record fs { heap = heap_free } }
