-- ===== src/Tests/Fs.antt =====
-- fs/memfs.c at concrete inputs.
use mathlib.Core.Path.{refl}
use basedos.Prelude.{ℕ, ◌+◌, ◌%◌, ◌<◌, ◌≡◌, inl, inr, arith, [], ◌∷◌, Option, some}
use basedos.Memory.{null}
use basedos.Heap.{Heap, kmalloc}
use basedos.Fs.{Node}
use basedos.Fs.Memfs.{
  Memfs, Inode, zero_inode, root_inode, store_inode, node_of, memfs_read, memfs_write,
  memfs_finddir,
}
use basedos.Fs.Memfs.Dir.{Chain, end, link, NamesFit, IsFound, memfs_finddir_lem}
use basedos.Fs.Memfs.Grow.{IsFile}
use basedos.Fs.Memfs.Write.{Wrote, memfs_write-Wrote, memfs_read-write}

-- A heap in use up to byte 2048, the directory "/" at 0x9000 and in it the file "a", whose five
-- bytes lie at the start of the heap.
abbrev pub heap : Heap
heap = record { base = 0x20000; pos = 2048; total = 0 }

abbrev pub inode_a : Inode
inode_a = record zero_inode { name = b'a' ∷ []; size = 5; content = 0x20000; parent = 0x9000 }

abbrev pub inodes : ℕ → Inode
inodes =
    store_inode (store_inode (λ _. zero_inode) 0x9000 (record root_inode { children = 0x901C }))
      0x901C inode_a

abbrev pub fs : Memfs
fs = record {
  heap = heap;
  memory = λ q. q % 256;
  inodes = inodes;
  root_node = 0x9000;
  nodes = 0x9000;
  block_bitmap = 0x9700;
  blocks = null;
  dir_entry = record { d_ino = 0; d_name = [] };
}

abbrev pub node_a : Node
node_a = node_of 0x901C inode_a

inode_a-IsFile : IsFile fs (fs.inodes 0x901C)
inode_a-IsFile = record {
  heap = omega arith;
  file = refl;
  block = inr (0, refl, refl, omega arith);
}

-- four bytes from offset 3 on: the file grows to seven
memfs_write-Wrote_example :
    (s' : Memfs) × (memfs_write fs node_a 3 4 0x100 ≡ some (4, s')) × Wrote fs 0x901C 3 4 0x100 s'
memfs_write-Wrote_example =
    memfs_write-Wrote fs node_a 3 4 0x100 inode_a-IsFile (omega arith) (omega arith)
      (inl (omega arith))

memfs_read-write_example :
    (s' : Memfs) × (memfs_write fs node_a 3 4 0x100 ≡ some (4, s'))
    × (let r = memfs_read s' node_a 3 4 0x200 in
        (r.0 ≡ 4) × ((j : ℕ) → j < 4 → r.1.memory (0x200 + j) ≡ (0x100 + j) % 256))
memfs_read-write_example =
    memfs_read-write fs node_a 3 4 0x100 0x200 inode_a-IsFile (omega arith) (omega arith)
      (inl (omega arith)) (inl (omega arith))

abbrev pub root : Node
root = node_of 0x9000 (inodes 0x9000)

pub entries : Chain inodes 0x901C (0x901C ∷ [])
entries = link (omega arith) end

pub names_fit : NamesFit inodes (0x901C ∷ [])
names_fit = (omega arith, tt)

memfs_finddir_lem_example :
    (r : Option Node × Memfs) × (memfs_finddir 9 fs root (b'a' ∷ []) ≡ some r)
    × IsFound inodes (0x901C ∷ []) (b'a' ∷ []) r.0
    × (r.1.inodes ≡ inodes)
memfs_finddir_lem_example =
    memfs_finddir_lem 9 fs root (0x901C ∷ []) (b'a' ∷ []) entries (omega arith) (omega arith) refl
      (unfold kmalloc in omega arith)
