-- ===== src/Fs/Driver.antt =====
-- fs/memfs.c as the driver that fs/vfs.c calls: memfs_ops and the functions that its nodes hold.
use basedos.Prelude.{ℕ, ◌∷◌, [], some}
use basedos.Heap
use basedos.Fs.Memfs.{
  Memfs, memfs_mount, memfs_read, memfs_write, memfs_open, memfs_close, memfs_readdir,
  memfs_finddir,
}
use basedos.Fs.Memfs
use basedos.Fs.Vfs.{Driver, Filesystem}

-- `fuel` bounds the number of entries of a directory.
abbrev pub memfs : ℕ → Driver
memfs fuel = record {
  State = Memfs;
  Dirent = Memfs.Dirent;
  kmalloc = λ s size. let (p, h) = Heap.kmalloc s.heap size in (p, record s { heap = h });
  read = λ s node offset size buffer. some (memfs_read s node offset size buffer);
  write = memfs_write;
  opened = memfs_open;
  close = memfs_close;
  readdir = memfs_readdir;
  finddir = memfs_finddir fuel;
}

-- memfs_ops
abbrev pub memfs_ops : (fuel : ℕ) → Filesystem (memfs fuel)
memfs_ops fuel = record { name = b'm' ∷ b'e' ∷ b'm' ∷ b'f' ∷ b's' ∷ []; mount = memfs_mount }
