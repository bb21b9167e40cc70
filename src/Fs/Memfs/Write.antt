-- ===== src/Fs/Memfs/Write.antt =====
-- What memfs_write of fs/memfs.c leaves, and that a read gives back what was written.
use mathlib.Core.Option
use basedos.Prelude.{
  ℕ, ◌+◌, ◌%◌, ◌≤◌, ◌<◌, ◌≡◌, ◌≢◌, ◌⊎◌, max, ◌∙◌, arith, ◌==◌, ==_self, inr, false, some,
}
use basedos.Memory.{Memory, null, written}
use basedos.Heap.{heap_size, word}
use basedos.Str.Block.{memcpy, memcpy-written}
use basedos.Fs.{Node}
use basedos.Fs.Memfs.Read.{memfs_read-Reads}
use basedos.Fs.Memfs.Grow.{IsFile, bytes-IsBlock, HasRoom, make_room-HasRoom}
use basedos.Fs.Memfs.{Memfs, Inode, copy_to, make_room, memfs_write, memfs_read, store_inode}

-- The bytes of the file as they were, where it had some.
abbrev pub byte : Memfs → ℕ → ℕ → ℕ
byte s a j = s.memory ((s.inodes a).content + j)

-- What a write of `size` bytes at `offset` leaves.
pub record Wrote (s : Memfs) (a offset size buffer : ℕ) (s' : Memfs) : Type 0 where
  pub length : (s'.inodes a).size ≡ max (s.inodes a).size (offset + size)
  pub new_bytes : (j : ℕ) → j < size → byte s' a (offset + j) ≡ s.memory (buffer + j)
  pub old_bytes :
      (j : ℕ)
      → j < (s.inodes a).size
      → (j < offset) ⊎ (offset + size ≤ j)
      → byte s' a j ≡ byte s a j
  pub file : IsFile s' (s'.inodes a)
  pub base : s'.heap.base ≡ s.heap.base
  pub others : (b : ℕ) → a ≢ b → s'.inodes b ≡ s.inodes b

module _ (s t : Memfs) (node : Node) (offset size buffer : ℕ) (i' : Inode)
    (room : HasRoom s (s.inodes node.fs_specific) (offset + size) (i', t))
    (apart : (buffer + size ≤ s.heap.base) ⊎ (s.heap.base + heap_size ≤ buffer)) where
  abbrev bytes_in : Memory
  bytes_in = memcpy t.memory (i'.content + offset) buffer size

  abbrev stored : Memfs
  stored = record t { memory = bytes_in; inodes = store_inode t.inodes node.fs_specific i' }

  -- the buffer is not in the file's block
  in_block : (i'.content + offset + size ≤ s.heap.base + heap_size) × (s.heap.base ≤ i'.content)
  in_block =
      omega (arith, room.block.place, room.block.inside, room.base, room.heap.in_heap, room.size)

  bytes_in-written :
      (q : ℕ)
      → bytes_in q ≡ written t.memory (i'.content + offset) size (λ j. t.memory (buffer + j)) q
  bytes_in-written q =
      memcpy-written t.memory (i'.content + offset) buffer size q (omega (arith, in_block))

  stored_inode : stored.inodes node.fs_specific ≡ i'
  stored_inode = rw (==_self node.fs_specific)

  stored-Wrote : Wrote s node.fs_specific offset size buffer stored
  stored-Wrote = record {
    length = rw stored_inode room.size;
    new_bytes = λ j lt. rw stored_inode (
        ground (
          arith,
          in_block,
          bytes_in-written (i'.content + (offset + j)),
          room.outside (buffer + j) (omega (arith, in_block)),
        ));
    old_bytes = λ j lt out.
        rw stored_inode (ground (arith, bytes_in-written (i'.content + j), room.bytes j lt));
    file = rw stored_inode (record {
      heap = room.heap;
      file = room.file;
      block = inr (room.block.at, room.block.place, room.block.aligned, room.block.inside);
    });
    base = room.base;
    others = λ b ne. ground (arith, room.inodes);
  }

  memfs_write-stored :
      (s.inodes node.fs_specific).is_dir ≡ false
      → offset + size < word
      → make_room s (s.inodes node.fs_specific) (offset + size) ≡ some (i', t)
      → memfs_write s node offset size buffer ≡ some (size, stored)
  unfolding memfs_write copy_to Option.bind
  memfs_write-stored file no_wrap run =
      let exact : (offset + size) % word ≡ offset + size = omega arith in
      let held : (i'.content == null) ≡ false =
        ground (arith, room.block.place, room.heap.placed) in
      simp (file, exact, run, held)

-- memfs_write of at least one byte to a file, whose content, if it has any, is a block in the part of
-- the heap that is in use, where the offset and the size together fit into the heap behind that part,
-- writes them all: the file is as long as it was, or ends behind the new bytes if that is more; the
-- new bytes stand at the offset, the old ones elsewhere as before. The buffer is outside the heap.
pub memfs_write-Wrote :
    (s : Memfs) (node : Node) (offset size buffer : ℕ)
    → let i = s.inodes node.fs_specific in
      IsFile s i
      → 0 < size
      → s.heap.pos + (offset + size) ≤ heap_size
      → (buffer + size ≤ s.heap.base) ⊎ (s.heap.base + heap_size ≤ buffer)
      → (s' : Memfs) × (memfs_write s node offset size buffer ≡ some (size, s'))
        × Wrote s node.fs_specific offset size buffer s'
memfs_write-Wrote s node offset size buffer f some_bytes fits apart =
    let ((i', t), run, room) =
      make_room-HasRoom s (s.inodes node.fs_specific) (offset + size) f (omega arith) fits in
    (
      stored s t node offset size buffer i' room apart,
      memfs_write-stored s t node offset size buffer i' room apart f.file (omega arith) run,
      stored-Wrote s t node offset size buffer i' room apart,
    )

-- What is written to a file at an offset is what a read of as many bytes there gives. The node is of a
-- file whose content, if it has any, is a block in the part of the heap that is in use; at least one
-- byte is written; the heap, behind that part, has room for the offset and the size together, also
-- where the file does not grow; and the buffers of the writer and of the reader are outside the heap.
-- Then the write gives its size, and the read gives it too and puts into the reader's buffer the bytes
-- that were in the writer's.
pub memfs_read-write :
    (s : Memfs) (node : Node) (offset size buffer out : ℕ)
    → let i = s.inodes node.fs_specific in
      IsFile s i
      → 0 < size
      → s.heap.pos + (offset + size) ≤ heap_size
      → (buffer + size ≤ s.heap.base) ⊎ (s.heap.base + heap_size ≤ buffer)
      → (out + size ≤ s.heap.base) ⊎ (s.heap.base + heap_size ≤ out)
      → (s' : Memfs) × (memfs_write s node offset size buffer ≡ some (size, s'))
        × (let r = memfs_read s' node offset size out in
            (r.0 ≡ size) × ((j : ℕ) → j < size → r.1.memory (out + j) ≡ s.memory (buffer + j)))
memfs_read-write s node offset size buffer out f some_bytes fits apart apart' =
    let (s', run, w) = memfs_write-Wrote s node offset size buffer f some_bytes fits apart in
    let i = s'.inodes node.fs_specific in
    let b = bytes-IsBlock s' i w.file (omega (arith, w.length)) in
    let held : i.content ≢ null = omega (arith, b.place, w.base, f.heap.placed) in
    let apart_too : (out ≤ i.content + offset) ⊎ (i.content + offset + size ≤ out) =
      omega (arith, b.place, b.inside, w.base, w.length, w.file.heap.in_heap) in
    let r = memfs_read-Reads s' node offset size out (omega arith) held apart_too in
    let count : (memfs_read s' node offset size out).0 ≡ size = omega (arith, r.count, w.length) in
    (s', run, (count, λ j lt. r.bytes (out + j) ∙ rw count (ground (arith, w.new_bytes j lt))))
