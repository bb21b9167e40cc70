-- ===== src/Fs/Memfs/Read.antt =====
-- What memfs_read of fs/memfs.c gives.
use basedos.Prelude.{ℕ, ◌+◌, ◌-◌, ◌%◌, ◌≤◌, ◌<◌, ◌≡◌, ◌≢◌, ◌⊎◌, arith, min, ltb, if◌then◌else◌}
use basedos.Memory.{null, written}
use basedos.Heap.{word}
use basedos.Str.Block.{memcpy-written}
use basedos.Fs.{Node}
use basedos.Fs.Memfs.{Memfs, memfs_read}

-- What a read leaves: the count, the bytes in the buffer, and nothing else.
pub record Reads (s : Memfs) (node : Node) (offset size buffer : ℕ) (r : ℕ × Memfs) : Type 0 where
  pub count : r.0 ≡ min size ((s.inodes node.fs_specific).size - offset)
  pub bytes :
      (q : ℕ)
      → r.1.memory q
        ≡ written s.memory buffer r.0
            (λ j. s.memory ((s.inodes node.fs_specific).content + offset + j))
            q
  pub rest : r.1 ≡ record s { memory = r.1.memory }

-- memfs_read of a file with content, where `offset + size` does not wrap, reads as many bytes as
-- are asked for and lie between the offset and the end of the file, puts them into the buffer, and
-- changes nothing else. The buffer does not overlap the file behind the offset.
pub memfs_read-Reads :
    (s : Memfs) (node : Node) (offset size buffer : ℕ)
    → offset + size < word
    → (s.inodes node.fs_specific).content ≢ null
    → let i = s.inodes node.fs_specific in
      (buffer ≤ i.content + offset) ⊎ (i.content + offset + size ≤ buffer)
      → Reads s node offset size buffer (memfs_read s node offset size buffer)
unfolding memfs_read
memfs_read-Reads s node offset size buffer small held apart =
    let i = s.inodes node.fs_specific in
    let n = if ltb i.size ((offset + size) % word) then i.size - offset else size in
    record {
      count = ground arith;
      bytes = λ q.
          ground (arith, memcpy-written s.memory buffer (i.content + offset) n q (ground arith));
      rest = ground arith;
    }
