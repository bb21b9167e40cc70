-- ===== src/Fs/Memfs/Grow.antt =====
-- The reallocation in memfs_write of fs/memfs.c.
use basedos.Prelude.{
  ℕ, ◌+◌, ◌%◌, ◌≤◌, ◌<◌, ◌≡◌, ◌⊎◌, refl, max, ap, sym, ◌∙◌, arith, ltb, ◌==◌, Bool-cases, inl, inr,
  true, false, some,
}
use basedos.Memory.{null, written}
use basedos.Heap
use basedos.Heap.{Heap, heap_size, word, kmalloc, kfree}
use basedos.Heap.Alloc.{kmalloc-Fits}
use basedos.Heap.Free.{kfree_keeps}
use basedos.Str.Block.{memcpy, memcpy-written}
use basedos.Fs.Memfs.{Memfs, Inode, copy_to, grow, make_room}

-- A file: its content is a block of the heap, or it has none and is empty.
pub record IsFile (s : Memfs) (i : Inode) : Type 0 where
  pub heap : Heap.IsValid s.heap
  pub file : i.is_dir ≡ false
  pub block :
      ((i.content ≡ null) × (i.size ≡ 0))
      ⊎ ((at : ℕ) × (i.content ≡ s.heap.base + at) × (at % 4 ≡ 0) × (at + i.size ≤ s.heap.pos))

-- what growing the file to `size` bytes leaves
record Grown (s : Memfs) (i : Inode) (size : ℕ) (r : Inode × Memfs) : Type 0 where
  inode : r.0 ≡ record i { content = s.heap.base + s.heap.pos; size = size }
  inodes : r.1.inodes ≡ s.inodes
  heap : r.1.heap ≡ (kmalloc s.heap size).1
  bytes :
      (q : ℕ)
      → r.1.memory q
        ≡ written s.memory (s.heap.base + s.heap.pos) i.size (λ j. s.memory (i.content + j)) q

grow_empty :
    (s : Memfs) (i : Inode) (size : ℕ)
    → IsFile s i
    → i.content ≡ null
    → i.size ≡ 0
    → s.heap.pos + size ≤ heap_size
    → (r : Inode × Memfs) × (grow s i size ≡ some r) × Grown s i size r
unfolding grow
grow_empty s i size f none_yet empty fits =
    let (p, h) = kmalloc s.heap size in
    let k = kmalloc-Fits s.heap size f.heap fits in
    let e : (i.content == null) ≡ true = ground arith in
    (
      (record i { content = p; size = size }, record s { heap = h }),
      rw e,
      record { inode = rw (k.start); inodes = refl; heap = refl; bytes = λ q. ground arith },
    )

grow_block :
    (s : Memfs) (i : Inode) (size at : ℕ)
    → IsFile s i
    → i.content ≡ s.heap.base + at
    → at % 4 ≡ 0
    → at + i.size ≤ s.heap.pos
    → s.heap.pos + size ≤ heap_size
    → (r : Inode × Memfs) × (grow s i size ≡ some r) × Grown s i size r
unfolding grow copy_to
grow_block s i size at f place aligned inside fits =
    let (p, h) = kmalloc s.heap size in
    let k = kmalloc-Fits s.heap size f.heap fits in
    let held : (i.content == null) ≡ false = ground (arith, f.heap.placed) in
    let got : (p == null) ≡ false = ground (arith, k.not_null) in
    let kept : kfree h i.content ≡ h =
      ap (kfree h) (place ∙ ap (λ b. b + at) (sym k.grows.base))
      ∙ kfree_keeps h at k.grows.valid (omega (arith, f.heap.in_heap)) aligned in
    (
      (
        record i { content = p; size = size },
        record s { heap = kfree h i.content; memory = memcpy s.memory (p + 0) i.content i.size },
      ),
      rw (held, got),
      record {
        inode = rw (k.start);
        inodes = refl;
        heap = kept;
        bytes = λ q. ground (
          arith,
          k.start,
          memcpy-written s.memory (p + 0) i.content i.size q (inr (omega (arith, k.start))),
        );
      },
    )

grow-Grown :
    (s : Memfs) (i : Inode) (size : ℕ)
    → IsFile s i
    → s.heap.pos + size ≤ heap_size
    → (r : Inode × Memfs) × (grow s i size ≡ some r) × Grown s i size r
grow-Grown s i size f fits = elim f.block [
  | inl (held, empty) ↦ grow_empty s i size f held empty fits
  | inr (at, place, aligned, inside) ↦ grow_block s i size at f place aligned inside fits
]

-- a block of the heap: the inode's content is at a multiple of four from its start
pub record IsBlock (s : Memfs) (i : Inode) : Type 0 where
  pub at : ℕ
  pub place : i.content ≡ s.heap.base + at
  pub aligned : at % 4 ≡ 0
  pub inside : at + i.size ≤ s.heap.pos

-- a file that holds bytes has a block
pub bytes-IsBlock : (s : Memfs) (i : Inode) → IsFile s i → 0 < i.size → IsBlock s i
bytes-IsBlock s i f some_bytes = elim f.block [
  | inl (held, empty) ↦ absurd (omega (arith, empty))
  | inr (at, place, aligned, inside) ↦ record {
    at = at;
    place = place;
    aligned = aligned;
    inside = inside;
  }
]

-- what make_room leaves: room for `end` bytes in a block, the old bytes in it
pub record HasRoom (s : Memfs) (i : Inode) (end : ℕ) (r : Inode × Memfs) : Type 0 where
  pub heap : Heap.IsValid r.1.heap
  pub base : r.1.heap.base ≡ s.heap.base
  pub file : r.0.is_dir ≡ false
  pub block : IsBlock r.1 r.0
  pub size : r.0.size ≡ max i.size end
  pub bytes : (j : ℕ) → j < i.size → r.1.memory (r.0.content + j) ≡ s.memory (i.content + j)
  pub outside :
      (q : ℕ) → (q < s.heap.base) ⊎ (s.heap.base + heap_size ≤ q) → r.1.memory q ≡ s.memory q
  pub inodes : r.1.inodes ≡ s.inodes

Grown-HasRoom :
    (s : Memfs) (i : Inode) (end : ℕ) (r : Inode × Memfs)
    → IsFile s i
    → i.size < end
    → s.heap.pos + end ≤ heap_size
    → Grown s i end r
    → HasRoom s i end r
Grown-HasRoom s i end r f more fits g =
    let k = kmalloc-Fits s.heap end f.heap fits in
    record {
      heap = rw g.heap k.grows.valid;
      base = rw g.heap k.grows.base;
      file = rw g.inode f.file;
      block = record {
        at = s.heap.pos;
        place = rw (g.inode, g.heap, k.grows.base);
        aligned = f.heap.aligned;
        inside = rw (g.inode, g.heap) (omega (arith, k.block, k.start, k.grows.base));
      };
      size = rw g.inode (omega arith);
      bytes = λ j lt. rw g.inode (ground (arith, g.bytes (s.heap.base + s.heap.pos + j)));
      outside = λ q out. ground (arith, g.bytes q, f.heap.in_heap);
      inodes = g.inodes;
    }

pub make_room-HasRoom :
    (s : Memfs) (i : Inode) (end : ℕ)
    → IsFile s i
    → 0 < end
    → s.heap.pos + end ≤ heap_size
    → (r : Inode × Memfs) × (make_room s i end ≡ some r) × HasRoom s i end r
unfolding make_room
make_room-HasRoom s i end f some_bytes fits = elim (Bool-cases (ltb i.size end)) [
  | inl more ↦
      let (r, run, g) = grow-Grown s i end f fits in
      (r, rw more run, Grown-HasRoom s i end r f (ground arith) fits g)
  | inr enough ↦ (
    (i, s),
    rw enough,
    record {
      heap = f.heap;
      base = refl;
      file = f.file;
      block = bytes-IsBlock s i f (ground arith);
      size = ground arith;
      bytes = λ j lt. refl;
      outside = λ q out. refl;
      inodes = refl;
    },
  )
]
