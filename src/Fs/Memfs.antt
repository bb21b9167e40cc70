-- ===== src/Fs/Memfs.antt =====
-- fs/memfs.c: the memory file system. `none` is a write through NULL, which happens where a result
-- of kmalloc is not checked, or a name that strcpy copies past the end of its array.
pub mod Dir
pub mod Grow
pub mod Read
pub mod Write
use basedos.Prelude.{
  ℕ, zero, suc, ◌+◌, ◌-◌, ◌*◌, ◌/◌, ◌%◌, ◌<◌, ◌≤◌, ltb, leb, ◌==◌, if◌then◌else◌, not, ◌&&◌, ◌||◌,
  List, [], ◌∷◌, Option, none, some, Bool, true, false, length,
}
use mathlib.Core.Option
use basedos.Memory.{Memory, null, in_range}
use basedos.Heap.{Heap, word, kmalloc, kfree}
use basedos.Str.Block.{memcpy, memset}
use basedos.Str.Text.{text_eq}
use basedos.Fs.{Node, node_size, fs_file, fs_directory}

-- memfs_inode_t; `parent`, `children` and `next` are addresses of inodes
pub record Inode : Type 0 where
  pub name : List ℕ
  pub size : ℕ
  pub content : ℕ
  pub is_dir : Bool
  pub parent : ℕ
  pub children : ℕ
  pub next : ℕ

-- dirent_t
pub record Dirent : Type 0 where
  pub d_ino : ℕ
  pub d_name : List ℕ

-- The static variables of memfs.c and dir_entry, the heap that it allocates from, the bytes in
-- memory, and the inodes by their address.
pub record Memfs : Type 0 where
  pub heap : Heap
  pub memory : Memory
  pub inodes : ℕ → Inode
  pub root_node : ℕ
  pub nodes : ℕ
  pub block_bitmap : ℕ
  pub blocks : ℕ
  pub dir_entry : Dirent

abbrev pub zero_inode : Inode
zero_inode = record {
  name = [];
  size = 0;
  content = null;
  is_dir = false;
  parent = null;
  children = null;
  next = null;
}

-- `*p = v` for an inode
abbrev pub store_inode : (ℕ → Inode) → ℕ → Inode → ℕ → Inode
store_inode inodes p v q = if p == q then v else inodes q

-- MAX_FILES * sizeof(memfs_inode_t), MAX_BLOCKS / 8 and MAX_BLOCKS * BLOCK_SIZE
abbrev pub nodes_size : ℕ
nodes_size = 64 * 28

abbrev pub bitmap_size : ℕ
bitmap_size = 1024 / 8

abbrev pub blocks_size : ℕ
blocks_size = 1024 * 4096

abbrev pub root_inode : Inode
root_inode = record zero_inode { name = b'/' ∷ []; is_dir = true }

-- memfs_initialize up to the registration. Clearing the nodes clears the inodes in their range, and
-- clearing the bitmap its bytes.
unfoldable pub memfs_initialize : Memfs → Option Memfs
memfs_initialize s =
    let (nodes, h) = kmalloc s.heap nodes_size in
    let (bitmap, h') = kmalloc h bitmap_size in
    let (blocks, h'') = kmalloc h' blocks_size in
    let cleared = λ (q : ℕ). if in_range nodes nodes_size q then zero_inode else s.inodes q in
    if nodes == null || bitmap == null
    then none
    else some (record s {
      heap = h'';
      memory = memset s.memory bitmap 0 bitmap_size;
      inodes = store_inode cleared nodes root_inode;
      root_node = nodes;
      nodes = nodes;
      block_bitmap = bitmap;
      blocks = blocks;
    })

-- memfs_mount: the root node, or NULL when there is no memory for it
unfoldable pub memfs_mount : Memfs → List ℕ → Option (Option Node × Memfs)
memfs_mount s device =
    let (p, h) = kmalloc s.heap node_size in
    let s' = record s { heap = h } in
    if p == null
    then some (none, s')
    else some (
      some (record {
        name = b'r' ∷ b'o' ∷ b'o' ∷ b't' ∷ [];
        mask = 0x1FF;
        uid = 0;
        gid = 0;
        flags = fs_directory;
        inode = 0;
        length = 0;
        read = true;
        write = true;
        opened = true;
        close = true;
        readdir = true;
        finddir = true;
        fs_specific = s.root_node;
      }),
      s',
    )

-- memfs_read: the number of bytes read, into the memory from `buffer` on
unfoldable pub memfs_read : Memfs → Node → ℕ → ℕ → ℕ → ℕ × Memfs
memfs_read s node offset size buffer =
    let i = s.inodes node.fs_specific in
    let n = if ltb i.size ((offset + size) % word) then i.size - offset else size in
    let memory =
      if i.content == null then s.memory else memcpy s.memory buffer (i.content + offset) n in
    if leb i.size offset then (0, s) else (n, record s { memory = memory })

-- memcpy to the offset `at` of a block; a byte written through NULL is the fault
unfoldable pub copy_to : Memory → ℕ → ℕ → ℕ → ℕ → Option Memory
copy_to m block at src n =
    if block == null && ltb 0 n then none else some (memcpy m (block + at) src n)

-- the reallocation of memfs_write: the inode with a block of `size` bytes that starts with the old
-- content
unfoldable pub grow : Memfs → Inode → ℕ → Option (Inode × Memfs)
unfolding copy_to
grow s i size =
    let (fresh, h) = kmalloc s.heap size in
    let i' = record i { content = fresh; size = size } in
    if i.content == null
    then some (i', record s { heap = h })
    else Option.map (λ m. (i', record s { heap = kfree h i.content; memory = m }))
        (copy_to s.memory fresh 0 i.content i.size)

-- `if (offset + size > inode->size)`: the inode with room for the bytes
unfoldable pub make_room : Memfs → Inode → ℕ → Option (Inode × Memfs)
unfolding grow
make_room s i end = if ltb i.size end then grow s i end else some (i, s)

-- memfs_write: the number of bytes written, from the memory at `buffer` on
unfoldable pub memfs_write : Memfs → Node → ℕ → ℕ → ℕ → Option (ℕ × Memfs)
memfs_write s node offset size buffer =
    let a = node.fs_specific in
    let store_bytes = λ (r : Inode × Memfs).
      Option.map (λ m. (size, record (r.1) { memory = m; inodes = store_inode r.1.inodes a r.0 }))
        (copy_to r.1.memory r.0.content offset buffer size) in
    if (s.inodes a).is_dir
    then some (0, s)
    else Option.bind (make_room s (s.inodes a) ((offset + size) % word)) store_bytes

-- memfs_open and memfs_close do nothing.
unfoldable pub memfs_open : Memfs → Node → ℕ → Memfs
memfs_open s node flags = s

pub memfs_close : Memfs → Node → Memfs
memfs_close s node = s

-- whether a name fits, with its terminator, into the 256 bytes of `d_name` in a dirent_t and of `name`
-- in a fs_node_t
abbrev pub fits_name : List ℕ → Bool
fits_name name = ltb (length name) 256

-- the loop of memfs_readdir, over the siblings from `child` on
skip : (ℕ → Inode) → ℕ → ℕ → ℕ
skip inodes child zero = child
skip inodes child (suc n) = if child == null then child else skip inodes (inodes child).next n

-- memfs_readdir: the address of dir_entry, which is not NULL, or NULL; `none` is a name that strcpy
-- copies past the end of `d_name`
unfoldable pub memfs_readdir : Memfs → Node → ℕ → Option (Option Dirent × Memfs)
unfolding skip
memfs_readdir s node index =
    let i = s.inodes node.fs_specific in
    let child = skip s.inodes i.children index in
    let entry : Dirent = record { d_ino = child; d_name = (s.inodes child).name } in
    if not i.is_dir
    then some (none, s)
    else if child == null
    then some (none, s)
    else if fits_name entry.d_name
    then some (some entry, record s { dir_entry = entry })
    else none

-- the node that memfs_finddir makes for an inode
abbrev pub node_of : ℕ → Inode → Node
node_of child i = record {
  name = i.name;
  mask = 0;
  uid = 0;
  gid = 0;
  flags = if i.is_dir then fs_directory else fs_file;
  inode = child;
  length = i.size;
  read = true;
  write = true;
  opened = true;
  close = true;
  readdir = i.is_dir;
  finddir = i.is_dir;
  fs_specific = child;
}

-- the loop of memfs_finddir over the siblings from `child` on: the first one of that name. `fuel`
-- bounds their number, and `none` says that it ran out.
unfoldable pub find_child : ℕ → (ℕ → Inode) → ℕ → List ℕ → Option ℕ
find_child zero inodes child name = none
find_child (suc fuel) inodes child name =
    let rest = find_child fuel inodes (inodes child).next name in
    if child == null
    then some null
    else if text_eq (inodes child).name name
    then some child
    else rest

-- memfs_finddir; `none` is a write through NULL, a name that strcpy copies past the end of the node's
-- array, or a list of siblings longer than the fuel
unfoldable pub memfs_finddir : ℕ → Memfs → Node → List ℕ → Option (Option Node × Memfs)
unfolding find_child
memfs_finddir fuel s node name =
    let i = s.inodes node.fs_specific in
    let (p, h) = kmalloc s.heap node_size in
    let found = λ (child : ℕ).
      if child == null
      then some (none, s)
      else if p == null
      then none
      else if fits_name (s.inodes child).name
      then some (some (node_of child (s.inodes child)), record s { heap = h })
      else none in
    if not i.is_dir
    then some (none, s)
    else Option.bind (find_child fuel s.inodes i.children name) found
