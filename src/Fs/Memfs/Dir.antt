-- ===== src/Fs/Memfs/Dir.antt =====
-- The directories of fs/memfs.c: how memfs_readdir and memfs_finddir go through the children.
use mathlib.Core.Option
use basedos.Prelude.{
  ℕ, zero, suc, ◌<◌, ◌≡◌, ◌≢◌, ◌⊎◌, refl, arith, ◌==◌, if◌then◌else◌, List, [], ◌∷◌, Option, none,
  some, true, false, not, length, get_elem?, get_or, Bool-cases, inl, inr,
}
use basedos.Memory.{null}
use basedos.Str.Text.{text_eq, text_eq_iff}
use basedos.Heap.{kmalloc}
use basedos.Fs.{Node, node_size}
use basedos.Fs.Memfs.{
  Memfs, Inode, skip, find_child, fits_name, memfs_readdir, memfs_finddir, node_of,
}

-- From `p` on the `next` pointers lead through the inodes at the addresses `kids` to NULL.
pub data Chain (inodes : ℕ → Inode) : ℕ → List ℕ → Type 0 where
  end : Chain inodes null []
  link :
      {p : ℕ} {kids : List ℕ}
      → p ≢ null
      → Chain inodes (inodes p).next kids
      → Chain inodes p (p ∷ kids)

-- the first of the inodes with that name, NULL if there is none
pub first_named : (ℕ → Inode) → List ℕ → List ℕ → ℕ
first_named inodes [] name = null
first_named inodes (p ∷ kids) name =
    if text_eq (inodes p).name name then p else first_named inodes kids name

skip-null : (inodes : ℕ → Inode) (n : ℕ) → skip inodes null n ≡ null
unfolding skip
skip-null inodes zero = refl
skip-null inodes (suc n) = refl

skip-get_or :
    (inodes : ℕ → Inode) (p : ℕ) (kids : List ℕ) (n : ℕ)
    → Chain inodes p kids
    → skip inodes p n ≡ get_or kids n null
unfolding skip
skip-get_or inodes p kids n end = skip-null inodes n
skip-get_or inodes p kids zero (link h c) = refl
skip-get_or inodes p kids (suc n) (link h c) =
    ground (arith, skip-get_or inodes (inodes p).next _ n c)

find_child-first_named :
    (fuel : ℕ) (inodes : ℕ → Inode) (p : ℕ) (kids name : List ℕ)
    → Chain inodes p kids
    → length kids < fuel
    → find_child fuel inodes p name ≡ some (first_named inodes kids name)
unfolding find_child first_named
find_child-first_named zero inodes p kids name c h = absurd (omega arith)
find_child-first_named (suc fuel) inodes p kids name end h = refl
find_child-first_named (suc fuel) inodes p kids name (link {kids = rest} ne c) h =
    ground (arith, find_child-first_named fuel inodes (inodes p).next rest name c)

-- The name of each child fits into the 256 bytes that memfs_readdir copies it to.
abbrev pub NamesFit : (ℕ → Inode) → List ℕ → Type 0
NamesFit inodes [] = Unit {0}
NamesFit inodes (p ∷ kids) = (length (inodes p).name < 256) × NamesFit inodes kids

-- the child of a number, NULL beyond the last one
child_at :
    (inodes : ℕ → Inode) (p : ℕ) (kids : List ℕ) (n : ℕ)
    → Chain inodes p kids
    → NamesFit inodes kids
    → ((get_elem? kids n ≡ none) × (get_or kids n null ≡ null))
      ⊎ ((child : ℕ) × (get_elem? kids n ≡ some child)
          × (get_or kids n null ≡ child)
          × ((child == null) ≡ false)
          × (fits_name (inodes child).name ≡ true))
child_at inodes p kids n end f = inl (refl, refl)
child_at inodes p kids zero (link ne c) f = inr (p, refl, refl, ground arith, ground arith)
child_at inodes p kids (suc n) (link ne c) f = child_at inodes (inodes p).next _ n c f.1

-- memfs_readdir of a directory, whose names are shorter than 256 bytes, ends at index `n` with NULL
-- exactly when it has no child of that number; otherwise it gives the child's address and name. Of a
-- file it gives NULL. It changes no inode.
pub memfs_readdir_lem :
    (s : Memfs) (node : Node) (kids : List ℕ) (n : ℕ)
    → let i = s.inodes node.fs_specific in
      Chain s.inodes i.children kids
      → NamesFit s.inodes kids
      → (s' : Memfs) × (memfs_readdir s node n
          ≡ some (
            (if not i.is_dir then none else elim (get_elem? kids n) [
              | none ↦ none
              | some child ↦ some (record { d_ino = child; d_name = (s.inodes child).name })
            ]),
            s',
          ))
        × (s'.inodes ≡ s.inodes)
unfolding memfs_readdir
memfs_readdir_lem s node kids n c f =
    let i = s.inodes node.fs_specific in
    let skipped = skip-get_or s.inodes i.children kids n c in
    elim (Bool-cases i.is_dir) [
      | inl dir ↦ elim (child_at s.inodes i.children kids n c f) [
        | inl (past, got) ↦ (s, simp (dir, skipped, past, got), refl)
        | inr (child, at, got, held, fit) ↦ (
          record s { dir_entry = record { d_ino = child; d_name = (s.inodes child).name } },
          simp (dir, skipped, at, got, held, fit),
          refl,
        )
      ]
      | inr file ↦ (s, simp file, refl)
    ]

-- the node of the inode `i` at the address `child`: its name, its size, its flags, FS_DIRECTORY (2) or
-- FS_FILE (1), which functions it has, and no permissions and no owner
pub record IsNodeOf (child : ℕ) (i : Inode) (node : Node) : Type 0 where
  pub name : node.name ≡ i.name
  pub size : node.length ≡ i.size
  pub inode : (node.inode ≡ child) × (node.fs_specific ≡ child)
  pub kind : ((i.is_dir ≡ true) × (node.flags ≡ 2)) ⊎ ((i.is_dir ≡ false) × (node.flags ≡ 1))
  pub owner : (node.mask ≡ 0) × (node.uid ≡ 0) × (node.gid ≡ 0)
  pub data_functions :
      (node.read ≡ true) × (node.write ≡ true) × (node.opened ≡ true) × (node.close ≡ true)
  pub directory_functions : (node.readdir ≡ i.is_dir) × (node.finddir ≡ i.is_dir)

-- what a search for `name` among the children `kids` gives
abbrev pub IsFound : (ℕ → Inode) → List ℕ → List ℕ → Option Node → Type 0
IsFound inodes kids name none = first_named inodes kids name ≡ null
IsFound inodes kids name (some node) =
    (first_named inodes kids name ≢ null)
    × ((inodes node.inode).name ≡ name)
    × IsNodeOf (first_named inodes kids name) (inodes node.inode) node

node_of-IsNodeOf : (child : ℕ) (i : Inode) → IsNodeOf child i (node_of child i)
node_of-IsNodeOf child i = record {
  name = refl;
  size = refl;
  inode = (refl, refl);
  kind = elim (Bool-cases i.is_dir) [
    | inl dir ↦ inl (dir, rw dir refl)
    | inr file ↦ inr (file, rw file refl)
  ];
  owner = (refl, refl, refl);
  data_functions = (refl, refl, refl, refl);
  directory_functions = (refl, refl);
}

first_named-name :
    (inodes : ℕ → Inode) (kids name : List ℕ)
    → first_named inodes kids name ≢ null
    → (inodes (first_named inodes kids name)).name ≡ name
unfolding first_named
first_named-name inodes [] name h = absurd (h refl)
first_named-name inodes (p ∷ kids) name h = elim (Bool-cases (text_eq (inodes p).name name)) [
  | inl e ↦ rw e ((text_eq_iff (inodes p).name name).0 e)
  | inr e ↦ rw e (first_named-name inodes kids name (λ z. h (rw e z)))
]

-- memfs_finddir of a directory, for a name shorter than 256 bytes, while there is memory for a node, and
-- with more fuel than the directory has children, ends. It gives NULL where no child has the name, and
-- otherwise a node of the first one that has: with the inode's name and size, the flags FS_DIRECTORY or
-- FS_FILE by its kind, and readdir and finddir only for a directory. It changes no inode.
pub memfs_finddir_lem :
    (fuel : ℕ) (s : Memfs) (node : Node) (kids name : List ℕ)
    → let i = s.inodes node.fs_specific in
      Chain s.inodes i.children kids
      → length kids < fuel
      → length name < 256
      → i.is_dir ≡ true
      → (kmalloc s.heap node_size).0 ≢ null
      → (r : Option Node × Memfs) × (memfs_finddir fuel s node name ≡ some r)
        × IsFound s.inodes kids name r.0
        × (r.1.inodes ≡ s.inodes)
unfolding memfs_finddir Option.bind
memfs_finddir_lem fuel s node kids name c h short dir memory =
    let i = s.inodes node.fs_specific in
    let (p, heap) = kmalloc s.heap node_size in
    let child = first_named s.inodes kids name in
    let found = find_child-first_named fuel s.inodes i.children kids name c h in
    let held : (p == null) ≡ false = ground arith in
    elim (Bool-cases (child == null)) [
      | inl missing ↦ ((none, s), simp (dir, found, missing), ground arith, refl)
      | inr there ↦
          let ne : child ≢ null = ground arith in
          let named = first_named-name s.inodes kids name ne in
          let fit : fits_name (s.inodes child).name ≡ true = rw named (ground arith) in
          (
            (some (node_of child (s.inodes child)), record s { heap = heap }),
            simp (dir, found, there, held, fit),
            (ne, named, node_of-IsNodeOf child (s.inodes child)),
            refl,
          )
    ]
