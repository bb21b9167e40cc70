-- ===== src/Fs/Vfs.antt =====
-- fs/vfs.c: nodes found by path, mounts and file descriptors, over a driver such as fs/memfs.c.
pub mod Fd
pub mod Mount
pub mod Path
use mathlib.Core.Option
use basedos.Prelude.{
  ℕ, zero, suc, ◌+◌, ◌-◌, ◌*◌, ◌/◌, ◌%◌, ◌^◌, ◌<◌, ltb, leb, ◌==◌, if◌then◌else◌, not, ◌&&◌, ◌||◌,
  List, [], ◌∷◌, ◌++◌, Option, none, some, Bool, true, false, length, take, drop, get_elem?, set,
  replicate,
}
use basedos.Prelude.Int.{ℤ, pos, negsuc}
use basedos.Str.Text.{index_of, text_eq}
use basedos.Fs.{Node, fs_directory, o_rdonly, has_bit, node_size}

-- A driver: the functions behind the pointers of its nodes, over the state that they share, and
-- the kmalloc of the node of vfs_initialize. `none` is a fault of the driver.
pub record Driver : Type 1 where
  pub State : Type 0
  pub Dirent : Type 0
  pub kmalloc : State → ℕ → ℕ × State
  pub read : State → Node → ℕ → ℕ → ℕ → Option (ℕ × State)
  pub write : State → Node → ℕ → ℕ → ℕ → Option (ℕ × State)
  pub opened : State → Node → ℕ → State
  pub close : State → Node → State
  pub readdir : State → Node → ℕ → Option (Option Dirent × State)
  pub finddir : State → Node → List ℕ → Option (Option Node × State)

-- file_descriptor_t; the slot is free when `node` is NULL
pub record Descriptor : Type 0 where
  pub node : Option Node
  pub pos : ℕ
  pub flags : ℕ

abbrev pub free_slot : Descriptor
free_slot = record { node = none; pos = 0; flags = 0 }

-- MAX_FILE_DESCRIPTORS and MAX_FILESYSTEMS
abbrev pub max_descriptors : ℕ
max_descriptors = 64

abbrev pub max_filesystems : ℕ
max_filesystems = 8

-- the root node that vfs_initialize makes: a directory with no function
abbrev pub bare_root : Node
bare_root = record {
  name = b'r' ∷ b'o' ∷ b'o' ∷ b't' ∷ [];
  mask = 0x1FF;
  uid = 0;
  gid = 0;
  flags = fs_directory;
  inode = 0;
  length = 0;
  read = false;
  write = false;
  opened = false;
  close = false;
  readdir = false;
  finddir = false;
  fs_specific = 0;
}

-- an `int32_t` from its bit pattern
abbrev pub signed : ℕ → ℤ
signed w = if ltb w (2 ^ 31) then pos w else negsuc (2 ^ 32 - w - 1)

-- the component at the front of a path: up to the first `/`, or all of it
unfoldable pub component_length : List ℕ → ℕ
component_length path = elim (index_of b'/' path) [ some i ↦ i | none ↦ length path ]

-- `path += len; if (*path == '/') path++;`
unfoldable pub skip_component : List ℕ → ℕ → List ℕ
skip_component path len = elim (drop len path) [
  | [] ↦ []
  | c ∷ rest ↦ if c == b'/' then rest else c ∷ rest
]

module _ (d : Driver) where
  open d use {State, Dirent}

  -- filesystem_ops_t; `unmount` is never called
  pub record Filesystem : Type 0 where
    pub name : List ℕ
    pub mount : State → List ℕ → Option (Option Node × State)

  -- the variables of vfs.c over the driver's state
  pub record Vfs : Type 0 where
    pub state : State
    pub fs_root : Option Node
    pub descriptors : List Descriptor
    pub next_fd : ℕ
    pub filesystems : List Filesystem

  -- vfs_initialize; `none` when there is no memory for the root node
  unfoldable pub vfs_initialize : Vfs → Option Vfs
  vfs_initialize v =
      let (p, s) = d.kmalloc v.state node_size in
      if p == 0
      then none
      else some (record {
        state = s;
        fs_root = some bare_root;
        descriptors = replicate max_descriptors free_slot;
        next_fd = 0;
        filesystems = [];
      })

  unfoldable pub register_filesystem : Vfs → Filesystem → Vfs
  register_filesystem v fs =
      if leb max_filesystems (length v.filesystems)
      then v
      else record v { filesystems = v.filesystems ++ fs ∷ [] }

  unfoldable pub find_filesystem : List Filesystem → List ℕ → Option Filesystem
  find_filesystem [] fs_type = none
  find_filesystem (fs ∷ rest) fs_type =
      if text_eq fs.name fs_type then some fs else find_filesystem rest fs_type

  -- vfs_mount. The variable that the code sets on a mount at `/` is a local one of the same name as
  -- the global root, so that all it does there is to set a flag of the mounted node.
  unfoldable pub vfs_mount : Vfs → List ℕ → List ℕ → List ℕ → Option (ℤ × Vfs)
  unfolding find_filesystem
  vfs_mount v device mountpoint fs_type = elim (find_filesystem v.filesystems fs_type) [
    | none ↦ some (negsuc 0, v)
    | some fs ↦
        Option.map
          (λ r. elim r.0 [
            | none ↦ (negsuc 0, record v { state = r.1 })
            | some root ↦ (pos 0, record v { state = r.1 })
          ])
          (fs.mount v.state device)
  ]

  -- vfs_finddir: only a directory is asked, and only if it has the function
  unfoldable pub vfs_finddir : State → Node → List ℕ → Option (Option Node × State)
  vfs_finddir s node name =
      if node.flags % 8 == fs_directory && node.finddir
      then d.finddir s node name
      else some (none, s)

  -- the step from a directory to the node found in it; NULL ends the search
  abbrev pub follow :
      Option (Option Node × State)
      → (State → Node → Option (Option Node × State))
      → Option (Option Node × State)
  follow none k = none
  follow (some (none, s)) k = some (none, s)
  follow (some (some node, s)) k = k s node

  -- the loop of vfs_open over the path that is left; a fault of the driver, or fuel that runs out,
  -- is `none`
  unfoldable pub open_path : ℕ → State → Node → List ℕ → Option (Option Node × State)
  open_path fuel s current [] = some (some current, s)
  open_path zero s current (c ∷ path) = none
  open_path (suc fuel) s current (c ∷ path) =
      let len = component_length (c ∷ path) in
      let next = vfs_finddir s current (take len (c ∷ path)) in
      let rest = skip_component (c ∷ path) len in
      if leb 256 len then some (none, s) else follow next (λ s' node. open_path fuel s' node rest)

  -- vfs_open: only an absolute path is followed, from the root. With O_CREAT the code returns NULL for
  -- a name that is not found, as it does without. A root that is NULL is only returned.
  unfoldable pub vfs_open : Vfs → List ℕ → ℕ → Option (Option Node × Vfs)
  unfolding open_path
  vfs_open v [] flags = some (none, v)
  vfs_open v (c ∷ path) flags =
      let from = λ (root : Node).
        Option.map (λ r. (r.0, record v { state = r.1 }))
          (open_path (length path) v.state root path) in
      if not (c == b'/') then some (none, v) else elim v.fs_root [
        | none ↦ elim path [ [] ↦ some (none, v) | _ ∷ _ ↦ none ]
        | some root ↦ from root
      ]
