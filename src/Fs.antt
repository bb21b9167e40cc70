-- ===== src/Fs.antt =====
-- include/fs/vfs.h: the types that the virtual file system and its drivers share.
pub mod Driver
pub mod Memfs
pub mod Start
pub mod Vfs
use basedos.Prelude.{ℕ, Bool, List, ◌/◌, ◌%◌, ◌^◌, ◌==◌}

-- FS_FILE and FS_DIRECTORY
abbrev pub fs_file : ℕ
fs_file = 1

abbrev pub fs_directory : ℕ
fs_directory = 2

-- O_WRONLY, O_RDWR and O_CREAT are single bits; O_RDONLY is no bit at all.
abbrev pub o_rdonly : ℕ
o_rdonly = 0

abbrev pub o_wronly : ℕ
o_wronly = 1

abbrev pub o_rdwr : ℕ
o_rdwr = 2

abbrev pub o_creat : ℕ
o_creat = 0x100

-- whether bit `k` of `flags` is set
abbrev pub has_bit : ℕ → ℕ → Bool
has_bit flags k = flags / 2 ^ k % 2 == 1

-- fs_node_t. Nothing changes a node once it is made, so it stands for the pointer to it. A function
-- pointer is either NULL or the driver's function of that name: the field says whether it is set.
pub record Node : Type 0 where
  pub name : List ℕ
  pub mask : ℕ
  pub uid : ℕ
  pub gid : ℕ
  pub flags : ℕ
  pub inode : ℕ
  pub length : ℕ
  pub read : Bool
  pub write : Bool
  pub opened : Bool
  pub close : Bool
  pub readdir : Bool
  pub finddir : Bool
  pub fs_specific : ℕ

-- sizeof(fs_node_t): a name of 256 bytes, seven words, six function pointers and a pointer
abbrev pub node_size : ℕ
node_size = 312
