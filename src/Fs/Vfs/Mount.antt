-- ===== src/Fs/Vfs/Mount.antt =====
-- What vfs_initialize and vfs_mount of fs/vfs.c leave to find.
use basedos.Prelude.{ℕ, ◌≡◌, refl, ◌∙◌, arith, List, ◌∷◌, none, some}
use basedos.Prelude.Int.{ℤ}
use basedos.Fs.Vfs.{
  Driver, Filesystem, Vfs, bare_root, vfs_initialize, register_filesystem, vfs_mount, vfs_open,
}
use basedos.Fs.Vfs.Fd.{failed, open_file}
use basedos.Fs.Vfs.Fd.Laws.{open_file-null}
use basedos.Fs.Vfs.Path.{components_cut, vfs_open-walk, walk_bare}

module _ (d : Driver) where
  initialize_root : (v w : Vfs d) → vfs_initialize d v ≡ some w → w.fs_root ≡ some bare_root
  unfolding vfs_initialize
  initialize_root v w h = ground arith

  register_root : (w : Vfs d) (fs : Filesystem d) → (register_filesystem d w fs).fs_root ≡ w.fs_root
  unfolding register_filesystem
  register_root w fs = ground arith

  -- A mount, wherever and of whatever, leaves the global root as it was.
  mount_root :
      (v v' : Vfs d) (device mountpoint fs_type : List ℕ) (r : ℤ)
      → vfs_mount d v device mountpoint fs_type ≡ some (r, v')
      → v'.fs_root ≡ v.fs_root
  unfolding vfs_mount
  mount_root v v' device mountpoint fs_type r h = ground arith

  pub open_bare :
      (v : Vfs d) (c : ℕ) (path : List ℕ) (flags : ℕ)
      → v.fs_root ≡ some bare_root
      → vfs_open d v (b'/' ∷ c ∷ path) flags ≡ some (none, v)
  open_bare v c path flags h =
      vfs_open-walk d v bare_root (c ∷ path) flags h ∙ rw (components_cut c path, walk_bare) refl

  -- After vfs_initialize, whatever file system is registered and mounted, vfs_open finds nothing but
  -- the root itself: every longer path gives NULL, and open gives -1 for it.
  pub nothing_opens :
      (v w v' : Vfs d) (fs : Filesystem d) (device mountpoint fs_type : List ℕ) (r : ℤ)
      → vfs_initialize d v ≡ some w
      → vfs_mount d (register_filesystem d w fs) device mountpoint fs_type ≡ some (r, v')
      → (c : ℕ) (path : List ℕ) (flags : ℕ)
      → (vfs_open d v' (b'/' ∷ c ∷ path) flags ≡ some (none, v'))
        × (open_file d v' (b'/' ∷ c ∷ path) flags ≡ some (failed, v'))
  nothing_opens v w v' fs device mountpoint fs_type r started mounted c path flags =
      let root =
        mount_root (register_filesystem d w fs) v' device mountpoint fs_type r mounted
        ∙ register_root w fs
        ∙ initialize_root v w started in
      (
        open_bare v' c path flags root,
        open_file-null d v' (b'/' ∷ c ∷ path) flags (open_bare v' c path flags root),
      )
