-- ===== src/Shell/Files/Listing.antt =====
-- ls of kernel/shell.c on a directory of fs/memfs.c.
use basedos.Prelude.{
  ℕ, zero, suc, ◌+◌, ◌<◌, ◌≡◌, refl, ◌∙◌, ap, arith, List, [], ◌∷◌, Option, none, some, true,
  length, get_elem?,
}
use basedos.Prelude.Text.{codes}
use mathlib.Core.Option
use basedos.Fs.{Node}
use basedos.Fs.Memfs.{Memfs, Inode, memfs_readdir}
use basedos.Fs.Driver.{memfs}
use basedos.Fs.Memfs
use basedos.Fs.Memfs.Dir.{Chain, NamesFit, memfs_readdir_lem}
use basedos.Fs.Vfs.Fd.{vfs_readdir}
use basedos.Shell.{Shell, print_all}
use basedos.Shell.Files.{list_dir}
use basedos.Shell.System.{System, on_shell, with_state}

-- the lines of a listing
unfoldable pub show_names : (ℕ → Inode) → List ℕ → Shell → Shell
show_names inodes [] s = s
show_names inodes (kid ∷ kids) s =
    show_names inodes kids (print_all (codes "  " ∷ (inodes kid).name ∷ codes "\n" ∷ []) s)

module _ (n : ℕ) (dir : Node) where
  -- the rest of the loop, once the entry was read
  abbrev with_entry :
      (fuel i : ℕ) → System n → Option (Option Memfs.Dirent × Memfs) → Option (System n)
  with_entry fuel i sys none = none
  with_entry fuel i sys (some (none, s)) = some (with_state n s sys)
  with_entry fuel i sys (some (some e, s)) =
      list_dir n fuel dir (suc i)
        (on_shell n (print_all (codes "  " ∷ e.d_name ∷ codes "\n" ∷ [])) (with_state n s sys))

  vfs_readdir-set :
      (s : Memfs) (i : ℕ)
      → dir.readdir ≡ true
      → vfs_readdir (memfs n) s dir i ≡ memfs_readdir s dir i
  unfolding vfs_readdir
  vfs_readdir-set s i d = rw d refl

  list_dir-step :
      (fuel i : ℕ) (sys : System n) (r : Option (Option Memfs.Dirent × Memfs))
      → dir.readdir ≡ true
      → memfs_readdir sys.vfs.state dir i ≡ r
      → list_dir n (suc fuel) dir i sys ≡ with_entry fuel i sys r
  unfolding list_dir Option.bind
  list_dir-step fuel i sys none d e = rw (vfs_readdir-set sys.vfs.state i d ∙ e) refl
  list_dir-step fuel i sys (some (none, s)) d e = rw (vfs_readdir-set sys.vfs.state i d ∙ e) refl
  list_dir-step fuel i sys (some (some entry, s)) d e =
      rw (vfs_readdir-set sys.vfs.state i d ∙ e) refl

  module _ (inodes : ℕ → Inode) (kids : List ℕ) (r : dir.readdir ≡ true)
      (d : (inodes dir.fs_specific).is_dir ≡ true)
      (c : Chain inodes (inodes dir.fs_specific).children kids) (f : NamesFit inodes kids) where
    list_from :
        (fuel i : ℕ) (rest : List ℕ) (sys : System n)
        → sys.vfs.state.inodes ≡ inodes
        → ((j : ℕ) → get_elem? kids (i + j) ≡ get_elem? rest j)
        → length rest < fuel
        → (s : Memfs) × (list_dir n fuel dir i sys
            ≡ some (on_shell n (show_names inodes rest) (with_state n s sys)))
    unfolding show_names
    list_from zero i rest sys e same h = absurd (omega arith)
    list_from (suc fuel) i [] sys e same h =
        let past : get_elem? kids i ≡ none = ap (get_elem? kids) (omega arith) ∙ same 0 in
        let (s, read, kept) = memfs_readdir_lem sys.vfs.state dir kids i (rw e c) (rw e f) in
        (s, list_dir-step fuel i sys (some (none, s)) r (read ∙ rw (e, d, past) refl))
    list_from (suc fuel) i (kid ∷ rest) sys e same h =
        let here : get_elem? kids i ≡ some kid = ap (get_elem? kids) (omega arith) ∙ same 0 in
        let entry : Memfs.Dirent = record { d_ino = kid; d_name = (inodes kid).name } in
        let (s, read, kept) = memfs_readdir_lem sys.vfs.state dir kids i (rw e c) (rw e f) in
        let (s', run) =
          list_from fuel (suc i) rest
            (on_shell n (print_all (codes "  " ∷ (inodes kid).name ∷ codes "\n" ∷ []))
              (with_state n s sys))
            (kept ∙ e) (λ j. ap (get_elem? kids) (omega arith) ∙ same (suc j)) (omega arith) in
        let named =
          λ (g : ℕ → Inode). some (some (record { d_ino = kid; d_name = (g kid).name }), s) in
        (
          s',
          list_dir-step fuel i sys (some (some entry, s)) r (read ∙ rw (e, d, here) (ap named e))
              ∙ run,
        )

    -- The loop of ls over a directory of memfs whose names are shorter than 256 bytes ends when it has
    -- more fuel than the directory has entries. It prints the name of each entry on a line, in the
    -- order of the directory.
    pub list_dir-names :
        (fuel : ℕ) (sys : System n)
        → sys.vfs.state.inodes ≡ inodes
        → length kids < fuel
        → (s : Memfs) × (list_dir n fuel dir 0 sys
            ≡ some (on_shell n (show_names inodes kids) (with_state n s sys)))
    list_dir-names fuel sys e h =
        list_from fuel 0 kids sys e (λ j. ap (get_elem? kids) (omega arith)) h
