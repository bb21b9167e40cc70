-- ===== src/Shell/Files/Unreachable.antt =====
-- What the commands of kernel/shell.c cannot reach.
use basedos.Prelude.{ℕ, suc, ◌≡◌, refl, ap, sym, List, [], ◌∷◌, Option, some}
use basedos.Prelude.Int.{pos}
use basedos.Prelude.Text.{codes}
use mathlib.Core.Option
use basedos.Fs.{Node, o_rdonly}
use basedos.Fs.Driver.{memfs}
use basedos.Fs.Vfs.{Vfs, bare_root, vfs_open, vfs_finddir, open_path}
use basedos.Fs.Vfs.Fd.{find_free, open_file, close_file, vfs_readdir, vfs_close}
use basedos.Fs.Vfs.Fd.Laws.{HasTable, open_file_lem, read_refused}
use basedos.Shell.{print, print_all, print_error}
use basedos.Shell.Files.{change_directory, cd, list_dir, list_opened, ls, cat_loop, cat_opened, cat}
use basedos.Shell.System.{done, System, on_shell}

module _ (n : ℕ) where
  -- With the root that vfs_initialize makes, which a mount does not replace, cd refuses every path, `/`
  -- itself too, and keeps the directory; ls finds no entry in `/`.
  pub bare_root_lem :
      (sys : System n) (path : List ℕ) (fuel : ℕ)
      → sys.vfs.fs_root ≡ some bare_root
      → (cd n path sys
          ≡ some (
              done (
                on_shell n
                  (λ s.
                    record (print_all
                      (path ∷ codes "\n" ∷ [])
                      (print_error (codes "No such directory: ") s)) { last_exit_code = 1 })
                  sys)))
        × (ls n (suc fuel) sys ≡ some (done (on_shell n (print (codes "Contents of /\n")) sys)))
  unfolding cd change_directory vfs_finddir Option.bind ls list_opened list_dir vfs_open open_path
      vfs_readdir vfs_close
  bare_root_lem sys path fuel h =
      let listed = λ (root : Option Node). some (
        done (record sys {
          shell = print (codes "Contents of /\n") sys.shell;
          vfs = record sys.vfs { fs_root = root };
        })) in
      (rw h refl, simp h (ap listed (sym h)))

  -- cat of a file that can be opened, while a descriptor is free, prints nothing of it but the end of a
  -- line, and ends: the code opens it with O_RDONLY, and read refuses that.
  pub cat_blank :
      (sys : System n) (fuel buffer : ℕ) (cmd name : List ℕ) (args : List (List ℕ)) (i : ℕ)
      (node : Node) (w : Vfs (memfs n))
      → HasTable sys.vfs.descriptors
      → find_free sys.vfs.descriptors 0 ≡ some i
      → vfs_open (memfs n) sys.vfs name o_rdonly ≡ some (some node, w)
      → (v' : Vfs (memfs n)) × (open_file (memfs n) sys.vfs name o_rdonly ≡ some (pos i, v'))
        × (cat n (suc fuel) buffer (cmd ∷ name ∷ args) sys
            ≡ some (
                done (record sys {
                  shell = print (codes "\n") sys.shell;
                  vfs = (close_file (memfs n) v' (pos i)).1;
                })))
  unfolding cat cat_opened cat_loop Option.bind
  cat_blank sys fuel buffer cmd name args i node w table free found =
      let (v', opened, unused, slot, others, size) =
        open_file_lem (memfs n) sys.vfs table name o_rdonly i node w free found in
      let refused = read_refused (memfs n) v' (pos i) i _ node buffer 1023 slot refl in
      (v', opened, rw (opened, refused) refl)
