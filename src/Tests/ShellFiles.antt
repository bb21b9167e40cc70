-- ===== src/Tests/ShellFiles.antt =====
-- The commands of kernel/shell.c on files at concrete inputs.
use basedos.Prelude.{◌≡◌, refl, arith, [], ◌∷◌, some}
use basedos.Prelude.Int.{pos}
use basedos.Prelude.Text.{codes}
use mathlib.Core.Option
use basedos.Fs.{o_rdonly}
use basedos.Fs.Driver.{memfs}
use basedos.Fs.Memfs.{Memfs, memfs_finddir, find_child}
use basedos.Fs.Vfs.{Vfs, vfs_open, open_path, component_length, skip_component, vfs_finddir}
use basedos.Fs.Vfs.Fd.{find_free, open_file, close_file}
use basedos.Heap.{kmalloc}
use basedos.Shell.{print}
use basedos.Shell.Files.{cat, list_dir}
use basedos.Shell.Files.Listing.{show_names, list_dir-names}
use basedos.Shell.Files.Unreachable.{cat_blank}
use basedos.Shell.System.{done, System, on_shell, with_state}
use basedos.Str.Text.{index_of, text_eq}
use basedos.Tests.Fs.{inodes, root, entries, names_fit}
use basedos.Tests.Shell.{machine, fresh}
use basedos.Tests.Vfs.{vfs}

-- the machine with the files mounted at the root
abbrev with_files : System 9
with_files = record machine { vfs = vfs }

cat_blank_example :
    (v' : Vfs (memfs 9)) × (open_file (memfs 9) vfs (codes "/a") o_rdonly ≡ some (pos 2, v'))
    × (cat 9 1 0x100 (codes "cat" ∷ codes "/a" ∷ []) with_files
        ≡ some (
            done (record with_files {
              shell = print (codes "\n") fresh;
              vfs = (close_file (memfs 9) v' (pos 2)).1;
            })))
unfolding find_free vfs_open open_path component_length skip_component vfs_finddir memfs_finddir
    find_child index_of text_eq kmalloc Option.bind
cat_blank_example =
    cat_blank 9 with_files 0 0x100 (codes "cat") (codes "/a") [] 2 _ _ refl refl refl

list_dir-names_example :
    (s : Memfs) × (list_dir 9 2 root 0 with_files
      ≡ some (on_shell 9 (show_names inodes (0x901C ∷ [])) (with_state 9 s with_files)))
list_dir-names_example =
    list_dir-names 9 root inodes (0x901C ∷ []) refl refl entries names_fit 2 with_files refl
      (omega arith)
