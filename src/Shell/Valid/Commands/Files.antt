-- ===== src/Shell/Valid/Commands/Files.antt =====
-- The commands of kernel/shell.c on files keep the invariant of its variables.
use basedos.Prelude.{
  ℕ, zero, suc, ◌-◌, ◌%◌, ◌++◌, replicate, arith, ◌==◌, not, List, [], ◌∷◌, Option, none, some,
  length, length-take,
}
use basedos.Prelude.Int.{ℤ, pos, negsuc}
use basedos.Prelude.Text.{codes}
use basedos.Fs.{Node, fs_directory, o_rdonly}
use basedos.Fs.Driver.{memfs}
use basedos.Fs.Memfs.{Memfs}
use basedos.Fs.Memfs
use basedos.Fs.Vfs.{Vfs, vfs_open, vfs_finddir}
use basedos.Fs.Vfs.Fd.{open_file, read_file, write_file, vfs_readdir}
use basedos.Memory.{put}
use basedos.Shell.{Shell, fits, print, print_all}
use basedos.Shell.Files.{
  change_directory, cd, list_dir, list_opened, ls, show_block, cat_loop, cat_opened, cat,
  touch_opened, touch, report_written, write_opened, write, join_words, o_create_write,
}
use basedos.Shell.Valid.{
  IsValid, OnSome, if-keeps, print-IsValid, print_all-IsValid, print_error-IsValid,
}
use basedos.Shell.Valid.Commands.{map-OnSome, map-kept, bind-each, settings-IsValid}
use basedos.Shell.System.{Outcome, done, returned, halted, System, on_shell, with_state}

-- what the system has, however the branch ends
abbrev pub Has : {A : Type 0} → (A → Type 0) → Outcome A → Type 0
Has P (done x) = P x
Has P (returned x) = P x
Has P (halted x) = P x

module _ (n : ℕ) where
  -- the shell of the system is valid
  abbrev pub IsReady : System n → Type 0
  IsReady sys = IsValid sys.shell

  abbrev pub Ended : Option (Outcome (System n)) → Type 0
  Ended = OnSome (Has IsReady)

  change_directory-IsReady :
      (path : List ℕ) (node : Option Node) (sys : System n)
      → IsReady sys
      → IsReady (change_directory n path node sys)
  unfolding change_directory
  change_directory-IsReady path none sys v =
      settings-IsValid _ _ _ _ 1 (print_all-IsValid _ _ (print_error-IsValid _ sys.shell v))
  change_directory-IsReady path (some dir) sys v =
      if-keeps IsReady _ _ _
        (record {
          screen = v.screen;
          log = v.log;
          room = v.room;
          aliases = v.aliases;
          directory = omega (arith, length-take 63 path);
        })
        (settings-IsValid _ _ _ _ 1 (print_all-IsValid _ _ (print_error-IsValid _ sys.shell v)))

  pub cd-Ended : (path : List ℕ) (sys : System n) → IsReady sys → Ended (cd n path sys)
  unfolding cd
  cd-Ended path sys v = bind-each (Has IsReady) sys.vfs.fs_root _ (λ root.
      map-OnSome (Has IsReady) (vfs_finddir (memfs n) sys.vfs.state root path) _
        (λ r. change_directory-IsReady path r.0 (with_state n r.1 sys) v))

  list_dir-IsReady :
      (fuel : ℕ) (dir : Node) (i : ℕ) (sys : System n)
      → IsReady sys
      → OnSome IsReady (list_dir n fuel dir i sys)
  unfolding list_dir
  list_dir-IsReady zero dir i sys v = tt
  list_dir-IsReady (suc fuel) dir i sys v =
      bind-each IsReady (vfs_readdir (memfs n) sys.vfs.state dir i) _
        (λ r. one_more r (list_dir-IsReady fuel dir (suc i)))
    where
      one_more :
          (r : Option Memfs.Dirent × Memfs)
          → ((sys : System n) → IsReady sys → OnSome IsReady (list_dir n fuel dir (suc i) sys))
          → OnSome IsReady (elim r.0 [
            | none ↦ some (with_state n r.1 sys)
            | some e ↦ list_dir n fuel dir (suc i) (
                on_shell n
                  (print_all (codes "  " ∷ e.d_name ∷ codes "\n" ∷ []))
                  (with_state n r.1 sys))
          ])
      one_more (none, s) next = v
      one_more (some e, s) next = next _ (print_all-IsValid _ sys.shell v)

  list_opened-Ended :
      (fuel : ℕ) (dir : Option Node) (sys : System n)
      → IsReady sys
      → Ended (list_opened n fuel dir sys)
  unfolding list_opened
  list_opened-Ended fuel none sys v = print-IsValid _ sys.shell v
  list_opened-Ended fuel (some dir) sys v =
      let listed = on_shell n (print (codes "Contents of /\n")) sys in
      if-keeps Ended (not (dir.flags % 8 == fs_directory)) _ _ (print-IsValid _ sys.shell v) (
        map-kept (Has IsReady) (list_dir n fuel dir 0 listed) _
          (list_dir-IsReady fuel dir 0 listed (print-IsValid _ sys.shell v)) (λ r w. w))

  pub ls-Ended : (fuel : ℕ) (sys : System n) → IsReady sys → Ended (ls n fuel sys)
  unfolding ls
  ls-Ended fuel sys v =
      bind-each (Has IsReady) (vfs_open (memfs n) sys.vfs (codes "/") 0) _
        (λ r. list_opened-Ended fuel r.0 (record sys { vfs = r.1 }) v)

  cat_loop-IsReady :
      (fuel buffer : ℕ) (fd : ℤ) (sys : System n)
      → IsReady sys
      → OnSome IsReady (cat_loop n fuel buffer fd sys)
  unfolding cat_loop show_block
  cat_loop-IsReady zero buffer fd sys v = tt
  cat_loop-IsReady (suc fuel) buffer fd sys v =
      bind-each IsReady (read_file (memfs n) sys.vfs fd buffer 1023) _
        (λ r. one_more r.0 r.1 (cat_loop-IsReady fuel buffer fd))
    where
      one_more :
          (size : ℤ) (w : Vfs (memfs n))
          → ((sys : System n) → IsReady sys → OnSome IsReady (cat_loop n fuel buffer fd sys))
          → OnSome IsReady (elim size [
            | negsuc k ↦ some (record sys { vfs = w })
            | pos zero ↦ some (record sys { vfs = w })
            | pos (suc k) ↦
                cat_loop n fuel buffer fd (show_block n buffer (suc k) (record sys { vfs = w }))
          ])
      one_more (negsuc k) w next = v
      one_more (pos zero) w next = v
      one_more (pos (suc k)) w next = next _ (print-IsValid _ sys.shell v)

  cat_opened-Ended :
      (fuel buffer : ℕ) (name : List ℕ) (fd : ℤ) (sys : System n)
      → IsReady sys
      → Ended (cat_opened n fuel buffer name fd sys)
  unfolding cat_opened
  cat_opened-Ended fuel buffer name (negsuc k) sys v = print_all-IsValid _ sys.shell v
  cat_opened-Ended fuel buffer name (pos i) sys v =
      map-kept (Has IsReady) (cat_loop n fuel buffer (pos i) sys) _
        (cat_loop-IsReady fuel buffer (pos i) sys v) (λ r w. print-IsValid _ r.shell w)

  pub cat-Ended :
      (fuel buffer : ℕ) (args : List (List ℕ)) (sys : System n)
      → IsReady sys
      → Ended (cat n fuel buffer args sys)
  unfolding cat
  cat-Ended fuel buffer [] sys v = print-IsValid _ sys.shell v
  cat-Ended fuel buffer (cmd ∷ []) sys v = print-IsValid _ sys.shell v
  cat-Ended fuel buffer (cmd ∷ name ∷ args) sys v =
      bind-each (Has IsReady) (open_file (memfs n) sys.vfs name o_rdonly) _
        (λ r. cat_opened-Ended fuel buffer name r.0 (record sys { vfs = r.1 }) v)

  touch_opened-Ended :
      (name : List ℕ) (fd : ℤ) (sys : System n)
      → IsReady sys
      → Has IsReady (touch_opened n name fd sys)
  unfolding touch_opened
  touch_opened-Ended name (negsuc k) sys v = print_all-IsValid _ sys.shell v
  touch_opened-Ended name (pos i) sys v = print_all-IsValid _ sys.shell v

  pub touch-Ended : (args : List (List ℕ)) (sys : System n) → IsReady sys → Ended (touch n args sys)
  unfolding touch
  touch-Ended [] sys v = print-IsValid _ sys.shell v
  touch-Ended (cmd ∷ []) sys v = print-IsValid _ sys.shell v
  touch-Ended (cmd ∷ name ∷ args) sys v =
      map-OnSome (Has IsReady) (open_file (memfs n) sys.vfs name o_create_write) _
        (λ r. touch_opened-Ended name r.0 (record sys { vfs = r.1 }) v)

  report_written-IsValid :
      (name : List ℕ) (len : ℕ) (written : ℤ) (s : Shell)
      → IsValid s
      → IsValid (report_written n name len written s)
  unfolding report_written
  report_written-IsValid name len (pos k) s v =
      if-keeps IsValid (k == len) _ _ (print_all-IsValid _ s v) (print-IsValid _ s v)
  report_written-IsValid name len (negsuc k) s v = print-IsValid _ s v

  write_opened-Ended :
      (buffer : ℕ) (name text : List ℕ) (fd : ℤ) (sys : System n)
      → IsReady sys
      → Ended (write_opened n buffer name text fd sys)
  unfolding write_opened
  write_opened-Ended buffer name text (negsuc k) sys v = print_all-IsValid _ sys.shell v
  write_opened-Ended buffer name text (pos i) sys v =
      let m = put sys.vfs.state.memory buffer (text ++ replicate (1024 - length text) 0) in
      let filled = record sys.vfs { state = record sys.vfs.state { memory = m } } in
      if-keeps Ended (not (fits 1024 text)) _ _ tt (
        map-OnSome (Has IsReady) (write_file (memfs n) filled (pos i) buffer (length text)) _
          (λ r. report_written-IsValid name (length text) r.0 sys.shell v))

  pub write-Ended :
      (buffer : ℕ) (args : List (List ℕ)) (sys : System n)
      → IsReady sys
      → Ended (write n buffer args sys)
  unfolding write
  write-Ended buffer [] sys v = print-IsValid _ sys.shell v
  write-Ended buffer (cmd ∷ []) sys v = print-IsValid _ sys.shell v
  write-Ended buffer (cmd ∷ name ∷ []) sys v = print-IsValid _ sys.shell v
  write-Ended buffer (cmd ∷ name ∷ word ∷ words) sys v =
      bind-each (Has IsReady) (open_file (memfs n) sys.vfs name o_create_write) _ (λ r.
        write_opened-Ended buffer name (join_words (word ∷ words)) r.0 (record sys { vfs = r.1 }) v)
