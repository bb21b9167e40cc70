-- ===== src/Shell/Valid/Returns/Frame.antt =====
-- The commands of kernel/shell.c leave the file system started: its root bare, its table of
-- descriptors whole, and the size of the memory known.
use basedos.Prelude.{
  ℕ, zero, suc, ◌≡◌, refl, ◌∙◌, ◌==◌, ◌%◌, ◌-◌, ◌++◌, replicate, not, List, [], ◌∷◌, Option, none,
  some, length,
}
use basedos.Prelude.Int.{ℤ, pos, negsuc}
use basedos.Prelude.Text.{codes}
use basedos.Fs.{Node, fs_directory, o_rdonly, has_bit}
use basedos.Fs.Driver.{memfs}
use basedos.Fs.Memfs.{Memfs}
use basedos.Fs.Memfs
use basedos.Fs.Vfs.{Vfs, vfs_open, vfs_finddir}
use basedos.Fs.Vfs.Fd.{open_file, read_file, write_file, vfs_readdir}
use basedos.Fs.Vfs.Fd.Frame.{
  Kept, Keeps, vfs_open-Keeps, open_file-Keeps, close_file-Kept, read_file-Keeps, write_file-Keeps,
}
use basedos.Memory.{put}
use basedos.Shell.{fits, print, print_all}
use basedos.Shell.Files.{
  change_directory, cd, list_dir, list_opened, ls, show_block, cat_loop, cat_opened, cat,
  touch_opened, touch, write_opened, write, join_words, o_create_write,
}
use basedos.Shell.System.{Outcome, System, on_shell, with_state}
use basedos.Shell.Valid.{OnSome, if-keeps}
use basedos.Shell.Valid.Commands.{map-OnSome, map-kept, bind-each, bind-OnSome}
use basedos.Shell.Valid.Commands.Files.{Has}
use basedos.Shell.Valid.Returns.{IsStarted}

module _ (n : ℕ) where
  -- the file system is started, however the branch ends
  abbrev pub Stays : Option (Outcome (System n)) → Type 0
  Stays = OnSome (Has (IsStarted n))

  -- a call on files that keeps the root and the table
  kept :
      {A : Type 0} (v : Vfs (memfs n)) (o : Option (A × Vfs (memfs n)))
      → Keeps (memfs n) v o
      → OnSome (λ r. Kept (memfs n) v r.1) o
  kept v none k = tt
  kept v (some r) k = k

  with_vfs :
      (sys sys' : System n)
      → IsStarted n sys
      → Kept (memfs n) sys.vfs sys'.vfs
      → sys'.kernel.total_memory ≡ sys.kernel.total_memory
      → IsStarted n sys'
  with_vfs sys sys' st k same = record {
    bare = k.root ∙ st.bare;
    table = k.size ∙ st.table;
    memory = rw same st.memory;
  }

  pub same_files :
      (sys sys' : System n)
      → IsStarted n sys
      → sys'.vfs.fs_root ≡ sys.vfs.fs_root
      → sys'.vfs.descriptors ≡ sys.vfs.descriptors
      → sys'.kernel.total_memory ≡ sys.kernel.total_memory
      → IsStarted n sys'
  same_files sys sys' st root descriptors same = record {
    bare = root ∙ st.bare;
    table = rw descriptors st.table;
    memory = rw same st.memory;
  }

  change_directory-IsStarted :
      (path : List ℕ) (node : Option Node) (sys : System n)
      → IsStarted n sys
      → IsStarted n (change_directory n path node sys)
  unfolding change_directory
  change_directory-IsStarted path none sys st = same_files sys _ st refl refl refl
  change_directory-IsStarted path (some dir) sys st =
      if-keeps (IsStarted n) (has_bit dir.flags 1) _ _ (same_files sys _ st refl refl refl)
        (same_files sys _ st refl refl refl)

  pub cd-Stays : (path : List ℕ) (sys : System n) → IsStarted n sys → Stays (cd n path sys)
  unfolding cd
  cd-Stays path sys st = bind-each (Has (IsStarted n)) sys.vfs.fs_root _ (λ root.
      map-OnSome (Has (IsStarted n)) (vfs_finddir (memfs n) sys.vfs.state root path) _ (λ r.
        change_directory-IsStarted path r.0 (with_state n r.1 sys)
          (same_files sys _ st refl refl refl)))

  list_dir-IsStarted :
      (fuel : ℕ) (dir : Node) (i : ℕ) (sys : System n)
      → IsStarted n sys
      → OnSome (IsStarted n) (list_dir n fuel dir i sys)
  unfolding list_dir
  list_dir-IsStarted zero dir i sys st = tt
  list_dir-IsStarted (suc fuel) dir i sys st =
      bind-each (IsStarted n) (vfs_readdir (memfs n) sys.vfs.state dir i) _
        (λ r. one_more r (list_dir-IsStarted fuel dir (suc i)))
    where
      one_more :
          (r : Option Memfs.Dirent × Memfs)
          → ((sys : System n)
              → IsStarted n sys
              → OnSome (IsStarted n) (list_dir n fuel dir (suc i) sys))
          → OnSome (IsStarted n) (elim r.0 [
            | none ↦ some (with_state n r.1 sys)
            | some e ↦ list_dir n fuel dir (suc i) (
                on_shell n
                  (print_all (codes "  " ∷ e.d_name ∷ codes "\n" ∷ []))
                  (with_state n r.1 sys))
          ])
      one_more (none, s) next = same_files sys _ st refl refl refl
      one_more (some e, s) next = next _ (same_files sys _ st refl refl refl)

  list_opened-Stays :
      (fuel : ℕ) (dir : Option Node) (sys : System n)
      → IsStarted n sys
      → Stays (list_opened n fuel dir sys)
  unfolding list_opened
  list_opened-Stays fuel none sys st = same_files sys _ st refl refl refl
  list_opened-Stays fuel (some dir) sys st =
      let listed = on_shell n (print (codes "Contents of /\n")) sys in
      if-keeps Stays (not (dir.flags % 8 == fs_directory)) _ _ (same_files sys _ st refl refl refl)
        (map-kept (Has (IsStarted n)) (list_dir n fuel dir 0 listed) _
          (list_dir-IsStarted fuel dir 0 listed (same_files sys _ st refl refl refl))
          (λ r w. same_files r _ w refl refl refl))

  pub ls-Stays : (fuel : ℕ) (sys : System n) → IsStarted n sys → Stays (ls n fuel sys)
  unfolding ls
  ls-Stays fuel sys st =
      bind-OnSome (Has (IsStarted n)) (vfs_open (memfs n) sys.vfs (codes "/") 0) _
        (kept sys.vfs _ (vfs_open-Keeps (memfs n) sys.vfs (codes "/") 0))
        (λ r k. list_opened-Stays fuel r.0 (record sys { vfs = r.1 }) (with_vfs sys _ st k refl))

  cat_loop-IsStarted :
      (fuel buffer : ℕ) (fd : ℤ) (sys : System n)
      → IsStarted n sys
      → OnSome (IsStarted n) (cat_loop n fuel buffer fd sys)
  unfolding cat_loop show_block
  cat_loop-IsStarted zero buffer fd sys st = tt
  cat_loop-IsStarted (suc fuel) buffer fd sys st =
      bind-OnSome (IsStarted n) (read_file (memfs n) sys.vfs fd buffer 1023) _
        (kept sys.vfs _ (read_file-Keeps (memfs n) sys.vfs fd buffer 1023))
        (λ r k.
          one_more r.0 r.1 (with_vfs sys (record sys { vfs = r.1 }) st k refl)
            (cat_loop-IsStarted fuel buffer fd))
    where
      one_more :
          (size : ℤ) (w : Vfs (memfs n))
          → IsStarted n (record sys { vfs = w })
          → ((sys : System n)
              → IsStarted n sys
              → OnSome (IsStarted n) (cat_loop n fuel buffer fd sys))
          → OnSome (IsStarted n) (elim size [
            | negsuc k ↦ some (record sys { vfs = w })
            | pos zero ↦ some (record sys { vfs = w })
            | pos (suc k) ↦
                cat_loop n fuel buffer fd (show_block n buffer (suc k) (record sys { vfs = w }))
          ])
      one_more (negsuc k) w started next = started
      one_more (pos zero) w started next = started
      one_more (pos (suc k)) w started next =
          next _ (same_files (record sys { vfs = w }) _ started refl refl refl)

  cat_opened-Stays :
      (fuel buffer : ℕ) (name : List ℕ) (fd : ℤ) (sys : System n)
      → IsStarted n sys
      → Stays (cat_opened n fuel buffer name fd sys)
  unfolding cat_opened
  cat_opened-Stays fuel buffer name (negsuc k) sys st = same_files sys _ st refl refl refl
  cat_opened-Stays fuel buffer name (pos i) sys st =
      map-kept (Has (IsStarted n)) (cat_loop n fuel buffer (pos i) sys) _
        (cat_loop-IsStarted fuel buffer (pos i) sys st)
        (λ r w. with_vfs r _ w (close_file-Kept (memfs n) r.vfs (pos i)) refl)

  pub cat-Stays :
      (fuel buffer : ℕ) (args : List (List ℕ)) (sys : System n)
      → IsStarted n sys
      → Stays (cat n fuel buffer args sys)
  unfolding cat
  cat-Stays fuel buffer [] sys st = same_files sys _ st refl refl refl
  cat-Stays fuel buffer (cmd ∷ []) sys st = same_files sys _ st refl refl refl
  cat-Stays fuel buffer (cmd ∷ name ∷ args) sys st =
      bind-OnSome (Has (IsStarted n)) (open_file (memfs n) sys.vfs name o_rdonly) _
        (kept sys.vfs _ (open_file-Keeps (memfs n) sys.vfs name o_rdonly))
        (λ r k.
          cat_opened-Stays fuel buffer name r.0 (record sys { vfs = r.1 })
            (with_vfs sys _ st k refl))

  touch_opened-Has :
      (name : List ℕ) (fd : ℤ) (sys : System n)
      → IsStarted n sys
      → Has (IsStarted n) (touch_opened n name fd sys)
  unfolding touch_opened
  touch_opened-Has name (negsuc k) sys st = same_files sys _ st refl refl refl
  touch_opened-Has name (pos i) sys st =
      with_vfs sys _ st (close_file-Kept (memfs n) sys.vfs (pos i)) refl

  pub touch-Stays :
      (args : List (List ℕ)) (sys : System n) → IsStarted n sys → Stays (touch n args sys)
  unfolding touch
  touch-Stays [] sys st = same_files sys _ st refl refl refl
  touch-Stays (cmd ∷ []) sys st = same_files sys _ st refl refl refl
  touch-Stays (cmd ∷ name ∷ args) sys st =
      map-kept (Has (IsStarted n)) (open_file (memfs n) sys.vfs name o_create_write) _
        (kept sys.vfs _ (open_file-Keeps (memfs n) sys.vfs name o_create_write))
        (λ r k. touch_opened-Has name r.0 (record sys { vfs = r.1 }) (with_vfs sys _ st k refl))

  write_opened-Stays :
      (buffer : ℕ) (name text : List ℕ) (fd : ℤ) (sys : System n)
      → IsStarted n sys
      → Stays (write_opened n buffer name text fd sys)
  unfolding write_opened
  write_opened-Stays buffer name text (negsuc k) sys st = same_files sys _ st refl refl refl
  write_opened-Stays buffer name text (pos i) sys st =
      let m = put sys.vfs.state.memory buffer (text ++ replicate (1024 - length text) 0) in
      let filled = with_state n (record sys.vfs.state { memory = m }) sys in
      let started = same_files sys filled st refl refl refl in
      if-keeps Stays (not (fits 1024 text)) _ _ tt (
        map-kept (Has (IsStarted n)) (write_file (memfs n) filled.vfs (pos i) buffer (length text))
          _ (kept filled.vfs _ (write_file-Keeps (memfs n) filled.vfs (pos i) buffer (length text)))
          (λ r k.
            with_vfs (record filled { vfs = r.1 }) _ (with_vfs filled _ started k refl)
              (close_file-Kept (memfs n) r.1 (pos i)) refl))

  pub write-Stays :
      (buffer : ℕ) (args : List (List ℕ)) (sys : System n)
      → IsStarted n sys
      → Stays (write n buffer args sys)
  unfolding write
  write-Stays buffer [] sys st = same_files sys _ st refl refl refl
  write-Stays buffer (cmd ∷ []) sys st = same_files sys _ st refl refl refl
  write-Stays buffer (cmd ∷ name ∷ []) sys st = same_files sys _ st refl refl refl
  write-Stays buffer (cmd ∷ name ∷ word ∷ words) sys st =
      bind-OnSome (Has (IsStarted n)) (open_file (memfs n) sys.vfs name o_create_write) _
        (kept sys.vfs _ (open_file-Keeps (memfs n) sys.vfs name o_create_write))
        (λ r k.
          write_opened-Stays buffer name (join_words (word ∷ words)) r.0 (record sys { vfs = r.1 })
            (with_vfs sys _ st k refl))
