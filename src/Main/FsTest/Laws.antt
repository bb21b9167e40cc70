-- ===== src/Main/FsTest/Laws.antt =====
-- How far fs_test of fs/fs_test.c comes.
use basedos.Prelude.{ℕ, ◌+◌, ◌≤◌, ◌≡◌, ◌⊎◌, ◌<◌, refl, List, [], ◌∷◌, Option, some, inl, inr, true}
use basedos.Prelude.Int.{ℤ, pos, negsuc}
use basedos.Prelude.Text.{codes}
use mathlib.Core.Option
use basedos.Heap.{heap_size}
use basedos.Fs.{o_rdonly}
use basedos.Fs.Driver.{memfs}
use basedos.Fs.Start.{start_files_lem}
use basedos.Fs.Vfs.{Vfs, bare_root}
use basedos.Fs.Vfs.Fd.{open_file, read_file}
use basedos.Fs.Vfs.Fd.Frame.{opened_slot}
use basedos.Fs.Vfs.Fd.Laws.{HasTable, open_file-null, read_refused}
use basedos.Fs.Vfs.Mount.{open_bare}
use basedos.Terminal.Print.{Arg}
use basedos.Terminal.Print.Render.{render, unsigned_fit, printk-render}
use basedos.Shell.{print, print_all}
use basedos.Shell.Files.{o_create_write}
use basedos.Shell.System.{System, on_shell}
use basedos.Main.FsTest.{
  close_fd, say, fs_test, test_mounted, test_created, read_back, test_reopened, test_read,
}

module _ (n : ℕ) where
  -- printk as the shell's model has it: the text of its format
  pub say-render :
      (format text : List ℕ) (args : List Arg) (sys : System n)
      → render format args ≡ some text
      → unsigned_fit format args ≡ true
      → say n format args sys ≡ some (on_shell n (print text) sys)
  unfolding say print
  say-render format text args sys e fit = rw (printk-render sys.shell.term format args fit, e) refl

  module _ (fuel test_data buffer : ℕ) where
    -- While 2600 bytes of the heap are free, fs_test starts the file system again, and stops where it
    -- creates its file: open gives -1, as it does for every name on the bare root. It prints these four
    -- lines, and leaves the root bare, the table of descriptors whole and 2544 bytes of the heap used.
    pub fs_test_lem :
        (sys : System n)
        → 0 < sys.vfs.state.heap.base
        → sys.vfs.state.heap.pos + 2600 ≤ heap_size
        → (v' : Vfs (memfs n)) × (fs_test n fuel test_data buffer sys
            ≡ some (record sys {
              shell =
                  print_all
                    (codes "=== Starting File System Test ===\n"
                      ∷ codes "Mounted memory filesystem at /\n"
                      ∷ codes "Creating test file...\n"
                      ∷ codes "Failed to create test file\n"
                      ∷ [])
                    sys.shell;
              vfs = v';
            }))
          × (v'.fs_root ≡ some bare_root)
          × HasTable v'.descriptors
          × (v'.state.heap ≡ record sys.vfs.state.heap { pos = sys.vfs.state.heap.pos + 2544 })
    unfolding fs_test test_mounted test_created print_all render unsigned_fit Option.bind
    fs_test_lem sys placed room =
        let (v', started, root, table, heap) = start_files_lem n sys.vfs placed room in
        let opened =
          open_file-null (memfs n) v' (codes "/test.txt") o_create_write
            (open_bare (memfs n) v' b't' (codes "est.txt") o_create_write root) in
        (
          v',
          rw
              (
                say-render (codes "=== Starting File System Test ===\n")
                    (codes "=== Starting File System Test ===\n") [] sys refl refl,
                started,
                say-render (codes "Mounted memory filesystem at /\n") _ [] _ refl refl,
                say-render (codes "Creating test file...\n") _ [] _ refl refl,
                opened,
                say-render (codes "Failed to create test file\n") _ [] _ refl refl,
              )
              refl,
          root,
          table,
          heap,
        )

  -- a call of read_back that ends with `message`
  abbrev pub Stops : List ℕ → System n → Option (System n) → Type 0
  Stops message sys o =
      (sys' : System n) × (o ≡ some sys')
      × (sys'.shell ≡ print_all (codes "Reading back test file...\n" ∷ message ∷ []) sys.shell)

  module _ (fuel buffer : ℕ) where
    test_read-failed :
        (fd k : ℕ) (sys : System n)
        → test_read n fuel buffer fd (negsuc k) sys
          ≡ some (close_fd n fd (on_shell n (print (codes "Failed to read from test file\n")) sys))
    unfolding test_read render unsigned_fit
    test_read-failed fd k sys =
        rw (say-render (codes "Failed to read from test file\n") _ [] sys refl refl) refl

    -- Whatever the files are, fs_test cannot read its file back. If the call of open for reading has a
    -- result, and the table of descriptors is whole, then one of two things holds. Open gives -1, and
    -- the message about that is the last thing that fs_test prints. Or open gives the number of a
    -- descriptor, the call of read from it gives -1 and changes nothing, and the message about the read
    -- is the last thing that fs_test prints.
    pub read_back_lem :
        (sys : System n) (fd : ℤ) (v' : Vfs (memfs n))
        → HasTable sys.vfs.descriptors
        → open_file (memfs n) sys.vfs (codes "/test.txt") o_rdonly ≡ some (fd, v')
        → ((fd ≡ negsuc 0)
            × Stops
                (codes "Failed to open test file for reading\n")
                sys
                (read_back n fuel buffer sys))
          ⊎ ((i : ℕ) × (fd ≡ pos i)
              × (read_file (memfs n) v' (pos i) buffer 127 ≡ some (negsuc 0, v'))
              × Stops (codes "Failed to read from test file\n") sys (read_back n fuel buffer sys))
    unfolding read_back test_reopened print_all render unsigned_fit Option.bind
    read_back_lem sys fd v' table opened =
        let said = say-render (codes "Reading back test file...\n") _ [] sys refl refl in
        elim (opened_slot (memfs n) sys.vfs v' (codes "/test.txt") o_rdonly fd table opened) [
          | inl e ↦ inl (
            e,
            rw
                (
                  said,
                  opened,
                  e,
                  say-render (codes "Failed to open test file for reading\n") _ [] _ refl refl,
                )
                (_, refl, refl),
          )
          | inr (i, node, e, slot) ↦
              let refused = read_refused (memfs n) v' (pos i) i _ node buffer 127 slot refl in
              inr (
                i,
                e,
                refused,
                rw (said, opened, e, refused, test_read-failed i 0 _) (_, refl, refl),
              )
        ]
