-- ===== src/Main/FsTest.antt =====
-- fs/fs_test.c: fs_test, cut at its early returns. `none` is a fault, or fuel that runs out.
pub mod Laws
use basedos.Prelude.{ℕ, zero, suc, ◌+◌, ◌==◌, if◌then◌else◌, List, [], ◌∷◌, Option, none, some}
use basedos.Prelude.Int.{ℤ, pos, negsuc}
use basedos.Prelude.Text.{codes}
use mathlib.Core.Option
use basedos.Memory.{store}
use basedos.Fs.{Node, o_rdonly}
use basedos.Fs.Driver.{memfs}
use basedos.Fs.Start.{start_files}
use basedos.Fs.Vfs.{Vfs, vfs_open}
use basedos.Fs.Vfs.Fd.{open_file, close_file, read_file, write_file, vfs_readdir, vfs_close}
use basedos.Str.Scan.{strlen}
use basedos.Terminal.Print.{Arg, int, str, printk}
use basedos.Shell.{Shell}
use basedos.Shell.Files.{text_at, o_create_write}
use basedos.Shell.System.{System, on_shell, with_state}

module _ (n : ℕ) where
  -- a call of printk
  unfoldable pub say : List ℕ → List Arg → System n → Option (System n)
  say format args sys =
      Option.map (λ t. on_shell n (λ s. record s { term = t }) sys)
        (printk sys.shell.term format args)

  -- `close(fd)`, whose result nothing reads
  abbrev pub close_fd : ℕ → System n → System n
  close_fd fd sys = record sys { vfs = (close_file (memfs n) sys.vfs (pos fd)).1 }

  -- the line of an entry, if its name is not empty
  unfoldable pub say_entry : List ℕ → System n → Option (System n)
  say_entry [] sys = some sys
  say_entry (c ∷ name) sys = say (codes "  %s\n") (str (some (c ∷ name)) ∷ []) sys

  -- the loop over the root directory from entry `i` on
  unfoldable pub list_root : ℕ → Node → ℕ → System n → Option (System n)
  unfolding Option.bind say_entry
  list_root zero dir i sys = none
  list_root (suc fuel) dir i sys = Option.bind (vfs_readdir (memfs n) sys.vfs.state dir i) (λ r.
      elim r.0 [
        | none ↦ some (with_state n r.1 sys)
        | some e ↦
            Option.bind (say_entry e.d_name (with_state n r.1 sys)) (list_root fuel dir (suc i))
      ])

  -- the end of fs_test, once `/` was opened
  unfoldable pub test_listing : ℕ → Option Node → System n → Option (System n)
  unfolding Option.bind list_root
  test_listing fuel none sys = say (codes "Failed to open root directory\n") [] sys
  test_listing fuel (some dir) sys = Option.bind (list_root fuel dir 0 sys) (λ sys.
      say (codes "=== File System Test Complete ===\n") []
        (with_state n (vfs_close (memfs n) sys.vfs.state dir) sys))

  -- fs_test once the file was read: the result of `read`
  unfoldable pub test_read : (fuel buffer fd : ℕ) → ℤ → System n → Option (System n)
  unfolding Option.bind test_listing
  test_read fuel buffer fd (negsuc k) sys =
      Option.map (close_fd fd) (say (codes "Failed to read from test file\n") [] sys)
  test_read fuel buffer fd (pos zero) sys =
      Option.map (close_fd fd) (say (codes "Failed to read from test file\n") [] sys)
  test_read fuel buffer fd (pos (suc k)) sys =
      let m = store sys.vfs.state.memory (buffer + suc k) 0 in
      let closed = close_fd fd (with_state n (record sys.vfs.state { memory = m }) sys) in
      let text = text_at closed.vfs.state.memory buffer (suc k) in
      Option.bind (say (codes "Read %d bytes: %s\n") (int (suc k) ∷ str (some text) ∷ []) closed)
        (λ sys. Option.bind (say (codes "Root directory contents:\n") [] sys) (λ sys.
          Option.bind (vfs_open (memfs n) sys.vfs (codes "/") 0)
            (λ r. test_listing fuel r.0 (record sys { vfs = r.1 }))))

  -- once the file was opened for reading
  unfoldable pub test_reopened : (fuel buffer : ℕ) → ℤ → System n → Option (System n)
  unfolding Option.bind test_read
  test_reopened fuel buffer (negsuc k) sys =
      say (codes "Failed to open test file for reading\n") [] sys
  test_reopened fuel buffer (pos fd) sys =
      Option.bind (read_file (memfs n) sys.vfs (pos fd) buffer 127)
        (λ r. test_read fuel buffer fd r.0 (record sys { vfs = r.1 }))

  -- from the line "Reading back test file..." on
  unfoldable pub read_back : (fuel buffer : ℕ) → System n → Option (System n)
  unfolding Option.bind test_reopened
  read_back fuel buffer sys = Option.bind (say (codes "Reading back test file...\n") [] sys) (λ sys.
      Option.bind (open_file (memfs n) sys.vfs (codes "/test.txt") o_rdonly)
        (λ r. test_reopened fuel buffer r.0 (record sys { vfs = r.1 })))

  -- once `len` bytes were to be written: the result of `write`
  unfoldable pub test_written : (fuel buffer fd len : ℕ) → ℤ → System n → Option (System n)
  unfolding Option.bind read_back
  test_written fuel buffer fd len (negsuc k) sys =
      Option.map (close_fd fd) (say (codes "Failed to write to test file\n") [] sys)
  test_written fuel buffer fd len (pos k) sys =
      if k == len
      then Option.bind (say (codes "Wrote %d bytes to /test.txt\n") (int k ∷ []) (close_fd fd sys))
          (read_back fuel buffer)
      else Option.map (close_fd fd) (say (codes "Failed to write to test file\n") [] sys)

  -- once the file was opened for writing. The text at `test_data` is "Hello, BasedOS File System!".
  unfoldable pub test_created : (fuel test_data buffer : ℕ) → ℤ → System n → Option (System n)
  unfolding Option.bind test_written
  test_created fuel test_data buffer (negsuc k) sys =
      say (codes "Failed to create test file\n") [] sys
  test_created fuel test_data buffer (pos fd) sys =
      Option.bind (strlen 28 sys.vfs.state.memory test_data) (λ len.
        Option.bind (write_file (memfs n) sys.vfs (pos fd) test_data len)
          (λ r. test_written fuel buffer fd len r.0 (record sys { vfs = r.1 })))

  -- once the file system was mounted, with the result of vfs_mount
  unfoldable pub test_mounted : (fuel test_data buffer : ℕ) → ℤ → System n → Option (System n)
  unfolding Option.bind test_created
  test_mounted fuel test_data buffer (negsuc k) sys =
      say (codes "Failed to mount root filesystem!\n") [] sys
  test_mounted fuel test_data buffer (pos (suc k)) sys =
      say (codes "Failed to mount root filesystem!\n") [] sys
  test_mounted fuel test_data buffer (pos zero) sys =
      Option.bind (say (codes "Mounted memory filesystem at /\n") [] sys) (λ sys.
        Option.bind (say (codes "Creating test file...\n") [] sys) (λ sys.
          Option.bind (open_file (memfs n) sys.vfs (codes "/test.txt") o_create_write)
            (λ r. test_created fuel test_data buffer r.0 (record sys { vfs = r.1 }))))

  -- fs_test, for the addresses of its text and of its buffer; `fuel` bounds the entries of `/`
  unfoldable pub fs_test : (fuel test_data buffer : ℕ) → System n → Option (System n)
  unfolding Option.bind test_mounted
  fs_test fuel test_data buffer sys =
      Option.bind (say (codes "=== Starting File System Test ===\n") [] sys) (λ sys.
        Option.bind (start_files n sys.vfs)
          (λ r. test_mounted fuel test_data buffer r.0 (record sys { vfs = r.1 })))
