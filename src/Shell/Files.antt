-- ===== src/Shell/Files.antt =====
-- The commands of kernel/shell.c on files: cd, ls, cat, touch and write.
pub mod Listing
pub mod Unreachable
use basedos.Prelude.{
  ℕ, zero, suc, ◌+◌, ◌%◌, ltb, ◌==◌, if◌then◌else◌, not, List, [], ◌∷◌, ◌++◌, Option, none, some,
  length, take, replicate, ◌-◌,
}
use basedos.Prelude.Int.{ℤ, pos, negsuc}
use basedos.Prelude.Text.{codes}
use mathlib.Core.Option
use basedos.Memory.{Memory, store, put}
use basedos.Fs.{Node, fs_directory, o_rdonly, has_bit}
use basedos.Fs.Driver.{memfs}
use basedos.Fs.Memfs.{Memfs}
use basedos.Fs.Vfs.{Vfs, vfs_open, vfs_finddir}
use basedos.Fs.Vfs.Fd.{open_file, close_file, read_file, write_file, vfs_readdir, vfs_close}
use basedos.Str.Num.Print.{numeral}
use basedos.Shell.{Shell, print, print_all, print_error, fits}
use basedos.Shell.System.{Outcome, done, returned, System, on_shell, with_state}

-- `O_CREAT | O_WRONLY`
abbrev pub o_create_write : ℕ
o_create_write = 0x101

-- the C string at `p`, whose terminator is at most `k` bytes behind it
unfoldable pub text_at : Memory → ℕ → ℕ → List ℕ
text_at m p zero = []
text_at m p (suc k) = let rest = text_at m (suc p) k in if m p == 0 then [] else m p ∷ rest

-- the loop of `write` that puts the words together
unfoldable pub join_words : List (List ℕ) → List ℕ
join_words [] = []
join_words (word ∷ []) = word
join_words (word ∷ next ∷ words) = word ++ (codes " " ++ join_words (next ∷ words))

module _ (n : ℕ) where
  -- cd once the directory was searched
  unfoldable pub change_directory : List ℕ → Option Node → System n → System n
  change_directory path node sys =
      let refused =
        on_shell n
          (λ s.
            record (print_all (path ∷ codes "\n" ∷ [])
              (print_error (codes "No such directory: ") s)) { last_exit_code = 1 })
          sys in
      elim node [
        | none ↦ refused
        | some dir ↦
            if has_bit dir.flags 1
            then on_shell n (λ s. record s { current_directory = take 63 path }) sys
            else refused
      ]

  -- cd; `none` is a root that is NULL
  unfoldable pub cd : List ℕ → System n → Option (Outcome (System n))
  unfolding change_directory Option.bind
  cd path sys = Option.bind sys.vfs.fs_root (λ root.
      Option.map (λ r. done (change_directory path r.0 (with_state n r.1 sys)))
        (vfs_finddir (memfs n) sys.vfs.state root path))

  -- the loop of ls, from entry `i` on; `none` is a fault of readdir, or fuel that runs out
  unfoldable pub list_dir : ℕ → Node → ℕ → System n → Option (System n)
  unfolding Option.bind
  list_dir zero dir i sys = none
  list_dir (suc fuel) dir i sys = Option.bind (vfs_readdir (memfs n) sys.vfs.state dir i) (λ r.
      elim r.0 [
        | none ↦ some (with_state n r.1 sys)
        | some e ↦ list_dir fuel dir (suc i) (
            on_shell n (print_all (codes "  " ∷ e.d_name ∷ codes "\n" ∷ [])) (with_state n r.1 sys))
      ])

  abbrev close_dir : Node → System n → System n
  close_dir dir sys = with_state n (vfs_close (memfs n) sys.vfs.state dir) sys

  -- ls once `/` was opened
  unfoldable pub list_opened : ℕ → Option Node → System n → Option (Outcome (System n))
  unfolding list_dir
  list_opened fuel none sys =
      some (returned (on_shell n (print (codes "Error: Could not open directory /\n")) sys))
  list_opened fuel (some dir) sys =
      if not (dir.flags % 8 == fs_directory)
      then some (
          returned (close_dir dir (on_shell n (print (codes "Error: / is not a directory\n")) sys)))
      else Option.map (λ r. done (close_dir dir r))
          (list_dir fuel dir 0 (on_shell n (print (codes "Contents of /\n")) sys))

  unfoldable pub ls : ℕ → System n → Option (Outcome (System n))
  unfolding list_opened Option.bind
  ls fuel sys =
      Option.bind (vfs_open (memfs n) sys.vfs (codes "/") 0)
        (λ r. list_opened fuel r.0 (record sys { vfs = r.1 }))

  -- a block that cat has read: its terminator, and the text printed
  unfoldable pub show_block : ℕ → ℕ → System n → System n
  show_block buffer bytes_read sys =
      let m = store sys.vfs.state.memory (buffer + bytes_read) 0 in
      on_shell n (print (text_at m buffer bytes_read))
        (with_state n (record sys.vfs.state { memory = m }) sys)

  -- the loop of cat over the file; `none` says that the fuel ran out
  unfoldable pub cat_loop : ℕ → ℕ → ℤ → System n → Option (System n)
  unfolding Option.bind show_block
  cat_loop zero buffer fd sys = none
  cat_loop (suc fuel) buffer fd sys = Option.bind (read_file (memfs n) sys.vfs fd buffer 1023) (λ r.
      let sys' = record sys { vfs = r.1 } in
      elim r.0 [
        | negsuc k ↦ some sys'
        | pos zero ↦ some sys'
        | pos (suc k) ↦ cat_loop fuel buffer fd (show_block buffer (suc k) sys')
      ])

  -- cat once the file was opened
  unfoldable pub cat_opened : ℕ → ℕ → List ℕ → ℤ → System n → Option (Outcome (System n))
  unfolding cat_loop
  cat_opened fuel buffer name (negsuc k) sys = some (
      returned
        (on_shell n (print_all (codes "Error: Could not open file " ∷ name ∷ codes "\n" ∷ [])) sys))
  cat_opened fuel buffer name (pos i) sys =
      Option.map
        (λ r. done (
          on_shell n (print (codes "\n"))
            (record r { vfs = (close_file (memfs n) r.vfs (pos i)).1 })))
        (cat_loop fuel buffer (pos i) sys)

  -- cat; `buffer` is the address of its buffer
  unfoldable pub cat : ℕ → ℕ → List (List ℕ) → System n → Option (Outcome (System n))
  unfolding cat_opened Option.bind
  cat fuel buffer (cmd ∷ name ∷ args) sys =
      Option.bind (open_file (memfs n) sys.vfs name o_rdonly)
        (λ r. cat_opened fuel buffer name r.0 (record sys { vfs = r.1 }))
  cat fuel buffer args sys = some (returned (on_shell n (print (codes "Usage: cat <file>\n")) sys))

  -- touch once the file was opened
  unfoldable pub touch_opened : List ℕ → ℤ → System n → Outcome (System n)
  touch_opened name (negsuc k) sys =
      returned (
        on_shell n (print_all (codes "Error: Could not create file " ∷ name ∷ codes "\n" ∷ [])) sys)
  touch_opened name (pos i) sys = done (
      on_shell n (print_all (codes "Created file " ∷ name ∷ codes "\n" ∷ []))
        (record sys { vfs = (close_file (memfs n) sys.vfs (pos i)).1 }))

  unfoldable pub touch : List (List ℕ) → System n → Option (Outcome (System n))
  unfolding touch_opened
  touch (cmd ∷ name ∷ args) sys =
      Option.map (λ r. touch_opened name r.0 (record sys { vfs = r.1 }))
        (open_file (memfs n) sys.vfs name o_create_write)
  touch args sys = some (returned (on_shell n (print (codes "Usage: touch <file>\n")) sys))

  -- what write reports of the bytes written
  unfoldable pub report_written : List ℕ → ℕ → ℤ → Shell → Shell
  report_written name len (pos k) s =
      if k == len
      then print_all (codes "Wrote " ∷ numeral 10 k ∷ codes " bytes to " ∷ name ∷ codes "\n" ∷ []) s
      else print (codes "Error: Could not write to file\n") s
  report_written name len (negsuc k) s = print (codes "Error: Could not write to file\n") s

  -- write once the file was opened; `none` is a text that does not fit into the buffer
  unfoldable pub write_opened : ℕ → List ℕ → List ℕ → ℤ → System n → Option (Outcome (System n))
  unfolding report_written
  write_opened buffer name text (negsuc k) sys = some (
      returned
        (on_shell n (print_all (codes "Error: Could not open file " ∷ name ∷ codes "\n" ∷ [])) sys))
  write_opened buffer name text (pos i) sys =
      let m = put sys.vfs.state.memory buffer (text ++ replicate (1024 - length text) 0) in
      let filled = with_state n (record sys.vfs.state { memory = m }) sys in
      if not (fits 1024 text)
      then none
      else Option.map
          (λ r. done (record filled {
            shell = report_written name (length text) r.0 sys.shell;
            vfs = (close_file (memfs n) r.1 (pos i)).1;
          }))
          (write_file (memfs n) filled.vfs (pos i) buffer (length text))

  -- write; `buffer` is the address of its buffer
  unfoldable pub write : ℕ → List (List ℕ) → System n → Option (Outcome (System n))
  unfolding write_opened Option.bind
  write buffer (cmd ∷ name ∷ word ∷ words) sys =
      Option.bind (open_file (memfs n) sys.vfs name o_create_write)
        (λ r. write_opened buffer name (join_words (word ∷ words)) r.0 (record sys { vfs = r.1 }))
  write buffer args sys =
      some (returned (on_shell n (print (codes "Usage: write <file> <text>\n")) sys))
