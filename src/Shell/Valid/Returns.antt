-- ===== src/Shell/Valid/Returns.antt =====
-- The commands of kernel/shell.c return, on the file system as it is after the start.
pub mod Branches
pub mod Execute
pub mod Faults
pub mod Frame
pub mod Stays
use basedos.Prelude.{
  ℕ, suc, ◌≡◌, ◌⊎◌, ◌<◌, refl, sym, ◌∙◌, ap, arith, ◌==◌, if◌then◌else◌, ◌&&◌, List, [], ◌∷◌,
  Option, none, some, true, false, ltb, length, ◌++◌, ◌-◌, replicate, Bool-cases, Option-cases, inl,
  inr,
}
use mathlib.Core.Path.{subst}
use basedos.Prelude.Int.{ℤ, pos, negsuc}
use basedos.Prelude.Text.{codes}
use mathlib.Core.Option
use basedos.Fs.{Node, o_rdonly}
use basedos.Fs.Driver.{memfs}
use basedos.Fs.Vfs.{Vfs, Descriptor, bare_root, vfs_open, vfs_finddir, open_path}
use basedos.Fs.Vfs.Mount.{open_bare}
use basedos.Fs.Vfs.Fd.{
  failed, find_free, open_slot, open_file, close_file, read_file, write_file, vfs_write,
  not_for_writing,
}
use basedos.Fs.Vfs.Fd.Laws.{HasTable, open_file_lem, read_refused}
use basedos.Kernel.{Kernel}
use basedos.Memory.{put}
use basedos.Sound.{Ports}
use basedos.Shell.{Shell, max_input, fits}
use basedos.Shell.Execute.{run_file}
use basedos.Shell.Files.{
  cat, cat_opened, cat_loop, touch, cd, ls, write, o_create_write, join_words, write_opened,
}
use basedos.Shell.Files.Unreachable.{bare_root_lem}
use basedos.Shell.System.{Outcome, System}

-- the call has a result
abbrev pub Returns : {A : Type 0} → Option A → Type 0
Returns {A} o = (x : A) × (o ≡ some x)

-- The root is the one that vfs_initialize makes, the table of descriptors is whole, and the size of
-- the memory is known.
pub record IsStarted (n : ℕ) (sys : System n) : Type 0 where
  pub bare : sys.vfs.fs_root ≡ some bare_root
  pub table : HasTable sys.vfs.descriptors
  pub memory : (sys.kernel.total_memory == 0) ≡ false

slash : (c : ℕ) → (c == b'/') ≡ true → c ≡ b'/'
slash c e = ground arith

module _ (n : ℕ) (v : Vfs (memfs n)) (bare : v.fs_root ≡ some bare_root) where
  vfs_open-bare :
      (path : List ℕ) (flags : ℕ)
      → (vfs_open (memfs n) v path flags ≡ some (none, v))
        ⊎ ((w : Vfs (memfs n)) × (vfs_open (memfs n) v path flags ≡ some (some bare_root, w)))
  unfolding vfs_open open_path
  vfs_open-bare [] flags = inl refl
  vfs_open-bare (c ∷ []) flags = elim (Bool-cases (c == b'/')) [
    | inl e ↦ inr (rw (e, bare) (_, refl))
    | inr e ↦ inl (rw e refl)
  ]
  vfs_open-bare (c ∷ d ∷ path) flags = elim (Bool-cases (c == b'/')) [
    | inl e ↦ inl (
        subst (λ (k : ℕ). vfs_open (memfs n) v (k ∷ d ∷ path) flags ≡ some (none, v))
          (sym (slash c e)) (open_bare (memfs n) v d path flags bare))
    | inr e ↦ inl (rw e refl)
  ]

  -- the descriptor that open returns is negative, or stands for the root
  open_file-bare :
      (table : HasTable v.descriptors) (name : List ℕ) (flags : ℕ)
      → (fd : ℤ) × (v' : Vfs (memfs n)) × (open_file (memfs n) v name flags ≡ some (fd, v'))
        × ((fd ≡ failed)
            ⊎ ((i : ℕ) × (fd ≡ pos i)
                × (open_slot v'.descriptors (pos i)
                    ≡ some
                        (i, record { node = some bare_root; pos = 0; flags = flags }, bare_root))))
  unfolding open_file
  open_file-bare table name flags = elim (Option-cases (find_free v.descriptors 0)) [
    | inl full ↦ (failed, v, rw (full, open_file) refl, inl refl)
    | inr (i, free) ↦ elim (vfs_open-bare name flags) [
      | inl absent ↦ (failed, v, rw (free, absent, open_file) refl, inl refl)
      | inr (w, found) ↦
          let (v', opened, unused, slot, others, whole) =
            open_file_lem (memfs n) v table name flags i bare_root w free found in
          (pos i, v', opened, inr (i, refl, slot))
    ]
  ]

module _ (n : ℕ) where
  pub cat-Returns :
      (fuel buffer : ℕ) (args : List (List ℕ)) (sys : System n)
      → IsStarted n sys
      → Returns (cat n (suc fuel) buffer args sys)
  unfolding cat cat_opened cat_loop Option.bind
  cat-Returns fuel buffer [] sys st = (_, refl)
  cat-Returns fuel buffer (cmd ∷ []) sys st = (_, refl)
  cat-Returns fuel buffer (cmd ∷ name ∷ args) sys st =
      let (fd, v', opened, res) = open_file-bare n sys.vfs st.bare st.table name o_rdonly in
      elim res [
        | inl e ↦ rw (opened, e) (_, refl)
        | inr (i, e, slot) ↦
            let refused = read_refused (memfs n) v' (pos i) i _ bare_root buffer 1023 slot refl in
            rw (opened, e, refused) (_, refl)
      ]

  pub touch-Returns :
      (args : List (List ℕ)) (sys : System n) → IsStarted n sys → Returns (touch n args sys)
  unfolding touch
  touch-Returns [] sys st = (_, refl)
  touch-Returns (cmd ∷ []) sys st = (_, refl)
  touch-Returns (cmd ∷ name ∷ args) sys st =
      let (fd, v', opened, res) = open_file-bare n sys.vfs st.bare st.table name o_create_write in
      rw opened (_, refl)

  pub cd-Returns : (path : List ℕ) (sys : System n) → IsStarted n sys → Returns (cd n path sys)
  cd-Returns path sys st = (_, (bare_root_lem n sys path 0 st.bare).0)

  pub ls-Returns : (fuel : ℕ) (sys : System n) → IsStarted n sys → Returns (ls n (suc fuel) sys)
  ls-Returns fuel sys st = (_, (bare_root_lem n sys [] fuel st.bare).1)

  pub run_file-Returns :
      (inb : Ports → ℕ → ℕ) (fuel buffer : ℕ) (name : List ℕ) (args : List (List ℕ))
      (sys : System n)
      → IsStarted n sys
      → Returns (run_file n inb fuel buffer (name ∷ args) sys)
  unfolding run_file vfs_finddir Option.bind
  run_file-Returns inb fuel buffer name args sys st = rw (st.bare) (_, refl)

  write_file-bare :
      (v : Vfs (memfs n)) (i buf size : ℕ) (slot : Descriptor)
      → open_slot v.descriptors (pos i) ≡ some (i, slot, bare_root)
      → Returns (write_file (memfs n) v (pos i) buf size)
  unfolding write_file vfs_write
  write_file-bare v i buf size slot h = elim (Bool-cases (not_for_writing slot.flags)) [
    | inl e ↦ rw (h, write_file, e) (_, refl)
    | inr e ↦ rw (h, write_file, e) (_, refl)
  ]

  pub write-Returns :
      (buffer : ℕ) (cmd name : List ℕ) (words : List (List ℕ)) (sys : System n)
      → IsStarted n sys
      → length (join_words words) < 1024
      → Returns (write n buffer (cmd ∷ name ∷ words) sys)
  unfolding write write_opened Option.bind
  write-Returns buffer cmd name [] sys st h = (_, refl)
  write-Returns buffer cmd name (word ∷ words) sys st h =
      let (fd, v', opened, res) = open_file-bare n sys.vfs st.bare st.table name o_create_write in
      let room : fits 1024 (join_words (word ∷ words)) ≡ true = ground arith in
      elim res [
        | inl e ↦ rw (opened, e) (_, refl)
        | inr (i, e, slot) ↦
            let text = join_words (word ∷ words) in
            let m = put v'.state.memory buffer (text ++ replicate (1024 - length text) 0) in
            let filled = record v' { state = record v'.state { memory = m } } in
            let (r, written) = write_file-bare filled i buffer (length text) _ slot in
            rw (opened, e, room, written) (_, refl)
      ]
