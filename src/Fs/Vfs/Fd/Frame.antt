-- ===== src/Fs/Vfs/Fd/Frame.antt =====
-- What the calls of fs/vfs.c on files leave as it was: the root, and the size of the table of
-- descriptors.
use mathlib.Core.Option
use mathlib.Core.Path.{subst}
use basedos.Prelude.{
  ℕ, ◌≡◌, ◌==◌, refl, ◌∙◌, ◌⊎◌, sym, arith, List, [], ◌∷◌, Option, none, some, length, length-set,
  Bool-cases, Option-cases, inl, inr,
}
use basedos.Prelude.Int.{ℤ, pos}
use basedos.Fs.{Node}
use basedos.Fs.Vfs.{Driver, Descriptor, free_slot, Vfs, vfs_open, open_path}
use basedos.Fs.Vfs.Fd.{
  failed, find_free, open_slot, set_slot, install, open_file, close_file, advance, read_file,
  write_file, not_for_reading, not_for_writing,
}
use basedos.Fs.Vfs.Fd.Laws.{HasTable, open_file_lem}

module _ (d : Driver) where
  -- the same root, and as many descriptors
  pub record Kept (v v' : Vfs d) : Type 0 where
    pub root : v'.fs_root ≡ v.fs_root
    pub size : length v'.descriptors ≡ length v.descriptors

  Kept-set_slot :
      (v : Vfs d) (i : ℕ) (slot : Descriptor) (s : d.State) → Kept v (set_slot d v i slot s)
  unfolding set_slot
  Kept-set_slot v i slot s = record { root = refl; size = length-set v.descriptors i slot }

  pub Kept-refl : (v : Vfs d) → Kept v v
  Kept-refl v = record { root = refl; size = refl }

  pub Kept-trans : (v w x : Vfs d) → Kept v w → Kept w x → Kept v x
  Kept-trans v w x f g = record { root = g.root ∙ f.root; size = g.size ∙ f.size }

  -- the result of a call, if it has one, keeps them
  abbrev pub Keeps : {A : Type 0} → Vfs d → Option (A × Vfs d) → Type 0
  Keeps v none = Unit {0}
  Keeps v (some r) = Kept v r.1

  pub Keeps-some :
      {A : Type 0} {o : Option (A × Vfs d)}
      → (v v' : Vfs d) (r : A) → Keeps v o
      → o ≡ some (r, v')
      → Kept v v'
  Keeps-some v v' r k h = subst (Keeps v) h k

  with_state-Keeps :
      {A : Type 0}
      → (v w : Vfs d) (o : Option (A × d.State)) → Kept v w
      → Keeps v (Option.map (λ r. (r.0, record w { state = r.1 })) o)
  with_state-Keeps v w none k = tt
  with_state-Keeps v w (some r) k = record { root = k.root; size = k.size }

  found_from :
      (v : Vfs d) (root : Node)
      → v.fs_root ≡ some root
      → (path : List ℕ)
      → Keeps
          (record v { fs_root = some root })
          (Option.map
            (λ r. (r.0, record v { state = r.1 }))
            (open_path d (length path) v.state root path))
  found_from v root f path =
      with_state-Keeps (record v { fs_root = some root }) v
        (open_path d (length path) v.state root path) (record { root = f; size = refl })

  pub vfs_open-Keeps : (v : Vfs d) (name : List ℕ) (flags : ℕ) → Keeps v (vfs_open d v name flags)
  unfolding vfs_open
  vfs_open-Keeps v [] flags = Kept-refl v
  vfs_open-Keeps v (c ∷ []) flags = elim (Bool-cases (c == b'/')) [
    | inl e ↦ elim (Option-cases v.fs_root) [
      | inl f ↦ rw (e, f) (record { root = f; size = refl })
      | inr (root, f) ↦ rw (e, f) (found_from v root f [])
    ]
    | inr e ↦ rw e (Kept-refl v)
  ]
  vfs_open-Keeps v (c ∷ b ∷ path) flags = elim (Bool-cases (c == b'/')) [
    | inl e ↦ elim (Option-cases v.fs_root) [
      | inl f ↦ rw (e, f) tt
      | inr (root, f) ↦ rw (e, f) (found_from v root f (b ∷ path))
    ]
    | inr e ↦ rw e (Kept-refl v)
  ]

  open_found :
      (v w : Vfs d) (i flags : ℕ) (r : Option Node)
      → Kept v w
      → Kept v
          (elim r as (λ x. ℤ × Vfs d) [
            | none ↦ (failed, w)
            | some node ↦ install d w i node flags
          ]).1
  unfolding install
  open_found v w i flags none k = k
  open_found v w i flags (some node) k = Kept-trans v w _ k (Kept-set_slot w i _ _)

  pub open_file-Keeps : (v : Vfs d) (name : List ℕ) (flags : ℕ) → Keeps v (open_file d v name flags)
  unfolding open_file
  open_file-Keeps v name flags = elim (Option-cases (find_free v.descriptors 0)) [
    | inl full ↦ rw (full, open_file) (Kept-refl v)
    | inr (i, free) ↦ elim (Option-cases (vfs_open d v name flags)) [
      | inl fault ↦ rw (free, fault, open_file) tt
      | inr ((r, w), found) ↦
          rw (free, found, open_file)
            (open_found v w i flags r (Keeps-some v w r (vfs_open-Keeps v name flags) found))
    ]
  ]

  pub close_file-Kept : (v : Vfs d) (fd : ℤ) → Kept v (close_file d v fd).1
  unfolding close_file
  close_file-Kept v fd = elim (Option-cases (open_slot v.descriptors fd)) [
    | inl e ↦ rw (e, close_file) (Kept-refl v)
    | inr ((i, slot, node), e) ↦ rw (e, close_file) (Kept-set_slot v i free_slot _)
  ]

  advance-Keeps :
      (v : Vfs d) (i : ℕ) (slot : Descriptor) (o : Option (ℕ × d.State))
      → Keeps v (Option.map (advance d v i slot) o)
  unfolding advance
  advance-Keeps v i slot none = tt
  advance-Keeps v i slot (some r) = Kept-set_slot v i _ _

  pub read_file-Keeps : (v : Vfs d) (fd : ℤ) (buf size : ℕ) → Keeps v (read_file d v fd buf size)
  unfolding read_file
  read_file-Keeps v fd buf size = elim (Option-cases (open_slot v.descriptors fd)) [
    | inl e ↦ rw (e, read_file) (Kept-refl v)
    | inr ((i, slot, node), e) ↦ elim (Bool-cases (not_for_reading slot.flags)) [
      | inl f ↦ rw (e, read_file, f) (Kept-refl v)
      | inr f ↦ rw (e, read_file, f) (advance-Keeps v i slot _)
    ]
  ]

  pub write_file-Keeps : (v : Vfs d) (fd : ℤ) (buf size : ℕ) → Keeps v (write_file d v fd buf size)
  unfolding write_file
  write_file-Keeps v fd buf size = elim (Option-cases (open_slot v.descriptors fd)) [
    | inl e ↦ rw (e, write_file) (Kept-refl v)
    | inr ((i, slot, node), e) ↦ elim (Bool-cases (not_for_writing slot.flags)) [
      | inl f ↦ rw (e, write_file, f) (Kept-refl v)
      | inr f ↦ rw (e, write_file, f) (advance-Keeps v i slot _)
    ]
  ]

  one_result :
      (fd fd' : ℤ) (v v' : Vfs d) (o : Option (ℤ × Vfs d))
      → o ≡ some (fd, v)
      → o ≡ some (fd', v')
      → (fd ≡ fd') × (v ≡ v')
  one_result fd fd' v v' o h k = (cc, cc)

  no_result : (fd : ℤ) (v : Vfs d) (o : Option (ℤ × Vfs d)) → o ≡ some (fd, v) → o ≡ none → ⊥
  no_result fd v o h k = ground arith

  -- the descriptor that open returns: it is negative, or open with the flags given
  pub opened_slot :
      (v v' : Vfs d) (name : List ℕ) (flags : ℕ) (fd : ℤ)
      → HasTable v.descriptors
      → open_file d v name flags ≡ some (fd, v')
      → (fd ≡ failed)
        ⊎ ((i : ℕ) × (node : Node) × (fd ≡ pos i)
            × (open_slot v'.descriptors (pos i)
                ≡ some (i, record { node = some node; pos = 0; flags = flags }, node)))
  unfolding open_file
  opened_slot v v' name flags fd table h = elim (Option-cases (find_free v.descriptors 0)) [
    | inl full ↦ inl ((one_result fd failed v' v _ h (rw (full, open_file) refl)).0)
    | inr (i, free) ↦ elim (Option-cases (vfs_open d v name flags)) [
      | inl fault ↦
          let stuck : open_file d v name flags ≡ none = rw (free, fault, open_file) refl in
          absurd (no_result fd v' _ h stuck)
      | inr ((none, w), found) ↦
          inl ((one_result fd failed v' w _ h (rw (free, found, open_file) refl)).0)
      | inr ((some node, w), found) ↦
          let (u, opened, unused, slot, others, whole) =
            open_file_lem d v table name flags i node w free found in
          let (descriptor, same) = one_result fd (pos i) v' u _ h opened in
          inr (i, node, descriptor, rw (sym same) at slot)
    ]
  ]
