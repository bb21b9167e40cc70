-- ===== src/Fs/Vfs/Path.antt =====
-- vfs_open of fs/vfs.c against the walk along a path's components, and what a mount changes.
use mathlib.Core.Option
use basedos.Prelude.{
  ℕ, zero, suc, ◌≤◌, ◌<◌, ◌≡◌, ◌≢◌, refl, ◌∙◌, ap, fun_ext, arith, leb, ◌==◌, if◌then◌else◌, List,
  [], ◌∷◌, Option, none, some, false, length, take, length-take, Bool-cases, Option-cases, inl, inr,
}
use basedos.Str.Text.{index_of}
use basedos.Fs.{Node}
use basedos.Fs.Vfs.{
  Driver, Vfs, component_length, follow, skip_component, vfs_finddir, open_path, vfs_open,
}

-- `c` put in front of the first of the names
pub extend_first : ℕ → List (List ℕ) → List (List ℕ)
extend_first c [] = (c ∷ []) ∷ []
extend_first c (name ∷ names) = (c ∷ name) ∷ names

-- The names between the slashes of a path; a slash at the end adds none.
pub components : List ℕ → List (List ℕ)
components [] = []
components (c ∷ path) = if c == b'/' then [] ∷ components path else extend_first c (components path)

module _ (d : Driver) where
  open d use {State}

  -- A name in the current directory at a time; a name of 256 bytes or more is not found.
  pub walk : State → Node → List (List ℕ) → Option (Option Node × State)
  walk s current [] = some (some current, s)
  walk s current (name ∷ names) =
      if leb 256 (length name)
      then some (none, s)
      else follow d (vfs_finddir d s current name) (λ s' node. walk s' node names)

component_length-slash : (c : ℕ) (path : List ℕ) → c ≡ b'/' → component_length (c ∷ path) ≡ 0
unfolding component_length index_of
component_length-slash c path h = ground arith

component_length-other :
    (c : ℕ) (path : List ℕ) → c ≢ b'/' → component_length (c ∷ path) ≡ suc (component_length path)
unfolding component_length index_of
component_length-other c path h = ground (arith, Option-cases (index_of b'/' path))

component_length-le : (path : List ℕ) → component_length path ≤ length path
unfolding component_length index_of
component_length-le [] = omega arith
component_length-le (c ∷ path) =
    ground (arith, component_length-le path, Option-cases (index_of b'/' path))

component_length-nil : component_length [] ≡ 0
unfolding component_length index_of
component_length-nil = refl

skip_short : (path : List ℕ) (n : ℕ) → length (skip_component path n) ≤ length path
unfolding skip_component
skip_short [] zero = omega arith
skip_short [] (suc n) = omega arith
skip_short (c ∷ path) zero = ground arith
skip_short (c ∷ path) (suc n) = omega (arith, skip_short path n)

-- The code's cut of a path: its first component and the rest.
pub components_cut :
    (c : ℕ) (path : List ℕ)
    → let p = c ∷ path in
      components p
      ≡ take (component_length p) p ∷ components (skip_component p (component_length p))
unfolding components extend_first skip_component
components_cut c [] = elim (Bool-cases (c == b'/')) [
  | inl e ↦ rw (component_length-slash c [] (ground arith), e)
  | inr e ↦ rw (component_length-other c [] (ground arith), component_length-nil, e)
]
components_cut c (e ∷ path) = elim (Bool-cases (c == b'/')) [
  | inl h ↦ rw (component_length-slash c (e ∷ path) (ground arith), h)
  | inr h ↦
      rw (component_length-other c (e ∷ path) (ground arith), h)
        (ap (extend_first c) (components_cut e path))
]

skip_component-lt :
    (c : ℕ) (path : List ℕ)
    → length (skip_component (c ∷ path) (component_length (c ∷ path))) < length (c ∷ path)
unfolding skip_component
skip_component-lt c path = elim (Bool-cases (c == b'/')) [
  | inl e ↦ rw (component_length-slash c path (ground arith)) (ground arith)
  | inr e ↦
      rw (component_length-other c path (ground arith))
        (omega (arith, skip_short path (component_length path)))
]

-- one step of the loop of vfs_open against one of the walk
module _ (d : Driver) where
  open d use {State}

  open_path-walk :
      (fuel : ℕ) (s : State) (current : Node) (path : List ℕ)
      → length path ≤ fuel
      → open_path d fuel s current path ≡ walk d s current (components path)
  unfolding open_path walk
  open_path-walk fuel s current [] h = unfold components in refl
  open_path-walk zero s current (c ∷ path) h = absurd (omega arith)
  open_path-walk (suc fuel) s current (c ∷ path) h =
      let p = c ∷ path in
      let len = component_length p in
      let long : length (take len p) ≡ len =
        length-take len p ∙ omega (arith, component_length-le p) in
      let rest = skip_component p len in
      let shorter = skip_component-lt c path in
      let ih : (s' : State) (node : Node)
          → open_path d fuel s' node rest ≡ walk d s' node (components rest) =
        λ s' node. open_path-walk fuel s' node rest (omega (arith, shorter)) in
      rw (components_cut c path, long)
        (ap
          (λ k.
            if leb 256 len
            then some (none, s)
            else follow d (vfs_finddir d s current (take len p)) k)
          (fun_ext λ s'. fun_ext (ih s')))

  -- vfs_open of an absolute path ends, and walks from the root along the names between the slashes,
  -- one directory at a time; its flags do not matter.
  pub vfs_open-walk :
      (v : Vfs d) (root : Node) (path : List ℕ) (flags : ℕ)
      → v.fs_root ≡ some root
      → vfs_open d v (b'/' ∷ path) flags
        ≡ Option.map (λ r. (r.0, record v { state = r.1 })) (walk d v.state root (components path))
  unfolding vfs_open
  vfs_open-walk v root path flags h =
      rw (← open_path-walk (length path) v.state root path (omega arith)) (simp h)

  -- Nothing is found below a node without a finddir function.
  pub walk_bare :
      (s : State) (node : Node) (name : List ℕ) (names : List (List ℕ))
      → node.finddir ≡ false
      → walk d s node (name ∷ names) ≡ some (none, s)
  unfolding walk vfs_finddir
  walk_bare s node name names h = ground arith
