-- ===== src/Fs/Vfs/Fd/Table.antt =====
-- The table of file descriptors of fs/vfs.c: its slots, before and after one of them is set.
use basedos.Prelude.{
  ℕ, suc, ◌+◌, ◌<◌, ◌≡◌, ◌≢◌, refl, ap, sym, arith, List, [], ◌∷◌, none, some, get_elem?, set,
  length, get_elem?-set_self, get_elem?-set_ne, Option-cases, inl, inr,
}
use basedos.Prelude.Int.{ℤ, pos, negsuc}
use basedos.Fs.{Node}
use basedos.Fs.Vfs.{Descriptor, max_descriptors}
use basedos.Fs.Vfs.Fd.{find_free, open_slot}

-- The slot that is found is in the table, and free.
pub find_free_lem :
    (slots : List Descriptor) (i k : ℕ)
    → find_free slots i ≡ some k
    → (j : ℕ) × (k ≡ i + j)
      × (slot : Descriptor) × (get_elem? slots j ≡ some slot)
      × (slot.node ≡ none)
      × (j < length slots)
unfolding find_free
find_free_lem [] i k h = cc
find_free_lem (slot ∷ slots) i k h = elim (Option-cases slot.node) [
  | inl free ↦ (0, ground arith, slot, refl, free, omega arith)
  | inr (node, used) ↦
      let (j, e, found, at, free, inside) = find_free_lem slots (suc i) k (ground arith) in
      (suc j, omega arith, found, at, free, omega arith)
]

module _ (slots : List Descriptor) (i : ℕ) (slot : Descriptor) where
  pub open_slot-set_self :
      (node : Node)
      → i < length slots
      → i < max_descriptors
      → slot.node ≡ some node
      → open_slot (set slots i slot) (pos i) ≡ some (i, slot, node)
  unfolding open_slot
  open_slot-set_self node inside below used = ground (arith, get_elem?-set_self slots i slot inside)

  pub open_slot-set_free :
      i < length slots → slot.node ≡ none → open_slot (set slots i slot) (pos i) ≡ none
  unfolding open_slot
  open_slot-set_free inside free = ground (arith, get_elem?-set_self slots i slot inside)

  pub open_slot-set_ne :
      (fd : ℤ) → fd ≢ pos i → open_slot (set slots i slot) fd ≡ open_slot slots fd
  unfolding open_slot
  open_slot-set_ne (negsuc n) h = refl
  open_slot-set_ne (pos j) h =
      rw (get_elem?-set_ne slots {i = i} {j = j} slot (λ e. h (ap pos (sym e))))

-- Where a descriptor is open, its slot is in the table.
pub open_slot_lem :
    (slots : List Descriptor) (fd : ℤ) (i : ℕ) (slot : Descriptor) (node : Node)
    → open_slot slots fd ≡ some (i, slot, node)
    → (fd ≡ pos i)
      × (i < max_descriptors)
      × (get_elem? slots i ≡ some slot)
      × (slot.node ≡ some node)
unfolding open_slot
open_slot_lem slots (negsuc n) i slot node h = cc
open_slot_lem slots (pos j) i slot node h = ground (arith, Option-cases (get_elem? slots j))

pub open_slot-free :
    (slots : List Descriptor) (i : ℕ) (slot : Descriptor)
    → get_elem? slots i ≡ some slot
    → slot.node ≡ none
    → open_slot slots (pos i) ≡ none
unfolding open_slot
open_slot-free slots i slot at free = ground arith
