-- ===== src/Heap/Alloc.antt =====
-- What kmalloc returns: blocks inside the heap that do not overlap.
use basedos.Prelude.{
  ℕ, ◌+◌, ◌-◌, ◌≤◌, ◌<◌, ◌≡◌, ◌≢◌, ◌⊎◌, inl, inr, arith, List, [], ◌∷◌, ltb, leb, Bool-cases,
  lt→ltb, if◌then◌else◌,
}
use basedos.Memory.{null}
use basedos.Heap.{Heap, IsValid, heap_size, word, kmalloc}

-- The state grows and keeps its place.
pub record Grows (h h' : Heap) : Type 0 where
  pub valid : IsValid h'
  pub base : h'.base ≡ h.base
  pub up : h.pos ≤ h'.pos

-- the outcome of a request that fits
pub record Fits (h : Heap) (size : ℕ) (r : ℕ × Heap) : Type 0 where
  pub start : r.0 ≡ h.base + h.pos
  pub not_null : r.0 ≢ null
  pub block : r.0 + size ≤ r.1.base + r.1.pos
  pub grows : Grows h r.1

pub kmalloc-Fits :
    (h : Heap) (size : ℕ) → IsValid h → h.pos + size ≤ heap_size → Fits h size (kmalloc h size)
unfolding kmalloc
kmalloc-Fits h size v fits = ground arith

kmalloc-null :
    (h : Heap) (size : ℕ)
    → IsValid h
    → h.pos + size < word
    → heap_size < h.pos + size
    → kmalloc h size ≡ (null, h)
unfolding kmalloc
kmalloc-null h size v small full = ground arith

-- A request that does not wrap the address arithmetic: if it fits behind the blocks so far, kmalloc
-- returns the next free address, which is not NULL, and reserves at least `size` bytes there, inside
-- the heap; if not, it returns NULL and changes nothing.
pub kmalloc_lem :
    (h : Heap) (size : ℕ)
    → IsValid h
    → h.pos + size < word
    → ((h.pos + size ≤ heap_size) × Fits h size (kmalloc h size))
      ⊎ ((heap_size < h.pos + size) × (kmalloc h size ≡ (null, h)))
kmalloc_lem h size v small = elim (Bool-cases (leb (h.pos + size) heap_size)) [
  | inl e ↦
      let fits : h.pos + size ≤ heap_size = ground arith in inl (fits, kmalloc-Fits h size v fits)
  | inr e ↦
      let full : heap_size < h.pos + size = ground arith in
      inr (full, kmalloc-null h size v small full)
]

-- A request so large that `heap_pos + size` wraps is granted, though it does not fit.
pub kmalloc_wraps :
    (h : Heap) (size : ℕ)
    → IsValid h
    → size < word
    → word ≤ h.pos + size
    → ((kmalloc h size).0 ≡ h.base + h.pos) × (heap_size < size)
unfolding kmalloc
kmalloc_wraps h size v w big = ground arith

-- a block: its address and its size
abbrev pub Block : Type 0
Block = ℕ × ℕ

-- The blocks that a sequence of requests is granted, in order.
pub kmalloc_all : Heap → List ℕ → List Block
kmalloc_all h [] = []
kmalloc_all h (size ∷ sizes) =
    let (p, h') = kmalloc h size in
    let rest = kmalloc_all h' sizes in if ltb null p then (p, size) ∷ rest else rest

-- Each request is small enough not to wrap.
abbrev pub AllSmall : List ℕ → Type 0
AllSmall [] = Unit {0}
AllSmall (size ∷ sizes) = (size < word - heap_size) × AllSmall sizes

-- In order, each block starts behind the end of those before it, and the last ends in time.
abbrev pub Ordered : ℕ → ℕ → List Block → Type 0
Ordered lo hi [] = lo ≤ hi
Ordered lo hi ((p, size) ∷ bs) = (lo ≤ p) × Ordered (p + size) hi bs

Ordered-mono : (lo lo' hi : ℕ) (bs : List Block) → lo ≤ lo' → Ordered lo' hi bs → Ordered lo hi bs
Ordered-mono lo lo' hi [] h o = omega arith
Ordered-mono lo lo' hi ((p, size) ∷ bs) h o = (omega (arith, o.0), o.1)

-- However many requests are made, if no size wraps the address arithmetic, the blocks granted lie one
-- behind the other without overlap, all of them inside the heap.
pub kmalloc_all-Ordered :
    (h : Heap) (sizes : List ℕ)
    → IsValid h
    → AllSmall sizes
    → Ordered (h.base + h.pos) (h.base + heap_size) (kmalloc_all h sizes)
unfolding kmalloc_all
kmalloc_all-Ordered h [] v small = omega arith
kmalloc_all-Ordered h (size ∷ sizes) v small =
    let h' = (kmalloc h size).1 in
    let top = h.base + heap_size in
    elim (kmalloc_lem h size v (omega (arith, small.0))) [
      | inl (fits, f) ↦
          let rest : Ordered (h.base + h'.pos) top (kmalloc_all h' sizes) =
            rw f.grows.base at (kmalloc_all-Ordered h' sizes f.grows.valid small.1) in
          let start : h.base + h.pos ≤ (kmalloc h size).0 = omega (arith, f.start) in
          let later =
            Ordered-mono ((kmalloc h size).0 + size) (h.base + h'.pos) top (kmalloc_all h' sizes)
              (omega (arith, f.block, f.grows.base)) rest in
          rw (lt→ltb null (kmalloc h size).0 (omega (arith, f.not_null))) (start, later)
      | inr (full, e) ↦ rw e (kmalloc_all-Ordered h sizes v small.1)
    ]
