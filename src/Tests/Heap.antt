-- ===== src/Tests/Heap.antt =====
-- kernel/memory.c at concrete inputs.
use mathlib.Core.Path.{refl}
use basedos.Prelude.{ℕ, ◌+◌, ◌≡◌, arith, List, [], ◌∷◌}
use basedos.Heap.{Heap, IsValid, heap_size, kfree}
use basedos.Heap.Alloc.{Ordered, kmalloc_all, kmalloc_all-Ordered}
use basedos.Heap.Free.{kfree_keeps}

abbrev used : Heap
used = record { base = 0x20000; pos = 312; total = 0 }

used-IsValid : IsValid used
used-IsValid = omega arith

-- the requests of memfs_initialize; the third is more than the heap
abbrev requests : List ℕ
requests = 1792 ∷ 128 ∷ 0x40_0000 ∷ 312 ∷ []

kmalloc_all-Ordered_example :
    Ordered (0x20000 + 312) (0x20000 + heap_size) (kmalloc_all used requests)
kmalloc_all-Ordered_example = kmalloc_all-Ordered used requests used-IsValid (omega arith)

kfree_keeps_example : kfree used (0x20000 + 308) ≡ used
kfree_keeps_example = kfree_keeps used 308 used-IsValid (omega arith) refl
