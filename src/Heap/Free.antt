-- ===== src/Heap/Free.antt =====
-- What kfree gives back.
use basedos.Prelude.{ℕ, ◌+◌, ◌%◌, ◌≤◌, ◌≡◌, arith}
use basedos.Heap.{Heap, IsValid, heap_size, kfree}

-- kfree of an address that is a multiple of four bytes into the heap, as every address that kmalloc
-- returns is, changes nothing: no memory is ever given back.
pub kfree_keeps :
    (h : Heap) (offset : ℕ)
    → IsValid h
    → offset ≤ heap_size
    → offset % 4 ≡ 0
    → kfree h (h.base + offset) ≡ h
unfolding kfree
kfree_keeps h offset v inside a = ground arith
