-- ===== src/Heap.antt =====
-- kernel/memory.c: the linear allocator.
pub mod Alloc
pub mod Free
use basedos.Prelude.{
  ℕ, ◌+◌, ◌-◌, ◌*◌, ◌/◌, ◌%◌, ◌^◌, ◌≤◌, ◌<◌, ◌≡◌, ltb, ◌==◌, if◌then◌else◌, List, [], ◌∷◌,
}
use basedos.Memory.{null}

-- HEAP_SIZE
abbrev pub heap_size : ℕ
heap_size = 0x10000

abbrev pub word : ℕ
word = 2 ^ 32

-- The static variables: `base` is the address where the linker puts the array `heap`.
pub record Heap : Type 0 where
  pub base : ℕ
  pub pos : ℕ
  pub total : ℕ

-- `(size + 3) & ~3` on a 32-bit `size_t`
abbrev pub align : ℕ → ℕ
align size = (size + 3) % word / 4 * 4

-- detect_memory: the new state, and the size that it returns
unfoldable pub detect_memory : Heap → Heap × ℕ
detect_memory h = (record h { total = 64 * 1024 * 1024 }, 64 * 1024 * 1024)

-- kmalloc: the address of the block, or NULL, and the new state
unfoldable pub kmalloc : Heap → ℕ → ℕ × Heap
kmalloc h size =
    if ltb heap_size ((h.pos + size) % word)
    then (null, h)
    else (h.base + h.pos, record h { pos = (h.pos + align size) % word })

-- `&heap[heap_pos - 1]`, with the unsigned index and the address wrapping
abbrev pub last_byte : Heap → ℕ
last_byte h = (h.base + (h.pos + word - 1) % word) % word

unfoldable pub kfree : Heap → ℕ → Heap
kfree h ptr = if ptr == last_byte h then record h { pos = (ptr + word - h.base) % word } else h

-- The array lies in the address space and not at NULL; the next free byte is a multiple of four.
pub record IsValid (h : Heap) : Type 0 where
  pub placed : 0 < h.base
  pub in_space : h.base + heap_size < word
  pub in_heap : h.pos ≤ heap_size
  pub aligned : h.pos % 4 ≡ 0
