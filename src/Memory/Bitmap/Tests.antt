-- ===== src/Memory/Bitmap/Tests.antt =====
-- bitmap.c on a heap of four blocks: tests, and the theorems at it.
use tp2_so_2c.Prelude.{
  ℕ, ◌+◌, ◌*◌, ◌≤◌, ◌<◌, ◌≡◌, ◌≢◌, refl, ◌⊎◌, none, some, [], ◌∷◌, arith, get_elem?,
}
use tp2_so_2c.Memory.Bitmap.{free, used, border, Manager, block_size, mm_create, mm_alloc, mm_free}
use tp2_so_2c.Memory.Bitmap.Blocks.{IsValid, FreeRun}
use tp2_so_2c.Memory.Bitmap.Alloc.{
  mm_create-IsValid, mm_alloc-IsValid, mm_alloc-some, mm_alloc-none,
}
use tp2_so_2c.Memory.Bitmap.Release.{mm_free-IsValid, mm_free-mm_alloc, mm_alloc_disjoint}

-- What `mm_create` makes of 300 bytes at address 1000: 32 for the struct, 4 of bitmap, four blocks.
abbrev heap : Manager
heap = record {
  bitmap = free ∷ free ∷ free ∷ free ∷ [];
  real_mem_start = 1036;
  block_count = 4;
  used_blocks_count = 0;
}

-- The heap after a request of 100 bytes.
abbrev heap_two : Manager
heap_two = record heap { bitmap = border ∷ used ∷ free ∷ free ∷ []; used_blocks_count = 2 }

abbrev heap_three : Manager
heap_three = record heap { bitmap = border ∷ used ∷ border ∷ free ∷ []; used_blocks_count = 3 }

mm_create_small : mm_create 1000 32 ≡ none
unfolding mm_create
mm_create_small = refl

mm_create_runs : mm_create 1000 300 ≡ some heap
unfolding mm_create
mm_create_runs = refl

mm_alloc_two : mm_alloc heap 100 ≡ (some 1036, heap_two)
unfolding mm_alloc
mm_alloc_two = refl

mm_alloc_three : mm_alloc heap_two 64 ≡ (some 1164, heap_three)
unfolding mm_alloc
mm_alloc_three = refl

-- A request in the gap that a freed block leaves.
mm_free_first :
    mm_free heap_three 1040
    ≡ record heap { bitmap = free ∷ free ∷ border ∷ free ∷ []; used_blocks_count = 1 }
unfolding mm_free
mm_free_first = refl

heap-IsValid : IsValid heap
heap-IsValid = (mm_create-IsValid 1000 300 (omega arith) mm_create_runs).0

mm_alloc-IsValid_example : IsValid (mm_alloc heap 100).1
mm_alloc-IsValid_example = mm_alloc-IsValid 100 heap-IsValid

heap_two-IsValid : IsValid heap_two
unfolding mm_alloc
heap_two-IsValid = mm_alloc-IsValid 100 heap-IsValid

mm_free-IsValid_example : IsValid (mm_free heap_two 1036)
mm_free-IsValid_example = mm_free-IsValid 1036 heap_two-IsValid

mm_alloc-some_example :
    (n : ℕ) × (start : ℕ) × (100 ≤ n * block_size)
    × (n * block_size < 100 + block_size)
    × (1036 ≡ heap.real_mem_start + start * block_size)
    × (start + n ≤ heap.block_count)
    × FreeRun heap.bitmap start n
    × ((s : ℕ) → FreeRun heap.bitmap s n → start ≤ s)
    × ((k : ℕ) → start ≤ k → k < start + n → get_elem? heap_two.bitmap k ≢ some free)
    × ((k : ℕ)
        → (k < start) ⊎ (start + n ≤ k)
        → get_elem? heap_two.bitmap k ≡ get_elem? heap.bitmap k)
mm_alloc-some_example = mm_alloc-some 100 heap-IsValid mm_alloc_two

mm_alloc_full : (mm_alloc heap_two 200).0 ≡ none
unfolding mm_alloc
mm_alloc_full = refl

mm_alloc-none_example : ¬ FreeRun heap_two.bitmap 1 4
mm_alloc-none_example =
    mm_alloc-none 200 heap_two-IsValid (omega arith) (omega arith) mm_alloc_full 1 4 (omega arith)

mm_free-mm_alloc_example : mm_free heap_two 1036 ≡ heap
mm_free-mm_alloc_example = mm_free-mm_alloc 100 heap-IsValid mm_alloc_two

mm_alloc_disjoint_example : (1036 + 100 ≤ 1164) ⊎ (1164 + 64 ≤ 1036)
mm_alloc_disjoint_example = mm_alloc_disjoint 100 64 heap-IsValid mm_alloc_two mm_alloc_three
