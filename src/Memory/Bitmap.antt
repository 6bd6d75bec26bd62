-- ===== src/Memory/Bitmap.antt =====
-- Kernel/utils/memory/bitmap.c: the block allocator with one state per 64-byte block.
pub mod Blocks
pub mod Scan
pub mod Mark
pub mod Clear
pub mod Alloc
pub mod Release
mod Tests
use tp2_so_2c.Prelude.{
  ℕ, zero, suc, ◌+◌, ◌-◌, ◌*◌, ◌/◌, ◌%◌, ◌^◌, ◌||◌, Option, none, some, List, [], ◌∷◌, ltb, leb,
  ◌==◌, if◌then◌else◌, get_elem?, set, replicate,
}

-- FREE, USED and BORDER, the values of an entry of `bitmap`.
pub data Block : Type 0 where
  free used border : Block

-- `MemoryManagerCDT`.
pub record Manager : Type 0 where
  pub bitmap : List Block
  pub real_mem_start : ℕ
  pub block_count : ℕ
  pub used_blocks_count : ℕ

abbrev pub block_size : ℕ
block_size = 64

-- sizeof(MemoryManagerCDT): four words of eight bytes.
abbrev pub struct_size : ℕ
struct_size = 32

-- POW2(17), the largest request that `mm_alloc` serves.
abbrev pub max_request : ℕ
max_request = 2 ^ 17

-- `uint64_t` subtraction, which wraps.
abbrev pub sub64 : ℕ → ℕ → ℕ
sub64 a b = (a + 2 ^ 64 - b) % 2 ^ 64

-- `mm_create`: the struct, then one byte of bitmap for each block, then the blocks.
pub mm_create : ℕ → ℕ → Option Manager
mm_create start_address total_size =
    let count = (total_size - struct_size) / (block_size + 1) in
    if leb total_size struct_size
    then none
    else if count == 0
    then none
    else some (record {
      bitmap = replicate count free;
      real_mem_start = start_address + struct_size + count;
      block_count = count;
      used_blocks_count = 0;
    })

-- The scan of `mm_alloc`, over the entries from index `i` on, with the length of the run of free
-- blocks that ends before `i`: the index at which the first run of `needed` free blocks starts.
-- The source's `i - freeBlocks + 1` is taken modulo 2^64, so it is `i + 1 - freeBlocks`.
pub find_run : ℕ → List Block → ℕ → ℕ → Option ℕ
find_run needed [] i run = none
find_run needed (free ∷ bs) i run =
    let rest = find_run needed bs (i + 1) (run + 1) in
    if run + 1 == needed then some (i + 1 - (run + 1)) else rest
find_run needed (used ∷ bs) i run = find_run needed bs (i + 1) 0
find_run needed (border ∷ bs) i run = find_run needed bs (i + 1) 0

-- for (j = start + 1; j <= i; j++) bitmap[j] = USED: `n` rounds from `j` on.
pub mark_used : ℕ → ℕ → List Block → List Block
mark_used zero j bs = bs
mark_used (suc n) j bs = mark_used n (j + 1) (set bs j used)

abbrev pub blocks_needed : ℕ → ℕ
blocks_needed bytes = (bytes + (block_size - 1)) / block_size

-- The block that `mm_alloc` has found, taken: BORDER at `start`, USED behind it.
pub take_run : Manager → ℕ → ℕ → ℕ × Manager
unfolding mark_used
take_run m needed start = (
  m.real_mem_start + start * block_size,
  record m {
    bitmap = mark_used (needed - 1) (start + 1) (set m.bitmap start border);
    used_blocks_count = m.used_blocks_count + needed;
  },
)

-- `mm_alloc` with a manager: the address, none for NULL.
pub mm_alloc : Manager → ℕ → Option ℕ × Manager
unfolding find_run take_run
mm_alloc m bytes =
    if (bytes == 0) || ltb max_request bytes
    then (none, m)
    else if ltb (sub64 m.block_count m.used_blocks_count) (blocks_needed bytes)
    then (none, m)
    else elim (find_run (blocks_needed bytes) m.bitmap 0 0) [
      | none ↦ (none, m)
      | some start ↦
          let (address, m') = take_run m (blocks_needed bytes) start in (some address, m')
    ]

-- for (i = index + 1; i < blockCount && bitmap[i] == USED; i++): at most `n` rounds from `i` on.
-- The result is the bitmap and `usedBlocksCount`.
pub clear_used : ℕ → ℕ → List Block → ℕ → List Block × ℕ
clear_used zero i bs count = (bs, count)
clear_used (suc n) i bs count = elim (get_elem? bs i) [
  | none ↦ (bs, count)
  | some b ↦ elim b [
    | used ↦ clear_used n (i + 1) (set bs i free) (sub64 count 1)
    | free ↦ (bs, count)
    | border ↦ (bs, count)
  ]
]

-- The part of `mm_free` behind its guards.
pub release_run : Manager → ℕ → Manager
unfolding clear_used
release_run m index =
    let (bs, count) =
      clear_used (m.block_count - (index + 1)) (index + 1) (set m.bitmap index free)
        (sub64 m.used_blocks_count 1) in
    record m { bitmap = bs; used_blocks_count = count }

-- `mm_free` with a manager: NULL is 0, and an address that does not start a block is ignored.
pub mm_free : Manager → ℕ → Manager
unfolding release_run
mm_free m ptr =
    let index = (ptr - m.real_mem_start) / block_size in
    if (ptr == 0) || ltb ptr m.real_mem_start
    then m
    else if leb m.block_count index
    then m
    else elim (get_elem? m.bitmap index) [
      | none ↦ m
      | some b ↦ elim b [ border ↦ release_run m index | free ↦ m | used ↦ m ]
    ]

-- `mem_t`.
pub record MemInfo : Type 0 where
  pub size : ℕ
  pub used_size : ℕ
  pub free_size : ℕ

-- `mm_info` with a manager.
pub mm_info : Manager → MemInfo
mm_info m = record {
  size = m.block_count;
  used_size = m.used_blocks_count;
  free_size = sub64 m.block_count m.used_blocks_count;
}
