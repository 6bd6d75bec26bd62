-- ===== src/Memory/Bitmap/Blocks.antt =====
-- Runs of blocks in the bitmap of bitmap.c, and how many blocks are not free.
use tp2_so_2c.Prelude.{
  ℕ, zero, suc, ◌+◌, ◌-◌, ◌≤◌, ◌<◌, ◌≡◌, ◌≢◌, refl, some, List, [], ◌∷◌, arith, length, get_elem?,
  set, replicate, lt-length,
}
use tp2_so_2c.Memory.Bitmap.{Block, free, used, border, Manager}

abbrev pub weight : Block → ℕ
weight free = 0
weight used = 1
weight border = 1

-- The number of blocks that are in use.
abbrev pub busy : List Block → ℕ
busy [] = 0
busy (b ∷ bs) = weight b + busy bs

-- The `n` blocks from `s` on exist and are free.
abbrev pub FreeRun : List Block → ℕ → ℕ → Type 0
FreeRun bs s n = (k : ℕ) → s ≤ k → k < s + n → get_elem? bs k ≡ some free

-- A USED block follows a block that is in use.
abbrev pub FollowsBusy : List Block → ℕ → Type 0
FollowsBusy bs k = get_elem? bs k ≡ some used → (j : ℕ) × (k ≡ suc j) × (get_elem? bs j ≢ some free)

-- What every operation of the allocator keeps.
pub record IsValid (m : Manager) : Type 0 where
  pub counted : m.block_count ≡ length m.bitmap
  pub small : m.block_count < 18446744073709551616
  pub placed : 0 < m.real_mem_start
  pub used_busy : m.used_blocks_count ≡ busy m.bitmap
  pub chained : (k : ℕ) → FollowsBusy m.bitmap k

pub busy-set :
    (bs : List Block) (i : ℕ) (b v : Block)
    → get_elem? bs i ≡ some b
    → busy (set bs i v) + weight b ≡ busy bs + weight v
busy-set [] i b v h = absurd (cc)
busy-set (x ∷ bs) zero b v h = ground arith
busy-set (x ∷ bs) (suc i) b v h = omega (arith, busy-set bs i b v h)

pub busy-le-length : (bs : List Block) → busy bs ≤ length bs
busy-le-length [] = omega arith
busy-le-length (free ∷ bs) = omega (arith, busy-le-length bs)
busy-le-length (used ∷ bs) = omega (arith, busy-le-length bs)
busy-le-length (border ∷ bs) = omega (arith, busy-le-length bs)

pub busy-replicate : (n : ℕ) → busy (replicate n free) ≡ 0
busy-replicate zero = refl
busy-replicate (suc n) = omega (arith, busy-replicate n)

-- A block in use is counted.
pub busy_pos : (bs : List Block) (i : ℕ) (b : Block) → get_elem? bs i ≡ some b → weight b ≤ busy bs
busy_pos [] i b h = absurd (cc)
busy_pos (x ∷ bs) zero b h = ground arith
busy_pos (x ∷ bs) (suc i) b h = omega (arith, busy_pos bs i b h)

-- A run of free blocks lies inside the bitmap.
pub FreeRun-length : (bs : List Block) (s n : ℕ) → 0 < n → FreeRun bs s n → s + n ≤ length bs
FreeRun-length bs s n h run =
    omega (arith, lt-length bs (s + n - 1) free (run (s + n - 1) (omega arith) (omega arith)))
