-- ===== src/Memory/Bitmap/Release.antt =====
-- `mm_free` of bitmap.c: it keeps the heap valid, undoes `mm_alloc`, and ignores a second call.
use mathlib.Core.Path.{subst}
use tp2_so_2c.Prelude.{
  ℕ, ◌+◌, ◌-◌, ◌*◌, ◌/◌, ◌≤◌, ◌<◌, ◌≡◌, ◌≢◌, refl, ◌⊎◌, inl, inr, some, List, arith, get_elem?, set,
  length-set, get_elem?-set_self, ◌∙◌, sym, dec_lt, lt-length, set-set, set-get_elem?, ap,
}
use tp2_so_2c.Memory.Bitmap.{
  Block, free, border, Manager, block_size, blocks_needed, mark_used, take_run, mm_alloc, sub64,
  mm_free, release_run, clear_used, mm_info,
}
use tp2_so_2c.Memory.Bitmap.Blocks.{
  IsValid, FreeRun, busy, busy-set, busy-le-length, busy_pos, FreeRun-length,
}
use tp2_so_2c.Memory.Bitmap.Mark.{set-mark_used, FreeRun-room}
use tp2_so_2c.Memory.Bitmap.Clear.{
  length-clear_used, busy-clear_used, clear_used-FollowsBusy, clear_used-mark_used,
  clear_used-below, FollowsBusy-set_free,
}
use tp2_so_2c.Memory.Bitmap.Alloc.{
  mm_alloc-Served, Served-FirstFit, Served-Taken, Taken-busy, take_run-Taken,
}

-- The block that an address falls in.
abbrev index_of : Manager → ℕ → ℕ
index_of m ptr = (ptr - m.real_mem_start) / block_size

-- `mm_free` gives blocks back only where the address falls in a BORDER block of the heap.
mm_free-cases :
    (m : Manager) (ptr : ℕ)
    → (mm_free m ptr ≡ m)
      ⊎ ((mm_free m ptr ≡ release_run m (index_of m ptr))
          × (get_elem? m.bitmap (index_of m ptr) ≡ some border))
unfolding mm_free
mm_free-cases m ptr = ground arith

release_run-IsValid :
    (m : Manager) (i : ℕ)
    → IsValid m
    → get_elem? m.bitmap i ≡ some border
    → IsValid (release_run m i)
unfolding release_run
release_run-IsValid m i v at =
    let bs = set m.bitmap i free in
    let n : ℕ = m.block_count - (i + 1) in
    let c : ℕ = sub64 m.used_blocks_count 1 in
    let inside = lt-length m.bitmap i border at in
    let long = length-set m.bitmap i free in
    record {
      counted = omega (arith, length-clear_used n (i + 1) bs c);
      small = v.small;
      placed = v.placed;
      used_busy = busy-clear_used n (i + 1) bs c (omega arith) (
          omega (
            arith,
            busy-set m.bitmap i border free at,
            busy_pos m.bitmap i border at,
            busy-le-length m.bitmap,
          ));
      chained =
          clear_used-FollowsBusy n (i + 1) bs c (omega arith)
            (FollowsBusy-set_free m.bitmap i border at (λ k ne. v.chained k));
    }

-- Whatever address `mm_free` is called with, the heap stays valid.
pub mm_free-IsValid : {m : Manager} (ptr : ℕ) → IsValid m → IsValid (mm_free m ptr)
mm_free-IsValid {m} ptr v = elim (mm_free-cases m ptr) [
  | inl same ↦ rw same v
  | inr (freed, at) ↦ rw freed (release_run-IsValid m (index_of m ptr) v at)
]

-- A run that has just been taken is given back whole.
release_run-take_run :
    (m : Manager) (start n : ℕ)
    → IsValid m
    → 0 < n
    → FreeRun m.bitmap start n
    → release_run (take_run m n start).1 start ≡ m
unfolding release_run take_run
release_run-take_run m start n v pos run =
    let bs = m.bitmap in
    let first = run start (omega arith) (omega arith) in
    let fits = FreeRun-length bs start n pos run in
    let undone : set (mark_used (n - 1) (start + 1) (set bs start border)) start free
        ≡ mark_used (n - 1) (start + 1) bs =
      set-mark_used (n - 1) (start + 1) start (set bs start border) free (omega arith)
      ∙ ap (mark_used (n - 1) (start + 1))
          (set-set bs start border free ∙ set-get_elem? bs start free first) in
    let room = FreeRun-room bs start n run in
    let count : sub64 (m.used_blocks_count + n) 1 ≡ m.used_blocks_count + (n - 1) = omega arith in
    let back =
      clear_used-mark_used (m.block_count - (start + 1)) (n - 1) (start + 1) bs m.used_blocks_count
        (omega arith) (λ k h l. run k (omega arith) (omega arith))
        (λ at.
          let (j, next, busy_at) = v.chained (start + 1 + (n - 1)) at in
          busy_at (run j (omega arith) (omega arith)))
        (omega arith) in
    rw (undone, count, back)

-- An address that starts a BORDER block is accepted.
mm_free-hit :
    (m : Manager) (start : ℕ)
    → 0 < m.real_mem_start
    → start < m.block_count
    → get_elem? m.bitmap start ≡ some border
    → mm_free m (m.real_mem_start + start * block_size) ≡ release_run m start
unfolding mm_free
mm_free-hit m start placed inside at =
    let index : index_of m (m.real_mem_start + start * block_size) ≡ start = omega arith in
    rw index (ground (arith, at))

-- A block that `mm_alloc` has handed out is given back by `mm_free`, whatever it held: the heap is
-- what it was before the request.
pub mm_free-mm_alloc :
    {m : Manager} (bytes : ℕ) {a : ℕ} {m' : Manager}
    → IsValid m
    → mm_alloc m bytes ≡ (some a, m')
    → mm_free m' a ≡ m
unfolding take_run
mm_free-mm_alloc {m} bytes {a} {m'} v h =
    let n : ℕ = blocks_needed bytes in
    let d = mm_alloc-Served m bytes h in
    let run = (Served-FirstFit m bytes a m' d).0 in
    let t = take_run-Taken m d.start n d.size run in
    rw (d.taken, d.address)
      (mm_free-hit (take_run m n d.start).1 d.start v.placed
          (omega (arith, FreeRun-length m.bitmap d.start n d.size run)) t.head
        ∙ release_run-take_run m d.start n v d.size run)

-- The block that is given back is free, and is no BORDER for a second call.
release_run-freed :
    (m : Manager) (ptr i : ℕ)
    → i ≡ index_of m ptr
    → get_elem? m.bitmap i ≡ some border
    → get_elem? (release_run m i).bitmap (index_of (release_run m i) ptr) ≢ some border
unfolding release_run
release_run-freed m ptr i e at h =
    let bs = set m.bitmap i free in
    let c : ℕ = sub64 m.used_blocks_count 1 in
    let kept = clear_used-below (m.block_count - (i + 1)) (i + 1) bs c i (omega arith) in
    let self = get_elem?-set_self m.bitmap i free (lt-length m.bitmap i border at) in
    let there =
      subst (λ x. get_elem? (clear_used (m.block_count - (i + 1)) (i + 1) bs c).0 x ≡ some border)
        (sym e) h in
    cc

-- A second `mm_free` of the same address changes nothing.
pub mm_free-mm_free : (m : Manager) (ptr : ℕ) → mm_free (mm_free m ptr) ptr ≡ mm_free m ptr
mm_free-mm_free m ptr = elim (mm_free-cases m ptr) [
  | inl same ↦ ap (λ x. mm_free x ptr) same
  | inr (freed, at) ↦ elim (mm_free-cases (mm_free m ptr) ptr) [
    | inl same ↦ same
    | inr (_, again) ↦ absurd (
        release_run-freed m ptr (index_of m ptr) refl at
          (subst (λ (x : Manager). get_elem? x.bitmap (index_of x ptr) ≡ some border) freed again))
  ]
]

-- `mm_info` reports the blocks in use, and its three sizes add up.
pub mm_info-busy :
    {m : Manager}
    → IsValid m
    → ((mm_info m).used_size ≡ busy m.bitmap)
      × ((mm_info m).used_size + (mm_info m).free_size ≡ (mm_info m).size)
unfolding mm_info
mm_info-busy {m} v = omega (arith, busy-le-length m.bitmap)

-- A run in use and a run of free blocks do not meet.
apart :
    (bs : List Block) (s n s' n' : ℕ)
    → 0 < n
    → 0 < n'
    → ((k : ℕ) → s ≤ k → k < s + n → get_elem? bs k ≢ some free)
    → FreeRun bs s' n'
    → (s + n ≤ s') ⊎ (s' + n' ≤ s)
apart bs s n s' n' pos pos' busy_run run = elim (dec_lt s' (s + n)) [
  | no past ↦ inl (omega arith)
  | yes low ↦ elim (dec_lt s (s' + n')) [
    | no past ↦ inr (omega arith)
    | yes low' ↦ elim (dec_lt s s') [
      | yes first ↦ absurd (busy_run s' (omega arith) low (run s' (omega arith) (omega arith)))
      | no later ↦ absurd (busy_run s (omega arith) (omega arith) (run s (omega arith) low'))
    ]
  ]
]

-- Two blocks that `mm_alloc` hands out one after the other share no byte.
pub mm_alloc_disjoint :
    {m : Manager} (bytes bytes' : ℕ) {a a' : ℕ} {m₁ m₂ : Manager}
    → IsValid m
    → mm_alloc m bytes ≡ (some a, m₁)
    → mm_alloc m₁ bytes' ≡ (some a', m₂)
    → (a + bytes ≤ a') ⊎ (a' + bytes' ≤ a)
unfolding take_run
mm_alloc_disjoint {m} bytes bytes' {a} {a'} {m₁} {m₂} v h h' =
    let d = mm_alloc-Served m bytes h in
    let d' = mm_alloc-Served m₁ bytes' h' in
    let base : m₁.real_mem_start ≡ m.real_mem_start = let e = d.taken in ground arith in
    let busy_run =
      Taken-busy m.bitmap m₁.bitmap d.start (blocks_needed bytes) (Served-Taken m bytes a m₁ d) in
    let run = (Served-FirstFit m₁ bytes' a' m₂ d').0 in
    let split =
      apart m₁.bitmap d.start (blocks_needed bytes) d'.start (blocks_needed bytes') d.size d'.size
        busy_run run in
    let left = d.address in let right = d'.address in omega (arith, split)
