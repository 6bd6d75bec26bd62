-- ===== src/Memory/Bitmap/Alloc.antt =====
-- `mm_create` and `mm_alloc` of bitmap.c.
use mathlib.Core.Path.{subst}
use tp2_so_2c.Prelude.{
  ℕ, ◌+◌, ◌-◌, ◌*◌, ◌/◌, ◌≤◌, ◌<◌, ◌≡◌, ◌≢◌, ◌⊎◌, inl, inr, none, some, List, arith, length,
  get_elem?, set, length-set, get_elem?-set_self, get_elem?-set_ne, ◌∙◌, sym, get_elem?-replicate,
  length-replicate, replicate, Option-cases, ℕ_discrete, dec_lt, lt-length,
}
use tp2_so_2c.Memory.Bitmap.{
  Block, free, used, border, Manager, block_size, struct_size, max_request, blocks_needed,
  mm_create, find_run, take_run, mm_alloc, sub64,
}
use tp2_so_2c.Memory.Bitmap.Blocks.{
  IsValid, FreeRun, FollowsBusy, busy, busy-set, busy-replicate, FreeRun-length,
}
use tp2_so_2c.Memory.Bitmap.Scan.{FirstFit, find_run_lem}
use tp2_so_2c.Memory.Bitmap.Mark.{
  length-mark_used, mark_used-in, mark_used-out, busy-mark_used, FreeRun-room,
}

-- A served request: the scan found a run, and `take_run` took it.
pub record Served (m : Manager) (bytes a : ℕ) (m' : Manager) : Type 0 where
  pub start : ℕ
  pub found : find_run (blocks_needed bytes) m.bitmap 0 0 ≡ some start
  pub address : a ≡ m.real_mem_start + start * block_size
  pub taken : m' ≡ (take_run m (blocks_needed bytes) start).1
  pub size : 0 < blocks_needed bytes

pub mm_alloc-Served :
    (m : Manager) (bytes : ℕ) {a : ℕ} {m' : Manager}
    → mm_alloc m bytes ≡ (some a, m')
    → Served m bytes a m'
unfolding mm_alloc
mm_alloc-Served m bytes {a} {m'} h =
    elim (Option-cases (find_run (blocks_needed bytes) m.bitmap 0 0)) [
      | inl gone ↦ absurd (ground arith)
      | inr (start, found) ↦ record {
        start = start;
        found = found;
        address = ground arith;
        taken = ground arith;
        size = ground arith;
      }
    ]

-- The bitmap after a run is taken, block by block.
pub record Taken (bs : List Block) (start n : ℕ) (bs' : List Block) : Type 0 where
  pub same_length : length bs' ≡ length bs
  pub head : get_elem? bs' start ≡ some border
  pub tail : (k : ℕ) → start < k → k < start + n → get_elem? bs' k ≡ some used
  pub below : (k : ℕ) → k < start → get_elem? bs' k ≡ get_elem? bs k
  pub above : (k : ℕ) → start + n ≤ k → get_elem? bs' k ≡ get_elem? bs k
  pub count : busy bs' ≡ busy bs + n

pub take_run-Taken :
    (m : Manager) (start n : ℕ)
    → 0 < n
    → FreeRun m.bitmap start n
    → Taken m.bitmap start n (take_run m n start).1.bitmap
unfolding take_run
take_run-Taken m start n pos run =
    let bs = m.bitmap in
    let bs₁ = set bs start border in
    let first = run start (omega arith) (omega arith) in
    let long = FreeRun-length bs start n pos run in
    record {
      same_length = length-mark_used (n - 1) (start + 1) bs₁ ∙ length-set bs start border;
      head =
          mark_used-out (n - 1) (start + 1) start bs₁ (inl (omega arith))
          ∙ get_elem?-set_self bs start border (omega arith);
      tail = λ k h l.
          mark_used-in (n - 1) (start + 1) k bs₁ (omega arith) (omega arith)
            (omega (arith, length-set {0} bs start border));
      below = λ k h.
          mark_used-out (n - 1) (start + 1) k bs₁ (inl (omega arith))
          ∙ get_elem?-set_ne bs start k border (omega arith);
      above = λ k h.
          mark_used-out (n - 1) (start + 1) k bs₁ (inr (omega arith))
          ∙ get_elem?-set_ne bs start k border (omega arith);
      count = omega (
        arith,
        busy-mark_used (n - 1) (start + 1) bs₁ (λ k h l.
            get_elem?-set_ne bs start k border (omega arith) ∙ run k (omega arith) (omega arith)),
        busy-set bs start free border first,
      );
    }

-- Every block of the run is in use.
pub Taken-busy :
    (bs bs' : List Block) (start n : ℕ)
    → Taken bs start n bs'
    → (k : ℕ) → start ≤ k
    → k < start + n
    → get_elem? bs' k ≢ some free
Taken-busy bs bs' start n t k h l e = elim (ℕ_discrete k start) [
  | yes first ↦
      let f = subst (λ x. get_elem? bs' x ≡ some free) first e in let b = t.head in absurd (cc)
  | no ne ↦ let u = t.tail k (omega arith) l in absurd (cc)
]

Taken-FollowsBusy :
    (bs bs' : List Block) (start n : ℕ)
    → 0 < n
    → Taken bs start n bs'
    → FreeRun bs start n
    → ((k : ℕ) → FollowsBusy bs k)
    → (k : ℕ) → FollowsBusy bs' k
Taken-FollowsBusy bs bs' start n pos t run f k at = elim (dec_lt k start) [
  | yes low ↦
      let (j, next, busy_at) = f k (sym (t.below k low) ∙ at) in
      (j, next, λ e. busy_at (sym (t.below j (omega arith)) ∙ e))
  | no ge ↦ elim (dec_lt k (start + n)) [
    | no past ↦
        let (j, next, busy_at) = f k (sym (t.above k (omega arith)) ∙ at) in
        elim (dec_lt j (start + n)) [
          | yes bad ↦ absurd (busy_at (run j (omega arith) bad))
          | no far ↦ (j, next, λ e. busy_at (sym (t.above j (omega arith)) ∙ e))
        ]
    | yes inside ↦ elim (ℕ_discrete k start) [
      | yes e ↦
          let h = subst (λ x. get_elem? bs' x ≡ some used) e at in let b = t.head in absurd (cc)
      | no ne ↦
          (k - 1, omega arith, Taken-busy bs bs' start n t (k - 1) (omega arith) (omega arith))
    ]
  ]
]

replicate-FollowsBusy : (n k : ℕ) → FollowsBusy (replicate n free) k
replicate-FollowsBusy n k at =
    let inside : k < n =
      omega (arith, lt-length (replicate n free) k used at, length-replicate {0} n free) in
    let e = get_elem?-replicate n k free inside in absurd (cc)

-- `mm_create` yields a heap of free blocks that fills the region: none is lost but a part of one.
pub mm_create-IsValid :
    (start size : ℕ) {m : Manager}
    → size < 18446744073709551616
    → mm_create start size ≡ some m
    → IsValid m
      × (busy m.bitmap ≡ 0)
      × (m.real_mem_start + m.block_count * block_size ≤ start + size)
      × (start + size < m.real_mem_start + m.block_count * block_size + block_size + 1)
unfolding mm_create
mm_create-IsValid start size {m} small h =
    let count : ℕ = (size - struct_size) / (block_size + 1) in
    let e : m.bitmap ≡ replicate count free = ground arith in
    let c : m.block_count ≡ count = ground arith in
    let u : m.used_blocks_count ≡ 0 = ground arith in
    let r : m.real_mem_start ≡ start + struct_size + count = ground arith in
    let l : struct_size < size = ground arith in
    let b : busy m.bitmap ≡ 0 = rw e (busy-replicate count) in
    (
      record {
        counted = c ∙ sym (rw e (length-replicate count free));
        small = omega arith;
        placed = omega arith;
        used_busy = omega arith;
        chained = rw e (replicate-FollowsBusy count);
      },
      b,
      omega arith,
      omega arith,
    )

-- A NULL answer leaves the heap alone.
mm_alloc-miss :
    (m : Manager) (bytes : ℕ) → (mm_alloc m bytes).0 ≡ none → mm_alloc m bytes ≡ (none, m)
unfolding mm_alloc
mm_alloc-miss m bytes h = ground arith

-- Behind its guards, `mm_alloc` answers what the scan found.
mm_alloc-hit :
    (m : Manager) (bytes start : ℕ)
    → 0 < bytes
    → bytes ≤ max_request
    → blocks_needed bytes ≤ sub64 m.block_count m.used_blocks_count
    → find_run (blocks_needed bytes) m.bitmap 0 0 ≡ some start
    → (mm_alloc m bytes).0 ≡ some (m.real_mem_start + start * block_size)
unfolding mm_alloc
mm_alloc-hit m bytes start pos max room found = ground arith

pub mm_alloc-cases :
    (m : Manager) (bytes : ℕ)
    → (mm_alloc m bytes ≡ (none, m))
      ⊎ ((a : ℕ) × (m' : Manager) × (mm_alloc m bytes ≡ (some a, m')))
mm_alloc-cases m bytes = elim (Option-cases (mm_alloc m bytes).0) [
  | inl e ↦ inl (mm_alloc-miss m bytes e)
  | inr (a, e) ↦ inr (a, (mm_alloc m bytes).1, λ i. (e i, (mm_alloc m bytes).1))
]

-- The run that `mm_alloc` takes, by the scan's theorem.
pub Served-FirstFit :
    (m : Manager) (bytes a : ℕ) (m' : Manager) (d : Served m bytes a m')
    → FirstFit m.bitmap (blocks_needed bytes) (some d.start)
Served-FirstFit m bytes a m' d =
    subst (FirstFit m.bitmap (blocks_needed bytes)) d.found
      (find_run_lem m.bitmap (blocks_needed bytes) d.size)

pub Served-Taken :
    (m : Manager) (bytes a : ℕ) (m' : Manager) (d : Served m bytes a m')
    → Taken m.bitmap d.start (blocks_needed bytes) m'.bitmap
Served-Taken m bytes a m' d =
    subst (λ (x : Manager). Taken m.bitmap d.start (blocks_needed bytes) x.bitmap) (sym d.taken)
      (take_run-Taken m d.start (blocks_needed bytes) d.size (Served-FirstFit m bytes a m' d).0)

Served-IsValid :
    (m : Manager) (bytes a : ℕ) (m' : Manager) → IsValid m → Served m bytes a m' → IsValid m'
unfolding take_run
Served-IsValid m bytes a m' v d =
    let t = Served-Taken m bytes a m' d in
    let e = d.taken in
    let c : m'.block_count ≡ m.block_count = ground arith in
    let r : m'.real_mem_start ≡ m.real_mem_start = ground arith in
    let u : m'.used_blocks_count ≡ m.used_blocks_count + blocks_needed bytes = ground arith in
    record {
      counted = omega (arith, t.same_length);
      small = omega arith;
      placed = omega arith;
      used_busy = omega (arith, t.count);
      chained =
          Taken-FollowsBusy m.bitmap m'.bitmap d.start (blocks_needed bytes) d.size t
            (Served-FirstFit m bytes a m' d).0 v.chained;
    }

-- Whatever `mm_alloc` answers, the heap stays valid.
pub mm_alloc-IsValid : {m : Manager} (bytes : ℕ) → IsValid m → IsValid (mm_alloc m bytes).1
mm_alloc-IsValid {m} bytes v = elim (mm_alloc-cases m bytes) [
  | inl failed ↦ rw failed v
  | inr (a, m', done) ↦ rw done (Served-IsValid m bytes a m' v (mm_alloc-Served m bytes done))
]

-- Where `mm_alloc` on a valid heap answers an address, the `n` blocks from it on hold `bytes` bytes, and
-- no fewer do; they lie inside the heap and were all free, and no run of `n` free blocks starts
-- lower. Afterwards they are all in use, and every other block is as it was.
pub mm_alloc-some :
    {m : Manager} (bytes : ℕ) {a : ℕ} {m' : Manager}
    → IsValid m
    → mm_alloc m bytes ≡ (some a, m')
    → (n : ℕ) × (start : ℕ) × (bytes ≤ n * block_size)
      × (n * block_size < bytes + block_size)
      × (a ≡ m.real_mem_start + start * block_size)
      × (start + n ≤ m.block_count)
      × FreeRun m.bitmap start n
      × ((s : ℕ) → FreeRun m.bitmap s n → start ≤ s)
      × ((k : ℕ) → start ≤ k → k < start + n → get_elem? m'.bitmap k ≢ some free)
      × ((k : ℕ) → (k < start) ⊎ (start + n ≤ k) → get_elem? m'.bitmap k ≡ get_elem? m.bitmap k)
mm_alloc-some {m} bytes {a} {m'} v h =
    let d = mm_alloc-Served m bytes h in
    let n : ℕ = blocks_needed bytes in
    let (run, lowest) = Served-FirstFit m bytes a m' d in
    let t = Served-Taken m bytes a m' d in
    (
      n,
      d.start,
      ground arith,
      ground arith,
      d.address,
      omega (arith, FreeRun-length m.bitmap d.start n d.size run),
      run,
      lowest,
      Taken-busy m.bitmap m'.bitmap d.start n t,
      λ k. elim [ inl low ↦ t.below k low | inr high ↦ t.above k high ],
    )

-- Where `mm_alloc` on a valid heap answers NULL to a request of at least one and at most 2^17
-- bytes, no run of free blocks holds so many bytes.
pub mm_alloc-none :
    {m : Manager} (bytes : ℕ)
    → IsValid m
    → 0 < bytes
    → bytes ≤ max_request
    → (mm_alloc m bytes).0 ≡ none
    → (s k : ℕ) → bytes ≤ k * block_size
    → ¬ FreeRun m.bitmap s k
mm_alloc-none {m} bytes v pos max h s k holds long =
    let n : ℕ = blocks_needed bytes in
    let fewer : n ≤ k = ground arith in
    let run : FreeRun m.bitmap s n = λ i low high. long i low (omega arith) in
    let fits = FreeRun-room m.bitmap s n run in
    elim (Option-cases (find_run n m.bitmap 0 0)) [
      | inl gone ↦ subst (FirstFit m.bitmap n) gone (find_run_lem m.bitmap n (omega arith)) s run
      | inr (start, found) ↦
          let hit = mm_alloc-hit m bytes start pos max (omega arith) found in absurd (cc)
    ]
