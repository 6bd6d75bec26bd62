-- ===== src/Memory/Bitmap/Mark.antt =====
-- The loop of `mm_alloc` in bitmap.c that marks the blocks of a run.
use mathlib.Core.Path.{subst}
use tp2_so_2c.Prelude.{
  ℕ, zero, suc, ◌+◌, ◌≤◌, ◌<◌, ◌≡◌, refl, ◌⊎◌, inl, some, List, arith, length, get_elem?, set,
  length-set, get_elem?-set_self, get_elem?-set_ne, ◌∙◌, ℕ_discrete, ap, set-set, set-set_ne,
  set-get_elem?,
}
use tp2_so_2c.Memory.Bitmap.{Block, free, used, mark_used}
use tp2_so_2c.Memory.Bitmap.Blocks.{FreeRun, busy, busy-set, busy-le-length}

pub length-mark_used : (n j : ℕ) (bs : List Block) → length (mark_used n j bs) ≡ length bs
unfolding mark_used
length-mark_used zero j bs = refl
length-mark_used (suc n) j bs = length-mark_used n (j + 1) (set bs j used) ∙ length-set bs j used

-- The blocks outside the run keep their state.
pub mark_used-out :
    (n j k : ℕ) (bs : List Block)
    → (k < j) ⊎ (j + n ≤ k)
    → get_elem? (mark_used n j bs) k ≡ get_elem? bs k
unfolding mark_used
mark_used-out zero j k bs h = refl
mark_used-out (suc n) j k bs h =
    mark_used-out n (j + 1) k (set bs j used) (omega arith)
    ∙ get_elem?-set_ne bs j k used (omega arith)

-- The blocks of the run are USED.
pub mark_used-in :
    (n j k : ℕ) (bs : List Block)
    → j ≤ k
    → k < j + n
    → k < length bs
    → get_elem? (mark_used n j bs) k ≡ some used
unfolding mark_used
mark_used-in zero j k bs h l m = absurd (omega arith)
mark_used-in (suc n) j k bs h l m = elim (ℕ_discrete j k) [
  | yes e ↦
      mark_used-out n (j + 1) k (set bs j used) (inl (omega arith))
      ∙ subst (λ x. get_elem? (set bs j used) x ≡ some used) e
          (get_elem?-set_self bs j used (omega arith))
  | no ne ↦
      mark_used-in n (j + 1) k (set bs j used) (omega arith) (omega arith)
        (omega (arith, length-set {0} bs j used))
]

pub busy-mark_used :
    (n j : ℕ) (bs : List Block) → FreeRun bs j n → busy (mark_used n j bs) ≡ busy bs + n
unfolding mark_used
busy-mark_used zero j bs h = omega arith
busy-mark_used (suc n) j bs h = omega (
  arith,
  busy-set bs j free used (h j (omega arith) (omega arith)),
  busy-mark_used n (j + 1) (set bs j used)
      (λ k a b. get_elem?-set_ne bs j k used (omega arith) ∙ h k (omega arith) (omega arith)),
)

-- A write below the run can be made before the marks.
pub set-mark_used :
    (n j i : ℕ) (bs : List Block) (v : Block)
    → i < j
    → set (mark_used n j bs) i v ≡ mark_used n j (set bs i v)
unfolding mark_used
set-mark_used zero j i bs v h = refl
set-mark_used (suc n) j i bs v h =
    set-mark_used n (j + 1) i (set bs j used) v (omega arith)
    ∙ ap (mark_used n (j + 1)) (set-set_ne bs j i used v (omega arith))

-- A block that was free, marked and then freed: the marks of the rest of the run are left.
pub unmark_first :
    (n j : ℕ) (bs : List Block)
    → get_elem? bs j ≡ some free
    → set (mark_used (suc n) j bs) j free ≡ mark_used n (j + 1) bs
unfolding mark_used
unmark_first n j bs h =
    set-mark_used n (j + 1) j (set bs j used) free (omega arith)
    ∙ ap (mark_used n (j + 1)) (set-set bs j used free ∙ set-get_elem? bs j free h)

-- A run of free blocks fits beside the blocks in use.
pub FreeRun-room : (bs : List Block) (s n : ℕ) → FreeRun bs s n → n + busy bs ≤ length bs
FreeRun-room bs s n run =
    omega
      (arith, busy-mark_used n s bs run, busy-le-length (mark_used n s bs), length-mark_used n s bs)
