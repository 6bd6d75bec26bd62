-- ===== src/Memory/Bitmap/Clear.antt =====
-- The loop of `mm_free` in bitmap.c that frees the USED blocks behind a BORDER.
use mathlib.Core.Path.{subst}
use tp2_so_2c.Prelude.{
  ℕ, zero, suc, ◌+◌, ◌≤◌, ◌<◌, ◌≡◌, ◌≢◌, refl, ◌⊎◌, inl, inr, Option, none, some, List, arith,
  length, get_elem?, set, length-set, get_elem?-set_self, get_elem?-set_ne, ◌∙◌, ℕ_discrete, sym,
  ap, lt-length,
}
use tp2_so_2c.Memory.Bitmap.{Block, free, used, border, mark_used, clear_used, sub64}
use tp2_so_2c.Memory.Bitmap.Mark.{mark_used-in, unmark_first}
use tp2_so_2c.Memory.Bitmap.Blocks.{FreeRun, busy, busy-set, busy_pos, busy-le-length, FollowsBusy}

Used-cases : (o : Option Block) → (o ≡ some used) ⊎ (o ≢ some used)
Used-cases none = inr (λ e. cc)
Used-cases (some free) = inr (λ e. cc)
Used-cases (some used) = inl refl
Used-cases (some border) = inr (λ e. cc)

module _ (n i : ℕ) (bs : List Block) (c : ℕ) where
  -- A USED block is freed, and the loop goes on.
  clear_used-used :
      get_elem? bs i ≡ some used
      → clear_used (suc n) i bs c ≡ clear_used n (i + 1) (set bs i free) (sub64 c 1)
  unfolding clear_used
  clear_used-used at = rw (at, clear_used)

  -- Any other block, and the end of the bitmap, stops the loop.
  clear_used-stop : get_elem? bs i ≢ some used → clear_used (suc n) i bs c ≡ (bs, c)
  unfolding clear_used
  clear_used-stop ne = ground arith

pub length-clear_used :
    (n i : ℕ) (bs : List Block) (c : ℕ) → length (clear_used n i bs c).0 ≡ length bs
unfolding clear_used
length-clear_used zero i bs c = refl
length-clear_used (suc n) i bs c =
    ground (arith, length-clear_used n (i + 1) (set bs i free) (sub64 c 1), length-set bs i free)

-- The counter goes on counting the blocks in use, and does not wrap.
pub busy-clear_used :
    (n i : ℕ) (bs : List Block) (c : ℕ)
    → length bs < 18446744073709551616
    → c ≡ busy bs
    → (clear_used n i bs c).1 ≡ busy (clear_used n i bs c).0
busy-clear_used zero i bs c h e = unfold clear_used in e
busy-clear_used (suc n) i bs c h e = elim (Used-cases (get_elem? bs i)) [
  | inl at ↦ rw (clear_used-used n i bs c at) (
      busy-clear_used n (i + 1) (set bs i free) (sub64 c 1) (rw (length-set bs i free) h)
        (omega (arith, busy-set bs i used free at, busy_pos bs i used at, busy-le-length bs)))
  | inr ne ↦ rw (clear_used-stop n i bs c ne) e
]

-- Behind a block that is freed, and only there, a USED block may be left alone.
pub FollowsBusy-set_free :
    (bs : List Block) (i : ℕ) (b : Block)
    → get_elem? bs i ≡ some b
    → ((k : ℕ) → k ≢ i → FollowsBusy bs k)
    → (k : ℕ) → k ≢ i + 1
    → FollowsBusy (set bs i free) k
FollowsBusy-set_free bs i b at f k ne used_at = elim (ℕ_discrete k i) [
  | yes e ↦
      let there = subst (λ x. get_elem? (set bs i free) x ≡ some used) e used_at in
      let self = get_elem?-set_self bs i free (lt-length bs i b at) in absurd (cc)
  | no other ↦
      let (j, next, busy_at) =
        f k other (sym (get_elem?-set_ne bs i k free (λ e. other (sym e))) ∙ used_at) in
      (j, next, λ e. busy_at (sym (get_elem?-set_ne bs i j free (omega arith)) ∙ e))
]

-- When the loop stops, every USED block follows a block in use again.
pub clear_used-FollowsBusy :
    (n i : ℕ) (bs : List Block) (c : ℕ)
    → length bs ≤ i + n
    → ((k : ℕ) → k ≢ i → FollowsBusy bs k)
    → (k : ℕ) → FollowsBusy (clear_used n i bs c).0 k
clear_used-FollowsBusy zero i bs c h f k =
    unfold clear_used in
    elim (ℕ_discrete k i) [
      | yes e ↦ λ at. absurd (omega (arith, lt-length bs k used at))
      | no ne ↦ f k ne
    ]
clear_used-FollowsBusy (suc n) i bs c h f k = elim (Used-cases (get_elem? bs i)) [
  | inl at ↦ rw (clear_used-used n i bs c at) (
      clear_used-FollowsBusy n (i + 1) (set bs i free) (sub64 c 1)
        (omega (arith, length-set {0} bs i free)) (FollowsBusy-set_free bs i used at f) k)
  | inr ne ↦ rw (clear_used-stop n i bs c ne) (elim (ℕ_discrete k i) [
    | yes e ↦ λ at. absurd (ne (subst (λ x. get_elem? bs x ≡ some used) e at))
    | no other ↦ f k other
  ])
]

-- The loop undoes the marks of `mm_alloc`, if no USED block stands behind them.
pub clear_used-mark_used :
    (fuel n j : ℕ) (bs : List Block) (b : ℕ)
    → n ≤ fuel
    → FreeRun bs j n
    → get_elem? bs (j + n) ≢ some used
    → b + n < 18446744073709551616
    → clear_used fuel j (mark_used n j bs) (b + n) ≡ (bs, b)
clear_used-mark_used zero zero j bs b l run stop small =
    unfold clear_used mark_used in ap (λ k. (bs, k)) (omega arith)
clear_used-mark_used (suc fuel) zero j bs b l run stop small =
    let e : j + 0 ≡ j = omega arith in
    clear_used-stop fuel j (mark_used zero j bs) (b + 0)
      (unfold mark_used in subst (λ x. get_elem? bs x ≢ some used) e stop)
    ∙ (unfold mark_used in ap (λ k. (bs, k)) (omega arith))
clear_used-mark_used zero (suc n) j bs b l run stop small = absurd (omega arith)
clear_used-mark_used (suc fuel) (suc n) j bs b l run stop small =
    let here = run j (omega arith) (omega arith) in
    let count : sub64 (b + suc n) 1 ≡ b + n = omega arith in
    let end : j + suc n ≡ j + 1 + n = omega arith in
    let marked =
      mark_used-in (suc n) j j bs (omega arith) (omega arith) (lt-length bs j free here) in
    clear_used-used fuel j (mark_used (suc n) j bs) (b + suc n) marked
    ∙ rw (unmark_first n j bs here, count)
        (clear_used-mark_used fuel n (j + 1) bs b (omega arith)
          (λ k h h'. run k (omega arith) (omega arith))
          (subst (λ x. get_elem? bs x ≢ some used) end stop) (omega arith))

-- The loop leaves alone what stands before its index.
pub clear_used-below :
    (n i : ℕ) (bs : List Block) (c k : ℕ)
    → k < i
    → get_elem? (clear_used n i bs c).0 k ≡ get_elem? bs k
clear_used-below zero i bs c k h = unfold clear_used in refl
clear_used-below (suc n) i bs c k h = elim (Used-cases (get_elem? bs i)) [
  | inl at ↦ rw (clear_used-used n i bs c at) (
      clear_used-below n (i + 1) (set bs i free) (sub64 c 1) k (omega arith)
      ∙ get_elem?-set_ne bs i k free (omega arith))
  | inr ne ↦ rw (clear_used-stop n i bs c ne)
]
