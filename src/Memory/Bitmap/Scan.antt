-- ===== src/Memory/Bitmap/Scan.antt =====
-- The scan of `mm_alloc` in bitmap.c finds the first run of free blocks that is long enough.
use mathlib.Core.Path.{subst}
use tp2_so_2c.Prelude.{
  ℕ, suc, ◌+◌, ◌-◌, ◌≤◌, ◌<◌, ◌≡◌, ◌≢◌, inl, inr, Option, none, some, List, [], ◌∷◌, arith, ◌==◌,
  get_elem?, Bool-cases, dec_lt, ℕ_discrete, ap,
}
use tp2_so_2c.Memory.Bitmap.{Block, free, used, border, find_run}
use tp2_so_2c.Memory.Bitmap.Blocks.{FreeRun}

-- What the scan for `n` blocks of `w` returns: the lowest start of a run, or none where no run is.
abbrev pub FirstFit : List Block → ℕ → Option ℕ → Type 0
FirstFit w n none = (s : ℕ) → ¬ FreeRun w s n
FirstFit w n (some s) = FreeRun w s n × ((s' : ℕ) → FreeRun w s' n → s ≤ s')

-- The scan has come to index `i` of `w`, and `bs` is what is left of it.
abbrev View : List Block → ℕ → List Block → Type 0
View w i bs = (k : ℕ) → get_elem? w (i + k) ≡ get_elem? bs k

module _ (w : List Block) (n : ℕ) where
  View-head : (i : ℕ) (b : Block) (bs : List Block) → View w i (b ∷ bs) → get_elem? w i ≡ some b
  View-head i b bs view =
      let e : i + 0 ≡ i = omega arith in subst (λ x. get_elem? w x ≡ some b) e (view 0)

  View-tail : (i : ℕ) (b : Block) (bs : List Block) → View w i (b ∷ bs) → View w (i + 1) bs
  View-tail i b bs view k =
      let e : i + suc k ≡ i + 1 + k = omega arith in
      subst (λ x. get_elem? w x ≡ get_elem? bs k) e (view (suc k))

  -- A block that is not free starts the search again behind it.
  skip :
      (i run : ℕ) (b : Block)
      → get_elem? w i ≡ some b
      → b ≢ free
      → run < n
      → ((s : ℕ) → FreeRun w s n → i ≤ s + run)
      → (s : ℕ) → FreeRun w s n
      → i + 1 ≤ s + 0
  skip i run b at ne lt low s fr = elim (dec_lt i s) [
    | yes h ↦ omega arith
    | no h ↦ let le = low s fr in let e = fr i (omega arith) (omega arith) in absurd (ne (cc))
  ]

  -- One more free block makes the run that ends at `i` longer.
  longer :
      (i run : ℕ)
      → get_elem? w i ≡ some free
      → run ≤ i
      → FreeRun w (i - run) run
      → FreeRun w (i + 1 - (run + 1)) (run + 1)
  longer i run at le fr k h l = elim (ℕ_discrete k i) [
    | yes e ↦ rw e at
    | no ne ↦ fr k (omega arith) (omega arith)
  ]

  find_run-FirstFit :
      (bs : List Block) (i run : ℕ)
      → View w i bs
      → run < n
      → run ≤ i
      → FreeRun w (i - run) run
      → ((s : ℕ) → FreeRun w s n → i ≤ s + run)
      → FirstFit w n (find_run n bs i run)
  unfolding find_run
  find_run-FirstFit [] i run view lt le fr low = λ s full.
      let le' = low s full in
      let past : i + (s + n - 1 - i) ≡ s + n - 1 = omega arith in
      let e = subst (λ x. get_elem? w x ≡ none) past (view (s + n - 1 - i)) in
      let f = full (s + n - 1) (omega arith) (omega arith) in cc
  find_run-FirstFit (free ∷ bs) i run view lt le fr low = elim (Bool-cases (run + 1 == n)) [
    | inl hit ↦
        let e : run + 1 ≡ n = ground arith in
        rw hit (
          subst (FreeRun w (i + 1 - (run + 1))) e (longer i run (View-head i free bs view) le fr),
          λ s full. let le = low s full in omega arith,
        )
    | inr miss ↦
        let ne : run + 1 ≢ n = ground arith in
        rw miss (
          find_run-FirstFit bs (i + 1) (run + 1) (View-tail i free bs view) (omega arith)
            (omega arith) (longer i run (View-head i free bs view) le fr)
            (λ s full. let le = low s full in omega arith))
  ]
  find_run-FirstFit (used ∷ bs) i run view lt le fr low =
      find_run-FirstFit bs (i + 1) 0 (View-tail i used bs view) (omega arith) (omega arith)
        (λ k h l. absurd (omega arith)) (skip i run used (View-head i used bs view) (cc) lt low)
  find_run-FirstFit (border ∷ bs) i run view lt le fr low =
      find_run-FirstFit bs (i + 1) 0 (View-tail i border bs view) (omega arith) (omega arith)
        (λ k h l. absurd (omega arith)) (skip i run border (View-head i border bs view) (cc) lt low)

-- The scan of a whole bitmap is first fit.
pub find_run_lem : (w : List Block) (n : ℕ) → 0 < n → FirstFit w n (find_run n w 0 0)
find_run_lem w n h =
    find_run-FirstFit w n w 0 0 (λ k. let e : 0 + k ≡ k = omega arith in ap (get_elem? w) e) h
      (omega arith) (λ k h l. absurd (omega arith)) (λ s full. omega arith)
