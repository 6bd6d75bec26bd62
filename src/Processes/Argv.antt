-- ===== src/Processes/Argv.antt =====
-- What process.c has allocated behind `allocArgv`, on each of its paths.
use tp2_so_2c.Prelude.{
  ℕ, zero, suc, ◌+◌, ◌-◌, ◌*◌, Bool, true, false, Option, none, some, List, [], ◌∷◌, ◌++◌, ◌==◌,
  if◌then◌else◌, ◌≡◌, refl, arith, ==_iff,
}
use tp2_so_2c.Text.{Chars, my_strlen}
use tp2_so_2c.Processes.{
  Heap, take_block, answer, mm_alloc, mm_free, free_all, Vector, addresses, copy_args, with_entry,
  vector_of, fill_vector, empty_vector, alloc_argv,
}

-- How often the block `a` is the one with the address `p`, where NULL is none.
unfoldable pub held : ℕ → ℕ → ℕ
held a p = if p == 0 then 0 else if a == p then 1 else 0

unfoldable pub count : ℕ → List ℕ → ℕ
unfolding held
count a [] = 0
count a (p ∷ ps) = held a p + count a ps

-- Something holds of what a test for NULL chooses.
on_test :
    {R : Type 0} (P : R → Type 0) (b : Bool) (x y : R)
    → (b ≡ true → P x)
    → P y
    → P (if b then x else y)
on_test P true x y f g = f refl
on_test P false x y f g = g

pub on_null :
    {R : Type 0} (P : R → Type 0) (p : ℕ) (x y : R)
    → (p ≡ 0 → P x)
    → P y
    → P (if p == 0 then x else y)
on_null P p x y f g = on_test P (p == 0) x y (λ e. f ((==_iff p 0).0 e)) g

pub held-null : (a p : ℕ) → p ≡ 0 → held a p ≡ 0
unfolding held
held-null a p e = ground arith

take_block-live : (a p : ℕ) (h : Heap) → (take_block p h).live a ≡ h.live a + held a p
unfolding take_block held
take_block-live a p h = ground arith

pub mm_free-live : (a p : ℕ) (h : Heap) → (mm_free p h).live a ≡ h.live a - held a p
unfolding mm_free held
mm_free-live a p h = ground arith

answer-live :
    (a : ℕ) (ps : List ℕ) (h : Heap) → (answer ps h).1.live a ≡ h.live a + held a (answer ps h).0
unfolding answer held
answer-live a [] h = omega arith
answer-live a (p ∷ rest) h = take_block-live a p (record h { answers = rest })

pub mm_alloc-live :
    (a n : ℕ) (h : Heap) → (mm_alloc n h).1.live a ≡ h.live a + held a (mm_alloc n h).0
unfolding mm_alloc
mm_alloc-live a n h = answer-live a h.answers h

pub free_all-live :
    (a : ℕ) (ps : List ℕ) (h : Heap) → (free_all ps h).live a ≡ h.live a - count a ps
unfolding free_all count
free_all-live a [] h = omega arith
free_all-live a (p ∷ ps) h =
    let rest = free_all-live a ps (mm_free p h) in let first = mm_free-live a p h in omega arith

count-append : (a : ℕ) (ps qs : List ℕ) → count a (ps ++ qs) ≡ count a ps + count a qs
unfolding count
count-append a [] qs = omega arith
count-append a (p ∷ ps) qs = let rest = count-append a ps qs in omega arith

-- What is allocated behind the loop of `allocArgv`: with the entries, or without those that were copied
-- before.
unfoldable Copied : ℕ → List ℕ → Heap → Option (List (ℕ × Chars)) × Heap → Type 0
unfolding count addresses
Copied a copied h (none, h1) = h1.live a ≡ h.live a - count a copied
Copied a copied h (some es, h1) = h1.live a ≡ h.live a + count a (addresses es)

unfoldable copy_step :
    List ℕ → Chars → ℕ → Heap → Option (List (ℕ × Chars)) × Heap → Option (List (ℕ × Chars)) × Heap
unfolding free_all
copy_step copied t p h1 rest =
    if p == 0 then (none, free_all copied h1) else (with_entry (p, t) rest.0, rest.1)

refused_copy :
    (a : ℕ) (copied : List ℕ) (p : ℕ) (h h1 : Heap)
    → h1.live a ≡ h.live a + held a p
    → p ≡ 0
    → Copied a copied h (none, free_all copied h1)
unfolding Copied
refused_copy a copied p h h1 given null =
    let freed = free_all-live a copied h1 in let nothing = held-null a p null in omega arith

entry-Copied :
    (a : ℕ) (copied : List ℕ) (t : Chars) (p : ℕ) (h h1 : Heap)
    (rest : Option (List (ℕ × Chars)) × Heap)
    → h1.live a ≡ h.live a + held a p
    → Copied a (copied ++ (p ∷ [])) h1 rest
    → Copied a copied h (with_entry (p, t) rest.0, rest.1)
unfolding Copied count addresses
entry-Copied a copied t p h h1 (none, h2) given after =
    let appended = count-append a copied (p ∷ []) in
    let e : h2.live a ≡ h1.live a - count a (copied ++ (p ∷ [])) = after in omega arith
entry-Copied a copied t p h h1 (some es, h2) given after =
    let e : h2.live a ≡ h1.live a + count a (addresses es) = after in omega arith

copy_step-Copied :
    (a : ℕ) (copied : List ℕ) (t : Chars) (p : ℕ) (h h1 : Heap)
    (rest : Option (List (ℕ × Chars)) × Heap)
    → h1.live a ≡ h.live a + held a p
    → Copied a (copied ++ (p ∷ [])) h1 rest
    → Copied a copied h (copy_step copied t p h1 rest)
unfolding copy_step
copy_step-Copied a copied t p h h1 rest given after =
    on_null (Copied a copied h) p (none, free_all copied h1) (with_entry (p, t) rest.0, rest.1)
      (refused_copy a copied p h h1 given) (entry-Copied a copied t p h h1 rest given after)

copy_args-Copied :
    (a n : ℕ) (args : List (Option Chars)) (copied : List ℕ) (h : Heap)
    → Copied a copied h (copy_args n args copied h)
unfolding Copied copy_args copy_step
copy_args-Copied a zero args copied h = omega arith
copy_args-Copied a (suc n) [] copied h = free_all-live a copied h
copy_args-Copied a (suc n) (none ∷ args) copied h = free_all-live a copied h
copy_args-Copied a (suc n) (some t ∷ args) copied h =
    let m = mm_alloc (my_strlen t + 1) h in
    copy_step-Copied a copied t m.0 h m.1 (copy_args n args (copied ++ (m.0 ∷ [])) m.1)
      (mm_alloc-live a (my_strlen t + 1) h) (copy_args-Copied a n args (copied ++ (m.0 ∷ [])) m.1)

-- What is allocated behind `allocArgv`: its blocks, or none.
unfoldable pub VectorBlocks : ℕ → Heap → Option Vector × Heap → Type 0
unfolding count addresses
VectorBlocks a h (none, h1) = h1.live a ≡ h.live a
VectorBlocks a h (some v, h1) = h1.live a ≡ h.live a + count a (v.at ∷ addresses v.entries)

vector_of-VectorBlocks :
    (a at : ℕ) (h h1 : Heap) (r : Option (List (ℕ × Chars)) × Heap)
    → h1.live a ≡ h.live a + held a at
    → Copied a [] h1 r
    → VectorBlocks a h (vector_of at r)
unfolding vector_of VectorBlocks Copied count
vector_of-VectorBlocks a at h h1 (none, h2) given copied =
    let e : h2.live a ≡ h1.live a - 0 = copied in let freed = mm_free-live a at h2 in omega arith
vector_of-VectorBlocks a at h h1 (some es, h2) given copied =
    let e : h2.live a ≡ h1.live a + count a (addresses es) = copied in omega arith

nothing_allocated : (a : ℕ) (h : Heap) → VectorBlocks a h (none, h)
unfolding VectorBlocks
nothing_allocated a h = refl

refused_vector :
    (a p : ℕ) (h h1 : Heap) → h1.live a ≡ h.live a + held a p → p ≡ 0 → VectorBlocks a h (none, h1)
unfolding VectorBlocks
refused_vector a p h h1 given null = let nothing = held-null a p null in omega arith

fill_vector-VectorBlocks :
    (a argc : ℕ) (args : List (Option Chars)) (h : Heap) (m : ℕ × Heap)
    → m.1.live a ≡ h.live a + held a m.0
    → VectorBlocks a h (fill_vector argc args m)
unfolding fill_vector
fill_vector-VectorBlocks a argc args h (p, h1) given =
    on_null (VectorBlocks a h) p (none, h1) (vector_of p (copy_args argc args [] h1))
      (refused_vector a p h h1 given)
      (vector_of-VectorBlocks a p h h1 (copy_args argc args [] h1) given
        (copy_args-Copied a argc args [] h1))

one_block :
    (a p : ℕ) (h h1 : Heap)
    → h1.live a ≡ h.live a + held a p
    → VectorBlocks a h (some (record { at = p; entries = [] }), h1)
unfolding VectorBlocks count addresses
one_block a p h h1 given = omega arith

empty_vector-VectorBlocks :
    (a : ℕ) (h : Heap) (m : ℕ × Heap)
    → m.1.live a ≡ h.live a + held a m.0
    → VectorBlocks a h (empty_vector m)
unfolding empty_vector
empty_vector-VectorBlocks a h (p, h1) given =
    on_null (VectorBlocks a h) p (none, h1) (some (record { at = p; entries = [] }), h1)
      (refused_vector a p h h1 given) (one_block a p h h1 given)

pub alloc_argv-VectorBlocks :
    (a argc : ℕ) (args : Option (List (Option Chars))) (h : Heap)
    → VectorBlocks a h (alloc_argv argc args h)
unfolding alloc_argv
alloc_argv-VectorBlocks a argc none h =
    on_test (VectorBlocks a h) (argc == 0) (empty_vector (mm_alloc 8 h)) (none, h)
      (λ e. empty_vector-VectorBlocks a h (mm_alloc 8 h) (mm_alloc-live a 8 h))
      (nothing_allocated a h)
alloc_argv-VectorBlocks a argc (some args) h =
    let size = (argc + 1) * 8 in
    on_test (VectorBlocks a h) (argc == 0) (empty_vector (mm_alloc 8 h))
      (fill_vector argc args (mm_alloc size h))
      (λ e. empty_vector-VectorBlocks a h (mm_alloc 8 h) (mm_alloc-live a 8 h))
      (fill_vector-VectorBlocks a argc args h (mm_alloc size h) (mm_alloc-live a size h))
