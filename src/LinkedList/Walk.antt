-- ===== src/LinkedList/Walk.antt =====
-- The cursor of doubleLinkedList.c, and the loop of `freeLinkedListADT`.
use mathlib.Core.Path.{subst}
use tp2_so_2c.Prelude.{
  ℕ, zero, suc, ◌+◌, ◌<◌, ◌≡◌, refl, true, false, Option, none, some, List, [], ◌∷◌, ◌++◌, sym,
  arith, ◌==◌, length, if◌then◌else◌,
}
use tp2_so_2c.LinkedList.{Handle, to_begin, has_next, next_in_list, free_loop, free_list, give_back}
use tp2_so_2c.LinkedList.Heap.{
  Ptr, null, Node, Heap, Cmd, At, pure, ◌>>=◌, write, load-At, load, release-At,
}
use tp2_so_2c.LinkedList.Shape.{Cells, first, has, items, Linked, IsList, Linked-write}

-- while (hasNext(list)) f(nextInList(list)): the data that the loop sees, on fuel.
pub walk : ℕ → Option Handle → Cmd (List Ptr)
unfolding has_next next_in_list
walk zero l = λ _. none
walk (suc k) l =
    if has_next l then (do (d, l') ← next_in_list l; ds ← walk k l'; pure (d ∷ ds)) else pure []

walk_from :
    (k : ℕ) (h : Heap) (l : Handle) (prev : Ptr) (xs : Cells)
    → length xs < k
    → Linked h prev xs null
    → l.current ≡ first xs null
    → walk k (some l) h ≡ some (items xs, h)
unfolding walk
walk_from zero h l prev xs fuel c at = absurd (omega arith)
walk_from (suc k) h l prev [] fuel c at = let e : (l.current == null) ≡ true = ground arith in rw e
walk_from (suc k) h l prev ((p, d) ∷ xs) fuel c at =
    let ne : (l.current == null) ≡ false = ground (arith, c.0.0) in
    let n : Node = record { item = d; prev = prev; next = first xs null } in
    let read : load l.current h ≡ some (n, h) =
      subst (λ x. load x h ≡ some (n, h)) (sym at) (load-At h p n c.0) in
    let rest = walk_from k h (record l { current = first xs null }) p xs (omega arith) c.2 refl in
    rw (ne, read, rest)

-- A loop from `toBegin` over `hasNext` and `nextInList` sees the data of the list in order, ends,
-- and leaves the heap alone.
pub walk-items :
    (h : Heap) (l : Handle) (xs : Cells)
    → IsList h l xs
    → walk (l.size + 1) (to_begin (some l)) h ≡ some (items xs, h)
unfolding to_begin
walk-items h l xs is =
    walk_from (l.size + 1) h (record l { current = l.head }) null xs (omega (arith, is.sized))
      is.chain is.head_first

-- The nodes of `xs` are given back, and nothing else changes.
abbrev pub Freed : Heap → Heap → Cells → Type 0
Freed h g xs = (a : Ptr) → g a ≡ (if has a xs then none else h a)

-- The addresses of the nodes, in order.
abbrev pub places : Cells → List Ptr
places [] = []
places ((p, d) ∷ xs) = p ∷ places xs

give_back-At :
    (h : Heap) (p : Ptr) (n : Node) → At h p n → give_back p h ≡ some (p ∷ [], write h p none)
unfolding give_back
give_back-At h p n at = rw (release-At h p n at) refl

free_loop-Freed :
    (k : ℕ) (h : Heap) (prev : Ptr) (xs : Cells)
    → length xs < k
    → Linked h prev xs null
    → (g : Heap) × (free_loop k (first xs null) h ≡ some (places xs, g)) × Freed h g xs
unfolding free_loop write
free_loop-Freed zero h prev xs fuel c = absurd (omega arith)
free_loop-Freed (suc k) h prev [] fuel c = (h, refl, λ a. refl)
free_loop-Freed (suc k) h prev ((p, d) ∷ xs) fuel c =
    let n : Node = record { item = d; prev = prev; next = first xs null } in
    let (g, run, freed) =
      free_loop-Freed k (write h p none) p xs (omega arith)
        (Linked-write h p none p xs null c.1 c.2) in
    let ne : (p == null) ≡ false = ground (arith, c.0.0) in
    (g, rw (ne, load-At h p n c.0, give_back-At h p n c.0, run) refl, λ a. ground (arith, freed a))

-- `freeLinkedListADT` calls `mm_free` for each node of the list, in order and once, and then once for
-- the struct of the list, and for nothing else; it does not fault, and exactly the nodes are gone.
pub free_list-Freed :
    (h : Heap) (list : Ptr) (l : Handle) (xs : Cells)
    → IsList h l xs
    → (g : Heap) × (free_list list l h ≡ some (places xs ++ (list ∷ []), g)) × Freed h g xs
unfolding free_list
free_list-Freed h list l xs is =
    let (g, run, freed) =
      free_loop-Freed (l.size + 1) h null xs (omega (arith, is.sized)) is.chain in
    (g, rw (is.head_first, run) refl, freed)
