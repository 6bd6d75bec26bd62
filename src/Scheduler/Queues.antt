-- ===== src/Scheduler/Queues.antt =====
-- Counting in the lists of scheduler.c: how often a process stands in a list.
use tp2_so_2c.Prelude.{
  ℕ, ◌+◌, ◌-◌, ◌≤◌, ◌≡◌, refl, List, [], ◌∷◌, ◌++◌, arith, ltb, ◌==◌, if◌then◌else◌, length,
}
use tp2_so_2c.Scheduler.State.{Ptr, remove_node}

abbrev pub count : Ptr → List Ptr → ℕ
count p [] = 0
count p (q ∷ qs) = (if p == q then 1 else 0) + count p qs

pub count-append : (p : Ptr) (xs ys : List Ptr) → count p (xs ++ ys) ≡ count p xs + count p ys
count-append p [] ys = omega arith
count-append p (x ∷ xs) ys = omega (arith, count-append p xs ys)

-- `removeNode` finds exactly what stands in the list.
pub remove_node-found : (p : Ptr) (l : List Ptr) → (remove_node p l).0 ≡ ltb 0 (count p l)
unfolding remove_node
remove_node-found p [] = refl
remove_node-found p (q ∷ qs) = ground (arith, remove_node-found p qs)

-- `removeNode` takes one occurrence away, and no other data.
pub count-remove_node :
    (q p : Ptr) (l : List Ptr) → count q (remove_node p l).1 ≡ count q l - (if q == p then 1 else 0)
unfolding remove_node
count-remove_node q p [] = ground arith
count-remove_node q p (x ∷ xs) = ground (arith, count-remove_node q p xs)

pub count-length : (p : Ptr) (l : List Ptr) → count p l ≤ length l
count-length p [] = omega arith
count-length p (x ∷ xs) = ground (arith, count-length p xs)

pub length-remove_node :
    (p : Ptr) (l : List Ptr)
    → length (remove_node p l).1 ≡ length l - (if ltb 0 (count p l) then 1 else 0)
unfolding remove_node
length-remove_node p [] = refl
length-remove_node p (x ∷ xs) = ground (arith, length-remove_node p xs, count-length p xs)
