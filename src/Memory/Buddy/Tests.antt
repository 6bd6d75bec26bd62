-- ===== src/Memory/Buddy/Tests.antt =====
-- buddy.c on a heap of 64 bytes: tests, and the theorems at it.
use tp2_so_2c.Prelude.{ℕ, ◌≡◌, refl, Option, none, some, [], ◌∷◌, arith}
use tp2_so_2c.Memory.Buddy.{
  free, Manager, min_exp, get_exponent, exponent_loop, find_free_node, mm_alloc, mm_free, alloc_at,
  split_tree, get_exponent_ptr, exponent_ptr_loop, node_index_loop, free_node, set_merge,
}
use tp2_so_2c.Memory.Buddy.Search.{Searched, find_free_node-Searched}
use tp2_so_2c.Memory.Buddy.Exponent.{Fits, get_exponent-Fits}

abbrev heap : Manager
heap = record {
  tree_start = 1000;
  tree = free ∷ free ∷ free ∷ free ∷ free ∷ free ∷ free ∷ [];
  size = 64;
  used_bytes = 0;
  top_exp = 6;
  total_nodes = 7;
}

abbrev alloc_then_free : ℕ → Option (Option ℕ × ℕ)
alloc_then_free bytes = elim (mm_alloc heap bytes) [
  | none ↦ none
  | some (address, m) ↦ elim address [
    | none ↦ some (none, m.used_bytes)
    | some p ↦ elim (mm_free m p) [ none ↦ none | some m' ↦ some (some p, m'.used_bytes) ]
  ]
]

abbrev leaked : Option (Option ℕ × ℕ)
leaked = some (some 1000, 8)

-- A block of 16 bytes given back leaves 8 bytes counted as used: `getNodeIndex` lowers the exponent
-- once more after it has found the node.
free_leaks : alloc_then_free 16 ≡ leaked
unfolding mm_alloc mm_free alloc_at split_tree get_exponent exponent_loop find_free_node
    get_exponent_ptr exponent_ptr_loop node_index_loop free_node set_merge
free_leaks = refl

find_free_node-Searched_example :
    (found : Option ℕ) × (find_free_node 2 heap.tree 0 ≡ some found) × Searched heap.tree 2 0 found
find_free_node-Searched_example = find_free_node-Searched 2 heap.tree 0 (omega arith)

get_exponent-Fits_example : Fits 100 min_exp (get_exponent 100)
get_exponent-Fits_example = get_exponent-Fits 100 (omega arith)
