-- ===== src/LinkedList/Tests.antt =====
-- doubleLinkedList.c on lists of up to two nodes: tests, and the theorems at them.
use tp2_so_2c.Prelude.{ℕ, ◌≡◌, refl, Option, none, some, [], ◌∷◌, arith, if◌then◌else◌}
use tp2_so_2c.LinkedList.{
  Handle, create, add_node, remove_node, get_first_data, free_list, to_begin, unlink, get_size,
}
use tp2_so_2c.LinkedList.Heap.{Ptr, null, Heap, Cmd, pure, ◌>>=◌, write}
use tp2_so_2c.LinkedList.Shape.{Cells, items, IsList}
use tp2_so_2c.LinkedList.Append.{Appended, add_node-append}
use tp2_so_2c.LinkedList.Remove.{contains, Erased, remove_node-erase}
use tp2_so_2c.LinkedList.Walk.{walk, walk-items, Freed, free_list-Freed}

abbrev blank : Handle
blank = record { head = null; tail = null; current = null; size = 0 }

abbrev pair_list : Handle
pair_list = record { head = 8; tail = 9; current = null; size = 2 }

abbrev no_nodes : Heap
no_nodes a = none

-- Data 70 in the node at 8, data 71 in the node at 9.
abbrev two_nodes : Heap
two_nodes =
    write (write no_nodes 8 (some (record { item = 70; prev = null; next = 9 }))) 9
      (some (record { item = 71; prev = 8; next = null }))

abbrev two_cells : Cells
two_cells = (8, 70) ∷ (9, 71) ∷ []

create_full : create null ≡ none
unfolding create
create_full = refl

-- Three nodes are added, the middle one is removed, and the first is taken.
script : Cmd (Ptr × Ptr × Option ℕ)
unfolding add_node remove_node get_first_data unlink write get_size
script = do
  (_, l) ← add_node 8 (some blank) 70
  (_, l) ← add_node 9 l 71
  (_, l) ← add_node 10 l 72
  (a, l) ← remove_node l 71
  (b, l) ← get_first_data l
  pure (a, b, get_size l)

script_runs : elim (script no_nodes) [ none ↦ none | some (r, h) ↦ some r ] ≡ some (71, 70, some 1)
unfolding script
script_runs = refl

blank-IsList : IsList no_nodes blank []
blank-IsList = record { chain = tt; head_first = refl; tail_last = refl; sized = refl }

two-IsList : IsList two_nodes pair_list two_cells
unfolding write
two-IsList = record {
  chain = ((ground arith, refl), refl, ((ground arith, refl), refl, tt));
  head_first = refl;
  tail_last = refl;
  sized = refl;
}

add_node-append_example :
    (l' : Handle) × (g : Heap) × (add_node 10 (some pair_list) 72 two_nodes
      ≡ some ((10, some l'), g))
    × Appended two_nodes pair_list two_cells 10 72 l' g
add_node-append_example =
    add_node-append two_nodes pair_list two_cells 10 72 two-IsList (ground arith) refl

remove_node-erase_example :
    (l' : Handle) × (g : Heap) × (remove_node (some pair_list) 71 two_nodes
      ≡ some ((if contains 71 two_cells then 71 else null, some l'), g))
    × Erased two_nodes pair_list two_cells 71 l' g
remove_node-erase_example =
    remove_node-erase two_nodes pair_list two_cells 71 two-IsList (ground arith)

walk-items_example :
    walk 3 (to_begin (some pair_list)) two_nodes ≡ some (items two_cells, two_nodes)
walk-items_example = walk-items two_nodes pair_list two_cells two-IsList

free_list-Freed_example :
    (g : Heap) × (free_list 4 pair_list two_nodes ≡ some (8 ∷ 9 ∷ 4 ∷ [], g))
    × Freed two_nodes g two_cells
free_list-Freed_example = free_list-Freed two_nodes 4 pair_list two_cells two-IsList
