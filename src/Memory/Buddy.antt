-- ===== src/Memory/Buddy.antt =====
-- Kernel/utils/memory/buddy.c: the allocator with a binary tree of blocks.
-- The node `n` has the children `2 n + 1` and `2 n + 2`; the nodes of a level are blocks of one size.
-- none as a result of a command on the tree is a read behind the end of the array of nodes.
pub mod Exponent
pub mod Search
mod Tests
use tp2_so_2c.Prelude.{
  ℕ, zero, suc, ◌+◌, ◌-◌, ◌*◌, ◌/◌, ◌%◌, ◌^◌, Bool, true, false, ◌&&◌, ◌||◌, not, Option, none,
  some, List, [], ◌∷◌, ltb, leb, ◌==◌, if◌then◌else◌, get_elem?, set, replicate,
}

-- FREE, USED and SPLIT, the states of a node.
pub data State : Type 0 where
  free used split : State

abbrev pub is_free : State → Bool
is_free free = true
is_free used = false
is_free split = false

abbrev pub is_used : State → Bool
is_used free = false
is_used used = true
is_used split = false

abbrev pub is_split : State → Bool
is_split free = false
is_split used = false
is_split split = true

abbrev pub min_exp : ℕ
min_exp = 4

abbrev pub max_exp : ℕ
max_exp = 28

-- sizeof(MemoryManagerCDT), with the padding behind `maxExp`.
abbrev pub struct_size : ℕ
struct_size = 48

-- `MemoryManagerCDT`
pub record Manager : Type 0 where
  pub tree_start : ℕ
  pub tree : List State
  pub size : ℕ
  pub used_bytes : ℕ
  pub top_exp : ℕ
  pub total_nodes : ℕ

-- The loop of `mm_create` for the largest exponent, on fuel.
pub exponent_of_size : ℕ → ℕ → ℕ → ℕ
exponent_of_size zero total e = e
exponent_of_size (suc fuel) total e =
    let rest = exponent_of_size fuel total (e + 1) in
    if leb (2 ^ (e + 1)) total && ltb e max_exp then rest else e

-- `mm_create`
pub mm_create : ℕ → ℕ → Option Manager
unfolding exponent_of_size
mm_create start_address total =
    let e = exponent_of_size max_exp total min_exp in
    let nodes = 2 ^ (e - min_exp + 1) - 1 in
    if ltb total (2 ^ min_exp)
    then none
    else if ltb total (struct_size + nodes + 2 ^ min_exp)
    then none
    else some (record {
      tree_start = start_address + struct_size + nodes;
      tree = replicate nodes free;
      size = total - (struct_size + nodes);
      used_bytes = 0;
      top_exp = e;
      total_nodes = nodes;
    })

-- The loop of `getExponent`, on fuel.
pub exponent_loop : ℕ → ℕ → ℕ → ℕ → ℕ
exponent_loop zero size pot e = e
exponent_loop (suc fuel) size pot e =
    let rest = exponent_loop fuel size (pot * 2) (e + 1) in if ltb pot size then rest else e

-- `getExponent`, for a request of at most 2 ^ 17 bytes.
pub get_exponent : ℕ → ℕ
unfolding exponent_loop
get_exponent size = exponent_loop 64 size (2 ^ min_exp) min_exp

-- `getNodeLevel`: the first node of the blocks of 2 ^ e bytes.
abbrev pub get_node_level : Manager → ℕ → ℕ
get_node_level m e = 2 ^ (m.top_exp - e) - 1

-- The node of one of two searches: the first, where it finds one.
abbrev pub first_found : Option (Option ℕ) → Option (Option ℕ) → Option (Option ℕ)
first_found none right = none
first_found (some none) right = right
first_found (some (some n)) right = some (some n)

-- `findFreeNode` at the target level, with the state of the node.
abbrev pub found_here : ℕ → Option State → Option (Option ℕ)
found_here node none = none
found_here node (some st) = some (if is_free st then some node else none)

-- `findFreeNode` above the target level, with the state of the node and the two searches below it.
abbrev pub found_below : Option State → Option (Option ℕ) → Option (Option ℕ) → Option (Option ℕ)
found_below none left right = none
found_below (some st) left right = if is_used st then some none else first_found left right

-- `findFreeNode`, `levels` above the target level.
pub find_free_node : ℕ → List State → ℕ → Option (Option ℕ)
find_free_node zero tree node = found_here node (get_elem? tree node)
find_free_node (suc levels) tree node =
    found_below (get_elem? tree node) (find_free_node levels tree (node * 2 + 1))
      (find_free_node levels tree (node * 2 + 2))

-- `splitTree`, on fuel: every node above `node`.
pub split_tree : ℕ → ℕ → List State → List State
split_tree zero node tree = tree
split_tree (suc fuel) node tree =
    let up = (node - 1) / 2 in
    let rest = split_tree fuel up (set tree up split) in if node == 0 then tree else rest

-- `mm_alloc` with a node that was found, or none: the address, none for NULL. A level is above the
-- top where the exponent is too large: the number of levels is a `uint8_t`.
pub alloc_at : Manager → ℕ → Option ℕ → Option ℕ × Manager
unfolding split_tree
alloc_at m e none = (none, m)
alloc_at m e (some node) =
    let m' = record m {
      tree = set (split_tree node node m.tree) node used;
      used_bytes = m.used_bytes + 2 ^ e;
    } in
    let offset = (node - get_node_level m e) * 2 ^ e in
    (if leb m.size offset then none else some (m.tree_start + offset), m')

-- `mm_alloc`, none for a fault.
pub mm_alloc : Manager → ℕ → Option (Option ℕ × Manager)
unfolding get_exponent find_free_node alloc_at
mm_alloc m size =
    let e = get_exponent size in
    if ltb ((m.size + 2 ^ 64 - m.used_bytes) % 2 ^ 64) size || (size == 0) || ltb (2 ^ 17) size
    then some (none, m)
    else elim (find_free_node ((m.top_exp + 256 - e) % 256) m.tree 0) [
      | none ↦ none
      | some found ↦ some (alloc_at m e found)
    ]

-- The loop of `getExponentPtr`, on fuel.
pub exponent_ptr_loop : ℕ → ℕ → ℕ → ℕ
exponent_ptr_loop zero address e = e
exponent_ptr_loop (suc fuel) address e =
    let rest = exponent_ptr_loop fuel address (e - 1) in if address % 2 ^ e == 0 then e else rest

-- `getExponentPtr`
pub get_exponent_ptr : Manager → ℕ → ℕ
unfolding exponent_ptr_loop
get_exponent_ptr m ptr =
    if ltb ptr m.tree_start then 0 else exponent_ptr_loop m.top_exp (ptr - m.tree_start) m.top_exp

-- The loop of `getNodeIndex`, on the exponent: the node, none for -1, and the exponent it ends at.
-- The outer none is a read behind the end of the nodes.
pub node_index_loop : Manager → ℕ → ℕ → ℕ → Option (Option ℕ × ℕ)
node_index_loop m ptr zero node = some (some node, 0)
node_index_loop m ptr (suc e) node =
    let offset = ptr - m.tree_start in
    let rest = node_index_loop m ptr e (offset / 2 ^ suc e + get_node_level m (suc e)) in
    elim (get_elem? m.tree node) [
      | none ↦ none
      | some st ↦
          if is_used st
          then some (some node, suc e)
          else if ltb ptr m.tree_start || leb m.size offset
          then some (none, suc e)
          else rest
    ]

-- `setMerge`, on fuel: two free buddies become their free parent.
pub set_merge : ℕ → ℕ → ℕ → List State → List State
set_merge zero total node tree = tree
set_merge (suc fuel) total node tree =
    let buddy = if node % 2 == 0 then node - 1 else node + 1 in
    let parent = (node - 1) / 2 in
    let rest = set_merge fuel total parent (set tree parent free) in
    if (node == 0) || leb total buddy then tree else elim (get_elem? tree buddy) [
      | none ↦ tree
      | some b ↦ elim (get_elem? tree node) [
        | none ↦ tree
        | some n ↦ elim (get_elem? tree parent) [
          | none ↦ tree
          | some p ↦ if is_free b && is_free n && is_split p then rest else tree
        ]
      ]
    ]

-- `mm_free` of the node that `getNodeIndex` answers.
pub free_node : Manager → Option ℕ × ℕ → Manager
unfolding set_merge
free_node m (none, e) = m
free_node m (some node, e) = record m {
  tree = set_merge (node + 1) m.total_nodes node (set m.tree node free);
  used_bytes = (m.used_bytes + 2 ^ 64 - 2 ^ e) % 2 ^ 64;
}

-- `mm_free`, 0 for NULL; none for a fault.
pub mm_free : Manager → ℕ → Option Manager
unfolding get_exponent_ptr node_index_loop free_node
mm_free m ptr =
    if ptr == 0 then some m else elim (node_index_loop m ptr (get_exponent_ptr m ptr) 0) [
      | none ↦ none
      | some found ↦ some (free_node m found)
    ]

-- `mem_t`, as `mm_info` answers it: the size, the bytes used, and the others.
pub mm_info : Manager → ℕ × ℕ × ℕ
mm_info m = (m.size, m.used_bytes, (m.size + 2 ^ 64 - m.used_bytes) % 2 ^ 64)
