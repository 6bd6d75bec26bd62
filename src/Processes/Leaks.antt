-- ===== src/Processes/Leaks.antt =====
-- What process.c has allocated: behind each path of `initializeProcess`, and behind `freeProcess`.
use mathlib.Core.Path.{subst}
use tp2_so_2c.Prelude.{ℕ, ◌+◌, ◌-◌, Option, none, some, List, ◌∷◌, ◌≡◌, arith}
use tp2_so_2c.Text.{Chars, my_strlen}
use tp2_so_2c.Scheduler.{stack_size}
use tp2_so_2c.Processes.{
  Heap, mm_alloc, mm_free, free_all, Vector, addresses, free_argv, alloc_argv, ProcessBlocks,
  blocks_of, with_list, with_name, with_argv, with_stack, initialize_process, free_process, name_of,
}
use tp2_so_2c.Processes.Argv.{
  held, count, mm_free-live, mm_alloc-live, free_all-live, on_null, held-null, VectorBlocks,
  alloc_argv-VectorBlocks,
}

-- What is allocated behind `initializeProcess`: the blocks of the process, or none.
unfoldable pub Allocated : ℕ → Heap → Option ProcessBlocks × Heap → Type 0
Allocated a h (none, h1) = h1.live a ≡ h.live a
Allocated a h (some b, h1) = h1.live a ≡ h.live a + count a (blocks_of b)

free_argv-live :
    (a : ℕ) (v : Vector) (h : Heap)
    → (free_argv v h).live a ≡ h.live a - count a (v.at ∷ addresses v.entries)
unfolding free_argv count
free_argv-live a v h =
    let entries = free_all-live a (addresses v.entries) h in
    let vector = mm_free-live a v.at (free_all (addresses v.entries) h) in omega arith

refused_list :
    (a stack name list : ℕ) (v : Vector) (h h0 : Heap)
    → h0.live a
      ≡ h.live a + held a stack + count a (v.at ∷ addresses v.entries) + held a name + held a list
    → list ≡ 0
    → Allocated a h (none, mm_free stack (free_argv v (mm_free name h0)))
unfolding Allocated
refused_list a stack name list v h h0 given null =
    let nothing = held-null a list null in
    let n = mm_free-live a name h0 in
    let vector = free_argv-live a v (mm_free name h0) in
    let s = mm_free-live a stack (free_argv v (mm_free name h0)) in omega arith

whole_process :
    (a stack list : ℕ) (name : ℕ × Chars) (v : Vector) (h h0 : Heap)
    → h0.live a
      ≡ h.live a + held a stack + count a (v.at ∷ addresses v.entries) + held a name.0 + held a list
    → Allocated a h (some (record { stack = stack; argv = v; name = name; list = list }), h0)
unfolding Allocated count
whole_process a stack list name v h h0 given = omega arith

with_list-Allocated :
    (a stack : ℕ) (v : Vector) (name : ℕ × Chars) (h : Heap) (m : ℕ × Heap)
    → m.1.live a
      ≡ h.live a + held a stack + count a (v.at ∷ addresses v.entries) + held a name.0 + held a m.0
    → Allocated a h (with_list stack v name m)
unfolding with_list
with_list-Allocated a stack v name h (list, h0) given =
    on_null (Allocated a h) list (none, mm_free stack (free_argv v (mm_free name.0 h0)))
      (some (record { stack = stack; argv = v; name = name; list = list }), h0)
      (refused_list a stack name.0 list v h h0 given) (whole_process a stack list name v h h0 given)

refused_name :
    (a stack name : ℕ) (v : Vector) (h h0 : Heap)
    → h0.live a ≡ h.live a + held a stack + count a (v.at ∷ addresses v.entries) + held a name
    → name ≡ 0
    → Allocated a h (none, mm_free stack (free_argv v h0))
unfolding Allocated
refused_name a stack name v h h0 given null =
    let nothing = held-null a name null in
    let vector = free_argv-live a v h0 in
    let s = mm_free-live a stack (free_argv v h0) in omega arith

with_name-Allocated :
    (a stack : ℕ) (v : Vector) (name : Chars) (h : Heap) (m : ℕ × Heap)
    → m.1.live a ≡ h.live a + held a stack + count a (v.at ∷ addresses v.entries) + held a m.0
    → Allocated a h (with_name stack v name m)
unfolding with_name
with_name-Allocated a stack v name h (p, h0) given =
    let given_list = mm_alloc-live a 32 h0 in
    on_null (Allocated a h) p (none, mm_free stack (free_argv v h0))
      (with_list stack v (p, name) (mm_alloc 32 h0)) (refused_name a stack p v h h0 given)
      (with_list-Allocated a stack v (p, name) h (mm_alloc 32 h0) (omega arith))

with_argv-Allocated :
    (a stack : ℕ) (name : Chars) (h h0 : Heap) (r : Option Vector × Heap)
    → h0.live a ≡ h.live a + held a stack
    → VectorBlocks a h0 r
    → Allocated a h (with_argv stack name r)
unfolding with_argv Allocated VectorBlocks
with_argv-Allocated a stack name h h0 (none, h1) given vector =
    let e : h1.live a ≡ h0.live a = vector in let freed = mm_free-live a stack h1 in omega arith
with_argv-Allocated a stack name h h0 (some v, h1) given vector =
    let e : h1.live a ≡ h0.live a + count a (v.at ∷ addresses v.entries) = vector in
    let given_name = mm_alloc-live a (my_strlen name + 1) h1 in
    with_name-Allocated a stack v name h (mm_alloc (my_strlen name + 1) h1) (omega arith)

refused_stack :
    (a stack : ℕ) (h h0 : Heap)
    → h0.live a ≡ h.live a + held a stack
    → stack ≡ 0
    → Allocated a h (none, h0)
unfolding Allocated
refused_stack a stack h h0 given null = let nothing = held-null a stack null in omega arith

with_stack-Allocated :
    (a argc : ℕ) (args : Option (List (Option Chars))) (h : Heap) (m : ℕ × Heap)
    → m.1.live a ≡ h.live a + held a m.0
    → Allocated a h (with_stack argc args m)
unfolding with_stack
with_stack-Allocated a argc args h (stack, h0) given =
    on_null (Allocated a h) stack (none, h0)
      (with_argv stack (name_of argc args) (alloc_argv argc args h0))
      (refused_stack a stack h h0 given)
      (with_argv-Allocated a stack (name_of argc args) h h0 (alloc_argv argc args h0) given
        (alloc_argv-VectorBlocks a argc args h0))

-- `initializeProcess` leaks nothing: whatever the memory manager answers, and whatever the arguments are,
-- each block is allocated as often as before where it fails, and where it answers a process each block
-- of that process once more.
pub initialize_process-Allocated :
    (argc : ℕ) (args : Option (List (Option Chars))) (h : Heap) (a : ℕ)
    → Allocated a h (initialize_process argc args h)
unfolding initialize_process
initialize_process-Allocated argc args h a =
    with_stack-Allocated a argc args h (mm_alloc stack_size h) (mm_alloc-live a stack_size h)

free_process-live :
    (a pcb : ℕ) (nodes : List ℕ) (b : ProcessBlocks) (h : Heap)
    → (free_process pcb nodes b h).live a
      ≡ h.live a - held a pcb - count a nodes - count a (blocks_of b)
unfolding free_process count
free_process-live a pcb nodes b h =
    let h1 = free_argv b.argv h in
    let h2 = mm_free b.name.0 h1 in
    let h3 = mm_free b.stack h2 in
    let h4 = free_all nodes h3 in
    let e1 = free_argv-live a b.argv h in
    let e2 = mm_free-live a b.name.0 h1 in
    let e3 = mm_free-live a b.stack h2 in
    let e4 = free_all-live a nodes h3 in
    let e5 = mm_free-live a b.list h4 in
    let e6 = mm_free-live a pcb (mm_free b.list h4) in omega arith

created_blocks :
    (a : ℕ) (b : ProcessBlocks) (h h1 : Heap)
    → Allocated a h (some b, h1)
    → h1.live a ≡ h.live a + count a (blocks_of b)
unfolding Allocated
created_blocks a b h h1 allocated = allocated

-- `freeProcess` undoes the creation of a process: when `initializeProcess` has answered the process `b`,
-- with the block of its PCB requested before, and its waiting list has got the nodes `nodes` since, then
-- `freeProcess` leaves each block allocated as often as before the PCB was requested.
pub free-initialize_process :
    (argc : ℕ) (args : Option (List (Option Chars))) (size : ℕ) (b : ProcessBlocks) (nodes : List ℕ)
    (h h1 h2 : Heap) (a : ℕ)
    → initialize_process argc args (mm_alloc size h).1 ≡ (some b, h1)
    → h2.live a ≡ h1.live a + count a nodes
    → (free_process (mm_alloc size h).0 nodes b h2).live a ≡ h.live a
free-initialize_process argc args size b nodes h h1 h2 a init listed =
    let pcb = mm_alloc-live a size h in
    let created = created_blocks a b (mm_alloc size h).1 h1 (
      subst (Allocated a (mm_alloc size h).1) init
        (initialize_process-Allocated argc args (mm_alloc size h).1 a)) in
    let freed = free_process-live a (mm_alloc size h).0 nodes b h2 in omega arith
