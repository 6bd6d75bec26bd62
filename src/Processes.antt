-- ===== src/Processes.antt =====
-- Kernel/utils/processes/process.c: the blocks of memory that a process has.
-- The memory manager is what it answers and what is allocated: `answers` are the addresses that it will
-- give, 0 for NULL, and NULL behind their end; `live a` counts how often the block `a` is allocated.
-- A string is the bytes behind its pointer. `int` counts are not negative here.
pub mod Argv
pub mod Leaks
mod Tests
use tp2_so_2c.Prelude.{
  ℕ, zero, suc, ◌+◌, ◌-◌, ◌*◌, Bool, true, false, ◌&&◌, ◌||◌, not, Option, none, some, List, [],
  ◌∷◌, ◌++◌, leb, ◌==◌, if◌then◌else◌, codes,
}
use tp2_so_2c.Text.{Chars, my_strlen}
use tp2_so_2c.Scheduler.{stack_size}
use tp2_so_2c.Scheduler.State.{Process}

pub record Heap : Type 0 where
  pub live : ℕ → ℕ
  pub answers : List ℕ

-- A block has been given: NULL is none.
unfoldable pub take_block : ℕ → Heap → Heap
take_block p h =
    if p == 0 then h else record h { live = λ a. if a == p then h.live a + 1 else h.live a }

unfoldable pub answer : List ℕ → Heap → ℕ × Heap
unfolding take_block
answer [] h = (0, h)
answer (p ∷ ps) h = (p, take_block p (record h { answers = ps }))

-- `mm_alloc` of a number of bytes.
unfoldable pub mm_alloc : ℕ → Heap → ℕ × Heap
unfolding answer
mm_alloc n h = answer h.answers h

-- `mm_free`, which ignores NULL.
unfoldable pub mm_free : ℕ → Heap → Heap
mm_free p h =
    if p == 0 then h else record h { live = λ a. if a == p then h.live a - 1 else h.live a }

-- The frees of several blocks, in their order.
unfoldable pub free_all : List ℕ → Heap → Heap
unfolding mm_free
free_all [] h = h
free_all (p ∷ ps) h = free_all ps (mm_free p h)

-- An argument vector: its address, and the address and the text of each entry before its NULL.
pub record Vector : Type 0 where
  pub at : ℕ
  pub entries : List (ℕ × Chars)

unfoldable pub addresses : List (ℕ × Chars) → List ℕ
addresses [] = []
addresses ((p, t) ∷ es) = p ∷ addresses es

abbrev with_entry : ℕ × Chars → Option (List (ℕ × Chars)) → Option (List (ℕ × Chars))
with_entry e none = none
with_entry e (some es) = some (e ∷ es)

-- `freeArgv` for a vector that is not NULL.
unfoldable pub free_argv : Vector → Heap → Heap
unfolding mm_free free_all addresses
free_argv v h = mm_free v.at (free_all (addresses v.entries) h)

-- The loop of `allocArgv` for `n` more entries, `copied` those that were copied before. An entry that is
-- NULL, or behind the end of the vector, ends it, as does a request that is refused.
unfoldable pub copy_args :
    ℕ → List (Option Chars) → List ℕ → Heap → Option (List (ℕ × Chars)) × Heap
unfolding mm_alloc free_all
copy_args zero args copied h = (some [], h)
copy_args (suc n) [] copied h = (none, free_all copied h)
copy_args (suc n) (none ∷ args) copied h = (none, free_all copied h)
copy_args (suc n) (some t ∷ args) copied h =
    let (p, h1) = mm_alloc (my_strlen t + 1) h in
    let (rest, h2) = copy_args n args (copied ++ (p ∷ [])) h1 in
    if p == 0 then (none, free_all copied h1) else (with_entry (p, t) rest, h2)

-- The end of `allocArgv`: where the loop failed, the vector itself is given back.
unfoldable pub vector_of : ℕ → Option (List (ℕ × Chars)) × Heap → Option Vector × Heap
unfolding mm_free
vector_of at (none, h) = (none, mm_free at h)
vector_of at (some es, h) = (some (record { at = at; entries = es }), h)

-- `allocArgv` of a vector that is not NULL, with an `argc` above 0, when `mm_alloc` has answered.
unfoldable pub fill_vector : ℕ → List (Option Chars) → ℕ × Heap → Option Vector × Heap
unfolding vector_of copy_args
fill_vector argc args (at, h) =
    if at == 0 then (none, h) else vector_of at (copy_args argc args [] h)

unfoldable pub empty_vector : ℕ × Heap → Option Vector × Heap
empty_vector (at, h) = if at == 0 then (none, h) else (some (record { at = at; entries = [] }), h)

-- `allocArgv`, where none is a vector NULL.
unfoldable pub alloc_argv : ℕ → Option (List (Option Chars)) → Heap → Option Vector × Heap
unfolding mm_alloc fill_vector empty_vector
alloc_argv argc none h = if argc == 0 then empty_vector (mm_alloc 8 h) else (none, h)
alloc_argv argc (some args) h =
    if argc == 0
    then empty_vector (mm_alloc 8 h)
    else fill_vector argc args (mm_alloc ((argc + 1) * 8) h)

-- The blocks of a process: its stack, its vector, its name and its waiting list.
pub record ProcessBlocks : Type 0 where
  pub stack : ℕ
  pub argv : Vector
  pub name : ℕ × Chars
  pub list : ℕ

abbrev pub blocks_of : ProcessBlocks → List ℕ
blocks_of b = b.list ∷ b.name.0 ∷ b.argv.at ∷ b.stack ∷ addresses b.argv.entries

-- The name of a process: `args[0]` where it is there.
abbrev pub name_of : ℕ → Option (List (Option Chars)) → Chars
name_of zero args = codes "process"
name_of (suc n) none = codes "process"
name_of (suc n) (some []) = codes "process"
name_of (suc n) (some (none ∷ args)) = codes "process"
name_of (suc n) (some (some t ∷ args)) = t

-- `initializeProcess` behind the request for the waiting list, `createDoubleLinkedListADT`.
unfoldable pub with_list : ℕ → Vector → ℕ × Chars → ℕ × Heap → Option ProcessBlocks × Heap
unfolding mm_free free_argv
with_list stack v name (list, h) =
    if list == 0
    then (none, mm_free stack (free_argv v (mm_free name.0 h)))
    else (some (record { stack = stack; argv = v; name = name; list = list }), h)

-- Behind the request for the name; the request for the list is one block.
unfoldable pub with_name : ℕ → Vector → Chars → ℕ × Heap → Option ProcessBlocks × Heap
unfolding mm_free free_argv mm_alloc with_list
with_name stack v name (p, h) =
    if p == 0
    then (none, mm_free stack (free_argv v h))
    else with_list stack v (p, name) (mm_alloc 32 h)

-- Behind `allocArgv`.
unfoldable pub with_argv : ℕ → Chars → Option Vector × Heap → Option ProcessBlocks × Heap
unfolding mm_free mm_alloc with_name
with_argv stack name (none, h) = (none, mm_free stack h)
with_argv stack name (some v, h) = with_name stack v name (mm_alloc (my_strlen name + 1) h)

-- Behind the request for the stack.
unfoldable pub with_stack :
    ℕ → Option (List (Option Chars)) → ℕ × Heap → Option ProcessBlocks × Heap
unfolding alloc_argv with_argv
with_stack argc args (stack, h) =
    if stack == 0 then (none, h) else with_argv stack (name_of argc args) (alloc_argv argc args h)

-- `initializeProcess`, as far as it asks for memory: none stands for -1.
unfoldable pub initialize_process :
    ℕ → Option (List (Option Chars)) → Heap → Option ProcessBlocks × Heap
unfolding mm_alloc with_stack
initialize_process argc args h = with_stack argc args (mm_alloc stack_size h)

-- `freeProcess` of a process with the block `pcb`, whose waiting list has the nodes `nodes`: the stack
-- has an address of at least STACK_SIZE when its size is added.
unfoldable pub free_process : ℕ → List ℕ → ProcessBlocks → Heap → Heap
unfolding mm_free free_argv free_all
free_process pcb nodes b h =
    let h1 = mm_free b.stack (mm_free b.name.0 (free_argv b.argv h)) in
    mm_free pcb (mm_free b.list (free_all nodes h1))
