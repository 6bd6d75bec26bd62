-- ===== src/Processes/Tests.antt =====
-- Runs of process.c on a few blocks.
use tp2_so_2c.Prelude.{Option, none, some, List, [], ◌∷◌, ◌≡◌, refl, codes}
use tp2_so_2c.Text.{Chars}
use tp2_so_2c.Processes.{Heap, mm_alloc, initialize_process, free_process, ProcessBlocks}
use tp2_so_2c.Processes.Argv.{count}
use tp2_so_2c.Processes.Leaks.{Allocated, initialize_process-Allocated, free-initialize_process}

abbrev heap : Heap
heap = record { live = λ a. 0; answers = 100 ∷ 200 ∷ 300 ∷ 400 ∷ 500 ∷ 600 ∷ 700 ∷ [] }

-- It refuses the second argument.
abbrev small_heap : Heap
small_heap = record { live = λ a. 0; answers = 200 ∷ 300 ∷ 400 ∷ 0 ∷ [] }

abbrev args : Option (List (Option Chars))
args = some (some (codes "cat") ∷ some (codes "x") ∷ [])

abbrev blocks : ProcessBlocks
blocks = record {
  stack = 200;
  argv = record { at = 300; entries = (400, codes "cat") ∷ (500, codes "x") ∷ [] };
  name = (600, codes "cat");
  list = 700;
}

refuses : (initialize_process 2 args small_heap).0 ≡ none
unfolding initialize_process
refuses = refl

-- Without arguments the process is called "process".
unnamed :
    (initialize_process 0 none heap).0
    ≡ some (record {
      stack = 100;
      argv = record { at = 200; entries = [] };
      name = (300, codes "process");
      list = 400;
    })
unfolding initialize_process
unnamed = refl

initialize_process-Allocated_example : (initialize_process 2 args small_heap).1.live 300 ≡ 0
unfolding Allocated initialize_process
initialize_process-Allocated_example = initialize_process-Allocated 2 args small_heap 300

free-initialize_process_example :
    (free_process
        (mm_alloc 64 heap).0
        []
        blocks
        (initialize_process 2 args (mm_alloc 64 heap).1).1).live
      300
    ≡ 0
unfolding initialize_process mm_alloc count
free-initialize_process_example =
    free-initialize_process 2 args 64 blocks [] heap
      (initialize_process 2 args (mm_alloc 64 heap).1).1
      (initialize_process 2 args (mm_alloc 64 heap).1).1 300 refl refl
