-- ===== src/Semaphores/Tests.antt =====
-- semaphores.c on a small table: tests, and the theorems at it.
use tp2_so_2c.Prelude.{
  ℕ, zero, suc, ◌+◌, ◌≡◌, refl, true, false, some, List, [], ◌∷◌, arith, set, get_elem?, ◌==◌,
}
use tp2_so_2c.Semaphores.{
  Processes, Semaphore, Table, idle, sem_at, sem_create, sem_wait, sem_post, sem_destroy, sem_open,
  purge, success, failure,
}
use tp2_so_2c.Semaphores.Queue.{sem_post-counts}
use tp2_so_2c.Semaphores.Invariant.{Settled, SettledAt, operations-Settled}
use tp2_so_2c.Semaphores.Balance.{Event, waits, posts, goes, World}
use tp2_so_2c.Semaphores.Scheduling.{kernel_processes, sem_post-readies}
use tp2_so_2c.Scheduler.{find_process}
use tp2_so_2c.Scheduler.State.{Kernel}
use tp2_so_2c.Scheduler.Wellformed.{IsWellformed}
use tp2_so_2c.Scheduler.Blocking.{Changed, readied}
use tp2_so_2c.Scheduler.Sample.{three, three-IsWellformed}

-- Processes of which only the current one and the last one woken are known; 7 has ended.
abbrev Pair : Type 0
Pair = ℕ × ℕ

abbrev pair_processes : Processes Pair
pair_processes = record {
  current = λ s. s.0;
  gone = λ s p. p == 7;
  block = λ p s. (s.0 + 1, s.1);
  wake = λ p s. (s.0, p);
}

abbrev table : Table
table = idle ∷ record { counter = 0; active = true; wait_queue = some (7 ∷ 4 ∷ 7 ∷ 5 ∷ []) } ∷ []

abbrev open_table : Table
open_table = idle ∷ record { counter = 1; active = true; wait_queue = some [] } ∷ []

abbrev after_post : Table
after_post = idle ∷ record { counter = 0; active = true; wait_queue = some (5 ∷ []) } ∷ []

abbrev at_one : Semaphore
at_one = record { counter = 0; active = true; wait_queue = some (7 ∷ 4 ∷ 7 ∷ 5 ∷ []) }

abbrev open_one : Semaphore
open_one = record { counter = 1; active = true; wait_queue = some [] }

table_at : sem_at table 1 ≡ some at_one
unfolding sem_at
table_at = refl

open_at : sem_at open_table 1 ≡ some open_one
unfolding sem_at
open_at = refl

purge_rest : purge (λ p. p == 7) (7 ∷ 5 ∷ []) ≡ 5 ∷ []
unfolding purge
purge_rest = refl

create_again : (sem_create 1 5 true open_table).0 ≡ failure
unfolding sem_create
create_again = refl

create_out_of_range : (sem_create 128 5 true open_table).0 ≡ failure
unfolding sem_create
create_out_of_range = refl

destroy_once : sem_open 1 (sem_destroy 1 open_table).1 ≡ false
unfolding sem_destroy sem_open
destroy_once = refl

sem_post-counts_example :
    sem_post pair_processes 1 open_table (3, 0)
    ≡ (success, set open_table 1 (record open_one { counter = 2; wait_queue = some [] }), (3, 0))
sem_post-counts_example =
    sem_post-counts pair_processes 1 open_table (3, 0) open_one [] open_at refl tt

open-SettledAt : (i : ℕ) (m : Semaphore) → get_elem? open_table i ≡ some m → SettledAt m
open-SettledAt zero m h pos = ground (arith, h)
open-SettledAt (suc zero) m h pos = ground (arith, h)
open-SettledAt (suc (suc i)) m h pos = cc

operations-Settled_example :
    Settled (sem_create 0 2 true open_table).1
    × Settled (sem_destroy 0 open_table).1
    × Settled (sem_wait pair_processes 0 true true open_table (3, 0)).1
    × Settled (sem_post pair_processes 0 open_table (3, 0)).1
operations-Settled_example =
    operations-Settled pair_processes 0 2 true true true open_table (3, 0) open-SettledAt

abbrev world : World Pair
world = record { sems = open_table; procs = (3, 0); passed = 0; posted = 0 }

abbrev events : List (Event Pair)
events = waits true true ∷ waits true true ∷ posts ∷ goes (λ s. (9, 9)) ∷ posts ∷ []

abbrev queue_two : Semaphore
queue_two = record { counter = 0; active = true; wait_queue = some (2 ∷ []) }

abbrev kernel_table : Table
kernel_table = queue_two ∷ []

kernel_at : sem_at kernel_table 0 ≡ some queue_two
unfolding sem_at
kernel_at = refl

present : (kernel_processes 5555).gone three 2 ≡ false
unfolding kernel_processes find_process
present = refl

sem_post-readies_example :
    (s' : Kernel) × (sem_post (kernel_processes 5555) 0 kernel_table three ≡ (
      success,
      set kernel_table 0
          (record queue_two { wait_queue = some (purge ((kernel_processes 5555).gone three) []) }),
      s',
    ))
    × IsWellformed s'
    × Changed three 2 readied s'
sem_post-readies_example =
    sem_post-readies 5555 three 2 0 kernel_table queue_two [] three-IsWellformed refl kernel_at refl
      present
