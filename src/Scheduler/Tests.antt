-- ===== src/Scheduler/Tests.antt =====
-- scheduler.c on three processes: tests, and the theorems at them.
use tp2_so_2c.Prelude.{
  ℕ, ◌≡◌, ◌≢◌, refl, ◌⊎◌, Bool, true, false, Option, none, some, List, [], ◌∷◌, arith,
}
use tp2_so_2c.Scheduler.{
  set_ready_process, schedule, create_process, wait_process, initial, Request, Grants, kill_process,
}
use tp2_so_2c.Scheduler.State.{Ptr, running, Process, Kernel, M, pure, ◌>>=◌}
use tp2_so_2c.Scheduler.Wellformed.{Live, IsWellformed, listed}
use tp2_so_2c.Scheduler.Turns.{TurnOver, requeued, rotated, schedule-rotates}
use tp2_so_2c.Scheduler.Fairness.{Running, give_turns, give_turns-reaches}
use tp2_so_2c.Scheduler.Blocking.{Missing, Changed, readied, set_ready_process-IsWellformed}
use tp2_so_2c.Scheduler.Creation.{Created, NotCreated, create_process-IsWellformed}
use tp2_so_2c.Scheduler.Sample.{process, processes, three, shell-Live, three-IsWellformed}

three-TurnOver : TurnOver three (process 1 running)
three-TurnOver = record {
  not_none = ground arith;
  in_list = refl;
  is_live = shell-Live;
  runs = refl;
  over = refl;
}

three_pids : (p : Ptr) (d : Process) → listed three p ≡ true → Live processes p d → d.pid ≢ 65535
three_pids p d m l h = ground (arith, l.stored)

three-Running : Running three (process 1 running)
three-Running = record {
  in_list = refl;
  is_live = shell-Live;
  runs = refl;
  charge = refl;
  pids = three_pids;
}

abbrev view_turn : Option (ℕ × Kernel) → Option (ℕ × ℕ × List Ptr)
view_turn none = none
view_turn (some (n, s)) = some (n, s.current_pid, s.ready_process)

abbrev seen_turn : Option (ℕ × ℕ × List Ptr)
seen_turn = some (8000, 0, 20 ∷ [])

-- The shell's turn ends: the idle process runs, and the shell is behind it.
turn_ends : view_turn (schedule 5555 three) ≡ seen_turn
unfolding schedule
turn_ends = refl

schedule-rotates_example :
    (d : Process) × Live (requeued three 5555 (process 1 running)).store_of 10 d
    × (schedule 5555 three
        ≡ some (d.stack_pos, rotated three 5555 (process 1 running) 10 d (20 ∷ [])))
    × IsWellformed (rotated three 5555 (process 1 running) 10 d (20 ∷ []))
schedule-rotates_example =
    schedule-rotates three 5555 (process 1 running) 10 (20 ∷ []) three-IsWellformed refl
      three-TurnOver refl

give_turns-reaches_example :
    (s' : Kernel) × (give_turns (5555 ∷ []) three ≡ some s')
    × (s'.current_process ≡ 10)
    × IsWellformed s'
give_turns-reaches_example =
    give_turns-reaches [] [] 10 5555 [] three (process 1 running) three-IsWellformed refl
      three-Running refl refl

set_ready_process-IsWellformed_example :
    (ok : Bool) × (s' : Kernel) × (set_ready_process 2 three ≡ some (ok, s'))
    × IsWellformed s'
    × (((ok ≡ false) × (s' ≡ three) × Missing three 2) ⊎ ((ok ≡ true) × Changed three 2 readied s'))
set_ready_process-IsWellformed_example =
    set_ready_process-IsWellformed three 2 three-IsWellformed refl

abbrev request : Request
request = record { rip = 700; priority = 2; ground = 0; file_descriptors = some (0, 1, 2) }

abbrev grants : Grants
grants = record { stack = 20000; argv = true; name = true; list = true; frame = 24000 }

-- Without file descriptors a process gets 0, 1 and 2.
default_descriptors : (initial 1 (record request { file_descriptors = none }) grants).stdout ≡ 1
default_descriptors = refl

create_process-IsWellformed_example :
    (res : Option ℕ) × (s' : Kernel) × (create_process 40 request grants three ≡ some (res, s'))
    × IsWellformed s'
    × (Created three 40 request grants res s' ⊎ NotCreated three 40 grants res s')
create_process-IsWellformed_example =
    create_process-IsWellformed three 40 request grants three-IsWellformed refl refl

-- A process is created, waited for by the shell and killed: the shell is ready again.
abbrev life : M (Option ℕ × Bool × Bool)
life = do
  pid ← create_process 40 request grants
  waiting ← wait_process 5555 3
  killed ← kill_process 3
  pure (pid, waiting, killed)

abbrev Seen : Type 0
Seen = Option ℕ × Bool × Bool × ℕ × List Ptr × List Ptr × List Ptr

abbrev view_life : Option ((Option ℕ × Bool × Bool) × Kernel) → Option Seen
view_life none = none
view_life (some ((pid, waiting, killed), s)) =
    some (pid, waiting, killed, s.current_pid, s.ready_process, s.process_list, s.blocked_process)

abbrev seen_life : Option Seen
seen_life = some (some 3, true, true, 0, 20 ∷ [], 10 ∷ 20 ∷ 30 ∷ [], 30 ∷ [])

life_runs : view_life (life three) ≡ seen_life
unfolding create_process wait_process kill_process
life_runs = refl
