-- ===== src/Semaphores/Balance.antt =====
-- How many processes pass a semaphore of semaphores.c.
use tp2_so_2c.Prelude.{
  ℕ, ◌+◌, ◌≡◌, Bool, true, Option, none, some, List, [], ◌∷◌, ltb, if◌then◌else◌, set, arith,
  get_elem?-set_self, lt-length,
}
use tp2_so_2c.Semaphores.{Processes, Semaphore, Table, sem_at, sem_wait, purged, sem_post, num_sems}
use tp2_so_2c.Semaphores.Invariant.{sem_at-get_elem?}

-- A step at a semaphore that is neither created nor destroyed: the current process waits, with the answers of `mm_alloc`; a process
-- posts; or the scheduler's state changes by itself.
pub data Event (S : Type 0) : Type 0 where
  waits : Bool → Bool → Event S
  posts : Event S
  goes : (S → S) → Event S

-- The semaphores and the processes, with the count of the processes that a semaphore has let pass
-- and of the posts.
pub record World (S : Type 0) : Type 0 where
  pub sems : Table
  pub procs : S
  pub passed : ℕ
  pub posted : ℕ

-- A process that waits passes at once where the counter is positive.
abbrev pub passes : Option Semaphore → ℕ
passes none = 0
passes (some m) = if ltb 0 m.counter then 1 else 0

-- A post lets the first process of the queue pass.
abbrev pub lets_pass : Option (List ℕ) → ℕ
lets_pass none = 0
lets_pass (some []) = 0
lets_pass (some (p ∷ ps)) = 1

pub sem_at-set :
    (t : Table) (id : ℕ) (m m' : Semaphore)
    → sem_at t id ≡ some m
    → sem_at (set t id m') id ≡ some m'
unfolding sem_at
sem_at-set t id m m' at =
    let (small, here) = sem_at-get_elem? t id m at in
    let fits : ltb id num_sems ≡ true = ground arith in
    rw (fits, get_elem?-set_self t id m' (lt-length t id m here))

module _ {S : Type 0} (processes : Processes S) where
  open processes use {current, gone, block, wake}

  abbrev pub queue_at : Option Semaphore → S → Option (List ℕ)
  queue_at none s = none
  queue_at (some m) s = purged processes m.wait_queue s

  pub step : ℕ → Event S → World S → World S
  step id (waits cell node) w =
      let (ok, t, s) = sem_wait processes id cell node w.sems w.procs in
      record w { sems = t; procs = s; passed = w.passed + passes (sem_at w.sems id) }
  step id posts w =
      let (ok, t, s) = sem_post processes id w.sems w.procs in
      record w {
        sems = t;
        procs = s;
        passed = w.passed + lets_pass (queue_at (sem_at w.sems id) w.procs);
        posted = w.posted + 1;
      }
  step id (goes f) w = record w { procs = f w.procs }

  pub run : ℕ → List (Event S) → World S → World S
  run id [] w = w
  run id (e ∷ es) w = run id es (step id e w)

  -- The semaphore `id` of `w'`, where its counter and the processes that passed balance the posts
  -- since `w`, in which the counter was `counter`.
  abbrev pub Balanced : ℕ → World S → ℕ → World S → Type 0
  Balanced id w counter w' =
      (m : Semaphore) × (sem_at w'.sems id ≡ some m)
      × (w'.passed + m.counter + w.posted ≡ w.passed + counter + w'.posted)
