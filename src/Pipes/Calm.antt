-- ===== src/Pipes/Calm.antt =====
-- Pipes of pipes.c whose semaphores agree with their buffers, where no process waits.
use tp2_so_2c.Prelude.{
  ℕ, ◌+◌, ◌-◌, ◌<◌, ◌^◌, ◌≡◌, ◌≢◌, refl, true, Option, some, [], ltb, get_elem?, set, arith,
  get_elem?-set_ne,
}
use tp2_so_2c.Semaphores.{Processes, Semaphore, Table, sem_at, count_up}
use tp2_so_2c.Semaphores.Queue.{sem_post-counts}
use tp2_so_2c.Pipes.{max_pipes, Pipe, World, pipe_buffer_size, pipe_wait, pipe_post}
use tp2_so_2c.Pipes.Ring.{IsRing}

-- A semaphore at which no process waits.
abbrev pub quiet : ℕ → Semaphore
quiet n = record { counter = n; active = true; wait_queue = some [] }

-- The pipe at index `i` is `p`. Its semaphores count its bytes and the room that is left, and no
-- process is inside or waits.
pub record Calm {S : Type 0} (w : World S) (i : ℕ) (p : Pipe) : Type 0 where
  pub here : get_elem? w.pipes i ≡ some p
  pub in_table : i < max_pipes
  pub opened : p.is_open ≡ true
  pub is_ring : IsRing p
  pub data_left : sem_at w.sems p.sem_readers ≡ some (quiet p.count)
  pub room_left : sem_at w.sems p.sem_writers ≡ some (quiet (pipe_buffer_size - p.count))
  pub unlocked : sem_at w.sems p.mutex ≡ some (quiet 1)
  pub readers_writers : p.sem_readers ≢ p.sem_writers
  pub readers_mutex : p.sem_readers ≢ p.mutex
  pub writers_mutex : p.sem_writers ≢ p.mutex

pub sem_at-set_ne :
    (t : Table) (i j : ℕ) (m' : Semaphore) → i ≢ j → sem_at (set t i m') j ≡ sem_at t j
unfolding sem_at
sem_at-set_ne t i j m' ne = rw (get_elem?-set_ne t i j m' ne)

module _ {S : Type 0} (processes : Processes S) (resume : World S → Option (World S)) where
  pub pipe_wait-quiet :
      (id n : ℕ) (w : World S)
      → sem_at w.sems id ≡ some (quiet n)
      → 0 < n
      → pipe_wait processes resume id w ≡ some (record w { sems = set w.sems id (quiet (n - 1)) })
  unfolding pipe_wait
  pipe_wait-quiet id n w at pos = let more : ltb 0 n ≡ true = ground arith in rw (at, more)

  pub pipe_post-quiet :
      (id n : ℕ) (w : World S)
      → sem_at w.sems id ≡ some (quiet n)
      → n + 1 < 2 ^ 32
      → pipe_post processes resume id w ≡ record w { sems = set w.sems id (quiet (n + 1)) }
  unfolding pipe_post
  pipe_post-quiet id n w at small =
      let up : count_up n ≡ n + 1 = omega arith in
      rw (sem_post-counts processes id w.sems w.procs (quiet n) [] at refl tt, up)
