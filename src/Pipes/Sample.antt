-- ===== src/Pipes/Sample.antt =====
-- pipes.c at concrete data: a table with one pipe, empty and open, and a process alone.
use tp2_so_2c.Prelude.{ℕ, refl, true, Option, none, [], ◌∷◌, arith, false}
use tp2_so_2c.Semaphores.{Processes, sem_at}
use tp2_so_2c.Pipes.{World, opened_pipe, pipe_buffer_size}
use tp2_so_2c.Pipes.Ring.{opened-IsRing}
use tp2_so_2c.Pipes.Calm.{quiet, Calm}

-- A process alone: nobody wakes it.
abbrev pub alone : Processes ℕ
alone = record { current = λ s. s; gone = λ s p. false; block = λ p s. s; wake = λ p s. s }

abbrev pub never : World ℕ → Option (World ℕ)
never w = none

abbrev pub one_pipe : World ℕ
one_pipe = record {
  pipes = opened_pipe 0 ∷ [];
  next_sem_id = 3;
  sems = quiet 0 ∷ quiet pipe_buffer_size ∷ quiet 1 ∷ [];
  procs = 5;
  memory = true;
}

pub one_pipe-Calm : Calm one_pipe 0 (opened_pipe 0)
unfolding sem_at
one_pipe-Calm = record {
  here = refl;
  in_table = omega arith;
  opened = refl;
  is_ring = opened-IsRing 0;
  data_left = refl;
  room_left = refl;
  unlocked = refl;
  readers_writers = λ e. omega arith;
  readers_mutex = λ e. omega arith;
  writers_mutex = λ e. omega arith;
}
