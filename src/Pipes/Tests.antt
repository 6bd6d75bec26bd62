-- ===== src/Pipes/Tests.antt =====
-- pipes.c on a table with one pipe: tests, and the theorems at it.
use tp2_so_2c.Prelude.{ℕ, ◌≡◌, refl, true, none, some, [], ◌∷◌, arith, replicate}
use tp2_so_2c.Semaphores.{idle, sem_at}
use tp2_so_2c.Pipes.{
  Pipe, World, max_pipes, opened_pipe, closed_pipe, write_pipe, read_pipe, create_pipe, find_closed,
}
use tp2_so_2c.Pipes.Ring.{contents}
use tp2_so_2c.Pipes.Calm.{quiet, Calm}
use tp2_so_2c.Pipes.Api.{write_pipe-read_pipe}
use tp2_so_2c.Pipes.Sample.{alone, never, one_pipe, one_pipe-Calm}
use tp2_so_2c.Pipes.Opening.{Unused, create_pipe-exhausted}

abbrev no_pipe : World ℕ
no_pipe = record {
  pipes = replicate max_pipes closed_pipe;
  next_sem_id = 0;
  sems = idle ∷ idle ∷ idle ∷ [];
  procs = 5;
  memory = true;
}

first_closed : find_closed no_pipe.pipes 0 ≡ some 0
unfolding find_closed
first_closed = refl

first-Unused : Unused no_pipe.sems 0
unfolding sem_at
first-Unused = (idle, refl, refl)

second-Unused : Unused no_pipe.sems 1
unfolding sem_at
second-Unused = (idle, refl, refl)

third-Unused : Unused no_pipe.sems 2
unfolding sem_at
third-Unused = (idle, refl, refl)

-- The pipe holds the byte 7.
abbrev one_byte : Pipe
one_byte = record (opened_pipe 0) { buffer = 7 ∷ replicate 511 0; write_idx = 1; count = 1 }

abbrev byte_pipe : World ℕ
byte_pipe = record one_pipe { pipes = one_byte ∷ []; sems = quiet 1 ∷ quiet 511 ∷ quiet 1 ∷ [] }

byte_pipe-Calm : Calm byte_pipe 0 one_byte
unfolding sem_at
byte_pipe-Calm = record {
  here = refl;
  in_table = omega arith;
  opened = refl;
  is_ring = record {
    sized = refl;
    reads_inside = omega arith;
    bounded = omega arith;
    writes_behind = refl;
  };
  data_left = refl;
  room_left = refl;
  unlocked = refl;
  readers_writers = λ e. omega arith;
  readers_mutex = λ e. omega arith;
  writers_mutex = λ e. omega arith;
}

write_pipe-read_pipe_example :
    (w' w'' : World ℕ) × (p'' : Pipe) × (write_pipe alone never 3 (some (7 ∷ 8 ∷ [])) one_pipe
      ≡ some (some 2, w'))
    × (read_pipe alone never 2 3 true 2 w' ≡ some (some 2, 7 ∷ 8 ∷ [], w''))
    × Calm w'' 0 p''
    × (contents p'' ≡ [])
write_pipe-read_pipe_example =
    write_pipe-read_pipe alone never 0 2 7 (8 ∷ []) one_pipe (opened_pipe 0) one_pipe-Calm
      (omega arith) (omega arith)

create_pipe-exhausted_example : (create_pipe (record no_pipe { next_sem_id = 127 })).0 ≡ none
create_pipe-exhausted_example =
    create_pipe-exhausted (record no_pipe { next_sem_id = 127 }) (omega arith)
