-- ===== src/Pipes.antt =====
-- Kernel/utils/pipes/pipes.c over semaphores.c.
-- An `int` is its pattern of 32 bits, so -1 is 2 ^ 32 - 1; the indices and counts of a pipe are small.
-- A process that waits at a semaphore goes on when others have let it: `resume` is the state at that
-- time, given the one in which it was blocked, and none where it never goes on.
pub mod Ring
pub mod Calm
pub mod Transfer
pub mod Api
pub mod Opening
pub mod Sample
mod Tests
use tp2_so_2c.Prelude.{
  ℕ, zero, suc, ◌+◌, ◌-◌, ◌%◌, ◌^◌, Bool, true, false, ◌&&◌, ◌||◌, not, Option, none, some, List,
  [], ◌∷◌, ◌++◌, ltb, leb, ◌==◌, if◌then◌else◌, get_elem?, set, replicate, length,
}
use tp2_so_2c.Semaphores.{
  Processes, Semaphore, Table, sem_at, sem_create, sem_destroy, sem_wait, sem_post,
}

abbrev pub max_pipes : ℕ
max_pipes = 16

abbrev pub pipe_buffer_size : ℕ
pipe_buffer_size = 512

abbrev pub minus_one : ℕ
minus_one = 2 ^ 32 - 1

-- `pipe_t`
pub record Pipe : Type 0 where
  pub buffer : List ℕ
  pub read_idx : ℕ
  pub write_idx : ℕ
  pub count : ℕ
  pub sem_readers : ℕ
  pub sem_writers : ℕ
  pub mutex : ℕ
  pub readers : ℕ
  pub writers : ℕ
  pub is_open : Bool

-- The static state of pipes.c, the semaphores and the processes; `memory` is whether `mm_alloc`
-- serves the requests of semaphores.c.
pub record World (S : Type 0) : Type 0 where
  pub pipes : List Pipe
  pub next_sem_id : ℕ
  pub sems : Table
  pub procs : S
  pub memory : Bool

-- A pipe of `initializePipeManager`. The bytes of a buffer that was never written are 0.
abbrev pub closed_pipe : Pipe
closed_pipe = record {
  buffer = replicate pipe_buffer_size 0;
  read_idx = 0;
  write_idx = 0;
  count = 0;
  sem_readers = minus_one;
  sem_writers = minus_one;
  mutex = minus_one;
  readers = 0;
  writers = 0;
  is_open = false;
}

-- `initializePipeManager`
pub initialize_pipe_manager : {S : Type 0} → World S → World S
initialize_pipe_manager w = record w { pipes = replicate max_pipes closed_pipe }

-- `validatePipeId`: the index of the pipe with the id.
pub validate_pipe_id : List Pipe → ℕ → Option ℕ
validate_pipe_id pipes id =
    if ltb id 3 || ltb (max_pipes + 2) id then none else elim (get_elem? pipes (id - 3)) [
      | none ↦ none
      | some p ↦ if p.is_open then some (id - 3) else none
    ]

-- The loop of `createPipe` for a pipe that is not open, from index `i` on.
pub find_closed : List Pipe → ℕ → Option ℕ
find_closed [] i = none
find_closed (p ∷ ps) i = let rest = find_closed ps (i + 1) in if p.is_open then rest else some i

-- What `createPipe` writes into the pipe; its semaphores have the ids `n`, `n + 1` and `n + 2`.
abbrev pub opened_pipe : ℕ → Pipe
opened_pipe n = record {
  buffer = replicate pipe_buffer_size 0;
  read_idx = 0;
  write_idx = 0;
  count = 0;
  sem_readers = n;
  sem_writers = n + 1;
  mutex = n + 2;
  readers = 1;
  writers = 1;
  is_open = true;
}

-- The calls of `sem_create` in `createPipe`, which stop at the first that fails.
pub create_sems : ℕ → Bool → Table → Bool × Table
create_sems n memory t =
    let (ok_readers, t1) = sem_create n 0 memory t in
    let (ok_writers, t2) = sem_create (n + 1) pipe_buffer_size memory t1 in
    let (ok_mutex, t3) = sem_create (n + 2) 1 memory t2 in
    if not ok_readers then (false, t1) else if not ok_writers then (false, t2) else (ok_mutex, t3)

-- `createPipe` for the pipe at an index that is not open.
pub create_at : {S : Type 0} → Option ℕ → World S → Option ℕ × World S
create_at none w = (none, w)
create_at (some i) w =
    let (ok, t) = create_sems w.next_sem_id w.memory w.sems in
    (
      if ok then some (i + 3) else none,
      record w {
        pipes = set w.pipes i (opened_pipe w.next_sem_id);
        next_sem_id = w.next_sem_id + 3;
        sems = t;
      },
    )

-- `createPipe`: none stands for -1.
pub create_pipe : {S : Type 0} → World S → Option ℕ × World S
create_pipe w = create_at (find_closed w.pipes 0) w

-- The byte that `writePipe` puts into the buffer, if there is room.
pub put_byte : ℕ → Pipe → Pipe
put_byte b p =
    if ltb p.count pipe_buffer_size
    then record p {
      buffer = set p.buffer p.write_idx b;
      write_idx = (p.write_idx + 1) % pipe_buffer_size;
      count = p.count + 1;
    }
    else p

-- The byte that `readPipe` takes from the buffer, where there is one.
pub take_byte : Pipe → Option (ℕ × Pipe)
take_byte p =
    if ltb 0 p.count
    then elim (get_elem? p.buffer p.read_idx) [
      | none ↦ none
      | some b ↦
          some (b, record p { read_idx = (p.read_idx + 1) % pipe_buffer_size; count = p.count - 1 })
    ]
    else none

-- How a round of the loop of `readPipe` ends: with a byte, with the last byte that there will be,
-- with the end of the data, or with no byte, to be tried again.
pub data Got : Type 0 where
  byte : ℕ → Got
  last : ℕ → Got
  ended : Got
  retry : Got

-- What `closePipe` writes into the pipe when its last writer has closed it; `mutex` stays.
abbrev pub cleared_pipe : Pipe → Pipe
cleared_pipe p = record p {
  is_open = false;
  read_idx = 0;
  write_idx = 0;
  count = 0;
  readers = 0;
  writers = 0;
  sem_readers = minus_one;
  sem_writers = minus_one;
}

module _ {S : Type 0} (processes : Processes S) (resume : World S → Option (World S)) where
  -- The process that calls `sem_wait` at the id goes on: at once, where the semaphore lets it pass or
  -- the call fails, else after it has been woken.
  abbrev pub passes : Option Semaphore → Bool → Bool
  passes none memory = true
  passes (some m) memory = ltb 0 m.counter || not memory

  -- sem_wait(id), whose answer pipes.c ignores.
  pub pipe_wait : ℕ → World S → Option (World S)
  unfolding sem_wait sem_at
  pipe_wait id w =
      let (ok, t, s) = sem_wait processes id w.memory w.memory w.sems w.procs in
      if passes (sem_at w.sems id) w.memory
      then some (record w { sems = t; procs = s })
      else resume (record w { sems = t; procs = s })

  -- sem_post(id), whose answer pipes.c ignores.
  pub pipe_post : ℕ → World S → World S
  unfolding sem_post
  pipe_post id w =
      let (ok, t, s) = sem_post processes id w.sems w.procs in record w { sems = t; procs = s }

  abbrev pub then_do : {A B : Type 0} → Option A → (A → Option B) → Option B
  then_do none k = none
  then_do (some a) k = k a

  infixl 5 ◌>>=◌
  abbrev pub ◌>>=◌ : {A B : Type 0} → Option A → (A → Option B) → Option B
  o >>= k = then_do o k

  -- The pipe at an index, and a write of it.
  abbrev pub pipe_at : ℕ → World S → Option Pipe
  pipe_at i w = get_elem? w.pipes i

  abbrev pub set_pipe : ℕ → Pipe → World S → World S
  set_pipe i p w = record w { pipes = set w.pipes i p }

  -- One round of the loop of `writePipe`: the answer is how many bytes were written.
  pub write_round : ℕ → ℕ → World S → Option (ℕ × World S)
  write_round i b w = do
    p ← pipe_at i w
    w ← pipe_wait p.sem_writers w
    p ← pipe_at i w
    w ← pipe_wait p.mutex w
    p ← pipe_at i w
    let w = set_pipe i (put_byte b p) w
    let w = pipe_post p.mutex w
    some (if ltb p.count pipe_buffer_size then 1 else 0, pipe_post p.sem_readers w)

  -- The loop of `writePipe` over the bytes.
  pub write_bytes : ℕ → List ℕ → World S → Option (ℕ × World S)
  write_bytes i [] w = some (0, w)
  write_bytes i (b ∷ bs) w = do
    (n, w) ← write_round i b w
    (m, w) ← write_bytes i bs w
    some (n + m, w)

  -- `writePipe` of bytes to the pipe with a valid id.
  pub write_at : Option ℕ → List ℕ → World S → Option (Option ℕ × World S)
  write_at none bs w = some (none, w)
  write_at (some i) bs w = do (n, w) ← write_bytes i bs w; some (some n, w)

  -- `writePipe` of the first `size` bytes of a buffer, none for NULL: the answer is the number of
  -- bytes written, none for -1.
  pub write_pipe : ℕ → Option (List ℕ) → World S → Option (Option ℕ × World S)
  write_pipe id none w = some (none, w)
  write_pipe id (some []) w = some (none, w)
  write_pipe id (some (b ∷ bs)) w = write_at (validate_pipe_id w.pipes id) (b ∷ bs) w

  -- The end of a round of `readPipe` that has taken the byte `b` and left the pipe `p`.
  pub took_byte : ℕ → ℕ → Pipe → World S → Got × World S
  took_byte i b p w =
      let w1 = pipe_post p.sem_writers (pipe_post p.mutex (set_pipe i p w)) in
      (if (p.writers == 0) && (p.count == 0) then last b else byte b, w1)

  -- One round of the loop of `readPipe`.
  pub read_round : ℕ → World S → Option (Got × World S)
  read_round i w = do
    p ← pipe_at i w
    w ← pipe_wait p.sem_readers w
    p ← pipe_at i w
    w ← pipe_wait p.mutex w
    p ← pipe_at i w
    if (p.count == 0) && (p.writers == 0)
        then some (ended, pipe_post p.mutex w)
        else if ltb 0 p.count
        then (do (b, p) ← take_byte p; some (took_byte i b p w))
        else some (retry, pipe_post p.mutex w)

  -- The loop of `readPipe` for `n` more bytes, on fuel: the bytes read. It ends early at the end of
  -- the data.
  pub read_bytes : ℕ → ℕ → ℕ → World S → Option (List ℕ × World S)
  read_bytes fuel i zero w = some ([], w)
  read_bytes zero i (suc n) w = none
  read_bytes (suc fuel) i (suc n) w = do
    (got, w) ← read_round i w
    elim got [
      | ended ↦ some ([], w)
      | last b ↦ some (b ∷ [], w)
      | retry ↦ read_bytes fuel i (suc n) w
      | byte b ↦ then_do (read_bytes fuel i n w) (λ (r : List ℕ × World S). some (b ∷ r.0, r.1))
    ]

  -- `readPipe` from the pipe with a valid id.
  pub read_at : ℕ → Option ℕ → Bool → ℕ → World S → Option (Option ℕ × List ℕ × World S)
  read_at fuel none buffer size w = some (none, [], w)
  read_at fuel (some i) buffer size w = if not buffer || (size == 0) then some (none, [], w) else do
    (bs, w) ← read_bytes fuel i size w
    some (if length bs == 0 then none else some (length bs), bs, w)

  -- `readPipe` for `size` bytes, 0 for a size that is not positive, where `buffer` is whether the
  -- buffer is not NULL: the answer, none for -1, and the bytes put into the buffer.
  pub read_pipe : ℕ → ℕ → Bool → ℕ → World S → Option (Option ℕ × List ℕ × World S)
  read_pipe fuel id buffer size w = read_at fuel (validate_pipe_id w.pipes id) buffer size w

  -- for (i = 0; i < n; i++) sem_post(id)
  pub post_times : ℕ → ℕ → World S → World S
  post_times zero id w = w
  post_times (suc n) id w = post_times n id (pipe_post id w)

  -- sem_destroy(id), whose answer pipes.c ignores.
  abbrev pub destroyed : ℕ → World S → World S
  destroyed id w = record w { sems = (sem_destroy id w.sems).1 }

  -- The end of `closePipe` for the last writer of the pipe `p`.
  pub close_last : ℕ → Pipe → World S → World S
  close_last i p w =
      let w1 = pipe_post p.mutex (post_times pipe_buffer_size p.sem_readers w) in
      let w2 = destroyed p.mutex (destroyed p.sem_writers (destroyed p.sem_readers w1)) in
      set_pipe i (cleared_pipe (record p { writers = 0 })) w2

  -- `closePipe` behind its wait, on the pipe `p` at index `i`.
  pub close_inside : ℕ → Pipe → World S → World S
  close_inside i p w =
      if p.writers == 0
      then pipe_post p.mutex w
      else if p.writers == 1
      then close_last i p w
      else (let w1 = pipe_post p.mutex (set_pipe i (record p { writers = p.writers - 1 }) w) in
          set_pipe i (record p { writers = p.writers - 1; mutex = minus_one }) w1)

  -- `closePipe` on the pipe with a valid id.
  pub close_at : Option ℕ → World S → Option (Bool × World S)
  close_at none w = some (false, w)
  close_at (some i) w = do
    p ← pipe_at i w
    w ← pipe_wait p.mutex w
    p ← pipe_at i w
    some (true, close_inside i p w)

  -- `closePipe`: whether the id was valid.
  pub close_pipe : ℕ → World S → Option (Bool × World S)
  close_pipe id w = close_at (validate_pipe_id w.pipes id) w

  -- `clearPipe` on the pipe with a valid id.
  pub clear_at : Option ℕ → World S → Option (Bool × World S)
  clear_at none w = some (false, w)
  clear_at (some i) w = do
    p ← pipe_at i w
    w ← pipe_wait p.mutex w
    p ← pipe_at i w
    some (
      true,
      pipe_post p.mutex (set_pipe i (record p { read_idx = 0; write_idx = 0; count = 0 }) w),
    )

  -- `clearPipe`: whether the id was valid.
  pub clear_pipe : ℕ → World S → Option (Bool × World S)
  clear_pipe id w = clear_at (validate_pipe_id w.pipes id) w
