-- ===== src/Pipes/Transfer.antt =====
-- What `writePipe` and `readPipe` of pipes.c move, where they need not wait.
use mathlib.Core.List.{append_assoc, append-nil}
use tp2_so_2c.Prelude.{
  ℕ, zero, suc, ◌+◌, ◌-◌, ◌≤◌, ◌<◌, ◌%◌, ◌≡◌, ◌≢◌, refl, ap, sym, ◌∙◌, ◌&&◌, ◌==◌, Bool-cases, inl,
  inr, true, false, Option, some, List, [], ◌∷◌, ◌++◌, ltb, if◌then◌else◌, set, arith, length,
  get_elem?-set_self, lt-length,
}
use tp2_so_2c.Semaphores.{Processes, Table, sem_at}
use tp2_so_2c.Semaphores.Balance.{sem_at-set}
use tp2_so_2c.Pipes.{
  Pipe, World, pipe_buffer_size, put_byte, take_byte, set_pipe, write_round, write_bytes,
  read_round, read_bytes, Got, byte, last, took_byte,
}
use tp2_so_2c.Pipes.Ring.{IsRing, contents, put_byte-contents, take_byte-contents, without_byte}
use tp2_so_2c.Ring.{ring}
use tp2_so_2c.Pipes.Calm.{quiet, Calm, sem_at-set_ne, pipe_wait-quiet, pipe_post-quiet}

-- The table after a process has passed the semaphore `a`, which held `n` units, has been inside, and
-- has posted `b`, which held `k`.
abbrev pub crossed : Table → ℕ → ℕ → ℕ → ℕ → ℕ → Table
crossed t a n mutex b k =
    set (set (set (set t a (quiet (n - 1))) mutex (quiet 0)) mutex (quiet 1)) b (quiet (k + 1))

-- The semaphores of a crossing: distinct, the first not at zero and the mutex free.
pub record Crossing (t : Table) (a n mutex b k : ℕ) : Type 0 where
  pub at_first : sem_at t a ≡ some (quiet n)
  pub at_mutex : sem_at t mutex ≡ some (quiet 1)
  pub at_last : sem_at t b ≡ some (quiet k)
  pub first_last : a ≢ b
  pub first_mutex : a ≢ mutex
  pub last_mutex : b ≢ mutex

module _ (t : Table) (a n mutex b k : ℕ) (c : Crossing t a n mutex b k) where
  pub mutex_at : sem_at (set t a (quiet (n - 1))) mutex ≡ some (quiet 1)
  mutex_at = sem_at-set_ne t a mutex (quiet (n - 1)) c.first_mutex ∙ c.at_mutex

  pub inside_at : sem_at (set (set t a (quiet (n - 1))) mutex (quiet 0)) mutex ≡ some (quiet 0)
  inside_at = sem_at-set (set t a (quiet (n - 1))) mutex (quiet 1) (quiet 0) mutex_at

  pub outside_at :
      sem_at (set (set (set t a (quiet (n - 1))) mutex (quiet 0)) mutex (quiet 1)) mutex
      ≡ some (quiet 1)
  outside_at =
      sem_at-set (set (set t a (quiet (n - 1))) mutex (quiet 0)) mutex (quiet 0) (quiet 1) inside_at

  skip_mutex :
      (j : ℕ)
      → mutex ≢ j
      → sem_at (set (set (set t a (quiet (n - 1))) mutex (quiet 0)) mutex (quiet 1)) j
        ≡ sem_at (set t a (quiet (n - 1))) j
  skip_mutex j ne =
      sem_at-set_ne (set (set t a (quiet (n - 1))) mutex (quiet 0)) mutex j (quiet 1) ne
      ∙ sem_at-set_ne (set t a (quiet (n - 1))) mutex j (quiet 0) ne

  pub last_at :
      sem_at (set (set (set t a (quiet (n - 1))) mutex (quiet 0)) mutex (quiet 1)) b
      ≡ some (quiet k)
  last_at =
      skip_mutex b (λ e. c.last_mutex (sym e))
      ∙ sem_at-set_ne t a b (quiet (n - 1)) c.first_last
      ∙ c.at_last

  -- After a crossing the first semaphore has a unit less, the last one more, and the mutex is free.
  pub crossed_at :
      (sem_at (crossed t a n mutex b k) a ≡ some (quiet (n - 1)))
      × (sem_at (crossed t a n mutex b k) mutex ≡ some (quiet 1))
      × (sem_at (crossed t a n mutex b k) b ≡ some (quiet (k + 1)))
  crossed_at =
      let before = set (set (set t a (quiet (n - 1))) mutex (quiet 0)) mutex (quiet 1) in
      (
        sem_at-set_ne before b a (quiet (k + 1)) (λ e. c.first_last (sym e))
            ∙ skip_mutex a (λ e. c.first_mutex (sym e))
            ∙ sem_at-set t a (quiet n) (quiet (n - 1)) c.at_first,
        sem_at-set_ne before b mutex (quiet (k + 1)) c.last_mutex ∙ outside_at,
        sem_at-set before b (quiet k) (quiet (k + 1)) last_at,
      )

-- The pipe after a byte was put into it, or taken from it.
abbrev pub with_byte : ℕ → Pipe → Pipe
with_byte b p = record p {
  buffer = set p.buffer p.write_idx b;
  write_idx = (p.write_idx + 1) % pipe_buffer_size;
  count = p.count + 1;
}

put_byte-run : (b : ℕ) (p : Pipe) → p.count < pipe_buffer_size → put_byte b p ≡ with_byte b p
unfolding put_byte
put_byte-run b p room = let more : ltb p.count pipe_buffer_size ≡ true = ground arith in rw more

contents-nil : (p : Pipe) → p.count ≡ 0 → contents p ≡ []
contents-nil p e = ap (λ n. ring pipe_buffer_size n p.read_idx p.buffer) e

append-is_nil : (xs ys : List ℕ) → xs ++ ys ≡ [] → (xs ≡ []) × (ys ≡ [])
append-is_nil [] ys e = (refl, e)
append-is_nil (x ∷ xs) ys e = absurd (cc)

-- The world after a crossing, with the pipe at index `i` changed.
abbrev pub moved : {S : Type 0} → World S → ℕ → Pipe → Table → World S
moved w i p t = record w { pipes = set w.pipes i p; sems = t }

module _ {S : Type 0} (processes : Processes S) (resume : World S → Option (World S)) where
  -- The semaphores of `writePipe` and of `readPipe`.
  write-Crossing :
      (i : ℕ) (w : World S) (p : Pipe)
      → Calm w i p
      → Crossing w.sems p.sem_writers (pipe_buffer_size - p.count) p.mutex p.sem_readers p.count
  write-Crossing i w p c = record {
    at_first = c.room_left;
    at_mutex = c.unlocked;
    at_last = c.data_left;
    first_last = λ e. c.readers_writers (sym e);
    first_mutex = c.writers_mutex;
    last_mutex = c.readers_mutex;
  }

  -- A byte is written, where there is room.
  write_round-put :
      (i b : ℕ) (w : World S) (p : Pipe)
      → Calm w i p
      → p.count < pipe_buffer_size
      → write_round processes resume i b w
        ≡ some (
          1,
          moved w i (with_byte b p) (
              crossed w.sems p.sem_writers
                (pipe_buffer_size - p.count)
                p.mutex
                p.sem_readers
                p.count),
        )
  unfolding write_round
  write_round-put i b w p c room =
      let n : ℕ = pipe_buffer_size - p.count in
      let cr = write-Crossing i w p c in
      let more : ltb p.count pipe_buffer_size ≡ true = ground arith in
      let w1 : World S = record w { sems = set w.sems p.sem_writers (quiet (n - 1)) } in
      let w2 : World S = record w1 { sems = set w1.sems p.mutex (quiet 0) } in
      let w3 : World S = set_pipe processes resume i (with_byte b p) w2 in
      let w4 : World S = record w3 { sems = set w3.sems p.mutex (quiet 1) } in
      rw (
        c.here,
        pipe_wait-quiet processes resume p.sem_writers n w c.room_left (omega arith),
        c.here,
        pipe_wait-quiet processes resume p.mutex 1 w1
            (mutex_at w.sems p.sem_writers n p.mutex p.sem_readers p.count cr) (omega arith),
        c.here,
        put_byte-run b p room,
        more,
        pipe_post-quiet processes resume p.mutex 0 w3
            (inside_at w.sems p.sem_writers n p.mutex p.sem_readers p.count cr) (omega arith),
        pipe_post-quiet processes resume p.sem_readers p.count w4
            (last_at w.sems p.sem_writers n p.mutex p.sem_readers p.count cr) (omega arith),
      )

  write-Calm :
      (i b : ℕ) (w : World S) (p : Pipe)
      → Calm w i p
      → p.count < pipe_buffer_size
      → Calm
          (moved w i (with_byte b p) (
            crossed w.sems p.sem_writers
              (pipe_buffer_size - p.count)
              p.mutex
              p.sem_readers
              p.count))
          i
          (with_byte b p)
  write-Calm i b w p c room =
      let (first, mid, final) =
        crossed_at w.sems p.sem_writers (pipe_buffer_size - p.count) p.mutex p.sem_readers p.count
          (write-Crossing i w p c) in
      let (v, order) = put_byte-contents b p c.is_ring room in
      record {
        here = get_elem?-set_self w.pipes i (with_byte b p) (lt-length w.pipes i p c.here);
        in_table = c.in_table;
        opened = c.opened;
        is_ring = rw (put_byte-run b p room) at v;
        data_left = final;
        room_left = first ∙ ap (λ n. some (quiet n)) (omega arith);
        unlocked = mid;
        readers_writers = c.readers_writers;
        readers_mutex = c.readers_mutex;
        writers_mutex = c.writers_mutex;
      }

  -- On a pipe whose semaphores agree with its buffer and have no waiting process, the loop of
  -- `writePipe` writes bytes for which there is room behind what the pipe holds, answers their
  -- number, and leaves semaphores that agree with the buffer again.
  pub write_bytes-appends :
      (i : ℕ) (bs : List ℕ) (w : World S) (p : Pipe)
      → Calm w i p
      → p.count + length bs ≤ pipe_buffer_size
      → (w' : World S) × (p' : Pipe) × (write_bytes processes resume i bs w ≡ some (length bs, w'))
        × Calm w' i p'
        × (contents p' ≡ contents p ++ bs)
  unfolding write_bytes
  write_bytes-appends i [] w p c room = (w, p, refl, c, sym (append-nil (contents p)))
  write_bytes-appends i (b ∷ bs) w p c room =
      let w1 : World S =
        moved w i (with_byte b p) (
          crossed w.sems p.sem_writers (pipe_buffer_size - p.count) p.mutex p.sem_readers
            p.count) in
      let (v, order) = put_byte-contents b p c.is_ring (omega arith) in
      let (w', p', run, c', after) =
        write_bytes-appends i bs w1 (with_byte b p) (write-Calm i b w p c (omega arith))
          (omega arith) in
      let count_all : 1 + length bs ≡ suc (length bs) = omega arith in
      (
        w',
        p',
        rw (write_round-put i b w p c (omega arith), run, write_bytes, count_all),
        c',
        after
            ∙ ap (λ xs. xs ++ bs) (rw (put_byte-run b p (omega arith)) at order)
            ∙ append_assoc (contents p) (b ∷ []) bs,
      )

  -- The semaphores of a reader.
  read-Crossing :
      (i : ℕ) (w : World S) (p : Pipe)
      → Calm w i p
      → Crossing w.sems p.sem_readers p.count p.mutex p.sem_writers (pipe_buffer_size - p.count)
  read-Crossing i w p c = record {
    at_first = c.data_left;
    at_mutex = c.unlocked;
    at_last = c.room_left;
    first_last = c.readers_writers;
    first_mutex = c.readers_mutex;
    last_mutex = c.writers_mutex;
  }

  -- The byte that a round of `readPipe` answers, the last one or not.
  abbrev pub got_byte : ℕ → Pipe → Got
  got_byte b p = if (p.writers == 0) && (p.count == 0) then last b else byte b

  -- A byte is read, where there is one.
  read_round-take :
      (i b : ℕ) (w : World S) (p : Pipe)
      → Calm w i p
      → 0 < p.count
      → take_byte p ≡ some (b, without_byte p)
      → read_round processes resume i w
        ≡ some (
          got_byte b (without_byte p),
          moved w i (without_byte p) (
              crossed w.sems p.sem_readers p.count p.mutex p.sem_writers
                (pipe_buffer_size - p.count)),
        )
  unfolding read_round took_byte
  read_round-take i b w p c some_left took =
      let k : ℕ = pipe_buffer_size - p.count in
      let cr = read-Crossing i w p c in
      let more : ltb 0 p.count ≡ true = ground arith in
      let filled : (p.count == 0) ≡ false = ground arith in
      let w1 : World S = record w { sems = set w.sems p.sem_readers (quiet (p.count - 1)) } in
      let w2 : World S = record w1 { sems = set w1.sems p.mutex (quiet 0) } in
      let w3 : World S = set_pipe processes resume i (without_byte p) w2 in
      let w4 : World S = record w3 { sems = set w3.sems p.mutex (quiet 1) } in
      rw (
        c.here,
        pipe_wait-quiet processes resume p.sem_readers p.count w c.data_left some_left,
        c.here,
        pipe_wait-quiet processes resume p.mutex 1 w1
            (mutex_at w.sems p.sem_readers p.count p.mutex p.sem_writers k cr) (omega arith),
        c.here,
        filled,
        more,
        took,
        pipe_post-quiet processes resume p.mutex 0 w3
            (inside_at w.sems p.sem_readers p.count p.mutex p.sem_writers k cr) (omega arith),
        pipe_post-quiet processes resume p.sem_writers k w4
            (last_at w.sems p.sem_readers p.count p.mutex p.sem_writers k cr) (omega arith),
      )

  read-Calm :
      (i : ℕ) (w : World S) (p : Pipe)
      → Calm w i p
      → 0 < p.count
      → IsRing (without_byte p)
      → Calm
          (moved w i (without_byte p) (
            crossed w.sems p.sem_readers p.count p.mutex p.sem_writers
              (pipe_buffer_size - p.count)))
          i
          (without_byte p)
  read-Calm i w p c some_left v =
      let (first, mid, final) =
        crossed_at w.sems p.sem_readers p.count p.mutex p.sem_writers (pipe_buffer_size - p.count)
          (read-Crossing i w p c) in
      let bound = c.is_ring.bounded in
      record {
        here = get_elem?-set_self w.pipes i (without_byte p) (lt-length w.pipes i p c.here);
        in_table = c.in_table;
        opened = c.opened;
        is_ring = v;
        data_left = first;
        room_left = final ∙ ap (λ n. some (quiet n)) (omega (arith, bound));
        unlocked = mid;
        readers_writers = c.readers_writers;
        readers_mutex = c.readers_mutex;
        writers_mutex = c.writers_mutex;
      }

  -- On a pipe whose semaphores agree with its buffer and have no waiting process, the loop of
  -- `readPipe` for at most as many bytes as the pipe holds answers the oldest bytes, as many as
  -- asked for, and leaves the others. A round for each byte is enough fuel.
  pub read_bytes-takes :
      (i fuel : ℕ) (bs rest : List ℕ) (w : World S) (p : Pipe)
      → Calm w i p
      → contents p ≡ bs ++ rest
      → length bs ≤ fuel
      → (w' : World S) × (p' : Pipe) × (read_bytes processes resume fuel i (length bs) w
          ≡ some (bs, w'))
        × Calm w' i p'
        × (contents p' ≡ rest)
  unfolding read_bytes
  read_bytes-takes i fuel [] rest w p c order enough = (w, p, refl, c, order)
  read_bytes-takes i zero (b ∷ bs) rest w p c order enough = absurd (omega arith)
  read_bytes-takes i (suc fuel) (b ∷ bs) rest w p c order enough =
      let (some_left, took, v, left) = take_byte-contents p b (bs ++ rest) c.is_ring order in
      let w1 : World S =
        moved w i (without_byte p) (
          crossed w.sems p.sem_readers p.count p.mutex p.sem_writers
            (pipe_buffer_size - p.count)) in
      let c1 = read-Calm i w p c some_left v in
      let round = read_round-take i b w p c some_left took in
      elim (Bool-cases ((p.writers == 0) && (p.count - 1 == 0))) [
        | inl final ↦
            let empty = contents-nil (without_byte p) (ground (arith, final)) in
            let (no_more, no_rest) = append-is_nil bs rest (sym left ∙ empty) in
            (w1, without_byte p, rw (round, final, no_more), c1, empty ∙ sym no_rest)
        | inr more ↦
            let (w', p', run, c', after) =
              read_bytes-takes i fuel bs rest w1 (without_byte p) c1 left (omega arith) in
            (w', p', rw (round, more, run), c', after)
      ]
