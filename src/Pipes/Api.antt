-- ===== src/Pipes/Api.antt =====
-- `createPipe`, `writePipe` and `readPipe` of pipes.c together.
use tp2_so_2c.Prelude.{
  ℕ, ◌+◌, ◌-◌, ◌≤◌, ◌<◌, ◌≡◌, refl, sym, ◌∙◌, ◌||◌, ◌==◌, true, false, Option, some, List, [], ◌∷◌,
  ◌++◌, ltb, arith, length, length-append,
}
use mathlib.Core.List.{append-nil}
use tp2_so_2c.Semaphores.{Processes}
use tp2_so_2c.Pipes.{
  Pipe, World, max_pipes, pipe_buffer_size, write_bytes, write_at, write_pipe, read_at, read_bytes,
  read_pipe, validate_pipe_id,
}
use tp2_so_2c.Pipes.Ring.{contents}
use tp2_so_2c.Pipes.Calm.{Calm}
use tp2_so_2c.Pipes.Transfer.{write_bytes-appends, read_bytes-takes}

pub valid_id :
    {S : Type 0} (w : World S) (i : ℕ) (p : Pipe)
    → Calm w i p
    → validate_pipe_id w.pipes (i + 3) ≡ some i
unfolding validate_pipe_id
valid_id w i p c =
    let inside = c.in_table in
    let small : (ltb (i + 3) 3 || ltb (max_pipes + 2) (i + 3)) ≡ false = ground arith in
    let index : i + 3 - 3 ≡ i = omega arith in rw (small, index, c.here, c.opened, index)

module _ {S : Type 0} (processes : Processes S) (resume : World S → Option (World S)) where
  pub write_pipe-run :
      (i b n : ℕ) (bs : List ℕ) (w w' : World S)
      → validate_pipe_id w.pipes (i + 3) ≡ some i
      → write_bytes processes resume i (b ∷ bs) w ≡ some (n, w')
      → write_pipe processes resume (i + 3) (some (b ∷ bs)) w ≡ some (some n, w')
  unfolding write_pipe write_at
  write_pipe-run i b n bs w w' valid wrote = rw (valid, wrote)

  pub read_pipe-run :
      (i fuel size : ℕ) (bs : List ℕ) (w w' : World S)
      → validate_pipe_id w.pipes (i + 3) ≡ some i
      → 0 < length bs
      → size ≡ length bs
      → read_bytes processes resume fuel i (length bs) w ≡ some (bs, w')
      → read_pipe processes resume fuel (i + 3) true size w ≡ some (some (length bs), bs, w')
  unfolding read_pipe read_at
  read_pipe-run i fuel size bs w w' valid several e read =
      let ne : (length bs == 0) ≡ false = ground arith in rw (valid, e, ne, read, ne)

  -- Bytes written to an open pipe that has room for them, whose semaphores agree with its buffer
  -- and have no waiting process, come out of it behind those that it held, in their order, and the
  -- pipe is then empty: neither call waits, and both answer the number of bytes. A round for each
  -- byte is enough fuel.
  pub write_pipe-read_pipe :
      (i fuel b : ℕ) (bs : List ℕ) (w : World S) (p : Pipe)
      → Calm w i p
      → p.count + length (b ∷ bs) ≤ pipe_buffer_size
      → length (contents p ++ (b ∷ bs)) ≤ fuel
      → (w' w'' : World S) × (p'' : Pipe) × (write_pipe processes resume (i + 3) (some (b ∷ bs)) w
          ≡ some (some (length (b ∷ bs)), w'))
        × (read_pipe processes resume fuel (i + 3) true (length (contents p ++ (b ∷ bs))) w'
            ≡ some (some (length (contents p ++ (b ∷ bs))), contents p ++ (b ∷ bs), w''))
        × Calm w'' i p''
        × (contents p'' ≡ [])
  write_pipe-read_pipe i fuel b bs w p c room enough =
      let (w', p', wrote, c', held) = write_bytes-appends processes resume i (b ∷ bs) w p c room in
      let all = contents p ++ (b ∷ bs) in
      let (w'', p'', read, c'', rest) =
        read_bytes-takes processes resume i fuel all [] w' p' c' (held ∙ sym (append-nil all))
          enough in
      let several : 0 < length all = omega (arith, length-append (contents p) (b ∷ bs)) in
      (
        w',
        w'',
        p'',
        write_pipe-run i b (length (b ∷ bs)) bs w w' (valid_id w i p c) wrote,
        read_pipe-run i fuel (length all) all w' w'' (valid_id w' i p' c') several refl read,
        c'',
        rest,
      )
