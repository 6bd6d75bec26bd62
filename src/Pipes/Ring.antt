-- ===== src/Pipes/Ring.antt =====
-- The buffer of a pipe of pipes.c is a queue of bytes.
use tp2_so_2c.Prelude.{
  ℕ, ◌+◌, ◌-◌, ◌≤◌, ◌<◌, ◌%◌, ◌≡◌, ◌∙◌, true, some, List, [], ◌∷◌, ◌++◌, ltb, arith, length,
  length-set, length-replicate,
}
use tp2_so_2c.Ring.{ring, IsCapacity, ring-put, ring-take}
use tp2_so_2c.Pipes.{Pipe, pipe_buffer_size, put_byte, take_byte, opened_pipe}

-- The bytes in a pipe, the oldest first.
abbrev pub contents : Pipe → List ℕ
contents p = ring pipe_buffer_size p.count p.read_idx p.buffer

pub record IsRing (p : Pipe) : Type 0 where
  pub sized : length p.buffer ≡ pipe_buffer_size
  pub reads_inside : p.read_idx < pipe_buffer_size
  pub bounded : p.count ≤ pipe_buffer_size
  pub writes_behind : p.write_idx ≡ (p.read_idx + p.count) % pipe_buffer_size

capacity : IsCapacity pipe_buffer_size
capacity = record {
  apart = λ i k n lt room e. omega arith;
  step = λ i j e. omega arith;
  small = λ i lt. omega arith;
  inside = λ i. omega arith;
  again = λ i. omega arith;
}

-- A byte put into a pipe that is not full goes behind the others.
pub put_byte-contents :
    (b : ℕ) (p : Pipe)
    → IsRing p
    → p.count < pipe_buffer_size
    → IsRing (put_byte b p) × (contents (put_byte b p) ≡ contents p ++ (b ∷ []))
unfolding put_byte
put_byte-contents b p v room =
    let more : ltb p.count pipe_buffer_size ≡ true = ground arith in
    rw more (
      record {
        sized = length-set p.buffer p.write_idx b ∙ v.sized;
        reads_inside = v.reads_inside;
        bounded = omega arith;
        writes_behind = omega (arith, v.writes_behind);
      },
      ring-put pipe_buffer_size capacity p.count p.read_idx p.write_idx b p.buffer v.writes_behind
          room v.sized,
    )

-- The pipe without its oldest byte.
abbrev pub without_byte : Pipe → Pipe
without_byte p = record p { read_idx = (p.read_idx + 1) % pipe_buffer_size; count = p.count - 1 }

-- The byte taken from a pipe is the oldest.
pub take_byte-contents :
    (p : Pipe) (b : ℕ) (bs : List ℕ)
    → IsRing p
    → contents p ≡ b ∷ bs
    → (0 < p.count)
      × (take_byte p ≡ some (b, without_byte p))
      × IsRing (without_byte p)
      × (contents (without_byte p) ≡ bs)
unfolding take_byte
take_byte-contents p b bs v order =
    let (some_left, at, rest) =
      ring-take pipe_buffer_size capacity p.count p.read_idx b p.buffer bs v.reads_inside v.sized
        order in
    let more : ltb 0 p.count ≡ true = ground arith in
    (
      some_left,
      rw (more, at),
      record {
        sized = v.sized;
        reads_inside = omega arith;
        bounded = omega (arith, v.bounded);
        writes_behind = v.writes_behind ∙ omega (arith, some_left);
      },
      rest,
    )

-- A pipe that was just created is empty.
pub opened-IsRing : (n : ℕ) → IsRing (opened_pipe n)
opened-IsRing n = record {
  sized = length-replicate {A = ℕ} pipe_buffer_size 0;
  reads_inside = omega arith;
  bounded = omega arith;
  writes_behind = omega arith;
}
