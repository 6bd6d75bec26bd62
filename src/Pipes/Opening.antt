-- ===== src/Pipes/Opening.antt =====
-- `createPipe` of pipes.c: what it opens, and when it fails.
use tp2_so_2c.Prelude.{
  ℕ, ◌+◌, ◌≤◌, ◌<◌, ◌≡◌, ◌≢◌, refl, ap, ◌∙◌, Bool, Bool-cases, Option-cases, inl, inr, true, false,
  none, some, List, [], ◌∷◌, ltb, set, arith, length, get_elem?-set_self,
}
use mathlib.Core.Option.{some-injective}
use tp2_so_2c.Semaphores.{Semaphore, Table, sem_at, sem_create, create_in, num_sems}
use tp2_so_2c.Semaphores.Balance.{sem_at-set}
use tp2_so_2c.Pipes.{
  Pipe, World, max_pipes, pipe_buffer_size, create_at, create_pipe, create_sems, find_closed,
  opened_pipe,
}
use tp2_so_2c.Pipes.Ring.{contents, opened-IsRing}
use tp2_so_2c.Pipes.Calm.{quiet, Calm, sem_at-set_ne}

sem_create-new :
    (id value : ℕ) (t : Table) (m : Semaphore)
    → sem_at t id ≡ some m
    → m.active ≡ false
    → sem_create id value true t ≡ (true, set t id (quiet value))
unfolding sem_create
sem_create-new id value t m at new = rw (at, create_in, new)

sem_create-out :
    (id value : ℕ) (queue : Bool) (t : Table)
    → num_sems ≤ id
    → (sem_create id value queue t).0 ≡ false
unfolding sem_create sem_at
sem_create-out id value queue t out =
    let large : ltb id num_sems ≡ false = ground arith in rw (large, create_in)

create_sems-out :
    (n : ℕ) (memory : Bool) (t : Table) → num_sems ≤ n + 2 → (create_sems n memory t).0 ≡ false
unfolding create_sems
create_sems-out n memory t out =
    let t1 = (sem_create n 0 memory t).1 in
    let t2 = (sem_create (n + 1) pipe_buffer_size memory t1).1 in
    elim (Bool-cases (sem_create n 0 memory t).0) [
      | inr refused ↦ rw refused
      | inl one ↦ elim (Bool-cases (sem_create (n + 1) pipe_buffer_size memory t1).0) [
        | inr refused ↦ rw (one, refused)
        | inl two ↦ rw (one, two) (sem_create-out (n + 2) 1 memory t2 out)
      ]
    ]

find_closed-bound :
    (ps : List Pipe) (j i : ℕ) → find_closed ps j ≡ some i → (j ≤ i) × (i < j + length ps)
unfolding find_closed
find_closed-bound [] j i h = absurd (cc)
find_closed-bound (p ∷ ps) j i h = elim (Bool-cases p.is_open) [
  | inl is_open ↦
      let (low, high) = find_closed-bound ps (j + 1) i (rw is_open at h) in
      (omega arith, omega arith)
  | inr closed ↦ let e : j ≡ i = some-injective j i (rw closed at h) in (omega arith, omega arith)
]

-- Once the next semaphore id is 126 or above, `createPipe` answers -1, whatever the pipes and the
-- semaphores are.
pub create_pipe-exhausted :
    {S : Type 0} (w : World S) → 126 ≤ w.next_sem_id → (create_pipe w).0 ≡ none
unfolding create_pipe create_at
create_pipe-exhausted w out = elim (Option-cases (find_closed w.pipes 0)) [
  | inl full ↦ rw full
  | inr (i, free) ↦ rw (free, create_sems-out w.next_sem_id w.memory w.sems (omega arith))
]

-- A semaphore that can be created.
abbrev pub Unused : Table → ℕ → Type 0
Unused t id = (m : Semaphore) × (sem_at t id ≡ some m) × (m.active ≡ false)

Unused-later : (t : Table) (i j : ℕ) (m' : Semaphore) → i ≢ j → Unused t j → Unused (set t i m') j
Unused-later t i j m' ne (m, at, new) = (m, sem_at-set_ne t i j m' ne ∙ at, new)

create_sems-run :
    (n : ℕ) (t : Table)
    → Unused t n
    → Unused t (n + 1)
    → Unused t (n + 2)
    → create_sems n true t
      ≡ (true, set (set (set t n (quiet 0)) (n + 1) (quiet pipe_buffer_size)) (n + 2) (quiet 1))
unfolding create_sems
create_sems-run n t (m, at, new) u1 u2 =
    let t1 = set t n (quiet 0) in
    let (m1, at1, new1) = Unused-later t n (n + 1) (quiet 0) (omega arith) u1 in
    let u2' = Unused-later t n (n + 2) (quiet 0) (omega arith) u2 in
    let (m2, at2, new2) =
      Unused-later t1 (n + 1) (n + 2) (quiet pipe_buffer_size) (omega arith) u2' in
    let t2 = set t1 (n + 1) (quiet pipe_buffer_size) in
    rw (
      sem_create-new n 0 t m at new,
      sem_create-new (n + 1) pipe_buffer_size t1 m1 at1 new1,
      sem_create-new (n + 2) 1 t2 m2 at2 new2,
    )

crossed_ids :
    (n : ℕ) (t : Table)
    → Unused t n
    → Unused t (n + 1)
    → Unused t (n + 2)
    → (t' : Table) × (create_sems n true t ≡ (true, t'))
      × (sem_at t' n ≡ some (quiet 0))
      × (sem_at t' (n + 1) ≡ some (quiet pipe_buffer_size))
      × (sem_at t' (n + 2) ≡ some (quiet 1))
crossed_ids n t u0 u1 u2 =
    let (m, at, new) = u0 in
    let t1 = set t n (quiet 0) in
    let (m1, at1, new1) = Unused-later t n (n + 1) (quiet 0) (omega arith) u1 in
    let u2' = Unused-later t n (n + 2) (quiet 0) (omega arith) u2 in
    let (m2, at2, new2) =
      Unused-later t1 (n + 1) (n + 2) (quiet pipe_buffer_size) (omega arith) u2' in
    let t2 = set t1 (n + 1) (quiet pipe_buffer_size) in
    (
      set t2 (n + 2) (quiet 1),
      create_sems-run n t u0 u1 u2,
      sem_at-set_ne t2 (n + 2) n (quiet 1) (omega arith)
          ∙ sem_at-set_ne t1 (n + 1) n (quiet pipe_buffer_size) (omega arith)
          ∙ sem_at-set t n m (quiet 0) at,
      sem_at-set_ne t2 (n + 2) (n + 1) (quiet 1) (omega arith)
          ∙ sem_at-set t1 (n + 1) m1 (quiet pipe_buffer_size) at1,
      sem_at-set t2 (n + 2) m2 (quiet 1) at2,
    )

-- Where a pipe is closed, memory is granted and its three semaphores are unused, `createPipe` opens
-- the first closed pipe: it is empty, no process waits at its semaphores, and they agree with its
-- buffer. The answer is its index and 3.
pub create_pipe-Calm :
    {S : Type 0} (w : World S) (i : ℕ)
    → find_closed w.pipes 0 ≡ some i
    → length w.pipes ≡ max_pipes
    → w.memory ≡ true
    → Unused w.sems w.next_sem_id
    → Unused w.sems (w.next_sem_id + 1)
    → Unused w.sems (w.next_sem_id + 2)
    → (w' : World S) × (p : Pipe) × (create_pipe w ≡ (some (i + 3), w'))
      × Calm w' i p
      × (contents p ≡ [])
unfolding create_pipe create_at
create_pipe-Calm w i free sized granted u0 u1 u2 =
    let n = w.next_sem_id in
    let (t, made, readers, writers, mutex) = crossed_ids n w.sems u0 u1 u2 in
    let (low, high) = find_closed-bound w.pipes 0 i free in
    (
      record w { pipes = set w.pipes i (opened_pipe n); next_sem_id = n + 3; sems = t },
      opened_pipe n,
      rw (free, granted, made),
      record {
        here = get_elem?-set_self w.pipes i (opened_pipe n) (omega (arith, sized));
        in_table = omega (arith, sized);
        opened = refl;
        is_ring = opened-IsRing n;
        data_left = readers;
        room_left = writers ∙ ap (λ k. some (quiet k)) (omega arith);
        unlocked = mutex;
        readers_writers = λ e. omega arith;
        readers_mutex = λ e. omega arith;
        writers_mutex = λ e. omega arith;
      },
      refl,
    )
