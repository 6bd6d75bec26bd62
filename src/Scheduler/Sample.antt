-- ===== src/Scheduler/Sample.antt =====
-- Three processes of scheduler.c, for tests.
use mathlib.Core.Path.{subst}
use tp2_so_2c.Prelude.{
  ℕ, sym, ◌+◌, ◌≡◌, refl, true, false, Option, none, some, [], ◌∷◌, arith, ◌==◌, if◌then◌else◌,
  ℕ_discrete,
}
use tp2_so_2c.Scheduler.State.{Ptr, Status, ready, running, blocked, Process, Kernel, left}
use tp2_so_2c.Scheduler.Wellformed.{Live, IsWellformed, listed}

abbrev pub process : ℕ → Status → Process
process pid st = record {
  pid = pid;
  priority = 3;
  status = st;
  ground = 1;
  stack_base = 9000;
  stack_pos = 8000 + pid;
  rip = 100;
  stdin = 0;
  stdout = 1;
  stderr = 2;
  waiting_list = [];
  freed = false;
}

abbrev pub processes : Ptr → Option Process
processes a =
    if a == 10
    then some (process 0 ready)
    else if a == 20
    then some (process 1 running)
    else if a == 30
    then some (process 2 blocked)
    else none

-- The idle process at 10 is ready, the shell at 20 runs, and the process at 30 is blocked.
abbrev pub three : Kernel
three = record {
  store_of = processes;
  process_list = 10 ∷ 20 ∷ 30 ∷ [];
  ready_process = 10 ∷ [];
  blocked_process = 30 ∷ [];
  current_pid = 1;
  current_process = 20;
  process_qty = 3;
  quantums = left 1;
  room = [];
}

pub idle-Live : Live processes 10 (process 0 ready)
idle-Live = record { ne_null = ground arith; stored = refl; not_freed = refl; not_ended = λ e. cc }

pub shell-Live : Live processes 20 (process 1 running)
shell-Live = record { ne_null = ground arith; stored = refl; not_freed = refl; not_ended = λ e. cc }

pub blocked-Live : Live processes 30 (process 2 blocked)
blocked-Live = record {
  ne_null = ground arith;
  stored = refl;
  not_freed = refl;
  not_ended = λ e. cc;
}

pub three-Live : (p : Ptr) → listed three p ≡ true → (c : Process) × Live processes p c
three-Live p m = elim (ℕ_discrete p 10) [
  | yes e ↦ (process 0 ready, subst (λ x. Live processes x (process 0 ready)) (sym e) idle-Live)
  | no n10 ↦ elim (ℕ_discrete p 20) [
    | yes e ↦
        (process 1 running, subst (λ x. Live processes x (process 1 running)) (sym e) shell-Live)
    | no n20 ↦
        let e : p ≡ 30 = ground arith in
        (process 2 blocked, subst (λ x. Live processes x (process 2 blocked)) (sym e) blocked-Live)
  ]
]

pub three-IsWellformed : IsWellformed three
three-IsWellformed = record {
  live = three-Live;
  once = λ p. ground arith;
  ready_once = λ p. ground arith;
  blocked_once = λ p. ground arith;
  running_current = λ p h. ground arith;
  counted = refl;
}
