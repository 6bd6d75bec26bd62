-- ===== src/SysCalls/Tests.antt =====
-- syscalls.c on a small machine: tests, and the theorems at it.
use tp2_so_2c.Prelude.{
  arith, ◌≡◌, refl, ℕ, zero, suc, ◌+◌, ◌*◌, ◌/◌, ◌%◌, ◌≤◌, ◌<◌, ◌^◌, true, none, some, List, [],
  ◌∷◌, ◌++◌, ◌==◌, if◌then◌else◌, get_elem?,
}
use tp2_so_2c.Effects.{M}
use tp2_so_2c.Pipes
use tp2_so_2c.Pipes.{Pipe, World, opened_pipe}
use tp2_so_2c.Pipes.Ring.{contents}
use tp2_so_2c.Pipes.Calm.{Calm}
use tp2_so_2c.Pipes.Sample.{alone, never, one_pipe, one_pipe-Calm}
use tp2_so_2c.SysCalls.{
  Ops, Args, Color, Time, error_color, stdin, stdout, stderr, minus_one, syscalls, dispatch,
  syscall_write, syscall_sleep,
}
use tp2_so_2c.SysCalls.Sample.{idle_ops}
use tp2_so_2c.SysCalls.Clock.{Sleeper, after, now, sleep-wakes, sleep-never}
use tp2_so_2c.SysCalls.Files.{
  write_all, read_all, Part, Piped, wrote, has_read, write-read_stream, Screen, Shows,
  syscall_write-shows, dispatch_total, dispatch-sem_guard,
}

-- A machine with a pipe, a screen and a clock; `yield` lets a second pass.
record Machine : Type 0 where
  clock : ℕ
  pipes : World ℕ
  shown : List (ℕ × Color)
  color : Color

-- The descriptors: 0 and 1 are the pipe 3, 2 is the standard error, others are closed.
abbrev fd_of : ℕ → ℕ
fd_of d =
    if d == stderr then stderr else if d == stdin then 3 else if d == stdout then 3 else 9 * 2 ^ 12

abbrev time_at : ℕ → Time
time_at n = record { h = n / 3600 % 24; m = n / 60 % 60; s = n % 60 }

abbrev part : Part Machine ℕ
part = record { world = λ s. s.pipes; put = λ w s. record s { pipes = w }; world-put = λ w s. refl }

abbrev machine : Ops Machine
machine = record idle_ops {
  get_fd = λ d s. some (fd_of d, s);
  yield_cpu = λ s. some (tt, record s { clock = s.clock + 1 });
  read_pipe = λ id n s. has_read part s (Pipes.read_pipe alone never 1 id true n s.pipes);
  write_pipe = λ id bs s. wrote part s (Pipes.write_pipe alone never id (some bs) s.pipes);
  get_font_color = λ s. some (s.color, s);
  set_font_color = λ c s. some (tt, record s { color = c });
  print_char = λ c s. some (tt, record s { shown = s.shown ++ ((c, s.color) ∷ []) });
  get_time = λ s. some (time_at s.clock, s);
}

abbrev white : Color
white = record { b = 255; g = 255; r = 255 }

-- Two seconds before midnight.
abbrev start : Machine
start = record { clock = 86398; pipes = one_pipe; shown = []; color = white }

sleeper : Sleeper machine
sleeper = record {
  time = λ s. time_at s.clock;
  next = λ s. record s { clock = s.clock + 1 };
  valid = λ s. omega arith;
  reading = λ s. refl;
  yielding = λ s. refl;
}

-- The clock is `j` seconds on behind `j` calls of `yield`.
in_step :
    (j : ℕ)
    → j ≤ 3
    → now machine sleeper (after machine sleeper j start) ≡ (now machine sleeper start + j) % 86400
unfolding sleeper
in_step zero h = refl
in_step (suc zero) h = refl
in_step (suc (suc zero)) h = refl
in_step (suc (suc (suc zero))) h = refl
in_step (suc (suc (suc (suc j)))) h = absurd (omega arith)

sleep-wakes_example : syscall_sleep machine 9 3 start ≡ some (tt, after machine sleeper 3 start)
unfolding sleeper
sleep-wakes_example =
    sleep-wakes machine sleeper 9 3 3 (λ n. n) start (omega arith) (omega arith) in_step
      (λ j lt. lt) (omega arith) (λ j le. omega arith)

sleep-never_example : syscall_sleep machine 1000 86400 start ≡ none
sleep-never_example = sleep-never machine sleeper 1000 86400 start (omega arith)

piped : Piped machine part alone never 1 0 stdout stdin
piped = record {
  write_law = λ id bs s. refl;
  read_law = λ id n s. refl;
  out_fd = λ s. refl;
  in_fd = λ s. refl;
}

write-read_stream_example :
    (s' s'' : Machine) × (p'' : Pipe) × (write_all machine stdout (7 ∷ 255 ∷ 8 ∷ []) start
      ≡ some (tt, s'))
    × (read_all machine stdin 3 s' ≡ some (7 ∷ 255 ∷ 8 ∷ [], s''))
    × Calm s''.pipes 0 p''
    × (contents p'' ≡ [])
write-read_stream_example =
    write-read_stream machine part alone never 1 0 stdout stdin piped (7 ∷ 255 ∷ 8 ∷ []) start
      (opened_pipe 0) (omega arith) one_pipe-Calm refl (omega arith)

abbrev screen : Screen Machine (List (ℕ × Color))
screen = record {
  shows = λ s. s.shown;
  color = λ s. s.color;
  printed = λ c k t. t ++ ((c, k) ∷ []);
}

video : Shows machine screen
video = record {
  get_law = λ s. refl;
  set_law = λ c s. (record s { color = c }, refl, refl, refl);
  print_law = λ c s. (record s { shown = s.shown ++ ((c, s.color) ∷ []) }, refl, refl, refl);
}

syscall_write-shows_example :
    (s' : Machine) × (syscall_write machine stderr 65 start ≡ some (tt, s'))
    × (s'.shown ≡ (65, error_color) ∷ [])
    × (s'.color ≡ white)
syscall_write-shows_example =
    syscall_write-shows machine screen video stderr stderr 65 start refl refl

abbrev regs : Args
regs = record { a0 = 128; a1 = 1; a2 = 0; a3 = 0; a4 = 0; a5 = 0 }

dispatch_total_example :
    (36 ≤ 22 → dispatch machine 9 22 regs start ≡ some (minus_one, start))
    × (22 < 36
        → (f : Args → M Machine ℕ) × (get_elem? (syscalls machine 9) 22 ≡ some f)
          × (dispatch machine 9 22 regs start ≡ f regs start))
dispatch_total_example = dispatch_total machine 9 22 regs start

dispatch-sem_guard_example : dispatch machine 9 29 regs start ≡ some (minus_one, start)
dispatch-sem_guard_example =
    dispatch-sem_guard machine 9 29 regs start (omega arith) (omega arith) refl
