-- ===== src/Userland/Tests.antt =====
-- The programs and the shell on a machine of two streams: tests, and the theorems at it.
use tp2_so_2c.Prelude.{
  arith, ◌≡◌, ◌≢◌, refl, sym, ℕ, ◌+◌, true, none, some, List, [], ◌∷◌, ◌++◌, ◌==◌, if◌then◌else◌,
  codes,
}
use mathlib.Core.List.{append-nil}
use tp2_so_2c.Effects.{M, pure, done, ◌>>=◌}
use tp2_so_2c.Text.{Chars}
use tp2_so_2c.Text.Digits.{numeral}
use tp2_so_2c.Userland.{System, Program, stdin, stdout, stderr}
use tp2_so_2c.Userland.Console.{Streams, Runs, OnStreams, glyph}
use tp2_so_2c.Userland.Stdio.{printf, text, number}
use tp2_so_2c.Userland.Stdio.Printing.{char, num, str, printf-prints}
use tp2_so_2c.Userland.Programs.{is_vowel, run_wc, run_filter}
use tp2_so_2c.Userland.Programs.Streams.{run_wc-counts, run_filter-consonants}
use tp2_so_2c.Userland.Shell.{split_args, separate_cmds}
use tp2_so_2c.Userland.Shell.Words.{separate-split}
use tp2_so_2c.Userland.Shell.Running.{run_line, after_launch}
use tp2_so_2c.Userland.Shell.Commands
use tp2_so_2c.Userland.Shell.Commands.{
  array, runs_in_background, run_line-foreground, run_line-background,
}

-- A machine with the two streams, the number of processes, and the pids that were waited for.
record Machine : Type 0 where
  input : Chars
  output : Chars
  processes : ℕ
  waited : List ℕ

abbrev take_byte : Chars → ℕ × Chars
take_byte [] = (0, [])
take_byte (c ∷ cs) = (c, cs)

abbrev answered : M Machine ℕ
answered = pure 0

-- Writes to the standard error are not shown.
abbrev machine : System Machine
machine = record {
  read = λ fd s. some ((take_byte s.input).0, record s { input = (take_byte s.input).1 });
  write = λ fd c s.
      some (tt, record s { output = if fd == stdout then s.output ++ (c ∷ []) else s.output });
  get_seconds = answered;
  get_minutes = answered;
  get_hours = answered;
  get_register_array = pure [];
  get_screen_resolution = answered;
  get_ticks = answered;
  get_memory = λ p. pure [];
  kaboom = done;
  sem_open = λ id. answered;
  clear_screen = done;
  set_font_size = λ n. done;
  get_font_color = pure (record { b = 0; g = 0; r = 0 });
  set_font_color = λ r g b. done;
  mm_alloc = λ n. pure 64;
  mm_free = λ p. done;
  mm_info = pure (record { size = 0; used = 0; free = 0 });
  create_process = λ program argv argc priority ground fds s.
      some (s.processes + 2, record s { processes = s.processes + 1 });
  get_pid = pure 1;
  process_info = pure none;
  kill_process = λ pid. answered;
  change_priority = λ pid priority. answered;
  block_process = λ pid. answered;
  set_ready_process = λ pid. answered;
  yield_cpu = done;
  wait_process = λ pid s. some (0, record s { waited = pid ∷ s.waited });
  exit = done;
  sleep = λ n. done;
  sem_create = λ id n. answered;
  sem_wait = λ id. answered;
  sem_post = λ id. answered;
  sem_destroy = λ id. answered;
  pipe_create = pure 3;
  pipe_read = λ id n. pure (0, []);
  pipe_write = λ id bs. answered;
  pipe_close = λ id. answered;
}

abbrev streams : Streams Machine
streams = record { input = λ s. s.input; output = λ s. s.output }

abbrev next_byte : Chars → Chars
next_byte l = (take_byte l).1

on_streams : OnStreams machine streams
on_streams = record {
  read_law = λ c cs s e. (
    record s { input = next_byte s.input },
    (λ i. some ((take_byte (e i)).0, record s { input = next_byte s.input })),
    (λ i. next_byte (e i)),
    sym (append-nil s.output),
  );
  write_law = λ c i s e. (record s { output = s.output ++ (c ∷ []) }, refl, e, refl);
  yield_law = λ i s e. (s, refl, e, sym (append-nil s.output));
  exit_law = λ i s e. (s, refl, e, sym (append-nil s.output));
}

-- The machine with a screen for its output.
abbrev terminal : System Machine
terminal = record machine {
  write = λ fd c s.
      some (tt, record s { output = if fd == stdout then s.output ++ glyph c else s.output });
}

abbrev start : Chars → Machine
start i = record { input = i; output = []; processes = 0; waited = [] }

printf-prints_example :
    Runs streams
      (printf machine (codes "%s=%d") (text (codes "n") ∷ number 42 ∷ []))
      tt
      []
      []
      (codes "n=42")
unfolding numeral
printf-prints_example =
    printf-prints machine streams on_streams (str (codes "n") ∷ char 61 ∷ num 42 ∷ []) []
      ((refl, tt), ((refl, refl), (omega arith, tt)))

run_wc-counts_example :
    Runs streams
      (run_wc machine 6)
      tt
      (codes "a\nb" ++ (255 ∷ codes "c"))
      (codes "c")
      (codes "a\nbLa cantidad de lineas es: 2\n")
unfolding numeral
run_wc-counts_example =
    run_wc-counts machine streams on_streams 6 (codes "a\nb") (codes "c") (refl, (refl, (refl, tt)))
      (omega arith) (omega arith)

run_filter-consonants_example :
    Runs streams
      (run_filter machine 6)
      tt
      (codes "hola" ++ (255 ∷ codes "c"))
      (codes "c")
      (codes "hl")
unfolding is_vowel
run_filter-consonants_example =
    run_filter-consonants machine streams on_streams 6 (codes "hola") (codes "c")
      (refl, (refl, (refl, (refl, tt)))) (omega arith)

-- A line with three words, the second of which is a bar.
abbrev laid : List (Chars × ℕ)
laid = (codes "cat", 0) ∷ (codes "|", 1) ∷ (codes "wc", 2) ∷ []

bar_cat : codes "|" ≢ codes "cat"
bar_cat e = ground arith

bar_two : codes "|" ≢ codes "2"
bar_two e = ground arith

bar_amp : codes "|" ≢ codes "&"
bar_amp e = ground arith

separate-split_example :
    separate_cmds ((split_args (codes " cat |  wc  ")).1)
    ≡ (some (codes "cat") ∷ none ∷ [], some (codes "wc") ∷ none ∷ [])
separate-split_example =
    separate-split 1 laid (codes "cat" ∷ []) (codes "wc" ∷ [])
      ((refl, (refl, (refl, tt))), ((refl, tt), ((refl, (refl, tt)), tt))) refl
      (omega arith, bar_cat, tt) (omega arith)

-- A line that starts a program with one argument.
abbrev plain : List (Chars × ℕ)
plain = (codes "loop", 0) ∷ (codes "2", 1) ∷ []

run_line-foreground_example :
    run_line machine (λ t. done) [] 1 2 (codes "loop 2 ") (start [])
    ≡ some (tt, record (start []) { processes = 1; waited = 2 ∷ [] })
unfolding after_launch
run_line-foreground_example =
    run_line-foreground machine (λ t. done) [] 1 2 0 Commands.loop (codes "2" ∷ []) plain (start [])
      ((refl, (refl, (refl, (refl, tt)))), ((refl, tt), tt)) refl (omega arith)
      (omega arith, bar_two, tt) refl

abbrev behind_line : List (Chars × ℕ)
behind_line = (codes "cat", 0) ∷ (codes "&", 0) ∷ []

run_line-background_example :
    run_line machine (λ t. done) [] 1 2 (codes "cat &") (start [])
    ≡ (machine.create_process Program.cat (array Commands.cat []) 1 1 true (stdin, stdout, stderr)
          >>= λ pid. runs_in_background machine (codes "cat"))
        (start [])
run_line-background_example =
    run_line-background machine (λ t. done) [] 1 2 0 Commands.cat [] (codes "&") behind_line
      (start []) ((refl, (refl, (refl, tt))), ((refl, tt), tt)) refl (omega arith)
      (omega arith, bar_amp, tt) refl
