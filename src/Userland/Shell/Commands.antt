-- ===== src/Userland/Shell/Commands.antt =====
-- Userland/SampleCodeModule/shell.c: what a line without a bar makes the shell do.
use tp2_so_2c.Prelude.{
  arith, ◌≡◌, ◌≢◌, refl, sym, ap, ◌∙◌, ℕ, zero, suc, ◌+◌, ◌-◌, ◌<◌, ◌≤◌, Bool, true, false, Option,
  some, none, List, [], ◌∷◌, ◌++◌, ltb, leb, ◌^◌, if◌then◌else◌, ◌==◌, length, length-append, map,
  replicate, set, codes,
}
use mathlib.Core.List.{append-nil}
use tp2_so_2c.Effects.{M, pure, ◌>>=◌, ◌>>◌, done, and_then}
use tp2_so_2c.Userland.Stdio.{text, printf, print_err}
use tp2_so_2c.Text.{Chars, strcmp, search_list, str_in_list}
use tp2_so_2c.Text.Copying.{IsText}
use tp2_so_2c.Text.Listing.{Others, str_in_list-absent}
use tp2_so_2c.Userland.{System, Program, Argv, stdin, stdout, stderr}
use tp2_so_2c.Userland.Programs.{
  arg, text_of, launch, at_least_one, handle_clear, handle_ps, handle_loop, handle_cat, handle_wc,
  handle_filter,
}
use tp2_so_2c.Userland.Shell.{
  bar, max_args, pad, is_ampersand, check_fore, find_instruction, instruction_list, is_built_in,
}
use tp2_so_2c.Userland.Shell.Words.{
  blanks, lay, words, take, take-all, AreWords, split_args-words, pad-append,
}
use tp2_so_2c.Userland.Shell.Running.{
  handle, call_handler, instruction_handlers, after_launch, launch_command, handle_process_command,
  run_simple, run_words, run_args, run_line,
}

-- The programs that start with any arguments, their names and their numbers.
pub data Applet : Type 0 where
  clear ps loop cat wc filter : Applet

abbrev pub program_of : Applet → Program
program_of clear = Program.clear
program_of ps = Program.ps
program_of loop = Program.loop
program_of cat = Program.cat
program_of wc = Program.wc
program_of filter = Program.filter

abbrev pub name_of : Applet → Chars
name_of clear = codes "clear"
name_of ps = codes "ps"
name_of loop = codes "loop"
name_of cat = codes "cat"
name_of wc = codes "wc"
name_of filter = codes "filter"

abbrev pub number_of : Applet → ℕ
number_of clear = 7
number_of ps = 8
number_of loop = 9
number_of cat = 10
number_of wc = 11
number_of filter = 12

-- The last of several words.
abbrev pub last_of : Chars → List Chars → Chars
last_of w [] = w
last_of w (v ∷ vs) = last_of v vs

pad-nulls : (n : ℕ) → pad n [] ≡ replicate n none
pad-nulls zero = refl
pad-nulls (suc n) = ap (λ l. none ∷ l) (pad-nulls n)

pad-all :
    (ws : List Chars) (n : ℕ)
    → length ws ≤ n
    → pad n ws ≡ map some ws ++ replicate (n - length ws) none
pad-all ws n h =
    let size : n ≡ length ws + (n - length ws) = omega arith in
    ap (λ k. pad k ws) size
    ∙ ap (λ l. pad (length ws + (n - length ws)) l) (sym (append-nil ws))
    ∙ pad-append ws [] (n - length ws)
    ∙ ap (λ l. map some ws ++ l) (pad-nulls (n - length ws))

arg-last :
    (w : Chars) (ws : List Chars) (r : Argv)
    → arg (some w ∷ (map some ws ++ r)) (length ws) ≡ some (last_of w ws)
arg-last w [] r = refl
arg-last w (v ∷ ws) r = arg-last v ws r

arg-behind :
    (ws : List Chars) (p : Option Chars) (r : Argv) → arg (map some ws ++ (p ∷ r)) (length ws) ≡ p
arg-behind [] p r = refl
arg-behind (w ∷ ws) p r = arg-behind ws p r

set-end :
    (ws : List Chars) (p q : Option Chars) (r : Argv)
    → set (map some ws ++ (p ∷ r)) (length ws) q ≡ map some ws ++ (q ∷ r)
set-end [] p q r = refl
set-end (w ∷ ws) p q r = ap (λ l. some w ∷ l) (set-end ws p q r)

-- The name of a program is found, whatever the memory holds behind the list.
find-name :
    (p : Applet) (behind : Argv) → find_instruction behind (some (name_of p)) ≡ some (number_of p)
unfolding find_instruction instruction_list str_in_list search_list strcmp
find-name clear behind = refl
find-name ps behind = refl
find-name loop behind = refl
find-name cat behind = refl
find-name wc behind = refl
find-name filter behind = refl

number-program : (p : Applet) → is_built_in (number_of p) ≡ false
number-program clear = refl
number-program ps = refl
number-program loop = refl
number-program cat = refl
number-program wc = refl
number-program filter = refl

name-IsText : (p : Applet) → IsText (name_of p)
name-IsText clear = omega arith
name-IsText ps = omega arith
name-IsText loop = omega arith
name-IsText cat = omega arith
name-IsText wc = omega arith
name-IsText filter = omega arith

name-bar : (p : Applet) → (124 ∷ []) ≢ name_of p
name-bar clear e = ground arith
name-bar ps e = ground arith
name-bar loop e = ground arith
name-bar cat e = ground arith
name-bar wc e = ground arith
name-bar filter e = ground arith

bind-answer :
    {S A : Type 0} (o : Option (ℕ × S)) (f : ℕ → ℕ) (k : ℕ → M S A)
    → and_then (and_then o (λ pid. pure (f pid))) k ≡ and_then o (λ pid. k (f pid))
bind-answer none f k = refl
bind-answer (some (pid, s)) f k = refl

-- The array of a name and of arguments, as the shell hands it on.
abbrev pub array : Applet → List Chars → Argv
array p ws = pad max_args (name_of p ∷ ws)

array-arg :
    (p : Applet) (ws : List Chars)
    → length ws < max_args
    → arg (array p ws) (length ws) ≡ some (last_of (name_of p) ws)
array-arg p ws h =
    ap (λ l. arg l (length ws)) (pad-all (name_of p ∷ ws) max_args (omega arith))
    ∙ arg-last (name_of p) ws (replicate (max_args - suc (length ws)) none)

no_bar :
    (p : Applet) (ws : List Chars)
    → length ws < max_args
    → Others (124 ∷ []) ws
    → str_in_list bar (array p ws) ≡ none
no_bar p ws h others =
    ap (λ l. str_in_list bar l) (pad-all (name_of p ∷ ws) max_args (omega arith))
    ∙ str_in_list-absent (124 ∷ []) (name_of p) ws (max_args - suc (length ws)) (omega arith)
        (name-IsText p, name-bar p, others)

pack : {A B : Type 0} {x y : A} (b : B) → x ≡ y → Path (Bool × A × B) (false, x, b) (false, y, b)
pack b e = λ i. (false, e i, b)

-- A last word of an array is found at its end, and dropped there.
array-end :
    (p : Applet) (ws : List Chars) (amp : Chars)
    → length ws + 1 < max_args
    → (arg (array p (ws ++ (amp ∷ []))) (suc (length ws)) ≡ some amp)
      × (set (array p (ws ++ (amp ∷ []))) (suc (length ws)) none ≡ array p ws)
array-end p ws amp h =
    let all = name_of p ∷ ws in
    let n = max_args - suc (length ws) - 1 in
    let rest = replicate n none in
    let size : max_args ≡ length all + suc n = omega arith in
    let one : pad (suc n) (amp ∷ []) ≡ some amp ∷ rest = ap (λ l. some amp ∷ l) (pad-nulls n) in
    let longer : array p (ws ++ (amp ∷ [])) ≡ map some all ++ (some amp ∷ rest) =
      ap (λ k. pad k (all ++ (amp ∷ []))) size
      ∙ pad-append all (amp ∷ []) (suc n)
      ∙ ap (λ l. map some all ++ l) one in
    let more : max_args - length all ≡ suc n = omega arith in
    let shorter : array p ws ≡ map some all ++ (none ∷ rest) =
      pad-all all max_args (omega arith) ∙ ap (λ k. map some all ++ replicate k none) more in
    (
      ap (λ l. arg l (suc (length ws))) longer ∙ arg-behind all (some amp) rest,
      ap (λ l. set l (suc (length ws)) none) longer
          ∙ set-end all (some amp) none rest
          ∙ sym shorter,
    )

-- `check_fore` leaves a command alone whose last word does not start with '&', and drops one that
-- does.
check_fore-foreground :
    (p : Applet) (ws : List Chars)
    → length ws < max_args
    → is_ampersand (some (last_of (name_of p) ws)) ≡ false
    → check_fore (array p ws) (suc (length ws)) ≡ (true, array p ws, suc (length ws))
unfolding check_fore
check_fore-foreground p ws h last =
    let some_args : (suc (length ws) == 0) ≡ false = ground arith in
    let index : suc (length ws) - 1 ≡ length ws = omega arith in
    rw (some_args, index, array-arg p ws h, last) refl

check_fore-background :
    (p : Applet) (ws : List Chars) (amp : Chars)
    → length ws + 1 < max_args
    → is_ampersand (some amp) ≡ true
    → check_fore (array p (ws ++ (amp ∷ []))) (suc (length (ws ++ (amp ∷ []))))
      ≡ (false, array p ws, suc (length ws))
unfolding check_fore
check_fore-background p ws amp h last =
    let long : length (ws ++ (amp ∷ [])) ≡ suc (length ws) =
      length-append ws (amp ∷ []) ∙ omega arith in
    let some_args : (suc (suc (length ws)) == 0) ≡ false = ground arith in
    let index : suc (suc (length ws)) - 1 ≡ suc (length ws) = omega arith in
    let at_end = array-end p ws amp h in
    rw (long, some_args, index, at_end.0, last) (pack (suc (length ws)) at_end.1)

-- The name that the message of a process in the background has.
report-name : (p : Applet) → text_of (arg instruction_list (number_of p)) ≡ name_of p
unfolding instruction_list
report-name clear = refl
report-name ps = refl
report-name loop = refl
report-name cat = refl
report-name wc = refl
report-name filter = refl

module _ {S : Type 0} (sys : System S) where
  abbrev pub runs_in_background : Chars → M S (Unit {0})
  runs_in_background name =
      printf sys (codes "Proceso %s ejecutado en background.\n") (text name ∷ [])

  -- The shell behind the launch of a program in the foreground, for the pid that `createProcess`
  -- answered: a message where it is negative, else a wait for the process. (Pid 0 is that of the
  -- kernel's idle process.)
  abbrev pub foreground_end : Chars → ℕ → M S (Unit {0})
  foreground_end name pid =
      if leb (2 ^ 15) pid
      then print_err sys (codes "Error al ejecutar el comando.\n")
      else if pid == 0
      then runs_in_background name
      else (sys.wait_process pid >> done)

module _ {S : Type 0} (sys : System S) (write_null : Chars → M S (Unit {0})) (behind : Argv)
    (cmd1_at cmd2_at : ℕ) where
  -- The launchers of these programs start them with all their arguments.
  handle-launch :
      (p : Applet) (argv : Argv) (argc : ℕ) (ground : Bool) (inp out : ℕ) (s : S)
      → handle sys write_null behind cmd1_at cmd2_at (number_of p) argv argc ground inp out s
        ≡ launch sys (program_of p) argv (at_least_one argc) ground inp out s
  unfolding handle call_handler instruction_handlers handle_clear handle_ps handle_loop handle_cat
      handle_wc handle_filter
  handle-launch clear argv argc ground inp out s = refl
  handle-launch ps argv argc ground inp out s = refl
  handle-launch loop argv argc ground inp out s = refl
  handle-launch cat argv argc ground inp out s = refl
  handle-launch wc argv argc ground inp out s = refl
  handle-launch filter argv argc ground inp out s = refl

  process_lem :
      (argv : Argv) (argc n : ℕ) (s : S)
      → handle_process_command sys write_null behind cmd1_at cmd2_at argv argc n s
        ≡ launch_command sys write_null behind cmd1_at cmd2_at n (check_fore argv argc) s
  unfolding handle_process_command
  process_lem argv argc n s = refl

  -- The steps of `run_words` and `run_simple` for a program.
  run_words-some :
      (argc : ℕ) (argv : Argv) (s : S)
      → (argc == 0) ≡ false
      → run_words sys write_null behind cmd1_at cmd2_at none (argc, argv) s
        ≡ run_simple sys write_null behind cmd1_at cmd2_at
            (find_instruction behind (arg argv 0))
            argv
            argc
            s
  unfolding run_words
  run_words-some argc argv s h = rw h refl

  run_simple-program :
      (n argc : ℕ) (argv : Argv) (s : S)
      → is_built_in n ≡ false
      → run_simple sys write_null behind cmd1_at cmd2_at (some n) argv argc s
        ≡ handle_process_command sys write_null behind cmd1_at cmd2_at argv argc n s
  unfolding run_simple
  run_simple-program n argc argv s h = rw h refl

  run_args-program :
      (p : Applet) (ws : List Chars) (s : S)
      → length ws < max_args
      → Others (124 ∷ []) ws
      → run_args sys write_null behind cmd1_at cmd2_at (suc (length ws), array p ws) s
        ≡ handle_process_command sys write_null behind cmd1_at cmd2_at
            (array p ws)
            (suc (length ws))
            (number_of p)
            s
  unfolding run_args
  run_args-program p ws s fits others =
      let argc = suc (length ws) in
      let some_args : (argc == 0) ≡ false = ground arith in
      ap (λ o. run_words sys write_null behind cmd1_at cmd2_at o (argc, array p ws) s)
        (no_bar p ws fits others)
      ∙ run_words-some argc (array p ws) s some_args
      ∙ ap (λ o. run_simple sys write_null behind cmd1_at cmd2_at o (array p ws) argc s)
          (find-name p behind)
      ∙ run_simple-program (number_of p) argc (array p ws) s (number-program p)

  -- A line of words without a bar, the first of which is the name of a program, comes to the launch of
  -- the program with all the words.
  run_line-launch :
      (k : ℕ) (p : Applet) (ws : List Chars) (laid : List (Chars × ℕ)) (s : S)
      → AreWords laid
      → words laid ≡ name_of p ∷ ws
      → length ws < max_args
      → Others (124 ∷ []) ws
      → run_line sys write_null behind cmd1_at cmd2_at (blanks k ++ lay laid) s
        ≡ launch_command sys write_null behind cmd1_at cmd2_at
            (number_of p)
            (check_fore (array p ws) (suc (length ws)))
            s
  unfolding run_line
  run_line-launch k p ws laid s h e fits others =
      let all : take max_args (words laid) ≡ name_of p ∷ ws =
        ap (λ l. take max_args l) e ∙ take-all max_args (name_of p ∷ ws) (omega arith) in
      let split = split_args-words k laid h in
      let pair : List Chars → ℕ × Argv = λ l. (length l, pad max_args l) in
      ap (λ r. run_args sys write_null behind cmd1_at cmd2_at r s) (split ∙ ap pair all)
      ∙ run_args-program p ws s fits others
      ∙ process_lem (array p ws) (suc (length ws)) (number_of p) s

  -- A line of at most MAX_ARGS words, the first of which is clear, ps, loop, cat, wc or filter, none of
  -- which is a bar and the last of which does not start with '&': the shell starts that program in the foreground, with
  -- all the words as its arguments, from standard input to standard output, and then waits for the
  -- pid that createProcess answered; where that is negative it prints an error, and where it is 0 the
  -- message of a process in the background. No other system call is made.
  pub run_line-foreground :
      (k : ℕ) (p : Applet) (ws : List Chars) (laid : List (Chars × ℕ)) (s : S)
      → AreWords laid
      → words laid ≡ name_of p ∷ ws
      → length ws < max_args
      → Others (124 ∷ []) ws
      → is_ampersand (some (last_of (name_of p) ws)) ≡ false
      → run_line sys write_null behind cmd1_at cmd2_at (blanks k ++ lay laid) s
        ≡ (sys.create_process
                (program_of p)
                (array p ws)
                (suc (length ws))
                1
                false
                (stdin, stdout, stderr)
              >>= foreground_end sys (name_of p))
            s
  unfolding launch_command launch after_launch
  run_line-foreground k p ws laid s h e fits others last =
      let some_args : ltb 0 (suc (length ws)) ≡ true = ground arith in
      let n = number_of p in
      run_line-launch k p ws laid s h e fits others
      ∙ rw
          (
            check_fore-foreground p ws fits last,
            handle-launch p (array p ws) (suc (length ws)) true stdin stdout s,
            some_args,
          )
          (bind-answer
            (sys.create_process (program_of p) (array p ws) (suc (length ws)) 1 false
              (stdin, stdout, stderr) s)
            (λ pid. pid) (after_launch sys write_null behind cmd1_at cmd2_at n))
      ∙ ap
          (λ name.
            (sys.create_process (program_of p) (array p ws) (suc (length ws)) 1 false
                  (stdin, stdout, stderr)
                >>= foreground_end sys name)
              s)
          (report-name p)

  -- The same line with one more word that starts with '&', again of at most MAX_ARGS words in all: the
  -- shell starts the program in the background, without that word, does not wait, and prints the
  -- message that the program runs in the background, whatever the call answered, also where it failed.
  pub run_line-background :
      (k : ℕ) (p : Applet) (ws : List Chars) (amp : Chars) (laid : List (Chars × ℕ)) (s : S)
      → AreWords laid
      → words laid ≡ name_of p ∷ (ws ++ (amp ∷ []))
      → length ws + 1 < max_args
      → Others (124 ∷ []) (ws ++ (amp ∷ []))
      → is_ampersand (some amp) ≡ true
      → run_line sys write_null behind cmd1_at cmd2_at (blanks k ++ lay laid) s
        ≡ (sys.create_process
                (program_of p)
                (array p ws)
                (suc (length ws))
                1
                true
                (stdin, stdout, stderr)
              >>= λ pid. runs_in_background sys (name_of p))
            s
  unfolding launch_command launch after_launch
  run_line-background k p ws amp laid s h e fits others last =
      let some_args : ltb 0 (suc (length ws)) ≡ true = ground arith in
      let n = number_of p in
      let long : length (ws ++ (amp ∷ [])) ≡ length ws + 1 = length-append ws (amp ∷ []) in
      run_line-launch k p (ws ++ (amp ∷ [])) laid s h e (omega arith) others
      ∙ rw
          (
            check_fore-background p ws amp fits last,
            handle-launch p (array p ws) (suc (length ws)) false stdin stdout s,
            some_args,
          )
          (bind-answer
            (sys.create_process (program_of p) (array p ws) (suc (length ws)) 1 true
              (stdin, stdout, stderr) s)
            (λ pid. 0) (after_launch sys write_null behind cmd1_at cmd2_at n))
      ∙ ap
          (λ name.
            (sys.create_process (program_of p) (array p ws) (suc (length ws)) 1 true
                  (stdin, stdout, stderr)
                >>= λ pid. runs_in_background sys name)
              s)
          (report-name p)
