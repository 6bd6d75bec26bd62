-- ===== src/Userland/Shell/Running.antt =====
-- Userland/SampleCodeModule/shell.c: how the shell runs the commands of a line.
use tp2_so_2c.Prelude.{
  ℕ, zero, suc, ◌-◌, ◌^◌, Bool, ◌||◌, Option, none, some, List, [], ◌∷◌, leb, ◌==◌, if◌then◌else◌,
  get_elem?, length, codes,
}
use tp2_so_2c.Effects.{M, fault, ◌>>=◌, ◌>>◌, done}
use tp2_so_2c.Text.{Chars, str_in_list}
use tp2_so_2c.Userland.{System, Argv, stdin, stdout, negative_pid}
use tp2_so_2c.Userland.Stdio.{text, printf, print_err, putchar, puts, read_line}
use tp2_so_2c.Userland.Programs.{
  arg, text_of, handle_clear, handle_ps, handle_loop, handle_cat, handle_wc, handle_filter,
  handle_test_mm, handle_test_processes, handle_test_priority, handle_test_sync,
}
use tp2_so_2c.Userland.Mvar.{handle_mvar}
use tp2_so_2c.Userland.Builtins.{
  bi_help, bi_mem, bi_kill, bi_block, bi_unblock, bi_nice, bi_font_size,
}
use tp2_so_2c.Userland.Shell.{
  max_chars, clear, is_built_in, bar, instruction_list, split_args, separate_cmds, check_fore,
  remove_name, Command, find_instruction, set_cmd,
}

-- `pipeCmd`, with its address.
pub record PipeCmd : Type 0 where
  pub at : ℕ
  pub cmd1 : Command
  pub cmd2 : Command

abbrev pub Handler : Type 0 → Type 0
Handler S = Argv → ℕ → Bool → ℕ → ℕ → M S ℕ

module _ {S : Type 0} (sys : System S) (write_null : Chars → M S (Unit {0})) (behind : Argv)
    (cmd1_at cmd2_at : ℕ) where
  open sys use {clear_screen, mm_alloc, mm_free, pipe_close, pipe_create, wait_process}

  -- `instruction_handlers`; the two places behind them are NULL.
  unfoldable pub instruction_handlers : List (Handler S)
  instruction_handlers =
      handle_clear sys
      ∷ handle_ps sys
      ∷ handle_loop sys
      ∷ handle_cat sys
      ∷ handle_wc sys
      ∷ handle_filter sys
      ∷ handle_mvar sys
      ∷ handle_test_mm sys
      ∷ handle_test_processes sys
      ∷ handle_test_priority sys
      ∷ handle_test_sync sys
      ∷ []

  -- A call through the table: a call of NULL is a fault.
  unfoldable pub call_handler : Option (Handler S) → Handler S
  call_handler none argv argc ground inp out = fault
  call_handler (some f) argv argc ground inp out = f argv argc ground inp out

  -- instruction_handlers[n - CLEAR](...)
  unfoldable pub handle : ℕ → Handler S
  unfolding call_handler instruction_handlers
  handle n = call_handler (get_elem? instruction_handlers (n - clear))

  -- `built_in_handlers`
  unfoldable pub built_in_handlers : List (ℕ → Argv → M S (Unit {0}))
  built_in_handlers =
      bi_help sys write_null
      ∷ bi_mem sys write_null
      ∷ bi_kill sys write_null
      ∷ bi_block sys write_null
      ∷ bi_unblock sys write_null
      ∷ bi_nice sys write_null
      ∷ bi_font_size sys write_null
      ∷ []

  unfoldable pub call_built_in : Option (ℕ → Argv → M S (Unit {0})) → Argv × ℕ → M S (Unit {0})
  call_built_in none (argv, argc) = fault
  call_built_in (some f) (argv, argc) = f argc argv

  -- The three calls of `sys_mm_free` with which a pipe command is given up.
  abbrev pub free_cmds : PipeCmd → M S (Unit {0})
  free_cmds p = mm_free p.cmd1.arguments_at >> (mm_free p.cmd2.arguments_at >> mm_free p.at)

  -- `handle_piped_commands` behind its checks: both processes, with the pipe between them.
  unfoldable pub run_piped : ℕ → ℕ → PipeCmd → M S (Unit {0})
  unfolding handle
  run_piped n1 n2 p = do
    fd ← pipe_create
    if leb (2 ^ 31) fd
        then (print_err sys (codes "Error al crear el pipe\n") >> free_cmds p)
        else (do
          pid1 ← handle n1 p.cmd1.arguments p.cmd1.argc p.cmd1.ground stdin fd
          pid2 ← handle n2 p.cmd2.arguments p.cmd2.argc p.cmd2.ground fd stdout
          wait_process pid1
          mm_free p.cmd1.arguments_at
          wait_process pid2
          mm_free p.cmd2.arguments_at
          pipe_close fd
          mm_free p.at)

  -- `handle_piped_commands` for the two instructions.
  unfoldable pub check_piped : Option ℕ → Option ℕ → PipeCmd → M S (Unit {0})
  unfolding run_piped
  check_piped (some n1) (some n2) p =
      if is_built_in n1 || is_built_in n2
      then (print_err sys (codes "No se pueden usar comandos built-in con pipes.\n") >> free_cmds p)
      else run_piped n1 n2 p
  check_piped _ _ p = print_err sys (codes "Comando invalido.\n") >> free_cmds p

  -- `handle_piped_commands`
  unfoldable pub handle_piped_commands : PipeCmd → M S (Unit {0})
  unfolding check_piped
  handle_piped_commands p = check_piped p.cmd1.instruction p.cmd2.instruction p

  -- The end of `handle_process_command` for the pid that the launcher answered.
  unfoldable pub after_launch : ℕ → ℕ → M S (Unit {0})
  after_launch n pid =
      if negative_pid pid
      then print_err sys (codes "Error al ejecutar el comando.\n")
      else if pid == 0
      then printf sys (codes "Proceso %s ejecutado en background.\n")
          (text (text_of (arg instruction_list n)) ∷ [])
      else (wait_process pid >> done)

  -- `handle_process_command` behind `check_fore`.
  unfoldable pub launch_command : ℕ → Bool × Argv × ℕ → M S (Unit {0})
  unfolding handle after_launch
  launch_command n (ground, argv, argc) = handle n argv argc ground stdin stdout >>= after_launch n

  -- `handle_process_command`
  unfoldable pub handle_process_command : Argv → ℕ → ℕ → M S (Unit {0})
  unfolding launch_command check_fore
  handle_process_command argv argc n = launch_command n (check_fore argv argc)

  -- The branch of `run_shell` for a command without a pipe.
  unfoldable pub run_simple : Option ℕ → Argv → ℕ → M S (Unit {0})
  unfolding handle_process_command remove_name call_built_in built_in_handlers
  run_simple none argv argc =
      print_err sys (codes "Comando invalido, ejecuta 'help' para conocer los comandos\n")
  run_simple (some n) argv argc =
      if is_built_in n
      then call_built_in (get_elem? built_in_handlers n) (remove_name argv argc)
      else handle_process_command argv argc n

  -- The branch of `run_shell` for a command with a pipe, behind the call of `sys_mm_alloc`.
  unfoldable pub run_pipe : ℕ → Argv × Argv → M S (Unit {0})
  unfolding handle_piped_commands set_cmd
  run_pipe at (argv1, argv2) =
      if at == 0
      then print_err sys (codes "Error al asignar memoria para pipeCmd\n")
      else handle_piped_commands (record {
        at = at;
        cmd1 = set_cmd behind cmd1_at argv1;
        cmd2 = set_cmd behind cmd2_at argv2;
      })

  -- sizeof(pipeCmd)
  abbrev pub pipe_cmd_size : ℕ
  pipe_cmd_size = 48

  -- A round of `run_shell` for the arguments of its line, by the index of the bar, none for -1.
  unfoldable pub run_words : Option ℕ → ℕ × Argv → M S (Unit {0})
  unfolding run_pipe run_simple separate_cmds find_instruction
  run_words none (argc, argv) =
      if argc == 0 then done else run_simple (find_instruction behind (arg argv 0)) argv argc
  run_words (some sep) (argc, argv) =
      if argc == 0
      then done
      else (mm_alloc pipe_cmd_size >>= λ at. run_pipe at (separate_cmds argv))

  -- A round of `run_shell` for `argc` and `argv`.
  unfoldable pub run_args : ℕ × Argv → M S (Unit {0})
  unfolding run_words
  run_args (argc, argv) = run_words (str_in_list bar argv) (argc, argv)

  -- A round of `run_shell` for a line that is not empty.
  unfoldable pub run_line : Chars → M S (Unit {0})
  unfolding run_args split_args
  run_line line = run_args (split_args line)

  -- The loop of `run_shell`, which never ends, for `n` rounds; `fuel` is for each `read_line`.
  unfoldable pub shell_rounds : ℕ → ℕ → M S (Unit {0})
  unfolding run_line
  shell_rounds fuel zero = done
  shell_rounds fuel (suc n) = do
    putchar sys 62
    line ← read_line sys fuel max_chars
    if length line == 0 then shell_rounds fuel n else (run_line line >> shell_rounds fuel n)

  -- `run_shell`, for `n` rounds.
  pub run_shell : ℕ → ℕ → M S (Unit {0})
  unfolding shell_rounds
  run_shell fuel n = do
    clear_screen
    puts sys (codes "Bienvenido! Ingrese 'help' para ver los comandos disponibles\n")
    line ← mm_alloc max_chars
    if line == 0
        then print_err sys (codes "Error al asignar memoria para la linea de comandos\n")
        else shell_rounds fuel n
