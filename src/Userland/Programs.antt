-- ===== src/Userland/Programs.antt =====
-- Userland/SampleCodeModule/processFunctions.c: the programs of the user, and their launchers.
pub mod Streams
use tp2_so_2c.Prelude.{
  ℕ, zero, suc, ◌+◌, ◌^◌, Bool, true, false, ◌&&◌, ◌||◌, not, Option, none, some, List, [], ◌∷◌,
  ltb, leb, ◌==◌, if◌then◌else◌, get_elem?, codes,
}
use tp2_so_2c.Effects.{M, pure, fault, ◌>>=◌, ◌>>◌, done, when}
use tp2_so_2c.Text.{Chars, str_to_uint32}
use tp2_so_2c.Userland.{
  System, Program, clear, ps, loop, cat, wc, filter, test_mm, test_processes, test_priority,
  test_sync, Argv, Info, stderr, no_pid,
}
use tp2_so_2c.Userland.Stdio.{Value, number, text, putchar, getchar, printf, newline}

-- argv[i]; behind the end of the array there is no entry.
abbrev pub entry_or_null : Option (Option Chars) → Option Chars
entry_or_null none = none
entry_or_null (some p) = p

abbrev pub arg : Argv → ℕ → Option Chars
arg argv i = entry_or_null (get_elem? argv i)

abbrev pub is_null : Option Chars → Bool
is_null none = true
is_null (some t) = false

-- p && *p
abbrev pub has_text : Option Chars → Bool
has_text none = false
has_text (some []) = false
has_text (some (c ∷ cs)) = not (c == 0)

abbrev pub text_of : Option Chars → Chars
text_of none = []
text_of (some t) = t

-- 'a', 'e', 'i', 'o' and 'u', and the capitals: `is_vowel`.
unfoldable pub is_vowel : ℕ → Bool
is_vowel c =
    (c == 97)
    || (c == 101)
    || (c == 105)
    || (c == 111)
    || (c == 117)
    || (c == 65)
    || (c == 69)
    || (c == 73)
    || (c == 79)
    || (c == 85)

-- The stress tests of tests/, which run_test_mm and the others call.
pub record Stress (S : Type 0) : Type 0 where
  pub run_mm : ℕ → Argv → M S ℕ
  pub run_processes : ℕ → Argv → M S ℕ
  pub run_priority : ℕ → Argv → M S ℕ
  pub run_sync : ℕ → Argv → M S ℕ

-- list[i].name ? list[i].name : "(null)"
abbrev pub name_or_null : Option (ℕ × Chars) → Chars
name_or_null none = codes "(null)"
name_or_null (some (p, name)) = name

-- argc > 0 ? argc : 1
abbrev pub at_least_one : ℕ → ℕ
at_least_one argc = if ltb 0 argc then argc else 1

-- The interval of `loop`.
unfoldable pub loop_interval : ℕ → Argv → ℕ
loop_interval argc argv =
    let v = str_to_uint32 (text_of (arg argv 1)) in if ltb 1 argc && ltb 0 v then v else 1

module _ {S : Type 0} (sys : System S) where
  open sys use {
    clear_screen, create_process, exit, get_pid, mm_free, process_info, sleep, yield_cpu,
  }

  -- What every launcher does: `ground ? pid : 0`.
  unfoldable pub launch : Program → Argv → ℕ → Bool → ℕ → ℕ → M S ℕ
  launch program argv argc ground inp out = do
    pid ← create_process program argv argc 1 (not ground) (inp, out, stderr)
    pure (if ground then pid else 0)

  -- `handle_clear`
  unfoldable pub handle_clear : Argv → ℕ → Bool → ℕ → ℕ → M S ℕ
  unfolding launch
  handle_clear argv argc = launch clear argv (at_least_one argc)

  -- `handle_ps`
  unfoldable pub handle_ps : Argv → ℕ → Bool → ℕ → ℕ → M S ℕ
  unfolding launch
  handle_ps argv argc = launch ps argv (at_least_one argc)

  -- `handle_loop`
  unfoldable pub handle_loop : Argv → ℕ → Bool → ℕ → ℕ → M S ℕ
  unfolding launch
  handle_loop argv argc = launch loop argv (at_least_one argc)

  -- `handle_cat`
  unfoldable pub handle_cat : Argv → ℕ → Bool → ℕ → ℕ → M S ℕ
  unfolding launch
  handle_cat argv argc = launch cat argv (at_least_one argc)

  -- `handle_wc`
  unfoldable pub handle_wc : Argv → ℕ → Bool → ℕ → ℕ → M S ℕ
  unfolding launch
  handle_wc argv argc = launch wc argv (at_least_one argc)

  -- `handle_filter`
  unfoldable pub handle_filter : Argv → ℕ → Bool → ℕ → ℕ → M S ℕ
  unfolding launch
  handle_filter argv argc = launch filter argv (at_least_one argc)

  -- A launcher that prints how its program is used, and answers -1.
  abbrev pub refuse : Chars → M S ℕ
  refuse usage = printf sys usage [] >> pure no_pid

  -- `handle_test_mm`
  unfoldable pub handle_test_mm : Argv → ℕ → Bool → ℕ → ℕ → M S ℕ
  unfolding launch
  handle_test_mm argv argc ground inp out =
      if ltb argc 2 || is_null (arg argv 1)
      then refuse (codes "Uso: testmem <max_memory>\n")
      else launch test_mm argv argc ground inp out

  -- `handle_test_processes`
  unfoldable pub handle_test_processes : Argv → ℕ → Bool → ℕ → ℕ → M S ℕ
  unfolding launch
  handle_test_processes argv argc ground inp out =
      if ltb argc 2 || is_null (arg argv 1)
      then refuse (codes "Uso: testproc <max_processes>\n")
      else launch test_processes argv (at_least_one argc) ground inp out

  -- `handle_test_priority`
  unfoldable pub handle_test_priority : Argv → ℕ → Bool → ℕ → ℕ → M S ℕ
  unfolding launch
  handle_test_priority argv argc ground inp out =
      if ltb argc 2 || is_null (arg argv 1)
      then refuse (codes "Uso: testprio <max_value>\n")
      else launch test_priority argv argc ground inp out

  -- `handle_test_sync`
  unfoldable pub handle_test_sync : Argv → ℕ → Bool → ℕ → ℕ → M S ℕ
  unfolding launch
  handle_test_sync argv argc ground inp out =
      if ltb argc 3
      then refuse (codes "Uso: testsync <iteraciones> <usar_sem>\n")
      else launch test_sync argv argc ground inp out

  -- `clear`
  pub run_clear : M S (Unit {0})
  run_clear = clear_screen >> exit

  -- if (list[i].name) sys_mm_free(list[i].name)
  abbrev pub free_name : Option (ℕ × Chars) → M S (Unit {0})
  free_name none = done
  free_name (some (p, name)) = mm_free p

  -- A line of `ps`.
  pub ps_line : Info → M S (Unit {0})
  ps_line i =
      printf sys (codes "PID:%d  NAME:%s  STATUS:%d  PRIO:%d\n")
        (number i.pid ∷ text (name_or_null i.name) ∷ number i.status ∷ number i.priority ∷ [])
      >> free_name i.name

  -- The loop of `ps`.
  pub ps_lines : List Info → M S (Unit {0})
  unfolding ps_line
  ps_lines [] = done
  ps_lines (i ∷ is) = ps_line i >> ps_lines is

  -- `ps` for what `sys_processInfo` answered.
  pub ps_of : Option (ℕ × List Info) → M S (Unit {0})
  unfolding ps_lines
  ps_of none = exit
  ps_of (some (list, is)) = ps_lines is >> mm_free list >> exit

  -- `ps`
  pub run_ps : M S (Unit {0})
  unfolding ps_of
  run_ps = process_info >>= ps_of

  -- `n` rounds of `loop`, which never returns.
  pub loop_rounds : ℕ → ℕ → ℕ → M S (Unit {0})
  loop_rounds zero interval pid = done
  loop_rounds (suc n) interval pid =
      printf sys (codes "[loop] Hola! soy PID=%d\n") (number pid ∷ [])
      >> sleep interval
      >> loop_rounds n interval pid

  -- `loop`, for `n` rounds.
  pub run_loop : ℕ → ℕ → Argv → M S (Unit {0})
  unfolding loop_interval loop_rounds
  run_loop n argc argv = get_pid >>= loop_rounds n (loop_interval argc argv)

  -- A round of `cat` for what `getchar` gave.
  unfoldable pub cat_round : M S (Unit {0}) → Option ℕ → M S (Unit {0})
  cat_round rest none = done
  cat_round rest (some c) = if c == 0 then rest else (putchar sys c >> rest)

  -- The loop of `cat`, on fuel.
  unfoldable pub cat_loop : ℕ → M S (Unit {0})
  unfolding cat_round
  cat_loop zero = fault
  cat_loop (suc fuel) = getchar sys >>= cat_round (cat_loop fuel)

  -- `cat`
  pub run_cat : ℕ → M S (Unit {0})
  unfolding cat_loop
  run_cat fuel = cat_loop fuel >> exit

  -- A round of `wc` for what `getchar` gave; the answer is the number of lines, an `int`.
  unfoldable pub wc_round : (ℕ → M S ℕ) → ℕ → Option ℕ → M S ℕ
  wc_round rest lines none = pure lines
  wc_round rest lines (some c) =
      if c == 0
      then rest lines
      else (putchar sys c >> rest (if c == newline then lines + 1 else lines))

  -- The loop of `wc`, on fuel.
  unfoldable pub wc_loop : ℕ → ℕ → M S ℕ
  unfolding wc_round
  wc_loop zero lines = fault
  wc_loop (suc fuel) lines = getchar sys >>= wc_round (wc_loop fuel) lines

  -- for (i = 0; i < n; i++) sys_yield()
  unfoldable pub yields : ℕ → M S (Unit {0})
  yields zero = done
  yields (suc n) = yield_cpu >> yields n

  -- `wc`
  pub run_wc : ℕ → M S (Unit {0})
  unfolding wc_loop yields
  run_wc fuel = do
    lines ← wc_loop fuel 1
    printf sys (codes "La cantidad de lineas es: %d\n") (number lines ∷ []) >> (yields 100 >> exit)

  -- A round of `filter` for what `getchar` gave.
  unfoldable pub filter_round : M S (Unit {0}) → Option ℕ → M S (Unit {0})
  unfolding is_vowel
  filter_round rest none = done
  filter_round rest (some c) = if is_vowel c then rest else (putchar sys c >> rest)

  -- The loop of `filter`, on fuel.
  unfoldable pub filter_loop : ℕ → M S (Unit {0})
  unfolding filter_round
  filter_loop zero = fault
  filter_loop (suc fuel) = getchar sys >>= filter_round (filter_loop fuel)

  -- `filter`
  pub run_filter : ℕ → M S (Unit {0})
  unfolding filter_loop
  run_filter fuel = filter_loop fuel >> exit

module _ {S : Type 0} (sys : System S) (stress : Stress S) where
  open sys use {exit}

  -- What the four test programs print for the answer of their test, before they end.
  abbrev pub report : Chars → Chars → ℕ → M S (Unit {0})
  report well failed result =
      (if result == 0 then printf sys well [] else printf sys failed (number result ∷ [])) >> exit

  -- `run_test_mm`; an `argv[1]` of a positive `argc` may be behind the end, and is NULL then.
  pub run_test_mm : ℕ → Argv → M S (Unit {0})
  run_test_mm argc argv = do
    printf sys (codes "[test_mm] Iniciando test del administrador de memoria...\n") []
    when (ltb 0 argc && has_text (arg argv 1)) (
        printf sys (codes "Tamanio maximo de prueba: %s bytes\n")
          (text (text_of (arg argv 1)) ∷ []))
    result ← stress.run_mm argc argv
    report (codes "[test_mm] Finalizado exitosamente.\n") (codes "[test_mm] Fallo con codigo: %d\n")
        result

  -- `run_test_processes`
  pub run_test_processes : ℕ → Argv → M S (Unit {0})
  run_test_processes argc argv = do
    printf sys (codes "[test_processes] Creando, bloqueando y matando procesos dummy...\n") []
    result ← stress.run_processes argc argv
    report (codes "[test_processes] Completado exitosamente.\n")
        (codes "[test_processes] Fallo con codigo: %d\n") result

  -- `run_test_priority`
  pub run_test_priority : ℕ → Argv → M S (Unit {0})
  run_test_priority argc argv = do
    printf sys (codes "[test_priority] Iniciando prueba de scheduling por prioridad...\n") []
    result ← stress.run_priority argc argv
    report (codes "[test_priority] Test completado exitosamente.\n")
        (codes "[test_priority] Fallo con codigo: %d\n") result

  -- `run_test_sync`
  pub run_test_sync : ℕ → Argv → M S (Unit {0})
  run_test_sync argc argv = do
    printf sys (codes "[test_sync] Iniciando prueba de sincronizacion con semaforos...\n") []
    when (ltb 1 argc && has_text (arg argv 1))
        (printf sys (codes "Iteraciones: %s\n") (text (text_of (arg argv 1)) ∷ []))
    when (ltb 2 argc && has_text (arg argv 2))
        (printf sys (codes "Usar semaforos: %s\n") (text (text_of (arg argv 2)) ∷ []))
    result ← stress.run_sync argc argv
    report (codes "[test_sync] Test completado exitosamente.\n")
        (codes "[test_sync] Fallo con codigo: %d\n") result
