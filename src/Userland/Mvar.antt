-- ===== src/Userland/Mvar.antt =====
-- Userland/SampleCodeModule/mvar.c: writers and readers that share a pipe of one-byte values.
use tp2_so_2c.Prelude.{
  ℕ, zero, suc, ◌+◌, ◌%◌, ◌^◌, Bool, true, false, ◌&&◌, ◌||◌, not, Option, none, some, List, [],
  ◌∷◌, ◌++◌, ltb, leb, ◌==◌, if◌then◌else◌, get_elem?, codes, length, replicate,
}
use tp2_so_2c.Effects.{M, pure, fault, ◌>>=◌, ◌>>◌, done, when}
use tp2_so_2c.Text.{Chars, str_to_uint32, atoi}
use tp2_so_2c.Text.Userland.{itoa}
use tp2_so_2c.Userland.{
  System, Argv, Color, mvar_manager, mvar_reader, mvar_writer, stdin, stdout, stderr, no_pid,
  negative_pid,
}
use tp2_so_2c.Userland.Stdio.{number, text, putchar, printf}
use tp2_so_2c.Userland.Programs.{arg, is_null, text_of}

-- MVAR_SEM_PRINT
abbrev pub sem_print : ℕ
sem_print = 93

abbrev pub min_pause_steps : ℕ
min_pause_steps = 1

abbrev pub pause_spread_steps : ℕ
pause_spread_steps = 4

abbrev pub mvar_value_bytes : ℕ
mvar_value_bytes = 1

abbrev pub reader_palette_size : ℕ
reader_palette_size = 6

-- x < 0 for an `int`
abbrev pub negative : ℕ → Bool
negative n = leb (2 ^ 31) n

-- The rounds of a loop from 0 to an `int`.
abbrev pub rounds_to : ℕ → ℕ
rounds_to n = if negative n then 0 else n

-- `writer_value`, for an id that is not negative.
unfoldable pub writer_value : ℕ → ℕ
writer_value id = 65 + id % 26

-- The constants of include/color.h that `reader_palette` uses: blue, green, red.
abbrev pub color : ℕ → ℕ → ℕ → Color
color b g r = record { b = b; g = g; r = r }

-- `reader_palette`
abbrev pub reader_palette : List (Color × Chars)
reader_palette =
    (color 0 0 255, codes "red")
    ∷ (color 100 255 100, codes "light-green")
    ∷ (color 100 150 100, codes "dark-green")
    ∷ (color 255 153 184, codes "pink")
    ∷ (color 255 0 184, codes "magenta")
    ∷ (color 173 169 170, codes "silver")
    ∷ []

abbrev pub name_at : Option (Color × Chars) → Chars
name_at none = []
name_at (some (k, t)) = t

abbrev pub color_at : Option (Color × Chars) → Color
color_at none = color 0 0 0
color_at (some (k, t)) = k

-- `reader_color`
unfoldable pub reader_color : ℕ → Color
reader_color id = color_at (get_elem? reader_palette (id % reader_palette_size))

-- The digits that `itoa` writes into a buffer, up to the NUL.
abbrev pub upto_nul : Chars → Chars
upto_nul [] = []
upto_nul (c ∷ cs) = if c == 0 then [] else c ∷ upto_nul cs

abbrev pub number_text : ℕ → Chars
number_text n = upto_nul ((itoa n (replicate 12 0) 10).1)

-- `compose_writer_args`: the vector of arguments.
unfoldable pub compose_writer_args : ℕ → ℕ → Argv
unfolding writer_value
compose_writer_args id value_pipe =
    some (codes "writer-" ++ (writer_value id ∷ []))
    ∷ some (number_text id)
    ∷ some (number_text value_pipe)
    ∷ none
    ∷ []

-- `compose_reader_args`
unfoldable pub compose_reader_args : ℕ → ℕ → Argv
compose_reader_args id value_pipe =
    some (codes "reader-" ++ name_at (get_elem? reader_palette (id % reader_palette_size)))
    ∷ some (number_text id)
    ∷ some (number_text value_pipe)
    ∷ none
    ∷ []

-- The guard of the three programs and of the launcher.
abbrev pub few_args : ℕ → Argv → Bool
few_args argc argv = ltb argc 3 || is_null (arg argv 1) || is_null (arg argv 2)

-- `get_uniform` is `getUniform` of tests/test_util.c, which computes with floating point numbers.
module _ {S : Type 0} (sys : System S) (get_uniform : ℕ → M S ℕ) where
  open sys use {
    create_process, exit, get_font_color, pipe_create, pipe_read, pipe_write, sem_create,
    sem_destroy, sem_post, sem_wait, set_font_color, yield_cpu,
  }

  pub spin : ℕ → M S (Unit {0})
  spin zero = done
  spin (suc n) = yield_cpu >> spin n

  -- `random_pause`
  pub random_pause : M S (Unit {0})
  unfolding spin
  random_pause = do u ← get_uniform pause_spread_steps; spin (min_pause_steps + u)

  -- `pipe_write_all` for a buffer that is not NULL.
  pub pipe_write_all : ℕ → Chars → M S Bool
  pipe_write_all id buffer =
      if negative id || (length buffer == 0)
      then pure false
      else (do n ← pipe_write id buffer; pure (n == length buffer))

  -- `pipe_read_all`, with the bytes put into the buffer.
  pub pipe_read_all : ℕ → ℕ → M S (Bool × Chars)
  pipe_read_all id count =
      if negative id || (count == 0)
      then pure (false, [])
      else (do (n, bs) ← pipe_read id count; pure (n == count, bs))

  -- `ensure_print_semaphore`
  pub ensure_print_semaphore : M S ℕ
  ensure_print_semaphore = sem_destroy sem_print >> sem_create sem_print 1

  -- `log_spawn_error`
  pub log_spawn_error : Chars → ℕ → M S (Unit {0})
  log_spawn_error role id = do
    got ← sem_wait sem_print
    if got == 0
        then (printf sys (codes "[mvar] Error al crear %s %u.\n") (text role ∷ number id ∷ [])
            >> (sem_post sem_print >> done))
        else printf sys (codes "[mvar] Error al crear %s %u.\n") (text role ∷ number id ∷ [])

  -- `spawn_writer`
  pub spawn_writer : ℕ → ℕ → M S (Unit {0})
  unfolding log_spawn_error
  spawn_writer id value_pipe = do
    pid ←
        create_process mvar_writer (compose_writer_args id value_pipe) 3 3 true
          (stdin, stdout, stderr)
    when (negative_pid pid) (log_spawn_error (codes "escritor") id)

  -- `spawn_reader`
  pub spawn_reader : ℕ → ℕ → M S (Unit {0})
  unfolding log_spawn_error
  spawn_reader id value_pipe = do
    pid ←
        create_process mvar_reader (compose_reader_args id value_pipe) 3 3 true
          (stdin, stdout, stderr)
    when (negative_pid pid) (log_spawn_error (codes "lector") id)

  -- for (i = 0; i < n; i++), from `i` on
  pub spawn_each : (ℕ → M S (Unit {0})) → ℕ → ℕ → M S (Unit {0})
  spawn_each spawn i zero = done
  spawn_each spawn i (suc n) = spawn i >> spawn_each spawn (i + 1) n

  -- `mvar_manager` behind its guards.
  pub manage : ℕ → ℕ → M S (Unit {0})
  unfolding ensure_print_semaphore spawn_writer spawn_reader spawn_each
  manage writers readers = do
    made ← ensure_print_semaphore
    if not (made == 0)
        then printf sys (codes "[mvar] Error creando semaforo de impresion.\n") []
        else (do
          pipe ← pipe_create
          if negative pipe
              then printf sys (codes "[mvar] Error creando pipe principal.\n") []
              else (spawn_each (λ i. spawn_writer i pipe) 0 (rounds_to writers)
                  >> spawn_each (λ i. spawn_reader i pipe) 0 (rounds_to readers)))

  -- `mvar_manager`
  pub run_manager : ℕ → Argv → M S (Unit {0})
  unfolding manage
  run_manager argc argv =
      let writers = str_to_uint32 (text_of (arg argv 1)) in
      let readers = str_to_uint32 (text_of (arg argv 2)) in
      (if few_args argc argv
        then printf sys (codes "Uso: mvar <writers> <readers>\n") []
        else if (writers == 0) || (readers == 0)
        then printf sys (codes "Uso: mvar <writers> <readers> (valores > 0)\n") []
        else manage writers readers)
      >> exit

  -- The loop of `mvar_writer`, for at most `fuel` rounds.
  pub writer_loop : ℕ → ℕ → ℕ → M S (Unit {0})
  unfolding random_pause pipe_write_all
  writer_loop zero id pipe = fault
  writer_loop (suc fuel) id pipe = do
    random_pause
    sent ← pipe_write_all pipe (writer_value id ∷ [])
    if sent then writer_loop fuel id pipe else done

  -- `mvar_writer`
  pub run_writer : ℕ → ℕ → Argv → M S (Unit {0})
  unfolding writer_loop
  run_writer fuel argc argv =
      if few_args argc argv
      then exit
      else (writer_loop fuel (str_to_uint32 (text_of (arg argv 1))) (atoi (text_of (arg argv 2)))
          >> exit)

  -- The byte in the variable `consumed_value`.
  abbrev pub consumed : Chars → ℕ
  consumed [] = 0
  consumed (c ∷ cs) = c

  -- A round of `mvar_reader` that has got the semaphore.
  pub show_value : Color → ℕ → M S (Unit {0})
  show_value font c = do
    prev ← get_font_color
    set_font_color font.r font.g font.b
    putchar sys c
    set_font_color prev.r prev.g prev.b
    sem_post sem_print >> done

  -- The loop of `mvar_reader`, for at most `fuel` rounds.
  pub reader_loop : ℕ → ℕ → ℕ → M S (Unit {0})
  unfolding random_pause pipe_read_all show_value reader_color
  reader_loop zero id pipe = fault
  reader_loop (suc fuel) id pipe = do
    random_pause
    (got, bs) ← pipe_read_all pipe mvar_value_bytes
    if not got then done else (do
      held ← sem_wait sem_print
      if not (held == 0)
          then done
          else (show_value (reader_color id) (consumed bs) >> reader_loop fuel id pipe))

  -- `mvar_reader`
  pub run_reader : ℕ → ℕ → Argv → M S (Unit {0})
  unfolding reader_loop
  run_reader fuel argc argv =
      if few_args argc argv
      then exit
      else (reader_loop fuel (str_to_uint32 (text_of (arg argv 1))) (atoi (text_of (arg argv 2)))
          >> exit)

module _ {S : Type 0} (sys : System S) where
  open sys use {create_process}

  -- `handle_mvar`
  unfoldable pub handle_mvar : Argv → ℕ → Bool → ℕ → ℕ → M S ℕ
  handle_mvar argv argc ground inp out =
      let writers = str_to_uint32 (text_of (arg argv 1)) in
      let readers = str_to_uint32 (text_of (arg argv 2)) in
      if few_args argc argv
      then (printf sys (codes "Uso: mvar <writers> <readers>\n") [] >> pure no_pid)
      else if (writers == 0) || (readers == 0)
      then (printf sys (codes "Uso: mvar <writers> <readers> (valores > 0)\n") [] >> pure no_pid)
      else if ltb 26 writers && not (negative writers)
      then (printf sys (codes "Uso: mvar <writers> <readers> (max writers = 26)\n") []
          >> pure no_pid)
      else (do
        pid ← create_process mvar_manager argv argc 2 (not ground) (inp, out, stderr)
        pure (if ground then pid else 0))
