-- ===== src/Userland/Builtins.antt =====
-- Userland/SampleCodeModule/builtinFunctions.c: the commands that the shell runs itself.
use tp2_so_2c.Prelude.{
  ℕ, ◌%◌, ◌^◌, Bool, ◌||◌, not, [], ◌∷◌, ◌++◌, ltb, leb, ◌==◌, if◌then◌else◌, codes,
}
use tp2_so_2c.Effects.{M, pure, ◌>>=◌, ◌>>◌, done}
use tp2_so_2c.Text.{Chars, atoi}
use tp2_so_2c.Text.Userland.{strtoi}
use tp2_so_2c.Userland.{System, Argv, minus_one, negative_pid}
use tp2_so_2c.Userland.Stdio.{number, text, printf}
use tp2_so_2c.Userland.Manual.{manual}
use tp2_so_2c.Userland.Programs.{arg, is_null, text_of}

-- MIN_PRIORITY, MAX_PRIORITY, MIN_FONT_SIZE and MAX_FONT_SIZE
abbrev pub min_priority : ℕ
min_priority = 1

abbrev pub max_priority : ℕ
max_priority = 10

abbrev pub min_font_size : ℕ
min_font_size = 1

abbrev pub max_font_size : ℕ
max_font_size = 3

-- v < lo || v > hi for an `int` and bounds that are not negative.
abbrev pub outside : ℕ → ℕ → ℕ → Bool
outside lo hi v = ltb v lo || ltb hi v

-- (pid_t) atoi(argv[i])
abbrev pub pid_arg : Argv → ℕ → ℕ
pid_arg argv i = atoi (text_of (arg argv i)) % 2 ^ 16

-- `write_null` is what the write of `strtoi` through the pointer NULL does.
module _ {S : Type 0} (sys : System S) (write_null : Chars → M S (Unit {0})) where
  open sys use {
    set_font_size, get_pid, block_process, set_ready_process, kill_process, change_priority,
    mm_info,
  }

  -- strtoi(s, NULL)
  pub strtoi_null : Chars → M S ℕ
  strtoi_null s = let (n, rest) = strtoi s in write_null rest >> pure n

  -- `bi_help`
  pub bi_help : ℕ → Argv → M S (Unit {0})
  bi_help argc argv =
      if argc == 0
      then printf sys (codes "%s") (text manual ∷ [])
      else printf sys (codes "El comando help no requiere argumentos.\n") []

  -- `bi_fontSize`
  pub bi_font_size : ℕ → Argv → M S (Unit {0})
  unfolding strtoi_null
  bi_font_size argc argv =
      if not (argc == 1) || is_null (arg argv 0)
      then printf sys (codes "Uso: font-size <n>\n") []
      else (do
        v ← strtoi_null (text_of (arg argv 0))
        if outside min_font_size max_font_size v
            then printf sys (codes "Tama" ++ (195 ∷ 177 ∷ codes "o invalido. Rango: %d..%d\n"))
                (number min_font_size ∷ number max_font_size ∷ [])
            else set_font_size (v % 2 ^ 8))

  -- `bi_block` for the pid of the shell.
  pub block_other : ℕ → ℕ → M S (Unit {0})
  block_other pid shell =
      if (pid == 0) || (pid == 1) || (pid == shell % 2 ^ 16)
      then printf sys (codes "Error: no se puede bloquear la shell ni el proceso idle.\n") []
      else (do
        rc ← block_process pid
        if rc % 2 ^ 32 == minus_one
            then printf sys (codes "Error al bloquear el proceso %d\n") (number pid ∷ [])
            else printf sys (codes "Proceso %d bloqueado correctamente\n") (number pid ∷ []))

  -- `bi_block`
  pub bi_block : ℕ → Argv → M S (Unit {0})
  unfolding block_other
  bi_block argc argv =
      if ltb argc 1 || is_null (arg argv 0)
      then printf sys (codes "Uso: block <pid>\n") []
      else (get_pid >>= block_other (pid_arg argv 0))

  -- `bi_unblock`
  pub bi_unblock : ℕ → Argv → M S (Unit {0})
  bi_unblock argc argv =
      if ltb argc 1 || is_null (arg argv 0)
      then printf sys (codes "Uso: unblock <pid>\n") []
      else (set_ready_process (pid_arg argv 0) >> done)

  -- `bi_kill`
  pub bi_kill : ℕ → Argv → M S (Unit {0})
  bi_kill argc argv =
      if not (argc == 1) || is_null (arg argv 0)
      then printf sys (codes "Uso: kill <pid>\n") []
      else if leb (pid_arg argv 0) 1 || negative_pid (pid_arg argv 0)
      then printf sys (codes "PID debe ser mayor que 1\n") []
      else (kill_process (pid_arg argv 0) >> done)

  -- `bi_nice` for a pid and a priority.
  pub nice_to : ℕ → ℕ → M S (Unit {0})
  nice_to pid priority =
      if (pid == 0) || (pid == 1)
      then printf sys (codes "No se pueden cambiar las prioridades de idle o de la shell.\n") []
      else if outside min_priority max_priority priority
      then printf sys (codes "Prioridad invalida (rango %d..%d)\n")
          (number min_priority ∷ number max_priority ∷ [])
      else (do
        out ← change_priority pid priority
        if out % 2 ^ 32 == minus_one
            then printf sys (codes "Proceso %d no encontrado\n") (number pid ∷ [])
            else done)

  -- `bi_nice`
  pub bi_nice : ℕ → Argv → M S (Unit {0})
  unfolding strtoi_null nice_to
  bi_nice argc argv =
      if ltb argc 2 || is_null (arg argv 0) || is_null (arg argv 1)
      then printf sys (codes "Uso: nice <pid> <priority>\n") []
      else (strtoi_null (text_of (arg argv 1)) >>= nice_to (pid_arg argv 0))

  -- `bi_mem`
  pub bi_mem : ℕ → Argv → M S (Unit {0})
  bi_mem argc argv =
      if argc == 0
      then (do
        info ← mm_info
        printf sys (codes "Memoria total: %u bytes\n") (number info.size ∷ [])
        printf sys (codes "Usada: %u bytes\n") (number info.used ∷ [])
        printf sys (codes "Libre: %u bytes\n") (number info.free ∷ []))
      else printf sys (codes "Uso: mem\n") []
