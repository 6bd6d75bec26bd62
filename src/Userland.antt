-- ===== src/Userland.antt =====
-- The programs of Userland/SampleCodeModule, over the system calls as a user sees them.
-- A pid is the pattern of 16 bits of an `int16_t`, an `int` the pattern of its 32 bits, so -1 is
-- 2 ^ 16 - 1 or 2 ^ 32 - 1; a string is the list of the bytes behind its pointer, a pointer that may be
-- NULL an option.
pub mod Stdio
pub mod Console
pub mod Programs
pub mod Manual
pub mod Builtins
pub mod Mvar
pub mod Shell
mod Tests
use tp2_so_2c.Prelude.{ℕ, ◌+◌, ◌-◌, ◌^◌, Bool, true, false, ◌&&◌, Option, List, leb, ltb, ◌==◌}
use tp2_so_2c.Effects.{M}
use tp2_so_2c.Text.{Chars}

abbrev pub stdin : ℕ
stdin = 0

abbrev pub stdout : ℕ
stdout = 1

abbrev pub stderr : ℕ
stderr = 2

-- -1 as an `int` and as a pid
abbrev pub minus_one : ℕ
minus_one = 2 ^ 32 - 1

abbrev pub no_pid : ℕ
no_pid = 2 ^ 16 - 1

-- pid < 0
abbrev pub negative_pid : ℕ → Bool
negative_pid pid = leb (2 ^ 15) pid

-- `argv`: its entries, up to the last one that is in the array.
abbrev pub Argv : Type 0
Argv = List (Option Chars)

-- The functions that processes are started at.
pub data Program : Type 0 where
  clear ps loop cat wc filter : Program
  test_mm test_processes test_priority test_sync : Program
  mvar_manager mvar_writer mvar_reader : Program

-- `Color`
pub record Color : Type 0 where
  pub b : ℕ
  pub g : ℕ
  pub r : ℕ

-- `ProcessInfo`, as far as `ps` prints it; a name is an address and the string there.
pub record Info : Type 0 where
  pub name : Option (ℕ × Chars)
  pub priority : ℕ
  pub status : ℕ
  pub pid : ℕ

-- `mem_t`
pub record MemInfo : Type 0 where
  pub size : ℕ
  pub used : ℕ
  pub free : ℕ

-- The system calls of include/syscalls.h, in its order. `exit` answers the state in which the process
-- ended.
pub record System (S : Type 0) : Type 0 where
  pub write : ℕ → ℕ → M S (Unit {0})
  pub read : ℕ → M S ℕ
  pub get_seconds : M S ℕ
  pub get_minutes : M S ℕ
  pub get_hours : M S ℕ
  pub clear_screen : M S (Unit {0})
  pub get_register_array : M S (List ℕ)
  pub set_font_size : ℕ → M S (Unit {0})
  pub get_screen_resolution : M S ℕ
  pub get_ticks : M S ℕ
  pub get_memory : ℕ → M S Chars
  pub kaboom : M S (Unit {0})
  pub set_font_color : ℕ → ℕ → ℕ → M S (Unit {0})
  pub get_font_color : M S Color
  pub mm_alloc : ℕ → M S ℕ
  pub mm_free : ℕ → M S (Unit {0})
  pub mm_info : M S MemInfo
  -- the program, argv, argc, priority, ground and the three descriptors
  pub create_process : Program → Argv → ℕ → ℕ → Bool → ℕ × ℕ × ℕ → M S ℕ
  pub get_pid : M S ℕ
  -- the address of the array, NULL as none, and its entries
  pub process_info : M S (Option (ℕ × List Info))
  pub kill_process : ℕ → M S ℕ
  pub change_priority : ℕ → ℕ → M S ℕ
  pub block_process : ℕ → M S ℕ
  pub set_ready_process : ℕ → M S ℕ
  pub yield_cpu : M S (Unit {0})
  pub wait_process : ℕ → M S ℕ
  pub exit : M S (Unit {0})
  pub sleep : ℕ → M S (Unit {0})
  pub sem_create : ℕ → ℕ → M S ℕ
  pub sem_open : ℕ → M S ℕ
  pub sem_wait : ℕ → M S ℕ
  pub sem_post : ℕ → M S ℕ
  pub sem_destroy : ℕ → M S ℕ
  pub pipe_create : M S ℕ
  -- the answer, and the bytes put into the buffer
  pub pipe_read : ℕ → ℕ → M S (ℕ × Chars)
  pub pipe_write : ℕ → Chars → M S ℕ
  pub pipe_close : ℕ → M S ℕ
