-- ===== src/SysCalls.antt =====
-- Kernel/syscalls.c: the dispatcher of the system calls and the functions behind it.
-- A register is a number below 2 ^ 64. An `int` or an `int16_t` argument is the pattern of its 32 or
-- 16 bits, so -1 is 2 ^ 32 - 1; a `char` is a byte. What the other files of the kernel do is the
-- record `Ops`; a call that never goes on answers none.
pub mod Clock
pub mod Files
pub mod Sample
mod Tests
use tp2_so_2c.Prelude.{
  ℕ, zero, suc, ◌+◌, ◌-◌, ◌*◌, ◌%◌, ◌^◌, Bool, true, false, ◌&&◌, ◌||◌, not, Option, none, some,
  List, [], ◌∷◌, ltb, leb, ◌==◌, if◌then◌else◌, get_elem?,
}
use tp2_so_2c.Effects.{M, pure, fault, ◌>>=◌, ◌>>◌, done, when}

abbrev pub syscall_count : ℕ
syscall_count = 36

abbrev pub num_sems : ℕ
num_sems = 128

abbrev pub qty_regs : ℕ
qty_regs = 17

-- STDIN, STDOUT, STDERR and KBDIN
abbrev pub stdin : ℕ
stdin = 0

abbrev pub stdout : ℕ
stdout = 1

abbrev pub stderr : ℕ
stderr = 2

abbrev pub kbdin : ℕ
kbdin = 3

-- -1 as an answer of 64 bits, and as a byte.
abbrev pub minus_one : ℕ
minus_one = 2 ^ 64 - 1

abbrev pub eof : ℕ
eof = 255

-- `Color`
pub record Color : Type 0 where
  pub b : ℕ
  pub g : ℕ
  pub r : ℕ

abbrev pub error_color : Color
error_color = record { b = 0; g = 0; r = 255 }

-- The six registers of a call.
pub record Args : Type 0 where
  pub a0 : ℕ
  pub a1 : ℕ
  pub a2 : ℕ
  pub a3 : ℕ
  pub a4 : ℕ
  pub a5 : ℕ

-- `mem_t`
pub record MemInfo : Type 0 where
  pub size : ℕ
  pub used : ℕ
  pub free : ℕ

-- What `getTime` stores.
pub record Time : Type 0 where
  pub h : ℕ
  pub m : ℕ
  pub s : ℕ

-- The functions of the kernel's other files that syscalls.c calls. An answer is the pattern of 64
-- bits that the caller sees, but `get_fd` has the 16 bits that the caller keeps of it.
pub record Ops (S : Type 0) : Type 0 where
  -- scheduler.c and process.c
  pub get_fd : ℕ → M S ℕ
  pub create_process : ℕ → ℕ → ℕ → ℕ → ℕ → ℕ → M S ℕ
  pub get_pid : M S ℕ
  pub ps : ℕ → M S ℕ
  pub kill_process : ℕ → M S ℕ
  pub kill_current_process : M S ℕ
  pub change_priority : ℕ → ℕ → M S ℕ
  pub block_process : ℕ → M S ℕ
  pub set_ready_process : ℕ → M S ℕ
  pub yield_cpu : M S (Unit {0})
  pub wait_process : ℕ → M S ℕ
  -- pipes.c: `read_pipe` answers also the bytes that it puts into the buffer.
  pub create_pipe : M S ℕ
  pub read_pipe : ℕ → ℕ → M S (ℕ × List ℕ)
  pub write_pipe : ℕ → List ℕ → M S ℕ
  pub close_pipe : ℕ → M S ℕ
  -- semaphores.c
  pub sem_create : ℕ → ℕ → M S ℕ
  pub sem_open : ℕ → M S ℕ
  pub sem_wait : ℕ → M S ℕ
  pub sem_post : ℕ → M S ℕ
  pub sem_destroy : ℕ → M S ℕ
  -- keyboard.c
  pub get_ascii : M S ℕ
  pub get_scancode : M S ℕ
  -- video.c
  pub get_font_color : M S Color
  pub set_font_color : Color → M S (Unit {0})
  pub set_font_size : ℕ → M S (Unit {0})
  pub print_char : ℕ → M S (Unit {0})
  pub video_clear : M S (Unit {0})
  pub get_screen_resolution : M S ℕ
  -- time.c, memory.c and the memory manager
  pub get_time : M S Time
  pub ticks_elapsed : M S ℕ
  pub last_registers : M S (List ℕ)
  pub mm_alloc : ℕ → M S ℕ
  pub mm_free : ℕ → M S (Unit {0})
  pub mm_info : M S MemInfo
  -- the memory behind a pointer: bytes, and words of 64 bits
  pub load_bytes : ℕ → ℕ → M S (List ℕ)
  pub store_bytes : ℕ → List ℕ → M S (Unit {0})
  pub store_words : ℕ → List ℕ → M S (Unit {0})

-- realFd >= 3
abbrev pub is_pipe : ℕ → Bool
is_pipe fd = leb 3 fd && ltb fd (2 ^ 15)

-- bytesRead <= 0
abbrev pub no_bytes : ℕ → Bool
no_bytes n = (n == 0) || leb (2 ^ 63) n

-- id < 0 || id >= NUM_SEMS
abbrev pub no_sem : ℕ → Bool
no_sem id = leb (2 ^ 31) id || leb num_sems id

-- The byte in `buffer`; the code reads it only where one was put there.
abbrev pub first_byte : List ℕ → ℕ
first_byte [] = 0
first_byte (c ∷ cs) = c

abbrev pub local_hour : Time → ℕ
local_hour t = (t.h + 24 - 3) % 24

-- The first `n` of a list.
abbrev pub first : ℕ → List ℕ → List ℕ
first zero l = []
first (suc n) [] = []
first (suc n) (x ∷ l) = x ∷ first n l

module _ {S : Type 0} (ops : Ops S) where
  open ops use {
    get_fd, create_process, get_pid, ps, kill_process, kill_current_process, change_priority,
    block_process, set_ready_process, yield_cpu, wait_process, create_pipe, read_pipe, write_pipe,
    close_pipe, sem_create, sem_open, sem_wait, sem_post, sem_destroy, get_ascii, get_scancode,
    get_font_color, set_font_color, set_font_size, print_char, video_clear, get_screen_resolution,
    get_time, ticks_elapsed, last_registers, mm_alloc, mm_free, mm_info, load_bytes, store_bytes,
    store_words,
  }

  -- The answer of `syscall_read` for what `readPipe` gave.
  pub read_answer : ℕ × List ℕ → ℕ
  read_answer (n, bs) = if no_bytes n then eof else first_byte bs

  -- `syscall_read` behind `getFd`.
  pub read_from : ℕ → M S ℕ
  unfolding read_answer
  read_from fd =
      if is_pipe fd
      then (do r ← read_pipe fd 1; pure (read_answer r))
      else if fd == stdin
      then get_ascii
      else if fd == kbdin
      then get_scancode
      else pure 0

  -- `syscall_read`
  pub syscall_read : ℕ → M S ℕ
  unfolding read_from
  syscall_read fd = get_fd fd >>= read_from

  -- The end of `syscall_write`, for the screen.
  pub write_screen : ℕ → ℕ → M S (Unit {0})
  write_screen fd c = do
    prev ← get_font_color
    if fd == stderr
        then (set_font_color error_color >> (print_char c >> set_font_color prev))
        else if fd == stdout
        then (print_char c >> set_font_color prev)
        else done

  -- `syscall_write` behind `getFd`.
  pub write_to : ℕ → ℕ → M S (Unit {0})
  unfolding write_screen
  write_to c fd =
      if is_pipe fd
      then (write_pipe fd (c ∷ []) >> done)
      else if c == eof
      then done
      else write_screen fd c

  -- `syscall_write`
  pub syscall_write : ℕ → ℕ → M S (Unit {0})
  unfolding write_to
  syscall_write fd c = get_fd fd >>= write_to c

  -- `syscall_seconds`, an unsigned number of 32 bits.
  pub syscall_seconds : M S ℕ
  syscall_seconds = do t ← get_time; pure (t.s + t.m * 60 + local_hour t * 3600)

  -- `syscall_minutes`
  pub syscall_minutes : M S ℕ
  syscall_minutes = do t ← get_time; pure (t.m + local_hour t * 60)

  -- `syscall_hours`
  pub syscall_hours : M S ℕ
  syscall_hours = do t ← get_time; pure (local_hour t)

  -- `syscall_registerArray`
  pub syscall_register_array : ℕ → M S ℕ
  syscall_register_array regarr = do
    snapshot ← last_registers
    store_words regarr (first qty_regs snapshot) >> pure regarr

  -- `syscall_fontSize`: `size - 1` is an enumeration, so unsigned.
  pub syscall_font_size : ℕ → M S (Unit {0})
  syscall_font_size size = set_font_size ((size + 2 ^ 32 - 1) % 2 ^ 32)

  -- `syscall_getMemory`
  pub syscall_get_memory : ℕ → ℕ → M S (Unit {0})
  syscall_get_memory pos vec = load_bytes pos 32 >>= store_bytes vec

  -- `syscall_setFontColor`
  pub syscall_set_font_color : ℕ → ℕ → ℕ → M S (Unit {0})
  syscall_set_font_color r g b = set_font_color (record { b = b; g = g; r = r })

  -- `syscall_getFontColor`: the bytes of the color, the lowest first.
  pub syscall_get_font_color : M S ℕ
  syscall_get_font_color = do c ← get_font_color; pure (c.b + 2 ^ 8 * c.g + 2 ^ 16 * c.r)

  -- `syscall_mm_info`
  pub syscall_mm_info : ℕ → M S (Unit {0})
  syscall_mm_info info = do i ← mm_info; store_words info (i.size ∷ i.used ∷ i.free ∷ [])

  -- `syscall_exit`
  pub syscall_exit : M S (Unit {0})
  syscall_exit = do
    fd ← get_fd stdout
    when (is_pipe fd) (close_pipe fd >> yield_cpu) >> (kill_current_process >> yield_cpu)

  -- The test of the loop of `syscall_sleep`, in unsigned numbers of 32 bits.
  pub asleep : ℕ → ℕ → ℕ → Bool
  asleep s start now = ltb ((now + 86400 + 2 ^ 32 - start) % 2 ^ 32 % 86400) s

  -- The loop of `syscall_sleep`, for at most `fuel` calls of `yield`.
  pub sleep_loop : ℕ → ℕ → ℕ → M S (Unit {0})
  unfolding syscall_seconds asleep
  sleep_loop zero s start = fault
  sleep_loop (suc fuel) s start = do
    now ← syscall_seconds
    if asleep s start now then (yield_cpu >> sleep_loop fuel s start) else done

  -- `syscall_sleep`
  pub syscall_sleep : ℕ → ℕ → M S (Unit {0})
  unfolding syscall_seconds sleep_loop
  syscall_sleep fuel s = if s == 0 then done else syscall_seconds >>= sleep_loop fuel s

  -- The guard of the five calls on semaphores.
  pub guarded : ℕ → M S ℕ → M S ℕ
  guarded id call = if no_sem id then pure minus_one else call

  -- `syscall_sem_init`
  pub syscall_sem_init : ℕ → ℕ → M S ℕ
  unfolding guarded
  syscall_sem_init id value = guarded id (sem_create id value)

  -- `syscall_sem_open`
  pub syscall_sem_open : ℕ → M S ℕ
  unfolding guarded
  syscall_sem_open id = guarded id (sem_open id)

  -- `syscall_sem_wait`
  pub syscall_sem_wait : ℕ → M S ℕ
  unfolding guarded
  syscall_sem_wait id = guarded id (sem_wait id)

  -- `syscall_sem_post`
  pub syscall_sem_post : ℕ → M S ℕ
  unfolding guarded
  syscall_sem_post id = guarded id (sem_post id)

  -- `syscall_sem_close`
  pub syscall_sem_close : ℕ → M S ℕ
  unfolding guarded
  syscall_sem_close id = guarded id (sem_destroy id)

  -- `syscall_pipe_read`
  pub syscall_pipe_read : ℕ → ℕ → ℕ → M S ℕ
  syscall_pipe_read id buffer size = do (n, bs) ← read_pipe id size; store_bytes buffer bs >> pure n

  -- `syscall_pipe_write`
  pub syscall_pipe_write : ℕ → ℕ → ℕ → M S ℕ
  syscall_pipe_write id buffer size = load_bytes buffer size >>= write_pipe id

  -- A function that answers nothing leaves the register as it may: 0 here.
  abbrev pub void : M S (Unit {0}) → M S ℕ
  void m = m >> pure 0

  -- The table `syscalls`, each entry on the registers as its function's parameters narrow them.
  pub syscalls : ℕ → List (Args → M S ℕ)
  unfolding syscall_read syscall_write syscall_seconds syscall_minutes syscall_hours
      syscall_register_array syscall_font_size syscall_get_memory syscall_set_font_color
      syscall_get_font_color syscall_mm_info syscall_exit syscall_sleep syscall_sem_init
      syscall_sem_open syscall_sem_wait syscall_sem_post syscall_sem_close syscall_pipe_read
      syscall_pipe_write
  syscalls fuel =
      (λ r. syscall_read (r.a0 % 2 ^ 32))
      ∷ (λ r. void (syscall_write (r.a0 % 2 ^ 32) (r.a1 % 2 ^ 8)))
      ∷ (λ r. void video_clear)
      ∷ (λ r. syscall_seconds)
      ∷ (λ r. syscall_minutes)
      ∷ (λ r. syscall_hours)
      ∷ (λ r. syscall_register_array r.a0)
      ∷ (λ r. void (syscall_font_size (r.a0 % 2 ^ 8)))
      ∷ (λ r. get_screen_resolution)
      ∷ (λ r. ticks_elapsed)
      ∷ (λ r. void (syscall_get_memory r.a0 r.a1))
      ∷ (λ r. void (syscall_set_font_color (r.a0 % 2 ^ 8) (r.a1 % 2 ^ 8) (r.a2 % 2 ^ 8)))
      ∷ (λ r. syscall_get_font_color)
      ∷ (λ r. mm_alloc r.a0)
      ∷ (λ r. void (mm_free r.a0))
      ∷ (λ r. void (syscall_mm_info r.a0))
      ∷ (λ r. create_process r.a0 r.a1 (r.a2 % 2 ^ 32) (r.a3 % 2 ^ 8) r.a5 (r.a4 % 2 ^ 8))
      ∷ (λ r. get_pid)
      ∷ (λ r. ps r.a0)
      ∷ (λ r. kill_process (r.a0 % 2 ^ 16))
      ∷ (λ r. change_priority (r.a0 % 2 ^ 16) (r.a1 % 2 ^ 8))
      ∷ (λ r. block_process (r.a0 % 2 ^ 16))
      ∷ (λ r. set_ready_process (r.a0 % 2 ^ 16))
      ∷ (λ r. void yield_cpu)
      ∷ (λ r. wait_process (r.a0 % 2 ^ 16))
      ∷ (λ r. void syscall_exit)
      ∷ (λ r. void (syscall_sleep fuel (r.a0 % 2 ^ 32)))
      ∷ (λ r. syscall_sem_init (r.a0 % 2 ^ 32) (r.a1 % 2 ^ 32))
      ∷ (λ r. syscall_sem_open (r.a0 % 2 ^ 32))
      ∷ (λ r. syscall_sem_wait (r.a0 % 2 ^ 32))
      ∷ (λ r. syscall_sem_post (r.a0 % 2 ^ 32))
      ∷ (λ r. syscall_sem_close (r.a0 % 2 ^ 32))
      ∷ (λ r. create_pipe)
      ∷ (λ r. syscall_pipe_read (r.a0 % 2 ^ 32) r.a1 (r.a2 % 2 ^ 32))
      ∷ (λ r. syscall_pipe_write (r.a0 % 2 ^ 32) r.a1 (r.a2 % 2 ^ 32))
      ∷ (λ r. close_pipe (r.a0 % 2 ^ 32))
      ∷ []

  -- A call of an entry of the table.
  pub call_entry : Option (Args → M S ℕ) → Args → M S ℕ
  call_entry none r = fault
  call_entry (some f) r = f r

  -- `syscallDispatcher`
  pub dispatch : ℕ → ℕ → Args → M S ℕ
  unfolding call_entry syscalls
  dispatch fuel nr r =
      if leb syscall_count nr then pure minus_one else call_entry (get_elem? (syscalls fuel) nr) r
