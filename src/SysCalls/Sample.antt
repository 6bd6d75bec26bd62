-- ===== src/SysCalls/Sample.antt =====
-- The kernel's functions at concrete data: each answers 0 and changes nothing.
use tp2_so_2c.Prelude.{[]}
use tp2_so_2c.Effects.{pure, done}
use tp2_so_2c.SysCalls.{Ops}

abbrev pub idle_ops : {S : Type 0} → Ops S
idle_ops = record {
  get_fd = λ d. pure 0;
  create_process = λ rip args argc priority fds ground. pure 0;
  get_pid = pure 0;
  ps = λ p. pure 0;
  kill_process = λ p. pure 0;
  kill_current_process = pure 0;
  change_priority = λ p q. pure 0;
  block_process = λ p. pure 0;
  set_ready_process = λ p. pure 0;
  yield_cpu = done;
  wait_process = λ p. pure 0;
  create_pipe = pure 0;
  read_pipe = λ id n. pure (0, []);
  write_pipe = λ id bs. pure 0;
  close_pipe = λ id. pure 0;
  sem_create = λ id n. pure 0;
  sem_open = λ id. pure 0;
  sem_wait = λ id. pure 0;
  sem_post = λ id. pure 0;
  sem_destroy = λ id. pure 0;
  get_ascii = pure 0;
  get_scancode = pure 0;
  get_font_color = pure (record { b = 0; g = 0; r = 0 });
  set_font_color = λ c. done;
  set_font_size = λ n. done;
  print_char = λ c. done;
  video_clear = done;
  get_screen_resolution = pure 0;
  get_time = pure (record { h = 0; m = 0; s = 0 });
  ticks_elapsed = pure 0;
  last_registers = pure [];
  mm_alloc = λ n. pure 0;
  mm_free = λ p. done;
  mm_info = pure (record { size = 0; used = 0; free = 0 });
  load_bytes = λ p n. pure [];
  store_bytes = λ p bs. done;
  store_words = λ p ws. done;
}
