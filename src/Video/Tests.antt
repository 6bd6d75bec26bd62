-- ===== src/Video/Tests.antt =====
-- video.c on a screen of two rows of two cells: tests, and the theorems at it.
use tp2_so_2c.Prelude.{
  arith, ◌≡◌, refl, ℕ, ◌+◌, [], ◌∷◌, ◌-◌, ◌^◌, ◌*◌, some, inl, length-replicate, replicate, codes,
}
use tp2_so_2c.SysCalls.{Ops, Color, stderr, error_color, syscall_write}
use tp2_so_2c.SysCalls.Sample.{idle_ops}
use tp2_so_2c.Video.{
  Video, black, put_char, make_room, remember, advance, draw_char, draw_rows, draw_columns,
  print_newline, scroll, max_resolution, print_char, set_font_color, step_back, fill,
}
use tp2_so_2c.Video.Cursor.{Placed, Placed-moved, print_char-Placed}
use tp2_so_2c.Video.Frame.{Keeps, print_char-Keeps}
use tp2_so_2c.Video.Printf.{printf}
use tp2_so_2c.Video.Screen.{OnVideo, syscall_write-draws}

abbrev white : Color
white = record { b = 255; g = 255; r = 255 }

-- A table in which every pixel of a character is set.
abbrev full : ℕ → ℕ → ℕ
full f i = 255

abbrev small : Video
small = record {
  width = 16;
  height = 32;
  x = 8;
  y = 16;
  font_color = white;
  char_width = 8;
  char_height = 16;
  font = 0;
  char_buffer = replicate max_resolution 0;
  buffer_idx = 3;
  pixels = λ i. black;
}

small-Placed : Placed small
small-Placed = record {
  narrow = omega arith;
  low = omega arith;
  is_font = inl (refl, refl);
  is_cell = (refl, refl, omega arith, omega arith);
  in_buffer = omega arith;
  sized = length-replicate {A = ℕ} max_resolution 0;
}

-- A backspace in the first cell leaves the screen.
backspace_at_origin : (step_back (record small { x = 0; y = 0 })).x ≡ 2 ^ 16 - 8
unfolding step_back
backspace_at_origin = refl

print_char-Placed_example : Placed (print_char full 65 small)
print_char-Placed_example =
    print_char-Placed full 65 small (λ e. absurd (ground arith)) small-Placed

print_char-Keeps_example : Keeps small (print_char full 65 small)
print_char-Keeps_example = print_char-Keeps full 65 small small-Placed

abbrev video_ops : Ops Video
video_ops = record idle_ops {
  get_fd = λ d s. some (d, s);
  get_font_color = λ s. some (s.font_color, s);
  set_font_color = λ c s. some (tt, set_font_color c s);
  print_char = λ c s. some (tt, print_char full c s);
}

on_video : OnVideo full video_ops (λ s. s) (λ v s. v)
on_video = record {
  video-put = λ v s. refl;
  get_law = λ s. refl;
  set_law = λ c s. refl;
  print_law = λ c s. refl;
}

-- The cursor in the first cell.
abbrev home : Video
home = record small { x = 0; y = 0 }

home-Placed : Placed home
home-Placed =
    Placed-moved small-Placed refl refl refl refl (refl, refl, omega arith, omega arith)
      small-Placed.in_buffer small-Placed.sized

-- An error is written in red.
syscall_write-draws_example :
    (s' : Video) × (syscall_write video_ops stderr 65 home ≡ some (tt, s'))
    × (s'.pixels (7 + 15 * 16) ≡ error_color)
    × (s'.font_color ≡ white)
syscall_write-draws_example =
    syscall_write-draws full video_ops (λ s. s) (λ v s. v) stderr stderr 65 7 15 error_color home
      on_video refl refl home-Placed (omega arith) (omega arith) (omega arith) (omega arith)
      (omega arith)

-- A character in the first cell is white there, and the next cell stays black.
abbrev first_cell : Video
first_cell = record small { x = 0; y = 0; char_buffer = 0 ∷ []; buffer_idx = 0 }

drawn_inside : (print_char full 65 first_cell).pixels (7 + 15 * 16) ≡ white
unfolding print_char put_char make_room remember advance draw_char draw_rows draw_columns fill
    print_newline
drawn_inside = refl

drawn_beside : (print_char full 65 first_cell).pixels (8 + 15 * 16) ≡ black
unfolding print_char put_char make_room remember advance draw_char draw_rows draw_columns fill
    print_newline
drawn_beside = refl

-- The last cell of the screen is scrolled up by a row when a character has been put into it.
drawn_scrolled : (print_char full 65 small).pixels (8 + 0 * 16) ≡ white
unfolding print_char put_char make_room remember advance draw_char draw_rows draw_columns fill
    print_newline scroll
drawn_scrolled = refl

-- A format without a directive is printed.
printf_plain : printf full (codes "A") [] small ≡ some (tt, print_char full 65 small)
unfolding printf
printf_plain = refl
