-- ===== src/Video.antt =====
-- Kernel/utils/drivers/video.c: characters on a screen of pixels.
-- A pixel is addressed by its number, from the left end of the highest row on; it has the three bytes
-- of a `Color`. The pixels behind the screen are the memory behind the frame buffer. `fonts` are the
-- bytes of the three tables of include/font.h. memset and memcpy are those of lib.c, here by what they
-- do to each pixel. Coordinates are numbers of 16 bits.
pub mod Cursor
pub mod Frame
pub mod Glyphs
pub mod Cells
pub mod Printf
pub mod Screen
mod Tests
use tp2_so_2c.Prelude.{
  ℕ, zero, suc, ◌+◌, ◌-◌, ◌*◌, ◌/◌, ◌%◌, ◌^◌, Bool, true, false, ◌&&◌, ◌||◌, not, Option, none,
  some, List, [], ◌∷◌, ltb, leb, ◌==◌, if◌then◌else◌, set, codes, replicate,
}
use tp2_so_2c.Text.{Chars}
use tp2_so_2c.SysCalls.{Color}

-- MAX_RESOLUTION
abbrev pub max_resolution : ℕ
max_resolution = 64 * 128

abbrev pub first_char : ℕ
first_char = 33

abbrev pub last_char : ℕ
last_char = 126

abbrev pub black : Color
black = record { b = 0; g = 0; r = 0 }

-- MSG_BUFFER_EXCEEDED
abbrev pub msg_buffer_exceeded : Chars
msg_buffer_exceeded = codes "Buffer de video excedido, la pantalla ha sido limpiada\n"

-- The width and the height of `_screenData`, and the static variables of video.c.
pub record Video : Type 0 where
  pub width : ℕ
  pub height : ℕ
  pub x : ℕ
  pub y : ℕ
  pub font_color : Color
  pub char_width : ℕ
  pub char_height : ℕ
  pub font : ℕ
  pub char_buffer : List ℕ
  pub buffer_idx : ℕ
  pub pixels : ℕ → Color

-- `getPtrToPixel`
abbrev pub get_ptr_to_pixel : Video → ℕ → ℕ → ℕ
get_ptr_to_pixel v x y = x + y * v.width

-- The `n` pixels from `start` on get the color.
unfoldable pub fill : ℕ → ℕ → Color → (ℕ → Color) → ℕ → Color
fill start n c p i = if leb start i && ltb i (start + n) then c else p i

-- `videoClear`
unfoldable pub video_clear : Video → Video
unfolding fill
video_clear v = record v {
  pixels = fill 0 (v.width * v.height) black v.pixels;
  x = 0;
  y = 0;
  buffer_idx = 0;
}

-- `coordinatesValid`
abbrev pub coordinates_valid : Video → ℕ → ℕ → Bool
coordinates_valid v x y = ltb x v.width && ltb y v.height

-- The loops of `drawRect`: `n` rows of `w` pixels, from `ptr` on.
unfoldable pub rect_rows : ℕ → ℕ → ℕ → ℕ → Color → (ℕ → Color) → ℕ → Color
unfolding fill
rect_rows zero ptr w line_diff c p = p
rect_rows (suc n) ptr w line_diff c p =
    rect_rows n (ptr + w + line_diff) w line_diff c (fill ptr w c p)

abbrev pub at_most : ℕ → ℕ → ℕ
at_most bound n = if ltb bound n then bound else n

-- `drawRect`
unfoldable pub draw_rect : ℕ → ℕ → ℕ → ℕ → Color → Video → Video
unfolding rect_rows
draw_rect x y width height c v =
    let w = at_most (v.width - x) width in
    let h = at_most (v.height - y) height in
    if coordinates_valid v x y
    then record v { pixels = rect_rows h (get_ptr_to_pixel v x y) w (v.width - w) c v.pixels }
    else v

-- `setPosition`
pub set_position : ℕ → ℕ → Video → Video
set_position x y v =
    let max_x = (v.width + 2 ^ 16 - v.char_width) % 2 ^ 16 in
    let max_y = (v.height + 2 ^ 16 - v.char_height) % 2 ^ 16 in
    record v { x = if ltb x max_x then x else max_x; y = if ltb y max_y then y else max_y }

-- `setFontColor`
unfoldable pub set_font_color : Color → Video → Video
set_font_color c v = record v { font_color = c }

-- The pixels when the rows below the first `rows` have moved up by so many, and the last are black.
unfoldable pub scroll : ℕ → ℕ → ℕ → (ℕ → Color) → ℕ → Color
unfolding fill
scroll width height rows p =
    let moved = λ (i : ℕ). if ltb i (width * (height - rows)) then p (i + rows * width) else p i in
    fill ((height - rows) * width) (width * rows) black moved

-- `printNewline`
unfoldable pub print_newline : Video → Video
unfolding scroll
print_newline v =
    if leb (v.y + 2 * v.char_height) v.height
    then record v { x = 0; y = (v.y + v.char_height) % 2 ^ 16 }
    else record v { x = 0; pixels = scroll v.width v.height v.char_height v.pixels }

-- The place of a backspace, before the cell is drawn black.
unfoldable pub step_back : Video → Video
step_back v =
    if ltb v.x v.char_width && ltb 0 v.y
    then record v {
      y = (v.y + 2 ^ 16 - v.char_height) % 2 ^ 16;
      x = (v.width / v.char_width * v.char_width + 2 ^ 16 - v.char_width) % 2 ^ 16;
    }
    else record v { x = (v.x + 2 ^ 16 - v.char_width) % 2 ^ 16 }

-- `printChar` of a backspace.
unfoldable pub backspace : Video → Video
unfolding step_back draw_rect
backspace v =
    let moved = step_back v in
    let drawn = draw_rect moved.x moved.y moved.char_width moved.char_height black moved in
    record drawn { buffer_idx = (v.buffer_idx + 2 ^ 16 - 1) % 2 ^ 16 }

-- (_screenData->width / _charWidth) * _charWidth - _charWidth
abbrev pub last_column : Video → ℕ
last_column v = v.width / v.char_width * v.char_width - v.char_width

-- The cursor behind a character.
unfoldable pub advance : Video → Video
unfolding print_newline
advance v =
    let moved = record v { x = (v.x + v.char_width) % 2 ^ 16 } in
    if ltb (last_column v) ((v.x + v.char_width) % 2 ^ 16) then print_newline moved else moved

-- The character in `_charBuffer`.
unfoldable pub remember : ℕ → Video → Video
remember c v = record v {
  char_buffer = set v.char_buffer v.buffer_idx c;
  buffer_idx = (v.buffer_idx + 1) % 2 ^ 16;
}

module _ (fonts : ℕ → ℕ → ℕ) where
  -- *data & mask, for a mask of one bit.
  abbrev pub bit_set : ℕ → ℕ → Bool
  bit_set byte mask = byte / mask % 2 == 1

  -- The columns of a row of a character, and the place in the table behind it: `n` pixels from `ptr` on.
  unfoldable pub draw_columns : ℕ → ℕ → ℕ → ℕ → ℕ → Color → (ℕ → Color) → (ℕ → Color) × ℕ
  unfolding fill
  draw_columns font zero ptr place mask c p = (p, place)
  draw_columns font (suc n) ptr place mask c p =
      draw_columns font n (ptr + 1) (if leb 128 mask then place + 1 else place)
        (if leb 128 mask then 1 else mask * 2) c
        (if bit_set (fonts font place) mask then fill ptr 1 c p else p)

  -- The rows of a character: `n` rows from the row `y` on.
  unfoldable pub draw_rows : Video → ℕ → ℕ → ℕ → (ℕ → Color) → ℕ → Color
  unfolding draw_columns
  draw_rows v zero y place p = p
  draw_rows v (suc n) y place p =
      let (drawn, behind) =
        draw_columns v.font v.char_width (get_ptr_to_pixel v v.x y) place 1 v.font_color p in
      draw_rows v n ((y + 1) % 2 ^ 16) behind drawn

  -- The pixels with the character at the cursor, if it is one that can be seen.
  unfoldable pub draw_char : ℕ → Video → ℕ → Color
  unfolding draw_rows
  draw_char c v =
      if leb first_char c && leb c last_char
      then draw_rows v v.char_height v.y (v.char_height * v.char_width * (c - first_char) / 8)
          v.pixels
      else v.pixels

  -- `printChar` for a character other than a backspace, where `_charBuffer` has room.
  unfoldable pub put_char : ℕ → Video → Video
  unfolding advance remember draw_char print_newline
  put_char c v =
      let kept = remember c v in
      if c == 10 then print_newline kept else advance (record kept { pixels = draw_char c kept })

  -- `print` of a text that has no backspace, where `_charBuffer` has room for it.
  unfoldable pub put_text : Chars → Video → Video
  unfolding put_char
  put_text [] v = v
  put_text (c ∷ cs) v = put_text cs (put_char c v)

  -- The screen with room in `_charBuffer`: cleared, with the message, where it is full.
  unfoldable pub make_room : Video → Video
  unfolding put_text video_clear
  make_room v =
      if v.buffer_idx == max_resolution then put_text msg_buffer_exceeded (video_clear v) else v

  -- `printChar`
  unfoldable pub print_char : ℕ → Video → Video
  unfolding backspace make_room put_char
  print_char c v = if c == 8 then backspace v else put_char c (make_room v)

  -- `print`
  unfoldable pub print : Chars → Video → Video
  unfolding print_char
  print [] v = v
  print (c ∷ cs) v = let rest = print cs (print_char c v) in if c == 0 then v else rest

  -- `printN`
  unfoldable pub print_n : Chars → ℕ → Video → Video
  unfolding print_char
  print_n s zero v = v
  print_n [] (suc n) v = v
  print_n (c ∷ cs) (suc n) v =
      let rest = print_n cs n (print_char c v) in if c == 0 then v else rest

  -- `printNChars`
  unfoldable pub print_n_chars : ℕ → ℕ → Video → Video
  unfolding print_char
  print_n_chars c zero v = v
  print_n_chars c (suc n) v = print_n_chars c n (print_char c v)

  -- `renderFonts`: the characters are read and written again at the same places.
  unfoldable pub render_fonts : Video → Video
  unfolding video_clear print_n
  render_fonts v = print_n v.char_buffer v.buffer_idx (video_clear v)

  -- `charWidths` and `charHeights`
  abbrev pub char_width_of : ℕ → ℕ
  char_width_of f = 8 * (f + 1)

  abbrev pub char_height_of : ℕ → ℕ
  char_height_of f = 16 * (f + 1)

  -- `setFontSize`
  unfoldable pub set_font_size : ℕ → Video → Video
  unfolding render_fonts
  set_font_size f v =
      if leb f 2
      then render_fonts
          (record v { font = f; char_width = char_width_of f; char_height = char_height_of f })
      else v

-- `getScreenResolution`
pub get_screen_resolution : Video → ℕ
get_screen_resolution v = v.width + v.height * 2 ^ 16
