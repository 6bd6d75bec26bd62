-- ===== src/Video/Screen.antt =====
-- Kernel/utils/drivers/video.c under Kernel/syscalls.c: the driver does what the system calls ask of it.
use tp2_so_2c.Prelude.{
  ◌≡◌, refl, ap, ◌∙◌, ℕ, ◌+◌, ◌%◌, ◌^◌, ◌&&◌, Option, none, some, ◌≤◌, ◌<◌, ◌-◌, ◌/◌, false,
  if◌then◌else◌, arith, [], ◌∷◌, ltb, leb, ◌==◌, Bool-cases, inl, inr, ◌*◌,
}
use tp2_so_2c.Text.{Chars}
use tp2_so_2c.SysCalls.{Ops, Color, stdout, stderr, error_color, is_pipe, syscall_write}
use tp2_so_2c.Video.Cursor.{Placed, Placed-moved}
use tp2_so_2c.Video.Glyphs.{font_bit}
use tp2_so_2c.Video.Cells.{drawn_cell, print_char-draws}
use tp2_so_2c.SysCalls.Files.{Screen, Shows, syscall_write-shows}
use tp2_so_2c.Video.{
  Video, black, max_resolution, msg_buffer_exceeded, last_column, draw_char, draw_rect, video_clear,
  print_newline, step_back, backspace, advance, remember, put_char, put_text, make_room, print_char,
  set_font_color, first_char, last_char,
}

print_newline-color : (v : Video) → (print_newline v).font_color ≡ v.font_color
unfolding print_newline
print_newline-color v = elim (Bool-cases (leb (v.y + 2 * v.char_height) v.height)) [
  | inl e ↦ rw e refl
  | inr e ↦ rw e refl
]

advance-color : (v : Video) → (advance v).font_color ≡ v.font_color
unfolding advance
advance-color v = elim (Bool-cases (ltb (last_column v) ((v.x + v.char_width) % 2 ^ 16))) [
  | inl e ↦ rw e (print_newline-color (record v { x = (v.x + v.char_width) % 2 ^ 16 }))
  | inr e ↦ rw e refl
]

step_back-color : (v : Video) → (step_back v).font_color ≡ v.font_color
unfolding step_back
step_back-color v = elim (Bool-cases (ltb v.x v.char_width && ltb 0 v.y)) [
  | inl e ↦ rw e refl
  | inr e ↦ rw e refl
]

draw_rect-color :
    (x y w h : ℕ) (c : Color) (v : Video) → (draw_rect x y w h c v).font_color ≡ v.font_color
unfolding draw_rect
draw_rect-color x y w h c v = elim (Bool-cases (ltb x v.width && ltb y v.height)) [
  | inl e ↦ rw e refl
  | inr e ↦ rw e refl
]

module _ (fonts : ℕ → ℕ → ℕ) where
  put_char-color : (c : ℕ) (v : Video) → (put_char fonts c v).font_color ≡ v.font_color
  unfolding put_char remember
  put_char-color c v = elim (Bool-cases (c == 10)) [
    | inl e ↦ rw e (print_newline-color (remember c v))
    | inr e ↦
        rw e (advance-color (record (remember c v) { pixels = draw_char fonts c (remember c v) }))
  ]

  put_text-color : (t : Chars) (v : Video) → (put_text fonts t v).font_color ≡ v.font_color
  unfolding put_text
  put_text-color [] v = refl
  put_text-color (c ∷ cs) v = put_text-color cs (put_char fonts c v) ∙ put_char-color c v

  make_room-color : (v : Video) → (make_room fonts v).font_color ≡ v.font_color
  unfolding make_room video_clear
  make_room-color v = elim (Bool-cases (v.buffer_idx == max_resolution)) [
    | inl e ↦ rw e (put_text-color msg_buffer_exceeded (video_clear v))
    | inr e ↦ rw e refl
  ]

  print_char-color : (c : ℕ) (v : Video) → (print_char fonts c v).font_color ≡ v.font_color
  unfolding print_char backspace
  print_char-color c v = elim (Bool-cases (c == 8)) [
    | inl e ↦
        let s = step_back v in
        rw e (draw_rect-color s.x s.y s.char_width s.char_height black s ∙ step_back-color v)
    | inr e ↦ rw e (put_char-color c (make_room fonts v) ∙ make_room-color v)
  ]

  -- The kernel's calls for the screen are the functions of video.c on a part of the state.
  pub record OnVideo {S : Type 0} (ops : Ops S) (video : S → Video) (put : Video → S → S)
      : Type 0 where
    pub video-put : (v : Video) (s : S) → video (put v s) ≡ v
    pub get_law : (s : S) → ops.get_font_color s ≡ some ((video s).font_color, s)
    pub set_law :
        (c : Color) (s : S) → ops.set_font_color c s ≡ some (tt, put (set_font_color c (video s)) s)
    pub print_law :
        (c : ℕ) (s : S) → ops.print_char c s ≡ some (tt, put (print_char fonts c (video s)) s)

  -- What a screen of video.c shows: all of it but the color of the next character.
  abbrev pub screen_of : {S : Type 0} → (S → Video) → Screen S Video
  screen_of video = record {
    shows = λ s. record (video s) { font_color = black };
    color = λ s. (video s).font_color;
    printed =
        λ c k t. record (print_char fonts c (record t { font_color = k })) { font_color = black };
  }

  -- The color that is read is the one that was set last; setting it changes nothing else; and `printChar`
  -- leaves the color as it was, also where the screen is cleared because the buffer is full.
  pub video-Shows :
      {S : Type 0} (ops : Ops S) (video : S → Video) (put : Video → S → S)
      → OnVideo ops video put
      → Shows ops (screen_of video)
  unfolding set_font_color
  video-Shows ops video put on = record {
    get_law = on.get_law;
    set_law = λ c s. (
      put (set_font_color c (video s)) s,
      on.set_law c s,
      ap (λ (v : Video). record v { font_color = black })
          (on.video-put (set_font_color c (video s)) s),
      ap (λ (v : Video). v.font_color) (on.video-put (set_font_color c (video s)) s),
    );
    print_law = λ c s. (
      put (print_char fonts c (video s)) s,
      on.print_law c s,
      ap (λ (v : Video). record v { font_color = black })
          (on.video-put (print_char fonts c (video s)) s),
      ap (λ (v : Video). v.font_color) (on.video-put (print_char fonts c (video s)) s)
          ∙ print_char-color c (video s),
    );
  }

  -- The color of a character that is written to a descriptor of the screen.
  abbrev pub descriptor_color : ℕ → Color → Option Color
  descriptor_color fd c =
      if fd == stderr then some error_color else if fd == stdout then some c else none

  descriptor_pipe :
      (fd : ℕ) (c color : Color) → descriptor_color fd c ≡ some color → is_pipe fd ≡ false
  descriptor_pipe fd c color chosen = elim (Bool-cases (fd == stderr)) [
    | inl e ↦ ground arith
    | inr e ↦ elim (Bool-cases (fd == stdout)) [
      | inl f ↦ ground arith
      | inr f ↦ let no : none ≡ some color = rw (e, f) at chosen in absurd (cc)
    ]
  ]

  -- A visible byte that is written to a screen descriptor appears in the cell at the cursor, where the
  -- kernel's calls for the screen are those of video.c, the cursor is not in the last row of cells and
  -- `_charBuffer` is not full: a pixel of the screen gets the color of the descriptor, red for the
  -- standard error and the font's color for the standard output, where it lies in the cell and its
  -- bit in the bitmap of the character is set, the bits row by row, the lowest of each byte first.
  -- Every other pixel of the screen stays, and so does the color of the font.
  pub syscall_write-draws :
      {S : Type 0} (ops : Ops S) (video : S → Video) (put : Video → S → S) (d fd c k l : ℕ)
      (color : Color) (s : S)
      → OnVideo ops video put
      → ops.get_fd d s ≡ some (fd, s)
      → descriptor_color fd (video s).font_color ≡ some color
      → Placed (video s)
      → first_char ≤ c
      → c ≤ last_char
      → (video s).buffer_idx < max_resolution
      → (video s).y + 2 * (video s).char_height ≤ (video s).height
      → k < (video s).width
      → (s' : S) × (syscall_write ops d c s ≡ some (tt, s'))
        × ((video s').pixels (k + l * (video s).width)
            ≡ drawn_cell
                (font_bit fonts
                  (video s).font
                  ((video s).char_height * (video s).char_width * (c - first_char) / 8))
                (video s).char_width
                (video s).char_height
                (video s).x
                (video s).y
                0
                color
                ((video s).pixels (k + l * (video s).width))
                k
                l)
        × ((video s').font_color ≡ (video s).font_color)
  syscall_write-draws ops video put d fd c k l color s on e chosen p low high room rows inside =
      let seen : (c == 255) ≡ false = ground arith in
      let after = record (video s) { font_color = color } in
      let placed : Placed after =
        Placed-moved p refl refl refl refl p.is_cell p.in_buffer p.sized in
      let q = k + l * (video s).width in
      let (s', run, shown, same) =
        syscall_write-shows ops (screen_of video) (video-Shows ops video put on) d fd c s e
          (descriptor_pipe fd (video s).font_color color chosen) in
      let printed : (video s').pixels q ≡ (print_char fonts c after).pixels q =
        ap (λ (t : Video). t.pixels q) shown ∙ rw (chosen, seen) refl in
      (s', run, printed ∙ print_char-draws fonts c k l after placed low high room rows inside, same)
