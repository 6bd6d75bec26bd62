-- ===== src/Video/Cursor.antt =====
-- Kernel/utils/drivers/video.c: the cell of the next character lies on the screen.
use tp2_so_2c.Prelude.{
  arith, ◌≡◌, refl, ◌∙◌, ℕ, ◌+◌, ◌-◌, ◌*◌, ◌/◌, ◌%◌, ◌^◌, ◌≤◌, ◌<◌, true, false, ◌&&◌, [], ◌∷◌, ltb,
  leb, ◌==◌, if◌then◌else◌, Bool-cases, inl, inr, ◌⊎◌, length, length-set,
}
use tp2_so_2c.Text.{Chars}
use tp2_so_2c.SysCalls.{Color}
use tp2_so_2c.Video.{
  Video, black, max_resolution, video_clear, draw_rect, print_newline, step_back, backspace,
  last_column, advance, remember, draw_char, put_char, put_text, make_room, print_char,
  msg_buffer_exceeded,
}

-- The width and the height of a character of one of the three fonts.
abbrev pub IsFont : ℕ → ℕ → Type 0
IsFont w h = ((w ≡ 8) × (h ≡ 16)) ⊎ (((w ≡ 16) × (h ≡ 32)) ⊎ ((w ≡ 24) × (h ≡ 48)))

-- A cell on the screen that is a column and a row of cells.
abbrev pub IsCell : ℕ → ℕ → ℕ → ℕ → ℕ → ℕ → Type 0
IsCell width height w h x y = (x % w ≡ 0) × (y % h ≡ 0) × (x + w ≤ width) × (y + h ≤ height)

-- The screen has a font, room for a cell, the cursor on a cell, and an index into the buffer that is not
-- behind its end.
pub record Placed (v : Video) : Type 0 where
  pub narrow : v.width < 2 ^ 16
  pub low : v.height < 2 ^ 16
  pub is_font : IsFont v.char_width v.char_height
  pub is_cell : IsCell v.width v.height v.char_width v.char_height v.x v.y
  pub in_buffer : v.buffer_idx ≤ max_resolution
  pub sized : length v.char_buffer ≡ max_resolution

-- What holds for the sizes of the three fonts holds for every font.
on_fonts : (P : ℕ → ℕ → Type 0) (w h : ℕ) → IsFont w h → P 8 16 → P 16 32 → P 24 48 → P w h
on_fonts P w h (inl (a, b)) p q r = rw (a, b) p
on_fonts P w h (inr (inl (a, b))) p q r = rw (a, b) q
on_fonts P w h (inr (inr (a, b))) p q r = rw (a, b) r

-- A newline leads to the first cell of the next row, or of the same row, if it is the last.
abbrev Newline : ℕ → ℕ → Type 0
Newline w h =
    (width height x y : ℕ)
    → height < 2 ^ 16
    → IsCell width height w h x y
    → IsCell width height w h 0 (if leb (y + 2 * h) height then (y + h) % 2 ^ 16 else y)

Newline-IsCell : (w h : ℕ) → IsFont w h → Newline w h
Newline-IsCell w h font =
    on_fonts Newline w h font (λ width height x y low c. ground arith)
      (λ width height x y low c. ground arith) (λ width height x y low c. ground arith)

-- The next cell of a row, where the column is not the last.
abbrev Next : ℕ → ℕ → Type 0
Next w h =
    (width height x y : ℕ)
    → width < 2 ^ 16
    → IsCell width height w h x y
    → ltb (width / w * w - w) ((x + w) % 2 ^ 16) ≡ false
    → IsCell width height w h ((x + w) % 2 ^ 16) y

Next-IsCell : (w h : ℕ) → IsFont w h → Next w h
Next-IsCell w h font =
    on_fonts Next w h font (λ width height x y narrow c e. ground arith)
      (λ width height x y narrow c e. ground arith) (λ width height x y narrow c e. ground arith)

-- The cell before one that is not the first of the screen.
abbrev Back : ℕ → ℕ → Type 0
Back w h =
    (width height x y : ℕ)
    → width < 2 ^ 16
    → height < 2 ^ 16
    → IsCell width height w h x y
    → 0 < x + y
    → ((ltb x w && ltb 0 y) ≡ true
        → IsCell width height w h ((width / w * w + 2 ^ 16 - w) % 2 ^ 16)
            ((y + 2 ^ 16 - h) % 2 ^ 16))
      × ((ltb x w && ltb 0 y) ≡ false → IsCell width height w h ((x + 2 ^ 16 - w) % 2 ^ 16) y)

Back-IsCell : (w h : ℕ) → IsFont w h → Back w h
Back-IsCell w h font =
    on_fonts Back w h font
      (λ width height x y narrow low c pos. (λ e. ground arith, λ e. ground arith))
      (λ width height x y narrow low c pos. (λ e. ground arith, λ e. ground arith))
      (λ width height x y narrow low c pos. (λ e. ground arith, λ e. ground arith))

-- A screen of the same size and font is placed where its cursor is on a cell.
pub Placed-moved :
    {v v' : Video}
    → Placed v
    → v'.width ≡ v.width
    → v'.height ≡ v.height
    → v'.char_width ≡ v.char_width
    → v'.char_height ≡ v.char_height
    → IsCell v.width v.height v.char_width v.char_height v'.x v'.y
    → v'.buffer_idx ≤ max_resolution
    → length v'.char_buffer ≡ max_resolution
    → Placed v'
Placed-moved p a b c d cell idx sized = record {
  narrow = rw a p.narrow;
  low = rw b p.low;
  is_font = rw (c, d) p.is_font;
  is_cell = rw (a, b, c, d) cell;
  in_buffer = idx;
  sized = sized;
}

-- The column of the cursor does not matter to a newline.
print_newline-far : (v : Video) (x : ℕ) → Placed v → Placed (print_newline (record v { x = x }))
unfolding print_newline
print_newline-far v x p =
    let cell =
      Newline-IsCell v.char_width v.char_height p.is_font v.width v.height v.x v.y p.low
        p.is_cell in
    elim (Bool-cases (leb (v.y + 2 * v.char_height) v.height)) [
      | inl e ↦ rw e (Placed-moved p refl refl refl refl (rw e at cell) p.in_buffer p.sized)
      | inr e ↦ rw e (Placed-moved p refl refl refl refl (rw e at cell) p.in_buffer p.sized)
    ]

pub print_newline-Placed : (v : Video) → Placed v → Placed (print_newline v)
print_newline-Placed v p = print_newline-far v v.x p

pub advance-Placed : (v : Video) → Placed v → Placed (advance v)
unfolding advance
advance-Placed v p = elim (Bool-cases (ltb (last_column v) ((v.x + v.char_width) % 2 ^ 16))) [
  | inl e ↦ rw e (print_newline-far v ((v.x + v.char_width) % 2 ^ 16) p)
  | inr e ↦ rw e (
      Placed-moved p refl refl refl refl
        (Next-IsCell v.char_width v.char_height p.is_font v.width v.height v.x v.y p.narrow
          p.is_cell e)
        p.in_buffer p.sized)
]

pub remember-Placed :
    (c : ℕ) (v : Video) → Placed v → v.buffer_idx < max_resolution → Placed (remember c v)
unfolding remember
remember-Placed c v p room =
    Placed-moved p refl refl refl refl p.is_cell (omega arith)
      (length-set v.char_buffer v.buffer_idx c ∙ p.sized)

newline-idx : (v : Video) → (print_newline v).buffer_idx ≡ v.buffer_idx
unfolding print_newline
newline-idx v = elim (Bool-cases (leb (v.y + 2 * v.char_height) v.height)) [
  | inl e ↦ rw e refl
  | inr e ↦ rw e refl
]

advance-idx : (v : Video) → (advance v).buffer_idx ≡ v.buffer_idx
unfolding advance
advance-idx v = elim (Bool-cases (ltb (last_column v) ((v.x + v.char_width) % 2 ^ 16))) [
  | inl e ↦ rw e (newline-idx (record v { x = (v.x + v.char_width) % 2 ^ 16 }))
  | inr e ↦ rw e refl
]

abbrev Zero : ℕ → ℕ → Type 0
Zero w h = (0 % w ≡ 0) × (0 % h ≡ 0)

Zero-cell : (w h : ℕ) → IsFont w h → Zero w h
Zero-cell w h font = on_fonts Zero w h font (refl, refl) (refl, refl) (refl, refl)

pub video_clear-idx : (v : Video) → (video_clear v).buffer_idx ≡ 0
unfolding video_clear
video_clear-idx v = refl

pub video_clear-Placed : (v : Video) → Placed v → Placed (video_clear v)
unfolding video_clear
video_clear-Placed v p =
    let (_, _, wide, high) = p.is_cell in
    let (col, row) = Zero-cell v.char_width v.char_height p.is_font in
    Placed-moved p refl refl refl refl (col, row, omega arith, omega arith) (omega arith) p.sized

-- Drawing a rectangle changes pixels only.
pub draw_rect-Placed :
    (x y w h : ℕ) (c : Color) (v : Video) → Placed v → Placed (draw_rect x y w h c v)
unfolding draw_rect
draw_rect-Placed x y w h c v p = elim (Bool-cases (ltb x v.width && ltb y v.height)) [
  | inl e ↦ rw e (Placed-moved p refl refl refl refl p.is_cell p.in_buffer p.sized)
  | inr e ↦ rw e p
]

pub step_back-Placed : (v : Video) → Placed v → 0 < v.x + v.y → Placed (step_back v)
unfolding step_back
step_back-Placed v p pos =
    let (high, low) =
      Back-IsCell v.char_width v.char_height p.is_font v.width v.height v.x v.y p.narrow p.low
        p.is_cell pos in
    elim (Bool-cases (ltb v.x v.char_width && ltb 0 v.y)) [
      | inl e ↦ rw e (Placed-moved p refl refl refl refl (high e) p.in_buffer p.sized)
      | inr e ↦ rw e (Placed-moved p refl refl refl refl (low e) p.in_buffer p.sized)
    ]

backspace-Placed : (v : Video) → Placed v → 0 < v.x + v.y → 0 < v.buffer_idx → Placed (backspace v)
unfolding backspace
backspace-Placed v p pos several =
    let s = step_back v in
    let drawn =
      draw_rect-Placed s.x s.y s.char_width s.char_height black s (step_back-Placed v p pos) in
    Placed-moved drawn refl refl refl refl drawn.is_cell (omega (arith, p.in_buffer)) drawn.sized

module _ (fonts : ℕ → ℕ → ℕ) where
  pub put_char-Placed :
      (c : ℕ) (v : Video) → Placed v → v.buffer_idx < max_resolution → Placed (put_char fonts c v)
  unfolding put_char
  put_char-Placed c v p room =
      let kept = remember-Placed c v p room in
      elim (Bool-cases (c == 10)) [
        | inl e ↦ rw e (print_newline-Placed (remember c v) kept)
        | inr e ↦ rw e (
            advance-Placed (record (remember c v) { pixels = draw_char fonts c (remember c v) })
              (Placed-moved kept refl refl refl refl kept.is_cell kept.in_buffer kept.sized))
      ]

  pub put_char-idx :
      (c : ℕ) (v : Video) → (put_char fonts c v).buffer_idx ≡ (v.buffer_idx + 1) % 2 ^ 16
  unfolding put_char remember advance print_newline
  put_char-idx c v = elim (Bool-cases (c == 10)) [
    | inl e ↦ rw e (newline-idx (remember c v))
    | inr e ↦
        rw e (advance-idx (record (remember c v) { pixels = draw_char fonts c (remember c v) }))
  ]

  pub put_text-Placed :
      (t : Chars) (v : Video)
      → Placed v
      → v.buffer_idx + length t ≤ max_resolution
      → Placed (put_text fonts t v) × ((put_text fonts t v).buffer_idx ≡ v.buffer_idx + length t)
  unfolding put_text
  put_text-Placed [] v p room = (p, omega arith)
  put_text-Placed (c ∷ cs) v p room =
      let step : (put_char fonts c v).buffer_idx ≡ v.buffer_idx + 1 =
        put_char-idx c v ∙ omega arith in
      let (q, idx) =
        put_text-Placed cs (put_char fonts c v) (put_char-Placed c v p (omega arith))
          (omega (arith, step)) in
      (q, omega (arith, idx, step))

  pub make_room-Placed :
      (v : Video)
      → Placed v
      → Placed (make_room fonts v) × ((make_room fonts v).buffer_idx < max_resolution)
  unfolding make_room
  make_room-Placed v p = elim (Bool-cases (v.buffer_idx == max_resolution)) [
    | inl e ↦
        let (q, idx) =
          put_text-Placed msg_buffer_exceeded (video_clear v) (video_clear-Placed v p)
            (omega (arith, video_clear-idx v)) in
        rw e (q, omega (arith, idx, video_clear-idx v))
    | inr e ↦ rw e (p, ground (arith, p.in_buffer))
  ]

  -- `printChar` leaves the cell of the next character on the screen, at a column and a row of cells,
  -- and the index of the buffer inside it, in each of the three fonts, on a screen of at most 65535
  -- rows and columns: at a newline, at the end of a row and of the screen, and where the buffer is
  -- full. A backspace does so only where the cell is not the first of the screen and the buffer is not
  -- empty.
  pub print_char-Placed :
      (c : ℕ) (v : Video)
      → ((c == 8) ≡ true → (0 < v.x + v.y) × (0 < v.buffer_idx))
      → Placed v
      → Placed (print_char fonts c v)
  unfolding print_char
  print_char-Placed c v back p = elim (Bool-cases (c == 8)) [
    | inl e ↦ rw e (backspace-Placed v p (back e).0 (back e).1)
    | inr e ↦
        let (q, room) = make_room-Placed v p in rw e (put_char-Placed c (make_room fonts v) q room)
  ]
