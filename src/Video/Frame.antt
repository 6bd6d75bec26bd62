-- ===== src/Video/Frame.antt =====
-- Kernel/utils/drivers/video.c: nothing is drawn behind the frame buffer.
use tp2_so_2c.Prelude.{
  arith, ◌≡◌, refl, ap, ◌∙◌, ℕ, zero, suc, ◌+◌, ◌-◌, ◌*◌, ◌/◌, ◌%◌, ◌^◌, ◌≤◌, ◌<◌, Bool, true,
  false, ◌&&◌, [], ◌∷◌, ltb, leb, ◌==◌, if◌then◌else◌, Bool-cases, inl, inr, length,
}
use native.Mathlib.Nat.{mul-le-mul_right, add-mul, mul_comm}
use tp2_so_2c.Text.{Chars}
use tp2_so_2c.SysCalls.{Color}
use tp2_so_2c.Video.{
  Video, black, max_resolution, msg_buffer_exceeded, last_column, fill, video_clear, rect_rows,
  draw_rect, scroll, print_newline, step_back, backspace, draw_columns, draw_rows, draw_char,
  advance, remember, put_char, put_text, make_room, print_char, at_most, get_ptr_to_pixel,
}
use tp2_so_2c.Video.Cursor.{
  Placed, put_char-Placed, put_char-idx, make_room-Placed, video_clear-Placed, video_clear-idx,
}

fill-beyond : (start n i : ℕ) (c : Color) (p : ℕ → Color) → start + n ≤ i → fill start n c p i ≡ p i
unfolding fill
fill-beyond start n i c p h =
    let out : (leb start i && ltb i (start + n)) ≡ false = ground arith in rw out refl

rect_rows-beyond :
    (n ptr w d i : ℕ) (c : Color) (p : ℕ → Color)
    → ptr + n * (w + d) ≤ i + d
    → rect_rows n ptr w d c p i ≡ p i
unfolding rect_rows
rect_rows-beyond zero ptr w d i c p h = refl
rect_rows-beyond (suc n) ptr w d i c p h =
    let more : suc n * (w + d) ≡ n * (w + d) + (w + d) = grind arith in
    rect_rows-beyond n (ptr + w + d) w d i c (fill ptr w c p) (omega (arith, more))
    ∙ fill-beyond ptr w i c p (omega (arith, more))

-- The pixel of a row before another row.
row_before : (y n w h : ℕ) → y + n ≤ h → y * w + n * w ≤ h * w
row_before y n w h le = omega (arith, mul-le-mul_right w le, add-mul y n w)

draw_rect-beyond :
    (x y w h i : ℕ) (c : Color) (v : Video)
    → v.width * v.height ≤ i
    → (draw_rect x y w h c v).pixels i ≡ v.pixels i
unfolding draw_rect
draw_rect-beyond x y w h i c v out = elim (Bool-cases (ltb x v.width && ltb y v.height)) [
  | inl e ↦
      let columns = at_most (v.width - x) w in
      let rows = at_most (v.height - y) h in
      let inside : (x + columns ≤ v.width) × (y + rows ≤ v.height) = ground arith in
      let below = row_before y rows v.width v.height inside.1 in
      let across : columns + (v.width - columns) ≡ v.width = omega (arith, inside.0) in
      let turned : v.width * v.height ≡ v.height * v.width = mul_comm v.width v.height in
      rw e (
        rect_rows-beyond rows (get_ptr_to_pixel v x y) columns (v.width - columns) i c v.pixels
          (rw across (omega (arith, inside.0, below, turned))))
  | inr e ↦ rw e refl
]

one_pixel :
    (lit : Bool) (ptr i : ℕ) (c : Color) (p : ℕ → Color)
    → ptr + 1 ≤ i
    → (if lit then fill ptr 1 c p else p) i ≡ p i
one_pixel true ptr i c p h = fill-beyond ptr 1 i c p h
one_pixel false ptr i c p h = refl

draw_columns-beyond :
    (fonts : ℕ → ℕ → ℕ) (font n ptr place mask i : ℕ) (c : Color) (p : ℕ → Color)
    → ptr + n ≤ i
    → (draw_columns fonts font n ptr place mask c p).0 i ≡ p i
unfolding draw_columns
draw_columns-beyond fonts font zero ptr place mask i c p h = refl
draw_columns-beyond fonts font (suc n) ptr place mask i c p h =
    let place' = if leb 128 mask then place + 1 else place in
    let mask' = if leb 128 mask then 1 else mask * 2 in
    let byte = fonts font place in
    let p' = if byte / mask % 2 == 1 then fill ptr 1 c p else p in
    draw_columns-beyond fonts font n (ptr + 1) place' mask' i c p' (omega arith)
    ∙ one_pixel (byte / mask % 2 == 1) ptr i c p (omega arith)

draw_rows-beyond :
    (fonts : ℕ → ℕ → ℕ) (v : Video) (n y place i : ℕ) (p : ℕ → Color)
    → v.height < 2 ^ 16
    → v.x + v.char_width ≤ v.width
    → y + n ≤ v.height
    → v.height * v.width ≤ i
    → draw_rows fonts v n y place p i ≡ p i
unfolding draw_rows
draw_rows-beyond fonts v zero y place i p low wide high out = refl
draw_rows-beyond fonts v (suc n) y place i p low wide high out =
    let row =
      draw_columns fonts v.font v.char_width (get_ptr_to_pixel v v.x y) place 1 v.font_color p in
    let below = row_before y 1 v.width v.height (omega arith) in
    let no_wrap : (y + 1) % 2 ^ 16 ≡ y + 1 = omega arith in
    let one : 1 * v.width ≡ v.width = omega arith in
    ap (λ k. draw_rows fonts v n k row.1 row.0 i) no_wrap
    ∙ draw_rows-beyond fonts v n (y + 1) row.1 i row.0 low wide (omega arith) out
    ∙ draw_columns-beyond fonts v.font v.char_width (get_ptr_to_pixel v v.x y) place 1 i
        v.font_color p (omega (arith, below, one))

-- The screen has the same size, and no pixel behind its last one has changed.
abbrev pub Keeps : Video → Video → Type 0
Keeps v v' =
    (v'.width ≡ v.width)
    × (v'.height ≡ v.height)
    × ((i : ℕ) → v.height * v.width ≤ i → v'.pixels i ≡ v.pixels i)

Keeps-trans : (u v w : Video) → Keeps u v → Keeps v w → Keeps u w
Keeps-trans u v w (a, b, p) (c, d, q) = (c ∙ a, d ∙ b, λ i h. q i (rw (a, b) h) ∙ p i h)

unmoved : (n i : ℕ) (a b : Color) → n ≤ i → (if ltb i n then a else b) ≡ b
unmoved n i a b h = let out : ltb i n ≡ false = ground arith in rw out refl

rows_fit : (h r w i : ℕ) → r ≤ h → h * w ≤ i → (h - r) * w + w * r ≤ i
rows_fit h r w i le out =
    let total : h - r + r ≡ h = omega arith in
    omega (arith, add-mul (h - r) r w, mul_comm w r, ap (λ k. k * w) total)

above : (h r w i : ℕ) → h * w ≤ i → w * (h - r) ≤ i
above h r w i out =
    let less : h - r ≤ h = omega arith in omega (arith, mul_comm w (h - r), mul-le-mul_right w less)

print_newline-Keeps : (v : Video) → v.char_height ≤ v.height → Keeps v (print_newline v)
unfolding print_newline scroll
print_newline-Keeps v fits = elim (Bool-cases (leb (v.y + 2 * v.char_height) v.height)) [
  | inl e ↦ rw e (refl, refl, λ i h. refl)
  | inr e ↦ rw e (
    refl,
    refl,
    λ i h.
        fill-beyond ((v.height - v.char_height) * v.width) (v.width * v.char_height) i black
          (λ (k : ℕ).
            if ltb k (v.width * (v.height - v.char_height))
            then v.pixels (k + v.char_height * v.width)
            else v.pixels k)
          (rows_fit v.height v.char_height v.width i fits h)
        ∙ unmoved (v.width * (v.height - v.char_height)) i (v.pixels (i + v.char_height * v.width))
            (v.pixels i) (above v.height v.char_height v.width i h),
  )
]

advance-Keeps : (v : Video) → v.char_height ≤ v.height → Keeps v (advance v)
unfolding advance
advance-Keeps v fits = elim (Bool-cases (ltb (last_column v) ((v.x + v.char_width) % 2 ^ 16))) [
  | inl e ↦ rw e (print_newline-Keeps (record v { x = (v.x + v.char_width) % 2 ^ 16 }) fits)
  | inr e ↦ rw e (refl, refl, λ i h. refl)
]

video_clear-Keeps : (v : Video) → Keeps v (video_clear v)
unfolding video_clear
video_clear-Keeps v = (
  refl,
  refl,
  λ i h.
      fill-beyond 0 (v.width * v.height) i black v.pixels
        (omega (arith, mul_comm v.width v.height)),
)

step_back-Keeps : (v : Video) → Keeps v (step_back v)
unfolding step_back
step_back-Keeps v = elim (Bool-cases (ltb v.x v.char_width && ltb 0 v.y)) [
  | inl e ↦ rw e (refl, refl, λ i h. refl)
  | inr e ↦ rw e (refl, refl, λ i h. refl)
]

draw_rect-width : (x y w h : ℕ) (c : Color) (v : Video) → (draw_rect x y w h c v).width ≡ v.width
unfolding draw_rect
draw_rect-width x y w h c v = elim (Bool-cases (ltb x v.width && ltb y v.height)) [
  | inl e ↦ rw e refl
  | inr e ↦ rw e refl
]

draw_rect-height : (x y w h : ℕ) (c : Color) (v : Video) → (draw_rect x y w h c v).height ≡ v.height
unfolding draw_rect
draw_rect-height x y w h c v = elim (Bool-cases (ltb x v.width && ltb y v.height)) [
  | inl e ↦ rw e refl
  | inr e ↦ rw e refl
]

draw_rect-Keeps : (x y w h : ℕ) (c : Color) (v : Video) → Keeps v (draw_rect x y w h c v)
draw_rect-Keeps x y w h c v = (
  draw_rect-width x y w h c v,
  draw_rect-height x y w h c v,
  λ i out. draw_rect-beyond x y w h i c v (omega (arith, out, mul_comm v.width v.height)),
)

backspace-Keeps : (v : Video) → Keeps v (backspace v)
unfolding backspace
backspace-Keeps v =
    let s = step_back v in
    Keeps-trans v s (draw_rect s.x s.y s.char_width s.char_height black s) (step_back-Keeps v)
      (draw_rect-Keeps s.x s.y s.char_width s.char_height black s)

module _ (fonts : ℕ → ℕ → ℕ) where
  draw_char-beyond :
      (c i : ℕ) (v : Video)
      → v.height < 2 ^ 16
      → v.x + v.char_width ≤ v.width
      → v.y + v.char_height ≤ v.height
      → v.height * v.width ≤ i
      → draw_char fonts c v i ≡ v.pixels i
  unfolding draw_char
  draw_char-beyond c i v low wide high h = elim (Bool-cases (leb 33 c && leb c 126)) [
    | inl e ↦
        let place = v.char_height * v.char_width * (c - 33) / 8 in
        rw e (draw_rows-beyond fonts v v.char_height v.y place i v.pixels low wide high h)
    | inr e ↦ rw e refl
  ]

  put_char-Keeps : (c : ℕ) (v : Video) → Placed v → Keeps v (put_char fonts c v)
  unfolding put_char remember
  put_char-Keeps c v p =
      let (_, _, wide, high) = p.is_cell in
      let fits : v.char_height ≤ v.height = omega (arith, high) in
      elim (Bool-cases (c == 10)) [
        | inl e ↦ rw e (print_newline-Keeps (remember c v) fits)
        | inr e ↦ rw e (
            let kept = remember c v in
            let drawn = record kept { pixels = draw_char fonts c kept } in
            Keeps-trans v drawn (advance drawn)
              (refl, refl, λ i h. draw_char-beyond c i kept p.low wide high h)
              (advance-Keeps drawn fits))
      ]

  put_text-Keeps :
      (t : Chars) (v : Video)
      → Placed v
      → v.buffer_idx + length t ≤ max_resolution
      → Keeps v (put_text fonts t v)
  unfolding put_text
  put_text-Keeps [] v p room = (refl, refl, λ i h. refl)
  put_text-Keeps (c ∷ cs) v p room =
      let next = put_char fonts c v in
      let step : next.buffer_idx ≡ v.buffer_idx + 1 = put_char-idx fonts c v ∙ omega arith in
      Keeps-trans v next (put_text fonts cs next) (put_char-Keeps c v p)
        (put_text-Keeps cs next (put_char-Placed fonts c v p (omega arith)) (omega (arith, step)))

  make_room-Keeps : (v : Video) → Placed v → Keeps v (make_room fonts v)
  unfolding make_room
  make_room-Keeps v p = elim (Bool-cases (v.buffer_idx == max_resolution)) [
    | inl e ↦
        let blank = video_clear v in
        rw e (
          Keeps-trans v blank (put_text fonts msg_buffer_exceeded blank) (video_clear-Keeps v) (
            put_text-Keeps msg_buffer_exceeded blank (video_clear-Placed v p)
              (omega (arith, video_clear-idx v))))
    | inr e ↦ rw e (refl, refl, λ i h. refl)
  ]

  -- `printChar` draws nothing behind the frame buffer: from a cursor on a cell of the screen, whatever
  -- the character, no pixel behind the last row changes, also where the screen scrolls or is cleared,
  -- and the size of the screen stays.
  pub print_char-Keeps : (c : ℕ) (v : Video) → Placed v → Keeps v (print_char fonts c v)
  unfolding print_char
  print_char-Keeps c v p = elim (Bool-cases (c == 8)) [
    | inl e ↦ rw e (backspace-Keeps v)
    | inr e ↦
        let roomy = make_room fonts v in
        rw e (
          Keeps-trans v roomy (put_char fonts c roomy) (make_room-Keeps v p)
            (put_char-Keeps c roomy (make_room-Placed fonts v p).0))
  ]
