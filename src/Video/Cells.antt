-- ===== src/Video/Cells.antt =====
-- Kernel/utils/drivers/video.c: which pixels a character draws, and in which color.
use tp2_so_2c.Prelude.{
  arith, ◌≡◌, refl, sym, ap, ap₂, ◌∙◌, ℕ, zero, suc, ◌+◌, ◌-◌, ◌*◌, ◌/◌, ◌%◌, ◌^◌, ◌≤◌, ◌<◌, Bool,
  true, false, ◌&&◌, ltb, leb, ◌==◌, if◌then◌else◌, Bool-cases, inl, inr,
}
use native.Mathlib.Nat.{mul-le-mul_right}
use tp2_so_2c.SysCalls.{Color}
use tp2_so_2c.Video.Cursor.{Placed, IsFont, remember-Placed}
use tp2_so_2c.Video.Glyphs.{pow_at, drawn_row, font_bit, draw_columns-place, draw_columns-pixel}
use tp2_so_2c.Video.{
  max_resolution, make_room, put_char, print_char, remember, advance, print_newline, last_column,
  Video, draw_columns, draw_rows, draw_char, first_char, last_char,
}

-- The pixel in the column `k` and the row `l`, which was `old`, when the bits from `t` on have been drawn
-- in the color `c` at the cell of `w` times `n` pixels from the column `x` and the row `y` on.
abbrev pub drawn_cell : (ℕ → Bool) → ℕ → ℕ → ℕ → ℕ → ℕ → Color → Color → ℕ → ℕ → Color
drawn_cell bit w n x y t c old k l =
    if leb y l && ltb l (y + n) && leb x k && ltb k (x + w) && bit (t + (l - y) * w + (k - x))
    then c
    else old

row_above : (W a b : ℕ) → a < b → a * W + W ≤ b * W
row_above W a b h =
    let le : suc a ≤ b = omega arith in
    let more : suc a * W ≡ a * W + W = grind arith in omega (arith, mul-le-mul_right W le, more)

row-miss :
    (bit : ℕ → Bool) (n ptr t q : ℕ) (c : Color) (p : ℕ → Color)
    → (leb ptr q && ltb q (ptr + n)) ≡ false
    → drawn_row bit n ptr t c p q ≡ p q
row-miss bit n ptr t q c p out = rw out refl

row-hit :
    (bit : ℕ → Bool) (n t W x y k : ℕ) (c : Color) (p : ℕ → Color)
    → drawn_row bit n (x + y * W) t c p (k + y * W)
      ≡ (if leb x k && ltb k (x + n) && bit (t + (k - x)) then c else p (k + y * W))
row-hit bit n t W x y k c p =
    let low : leb (x + y * W) (k + y * W) ≡ leb x k = ground arith in
    let high : ltb (k + y * W) (x + y * W + n) ≡ ltb k (x + n) = ground arith in
    let index : k + y * W - (x + y * W) ≡ k - x = omega arith in rw (low, high, index) refl

-- A row, and then the rows below it.
cell_step :
    (bit : ℕ → Bool) (w n W x y t k l : ℕ) (c : Color) (p : ℕ → Color)
    → k < W
    → x + w ≤ W
    → drawn_cell bit w n x (y + 1) (t + w) c (drawn_row bit w (x + y * W) t c p (k + l * W)) k l
      ≡ drawn_cell bit w (suc n) x y t c (p (k + l * W)) k l
cell_step bit w n W x y t k l c p inside fits = elim (Bool-cases (l == y)) [
  | inl e ↦
      let same : l ≡ y = ground arith in
      let next : leb (y + 1) y ≡ false = ground arith in
      let here : (leb y y && ltb y (y + suc n)) ≡ true = ground arith in
      let index : t + (y - y) * w + (k - x) ≡ t + (k - x) =
        let zero_rows : y - y ≡ 0 = omega arith in rw zero_rows (omega arith) in
      rw (same, next, here, index) (row-hit bit w t W x y k c p)
  | inr e ↦ elim (Bool-cases (leb y l)) [
    | inl from ↦
        let above = row_above W y l (ground arith) in
        let out : (leb (x + y * W) (k + l * W) && ltb (k + l * W) (x + y * W + w)) ≡ false =
          ground arith in
        let next : leb (y + 1) l ≡ true = ground arith in
        let upto : ltb l (y + 1 + n) ≡ ltb l (y + suc n) = ground arith in
        let index : t + w + (l - (y + 1)) * w + (k - x) ≡ t + (l - y) * w + (k - x) =
          let rows : l - y ≡ suc (l - (y + 1)) = ground arith in
          let more : suc (l - (y + 1)) * w ≡ (l - (y + 1)) * w + w = grind arith in
          rw rows (omega (arith, more)) in
        rw (row-miss bit w (x + y * W) t (k + l * W) c p out, next, from, upto, index) refl
    | inr low ↦
        let above = row_above W l y (ground arith) in
        let out : (leb (x + y * W) (k + l * W) && ltb (k + l * W) (x + y * W + w)) ≡ false =
          ground arith in
        let next : leb (y + 1) l ≡ false = ground arith in
        rw (row-miss bit w (x + y * W) t (k + l * W) c p out, next, low) refl
  ]
]

whole_bytes : (w h : ℕ) → IsFont w h → w % 8 ≡ 0
whole_bytes w h font = ground arith

-- The cursor goes on without a change of the pixels where the next row is on the screen.
advance-pixels : (v : Video) → v.y + 2 * v.char_height ≤ v.height → (advance v).pixels ≡ v.pixels
unfolding advance print_newline
advance-pixels v rows =
    let below : leb (v.y + 2 * v.char_height) v.height ≡ true = ground arith in
    elim (Bool-cases (ltb (last_column v) ((v.x + v.char_width) % 2 ^ 16))) [
      | inl e ↦ rw (e, below) refl
      | inr e ↦ rw e refl
    ]

module _ (fonts : ℕ → ℕ → ℕ) where
  rows_step :
      (v : Video) (base n y t : ℕ) (p : ℕ → Color)
      → t % 8 ≡ 0
      → y + 1 < 2 ^ 16
      → draw_rows fonts v (suc n) y (base + t / 8) p
        ≡ draw_rows fonts v n
            (y + 1)
            (base + (t + v.char_width) / 8)
            (draw_columns fonts v.font v.char_width
              (v.x + y * v.width)
              (base + t / 8)
              (2 ^ (t % 8))
              v.font_color
              p).0
  unfolding draw_rows
  rows_step v base n y t p whole low =
      let columns : ℕ → (ℕ → Color) × ℕ = λ mask.
        draw_columns fonts v.font v.char_width (v.x + y * v.width) (base + t / 8) mask v.font_color
          p in
      let mask : 1 ≡ 2 ^ (t % 8) = pow_at 0 (t % 8) (sym whole) in
      let row : (y + 1) % 2 ^ 16 ≡ y + 1 = omega arith in
      ap (λ m. draw_rows fonts v n ((y + 1) % 2 ^ 16) (columns m).1 (columns m).0) mask
      ∙ ap₂ (λ l place. draw_rows fonts v n l place (columns (2 ^ (t % 8))).0) row
          (draw_columns-place fonts v.font base v.char_width (v.x + y * v.width) t v.font_color p)

  draw_rows-pixel :
      (v : Video) (base n y t k l : ℕ) (p : ℕ → Color)
      → t % 8 ≡ 0
      → v.char_width % 8 ≡ 0
      → y + n < 2 ^ 16
      → k < v.width
      → v.x + v.char_width ≤ v.width
      → draw_rows fonts v n y (base + t / 8) p (k + l * v.width)
        ≡ drawn_cell
            (font_bit fonts v.font base)
            v.char_width
            n
            v.x
            y
            t
            v.font_color
            (p (k + l * v.width))
            k
            l
  unfolding draw_rows
  draw_rows-pixel v base zero y t k l p whole wide low inside fits =
      let none : (leb y l && ltb l (y + 0)) ≡ false = ground arith in rw none refl
  draw_rows-pixel v base (suc n) y t k l p whole wide low inside fits =
      let w = v.char_width in
      let bit = font_bit fonts v.font base in
      let q = k + l * v.width in
      let p1 =
        (draw_columns fonts v.font w (v.x + y * v.width) (base + t / 8) (2 ^ (t % 8)) v.font_color
          p).0 in
      ap (λ f. f q) (rows_step v base n y t p whole (omega arith))
      ∙ draw_rows-pixel v base n (y + 1) (t + w) k l p1 (omega arith) wide (omega arith) inside fits
      ∙ ap (λ old. drawn_cell bit w n v.x (y + 1) (t + w) v.font_color old k l)
          (draw_columns-pixel fonts v.font base w (v.x + y * v.width) t q v.font_color p)
      ∙ cell_step bit w n v.width v.x y t k l v.font_color p inside fits

  draw_char-pixel :
      (c k l : ℕ) (v : Video)
      → Placed v
      → first_char ≤ c
      → c ≤ last_char
      → k < v.width
      → draw_char fonts c v (k + l * v.width)
        ≡ drawn_cell
            (font_bit fonts v.font (v.char_height * v.char_width * (c - first_char) / 8))
            v.char_width
            v.char_height
            v.x
            v.y
            0
            v.font_color
            (v.pixels (k + l * v.width))
            k
            l
  unfolding draw_char
  draw_char-pixel c k l v p low high inside =
      let base = v.char_height * v.char_width * (c - first_char) / 8 in
      let seen : (leb first_char c && leb c last_char) ≡ true = ground arith in
      let start : base ≡ base + 0 / 8 = omega arith in
      let cell = p.is_cell in
      let bottom : v.y + v.char_height < 2 ^ 16 = omega (arith, p.low, cell.3) in
      rw seen (
        ap (λ place. draw_rows fonts v v.char_height v.y place v.pixels (k + l * v.width)) start
        ∙ draw_rows-pixel v base v.char_height v.y 0 k l v.pixels refl
            (whole_bytes v.char_width v.char_height p.is_font) bottom inside cell.2)

  -- A visible character is drawn in its cell and nowhere else, where the buffer is not full and the
  -- cursor is not in the last row of cells: behind `printChar`, a pixel of the screen has the color of
  -- the font where it lies in the cell at the cursor and its bit in the character's bitmap is set, the
  -- bits of the bitmap row by row, the lowest of each byte first; every other pixel is as it was.
  pub print_char-draws :
      (c k l : ℕ) (v : Video)
      → Placed v
      → first_char ≤ c
      → c ≤ last_char
      → v.buffer_idx < max_resolution
      → v.y + 2 * v.char_height ≤ v.height
      → k < v.width
      → (print_char fonts c v).pixels (k + l * v.width)
        ≡ drawn_cell
            (font_bit fonts v.font (v.char_height * v.char_width * (c - first_char) / 8))
            v.char_width
            v.char_height
            v.x
            v.y
            0
            v.font_color
            (v.pixels (k + l * v.width))
            k
            l
  unfolding print_char make_room put_char remember
  print_char-draws c k l v p low high room rows inside =
      let seen : (c == 8) ≡ false = ground arith in
      let line : (c == 10) ≡ false = ground arith in
      let free : (v.buffer_idx == max_resolution) ≡ false = ground arith in
      let kept = remember c v in
      rw (seen, free, line)
        (ap (λ f. f (k + l * v.width))
            (advance-pixels (record kept { pixels = draw_char fonts c kept }) rows)
          ∙ draw_char-pixel c k l kept (remember-Placed c v p room) low high inside)
