-- ===== src/Video/Glyphs.antt =====
-- Kernel/utils/drivers/video.c: which pixels a row of a character draws, from the bits of a font.
use tp2_so_2c.Prelude.{
  arith, ◌≡◌, refl, ap, ap₂, ◌∙◌, ℕ, zero, suc, ◌+◌, ◌-◌, ◌*◌, ◌/◌, ◌%◌, ◌^◌, ◌<◌, Bool, true,
  false, ◌&&◌, ltb, leb, ◌==◌, if◌then◌else◌, Bool-cases, inl, inr,
}
use tp2_so_2c.SysCalls.{Color}
use tp2_so_2c.Video.{fill, draw_columns}

-- What holds for 0 to 7 holds below 8.
below_eight :
    (P : ℕ → Type 0) → P 0 → P 1 → P 2 → P 3 → P 4 → P 5 → P 6 → P 7 → (r : ℕ) → r < 8 → P r
below_eight P a b c d e f g h zero small = a
below_eight P a b c d e f g h (suc zero) small = b
below_eight P a b c d e f g h (suc (suc zero)) small = c
below_eight P a b c d e f g h (suc (suc (suc zero))) small = d
below_eight P a b c d e f g h (suc (suc (suc (suc zero)))) small = e
below_eight P a b c d e f g h (suc (suc (suc (suc (suc zero))))) small = f
below_eight P a b c d e f g h (suc (suc (suc (suc (suc (suc zero)))))) small = g
below_eight P a b c d e f g h (suc (suc (suc (suc (suc (suc (suc zero))))))) small = h
below_eight P a b c d e f g h (suc (suc (suc (suc (suc (suc (suc (suc r)))))))) small =
    absurd (omega arith)

-- The next mask and the next byte, behind the bit `r` of a byte.
abbrev NextBit : ℕ → Type 0
NextBit r =
    (base t : ℕ)
    → t % 8 ≡ r
    → ((if leb 128 (2 ^ r) then base + t / 8 + 1 else base + t / 8) ≡ base + (t + 1) / 8)
      × ((if leb 128 (2 ^ r) then 1 else 2 ^ r * 2) ≡ 2 ^ ((t + 1) % 8))

pub pow_at : (r s : ℕ) → r ≡ s → 2 ^ r ≡ 2 ^ s
pow_at r s e = ap (λ x. 2 ^ x) e

next_bit : (r : ℕ) → r < 8 → NextBit r
next_bit =
    below_eight NextBit (λ base t e. (omega arith, pow_at 1 ((t + 1) % 8) (omega arith)))
      (λ base t e. (omega arith, pow_at 2 ((t + 1) % 8) (omega arith)))
      (λ base t e. (omega arith, pow_at 3 ((t + 1) % 8) (omega arith)))
      (λ base t e. (omega arith, pow_at 4 ((t + 1) % 8) (omega arith)))
      (λ base t e. (omega arith, pow_at 5 ((t + 1) % 8) (omega arith)))
      (λ base t e. (omega arith, pow_at 6 ((t + 1) % 8) (omega arith)))
      (λ base t e. (omega arith, pow_at 7 ((t + 1) % 8) (omega arith)))
      (λ base t e. (omega arith, pow_at 0 ((t + 1) % 8) (omega arith)))

-- The pixel `q` with the bits from `t` on drawn at the `n` pixels from `ptr` on.
abbrev pub drawn_row : (ℕ → Bool) → ℕ → ℕ → ℕ → Color → (ℕ → Color) → ℕ → Color
drawn_row bit n ptr t c p q = if leb ptr q && ltb q (ptr + n) && bit (t + (q - ptr)) then c else p q

abbrev with_pixel : Bool → ℕ → Color → (ℕ → Color) → ℕ → Color
with_pixel lit ptr c p = if lit then fill ptr 1 c p else p

with_pixel-other :
    (lit : Bool) (ptr q : ℕ) (c : Color) (p : ℕ → Color)
    → (q == ptr) ≡ false
    → with_pixel lit ptr c p q ≡ p q
unfolding fill
with_pixel-other true ptr q c p e =
    let out : (leb ptr q && ltb q (ptr + 1)) ≡ false = ground arith in rw out refl
with_pixel-other false ptr q c p e = refl

with_pixel-here :
    (lit : Bool) (ptr q : ℕ) (c : Color) (p : ℕ → Color)
    → (q == ptr) ≡ true
    → with_pixel lit ptr c p q ≡ (if lit then c else p q)
unfolding fill
with_pixel-here true ptr q c p e =
    let hit : (leb ptr q && ltb q (ptr + 1)) ≡ true = ground arith in rw hit refl
with_pixel-here false ptr q c p e = refl

row_step :
    (bit : ℕ → Bool) (n ptr t q : ℕ) (c : Color) (p : ℕ → Color)
    → drawn_row bit n (ptr + 1) (t + 1) c (with_pixel (bit t) ptr c p) q
      ≡ drawn_row bit (suc n) ptr t c p q
row_step bit n ptr t q c p = elim (Bool-cases (q == ptr)) [
  | inl e ↦
      let before : leb (ptr + 1) q ≡ false = ground arith in
      let from : leb ptr q ≡ true = ground arith in
      let upto : ltb q (ptr + suc n) ≡ true = ground arith in
      let index : t + (q - ptr) ≡ t = ground arith in
      rw (before, from, upto, index) (with_pixel-here (bit t) ptr q c p e)
  | inr e ↦ elim (Bool-cases (leb ptr q)) [
    | inl from ↦
        let behind : leb (ptr + 1) q ≡ true = ground arith in
        let upto : ltb q (ptr + 1 + n) ≡ ltb q (ptr + suc n) = ground arith in
        let index : t + 1 + (q - (ptr + 1)) ≡ t + (q - ptr) = ground arith in
        rw (behind, from, upto, index, with_pixel-other (bit t) ptr q c p e) refl
    | inr low ↦
        let behind : leb (ptr + 1) q ≡ false = ground arith in
        rw (behind, low) (with_pixel-other (bit t) ptr q c p e)
  ]
]

module _ (fonts : ℕ → ℕ → ℕ) where
  -- The bit `t` behind the byte `base` of a font, the lowest bit of a byte first.
  abbrev pub font_bit : ℕ → ℕ → ℕ → Bool
  font_bit font base t = fonts font (base + t / 8) / 2 ^ (t % 8) % 2 == 1

  columns_step :
      (font base n ptr t : ℕ) (c : Color) (p : ℕ → Color)
      → draw_columns fonts font (suc n) ptr (base + t / 8) (2 ^ (t % 8)) c p
        ≡ draw_columns fonts font n
            (ptr + 1)
            (base + (t + 1) / 8)
            (2 ^ ((t + 1) % 8))
            c
            (with_pixel (font_bit font base t) ptr c p)
  unfolding draw_columns
  columns_step font base n ptr t c p =
      let next = next_bit (t % 8) (omega arith) base t refl in
      ap₂
        (λ place mask.
          draw_columns fonts font n (ptr + 1) place mask c
            (with_pixel (font_bit font base t) ptr c p))
        next.0 next.1

  pub draw_columns-place :
      (font base n ptr t : ℕ) (c : Color) (p : ℕ → Color)
      → (draw_columns fonts font n ptr (base + t / 8) (2 ^ (t % 8)) c p).1 ≡ base + (t + n) / 8
  unfolding draw_columns
  draw_columns-place font base zero ptr t c p = omega arith
  draw_columns-place font base (suc n) ptr t c p =
      let sum : base + (t + 1 + n) / 8 ≡ base + (t + suc n) / 8 = omega arith in
      ap (λ r. r.1) (columns_step font base n ptr t c p)
      ∙ draw_columns-place font base n (ptr + 1) (t + 1) c
          (with_pixel (font_bit font base t) ptr c p)
      ∙ sum

  pub draw_columns-pixel :
      (font base n ptr t q : ℕ) (c : Color) (p : ℕ → Color)
      → (draw_columns fonts font n ptr (base + t / 8) (2 ^ (t % 8)) c p).0 q
        ≡ drawn_row (font_bit font base) n ptr t c p q
  unfolding draw_columns
  draw_columns-pixel font base zero ptr t q c p =
      let none : (leb ptr q && ltb q (ptr + 0)) ≡ false = ground arith in rw none refl
  draw_columns-pixel font base (suc n) ptr t q c p =
      let lit = font_bit font base t in
      ap (λ r. r.0 q) (columns_step font base n ptr t c p)
      ∙ draw_columns-pixel font base n (ptr + 1) (t + 1) q c (with_pixel lit ptr c p)
      ∙ row_step (font_bit font base) n ptr t q c p
