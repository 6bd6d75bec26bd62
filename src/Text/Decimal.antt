-- ===== src/Text/Decimal.antt =====
-- `strtoi`, `atoi` and `str_to_uint32` read what `itoa` writes.
use tp2_so_2c.Prelude.{
  ℕ, zero, suc, ◌+◌, ◌-◌, ◌*◌, ◌/◌, ◌%◌, ◌^◌, ◌<◌, ◌≡◌, refl, ap, sym, ◌∙◌, Bool-cases, inl, inr,
  true, false, ◌∷◌, ◌++◌, ltb, ◌==◌, arith, length,
}
use tp2_so_2c.Text.{Chars, digit, is_digit, digits_loop, strtoi, itoa}
use tp2_so_2c.Text.Digits.{numeral, size, half, itoa-numeral}

-- One more digit behind a number that is read.
digits_loop-digit :
    (n : ℕ) (tail : Chars)
    → n < 2 ^ 32
    → digits_loop (n / 10) (digit (n % 10) ∷ tail) ≡ digits_loop n tail
unfolding digits_loop
digits_loop-digit n tail small =
    let r : ℕ = n % 10 in
    let low : ltb 9 r ≡ false = ground arith in
    let char : digit r ≡ r + 48 = rw low in
    let is : is_digit (r + 48) ≡ true = ground arith in
    let value : (n / 10 * 10 + (r + 48) + (2 ^ 32 - 48)) % 2 ^ 32 ≡ n = omega arith in
    rw (char, is, value)

-- The loop of `strtoi` reads a number off its digits.
pub digits_loop-numeral :
    (f n : ℕ) (tail : Chars)
    → n < 2 ^ f
    → n < 2 ^ 32
    → digits_loop 0 (numeral f n 10 tail) ≡ digits_loop n tail
unfolding numeral
digits_loop-numeral zero n tail fuel small =
    let z : n ≡ 0 = omega arith in ap (λ k. digits_loop k tail) (sym z)
digits_loop-numeral (suc f) n tail fuel small = elim (Bool-cases (n == 0)) [
  | inl z ↦ let e : n ≡ 0 = ground arith in rw z (ap (λ k. digits_loop k tail) (sym e))
  | inr nz ↦ rw nz (
      digits_loop-numeral f (n / 10) (digit (n % 10) ∷ tail) (half f n 10 (omega arith) fuel)
        (omega arith)
      ∙ digits_loop-digit n tail small)
]

-- A positive number below 2 ^ 31 that `itoa` writes in base 10 is the one that `strtoi` reads
-- back, with the end of the string at the NUL, where the buffer has room for the digits and the
-- NUL.
pub strtoi-itoa :
    (n z : ℕ) (ys rest : Chars)
    → 0 < n
    → n < 2 ^ 31
    → length ys ≡ size 64 n 10
    → strtoi (itoa n (ys ++ (z ∷ rest)) 10).1 ≡ (n, 0 ∷ rest)
unfolding strtoi digits_loop
strtoi-itoa n z ys rest pos small sized =
    let read = digits_loop-numeral 64 n (0 ∷ rest) (omega arith) (omega arith) in
    rw (itoa-numeral n 10 z ys rest (omega arith) pos (omega arith) sized) read

-- Where no digit stands first, `strtoi` answers 0 and reads nothing.
pub strtoi-stop : (c : ℕ) (cs : Chars) → is_digit c ≡ false → strtoi (c ∷ cs) ≡ (0, c ∷ cs)
unfolding strtoi digits_loop
strtoi-stop c cs h = rw h refl
